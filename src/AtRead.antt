-- ===== src/AtRead.antt =====
-- src/at_read.c and the loop of src/monitor_thread.c that it serves: responses of the modem are cut
-- out of the byte ring. `read_result` is 0 between responses and 1 inside one. What is read from the
-- device enters as the bytes that `readv` gives.
pub mod Loops
pub mod Rounds
pub mod Lines
pub mod Tests
use asterisk_chan_quectel.Prelude.{
  ℕ, zero, suc, ◌+◌, ◌-◌, Bool, true, false, not, ◌&&◌, ◌||◌, Option, none, some, List, [], ◌∷◌,
  ◌++◌, ltb, leb, ◌==◌, if◌then◌else◌, add_size, sub_size, length, drop,
}
use asterisk_chan_quectel.Ring.{
  Ringbuffer, Iov, Verdict, equal, differs, too_short, rb_reset, rb_used, rb_memcmp,
  rb_read_all_iov, rb_read_n_iov, rb_read_upd, rb_read_is_printable, rb_write_iov, rb_write_upd,
}
use asterisk_chan_quectel.Ring.Gather.{gather}
use asterisk_chan_quectel.Ring.Search.{memmem, rb_read_until_char_iov, rb_read_until_mem_iov}

-- "+CMGR:"
abbrev pub m_cmgr : List ℕ
m_cmgr = b'+' ∷ b'C' ∷ b'M' ∷ b'G' ∷ b'R' ∷ b':' ∷ []

-- "+CNUM:"
abbrev pub m_cnum : List ℕ
m_cnum = b'+' ∷ b'C' ∷ b'N' ∷ b'U' ∷ b'M' ∷ b':' ∷ []

-- "ERROR+CNUM:"
abbrev pub m_error_cnum : List ℕ
m_error_cnum = b'E' ∷ b'R' ∷ b'R' ∷ b'O' ∷ b'R' ∷ b'+' ∷ b'C' ∷ b'N' ∷ b'U' ∷ b'M' ∷ b':' ∷ []

-- "+CMGL:"
abbrev pub m_cmgl : List ℕ
m_cmgl = b'+' ∷ b'C' ∷ b'M' ∷ b'G' ∷ b'L' ∷ b':' ∷ []

-- "\r\n"
abbrev pub m_eol : List ℕ
m_eol = 13 ∷ 10 ∷ []

-- "> "
abbrev pub m_sms_prompt : List ℕ
m_sms_prompt = b'>' ∷ b' ' ∷ []

-- "+CMT:"
abbrev pub m_cmt : List ℕ
m_cmt = b'+' ∷ b'C' ∷ b'M' ∷ b'T' ∷ b':' ∷ []

-- "+CBM:"
abbrev pub m_cbm : List ℕ
m_cbm = b'+' ∷ b'C' ∷ b'B' ∷ b'M' ∷ b':' ∷ []

-- "+CDS:"
abbrev pub m_cds : List ℕ
m_cds = b'+' ∷ b'C' ∷ b'D' ∷ b'S' ∷ b':' ∷ []

-- "+CLASS0:"
abbrev pub m_class0 : List ℕ
m_class0 = b'+' ∷ b'C' ∷ b'L' ∷ b'A' ∷ b'S' ∷ b'S' ∷ b'0' ∷ b':' ∷ []

-- "\r\n\r\nOK\r\n"
abbrev pub t_ok : List ℕ
t_ok = 13 ∷ 10 ∷ 13 ∷ 10 ∷ b'O' ∷ b'K' ∷ 13 ∷ 10 ∷ []

-- "\r\n+CMGL:"
abbrev pub t_cmgl : List ℕ
t_cmgl = 13 ∷ 10 ∷ m_cmgl

unfoldable pub at_get_iov_size : Iov → ℕ
at_get_iov_size iov = add_size iov.len0 iov.len1

-- `at_combine_iov`: the bytes that the string holds after it; their number is what it returns.
abbrev pub at_combine_iov : Ringbuffer → Iov → ℕ → List ℕ
at_combine_iov rb iov iovcnt = gather rb.buffer (iovcnt, iov)

-- Where the second "\r\n" stands, searched behind the first one.
unfoldable pub second_eol : List ℕ → Option ℕ → ℕ
second_eol b none = 0
second_eol b (some p) =
    let shift = p + 2 in elim (memmem (drop shift b) m_eol) [ none ↦ 0 | some q ↦ shift + q ]

-- The place, and the `iov` that is left behind.
unfoldable pub get_2ndeol_pos : Ringbuffer → Iov → ℕ × Iov
unfolding second_eol
get_2ndeol_pos rb iov =
    let (iovcnt, iov') = rb_read_all_iov rb iov in
    if iovcnt == 0
    then (0, iov')
    else (let b = at_combine_iov rb iov' iovcnt in (second_eol b (memmem b m_eol), iov'))

-- What the reader keeps between its calls, and `iov`.
pub record Reader : Type 0 where
  pub rb : Ringbuffer
  pub read_result : ℕ
  pub skip : ℕ
  pub iov : Iov

-- The outcome of one pass: the call of itself, or a result.
pub data Pass : Type 0 where
  again : Reader → Pass
  done : ℕ → Reader → Pass

abbrev pub is_equal : Verdict → Bool
is_equal equal = true
is_equal differs = false
is_equal too_short = false

-- `!rb_memcmp(rb, mem, len)`
abbrev pub is_at : Ringbuffer → List ℕ → Bool
is_at rb mem = is_equal (rb_memcmp rb mem (length mem))

abbrev pub dropped : ℕ → Reader → Reader
dropped n r = record r { rb = (rb_read_upd r.rb n).0 }

-- Between responses, at bytes that are no "\r\n".
unfoldable pub pass_noise : Reader → Pass
unfolding at_get_iov_size
pass_noise r =
    if rb_read_is_printable r.rb
    then again (record r { read_result = 1 })
    else (if is_at r.rb (10 ∷ [])
        then again (dropped 1 r)
        else (let (found, iov') = rb_read_until_char_iov r.rb r.iov 13 in
            if not (found == 0)
            then again (dropped (add_size (at_get_iov_size iov') 1) (record r { iov = iov' }))
            else again (dropped r.rb.used (record r { iov = iov' }))))

unfoldable pub pass_between : Reader → Verdict → Pass
unfolding pass_noise
pass_between r equal = again (record (dropped 2 r) { read_result = 1 })
pass_between r differs = pass_noise r
pass_between r too_short = done 0 r

abbrev pub skipping : ℕ → Reader → Reader
skipping n r = record r { skip = add_size r.skip n }

-- A search for `mem`; where it is found, so many more bytes are skipped.
unfoldable pub pass_until : List ℕ → ℕ → Reader → Pass
pass_until mem skip r =
    let (iovcnt, iov') = rb_read_until_mem_iov r.rb r.iov mem (length mem) in
    let r' : Reader = record r { iov = iov' } in
    if iovcnt == 0 then done 0 r' else done iovcnt (skipping skip r')

unfoldable pub pass_cmgl : Reader → Pass
unfolding pass_until
pass_cmgl r =
    let (iovcnt, iov') = rb_read_until_mem_iov r.rb r.iov t_cmgl (length t_cmgl) in
    let r' : Reader = record r { iov = iov' } in
    if iovcnt == 0 then pass_until t_ok 4 r' else done iovcnt (skipping 2 r')

unfoldable pub pass_two_lines : Reader → Pass
unfolding get_2ndeol_pos
pass_two_lines r =
    let (s, iov') = get_2ndeol_pos r.rb r.iov in
    let (iovcnt, iov'') = rb_read_n_iov r.rb iov' s in
    if s == 0
    then done 0 (record r { iov = iov' })
    else done iovcnt (record (skipping 1 r) { read_result = 0; iov = iov'' })

unfoldable pub pass_line : Reader → Pass
pass_line r =
    let (iovcnt, iov') = rb_read_until_mem_iov r.rb r.iov m_eol (length m_eol) in
    let r' : Reader = record r { iov = iov' } in
    if iovcnt == 0 then done 0 r' else done iovcnt (record (skipping 1 r') { read_result = 0 })

unfoldable pub pass_prompt : Reader → Pass
pass_prompt r =
    let (iovcnt, iov') = rb_read_n_iov r.rb r.iov (length m_sms_prompt) in
    done iovcnt (record r { read_result = 0; iov = iov' })

unfoldable pub pass_inside : Reader → Pass
unfolding pass_prompt pass_until pass_cmgl pass_two_lines pass_line
pass_inside r =
    if is_at r.rb m_sms_prompt
    then pass_prompt r
    else (if is_at r.rb m_cmgr || is_at r.rb m_cnum || is_at r.rb m_error_cnum
        then pass_until t_ok 4 r
        else (if is_at r.rb m_cmgl
            then pass_cmgl r
            else (if is_at r.rb m_cmt || is_at r.rb m_cbm || is_at r.rb m_cds || is_at r.rb m_class0
                then pass_two_lines r
                else pass_line r)))

-- One pass of `at_read_result_iov`, up to its call of itself.
unfoldable pub pass : Reader → Pass
unfolding pass_between pass_inside
pass r =
    if ltb 0 r.rb.used
    then (if r.read_result == 0
        then pass_between r (rb_memcmp r.rb m_eol (length m_eol))
        else pass_inside r)
    else done 0 r

-- `at_read_result_iov`, with fuel for its calls of itself; `none` means that the fuel ran out.
unfoldable pub read_passes : ℕ → Pass → Option (ℕ × Reader)
read_passes fuel (done n r) = some (n, r)
read_passes zero (again r) = none
read_passes (suc fuel) (again r) = read_passes fuel (pass r)

-- So many calls of itself as it can need.
abbrev pub enough : Reader → ℕ
enough r = r.rb.used + r.rb.used + 1

unfoldable pub at_read_result_iov : Reader → Option (ℕ × Reader)
unfolding read_passes pass
at_read_result_iov r = read_passes (enough r) (pass r)

-- What becomes of a response: it is handed to the task processor, there is no memory for it, or the
-- task processor refuses it.
pub data Push : Type 0 where
  pushed no_memory refused : Push

-- Why the loop of the monitor ends: nothing more is whole, or the device is to be restarted.
pub data Drained : Type 0 where
  waiting restart : List (List ℕ) → Reader → Drained

-- The response is taken off the ring, with the bytes to skip.
unfoldable pub consume : ℕ → Reader → Reader
consume len r = record r { rb = (rb_read_upd r.rb (add_size len r.skip)).0; skip = 0 }

-- What is done with a response; `go` is the next round, and the responses handed on stand in order.
abbrev pub hand_on :
    (List (List ℕ) → Reader → Option Drained)
    → Push
    → List ℕ
    → List (List ℕ)
    → Reader
    → Option Drained
hand_on go pushed text out r = go (out ++ (text ∷ [])) r
hand_on go no_memory text out r = go out r
hand_on go refused text out r = some (restart out r)

-- The body of the loop for a result of `at_read_result_iov`.
unfoldable pub after_result :
    (List (List ℕ) → Reader → Option Drained)
    → Push
    → List (List ℕ)
    → Option (ℕ × Reader)
    → Option Drained
unfolding consume
after_result go push out none = none
after_result go push out (some (iovcnt, r)) =
    let text = at_combine_iov r.rb r.iov iovcnt in
    let r' = consume (length text) r in
    if iovcnt == 0
    then some (waiting out r)
    else (if length text == 0 then go out r' else hand_on go push text out r')

-- `while ((iovcnt = at_read_result_iov(...)) > 0)` of the monitor thread, with fuel for its rounds;
-- `push` says what becomes of the response of each round.
unfoldable pub read_responses : (ℕ → Push) → ℕ → List (List ℕ) → Reader → Option Drained
unfolding after_result at_read_result_iov
read_responses push zero out r = none
read_responses push (suc fuel) out r =
    after_result (read_responses push fuel) (push fuel) out (at_read_result_iov r)
