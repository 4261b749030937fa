-- ===== src/AtRead/Loops.antt =====
-- The calls that `at_read_result_iov` of src/at_read.c makes of itself come to an end.
use asterisk_chan_quectel.Prelude.{
  ℕ, zero, suc, ◌+◌, ◌-◌, ◌^◌, ◌≤◌, ◌<◌, ◌≡◌, refl, inl, inr, true, false, not, ◌||◌, Option, some,
  List, [], ◌∷◌, arith, ltb, leb, ltb→lt, ap, ◌∙◌, length-take, length-append, ◌==◌, if◌then◌else◌,
  min, add_size, sub_size, slice, length, length-slice, Bool-cases, Option-cases, if-elim,
}
use native.Mathlib.Decide.{dec_le}
use asterisk_chan_quectel.Ring.{
  Ringbuffer, Iov, Verdict, equal, differs, too_short, rb_read_upd, rb_read_is_printable,
}
use asterisk_chan_quectel.Ring.Bounds.{IsValid, clip-min, rb_read_upd-IsValid}
use asterisk_chan_quectel.Ring.Contents.{contents, length-window}
use asterisk_chan_quectel.Ring.Gather.{gather, gather-rb_read_n_iov, rb_memcmp_lem}
use asterisk_chan_quectel.Ring.Search.{np_memchr, rb_read_until_char_iov, rb_read_until_mem_iov}
use asterisk_chan_quectel.Ring.Search.Chars.{np_memchr-lt}
use asterisk_chan_quectel.AtRead.{
  at_get_iov_size, at_combine_iov, get_2ndeol_pos, is_equal, Reader, Pass, again, done, is_at,
  dropped, pass_noise, pass_between, pass_until, pass_cmgl, pass_two_lines, pass_line, pass_prompt,
  pass_inside, pass, read_passes, enough, at_read_result_iov, m_eol, m_sms_prompt, m_cmgr, m_cnum,
  m_error_cnum, m_cmgl, m_cmt, m_cbm, m_cds, m_class0, t_ok, t_cmgl,
}

pub used-rb_read_upd :
    {rb : Ringbuffer} (len : ℕ)
    → IsValid rb
    → (rb_read_upd rb len).0.used ≡ rb.used - min len rb.used
unfolding rb_read_upd
used-rb_read_upd {rb} len v = ground (arith, clip-min rb.used len)

pub buffer-rb_read_upd : (len : ℕ) (rb : Ringbuffer) → (rb_read_upd rb len).0.buffer ≡ rb.buffer
unfolding rb_read_upd
buffer-rb_read_upd len rb = ground arith

-- What is left to do: the bytes that are held, each twice, and the start of a response.
abbrev pub measure : Reader → ℕ
measure r = r.rb.used + r.rb.used + (if r.read_result == 0 then 1 else 0)

-- A result that is not 0 has bytes, or bytes to skip behind it.
abbrev pub IsUseful : ℕ → Reader → Type 0
IsUseful n r =
    (n == 0) ≡ false
    → (0 < length (at_combine_iov r.rb r.iov n) + r.skip) × (r.skip ≤ 4) × (0 < r.rb.used)

-- A pass that calls itself leaves less to do; another one leaves the ring as it is, and its result
-- is useful where nothing is to be skipped before it.
abbrev Shrinks : Reader → Pass → Type 0
Shrinks r (again r') =
    IsValid r'.rb × (measure r' < measure r) × (r'.skip ≡ r.skip) × (r'.rb.buffer ≡ r.rb.buffer)
Shrinks r (done n r') = (r'.rb ≡ r.rb) × (r.skip ≡ 0 → IsUseful n r')

-- Dropping at least one byte.
dropped_less :
    (r : Reader) (iov : Iov) (n : ℕ)
    → IsValid r.rb
    → 0 < r.rb.used
    → 0 < n
    → Shrinks r (again (dropped n (record r { iov = iov })))
dropped_less r iov n v some_used more = (
  rb_read_upd-IsValid n v,
  elim (Bool-cases (r.read_result == 0)) [
    | inl e ↦ rw (e, used-rb_read_upd n v) (omega arith)
    | inr e ↦ rw (e, used-rb_read_upd n v) (omega arith)
  ],
  refl,
  buffer-rb_read_upd n r.rb,
)

-- The lengths that a search for a byte gives where it finds one are no longer than the ring.
abbrev IsShort : ℕ × Iov → Type 0
IsShort r = not (r.0 == 0) ≡ true → r.1.len0 + r.1.len1 < 2 ^ 63

until_char-IsShort :
    (rb : Ringbuffer) (iov : Iov) (c : ℕ)
    → IsValid rb
    → 0 < rb.used
    → IsShort (rb_read_until_char_iov rb iov c)
unfolding rb_read_until_char_iov
until_char-IsShort rb iov c v some_used =
    let held : ltb 0 rb.used ≡ true = ground arith in
    elim (Bool-cases (ltb rb.size (add_size rb.read rb.used))) [
      | inr flat ↦ elim (Option-cases (np_memchr (slice rb.buffer rb.read rb.used) c)) [
        | inl e ↦ rw (held, flat, e) (λ h. cc)
        | inr (q, e) ↦
            let near = np_memchr-lt (slice rb.buffer rb.read rb.used) c q e in
            rw (held, flat, e)
              (λ h. omega (arith, near, length-slice rb.buffer rb.read rb.used, v.small, v.used_in))
      ]
      | inl round ↦
          let first = sub_size rb.size rb.read in
          let rest = sub_size rb.used first in
          elim (Option-cases (np_memchr (slice rb.buffer rb.read first) c)) [
            | inr (q, e) ↦
                let near = np_memchr-lt (slice rb.buffer rb.read first) c q e in
                rw (held, round, e)
                  (λ h.
                    omega (arith, near, length-slice rb.buffer rb.read first, v.small, v.read_in))
            | inl e ↦ elim (Option-cases (np_memchr (slice rb.buffer 0 rest) c)) [
              | inl f ↦ rw (held, round, e, f) (λ h. cc)
              | inr (q, f) ↦
                  let far = np_memchr-lt (slice rb.buffer 0 rest) c q f in
                  let goes_round : rb.size < rb.read + rb.used =
                    ground (arith, v.small, v.read_in, v.used_in) in
                  rw (held, round, e, f)
                    (λ h. omega (
                      arith,
                      far,
                      length-slice rb.buffer 0 rest,
                      v.small,
                      v.read_in,
                      v.used_in,
                      goes_round,
                    ))
            ]
          ]
    ]

pass_noise-Shrinks :
    (r : Reader) → IsValid r.rb → 0 < r.rb.used → r.read_result ≡ 0 → Shrinks r (pass_noise r)
unfolding pass_noise at_get_iov_size
pass_noise-Shrinks r v held between =
    let found = rb_read_until_char_iov r.rb r.iov 13 in
    let short = until_char-IsShort r.rb r.iov 13 v held in
    if-elim (Shrinks r) (rb_read_is_printable r.rb) (λ p. (v, rw between (omega arith), refl, refl))
      (λ p.
        if-elim (Shrinks r) (is_at r.rb (10 ∷ []))
          (λ q. dropped_less r r.iov 1 v held (omega arith))
          (λ q.
            if-elim (Shrinks r) (not (found.0 == 0))
              (λ f. dropped_less r found.1 _ v held (let s = short f in omega arith))
              (λ f. dropped_less r found.1 r.rb.used v held held)))

pass_between-Shrinks :
    (r : Reader) (verdict : Verdict)
    → IsValid r.rb
    → 0 < r.rb.used
    → r.read_result ≡ 0
    → Shrinks r (pass_between r verdict)
unfolding pass_between
pass_between-Shrinks r equal v held between = (
  rb_read_upd-IsValid 2 v,
  rw (between, used-rb_read_upd 2 v) (omega arith),
  refl,
  buffer-rb_read_upd 2 r.rb,
)
pass_between-Shrinks r differs v held between = pass_noise-Shrinks r v held between
pass_between-Shrinks r too_short v held between = (refl, λ s no. cc)

-- A search that skips up to four bytes.
pass_until-Shrinks :
    (mem : List ℕ) (skip : ℕ) (r : Reader)
    → 0 < r.rb.used
    → 0 < skip
    → skip ≤ 4
    → Shrinks r (pass_until mem skip r)
unfolding pass_until
pass_until-Shrinks mem skip r held some_skip few =
    if-elim (Shrinks r) ((rb_read_until_mem_iov r.rb r.iov mem (length mem)).0 == 0)
      (λ p. (refl, λ s no. cc)) (λ p. (refl, λ s no. (omega arith, omega arith, held)))

pass_cmgl-Shrinks : (r : Reader) → 0 < r.rb.used → Shrinks r (pass_cmgl r)
unfolding pass_cmgl
pass_cmgl-Shrinks r held =
    let found = rb_read_until_mem_iov r.rb r.iov t_cmgl (length t_cmgl) in
    if-elim (Shrinks r) (found.0 == 0)
      (λ p. pass_until-Shrinks t_ok 4 (record r { iov = found.1 }) held (omega arith) (omega arith))
      (λ p. (refl, λ s no. (omega arith, omega arith, held)))

pass_two_lines-Shrinks : (r : Reader) → 0 < r.rb.used → Shrinks r (pass_two_lines r)
unfolding pass_two_lines
pass_two_lines-Shrinks r held =
    if-elim (Shrinks r) ((get_2ndeol_pos r.rb r.iov).0 == 0) (λ p. (refl, λ s no. cc))
      (λ p. (refl, λ s no. (omega arith, omega arith, held)))

pass_line-Shrinks : (r : Reader) → 0 < r.rb.used → Shrinks r (pass_line r)
unfolding pass_line
pass_line-Shrinks r held =
    if-elim (Shrinks r) ((rb_read_until_mem_iov r.rb r.iov m_eol (length m_eol)).0 == 0)
      (λ p. (refl, λ s no. cc)) (λ p. (refl, λ s no. (omega arith, omega arith, held)))

-- A prompt that is there has its two bytes.
pass_prompt-Shrinks :
    (r : Reader)
    → IsValid r.rb
    → 0 < r.rb.used
    → is_at r.rb m_sms_prompt ≡ true
    → Shrinks r (pass_prompt r)
unfolding pass_prompt
pass_prompt-Shrinks r v held0 here =
    let same = rb_memcmp_lem m_sms_prompt 2 v (omega arith) in
    let held : 2 ≤ r.rb.used = elim (dec_le 2 r.rb.used) [
      | yes p ↦ p
      | no p ↦
          let short : leb 2 r.rb.used ≡ false = ground arith in
          let no_match : is_equal too_short ≡ true = rw (same, short) at here in cc
    ] in
    (
      refl,
      λ s no. (
        (let bytes = gather-rb_read_n_iov r.iov 2 v in
            let long : ltb r.rb.used 2 ≡ false = ground arith in
            let two = ap length bytes in
            let all =
              length-window r.rb.buffer r.rb.size r.rb.read r.rb.used v.storage
                (omega (arith, v.read_in)) v.used_in in
            omega (arith, rw long at two, all, length-take 2 (contents r.rb))),
        omega arith,
        held0,
      ),
    )

pass_inside-Shrinks : (r : Reader) → IsValid r.rb → 0 < r.rb.used → Shrinks r (pass_inside r)
unfolding pass_inside
pass_inside-Shrinks r v held =
    if-elim (Shrinks r) (is_at r.rb m_sms_prompt) (λ p. pass_prompt-Shrinks r v held p)
      (λ p.
        if-elim (Shrinks r) (is_at r.rb m_cmgr || is_at r.rb m_cnum || is_at r.rb m_error_cnum)
          (λ q. pass_until-Shrinks t_ok 4 r held (omega arith) (omega arith))
          (λ q.
            if-elim (Shrinks r) (is_at r.rb m_cmgl) (λ c. pass_cmgl-Shrinks r held)
              (λ c.
                if-elim (Shrinks r)
                  (is_at r.rb m_cmt || is_at r.rb m_cbm || is_at r.rb m_cds || is_at r.rb m_class0)
                  (λ d. pass_two_lines-Shrinks r held) (λ d. pass_line-Shrinks r held))))

pass-Shrinks : (r : Reader) → IsValid r.rb → Shrinks r (pass r)
unfolding pass
pass-Shrinks r v =
    if-elim (Shrinks r) (ltb 0 r.rb.used)
      (λ p.
        if-elim (Shrinks r) (r.read_result == 0)
          (λ q. pass_between-Shrinks r _ v (ltb→lt 0 r.rb.used p) (ground arith))
          (λ q. pass_inside-Shrinks r v (ltb→lt 0 r.rb.used p)))
      (λ p. (refl, λ s no. cc))

-- A result that comes, and what it is like.
abbrev pub Returns : Reader → Option (ℕ × Reader) → Type 0
Returns r o =
    (n : ℕ) × (r' : Reader) × (o ≡ some (n, r'))
    × IsValid r'.rb
    × (r'.rb.used ≤ r.rb.used)
    × (r'.rb.buffer ≡ r.rb.buffer)
    × (r.skip ≡ 0 → IsUseful n r')

read_passes-Returns :
    (fuel : ℕ) (r : Reader) (p : Pass)
    → IsValid r.rb
    → Shrinks r p
    → measure r ≤ fuel
    → Returns r (read_passes fuel p)
unfolding read_passes
read_passes-Returns fuel r (done n r') v s h =
    (n, r', refl, rw (s.0) v, rw (s.0) (omega arith), rw (s.0) refl, s.1)
read_passes-Returns zero r (again r') v s h =
    let (v', less, same, kept) = s in absurd (omega (arith, less))
read_passes-Returns (suc fuel) r (again r') v s h =
    let (v', less, same, kept) = s in
    let (n, r'', e, v'', fewer, kept', useful) =
      read_passes-Returns fuel r' (pass r') v' (pass-Shrinks r' v') (omega arith) in
    (n, r'', e, v'', ground (arith, less, fewer), kept' ∙ kept, λ z. useful (same ∙ z))

-- `at_read_result_iov` comes to a result within as many calls of itself as twice the bytes that the
-- ring holds and one more. It leaves a valid ring in the same storage that holds no more than before;
-- and where there was nothing to skip before, a result that is not 0 has bytes, or bytes to skip
-- behind it, no more than four, in a ring that is not empty.
pub at_read_result_iov-Returns : (r : Reader) → IsValid r.rb → Returns r (at_read_result_iov r)
unfolding at_read_result_iov
at_read_result_iov-Returns r v =
    read_passes-Returns (enough r) r (pass r) v (pass-Shrinks r v) (ground arith)

-- Two slices of the storage are no longer than twice the storage.
pub length-at_combine_iov :
    (rb : Ringbuffer) (iov : Iov) (n : ℕ)
    → length (at_combine_iov rb iov n) ≤ length rb.buffer + length rb.buffer
unfolding gather
length-at_combine_iov rb iov n = ground (
  arith,
  length-slice rb.buffer iov.base0 iov.len0,
  length-slice rb.buffer iov.base1 iov.len1,
  length-append (slice rb.buffer iov.base0 iov.len0) (slice rb.buffer iov.base1 iov.len1),
)
