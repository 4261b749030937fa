-- ===== src/AtRead/Lines.antt =====
-- A response of one line, through `at_read_result_iov` of src/at_read.c and the monitor's step after
-- it.
use mathlib.Core.Path.{subst}
use native.Mathlib.Decide.{dec_le}
use asterisk_chan_quectel.Prelude.{
  ℕ, zero, suc, ◌≤◌, ◌<◌, ◌≡◌, refl, sym, ap, ◌∙◌, true, false, ◌&&◌, Option, none, some, List, [],
  ◌∷◌, ◌++◌, arith, ltb, leb, ◌==◌, min, add_size, take, drop, length, length-append, All, if-elim,
}
use asterisk_chan_quectel.Ring.{Ringbuffer, Iov, Verdict, equal, rb_memcmp, bytes_eq}
use asterisk_chan_quectel.Ring.Bounds.{IsValid}
use asterisk_chan_quectel.Ring.Contents.{contents, length-window}
use asterisk_chan_quectel.Ring.Queue.{rb_read_upd_lem}
use asterisk_chan_quectel.Ring.Gather.{gather, rb_memcmp_lem}
use asterisk_chan_quectel.Ring.Search.{rb_read_until_mem_iov}
use asterisk_chan_quectel.Ring.Search.Memmem.{IsFirst}
use asterisk_chan_quectel.Ring.Search.Pairs.{Answers}
use asterisk_chan_quectel.Ring.Search.Wrapped.{rb_read_until_mem_iov_pair}
use asterisk_chan_quectel.AtRead.{
  m_cmgr, m_cnum, m_error_cnum, m_cmgl, m_eol, m_sms_prompt, m_cmt, m_cbm, m_cds, m_class0,
  at_combine_iov, Reader, Pass, again, done, is_equal, is_at, dropped, pass_between, pass_line,
  pass_inside, pass, read_passes, enough, at_read_result_iov, consume,
}

-- The starts of responses that are read in another way than up to the next end of line.
abbrev pub special_starts : List (List ℕ)
special_starts =
    m_sms_prompt ∷ m_cmgr ∷ m_cnum ∷ m_error_cnum ∷ m_cmgl ∷ m_cmt ∷ m_cbm ∷ m_cds ∷ m_class0 ∷ []

-- The bytes do not start with the text.
abbrev pub StartsElse : List ℕ → List ℕ → Type 0
StartsElse bytes mem = bytes_eq (take (length mem) bytes) mem ≡ false

take-length : (xs : List ℕ) → take (length xs) xs ≡ xs
take-length [] = refl
take-length (x ∷ xs) = ap (λ (l : List ℕ). x ∷ l) (take-length xs)

take-append : (xs ys : List ℕ) → take (length xs) (xs ++ ys) ≡ xs
take-append [] ys = refl
take-append (x ∷ xs) ys = ap (λ (l : List ℕ). x ∷ l) (take-append xs ys)

drop-append : (xs : List ℕ) (y : ℕ) (ys : List ℕ) → drop (suc (length xs)) (xs ++ (y ∷ ys)) ≡ ys
drop-append [] y ys = refl
drop-append (x ∷ xs) y ys = drop-append xs y ys

length-contents : {rb : Ringbuffer} → IsValid rb → length (contents rb) ≡ rb.used
length-contents {rb} v =
    length-window rb.buffer rb.size rb.read rb.used v.storage (omega (arith, v.read_in)) v.used_in

-- The test for a start that is not there fails.
is_at_else :
    {rb : Ringbuffer} (mem : List ℕ)
    → IsValid rb
    → StartsElse (contents rb) mem
    → is_at rb mem ≡ false
is_at_else {rb} mem v h =
    let h' : bytes_eq (take (length mem) (contents rb)) (take (length mem) mem) ≡ false =
      rw (take-length mem) h in
    rw (rb_memcmp_lem mem (length mem) v (omega arith)) (
      if-elim (λ (x : Verdict). is_equal x ≡ false) (ltb 0 (length mem) && leb (length mem) rb.used)
        (λ p. rw h' refl) (λ p. refl))

-- The end of line at the start is found.
eol_first :
    {rb : Ringbuffer} (rest : List ℕ)
    → IsValid rb
    → contents rb ≡ 13 ∷ 10 ∷ rest
    → (rb_memcmp rb m_eol 2 ≡ equal) × (2 ≤ rb.used)
unfolding bytes_eq
eol_first {rb} rest v e =
    let held : 2 ≤ rb.used = omega (arith, ap length e, length-contents v) in
    let long : leb 2 rb.used ≡ true = ground arith in
    (rw (rb_memcmp_lem m_eol 2 v (omega arith)) (rw (long, e) refl), held)

-- There is one first place only.
first_place_same :
    (s l : List ℕ) (p : ℕ) (o : Option ℕ) → IsFirst s l (some p) → IsFirst s l o → o ≡ some p
first_place_same s l p none (here, before) no_place = absurd (no_place p here)
first_place_same s l p (some q) (here, before) (here', before') = elim (dec_le p q) [
  | yes h ↦ elim (dec_le q p) [
    | yes k ↦ ap some (omega arith)
    | no k ↦ absurd (before' p (omega arith) here)
  ]
  | no h ↦ absurd (before q (omega arith) here')
]

read_passes_done : (fuel n : ℕ) (r : Reader) → read_passes fuel (done n r) ≡ some (n, r)
unfolding read_passes
read_passes_done zero n r = refl
read_passes_done (suc fuel) n r = refl

-- One call of itself, and a result.
two_passes :
    (fuel n : ℕ) (p : Pass) (r1 r2 : Reader)
    → 0 < fuel
    → p ≡ again r1
    → pass r1 ≡ done n r2
    → read_passes fuel p ≡ some (n, r2)
unfolding read_passes
two_passes zero n p r1 r2 more e f = absurd (omega (arith, more))
two_passes (suc fuel) n p r1 r2 more e f =
    rw e (ap (read_passes fuel) f ∙ read_passes_done fuel n r2)

-- Inside a response that starts with nothing special, the line is what is found.
pass_inside_line :
    (r : Reader) (line rest : List ℕ)
    → IsValid r.rb
    → contents r.rb ≡ line ++ (13 ∷ 10 ∷ rest)
    → All (StartsElse (contents r.rb)) special_starts
    → IsFirst m_eol (contents r.rb) (some (length line))
    → (n : ℕ) × (iov' : Iov) × (pass_inside r
        ≡ done n (record r { iov = iov'; read_result = 0; skip = add_size r.skip 1 }))
      × ((n == 0) ≡ false)
      × (at_combine_iov r.rb iov' n ≡ line)
unfolding pass_inside pass_line
pass_inside_line r line rest v e special first =
    let (prompt, (cmgr, (cnum, (error_cnum, (cmgl, (cmt, (cbm, (cds, (class0, end))))))))) =
      special in
    let found = rb_read_until_mem_iov r.rb r.iov m_eol 2 in
    let (o, right, answers) = rb_read_until_mem_iov_pair r.rb r.iov 13 10 v in
    let here = first_place_same m_eol (contents r.rb) (length line) o first right in
    let answers' : (0 < found.0) × (gather r.rb.buffer found ≡ take (length line) (contents r.rb)) =
      subst (Answers r.rb found) here answers in
    let some_found : (found.0 == 0) ≡ false = ground arith in
    (
      found.0,
      found.1,
      rw
          (
            is_at_else m_sms_prompt v prompt,
            is_at_else m_cmgr v cmgr,
            is_at_else m_cnum v cnum,
            is_at_else m_error_cnum v error_cnum,
            is_at_else m_cmgl v cmgl,
            is_at_else m_cmt v cmt,
            is_at_else m_cbm v cbm,
            is_at_else m_cds v cds,
            is_at_else m_class0 v class0,
            some_found,
          )
          refl,
      some_found,
      answers'.1 ∙ rw e (take-append line (13 ∷ 10 ∷ rest)),
    )

pass_eol :
    (r : Reader)
    → r.read_result ≡ 0
    → 2 ≤ r.rb.used
    → rb_memcmp r.rb m_eol 2 ≡ equal
    → pass r ≡ again (record (dropped 2 r) { read_result = 1 })
unfolding pass pass_between
pass_eol r between held eol =
    let some_held : ltb 0 r.rb.used ≡ true = ground arith in
    let start : (r.read_result == 0) ≡ true = rw between refl in rw (some_held, start, eol) refl

pass_held :
    (r : Reader) → ltb 0 r.rb.used ≡ true → (r.read_result == 0) ≡ false → pass r ≡ pass_inside r
unfolding pass
pass_held r held inside = rw (held, inside) refl

-- What a response of one line leaves: the line, and the ring behind it but for the last byte of its
-- end.
pub record ReadsLine (r : Reader) (line rest : List ℕ) : Type 0 where
  pub iovcnt : ℕ
  pub reader : Reader
  pub returned : at_read_result_iov r ≡ some (iovcnt, reader)
  pub some_line : (iovcnt == 0) ≡ false
  pub text : at_combine_iov reader.rb reader.iov iovcnt ≡ line
  pub between : reader.read_result ≡ 0
  pub left : contents (consume (length line) reader).rb ≡ 10 ∷ rest

consume_line :
    (r : Reader) (line rest : List ℕ)
    → IsValid r.rb
    → r.skip ≡ 1
    → contents r.rb ≡ line ++ (13 ∷ 10 ∷ rest)
    → contents (consume (length line) r).rb ≡ 10 ∷ rest
unfolding consume
consume_line r line rest v one_more e =
    let size = length-contents v in
    let split = length-append line (13 ∷ 10 ∷ rest) in
    let total : add_size (length line) r.skip ≡ suc (length line) =
      omega (arith, ap length e, size, split, one_more, v.used_in, v.small) in
    let (took, kept, v') = rb_read_upd_lem (add_size (length line) r.skip) v in
    let all : min (suc (length line)) r.rb.used ≡ suc (length line) =
      omega (arith, ap length e, size, split) in
    kept ∙ rw (took, total, all, e) (drop-append line 13 (10 ∷ rest))

-- A response of one line: between responses, where the ring holds an end of line, a line without one
-- in it that starts with none of the special starts, and another end of line, `at_read_result_iov`
-- gives exactly the line, wherever the storage wraps; and when the monitor has taken it, the ring
-- starts with the last byte of that end of line, and the reader is between responses again.
pub at_read_result_iov-ReadsLine :
    (r : Reader) (line rest : List ℕ)
    → IsValid r.rb
    → r.read_result ≡ 0
    → r.skip ≡ 0
    → contents r.rb ≡ 13 ∷ 10 ∷ (line ++ (13 ∷ 10 ∷ rest))
    → IsFirst m_eol (line ++ (13 ∷ 10 ∷ rest)) (some (length line))
    → All (StartsElse (line ++ (13 ∷ 10 ∷ rest))) special_starts
    → ReadsLine r line rest
unfolding at_read_result_iov
at_read_result_iov-ReadsLine r line rest v between no_skip e first special =
    let body = line ++ (13 ∷ 10 ∷ rest) in
    let (eol, held) = eol_first body v e in
    let (took, kept, v1) = rb_read_upd_lem 2 v in
    let r1 : Reader = record (dropped 2 r) { read_result = 1 } in
    let two : min 2 r.rb.used ≡ 2 = omega (arith, held) in
    let inside : contents r1.rb ≡ body = kept ∙ rw (took, two, e) refl in
    let held1 : ltb 0 r1.rb.used ≡ true =
      (let l = length-contents v1 in
        let m = length-append line (13 ∷ 10 ∷ rest) in
        let many : 0 < r1.rb.used = omega (arith, ap length inside, l, m) in ground arith) in
    let (n, iov', done_line, some_line, text) =
      pass_inside_line r1 line rest v1 inside
        (subst (λ (b : List ℕ). All (StartsElse b) special_starts) (sym inside) special)
        (subst (λ (b : List ℕ). IsFirst m_eol b (some (length line))) (sym inside) first) in
    let r2 : Reader = record r1 { iov = iov'; read_result = 0; skip = add_size r1.skip 1 } in
    let one_more : r2.skip ≡ 1 = rw no_skip refl in
    record {
      iovcnt = n;
      reader = r2;
      returned =
          two_passes (enough r) n (pass r) r1 r2 (omega arith) (pass_eol r between held eol)
            (pass_held r1 held1 refl ∙ done_line);
      some_line = some_line;
      text = text;
      between = refl;
      left = consume_line r2 line rest v1 one_more inside;
    }
