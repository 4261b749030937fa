-- ===== src/Ring/Gather.antt =====
-- The `iovec` arrays of src/ringbuffer.c: which bytes `writev` sends, or `readv` fills, through
-- what `rb_read_all_iov`, `rb_read_n_iov` and `rb_write_iov` return; and `rb_memcmp`.
use native.Mathlib.Decide.{dec_le}
use asterisk_chan_quectel.Prelude.{
  ℕ, ◌+◌, ◌-◌, ◌≤◌, ◌<◌, ◌≡◌, refl, sym, ap, ◌∙◌, inl, inr, true, false, ◌&&◌, List, [], ◌∷◌, ◌++◌,
  arith, length, length-slice, slice, take, sub_size, ltb, leb, ◌==◌, if◌then◌else◌, slice-zero,
  take-le, take-all, slice_of_zero, slice_split,
}
use asterisk_chan_quectel.Ring.{
  Ringbuffer, Iov, rb_free, rb_read_all_iov, rb_read_n_iov, rb_write_iov, rb_memcmp, bytes_eq,
  equal, differs, too_short,
}
use asterisk_chan_quectel.Ring.Bounds.{IsValid}
use asterisk_chan_quectel.Ring.Contents.{
  window, contents, window-add, window_straight, window_wrapped, length-window,
}

-- The bytes of the first `count` entries.
unfoldable pub gather : List ℕ → ℕ × Iov → List ℕ
gather buf (count, iov) =
    if count == 0
    then []
    else (if count == 1
        then slice buf iov.base0 iov.len0
        else slice buf iov.base0 iov.len0 ++ slice buf iov.base1 iov.len1)

-- What `rb_read_all_iov` gathers is all that the ring holds.
pub gather-rb_read_all_iov :
    {rb : Ringbuffer} (iov : Iov)
    → IsValid rb
    → gather rb.buffer (rb_read_all_iov rb iov) ≡ contents rb
unfolding gather rb_read_all_iov
gather-rb_read_all_iov {rb} iov v = elim (dec_le (rb.read + rb.used) rb.size) [
  | yes p ↦
      rw (window_straight rb.buffer rb.size rb.read rb.used p)
        (ground (arith, slice-zero rb.buffer rb.read))
  | no p ↦ rw (window_wrapped rb.buffer rb.size rb.read rb.used (omega arith)) (
      let first : sub_size rb.size rb.read ≡ rb.size - rb.read = omega arith in
      let second : sub_size rb.used (rb.size - rb.read) ≡ rb.read + rb.used - rb.size =
        omega arith in
      ground arith)
]

gather_n :
    {rb : Ringbuffer} (iov : Iov) (len : ℕ)
    → IsValid rb
    → len ≤ rb.used
    → gather rb.buffer (rb_read_n_iov rb iov len) ≡ window rb.buffer rb.size rb.read len
unfolding gather rb_read_n_iov
gather_n {rb} iov len v h = elim (dec_le (rb.read + len) rb.size) [
  | yes p ↦
      rw (window_straight rb.buffer rb.size rb.read len p)
        (ground (arith, slice-zero rb.buffer rb.read))
  | no p ↦ rw (window_wrapped rb.buffer rb.size rb.read len (omega arith)) (
      let first : sub_size rb.size rb.read ≡ rb.size - rb.read = omega arith in
      let second : sub_size len (rb.size - rb.read) ≡ rb.read + len - rb.size = omega arith in
      ground arith)
]

-- The first bytes of a window are a shorter window.
pub window-take :
    (buf : List ℕ) (size at n k : ℕ)
    → size ≤ length buf
    → at < size
    → k ≤ size
    → n ≤ k
    → window buf size at n ≡ take n (window buf size at k)
window-take buf size at n k s a h le =
    let split : k ≡ n + (k - n) = omega arith in
    let whole : length (window buf size at n) ≡ n =
      length-window buf size at n s (omega arith) (omega arith) in
    let joined : (w : ℕ) × (window buf size at k
          ≡ window buf size at n ++ window buf size w (k - n)) =
      elim (dec_le (at + n) size) [
        | yes p ↦ (
          at + n,
          rw (ap (λ j. window buf size at j) split)
              (window-add buf size at n (k - n) (at + n) a (omega arith) p (inl refl)),
        )
        | no p ↦ (
          at + n - size,
          rw (ap (λ j. window buf size at j) split) (
              window-add buf size at n (k - n) (at + n - size) a (omega arith) (omega arith)
                (inr (omega arith))),
        )
      ] in
    sym (
      ap (λ t. take n t) joined.1
      ∙ take-le n (window buf size at n) (window buf size joined.0 (k - n)) (omega arith)
      ∙ take-all n (window buf size at n) (omega arith))

-- `rb_read_n_iov` gathers the first `len` bytes that the ring holds, and nothing where it holds
-- fewer.
pub gather-rb_read_n_iov :
    {rb : Ringbuffer} (iov : Iov) (len : ℕ)
    → IsValid rb
    → gather rb.buffer (rb_read_n_iov rb iov len)
      ≡ (if ltb rb.used len then [] else take len (contents rb))
gather-rb_read_n_iov {rb} iov len v = elim (dec_le len rb.used) [
  | yes p ↦
      let enough : ltb rb.used len ≡ false = ground arith in
      rw enough (
        gather_n iov len v p
        ∙ window-take rb.buffer rb.size rb.read len rb.used v.storage v.read_in v.used_in p)
  | no p ↦
      let short : ltb rb.used len ≡ true = ground arith in
      rw short (unfold gather rb_read_n_iov in rw short refl)
]

-- `rb_write_iov` gives the whole free part of the storage, in the order in which it is filled.
pub gather-rb_write_iov :
    {rb : Ringbuffer} (iov : Iov)
    → IsValid rb
    → gather rb.buffer (rb_write_iov rb iov) ≡ window rb.buffer rb.size rb.write (rb.size - rb.used)
unfolding gather rb_write_iov
gather-rb_write_iov {rb} iov v = elim (dec_le (rb.write + (rb.size - rb.used)) rb.size) [
  | yes p ↦ rw (window_straight rb.buffer rb.size rb.write (rb.size - rb.used) p) (
      let free : rb_free rb ≡ rb.size - rb.used = omega arith in
      ground (arith, slice-zero rb.buffer rb.write))
  | no p ↦ rw (window_wrapped rb.buffer rb.size rb.write (rb.size - rb.used) (omega arith)) (
      let free : rb_free rb ≡ rb.size - rb.used = omega arith in
      let first : sub_size rb.size rb.write ≡ rb.size - rb.write = omega arith in
      let second : sub_size (rb.size - rb.used) (rb.size - rb.write)
          ≡ rb.write + (rb.size - rb.used) - rb.size =
        omega arith in
      ground arith)
]

bytes_eq-append :
    (xs ys xs' ys' : List ℕ)
    → length xs ≡ length xs'
    → bytes_eq (xs ++ ys) (xs' ++ ys') ≡ (bytes_eq xs xs' && bytes_eq ys ys')
unfolding bytes_eq
bytes_eq-append [] ys [] ys' h = refl
bytes_eq-append [] ys (x' ∷ xs') ys' h = absurd (omega arith)
bytes_eq-append (x ∷ xs) ys [] ys' h = absurd (omega arith)
bytes_eq-append (x ∷ xs) ys (x' ∷ xs') ys' h =
    ground (arith, bytes_eq-append xs ys xs' ys' (omega arith))

-- `!memcmp` says that two runs are the same bytes.
pub bytes_eq_sound : (xs ys : List ℕ) → bytes_eq xs ys ≡ true → xs ≡ ys
unfolding bytes_eq
bytes_eq_sound [] [] h = refl
bytes_eq_sound [] (y ∷ ys) h = cc
bytes_eq_sound (x ∷ xs) [] h = cc
bytes_eq_sound (x ∷ xs) (y ∷ ys) h = ground (arith, bytes_eq_sound xs ys)

pub bytes_eq_refl : (xs : List ℕ) → bytes_eq xs xs ≡ true
unfolding bytes_eq
bytes_eq_refl [] = refl
bytes_eq_refl (x ∷ xs) = ground (arith, bytes_eq_refl xs)

-- `rb_memcmp` compares `len` bytes of `mem`, which holds as many, with the first that the ring
-- holds, wherever the storage wraps; it says so where the ring holds fewer, or none are asked
-- for.
pub rb_memcmp_lem :
    {rb : Ringbuffer} (mem : List ℕ) (len : ℕ)
    → IsValid rb
    → len ≤ length mem
    → rb_memcmp rb mem len ≡ (
        if ltb 0 len && leb len rb.used
        then (if bytes_eq (take len (contents rb)) (take len mem) then equal else differs)
        else too_short)
unfolding rb_memcmp
rb_memcmp_lem {rb} mem len v h = elim (dec_le len rb.used) [
  | yes p ↦
      rw
        (
          ← window-take rb.buffer rb.size rb.read len rb.used v.storage v.read_in v.used_in p,
          ← slice_of_zero mem len,
        )
        (elim (dec_le (rb.read + len) rb.size) [
          | yes q ↦ rw (window_straight rb.buffer rb.size rb.read len q) (ground arith)
          | no q ↦
              let k = rb.size - rb.read in
              let m = rb.read + len - rb.size in
              let first : sub_size rb.size rb.read ≡ k = omega arith in
              let second : sub_size len k ≡ m = omega arith in
              rw
                (
                  window_wrapped rb.buffer rb.size rb.read len (omega arith),
                  slice_split mem k m len (omega arith),
                  bytes_eq-append (slice rb.buffer rb.read k) (slice rb.buffer 0 m) (slice mem 0 k)
                      (slice mem k m)
                      (omega (arith, length-slice rb.buffer rb.read k, length-slice mem 0 k)),
                )
                (ground arith)
        ])
  | no p ↦ ground arith
]
