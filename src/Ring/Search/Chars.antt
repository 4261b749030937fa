-- ===== src/Ring/Search/Chars.antt =====
-- `rb_read_until_char_iov` of src/ringbuffer.c, against `np_memchr` on all that the ring holds.
use native.Mathlib.Decide.{dec_le}
use asterisk_chan_quectel.Prelude.{
  ℕ, zero, suc, ◌+◌, ◌-◌, ◌≤◌, ◌<◌, ◌≡◌, refl, ◌⊎◌, inl, inr, none, some, List, [], ◌∷◌, ◌++◌,
  arith, length, length-slice, slice, take, sub_size, take-le, take-append, take-slice,
}
use asterisk_chan_quectel.Ring.{Ringbuffer, Iov}
use asterisk_chan_quectel.Ring.Bounds.{IsValid}
use asterisk_chan_quectel.Ring.Contents.{contents, window_straight, window_wrapped}
use asterisk_chan_quectel.Ring.Gather.{gather}
use asterisk_chan_quectel.Ring.Search.{np_memchr, rb_read_until_char_iov}

pub np_memchr-lt : (xs : List ℕ) (c p : ℕ) → np_memchr xs c ≡ some p → p < length xs
unfolding np_memchr
np_memchr-lt [] c p h = cc
np_memchr-lt (x ∷ xs) c zero h = omega arith
np_memchr-lt (x ∷ xs) c (suc p) h = ground (arith, np_memchr-lt xs c p)

-- A hit in a join is in its first part, or in the second after a first part of control bytes.
np_memchr-append :
    (xs ys : List ℕ) (c p : ℕ)
    → np_memchr (xs ++ ys) c ≡ some p
    → (np_memchr xs c ≡ some p)
      ⊎ (np_memchr xs c ≡ none) × (length xs ≤ p) × (np_memchr ys c ≡ some (p - length xs))
unfolding np_memchr
np_memchr-append [] ys c p h = inr (refl, omega arith, ground arith)
np_memchr-append (x ∷ xs) ys c zero h = ground arith
np_memchr-append (x ∷ xs) ys c (suc p) h = ground (arith, np_memchr-append xs ys c p)

np_memchr-none : (xs ys : List ℕ) (c : ℕ) → np_memchr (xs ++ ys) c ≡ none → np_memchr xs c ≡ none
unfolding np_memchr
np_memchr-none [] ys c h = refl
np_memchr-none (x ∷ xs) ys c h = ground (arith, np_memchr-none xs ys c)

-- Where a control byte `c` stands before the first printable byte that the ring holds,
-- `rb_read_until_char_iov` gathers exactly the bytes before it, wherever the storage wraps.
pub rb_read_until_char_iov_finds :
    {rb : Ringbuffer} (iov : Iov) (c p : ℕ)
    → IsValid rb
    → np_memchr (contents rb) c ≡ some p
    → let r = rb_read_until_char_iov rb iov c in
      (0 < r.0) × (gather rb.buffer r ≡ take p (contents rb))
unfolding rb_read_until_char_iov gather
rb_read_until_char_iov_finds {rb} iov c p v h = elim (dec_le (rb.read + rb.used) rb.size) [
  | yes q ↦
      let flat = window_straight rb.buffer rb.size rb.read rb.used q in
      let hit : np_memchr (slice rb.buffer rb.read rb.used) c ≡ some p = rw flat at h in
      let some_used : p < rb.used = omega (
        arith,
        np_memchr-lt (slice rb.buffer rb.read rb.used) c p hit,
        length-slice rb.buffer rb.read rb.used,
      ) in
      rw flat (ground (arith, take-slice rb.buffer rb.read p rb.used))
  | no q ↦
      let k = rb.size - rb.read in
      let m = rb.read + rb.used - rb.size in
      let flat = window_wrapped rb.buffer rb.size rb.read rb.used (omega arith) in
      let first : sub_size rb.size rb.read ≡ k = omega arith in
      let second : sub_size rb.used k ≡ m = omega arith in
      let full : length (slice rb.buffer rb.read k) ≡ k =
        omega (arith, length-slice rb.buffer rb.read k) in
      rw flat
        (elim (np_memchr-append (slice rb.buffer rb.read k) (slice rb.buffer 0 m) c p
          (rw flat at h)) [
            | inl near ↦
                let inside = np_memchr-lt (slice rb.buffer rb.read k) c p near in
                rw (take-le p (slice rb.buffer rb.read k) (slice rb.buffer 0 m) (omega arith))
                  (ground (arith, take-slice rb.buffer rb.read p k))
            | inr (clear, past, far) ↦
                let inside =
                  np_memchr-lt (slice rb.buffer 0 m) c (p - length (slice rb.buffer rb.read k))
                    far in
                rw (take-append p (slice rb.buffer rb.read k) (slice rb.buffer 0 m) past, full)
                  (ground (arith, take-slice rb.buffer 0 (p - k) m, length-slice rb.buffer 0 m))
          ])
]

-- Where the ring goes round the end of the storage, the search starts afresh behind the end: with
-- a printable byte in the first part, `np_memchr` finds no place for `c` in all that the ring
-- holds, and yet `rb_read_until_char_iov` answers with one in the second part.
pub rb_read_until_char_iov_past_printable :
    {rb : Ringbuffer} (iov : Iov) (c p : ℕ)
    → IsValid rb
    → rb.size < rb.read + rb.used
    → np_memchr (contents rb) c ≡ none
    → np_memchr (slice rb.buffer 0 (rb.read + rb.used - rb.size)) c ≡ some p
    → let r = rb_read_until_char_iov rb iov c in
      (r.0 ≡ 2) × (gather rb.buffer r ≡ take (rb.size - rb.read + p) (contents rb))
unfolding rb_read_until_char_iov gather
rb_read_until_char_iov_past_printable {rb} iov c p v q none_all hit =
    let k = rb.size - rb.read in
    let m = rb.read + rb.used - rb.size in
    let flat = window_wrapped rb.buffer rb.size rb.read rb.used q in
    let first : sub_size rb.size rb.read ≡ k = omega arith in
    let second : sub_size rb.used k ≡ m = omega arith in
    let full : length (slice rb.buffer rb.read k) ≡ k =
      omega (arith, length-slice rb.buffer rb.read k) in
    let inside = np_memchr-lt (slice rb.buffer 0 m) c p hit in
    let clear : np_memchr (slice rb.buffer rb.read k) c ≡ none =
      np_memchr-none (slice rb.buffer rb.read k) (slice rb.buffer 0 m) c (rw flat at none_all) in
    let rest : k + p - k ≡ p = omega arith in
    rw
      (
        flat,
        take-append (k + p) (slice rb.buffer rb.read k) (slice rb.buffer 0 m) (omega arith),
        full,
        rest,
      )
      (ground (arith, take-slice rb.buffer 0 p m, length-slice rb.buffer 0 m))
