-- ===== src/Ring/Contents.antt =====
-- The bytes that a ring holds, oldest first, and what `rb_write`, `rb_write_upd` and `rb_read_upd`
-- of src/ringbuffer.c do to them: together they are a bounded queue of bytes.
use native.Mathlib.Decide.{dec_le}
use asterisk_chan_quectel.Prelude.{
  ℕ, ◌+◌, ◌-◌, ◌≤◌, ◌<◌, ◌≡◌, refl, ap, ◌∙◌, ◌⊎◌, inl, inr, List, ◌++◌, arith, length, length-slice,
  length-append, slice, splice, leb, if◌then◌else◌, slice-add, slice-zero, slice-splice_before,
  slice-splice_after, append_assoc, append-nil,
}
use asterisk_chan_quectel.Ring.{Ringbuffer}

-- The `n` bytes from index `at` on, going round at `size`.
unfoldable pub window : List ℕ → ℕ → ℕ → ℕ → List ℕ
window buf size at n =
    if leb (at + n) size
    then slice buf at n
    else slice buf at (size - at) ++ slice buf 0 (at + n - size)

abbrev pub contents : Ringbuffer → List ℕ
contents rb = window rb.buffer rb.size rb.read rb.used

pub window_straight :
    (buf : List ℕ) (size at n : ℕ) → at + n ≤ size → window buf size at n ≡ slice buf at n
unfolding window
window_straight buf size at n h = ground arith

pub window_wrapped :
    (buf : List ℕ) (size at n : ℕ)
    → size < at + n
    → window buf size at n ≡ slice buf at (size - at) ++ slice buf 0 (at + n - size)
unfolding window
window_wrapped buf size at n h = ground arith

pub length-window :
    (buf : List ℕ) (size at n : ℕ)
    → size ≤ length buf
    → at ≤ size
    → n ≤ size
    → length (window buf size at n) ≡ n
length-window buf size at n s a h = elim (dec_le (at + n) size) [
  | yes p ↦ rw (window_straight buf size at n p) (omega (arith, length-slice buf at n))
  | no p ↦ rw (window_wrapped buf size at n (omega arith)) (
      omega (
        arith,
        length-append (slice buf at (size - at)) (slice buf 0 (at + n - size)),
        length-slice buf at (size - at),
        length-slice buf 0 (at + n - size),
      ))
]

module _ (buf : List ℕ) (size at n m w : ℕ) where
  -- A window splits at any point; `w` is where its second part starts.
  pub window-add :
      at < size
      → n + m ≤ size
      → w ≤ size
      → ((at + n ≡ w) ⊎ (at + n ≡ w + size))
      → window buf size at (n + m) ≡ window buf size at n ++ window buf size w m
  window-add a h k (inl e) = elim (dec_le (at + (n + m)) size) [
    | yes p ↦
        rw
          (
            window_straight buf size at (n + m) p,
            window_straight buf size at n (omega arith),
            window_straight buf size w m (omega arith),
            ← e,
          )
          (slice-add buf at n m (n + m) refl)
    | no p ↦
        let rest : at + (n + m) - size ≡ w + m - size = omega arith in
        rw (
          window_wrapped buf size at (n + m) (omega arith),
          window_straight buf size at n (omega arith),
          window_wrapped buf size w m (omega arith),
          rest,
          slice-add buf at n (size - w) (size - at) (omega arith),
          e,
          append_assoc,
        )
  ]
  window-add a h k (inr e) = elim (dec_le (at + n) size) [
    | yes p ↦
        let w0 : w ≡ 0 = omega arith in
        let n' : n ≡ size - at = omega arith in
        let m' : at + (n + m) - size ≡ m = omega arith in
        elim (dec_le m 0) [
          | yes q ↦
              let m0 : m ≡ 0 = omega arith in
              let nm : n + m ≡ n = omega arith in
              rw (nm, m0, w0, window_straight buf size 0 0 (omega arith), slice-zero, append-nil)
          | no q ↦ rw (
            window_wrapped buf size at (n + m) (omega arith),
            window_straight buf size at n p,
            window_straight buf size w m (omega arith),
            m',
            ← n',
            w0,
          )
        ]
    | no p ↦
        let w' : at + n - size ≡ w = omega arith in
        rw
          (
            window_wrapped buf size at (n + m) (omega arith),
            window_wrapped buf size at n (omega arith),
            window_straight buf size w m (omega arith),
            w',
            append_assoc,
          )
          (ap (λ t. slice buf at (size - at) ++ t)
            (slice-add buf 0 w m (at + (n + m) - size) (omega arith)
              ∙ ap (λ j. slice buf 0 w ++ slice buf j m) (omega arith)))
  ]

-- A write beside a window leaves it alone.
pub window-splice :
    (buf : List ℕ) (o : ℕ) (ds : List ℕ) (size at n : ℕ)
    → ((at + n ≤ size) × (o + length ds ≤ at))
      ⊎ ((at + n ≤ size) × (at + n ≤ o))
      ⊎ (size < at + n) × (at + n - size ≤ o) × (o + length ds ≤ at)
    → window (splice buf o ds) size at n ≡ window buf size at n
window-splice buf o ds size at n (inl (s, h)) =
    rw (window_straight buf size at n s, window_straight (splice buf o ds) size at n s)
      (slice-splice_after buf o ds at n h)
window-splice buf o ds size at n (inr (inl (s, h))) =
    rw (window_straight buf size at n s, window_straight (splice buf o ds) size at n s)
      (slice-splice_before buf o ds at n h)
window-splice buf o ds size at n (inr (inr (s, h, k))) = rw (
  window_wrapped buf size at n s,
  window_wrapped (splice buf o ds) size at n s,
  slice-splice_after buf o ds at (size - at) k,
  slice-splice_before buf o ds 0 (at + n - size) (omega arith),
)
