-- ===== src/Ring/Queue.antt =====
-- `rb_write`, `rb_write_upd` and `rb_read_upd` of src/ringbuffer.c against a bounded queue of
-- bytes: writing appends what fits, reading drops from the front.
use asterisk_chan_quectel.Prelude.{
  ℕ, ◌+◌, ◌-◌, ◌≤◌, ◌<◌, ◌≡◌, refl, sym, ap, ◌∙◌, ◌⊎◌, inl, inr, List, [], ◌++◌, arith, length,
  length-slice, length-splice, slice, splice, take, drop, min, slice_split, slice-zero, splice-nil,
  append-nil, slice-splice_after, slice-splice_self, drop-length, slice_of_zero, add_size, sub_size,
}
use mathlib.Core.Path.{ap₂}
use native.Mathlib.Decide.{dec_le}
use asterisk_chan_quectel.Ring.{
  Ringbuffer, rb_free, rb_read_upd, rb_write_core, rb_write, rb_write_upd, clip, memmove,
}
use asterisk_chan_quectel.Ring.Bounds.{
  IsValid, clip-min, rb_read_upd-IsValid, rb_write_core-IsValid, rb_write_upd-IsValid,
}
use asterisk_chan_quectel.Ring.Contents.{
  window, contents, window-add, window-splice, window_straight, window_wrapped, length-window,
}

-- Where the position `at` goes in `n` steps.
abbrev pub IsAfter : ℕ → ℕ → ℕ → ℕ → Type 0
IsAfter size at n w = (at + n ≡ w) ⊎ (at + n ≡ w + size)

-- Dropping from a window moves its start.
window-drop :
    (buf : List ℕ) (size at k n w m : ℕ)
    → size ≤ length buf
    → at < size
    → k ≤ size
    → n ≤ k
    → w ≤ size
    → m ≡ k - n
    → ((m ≡ 0) ⊎ IsAfter size at n w)
    → window buf size w m ≡ drop n (window buf size at k)
window-drop buf size at k n w m s a h b c e (inl z) =
    let all : n ≡ length (window buf size at k) =
      omega (arith, length-window buf size at k s (omega arith) h) in
    rw (z, window_straight buf size w 0 (omega arith), slice-zero)
      (sym (drop-length (window buf size at k) [] n all)
        ∙ ap (λ t. drop n t) (append-nil (window buf size at k)))
window-drop buf size at k n w m s a h b c e (inr moved) =
    let split : k ≡ n + m = omega arith in
    rw (split, window-add buf size at n m w a (omega arith) c moved)
      (sym (
        drop-length (window buf size at n) (window buf size w m) n
          (omega (arith, length-window buf size at n s (omega arith) (omega arith)))))

-- What `rb_read_upd` does to the positions of a valid ring.
record ReadStep (rb : Ringbuffer) (len : ℕ) : Type 0 where
  took : (rb_read_upd rb len).1 ≡ min len rb.used
  buffer_same : (rb_read_upd rb len).0.buffer ≡ rb.buffer
  size_same : (rb_read_upd rb len).0.size ≡ rb.size
  left : (rb_read_upd rb len).0.used ≡ rb.used - min len rb.used
  moved :
      ((rb_read_upd rb len).0.used ≡ 0)
      ⊎ IsAfter rb.size rb.read (min len rb.used) (rb_read_upd rb len).0.read

rb_read_upd-ReadStep : {rb : Ringbuffer} (len : ℕ) → IsValid rb → ReadStep rb len
unfolding rb_read_upd
rb_read_upd-ReadStep {rb} len v = ground (arith, clip-min rb.used len)

-- `rb_read_upd` returns how many bytes it dropped, as many as asked for or as there are, drops
-- exactly those from the front, and keeps the invariant.
pub rb_read_upd_lem :
    {rb : Ringbuffer} (len : ℕ)
    → IsValid rb
    → let (rb', n) = rb_read_upd rb len in
      (n ≡ min len rb.used) × (contents rb' ≡ drop n (contents rb)) × IsValid rb'
rb_read_upd_lem {rb} len v =
    let s = rb_read_upd-ReadStep len v in
    let v' = rb_read_upd-IsValid len v in
    let inside : (rb_read_upd rb len).0.read ≤ rb.size = omega (arith, v'.read_in, s.size_same) in
    (
      s.took,
      rw (s.buffer_same, s.size_same, s.took)
          (window-drop rb.buffer rb.size rb.read rb.used (min len rb.used)
            (rb_read_upd rb len).0.read (rb_read_upd rb len).0.used v.storage v.read_in v.used_in
            (omega arith) inside s.left s.moved),
      v',
    )

-- What `rb_write` does to a valid ring, with the write in one piece or in two.
record WriteStep (rb : Ringbuffer) (bytes : List ℕ) (n : ℕ) (rb' : Ringbuffer) : Type 0 where
  size_same : rb'.size ≡ rb.size
  read_same : rb'.read ≡ rb.read
  grown : rb'.used ≡ rb.used + n
  storage :
      ((rb.write + n ≤ rb.size) × (rb'.buffer ≡ splice rb.buffer rb.write (slice bytes 0 n)))
      ⊎ (rb.size < rb.write + n)
        × (rb'.buffer
            ≡ splice
                (splice rb.buffer rb.write (slice bytes 0 (rb.size - rb.write)))
                0
                (slice bytes (rb.size - rb.write) (rb.write + n - rb.size)))

rb_write-size :
    (rb : Ringbuffer) (bytes : List ℕ) (len : ℕ)
    → ((rb_write rb bytes len).0.size ≡ rb.size) × ((rb_write rb bytes len).0.read ≡ rb.read)
unfolding rb_write
rb_write-size rb bytes len = ground arith

rb_write-used :
    {rb : Ringbuffer} (bytes : List ℕ) (len : ℕ)
    → IsValid rb
    → ((rb_write rb bytes len).0.used ≡ rb.used + min len (rb.size - rb.used))
      × ((rb_write rb bytes len).1 ≡ min len (rb.size - rb.used))
unfolding rb_write
rb_write-used {rb} bytes len v = ground (arith, clip-min (rb_free rb) len)

module _ (rb : Ringbuffer) (bytes : List ℕ) (len n : ℕ) (v : IsValid rb)
    (asked : n ≡ min len (rb.size - rb.used)) where
  clip-asked : clip (rb_free rb) len ≡ n
  clip-asked = omega (arith, clip-min (rb_free rb) len)

  rb_write_straight :
      rb.write + n ≤ rb.size
      → (rb_write rb bytes len).0.buffer ≡ splice rb.buffer rb.write (slice bytes 0 n)
  unfolding rb_write
  rb_write_straight h =
      rw (rb_write_core, clip-asked)
        (ground (arith, slice-zero bytes 0, splice-nil rb.buffer rb.write))

  rb_write_wrapped :
      rb.size < rb.write + n
      → (rb_write rb bytes len).0.buffer
        ≡ splice
            (splice rb.buffer rb.write (slice bytes 0 (rb.size - rb.write)))
            0
            (slice bytes (rb.size - rb.write) (rb.write + n - rb.size))
  unfolding rb_write
  rb_write_wrapped h =
      let over : sub_size (add_size rb.write n) rb.size ≡ rb.write + n - rb.size = omega arith in
      let first : sub_size rb.size rb.write ≡ rb.size - rb.write = omega arith in
      rw (rb_write_core, clip-asked) (ground (arith))

  -- The storage after the write, seen from the old bytes and from the new ones.
  old_bytes : window (rb_write rb bytes len).0.buffer rb.size rb.read rb.used ≡ contents rb
  old_bytes = elim (dec_le (rb.write + n) rb.size) [
    | yes p ↦
        let fits : length (slice bytes 0 n) ≤ n = omega (arith, length-slice bytes 0 n) in
        rw (rb_write_straight p)
          (window-splice rb.buffer rb.write (slice bytes 0 n) rb.size rb.read rb.used (omega arith))
    | no p ↦
        let first = slice bytes 0 (rb.size - rb.write) in
        let second = slice bytes (rb.size - rb.write) (rb.write + n - rb.size) in
        let fits : length first ≤ rb.size - rb.write =
          omega (arith, length-slice bytes 0 (rb.size - rb.write)) in
        let fits' : length second ≤ rb.write + n - rb.size =
          omega (arith, length-slice bytes (rb.size - rb.write) (rb.write + n - rb.size)) in
        rw (rb_write_wrapped (omega arith)) (
          window-splice (splice rb.buffer rb.write first) 0 second rb.size rb.read rb.used
            (omega arith)
          ∙ window-splice rb.buffer rb.write first rb.size rb.read rb.used (omega arith))
  ]

  new_bytes :
      n ≤ length bytes → window (rb_write rb bytes len).0.buffer rb.size rb.write n ≡ take n bytes
  new_bytes enough = elim (dec_le (rb.write + n) rb.size) [
    | yes p ↦
        rw
          (
            rb_write_straight p,
            window_straight (splice rb.buffer rb.write (slice bytes 0 n)) rb.size rb.write n p,
          )
          (slice-splice_self rb.buffer rb.write (slice bytes 0 n) n
              (omega (arith, length-slice bytes 0 n)) (omega arith)
            ∙ slice_of_zero bytes n)
    | no p ↦
        let k = rb.size - rb.write in
        let over = rb.write + n - rb.size in
        let first = slice bytes 0 k in
        let second = slice bytes k over in
        let buf1 = splice rb.buffer rb.write first in
        let fits : length first ≡ k = omega (arith, length-slice bytes 0 k) in
        let fits' : length second ≡ over = omega (arith, length-slice bytes k over) in
        rw
          (
            rb_write_wrapped (omega arith),
            window_wrapped (splice buf1 0 second) rb.size rb.write n (omega arith),
            slice-splice_after buf1 0 second rb.write k (omega arith),
            slice-splice_self rb.buffer rb.write first k (omega arith) (omega arith),
            slice-splice_self buf1 0 second over (omega arith)
                (omega (arith, length-splice rb.buffer rb.write first)),
          )
          (sym (slice_split bytes k over n (omega arith)) ∙ slice_of_zero bytes n)
  ]

-- `rb_write` takes as many bytes as fit, returns their number, appends exactly those bytes in
-- order to what the ring holds, and keeps the invariant, where the source holds `len` bytes.
pub rb_write_lem :
    {rb : Ringbuffer} (bytes : List ℕ) (len : ℕ)
    → IsValid rb
    → len ≤ length bytes
    → let (rb', n) = rb_write rb bytes len in
      (n ≡ min len (rb.size - rb.used)) × (contents rb' ≡ contents rb ++ take n bytes) × IsValid rb'
rb_write_lem {rb} bytes len v h =
    let n = min len (rb.size - rb.used) in
    let rb' = (rb_write rb bytes len).0 in
    let (same, still) = rb_write-size rb bytes len in
    let (grown, count) = rb_write-used bytes len v in
    (
      count,
      rw (same, still, grown, count)
          (window-add rb'.buffer rb.size rb.read rb.used n rb.write v.read_in (omega arith)
              v.write_in v.linked
            ∙ ap₂ ◌++◌ (old_bytes rb bytes len n v refl)
                (new_bytes rb bytes len n v refl (omega arith))),
      unfold rb_write in rb_write_core-IsValid bytes len memmove v,
    )

record UpdStep (rb : Ringbuffer) (len : ℕ) : Type 0 where
  count : (rb_write_upd rb len).1 ≡ min len (rb.size - rb.used)
  buffer_same : (rb_write_upd rb len).0.buffer ≡ rb.buffer
  size_same : (rb_write_upd rb len).0.size ≡ rb.size
  read_same : (rb_write_upd rb len).0.read ≡ rb.read
  grown : (rb_write_upd rb len).0.used ≡ rb.used + min len (rb.size - rb.used)

rb_write_upd-UpdStep : {rb : Ringbuffer} (len : ℕ) → IsValid rb → UpdStep rb len
unfolding rb_write_upd
rb_write_upd-UpdStep {rb} len v = ground (arith, clip-min (rb_free rb) len)

-- After bytes were put straight into the free part, `rb_write_upd` returns how many it counts in,
-- as many as asked for or as fit, and the bytes that stand there join what the ring holds.
pub rb_write_upd_lem :
    {rb : Ringbuffer} (len : ℕ)
    → IsValid rb
    → let (rb', n) = rb_write_upd rb len in
      (n ≡ min len (rb.size - rb.used))
      × (contents rb' ≡ contents rb ++ window rb.buffer rb.size rb.write n)
      × IsValid rb'
rb_write_upd_lem {rb} len v =
    let s = rb_write_upd-UpdStep len v in
    (
      s.count,
      rw (s.buffer_same, s.size_same, s.read_same, s.grown, s.count)
          (window-add rb.buffer rb.size rb.read rb.used (min len (rb.size - rb.used)) rb.write
            v.read_in (omega arith) v.write_in v.linked),
      rb_write_upd-IsValid len v,
    )
