-- ===== src/Ring/Bounds.antt =====
-- The invariant of `struct ringbuffer`: the positions stay inside the storage, and `write` stands
-- `used` bytes after `read`, modulo `size`. It may stand at `size` itself, where `rb_write_upd`
-- leaves it.
use asterisk_chan_quectel.Prelude.{
  ℕ, ◌+◌, ◌^◌, ◌≤◌, ◌<◌, ◌≡◌, ◌⊎◌, List, arith, length, length-splice, slice, add_size, sub_size,
  min,
}
use asterisk_chan_quectel.Ring.{
  Ringbuffer, Method, rb_init, rb_reset, rb_free, rb_read_upd, rb_write_upd, rb_write_core,
  apply_at, clip,
}

pub record IsValid (rb : Ringbuffer) : Type 0 where
  pub storage : rb.size ≤ length rb.buffer
  pub small : rb.size < 2 ^ 62
  pub read_in : rb.read < rb.size
  pub used_in : rb.used ≤ rb.size
  pub write_in : rb.write ≤ rb.size
  pub linked : (rb.read + rb.used ≡ rb.write) ⊎ (rb.read + rb.used ≡ rb.write + rb.size)

pub clip-min : (free len : ℕ) → clip free len ≡ min free len
unfolding clip
clip-min free len = ground arith

pub rb_init-IsValid :
    (buf : List ℕ) (size : ℕ)
    → 0 < size
    → size < 2 ^ 62
    → size ≤ length buf
    → IsValid (rb_init buf size) × (rb_free (rb_init buf size) ≡ size)
unfolding rb_init
rb_init-IsValid buf size p q r = ground arith

pub rb_reset-IsValid : {rb : Ringbuffer} → IsValid rb → IsValid (rb_reset rb)
unfolding rb_reset
rb_reset-IsValid v = ground arith

pub rb_read_upd-IsValid : {rb : Ringbuffer} (len : ℕ) → IsValid rb → IsValid (rb_read_upd rb len).0
unfolding rb_read_upd
rb_read_upd-IsValid {rb} len v = ground (arith, clip-min rb.used len)

pub rb_write_upd-IsValid :
    {rb : Ringbuffer} (len : ℕ) → IsValid rb → IsValid (rb_write_upd rb len).0
unfolding rb_write_upd
rb_write_upd-IsValid {rb} len v = ground (arith, clip-min (rb_free rb) len)

pub length-apply_at :
    (method : Method) (buffer : List ℕ) (at : ℕ) (buf : List ℕ) (from n : ℕ)
    → length (apply_at method buffer at buf from n) ≡ length buffer
length-apply_at method buffer at buf from n =
    length-splice buffer at (method (slice buffer at n) (slice buf from n))

pub rb_write_core-IsValid :
    {rb : Ringbuffer} (buf : List ℕ) (len : ℕ) (method : Method)
    → IsValid rb
    → IsValid (rb_write_core rb buf len method).0
unfolding rb_write_core
rb_write_core-IsValid {rb} buf len method v =
    let n = clip (rb_free rb) len in
    let first = sub_size rb.size rb.write in
    let head = apply_at method rb.buffer rb.write buf 0 first in
    ground (
      arith,
      clip-min (rb_free rb) len,
      length-apply_at method rb.buffer rb.write buf 0 n,
      length-apply_at method rb.buffer rb.write buf 0 first,
      length-apply_at method head 0 buf first (sub_size (add_size rb.write n) rb.size),
    )
