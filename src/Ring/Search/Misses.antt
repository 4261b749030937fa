-- ===== src/Ring/Search/Misses.antt =====
-- `rb_read_until_mem_iov` of src/ringbuffer.c with a pattern of three bytes round the end of the
-- storage.
use asterisk_chan_quectel.Prelude.{
  ℕ, ◌+◌, ◌-◌, ◌≡◌, ◌≢◌, false, List, [], ◌∷◌, ◌++◌, arith, length, length-slice, slice, sub_size,
}
use asterisk_chan_quectel.Ring.{Ringbuffer, Iov, bytes_eq}
use asterisk_chan_quectel.Ring.Bounds.{IsValid}
use asterisk_chan_quectel.Ring.Contents.{contents, window_wrapped}
use asterisk_chan_quectel.Ring.Search.{
  straddle, after_straddle, until_mem_wrapped, rb_read_until_mem_iov,
}

third : (xs ys : List ℕ) (a b c : ℕ) → length xs ≡ 2 → xs ++ ys ≡ a ∷ b ∷ c ∷ [] → ys ≡ c ∷ []
third [] ys a b c h e = absurd (omega arith)
third (x ∷ []) ys a b c h e = absurd (omega arith)
third (x ∷ y ∷ []) ys a b c h e = ground arith
third (x ∷ y ∷ z ∷ xs) ys a b c h e = absurd (omega arith)

-- A pattern of three bytes that stands round the end of the storage, two bytes before it and one
-- behind it, is missed where its last two bytes differ: the byte behind the end is compared with
-- the second byte of the pattern instead of the third. The stored bytes are the pattern itself.
pub rb_read_until_mem_iov_misses :
    (rb : Ringbuffer) (iov : Iov) (a b c : ℕ)
    → IsValid rb
    → rb.read + 2 ≡ rb.size
    → rb.used ≡ 3
    → contents rb ≡ a ∷ b ∷ c ∷ []
    → b ≢ c
    → (rb_read_until_mem_iov rb iov (a ∷ b ∷ c ∷ []) 3).0 ≡ 0
unfolding rb_read_until_mem_iov until_mem_wrapped straddle after_straddle
rb_read_until_mem_iov_misses rb iov a b c v at used held ne =
    let parts = window_wrapped rb.buffer rb.size rb.read rb.used (omega arith) in
    let k : rb.size - rb.read ≡ 2 = omega arith in
    let m : rb.read + rb.used - rb.size ≡ 1 = omega arith in
    let behind : slice rb.buffer 0 1 ≡ c ∷ [] =
      third (slice rb.buffer rb.read 2) (slice rb.buffer 0 1) a b c
        (omega (arith, length-slice rb.buffer rb.read 2)) (rw (parts, k, m) at held) in
    let missed : bytes_eq (slice rb.buffer 0 1) (b ∷ []) ≡ false =
      rw behind (unfold bytes_eq in ground arith) in
    let first : sub_size rb.size rb.read ≡ 2 = omega arith in ground arith
