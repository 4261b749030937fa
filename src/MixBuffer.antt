-- ===== src/MixBuffer.antt =====
-- src/mixbuffer.c and src/mixbuffer.h: several audio streams that write into one ring, each at its
-- own position. A pointer to an attached stream is its place in the list. The saturated addition of
-- two samples, `ast_slinear_saturated_add`, is Asterisk's and enters as a function of two 16-bit words,
-- which a little-endian host reads from the bytes.
pub mod Streams
pub mod Shared
pub mod Tests
use asterisk_chan_quectel.Prelude.{
  ℕ, zero, suc, ◌+◌, ◌-◌, ◌*◌, ◌/◌, ◌%◌, ◌^◌, Bool, true, false, Option, none, some, List, [], ◌∷◌,
  ◌++◌, map, ltb, leb, ◌==◌, if◌then◌else◌, add_size, sub_size, u32, sub_u32, drop, get_elem?,
}
use asterisk_chan_quectel.Ring.{
  Ringbuffer, Iov, Method, rb_init, rb_used, rb_read_upd, rb_read_all_iov, rb_read_n_iov, rb_write,
  rb_write_core, clip,
}

pub record Mixstream : Type 0 where
  pub used : ℕ
  pub write : ℕ

pub record Mixbuffer : Type 0 where
  pub streams : List Mixstream
  pub rb : Ringbuffer
  pub attached : ℕ  -- unsigned

unfoldable pub mixb_init : List ℕ → ℕ → Mixbuffer
mixb_init buf len = record { streams = []; rb = rb_init buf len; attached = 0 }

-- The new stream is the last of the list.
unfoldable pub mixb_attach : Mixbuffer → Mixbuffer
mixb_attach mb = record mb {
  streams = mb.streams ++ (record { used = 0; write = mb.rb.read } ∷ []);
  attached = u32 (mb.attached + 1);
}

-- `AST_LIST_REMOVE` of the stream at a place.
unfoldable pub remove_at : ℕ → List Mixstream → List Mixstream
remove_at i [] = []
remove_at zero (s ∷ ss) = ss
remove_at (suc i) (s ∷ ss) = s ∷ remove_at i ss

unfoldable pub mixb_detach : Mixbuffer → ℕ → Mixbuffer
unfolding remove_at
mixb_detach mb i = record mb { streams = remove_at i mb.streams; attached = sub_u32 mb.attached 1 }

unfoldable pub mixb_free : Ringbuffer → Mixstream → ℕ
mixb_free rb stream = sub_size rb.size stream.used

abbrev pub mixb_used : Mixbuffer → ℕ
mixb_used mb = rb_used mb.rb

abbrev pub mixb_read_all_iov : Mixbuffer → Iov → ℕ × Iov
mixb_read_all_iov mb iov = rb_read_all_iov mb.rb iov

abbrev pub mixb_read_n_iov : Mixbuffer → Iov → ℕ → ℕ × Iov
mixb_read_n_iov mb iov len = rb_read_n_iov mb.rb iov len

abbrev pub mixb_streams : Mixbuffer → ℕ
mixb_streams mb = mb.attached

-- The samples of `s1` after the addition; an odd byte at the end stays.
unfoldable pub saturated_sum : (ℕ → ℕ → ℕ) → Method
saturated_sum add [] new = []
saturated_sum add (a ∷ []) new = a ∷ []
saturated_sum add (a ∷ b ∷ old) [] = a ∷ b ∷ old
saturated_sum add (a ∷ b ∷ old) (c ∷ []) = a ∷ b ∷ old
saturated_sum add (a ∷ b ∷ old) (c ∷ d ∷ new) =
    let sum = add (a + b * 256) (c + d * 256) in
    sum % 256 ∷ sum / 256 % 256 ∷ saturated_sum add old new

-- The ring, the stream and the count that is returned.
unfoldable pub mixb_mix_write :
    (ℕ → ℕ → ℕ) → Ringbuffer → Mixstream → List ℕ → ℕ → Ringbuffer × Mixstream × ℕ
mixb_mix_write add rb stream bytes len =
    let local : Ringbuffer = record rb { write = stream.write; used = stream.used } in
    let (rb', rv) = rb_write_core local bytes len (saturated_sum add) in
    (
      record rb' { used = rb.used; write = rb.write },
      record { used = rb'.used; write = rb'.write },
      rv,
    )

-- `mixb_write` on the ring and the stream that is handed in.
unfoldable pub write_stream :
    (ℕ → ℕ → ℕ) → Ringbuffer → Mixstream → List ℕ → ℕ → Ringbuffer × Mixstream × ℕ
write_stream add rb stream bytes len =
    let n = clip (mixb_free rb stream) len in
    if ltb 0 n
    then (let max_mix = sub_size rb.used stream.used in
        if ltb max_mix n
        then (let mixed =
              if max_mix == 0 then rb else (mixb_mix_write add rb stream bytes max_mix).0 in
            let rb' = (rb_write mixed (drop max_mix bytes) (sub_size n max_mix)).0 in
            (rb', record { used = rb'.used; write = rb'.write }, n))
        else (let (rb', stream', rv) = mixb_mix_write add rb stream bytes n in (rb', stream', n)))
    else (rb, stream, n)

-- The stream at a place put anew.
unfoldable pub set_stream : List Mixstream → ℕ → Mixstream → List Mixstream
set_stream [] i s = []
set_stream (t ∷ ts) zero s = s ∷ ts
set_stream (t ∷ ts) (suc i) s = t ∷ set_stream ts i s

-- `mixb_write` for the stream at place `i`, if there is one.
unfoldable pub write_at :
    (ℕ → ℕ → ℕ) → Mixbuffer → ℕ → List ℕ → ℕ → Option Mixstream → Mixbuffer × ℕ
unfolding write_stream
write_at add mb i bytes len none = (mb, 0)
write_at add mb i bytes len (some stream) =
    let (rb', stream', n) = write_stream add mb.rb stream bytes len in
    (record mb { rb = rb'; streams = set_stream mb.streams i stream' }, n)

unfoldable pub mixb_write : (ℕ → ℕ → ℕ) → Mixbuffer → ℕ → List ℕ → ℕ → Mixbuffer × ℕ
unfolding write_at
mixb_write add mb i bytes len = write_at add mb i bytes len (get_elem? mb.streams i)

-- The body of the loop over the streams.
unfoldable pub read_stream : Ringbuffer → ℕ → Mixstream → Mixstream
read_stream rb len s =
    let used' = if ltb len s.used then sub_size s.used len else 0 in
    let at = add_size rb.read used' in
    record { used = used'; write = if leb rb.size at then sub_size at rb.size else at }

unfoldable pub mixb_read_upd : Mixbuffer → ℕ → Mixbuffer × ℕ
mixb_read_upd mb len =
    let (rb', rv) = rb_read_upd mb.rb len in
    (record mb { rb = rb'; streams = map (read_stream rb' len) mb.streams }, rv)
