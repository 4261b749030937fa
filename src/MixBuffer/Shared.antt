-- ===== src/MixBuffer/Shared.antt =====
-- What the operations of src/mixbuffer.c do to all streams together: the invariant of the shared ring,
-- and what a stream finds of its own bytes.
use asterisk_chan_quectel.Prelude.{
  ℕ, zero, suc, ◌+◌, ◌-◌, ◌≤◌, ◌<◌, ◌≡◌, refl, inl, ap, sym, ◌∙◌, some, List, [], ◌∷◌, ◌++◌, map,
  min, arith, ltb, leb, if◌then◌else◌, sub_size, u32, take, get_elem?, length, length-append,
  length-map, All, All-append, if-elim, append-nil_of,
}
use mathlib.Core.Path.{subst}
use mathlib.Core.Option.{some-injective}
use asterisk_chan_quectel.Ring.{Ringbuffer, rb_read_upd, clip}
use asterisk_chan_quectel.Ring.Bounds.{IsValid, clip-min, rb_read_upd-IsValid}
use asterisk_chan_quectel.Ring.Contents.{contents}
use asterisk_chan_quectel.Ring.Queue.{rb_write_lem}
use asterisk_chan_quectel.MixBuffer.{
  Mixstream, Mixbuffer, mixb_attach, mixb_detach, remove_at, mixb_free, write_stream, set_stream,
  write_at, mixb_write, read_stream, mixb_read_upd,
}
use asterisk_chan_quectel.MixBuffer.Streams.{IsStream, IsMixed, write_stream_lem}

-- A stream that is attached is valid.
All-get :
    (P : Mixstream → Type 0) (ss : List Mixstream) (i : ℕ) (s : Mixstream)
    → All P ss
    → get_elem? ss i ≡ some s
    → P s
All-get P [] i s all h = cc
All-get P (t ∷ ss) zero s all h = subst P (some-injective t s h) (all.0)
All-get P (t ∷ ss) (suc i) s all h = All-get P ss i s (all.1) h

-- The streams stay where they are while the ring only grows.
All-grow :
    (size read used used' : ℕ) (ss : List Mixstream)
    → used ≤ used'
    → All (IsStream size read used) ss
    → All (IsStream size read used') ss
All-grow size read used used' [] more all = all
All-grow size read used used' (t ∷ ss) more (h, hs) = (
  record { within = omega (arith, h.within); write_in = h.write_in; linked = h.linked },
  All-grow size read used used' ss more hs,
)

All-set_stream :
    (P : Mixstream → Type 0) (ss : List Mixstream) (i : ℕ) (s : Mixstream)
    → All P ss
    → P s
    → All P (set_stream ss i s)
unfolding set_stream
All-set_stream P [] i s all h = all
All-set_stream P (t ∷ ss) zero s all h = (h, all.1)
All-set_stream P (t ∷ ss) (suc i) s all h = (all.0, All-set_stream P ss i s (all.1) h)

length-set_stream :
    (ss : List Mixstream) (i : ℕ) (s : Mixstream) → length (set_stream ss i s) ≡ length ss
unfolding set_stream
length-set_stream [] i s = refl
length-set_stream (t ∷ ss) zero s = refl
length-set_stream (t ∷ ss) (suc i) s = ap suc (length-set_stream ss i s)

get_elem?-set_stream :
    (ss : List Mixstream) (i : ℕ) (s t : Mixstream)
    → get_elem? ss i ≡ some s
    → get_elem? (set_stream ss i t) i ≡ some t
unfolding set_stream
get_elem?-set_stream [] i s t h = cc
get_elem?-set_stream (x ∷ ss) zero s t h = refl
get_elem?-set_stream (x ∷ ss) (suc i) s t h = get_elem?-set_stream ss i s t h

-- What is claimed of a write by the stream `s` at place `i`.
abbrev pub IsWritten : Mixbuffer → ℕ → Mixstream → ℕ → Mixbuffer × ℕ → Type 0
IsWritten mb i s len (mb', n) =
    (n ≡ min len (mb.rb.size - s.used))
    × IsMixed mb'
    × (mb'.rb.used ≡ (if leb (s.used + n) mb.rb.used then mb.rb.used else s.used + n))
    × ((s' : Mixstream) × (get_elem? mb'.streams i ≡ some s') × (s'.used ≡ s.used + n))

write_at-IsWritten :
    (add : ℕ → ℕ → ℕ) {mb : Mixbuffer} (i : ℕ) (s : Mixstream) (bytes : List ℕ) (len : ℕ)
    → IsMixed mb
    → get_elem? mb.streams i ≡ some s
    → IsWritten mb i s len (write_at add mb i bytes len (some s))
unfolding write_at
write_at-IsWritten add {mb} i s bytes len m at =
    let h = All-get (IsStream mb.rb.size mb.rb.read mb.rb.used) mb.streams i s m.all at in
    let (count, w) = write_stream_lem add mb.rb s bytes len m.ring h in
    let rb' = (write_stream add mb.rb s bytes len).0 in
    let s' = (write_stream add mb.rb s bytes len).1 in
    let grown : mb.rb.used ≤ rb'.used = ground (arith, w.used) in
    let moved : All (IsStream rb'.size rb'.read rb'.used) mb.streams =
      rw (w.size_same, w.read_same)
        (All-grow mb.rb.size mb.rb.read mb.rb.used rb'.used mb.streams grown m.all) in
    let mixed : IsMixed (record mb { rb = rb'; streams = set_stream mb.streams i s' }) = record {
      ring = w.valid;
      all = All-set_stream (IsStream rb'.size rb'.read rb'.used) mb.streams i s' moved w.placed;
      count = omega (arith, length-set_stream mb.streams i s', m.count);
    } in
    (count, mixed, w.used, (s', get_elem?-set_stream mb.streams i s s' at, w.moved))

-- `mixb_write` by an attached stream keeps the invariant of the shared ring for all streams. It
-- takes as many bytes as that stream has free, returns their number, moves the stream on by as
-- many, and the ring then holds as much as the farther of the stream and what it held before.
pub mixb_write-IsMixed :
    (add : ℕ → ℕ → ℕ) {mb : Mixbuffer} (i : ℕ) (s : Mixstream) (bytes : List ℕ) (len : ℕ)
    → IsMixed mb
    → get_elem? mb.streams i ≡ some s
    → IsWritten mb i s len (mixb_write add mb i bytes len)
unfolding mixb_write
mixb_write-IsMixed add {mb} i s bytes len m at = rw at (write_at-IsWritten add i s bytes len m at)

-- The result `r` of a write puts the bytes that it took behind those of the ring.
abbrev IsAppended : Ringbuffer → List ℕ → Ringbuffer × Mixstream × ℕ → Type 0
IsAppended rb bytes (rb', s', n) = contents rb' ≡ contents rb ++ take n bytes

write_stream_level :
    (add : ℕ → ℕ → ℕ) (rb : Ringbuffer) (s : Mixstream) (bytes : List ℕ) (len : ℕ)
    → IsValid rb
    → s.used ≡ rb.used
    → len ≤ length bytes
    → IsAppended rb bytes (write_stream add rb s bytes len)
unfolding write_stream mixb_free
write_stream_level add rb s bytes len v level held =
    let n = clip (sub_size rb.size s.used) len in
    let count : n ≡ min len (rb.size - rb.used) =
      omega (arith, clip-min (sub_size rb.size s.used) len, v.used_in, v.small) in
    let ahead : sub_size rb.used s.used ≡ 0 = omega (arith, v.used_in, v.small) in
    let whole : sub_size n 0 ≡ n = omega (arith, v.small) in
    let all : min n (rb.size - rb.used) ≡ n = omega arith in
    let (took, joined, still) = rb_write_lem bytes n v (omega arith) in
    if-elim (IsAppended rb bytes) (ltb 0 n)
      (λ more.
        rw ahead (rw (more, whole) (joined ∙ ap (λ k. contents rb ++ take k bytes) (took ∙ all))))
      (λ nothing.
        let empty : n ≡ 0 = ground arith in
        sym (append-nil_of (contents rb) (take n bytes) (rw empty refl)))

-- An attached stream that is level with the ring appends what it writes, as far as it fits, to
-- what the ring holds, where the source holds `len` bytes; nothing is mixed.
pub mixb_write_level :
    (add : ℕ → ℕ → ℕ) {mb : Mixbuffer} (i : ℕ) (s : Mixstream) (bytes : List ℕ) (len : ℕ)
    → IsMixed mb
    → get_elem? mb.streams i ≡ some s
    → s.used ≡ mb.rb.used
    → len ≤ length bytes
    → let (mb', n) = mixb_write add mb i bytes len in
      contents mb'.rb ≡ contents mb.rb ++ take n bytes
unfolding mixb_write
mixb_write_level add {mb} i s bytes len m at level held =
    rw at (unfold write_at in write_stream_level add mb.rb s bytes len m.ring level held)

read_stream-IsStream :
    (rb : Ringbuffer) (len : ℕ) (s : Mixstream)
    → IsValid rb
    → s.used ≤ rb.used
    → let rb' = (rb_read_upd rb len).0 in
      IsStream rb'.size rb'.read rb'.used (read_stream rb' len s)
unfolding rb_read_upd read_stream
read_stream-IsStream rb len s v h = ground (arith, clip-min rb.used len)

All-read_stream :
    (rb : Ringbuffer) (len : ℕ) (ss : List Mixstream)
    → IsValid rb
    → All (IsStream rb.size rb.read rb.used) ss
    → let rb' = (rb_read_upd rb len).0 in
      All (IsStream rb'.size rb'.read rb'.used) (map (read_stream rb' len) ss)
All-read_stream rb len [] v all = all
All-read_stream rb len (s ∷ ss) v (h, hs) =
    (read_stream-IsStream rb len s v h.within, All-read_stream rb len ss v hs)

-- `mixb_read_upd` keeps the invariant of the shared ring for all streams, also where it empties the
-- ring and its positions start again.
pub mixb_read_upd-IsMixed :
    {mb : Mixbuffer} (len : ℕ) → IsMixed mb → IsMixed (mixb_read_upd mb len).0
unfolding mixb_read_upd
mixb_read_upd-IsMixed {mb} len m = record {
  ring = rb_read_upd-IsValid len m.ring;
  all = All-read_stream mb.rb len mb.streams m.ring m.all;
  count =
      m.count ∙ ap u32 (sym (length-map mb.streams (read_stream (rb_read_upd mb.rb len).0 len)));
}

-- `mixb_attach` adds a stream that stands where reading goes on, and keeps the invariant.
pub mixb_attach-IsMixed : {mb : Mixbuffer} → IsMixed mb → IsMixed (mixb_attach mb)
unfolding mixb_attach
mixb_attach-IsMixed {mb} m =
    let s : Mixstream = record { used = 0; write = mb.rb.read } in
    let P = IsStream mb.rb.size mb.rb.read mb.rb.used in
    let v = m.ring in
    let start : P s = record {
      within = omega arith;
      write_in = omega (arith, v.read_in);
      linked = inl (omega arith);
    } in
    record {
      ring = m.ring;
      all = All-append P mb.streams (s ∷ []) m.all (omega (arith, start));
      count = omega (arith, m.count, length-append mb.streams (s ∷ []));
    }

All-remove_at :
    (P : Mixstream → Type 0) (i : ℕ) (ss : List Mixstream) → All P ss → All P (remove_at i ss)
unfolding remove_at
All-remove_at P i [] all = all
All-remove_at P zero (s ∷ ss) all = all.1
All-remove_at P (suc i) (s ∷ ss) all = (all.0, All-remove_at P i ss (all.1))

length-remove_at :
    (i : ℕ) (ss : List Mixstream) → i < length ss → length (remove_at i ss) + 1 ≡ length ss
unfolding remove_at
length-remove_at i [] h = absurd (omega arith)
length-remove_at zero (s ∷ ss) h = omega arith
length-remove_at (suc i) (s ∷ ss) h = omega (arith, length-remove_at i ss (omega arith))

-- `mixb_detach` of a stream that is attached keeps the invariant.
pub mixb_detach-IsMixed :
    {mb : Mixbuffer} (i : ℕ) → i < length mb.streams → IsMixed mb → IsMixed (mixb_detach mb i)
unfolding mixb_detach
mixb_detach-IsMixed {mb} i h m = record {
  ring = m.ring;
  all = All-remove_at (IsStream mb.rb.size mb.rb.read mb.rb.used) i mb.streams m.all;
  count = omega (arith, m.count, length-remove_at i mb.streams h);
}
