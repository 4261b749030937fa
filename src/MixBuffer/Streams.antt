-- ===== src/MixBuffer/Streams.antt =====
-- The invariant of `struct mixbuffer`: the ring is valid, every stream stands inside what the ring
-- holds, its position goes with the ring's `read`, and `attached` counts the streams.
use asterisk_chan_quectel.Prelude.{
  ℕ, ◌+◌, ◌-◌, ◌≤◌, ◌<◌, ◌≡◌, ◌⊎◌, refl, ap, ◌∙◌, true, false, List, min, arith, ltb, leb, ◌==◌,
  if◌then◌else◌, sub_size, u32, drop, length, All, if-elim,
}
use asterisk_chan_quectel.Ring.{Ringbuffer, Method, memmove, rb_write, rb_write_core, rb_free, clip}
use asterisk_chan_quectel.Ring.Bounds.{IsValid, clip-min, rb_write_core-IsValid}
use asterisk_chan_quectel.MixBuffer.{
  Mixstream, Mixbuffer, mixb_free, saturated_sum, mixb_mix_write, write_stream,
}

-- The stream `s` stands inside the `used` bytes that begin at `read`.
pub record IsStream (size read used : ℕ) (s : Mixstream) : Type 0 where
  pub within : s.used ≤ used
  pub write_in : s.write ≤ size
  pub linked : (read + s.used ≡ s.write) ⊎ (read + s.used ≡ s.write + size)

pub record IsMixed (mb : Mixbuffer) : Type 0 where
  pub ring : IsValid mb.rb
  pub all : All (IsStream mb.rb.size mb.rb.read mb.rb.used) mb.streams
  pub count : mb.attached ≡ u32 (length mb.streams)

-- The parts of a ring that `rb_write_core` leaves alone, and how far it goes.
record CoreStep (rb : Ringbuffer) (buf : List ℕ) (len : ℕ) (method : Method) : Type 0 where
  size_same : (rb_write_core rb buf len method).0.size ≡ rb.size
  read_same : (rb_write_core rb buf len method).0.read ≡ rb.read
  grown : (rb_write_core rb buf len method).0.used ≡ rb.used + min len (rb.size - rb.used)

rb_write_core-CoreStep :
    (rb : Ringbuffer) (buf : List ℕ) (len : ℕ) (method : Method)
    → IsValid rb
    → CoreStep rb buf len method
unfolding rb_write_core
rb_write_core-CoreStep rb buf len method v = ground (arith, clip-min (rb_free rb) len)

-- The ring as a stream sees it.
local_IsValid :
    (rb : Ringbuffer) (s : Mixstream)
    → IsValid rb
    → IsStream rb.size rb.read rb.used s
    → IsValid (record rb { write = s.write; used = s.used })
local_IsValid rb s v h = record {
  storage = v.storage;
  small = v.small;
  read_in = v.read_in;
  used_in = omega (arith, v.used_in, h.within);
  write_in = h.write_in;
  linked = h.linked;
}

-- What one call of `write_stream` does to the ring and to the stream, whatever it is made of.
pub record WriteStep (rb : Ringbuffer) (s : Mixstream) (n : ℕ) (rb' : Ringbuffer) (s' : Mixstream)
    : Type 0 where
  pub size_same : rb'.size ≡ rb.size
  pub read_same : rb'.read ≡ rb.read
  pub used : rb'.used ≡ (if leb (s.used + n) rb.used then rb.used else s.used + n)
  pub valid : IsValid rb'
  pub moved : s'.used ≡ s.used + n
  pub placed : IsStream rb'.size rb'.read rb'.used s'

mix_WriteStep :
    (add : ℕ → ℕ → ℕ) (rb : Ringbuffer) (s : Mixstream) (bytes : List ℕ) (n : ℕ)
    → IsValid rb
    → IsStream rb.size rb.read rb.used s
    → s.used + n ≤ rb.used
    → let r = mixb_mix_write add rb s bytes n in WriteStep rb s n r.0 r.1
unfolding mixb_mix_write
mix_WriteStep add rb s bytes n v h inside =
    let local : Ringbuffer = record rb { write = s.write; used = s.used } in
    let v' = local_IsValid rb s v h in
    let c = rb_write_core-CoreStep local bytes n (saturated_sum add) v' in
    let w = rb_write_core-IsValid bytes n (saturated_sum add) v' in
    let count : min n (rb.size - s.used) ≡ n = omega (arith, v.used_in) in
    let fits : leb (s.used + n) rb.used ≡ true = ground arith in
    record {
      size_same = c.size_same;
      read_same = c.read_same;
      used = rw fits refl;
      valid = record {
        storage = w.storage;
        small = w.small;
        read_in = w.read_in;
        used_in = omega (arith, c.size_same, v.used_in);
        write_in = omega (arith, c.size_same, v.write_in);
        linked = ground (arith, c.size_same, c.read_same, v.linked);
      };
      moved = c.grown ∙ ap (λ k. s.used + k) count;
      placed = record {
        within = omega (arith, c.grown, count);
        write_in = w.write_in;
        linked = w.linked;
      };
    }

-- `rb_write` behind a stream that is level with the ring.
append_WriteStep :
    (rb : Ringbuffer) (s : Mixstream) (bytes : List ℕ) (k n : ℕ)
    → IsValid rb
    → s.used + n ≡ rb.used + k
    → 0 < k
    → rb.used + k ≤ rb.size
    → let rb' = (rb_write rb bytes k).0 in
      WriteStep rb s n rb' (record { used = rb'.used; write = rb'.write })
unfolding rb_write
append_WriteStep rb s bytes k n v at more fits =
    let c = rb_write_core-CoreStep rb bytes k memmove v in
    let w = rb_write_core-IsValid bytes k memmove v in
    let count : min k (rb.size - rb.used) ≡ k = omega arith in
    let past : leb (s.used + n) rb.used ≡ false = ground arith in
    let used' : (rb_write_core rb bytes k memmove).0.used ≡ s.used + n = omega (arith, c.grown) in
    record {
      size_same = c.size_same;
      read_same = c.read_same;
      used = rw past used';
      valid = w;
      moved = used';
      placed = record { within = omega arith; write_in = w.write_in; linked = w.linked };
    }

mixed_then_appended :
    (add : ℕ → ℕ → ℕ) (rb : Ringbuffer) (s : Mixstream) (bytes : List ℕ) (n : ℕ)
    → IsValid rb
    → IsStream rb.size rb.read rb.used s
    → s.used + n ≤ rb.size
    → rb.used - s.used < n
    → let ahead = rb.used - s.used in
      let mixed = if ahead == 0 then rb else (mixb_mix_write add rb s bytes ahead).0 in
      let rb' = (rb_write mixed (drop ahead bytes) (n - ahead)).0 in
      WriteStep rb s n rb' (record { used = rb'.used; write = rb'.write })
mixed_then_appended add rb s bytes n v h fits past =
    let ahead = rb.used - s.used in
    let k = n - ahead in
    let Goal = λ (mixed : Ringbuffer).
      WriteStep rb s n (rb_write mixed (drop ahead bytes) k).0 (record {
        used = (rb_write mixed (drop ahead bytes) k).0.used;
        write = (rb_write mixed (drop ahead bytes) k).0.write;
      }) in
    if-elim Goal (ahead == 0)
      (λ level.
        append_WriteStep rb s (drop ahead bytes) k n v (omega (arith, h.within)) (omega arith)
          (omega (arith, h.within)))
      (λ behind.
        let rb1 = (mixb_mix_write add rb s bytes ahead).0 in
        let m = mix_WriteStep add rb s bytes ahead v h (omega (arith, h.within)) in
        let kept : leb (s.used + ahead) rb.used ≡ true = ground (arith, h.within) in
        let same : rb1.used ≡ rb.used = m.used ∙ rw kept refl in
        let a =
          append_WriteStep rb1 s (drop ahead bytes) k n m.valid (omega (arith, h.within))
            (omega arith) (omega (arith, h.within, m.size_same)) in
        let up : leb (s.used + n) rb.used ≡ false = ground (arith, h.within) in
        let up' : leb (s.used + n) rb1.used ≡ false = ground (arith, h.within) in
        let used1 : (rb_write rb1 (drop ahead bytes) k).0.used ≡ s.used + n =
          a.used ∙ rw up' refl in
        record {
          size_same = a.size_same ∙ m.size_same;
          read_same = a.read_same ∙ m.read_same;
          used = rw up used1;
          valid = a.valid;
          moved = a.moved;
          placed = a.placed;
        })

pub write_stream_lem :
    (add : ℕ → ℕ → ℕ) (rb : Ringbuffer) (s : Mixstream) (bytes : List ℕ) (len : ℕ)
    → IsValid rb
    → IsStream rb.size rb.read rb.used s
    → let (rb', s', n) = write_stream add rb s bytes len in
      (n ≡ min len (rb.size - s.used)) × WriteStep rb s n rb' s'
unfolding write_stream mixb_free
write_stream_lem add rb s bytes len v h =
    let n = clip (sub_size rb.size s.used) len in
    let count : n ≡ min len (rb.size - s.used) =
      omega (arith, clip-min (sub_size rb.size s.used) len, h.within, v.used_in, v.small) in
    let ahead : sub_size rb.used s.used ≡ rb.used - s.used =
      omega (arith, h.within, v.used_in, v.small) in
    let Goal = λ (r : Ringbuffer × Mixstream × ℕ).
      (r.2 ≡ min len (rb.size - s.used)) × WriteStep rb s (r.2) (r.0) (r.1) in
    if-elim Goal (ltb 0 n)
      (λ some_n.
        if-elim Goal (ltb (sub_size rb.used s.used) n)
          (λ past.
            let rest : sub_size n (rb.used - s.used) ≡ n - (rb.used - s.used) =
              ground (arith, v.small, v.used_in) in
            (
              count,
              rw (ahead, rest)
                  (mixed_then_appended add rb s bytes n v h (omega (arith, v.used_in, h.within))
                    (ground arith)),
            ))
          (λ inside. (count, mix_WriteStep add rb s bytes n v h (ground (arith, h.within)))))
      (λ no_n.
        let zero_n : n ≡ 0 = ground arith in
        let kept : leb (s.used + n) rb.used ≡ true = ground (arith, h.within) in
        (
          count,
          record {
            size_same = refl;
            read_same = refl;
            used = rw kept refl;
            valid = v;
            moved = omega arith;
            placed = h;
          },
        ))
