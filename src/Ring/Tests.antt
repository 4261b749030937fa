-- ===== src/Ring/Tests.antt =====
-- Runs of src/ringbuffer.c on small rings, and the theorems about it at concrete rings.
use asterisk_chan_quectel.Prelude.{
  ℕ, ◌≡◌, refl, inl, inr, some, List, [], ◌∷◌, ◌++◌, arith, take, drop,
}
use asterisk_chan_quectel.Ring.{
  Ringbuffer, Iov, rb_write, rb_write_core, rb_read_upd, memmove, bytes_eq, clip,
}
use asterisk_chan_quectel.Ring.Bounds.{IsValid, rb_write_core-IsValid}
use asterisk_chan_quectel.Ring.Contents.{window, contents}
use asterisk_chan_quectel.Ring.Queue.{rb_read_upd_lem, rb_write_lem}
use asterisk_chan_quectel.Ring.Search.{memmem, memmem_loop, rb_read_until_mem_iov}
use asterisk_chan_quectel.Ring.Search.Pairs.{IsRight}
use asterisk_chan_quectel.Ring.Search.Wrapped.{rb_read_until_mem_iov_pair}
use asterisk_chan_quectel.Ring.Search.Misses.{rb_read_until_mem_iov_misses}

-- A ring of eight bytes that holds `bytes` from `read` on.
abbrev ring_of : List ℕ → ℕ → ℕ → ℕ → Ringbuffer
ring_of bytes used read write = record {
  buffer = bytes;
  size = 8;
  used = used;
  read = read;
  write = write;
}

abbrev blank : Iov
blank = record { base0 = 0; len0 = 0; base1 = 0; len1 = 0 }

-- The bytes 1 2 3 in the middle.
abbrev middle : Ringbuffer
middle = ring_of (0 ∷ 0 ∷ 1 ∷ 2 ∷ 3 ∷ 0 ∷ 0 ∷ 0 ∷ []) 3 2 5

middle-IsValid : IsValid middle
middle-IsValid = record {
  storage = omega arith;
  small = omega arith;
  read_in = omega arith;
  used_in = omega arith;
  write_in = omega arith;
  linked = inl (omega arith);
}

-- The bytes 13 10 13 10, of which two stand before the end of the storage.
abbrev round : Ringbuffer
round = ring_of (13 ∷ 10 ∷ 0 ∷ 0 ∷ 0 ∷ 0 ∷ 7 ∷ 9 ∷ []) 4 6 2

round-IsValid : IsValid round
round-IsValid = record {
  storage = omega arith;
  small = omega arith;
  read_in = omega arith;
  used_in = omega arith;
  write_in = omega arith;
  linked = inr (omega arith);
}

-- `OK\n` across the end of the storage, with a printable byte before it.
abbrev across : Ringbuffer
across = ring_of (10 ∷ 0 ∷ 0 ∷ 0 ∷ 0 ∷ 0 ∷ 79 ∷ 75 ∷ []) 3 6 1

across-IsValid : IsValid across
across-IsValid = record {
  storage = omega arith;
  small = omega arith;
  read_in = omega arith;
  used_in = omega arith;
  write_in = omega arith;
  linked = inr (omega arith);
}

write_wraps :
    contents (rb_write middle (4 ∷ 5 ∷ 6 ∷ 7 ∷ 8 ∷ 9 ∷ []) 6).0 ≡ 1 ∷ 2 ∷ 3 ∷ 4 ∷ 5 ∷ 6 ∷ 7 ∷ 8 ∷ []
unfolding rb_write rb_write_core clip window
write_wraps = refl

read_wraps : contents (rb_read_upd round 3).0 ≡ 10 ∷ []
unfolding rb_read_upd clip window
read_wraps = refl

rb_write_lem_example :
    let (rb', n) = rb_write middle (4 ∷ 5 ∷ 6 ∷ 7 ∷ 8 ∷ 9 ∷ []) 6 in
    (n ≡ 5) × (contents rb' ≡ contents middle ++ take n (4 ∷ 5 ∷ 6 ∷ 7 ∷ 8 ∷ 9 ∷ [])) × IsValid rb'
rb_write_lem_example = rb_write_lem (4 ∷ 5 ∷ 6 ∷ 7 ∷ 8 ∷ 9 ∷ []) 6 middle-IsValid (omega arith)

rb_read_upd_lem_example :
    let (rb', n) = rb_read_upd round 3 in
    (n ≡ 3) × (contents rb' ≡ drop n (contents round)) × IsValid rb'
rb_read_upd_lem_example = rb_read_upd_lem 3 round-IsValid

rb_write_core-IsValid_example : IsValid (rb_write_core middle (4 ∷ 5 ∷ []) 2 memmove).0
rb_write_core-IsValid_example = rb_write_core-IsValid (4 ∷ 5 ∷ []) 2 memmove middle-IsValid

memmem_finds : memmem (1 ∷ 2 ∷ 2 ∷ 3 ∷ []) (2 ∷ 3 ∷ []) ≡ some 2
unfolding memmem memmem_loop bytes_eq
memmem_finds = refl

rb_read_until_mem_iov_pair_example :
    IsRight round (9 ∷ 13 ∷ []) (rb_read_until_mem_iov round blank (9 ∷ 13 ∷ []) 2)
rb_read_until_mem_iov_pair_example = rb_read_until_mem_iov_pair round blank 9 13 round-IsValid

rb_read_until_mem_iov_misses_example :
    (rb_read_until_mem_iov across blank (79 ∷ 75 ∷ 10 ∷ []) 3).0 ≡ 0
unfolding window
rb_read_until_mem_iov_misses_example =
    rb_read_until_mem_iov_misses across blank 79 75 10 across-IsValid (omega arith) (omega arith)
      refl (omega arith)
