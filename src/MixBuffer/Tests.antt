-- ===== src/MixBuffer/Tests.antt =====
-- Runs of src/mixbuffer.c on small buffers, and the theorems about it at concrete buffers.
use asterisk_chan_quectel.Prelude.{ℕ, ◌+◌, ◌≡◌, refl, inl, [], ◌∷◌, arith}
use asterisk_chan_quectel.Ring.{rb_write, rb_write_core, clip}
use asterisk_chan_quectel.Ring.Contents.{window, contents}
use asterisk_chan_quectel.MixBuffer.{
  Mixstream, Mixbuffer, mixb_free, saturated_sum, mixb_mix_write, write_stream, set_stream,
  write_at, mixb_write, mixb_read_upd,
}
use asterisk_chan_quectel.MixBuffer.Streams.{IsMixed}
use asterisk_chan_quectel.MixBuffer.Shared.{IsWritten, mixb_write-IsMixed, mixb_read_upd-IsMixed}

-- Addition that does not saturate.
abbrev plain_add : ℕ → ℕ → ℕ
plain_add a b = a + b

abbrev slow : Mixstream
slow = record { used = 2; write = 4 }

abbrev fast : Mixstream
fast = record { used = 4; write = 6 }

-- Two samples in the ring; one stream has written both, the other one.
abbrev mb : Mixbuffer
mb = record {
  streams = slow ∷ fast ∷ [];
  rb = record {
    buffer = 0 ∷ 0 ∷ 1 ∷ 0 ∷ 2 ∷ 0 ∷ 0 ∷ 0 ∷ [];
    size = 8;
    used = 4;
    read = 2;
    write = 6;
  };
  attached = 2;
}

mb-IsMixed : IsMixed mb
mb-IsMixed = record {
  ring = record {
    storage = omega arith;
    small = omega arith;
    read_in = omega arith;
    used_in = omega arith;
    write_in = omega arith;
    linked = inl (omega arith);
  };
  all = (
    record { within = omega arith; write_in = omega arith; linked = inl (omega arith) },
    (
      record { within = omega arith; write_in = omega arith; linked = inl (omega arith) },
      omega arith,
    ),
  );
  count = omega arith;
}

-- The slow stream adds to the second sample and then writes a third.
mixes :
    contents (mixb_write plain_add mb 0 (5 ∷ 0 ∷ 9 ∷ 0 ∷ []) 4).0.rb ≡ 1 ∷ 0 ∷ 7 ∷ 0 ∷ 9 ∷ 0 ∷ []
unfolding mixb_write write_at write_stream mixb_free mixb_mix_write saturated_sum set_stream
    rb_write rb_write_core clip window
mixes = refl

mixb_write-IsMixed_example :
    IsWritten mb 0 slow 4 (mixb_write plain_add mb 0 (5 ∷ 0 ∷ 9 ∷ 0 ∷ []) 4)
mixb_write-IsMixed_example =
    mixb_write-IsMixed plain_add 0 slow (5 ∷ 0 ∷ 9 ∷ 0 ∷ []) 4 mb-IsMixed refl

mixb_read_upd-IsMixed_example : IsMixed (mixb_read_upd mb 4).0
mixb_read_upd-IsMixed_example = mixb_read_upd-IsMixed 4 mb-IsMixed
