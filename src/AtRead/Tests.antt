-- ===== src/AtRead/Tests.antt =====
-- Runs of src/at_read.c on small rings, and the theorems about it at concrete rings.
use asterisk_chan_quectel.Prelude.{◌≡◌, refl, inr, some, [], ◌∷◌, ◌++◌, arith, All}
use asterisk_chan_quectel.Ring.{Ringbuffer, bytes_eq}
use asterisk_chan_quectel.Ring.Bounds.{IsValid}
use asterisk_chan_quectel.Ring.Contents.{contents, window}
use asterisk_chan_quectel.Ring.Search.{memmem, memmem_loop}
use asterisk_chan_quectel.Ring.Search.Memmem.{IsFirst, memmem-IsFirst}
use asterisk_chan_quectel.AtRead.{m_eol, Reader, at_read_result_iov, pushed, read_responses}
use asterisk_chan_quectel.AtRead.Loops.{Returns, at_read_result_iov-Returns}
use asterisk_chan_quectel.AtRead.Rounds.{IsRested, Ends, read_responses-Ends}
use asterisk_chan_quectel.AtRead.Lines.{
  special_starts, StartsElse, ReadsLine, at_read_result_iov-ReadsLine,
}

-- The bytes "\\r\\nOK\\r\\n" across the end of the storage.
abbrev ring : Ringbuffer
ring = record {
  buffer = b'K' ∷ 13 ∷ 10 ∷ 0 ∷ 0 ∷ 13 ∷ 10 ∷ b'O' ∷ [];
  size = 8;
  used = 6;
  read = 5;
  write = 3;
}

ring-IsValid : IsValid ring
ring-IsValid = record {
  storage = omega arith;
  small = omega arith;
  read_in = omega arith;
  used_in = omega arith;
  write_in = omega arith;
  linked = inr (omega arith);
}

abbrev reader : Reader
reader = record {
  rb = ring;
  read_result = 0;
  skip = 0;
  iov = record { base0 = 0; len0 = 0; base1 = 0; len1 = 0 };
}

reader-IsRested : IsRested reader
reader-IsRested = record { ring = ring-IsValid; storage = omega arith; no_skip = refl }

at_read_result_iov-Returns_example : Returns reader (at_read_result_iov reader)
at_read_result_iov-Returns_example = at_read_result_iov-Returns reader ring-IsValid

read_responses-Ends_example : Ends (read_responses (λ n. pushed) 7 [] reader)
read_responses-Ends_example =
    read_responses-Ends (λ n. pushed) 7 [] reader reader-IsRested (omega arith)

whole_ring : contents ring ≡ 13 ∷ 10 ∷ ((b'O' ∷ b'K' ∷ []) ++ (13 ∷ 10 ∷ []))
unfolding window
whole_ring = refl

eol_is_found : IsFirst m_eol (b'O' ∷ b'K' ∷ 13 ∷ 10 ∷ []) (some 2)
unfolding memmem memmem_loop bytes_eq
eol_is_found = memmem-IsFirst (b'O' ∷ b'K' ∷ 13 ∷ 10 ∷ []) m_eol (omega arith)

nothing_special : All (StartsElse (b'O' ∷ b'K' ∷ 13 ∷ 10 ∷ [])) special_starts
unfolding bytes_eq
nothing_special = (refl, (refl, (refl, (refl, (refl, (refl, (refl, (refl, (refl, tt)))))))))

at_read_result_iov-ReadsLine_example : ReadsLine reader (b'O' ∷ b'K' ∷ []) []
at_read_result_iov-ReadsLine_example =
    at_read_result_iov-ReadsLine reader (b'O' ∷ b'K' ∷ []) [] ring-IsValid refl refl whole_ring
      eol_is_found nothing_special
