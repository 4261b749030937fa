-- ===== src/CharConv/Tests.antt =====
-- Runs of src/char_conv.c on short texts, and the theorems about it at concrete texts.
use asterisk_chan_quectel.Prelude.{
  ℕ, List, length, ◌≡◌, ◌<◌, false, refl, none, some, [], ◌∷◌, arith,
}
use asterisk_chan_quectel.CharConv.{
  hexchar2val, val2hexchar, join_digits, cons_byte, unhex, hexify, rev_subtab, rev_row,
  get_char_gsm7_encoding,
}
use asterisk_chan_quectel.CharConv.{gsm7_encode, cons_code}
use asterisk_chan_quectel.CharConv.Pack.{
  unit_septets, septets_of, pack_loop, gsm7_pack, gsm7_unpack_decode, decode_septets,
}
use asterisk_chan_quectel.CharConv.RoundTrip.{gsm7_unpack_decode-gsm7_pack}
use asterisk_chan_quectel.CharConv.Text.{gsm7_encode_round_trip}
use asterisk_chan_quectel.CharConv.Space.{gsm7_pack_overruns}
use asterisk_chan_quectel.CharConv.Hex.{unhex-hexify}

hexify_two : hexify (0x1f ∷ 0xa0 ∷ []) ≡ b'1' ∷ b'F' ∷ b'A' ∷ b'0' ∷ []
unfolding hexify val2hexchar
hexify_two = refl

unhex_refuses : unhex (b'1' ∷ b'G' ∷ []) ≡ none
unfolding unhex hexchar2val join_digits cons_byte
unhex_refuses = refl

unhex-hexify_example : unhex (hexify (0x1f ∷ 0xa0 ∷ [])) ≡ some (4, 0x1f ∷ 0xa0 ∷ [])
unhex-hexify_example = unhex-hexify (0x1f ∷ 0xa0 ∷ []) (omega arith)

-- The euro sign, U+20AC, read by a little-endian host; it is code 0x65 behind the escape.
euro_code : get_char_gsm7_encoding 0xac20 ≡ 0xe5
unfolding get_char_gsm7_encoding rev_subtab rev_row
euro_code = refl

-- `A` and the euro sign: their codes, and the bytes of the three septets.
abbrev text : List ℕ
text = 0x4100 ∷ 0xac20 ∷ []

abbrev codes : List ℕ
codes = 65 ∷ 0x1b65 ∷ []

text_encoded : gsm7_encode text ≡ some (3, codes)
unfolding gsm7_encode get_char_gsm7_encoding rev_subtab rev_row cons_code
text_encoded = refl

text_packed : gsm7_pack codes 9 0 ≡ some (6, 0xc1 ∷ 0x4d ∷ 0x19 ∷ [])
unfolding gsm7_pack septets_of unit_septets pack_loop
text_packed = refl

gsm7_unpack_decode-gsm7_pack_example :
    gsm7_unpack_decode (0xc1 ∷ 0x4d ∷ 0x19 ∷ []) 6 4 0 0 1
    ≡ some (decode_septets 0 1 false (septets_of codes)).0
unfolding septets_of unit_septets
gsm7_unpack_decode-gsm7_pack_example =
    gsm7_unpack_decode-gsm7_pack codes (0xc1 ∷ 0x4d ∷ 0x19 ∷ []) 9 4 0 6 0 1 (omega arith)
      (omega arith) (omega arith) (omega arith) text_packed (omega arith)

gsm7_encode_round_trip_example :
    (gsm7_unpack_decode (0xc1 ∷ 0x4d ∷ 0x19 ∷ []) 6 4 0 0 0 ≡ some text)
    × (3 ≡ length (septets_of codes))
gsm7_encode_round_trip_example =
    gsm7_encode_round_trip text codes (0xc1 ∷ 0x4d ∷ 0x19 ∷ []) 3 9 4 0 6 (omega arith)
      (omega arith) (omega arith) text_encoded text_packed (omega arith)

gsm7_pack_overruns_example :
    (k : ℕ) × (bytes : List ℕ) × (gsm7_pack (0x1b65 ∷ 0x1b65 ∷ 0x1b65 ∷ []) 4 0 ≡ some (k, bytes))
    × (4 < length bytes)
gsm7_pack_overruns_example =
    gsm7_pack_overruns (0x1b65 ∷ 0x1b65 ∷ 0x1b65 ∷ []) 0 (omega arith) (omega arith) (omega arith)
