-- ===== src/CharConv/Alphabet.antt =====
-- The tables of src/gsm7_luts.h together: the codes of `gsm7_encode` against the tables of
-- `gsm7_unpack_decode`.
use asterisk_chan_quectel.Prelude.{
  ℕ, ◌+◌, ◌-◌, ◌*◌, ◌/◌, ◌%◌, ◌<◌, ◌≡◌, ◌≢◌, refl, sym, Bool, true, List, arith, ltb, ◌==◌, ◌&&◌,
  if◌then◌else◌, bit_and, get_or, all_below, all_below_sound, high_byte, low8,
}
use asterisk_chan_quectel.CharConv.{get_char_gsm7_encoding, gsm7_invalid, rev_subtab, rev_row}
use asterisk_chan_quectel.CharConv.Pack.{ls_code, ss_code}

-- The unit that a code stands for in the default alphabet: codes from 128 on are those behind the
-- escape.
unfoldable pub decode_code : ℕ → ℕ
decode_code c = if ltb 127 c then ss_code 0 (c - 128) else ls_code 0 c

unfoldable fits : ℕ → ℕ → ℕ → ℕ → Bool
fits decoded major minor c =
    if c == gsm7_invalid then true else (ltb c 256 && decoded == major * 256 + minor)

-- A row of REV2 against the high byte of the units that it stands for.
unfoldable row_fits : ℕ → List ℕ → Bool
row_fits major row = all_below 256 (λ minor.
    fits (decode_code (get_or row minor gsm7_invalid)) major minor (get_or row minor gsm7_invalid))

unfoldable subtab_fits : ℕ → ℕ → Bool
subtab_fits major subtab =
    let checked = row_fits major (rev_row subtab) in if subtab == 255 then true else checked

unfoldable major_fits : ℕ → Bool
major_fits major = subtab_fits major (rev_subtab major)

table_fits : all_below 256 major_fits ≡ true
unfolding major_fits subtab_fits row_fits fits decode_code ls_code ss_code all_below rev_subtab
    rev_row
table_fits = refl

major_fits-unfold : (major : ℕ) → major_fits major ≡ subtab_fits major (rev_subtab major)
unfolding major_fits
major_fits-unfold major = refl

major_fits-holds : (major : ℕ) → major < 256 → subtab_fits major (rev_subtab major) ≡ true
major_fits-holds major h =
    rw (sym (major_fits-unfold major)) (all_below_sound 256 major_fits major table_fits h)

row_fits_sound :
    (major minor : ℕ) (row : List ℕ)
    → row_fits major row ≡ true
    → minor < 256
    → fits (decode_code (get_or row minor gsm7_invalid)) major minor (get_or row minor gsm7_invalid)
      ≡ true
unfolding row_fits
row_fits_sound major minor row h lt =
    all_below_sound 256
      (λ minor.
        fits (decode_code (get_or row minor gsm7_invalid)) major minor
          (get_or row minor gsm7_invalid))
      minor h lt

subtab_fits_sound :
    (major minor subtab : ℕ)
    → subtab_fits major subtab ≡ true
    → minor < 256
    → subtab ≢ 255
    → fits
        (decode_code (get_or (rev_row subtab) minor gsm7_invalid))
        major
        minor
        (get_or (rev_row subtab) minor gsm7_invalid)
      ≡ true
unfolding subtab_fits
subtab_fits_sound major minor subtab h lt sub =
    row_fits_sound major minor (rev_row subtab) (ground arith) lt

fits_sound :
    (decoded major minor c : ℕ)
    → fits decoded major minor c ≡ true
    → c ≢ gsm7_invalid
    → (decoded ≡ major * 256 + minor) × (c < 256)
unfolding fits
fits_sound decoded major minor c h valid = ground arith

encoded_in :
    (major minor subtab c : ℕ)
    → c ≡ (if subtab == 255 then gsm7_invalid else get_or (rev_row subtab) minor gsm7_invalid)
    → subtab_fits major subtab ≡ true
    → minor < 256
    → c ≢ gsm7_invalid
    → (decode_code c ≡ major * 256 + minor) × (c < 256)
encoded_in major minor subtab c is h lt valid =
    let sub : subtab ≢ 255 = ground arith in
    let row : c ≡ get_or (rev_row subtab) minor gsm7_invalid = ground arith in
    let good : fits (decode_code c) major minor c ≡ true =
      rw row (subtab_fits_sound major minor subtab h lt sub) in
    fits_sound (decode_code c) major minor c good valid

-- For every 16-bit unit that has a code, the code stands for that unit, its two bytes swapped into
-- host order; and it is a byte.
pub decode_code-get_char_gsm7_encoding :
    (u : ℕ)
    → u < 65536
    → get_char_gsm7_encoding u ≢ gsm7_invalid
    → (decode_code (get_char_gsm7_encoding u) ≡ u % 256 * 256 + u / 256)
      × (get_char_gsm7_encoding u < 256)
unfolding get_char_gsm7_encoding
decode_code-get_char_gsm7_encoding u h valid =
    let minor : bit_and u 0xff00 / 256 ≡ u / 256 = high_byte u h in
    let major : bit_and u 0x00ff ≡ u % 256 = low8 u in
    let row : subtab_fits (bit_and u 0x00ff) (rev_subtab (bit_and u 0x00ff)) ≡ true =
      major_fits-holds (bit_and u 0x00ff) (omega arith) in
    let (found, byte) =
      encoded_in (bit_and u 0x00ff) (bit_and u 0xff00 / 256) (rev_subtab (bit_and u 0x00ff))
        (get_char_gsm7_encoding u) refl row (omega arith) valid in
    (omega (arith, found, minor, major), byte)
