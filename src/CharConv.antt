-- ===== src/CharConv.antt =====
-- src/char_conv.c: hexadecimal text, the GSM 7-bit alphabet and its packing. Strings are lists of
-- their bytes, with the end of the list for the terminating NUL. A `uint16_t` of UTF-16 text is the
-- number that a little-endian host reads from the two big-endian bytes.
pub mod LutLs
pub mod LutSs
pub mod LutRev
pub mod Alphabet
pub mod Hex
pub mod Pack
pub mod Septets
pub mod Unpack
pub mod RoundTrip
pub mod Text
pub mod Space
pub mod Tests
use asterisk_chan_quectel.Prelude.{
  ℕ, zero, suc, ◌+◌, ◌-◌, ◌*◌, ◌/◌, ◌%◌, ◌^◌, Bool, true, false, ◌&&◌, ◌||◌, Option, none, some,
  List, [], ◌∷◌, ◌++◌, ltb, leb, ◌==◌, if◌then◌else◌, u32, bit_and, bit_or, length, get_or,
}
use LutLs.{lut_gsm7_ls16}
use LutSs.{lut_gsm7_ss16}
use LutRev.{lut_gsm7_rev1, lut_gsm7_rev2}

-- `lut_hex2val`, with -1 as `none`.
unfoldable pub hexchar2val : ℕ → Option ℕ
hexchar2val h =
    if leb b'0' h && leb h b'9'
    then some (h - b'0')
    else (if leb b'A' h && leb h b'F'
        then some (h - b'A' + 10)
        else (if leb b'a' h && leb h b'f' then some (h - b'a' + 10) else none))

-- `lut_val2hex`
unfoldable pub val2hexchar : ℕ → ℕ
val2hexchar v = if ltb v 10 then b'0' + v else b'A' + (v - 10)

-- The byte of two digits, if both are digits.
unfoldable pub join_digits : Option ℕ → Option ℕ → Option ℕ
join_digits none p1 = none
join_digits (some p0) none = none
join_digits (some p0) (some p1) = some (bit_or (p0 * 16) p1)

-- One more byte in front of what the rest of the text gave.
unfoldable pub cons_byte : Option ℕ → ℕ → Option (ℕ × List ℕ) → Option (ℕ × List ℕ)
cons_byte none n rest = none
cons_byte (some b) n none = none
cons_byte (some b) n (some (nibbles, out)) = some (n + nibbles, b ∷ out)

-- The number of digits and the bytes, or `none` for -1.
unfoldable pub unhex : List ℕ → Option (ℕ × List ℕ)
unfolding hexchar2val join_digits cons_byte
unhex [] = some (0, [])
unhex (c0 ∷ []) = cons_byte (join_digits (hexchar2val c0) (some 0)) 1 (some (0, []))
unhex (c0 ∷ c1 ∷ rest) = cons_byte (join_digits (hexchar2val c0) (hexchar2val c1)) 2 (unhex rest)

unfoldable pub hexify : List ℕ → List ℕ
unfolding val2hexchar
hexify [] = []
hexify (b ∷ bs) = val2hexchar (b / 16) ∷ val2hexchar (bit_and b 15) ∷ hexify bs

abbrev pub gsm7_invalid : ℕ
gsm7_invalid = 254

-- `LUT_GSM7_REV1[major]`
unfoldable pub rev_subtab : ℕ → ℕ
unfolding lut_gsm7_rev1
rev_subtab major = get_or lut_gsm7_rev1 major 255

-- `LUT_GSM7_REV2[subtab]`
unfoldable pub rev_row : ℕ → List ℕ
unfolding lut_gsm7_rev2
rev_row subtab = get_or lut_gsm7_rev2 subtab []

-- `get_char_gsm7_encoding(c)[0]`
unfoldable pub get_char_gsm7_encoding : ℕ → ℕ
get_char_gsm7_encoding c =
    let minor = bit_and c 0xff00 / 256 in
    let major = bit_and c 0x00ff in
    let subtab = rev_subtab major in
    if subtab == 255 then gsm7_invalid else get_or (rev_row subtab) minor gsm7_invalid

-- One more code in front of what the rest gave; the number counts septets.
unfoldable pub cons_code : ℕ → ℕ → Option (ℕ × List ℕ) → Option (ℕ × List ℕ)
cons_code n code none = none
cons_code n code (some (count, out)) = some (n + count, code ∷ out)

unfoldable pub gsm7_encode : List ℕ → Option (ℕ × List ℕ)
unfolding get_char_gsm7_encoding cons_code
gsm7_encode [] = some (0, [])
gsm7_encode (u ∷ us) =
    let rest = gsm7_encode us in
    let c = get_char_gsm7_encoding u in
    if c == gsm7_invalid
    then none
    else (if ltb 127 c
        then cons_code 2 (bit_or (get_char_gsm7_encoding 0x1b00 * 256) (c - 128)) rest
        else cons_code 1 c rest)
