-- ===== src/Pdu.antt =====
-- src/pdu.c: the numbers and the validity period of short messages. A string is the list of its bytes,
-- a negative result is `none`, and the bytes that a function is handed are a list as long as
-- `pdu_length` says.
pub mod Validity
pub mod Numbers
pub mod Parts
pub mod Deliver
pub mod Headers
pub mod Stamps
pub mod Messages
pub mod Build
pub mod UserData
pub mod Frames
pub mod Ends
pub mod Overruns
pub mod Report
pub mod Center
pub mod Tests
use asterisk_chan_quectel.Prelude.{
  ℕ, zero, suc, ◌+◌, ◌-◌, ◌*◌, ◌/◌, ◌%◌, ◌^◌, Bool, true, false, ◌&&◌, ◌||◌, Option, none, some,
  List, [], ◌∷◌, ◌++◌, ltb, leb, ◌==◌, if◌then◌else◌, sub_u8, sub_size, bit_and, bit_or, length,
  drop, get_or,
}
use asterisk_chan_quectel.CharConv.Pack.{gsm7_unpack_decode}

pub record PduUdh : Type 0 where
  pub ref : ℕ
  pub parts : ℕ
  pub order : ℕ
  pub ls : ℕ
  pub ss : ℕ

unfoldable pub pdu_udh_init : PduUdh
pdu_udh_init = record { ref = 0; parts = 1; order = 0; ss = 0; ls = 0 }

-- 255 where the character is none of a number's.
unfoldable pub pdu_digit2code : ℕ → ℕ
pdu_digit2code digit =
    if leb b'0' digit && leb digit b'9'
    then digit - b'0'
    else (if digit == b'*'
        then 0xa
        else (if digit == b'#'
            then 0xb
            else (if digit == b'a' || digit == b'A'
                then 0xc
                else (if digit == b'b' || digit == b'B'
                    then 0xd
                    else (if digit == b'c' || digit == b'C' then 0xe else 255)))))

unfoldable pub pdu_code2digit : ℕ → ℕ
pdu_code2digit code =
    if ltb code 10
    then code + b'0'
    else (if code == 0xa
        then b'*'
        else (if code == 0xb
            then b'#'
            else (if code == 0xc
                then b'A'
                else (if code == 0xd then b'B' else (if code == 0xe then b'C' else 0)))))

abbrev pub div_up : ℕ → ℕ → ℕ
div_up minutes divisor = (minutes + divisor - 1) / divisor

-- The byte that `pdu_build` stores: -1, which 0 minutes give, is 255.
unfoldable pub pdu_relative_validity : ℕ → ℕ
pdu_relative_validity minutes =
    if leb minutes 720
    then sub_u8 (div_up minutes 5) 1
    else (if leb minutes 1440
        then div_up minutes 30 + 119
        else (if leb minutes 43200
            then div_up minutes 1440 + 166
            else (if leb minutes 635040 then div_up minutes 10080 + 192 else 0xff)))

-- One more byte in front of what the rest of the number gave.
unfoldable pub put_byte : ℕ → Option (List ℕ) → Option (List ℕ)
put_byte b none = none
put_byte b (some out) = some (b ∷ out)

-- The loop over pairs of digits, and the digit that is left.
unfoldable pub store_digits : List ℕ → Option (List ℕ)
unfolding put_byte
store_digits [] = some []
store_digits (x ∷ []) =
    let a = pdu_digit2code x in if a == 255 then none else some (bit_or a 0xf0 ∷ [])
store_digits (x ∷ y ∷ number) =
    let a = pdu_digit2code x in
    let b = pdu_digit2code y in
    let rest = store_digits number in
    if a == 255 || b == 255 then none else put_byte (bit_or a (b * 16)) rest

unfoldable pub pdu_store_number : ℕ → List ℕ → Option (List ℕ)
unfolding store_digits
pdu_store_number toa number = put_byte toa (store_digits number)

-- The loop over the bytes of a number: `syms / 2` rounds.
unfoldable pub parse_digits : ℕ → List ℕ → List ℕ
parse_digits zero pdu = []
parse_digits (suc rounds) [] = []
parse_digits (suc rounds) (c ∷ pdu) =
    let o = c / 16 in
    let rest = parse_digits rounds pdu in
    pdu_code2digit (bit_and c 0xf) ∷ (if o == 0xf then rest else pdu_code2digit o ∷ rest)

abbrev pub ton_of : ℕ → ℕ
ton_of toa = bit_and toa 0x70

-- The text of an alphanumeric address; `utf8` is `ucs2_to_utf8`, where it succeeds.
unfoldable pub alphanumeric : (List ℕ → ℕ → List ℕ) → Option (List ℕ) → ℕ → ℕ → Option (ℕ × List ℕ)
alphanumeric utf8 none num_len i = none
alphanumeric utf8 (some units) num_len i = some (i, utf8 units num_len)

-- The number of bytes that were read, and the number.
unfoldable pub pdu_parse_number : (List ℕ → ℕ → List ℕ) → List ℕ → ℕ → ℕ → Option (ℕ × List ℕ)
unfolding parse_digits alphanumeric
pdu_parse_number utf8 pdu digits num_len =
    let toa = get_or pdu 0 0 in
    let syms = bit_and (digits + 1) 0xfffffffe in
    if ltb num_len ((digits + 2) % 2 ^ 32)
    then none
    else (if ltb (sub_size (length pdu) 1) syms
        then none
        else (if ton_of toa == 0x50
            then alphanumeric utf8 (gsm7_unpack_decode (drop 1 pdu) syms num_len 0 0 0) num_len
                (1 + syms / 2)
            else (let number = parse_digits (syms / 2) (drop 1 pdu) in
                some (1 + syms / 2, if ton_of toa == 0x10 then b'+' ∷ number else number))))
