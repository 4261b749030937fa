-- ===== src/Pdu/Deliver.antt =====
-- `tpdu_parse_deliver` of src/pdu.c with the time stamp, the coding scheme and the user data header.
-- `pdu + i` is the list of the bytes from there on. Where the code reads or copies past the end of the
-- message, the model stops with `past_end`.
use asterisk_chan_quectel.Prelude.{
  ℕ, zero, suc, ◌+◌, ◌-◌, ◌*◌, ◌/◌, ◌%◌, Bool, not, ◌||◌, ◌&&◌, Option, none, some, List, [], ◌∷◌,
  ltb, leb, ◌==◌, if◌then◌else◌, u8, sub_size, bit_and, bit_or, length, drop, get_or,
}
use asterisk_chan_quectel.CharConv.Pack.{gsm7_unpack_decode}
use asterisk_chan_quectel.Pdu.{PduUdh, pdu_parse_number}

-- `struct ast_tm`, with `tm_mon` one more than in C, and the sign of `tm_gmtoff` by itself.
pub record Tm : Type 0 where
  pub year : ℕ
  pub mon : ℕ
  pub mday : ℕ
  pub hour : ℕ
  pub min : ℕ
  pub sec : ℕ
  pub behind : Bool
  pub gmtoff : ℕ

-- Two digits in swapped order.
abbrev pub swapped : ℕ → ℕ
swapped b = 10 * bit_and b 15 + b / 16

-- The stamp before `ast_tm_normalize`, for the seven bytes that are there.
unfoldable pub pdu_parse_timestamp : List ℕ → Tm
pdu_parse_timestamp pdu = record {
  year = swapped (get_or pdu 0 0) + 100;
  mon = swapped (get_or pdu 1 0);
  mday = swapped (get_or pdu 2 0);
  hour = swapped (get_or pdu 3 0);
  min = swapped (get_or pdu 4 0);
  sec = swapped (get_or pdu 5 0);
  behind = not (bit_and (get_or pdu 6 0) 8 == 0);
  gmtoff = 15 * 60 * (10 * bit_and (get_or pdu 6 0) 7 + get_or pdu 6 0 / 16);
}

-- PDU_DCS_ALPHABET of a coding scheme that is accepted: 0 for 7 bits, 4 for 8 bits, 8 for UCS-2.
unfoldable pub alphabet_of : ℕ → Option ℕ
alphabet_of dcs =
    let hi = dcs / 16 in
    let alphabet = bit_and dcs 12 in
    if hi == 0 || hi == 1 || hi == 4 || hi == 5 || hi == 15
    then (if alphabet == 12 then none else some alphabet)
    else none  -- 2, 3, 6, 7; 12 and 13, where `alphabet` stays -1; the rest is reserved

abbrev pub nibbles_for : ℕ → ℕ
nibbles_for udl = (udl * 7 + 3) / 4

unfoldable pub udl_bytes : ℕ → ℕ → ℕ
udl_bytes alphabet udl = if alphabet == 0 then (nibbles_for udl + 1) / 2 else udl

-- Where the header's loop stands: the bytes from there on, the length left, and what was found.
pub record HeaderState : Type 0 where
  pub rest : List ℕ
  pub udhl : ℕ
  pub udh : PduUdh

pub data HeaderResult : Type 0 where
  header : HeaderState → HeaderResult
  refused past_end no_fuel : HeaderResult

-- The next `n` bytes are read, of those that are there.
abbrev pub reads : ℕ → List ℕ → HeaderResult → HeaderResult
reads zero bytes next = next
reads (suc n) [] next = past_end
reads (suc n) (b ∷ bytes) next = reads n bytes next

-- The `switch` over the kind of an element, with the bytes behind its length, and `go` for the next
-- round.
unfoldable pub header_element : (HeaderState → HeaderResult) → ℕ → ℕ → HeaderState → HeaderResult
header_element go iei_type iei_len s =
    let b = λ (n : ℕ). get_or s.rest n 0 in
    if iei_type == 0
    then (if not (iei_len == 3)
        then refused
        else reads 3 s.rest (
            go (record {
              rest = drop 3 s.rest;
              udhl = s.udhl - 3;
              udh = record s.udh { ref = b 0; parts = b 1; order = b 2 };
            })))
    else (if iei_type == 8
        then (if not (iei_len == 4)
            then refused
            else reads 4 s.rest (
                go (record {
                  rest = drop 4 s.rest;
                  udhl = s.udhl - 4;
                  udh = record s.udh {
                    ref = u8 (bit_or (u8 (b 0 * 256)) (b 1));
                    parts = b 2;
                    order = b 3;
                  };
                })))
        else (if iei_type == 0x24
            then (if not (iei_len == 1)
                then refused
                else reads 1 s.rest
                    (go (record s { rest = drop 1 s.rest; udh = record s.udh { ss = b 0 } })))
            else (if iei_type == 0x25
                then (if not (iei_len == 1)
                    then refused
                    else reads 1 s.rest
                        (go (record s { rest = drop 1 s.rest; udh = record s.udh { ls = b 0 } })))
                else reads iei_len s.rest
                    (go (record s { rest = drop iei_len s.rest; udhl = s.udhl - iei_len })))))

-- `while (udhl >= 2)`, with fuel.
unfoldable pub header_loop : ℕ → HeaderState → HeaderResult
unfolding header_element
header_loop zero s = no_fuel
header_loop (suc fuel) s =
    let iei_len = get_or s.rest 1 0 in
    let s' : HeaderState = record s { rest = drop 2 s.rest; udhl = s.udhl - 2 } in
    let next = header_element (header_loop fuel) (get_or s.rest 0 0) iei_len s' in
    if leb 2 s.udhl
    then reads 2 s.rest (if leb iei_len s'.udhl then next else refused)
    else header s

-- What `tpdu_parse_deliver` gives.
pub record Delivered : Type 0 where
  pub oa : List ℕ
  pub scts : Tm
  pub msg : List ℕ
  pub udh : PduUdh

pub data PduErr : Type 0 where
  e_unknown e_invalid_phone_number e_invalid_charset e_decode_gsm7 : PduErr

pub data Parsed : Type 0 where
  parsed : Delivered → Parsed
  failed : PduErr → Parsed
  beyond : Parsed  -- a read or a copy past the end of the message

-- The 16-bit units of a little-endian host in the bytes that are copied.
unfoldable pub units_of : List ℕ → List ℕ
units_of [] = []
units_of (a ∷ []) = []
units_of (a ∷ b ∷ bytes) = (a + b * 256) ∷ units_of bytes

-- The text, and the other parts with it.
abbrev pub with_text : List ℕ → Tm → PduUdh → Option (List ℕ) → Parsed
with_text oa scts udh none = failed e_decode_gsm7
with_text oa scts udh (some msg) = parsed (record { oa = oa; scts = scts; msg = msg; udh = udh })

-- Fewer than two nibbles are not read.
abbrev pub reads_beyond : ℕ → ℕ → Bool
reads_beyond nibbles bytes = ltb 1 nibbles && ltb (2 * bytes) nibbles

-- The user data behind the header; `nibbles` is the `size_t` that is handed on.
unfoldable pub parse_text : List ℕ → Tm → ℕ → List ℕ → ℕ → ℕ → PduUdh → Parsed
unfolding units_of
parse_text oa scts alphabet pdu nibbles padding udh =
    if alphabet == 0
    then (if reads_beyond nibbles (length pdu)
        then beyond
        else with_text oa scts udh (gsm7_unpack_decode pdu nibbles 1024 padding udh.ls udh.ss))
    else with_text oa scts udh (some (units_of pdu))

-- `i += udhl` behind the loop, and the text.
abbrev pub after_header : List ℕ → Tm → ℕ → ℕ → ℕ → HeaderResult → Parsed
after_header oa scts alphabet nibbles padding refused = failed e_unknown
after_header oa scts alphabet nibbles padding no_fuel = failed e_unknown
after_header oa scts alphabet nibbles padding past_end = beyond
after_header oa scts alphabet nibbles padding (header s) =
    if leb s.udhl (length s.rest) || alphabet == 0 && ltb nibbles 2
    then parse_text oa scts alphabet (drop s.udhl s.rest) nibbles padding s.udh
    else beyond  -- `msg_len` is negative, or there are nibbles to read

-- The nibbles that a header of `udhl` bytes leaves; a negative `int` becomes a `size_t`.
abbrev pub nibbles_left : ℕ → ℕ → ℕ
nibbles_left udl udhl = sub_size (nibbles_for udl) ((udhl + 1) * 2)

unfoldable pub parse_user_data : List ℕ → Tm → ℕ → ℕ → Bool → List ℕ → PduUdh → Parsed
unfolding udl_bytes header_loop parse_text
parse_user_data oa scts alphabet udl has_header pdu udh =
    if not (udl_bytes alphabet udl == length pdu)
    then failed e_unknown
    else (if not has_header
        then parse_text oa scts alphabet pdu (nibbles_for udl) 0 udh
        else (if length pdu == 0
            then failed e_unknown
            else (let udhl = get_or pdu 0 0 in
                if ltb (length pdu - 1) udhl
                then failed e_unknown
                else after_header oa scts alphabet (nibbles_left udl udhl) (6 - udhl % 7) (
                    header_loop (udhl + 1)
                      (record { rest = drop 1 pdu; udhl = udhl; udh = udh })))))

abbrev pub with_alphabet : List ℕ → Tm → ℕ → Bool → List ℕ → PduUdh → Option ℕ → Parsed
with_alphabet oa scts udl has_header pdu udh none = failed e_unknown
with_alphabet oa scts udl has_header pdu udh (some alphabet) =
    if alphabet == 4
    then failed e_invalid_charset
    else parse_user_data oa scts alphabet udl has_header pdu udh

-- What follows the address.
unfoldable pub parse_after_number : (Tm → Tm) → ℕ → List ℕ → PduUdh → Option (ℕ × List ℕ) → Parsed
unfolding alphabet_of pdu_parse_timestamp parse_user_data
parse_after_number normalize tpdu_type pdu udh none = failed e_invalid_phone_number
parse_after_number normalize tpdu_type pdu udh (some (field_len, oa)) =
    let p = drop field_len pdu in
    if ltb (length p) 10
    then failed e_unknown
    else with_alphabet oa (normalize (pdu_parse_timestamp (drop 2 p))) (get_or p 9 0)
        (bit_and tpdu_type 64 == 64) (drop 10 p) udh (alphabet_of (get_or p 1 0))

-- `utf8` is `ucs2_to_utf8` where it succeeds, and `normalize` is `ast_tm_normalize`.
unfoldable pub tpdu_parse_deliver :
    (List ℕ → ℕ → List ℕ) → (Tm → Tm) → List ℕ → ℕ → ℕ → PduUdh → Parsed
unfolding parse_after_number
tpdu_parse_deliver utf8 normalize pdu tpdu_type oa_len udh =
    if length pdu == 0
    then failed e_unknown
    else parse_after_number normalize tpdu_type (drop 1 pdu) udh
        (pdu_parse_number utf8 (drop 1 pdu) (get_or pdu 0 0) oa_len)
