-- ===== src/Pdu/Build.antt =====
-- `pdu_build` and `pdu_build_mult` of src/pdu.c. A list is the bytes that are put into the buffer, a
-- number is the list of its characters, and `msg` is the `msg_reallen` units that are taken. That the
-- buffer may end is seen only by `limited`.
pub mod Tests
use asterisk_chan_quectel.Prelude.{
  ℕ, zero, suc, ◌+◌, ◌-◌, ◌*◌, ◌/◌, ◌%◌, Bool, true, false, not, Option, none, some, List, [], ◌∷◌,
  ◌++◌, ltb, leb, ◌==◌, if◌then◌else◌, u8, sub_size, bit_or, length, drop, take,
}
use asterisk_chan_quectel.CharConv.{gsm7_encode}
use asterisk_chan_quectel.CharConv.Pack.{gsm7_pack}
use asterisk_chan_quectel.Pdu.{PduUdh, pdu_store_number, put_byte, pdu_relative_validity}
use asterisk_chan_quectel.Pdu.Parts.{part_of, parts_of, gsm7_split}

pub data BuildErr : Type 0 where
  e_build_sca e_build_phone_number e_2big : BuildErr

-- `tpdulen` and the bytes.
pub data Built : Type 0 where
  built : ℕ → List ℕ → Built
  build_failed : BuildErr → Built

abbrev pub plus_first : List ℕ → Bool
plus_first [] = false
plus_first (c ∷ cs) = c == b'+'

abbrev pub without_plus : List ℕ → List ℕ
without_plus number = if plus_first number then drop 1 number else number

unfoldable pub dst_toa_of : List ℕ → ℕ
dst_toa_of dst = if plus_first dst then 0x91 else (if ltb (length dst) 6 then 0xb9 else 0x81)

-- The bytes that units of 16 bits have in the memory of a little-endian host.
abbrev pub unit_bytes : List ℕ → List ℕ
unit_bytes [] = []
unit_bytes (u ∷ us) = u % 256 ∷ u / 256 ∷ unit_bytes us

-- The address of the service center, with its length.
unfoldable pub sca_bytes : List ℕ → Option (List ℕ)
unfolding put_byte
sca_bytes [] = some (0 ∷ [])
sca_bytes (c ∷ cs) = put_byte (u8 (1 + (length (c ∷ cs) + 1) / 2)) (pdu_store_number 0x91 (c ∷ cs))

unfoldable pub pdutype_of : Bool → Bool → ℕ
pdutype_of srr use_udh =
    let base = 1 + 16 in
    let headed = if use_udh then bit_or base 64 else base in
    if srr then bit_or headed 32 else headed

unfoldable pub use_udh_of : PduUdh → Bool
use_udh_of udh = ltb 1 udh.parts

-- TP-User-Data-Length
unfoldable pub udl_of : ℕ → ℕ → PduUdh → ℕ
unfolding use_udh_of
udl_of dcs msg_len udh = u8 (msg_len + (if use_udh_of udh then (if dcs == 8 then 6 else 7) else 0))

unfoldable pub header_bytes : PduUdh → List ℕ
unfolding use_udh_of
header_bytes udh = if use_udh_of udh then 5 ∷ 0 ∷ 3 ∷ udh.ref ∷ udh.parts ∷ udh.order ∷ [] else []

-- The bytes of the result of `gsm7_pack`: where it is -1, none.
abbrev pub packed_bytes : Option (ℕ × List ℕ) → List ℕ
packed_bytes none = []
packed_bytes (some (nibbles, bytes)) = take ((nibbles + 1) / 2) bytes

-- The text, for `space` bytes of the buffer.
unfoldable pub text_bytes : ℕ → ℕ → List ℕ → ℕ → PduUdh → List ℕ
unfolding use_udh_of
text_bytes space dcs msg msg_len udh =
    if dcs == 8
    then take msg_len (unit_bytes msg)
    else packed_bytes (gsm7_pack msg space (if use_udh_of udh then 1 else 0))

-- The limits, once all is written.
unfoldable pub limited : ℕ → List ℕ → Built
limited sca_len bytes =
    let tpdulen = length bytes - sca_len in
    if ltb 176 tpdulen
    then build_failed e_2big
    else (if ltb 256 (length bytes) then build_failed e_2big else built tpdulen bytes)

-- What follows the number of the destination, behind the bytes that are written already.
unfoldable pub with_destination :
    ℕ → ℕ → ℕ → List ℕ → ℕ → ℕ → PduUdh → List ℕ → Option (List ℕ) → Built
unfolding udl_of header_bytes text_bytes limited
with_destination size sca_len dcs msg msg_len valid_minutes udh front none =
    build_failed e_build_phone_number
with_destination size sca_len dcs msg msg_len valid_minutes udh front (some number) =
    let head =
      front
      ++ (number
          ++ (0
              ∷ dcs
              ∷ pdu_relative_validity valid_minutes
              ∷ udl_of dcs msg_len udh
              ∷ header_bytes udh)) in
    limited sca_len (head ++ text_bytes (sub_size size (length head + 1)) dcs msg msg_len udh)

unfoldable pub with_sca : ℕ → List ℕ → ℕ → List ℕ → ℕ → ℕ → Bool → PduUdh → Option (List ℕ) → Built
unfolding pdutype_of use_udh_of dst_toa_of with_destination
with_sca size dst dcs msg msg_len valid_minutes srr udh none = build_failed e_build_sca
with_sca size dst dcs msg msg_len valid_minutes srr udh (some sca) =
    let number = without_plus dst in
    with_destination size (length sca) dcs msg msg_len valid_minutes udh
      (sca ++ (pdutype_of srr (use_udh_of udh) ∷ 0 ∷ u8 (length number) ∷ []))
      (pdu_store_number (dst_toa_of dst) number)

unfoldable pub pdu_build : ℕ → List ℕ → List ℕ → ℕ → List ℕ → ℕ → ℕ → Bool → PduUdh → Built
unfolding sca_bytes with_sca
pdu_build size sca dst dcs msg msg_len valid_minutes srr udh =
    with_sca size dst dcs msg msg_len valid_minutes srr udh (sca_bytes (without_plus sca))

-- The messages of a text, or the error of the first that fails; `unending` where the fuel is used up.
pub data Messages : Type 0 where
  messages : List (ℕ × List ℕ) → Messages
  not_built : BuildErr → Messages
  unending : Messages

abbrev pub add_message : Built → Messages → Messages
add_message (build_failed e) rest = not_built e
add_message (built tpdulen bytes) (messages ms) = messages ((tpdulen, bytes) ∷ ms)
add_message (built tpdulen bytes) (not_built e) = not_built e
add_message (built tpdulen bytes) unending = unending

abbrev pub part_udh : ℕ → ℕ → ℕ → PduUdh
part_udh csmsref cnt i = record { ref = csmsref; parts = cnt; order = u8 (i + 1); ss = 0; ls = 0 }

-- The second loop over a text of the 7-bit alphabet, from message `i` on; `build` is `pdu_build` for
-- these units, septets and header.
unfoldable pub gsm7_messages : (List ℕ → ℕ → PduUdh → Built) → ℕ → ℕ → ℕ → ℕ → ℕ → List ℕ → Messages
unfolding part_of
gsm7_messages build fuel split csmsref cnt i [] = messages []
gsm7_messages build zero split csmsref cnt i (u ∷ us) = unending
gsm7_messages build (suc fuel) split csmsref cnt i (u ∷ us) =
    let part = part_of split (u ∷ us) 0 in
    add_message (build (take (part.0) (u ∷ us)) (part.1) (part_udh csmsref cnt i))
      (gsm7_messages build fuel split csmsref cnt (i + 1) (drop (part.0) (u ∷ us)))

-- The loop over a text of UCS-2.
unfoldable pub ucs2_messages : (List ℕ → ℕ → PduUdh → Built) → ℕ → ℕ → ℕ → ℕ → ℕ → List ℕ → Messages
ucs2_messages build fuel split csmsref cnt i [] = messages []
ucs2_messages build zero split csmsref cnt i (u ∷ us) = unending
ucs2_messages build (suc fuel) split csmsref cnt i (u ∷ us) =
    let units = take split (u ∷ us) in
    add_message (build units (length units * 2) (part_udh csmsref cnt i))
      (ucs2_messages build fuel split csmsref cnt (i + 1) (drop split (u ∷ us)))

-- The text in the 7-bit alphabet, with the parts that the first loop has counted.
unfoldable pub send_gsm7 :
    (List ℕ → ℕ → PduUdh → Built) → ℕ → ℕ → List ℕ → Option (List (ℕ × ℕ)) → Messages
unfolding gsm7_messages
send_gsm7 build split csmsref codes none = unending
send_gsm7 build split csmsref codes (some parts) =
    if ltb 255 (length parts)
    then not_built e_2big
    else gsm7_messages build (length codes) split csmsref (length parts) 0 codes

unfoldable pub send_ucs2 : (List ℕ → ℕ → PduUdh → Built) → ℕ → List ℕ → Messages
unfolding ucs2_messages
send_ucs2 build csmsref msg =
    let split = if ltb 70 (length msg) then 67 else 70 in
    let cnt = (length msg + split - 1) / split in
    if ltb 255 cnt
    then not_built e_2big
    else ucs2_messages build (length msg) split csmsref cnt 0 msg

-- The builder takes the coding scheme first. In `part_udh` the fields `ss` and `ls`, which the code
-- leaves as they are and does not read, are 0.
unfoldable pub send_encoded :
    (ℕ → List ℕ → ℕ → PduUdh → Built) → ℕ → List ℕ → Option (ℕ × List ℕ) → Messages
unfolding send_gsm7 send_ucs2
send_encoded build csmsref msg none = send_ucs2 (build 8) csmsref msg
send_encoded build csmsref msg (some (gsm7_len, codes)) =
    let split = gsm7_split gsm7_len in
    send_gsm7 (build 0) split csmsref codes (parts_of (length codes) split codes)

unfoldable pub pdu_build_mult : List ℕ → List ℕ → List ℕ → ℕ → Bool → ℕ → Messages
unfolding send_encoded pdu_build
pdu_build_mult sca dst msg valid_minutes srr csmsref =
    send_encoded
      (λ dcs units msg_len udh. pdu_build 256 sca dst dcs units msg_len valid_minutes srr udh)
      csmsref msg (gsm7_encode msg)
