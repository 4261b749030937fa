-- ===== src/Pdu/UserData.antt =====
-- The user data that `pdu_build` of src/pdu.c writes, and what `tpdu_parse_deliver` makes of it.
use asterisk_chan_quectel.Prelude.{
  ℕ, ◌+◌, ◌-◌, ◌*◌, ◌/◌, ◌%◌, ◌≤◌, ◌<◌, ◌≡◌, refl, sym, ap, ◌∙◌, true, false, ◌&&◌, ◌||◌, some,
  List, [], ◌∷◌, ◌++◌, arith, ltb, leb, ◌==◌, if◌then◌else◌, length, take, u8, Bool-cases, inl, inr,
}
use asterisk_chan_quectel.CharConv.Pack.{gsm7_pack, septets_of, pack_loop, decode_septets}
use asterisk_chan_quectel.CharConv.RoundTrip.{gsm7_unpack_decode_packed}
use asterisk_chan_quectel.CharConv.Space.{length-gsm7_pack}
use asterisk_chan_quectel.Pdu.{PduUdh}
use asterisk_chan_quectel.Pdu.Deliver.{
  Tm, parsed, nibbles_for, nibbles_left, reads_beyond, udl_bytes, parse_text, parse_user_data,
}
use asterisk_chan_quectel.Pdu.Messages.{units_of-unit_bytes}
use asterisk_chan_quectel.Pdu.Build.{
  unit_bytes, use_udh_of, udl_of, header_bytes, text_bytes, packed_bytes,
}

-- What `pdu_build` writes behind the length of the user data.
abbrev pub user_data : ℕ → ℕ → List ℕ → ℕ → PduUdh → List ℕ
user_data space dcs msg msg_len udh = header_bytes udh ++ text_bytes space dcs msg msg_len udh

-- The header of a part as its reader has it.
abbrev pub as_part : PduUdh → PduUdh → PduUdh
as_part sent udh =
    if use_udh_of sent
    then record udh { ref = sent.ref; parts = sent.parts; order = sent.order }
    else udh

take_all : (xs : List ℕ) → take (length xs) xs ≡ xs
take_all [] = refl
take_all (x ∷ xs) = ap (λ t. x ∷ t) (take_all xs)

length-unit_bytes : (us : List ℕ) → length (unit_bytes us) ≡ length us * 2
length-unit_bytes [] = refl
length-unit_bytes (u ∷ us) = omega (arith, length-unit_bytes us)

take_whole : (us : List ℕ) → take (length us * 2) (unit_bytes us) ≡ unit_bytes us
take_whole us =
    ap (λ k. take k (unit_bytes us)) (sym (length-unit_bytes us)) ∙ take_all (unit_bytes us)

-- The user data of a part in UCS-2, of at most 124 units, is read back: its units, and the reference,
-- the number of parts and the place of the part where there is more than one.
pub parse_user_data-user_data_ucs2 :
    (space : ℕ) (msg oa : List ℕ) (scts : Tm) (sent udh : PduUdh)
    → length msg ≤ 124
    → parse_user_data oa scts 8
        (udl_of 8 (length msg * 2) sent)
        (use_udh_of sent)
        (user_data space 8 msg (length msg * 2) sent)
        udh
      ≡ parsed (record { oa = oa; scts = scts; msg = msg; udh = as_part sent udh })
unfolding parse_user_data parse_text udl_of header_bytes text_bytes udl_bytes
parse_user_data-user_data_ucs2 space msg oa scts sent udh few =
    let n = length msg * 2 in
    let bytes = length-unit_bytes msg in
    elim (Bool-cases (use_udh_of sent)) [
      | inl part ↦
          let m = length (5 ∷ 0 ∷ 3 ∷ sent.ref ∷ sent.parts ∷ sent.order ∷ unit_bytes msg) in
          let same : (u8 (n + 6) == m) ≡ true = ground (arith, bytes) in
          let enough : ltb (m - 1) 5 ≡ false = ground arith in
          let some_bytes : (m == 0) ≡ false = ground arith in
          let there : leb 0 (length (unit_bytes msg)) ≡ true = ground arith in
          rw (part, take_whole msg, same, some_bytes, enough, there, units_of-unit_bytes msg) refl
      | inr whole ↦
          let same : (u8 (n + 0) == length (unit_bytes msg)) ≡ true = ground (arith, bytes) in
          rw (whole, take_whole msg, same, units_of-unit_bytes msg) refl
    ]

-- What `gsm7_pack` gives where there is space, with its sizes.
record IsPacked (us : List ℕ) (space pad : ℕ) : Type 0 where
  k : ℕ
  bytes : List ℕ
  done : gsm7_pack us space pad ≡ some (k, bytes)
  nibbles : (k + 1) / 2 ≡ length bytes
  size : length bytes ≡ (pad + 7 * length (septets_of us) + 7) / 8

gsm7_pack_fits :
    (us : List ℕ) (space pad : ℕ)
    → (pad + 7 * length us + 7) / 8 + 1 ≤ space
    → (k : ℕ) × (bytes : List ℕ) × (gsm7_pack us space pad ≡ some (k, bytes))
unfolding gsm7_pack
gsm7_pack_fits us space pad h =
    let fits : ltb space ((pad + 7 * length us + 7) / 8 + 1) ≡ false = ground arith in
    let r = pack_loop (septets_of us) 0 pad in
    (length (r.0) * 2 - (if r.1 == 1 || r.1 == 2 || r.1 == 3 then 1 else 0), r.0, rw fits refl)

nibbles_bytes :
    (bits l k : ℕ)
    → l ≡ (bits + 7) / 8
    → k ≡ 2 * l - (if ltb 0 (bits % 8) && ltb (bits % 8) 4 then 1 else 0)
    → (k + 1) / 2 ≡ l
nibbles_bytes bits l k size count = ground arith

gsm7_pack-IsPacked :
    (us : List ℕ) (space pad : ℕ)
    → pad < 2
    → (pad + 7 * length us + 7) / 8 + 1 ≤ space
    → IsPacked us space pad
gsm7_pack-IsPacked us space pad small h =
    let (k, bytes, done) = gsm7_pack_fits us space pad h in
    let (size, count) = length-gsm7_pack us bytes space pad k (omega (arith, small)) done in
    record {
      k = k;
      bytes = bytes;
      done = done;
      nibbles = nibbles_bytes (pad + 7 * length (septets_of us)) (length bytes) k size count;
      size = size;
    }

packed_whole :
    (us : List ℕ) (space pad : ℕ) (p : IsPacked us space pad)
    → packed_bytes (gsm7_pack us space pad) ≡ p.bytes
packed_whole us space pad p = rw (p.done, p.nibbles) (take_all p.bytes)

-- The user data of a part in the 7-bit alphabet, of at most 248 septets, is read back, where it has a
-- unit or more, `pdu_build` has the space for it and the reader's tables are from 0 to 13: what those
-- tables have for its septets, and the header where there is more than one part.
pub parse_user_data-user_data_gsm7 :
    (space : ℕ) (msg oa : List ℕ) (scts : Tm) (sent udh : PduUdh)
    → 0 < length msg
    → length (septets_of msg) ≤ 248
    → (7 * length msg + 8) / 8 + 1 ≤ space
    → udh.ls ≤ 13
    → udh.ss ≤ 13
    → let s = length (septets_of msg) in
      parse_user_data oa scts 0
        (udl_of 0 s sent)
        (use_udh_of sent)
        (user_data space 0 msg s sent)
        udh
      ≡ parsed (record {
        oa = oa;
        scts = scts;
        msg = (decode_septets udh.ls udh.ss false (septets_of msg)).0;
        udh = as_part sent udh;
      })
unfolding parse_user_data parse_text udl_of header_bytes text_bytes udl_bytes
parse_user_data-user_data_gsm7 space msg oa scts sent udh some_units few room ls ss =
    let s = length (septets_of msg) in
    elim (Bool-cases (use_udh_of sent)) [
      | inl part ↦
          let p = gsm7_pack-IsPacked msg space 1 (omega arith) (omega (arith, room)) in
          let b = p.bytes in
          let m = length (5 ∷ 0 ∷ 3 ∷ sent.ref ∷ sent.parts ∷ sent.order ∷ b) in
          let same : ((nibbles_for (u8 (s + 7)) + 1) / 2 == m) ≡ true = ground (arith, p.size) in
          let enough : ltb (m - 1) 5 ≡ false = ground arith in
          let some_bytes : (m == 0) ≡ false = ground arith in
          let there : leb 0 (length b) ≡ true = ground arith in
          let k = nibbles_left (u8 (s + 7)) 5 in
          let count : k ≡ (7 * s + 4) / 4 = omega (arith, few) in
          let within : reads_beyond k (length b) ≡ false = ground (arith, count, p.size) in
          let text =
            gsm7_unpack_decode_packed msg b space 1024 1 p.k k udh.ls udh.ss (omega arith)
              some_units ls ss p.done (omega (arith, count)) (omega (arith, count))
              (omega (arith, count, p.size)) (omega (arith, few)) in
          rw (part, packed_whole msg space 1 p, same, some_bytes, enough, there, within, text) refl
      | inr whole ↦
          let p = gsm7_pack-IsPacked msg space 0 (omega arith) (omega (arith, room)) in
          let b = p.bytes in
          let same : ((nibbles_for (u8 (s + 0)) + 1) / 2 == length b) ≡ true =
            ground (arith, p.size) in
          let k = nibbles_for (u8 (s + 0)) in
          let count : k ≡ (7 * s + 3) / 4 = omega (arith, few) in
          let within : reads_beyond k (length b) ≡ false = ground (arith, count, p.size) in
          let text =
            gsm7_unpack_decode_packed msg b space 1024 0 p.k k udh.ls udh.ss (omega arith)
              some_units ls ss p.done (omega (arith, count)) (omega (arith, count))
              (omega (arith, count, p.size)) (omega (arith, few)) in
          rw (whole, packed_whole msg space 0 p, same, within, text) refl
    ]
