-- ===== src/Pdu/Messages.antt =====
-- Whole messages of UCS-2 that `tpdu_parse_deliver` of src/pdu.c reads.
use asterisk_chan_quectel.Prelude.{
  ℕ, suc, ◌+◌, ◌*◌, ◌/◌, ◌%◌, ◌^◌, ◌≤◌, ◌<◌, ◌≡◌, ◌≢◌, refl, ap, true, false, some, List, [], ◌∷◌,
  ◌++◌, arith, ltb, ◌==◌, if◌then◌else◌, length, All, bit_and,
}
use asterisk_chan_quectel.Pdu.{PduUdh, pdu_store_number, ton_of}
use asterisk_chan_quectel.Pdu.Deliver.{
  Tm, pdu_parse_timestamp, units_of, parsed, alphabet_of, udl_bytes, parse_text, parse_user_data,
  parse_after_number, tpdu_parse_deliver,
}
use asterisk_chan_quectel.Pdu.Build.{unit_bytes}
use asterisk_chan_quectel.Pdu.Headers.{drop_front}
use asterisk_chan_quectel.Pdu.Numbers.{IsDigit, pdu_parse_number-pdu_store_number}
use asterisk_chan_quectel.Pdu.Stamps.{stamp_bytes, IsStamped, pdu_parse_timestamp_lem}

-- What stands behind the address.
abbrev pub behind_address : ℕ → ℕ → Tm → ℕ → List ℕ → List ℕ
behind_address pid dcs tm quarters msg =
    pid ∷ dcs ∷ stamp_bytes tm quarters ++ (length (unit_bytes msg) ∷ unit_bytes msg)

pub units_of-unit_bytes : (us : List ℕ) → units_of (unit_bytes us) ≡ us
unfolding units_of
units_of-unit_bytes [] = refl
units_of-unit_bytes (u ∷ us) =
    let unit : u % 256 + u / 256 * 256 ≡ u = omega arith in rw (unit, units_of-unit_bytes us) refl

after_number :
    (normalize : Tm → Tm) (tpdu_type pid dcs quarters : ℕ) (bytes oa msg : List ℕ) (tm : Tm)
    (udh : PduUdh)
    → IsStamped tm quarters
    → alphabet_of dcs ≡ some 8
    → bit_and tpdu_type 64 ≡ 0
    → parse_after_number normalize tpdu_type
        (bytes ++ behind_address pid dcs tm quarters msg)
        udh
        (some (length bytes, oa))
      ≡ parsed (record { oa = oa; scts = normalize tm; msg = msg; udh = udh })
unfolding parse_after_number parse_user_data parse_text udl_bytes
after_number normalize tpdu_type pid dcs quarters bytes oa msg tm udh stamped wide plain =
    let text = unit_bytes msg in
    let there : ltb (suc (suc (suc (suc (suc (suc (suc (suc (suc (suc (length text))))))))))) 10
        ≡ false =
      ground arith in
    let same : (length text == length text) ≡ true = ground arith in
    rw
      (
        drop_front bytes (behind_address pid dcs tm quarters msg),
        there,
        wide,
        plain,
        same,
        units_of-unit_bytes msg,
      )
      (ap (λ t. parsed (record { oa = oa; scts = normalize t; msg = msg; udh = udh }))
        (unfold pdu_parse_timestamp in pdu_parse_timestamp_lem tm quarters stamped))

-- A message of UCS-2 without a header is read whole: the number that `pdu_store_number` has stored,
-- of fewer than 256 digits, `*`, `#`, `A`, `B` and `C` and not alphanumeric, with a `+` where it is
-- international; the time, of this century and in a zone of fewer than 80 quarters of an hour, as
-- `ast_tm_normalize` leaves it; and the units of the text. The caller has room for two characters
-- more than the number has, and as many bytes follow the number as the check of the space asks for,
-- fewer than 2 ^ 32.
pub tpdu_parse_deliver-pdu_store_number :
    (utf8 : List ℕ → ℕ → List ℕ) (normalize : Tm → Tm) (tpdu_type pid dcs quarters toa oa_len : ℕ)
    (number msg : List ℕ) (tm : Tm) (udh : PduUdh)
    → All IsDigit number
    → ton_of toa ≢ 0x50
    → length number < 256
    → length number + 2 ≤ oa_len
    → (length number + 1) / 2 ≤ length (behind_address pid dcs tm quarters msg)
    → length (behind_address pid dcs tm quarters msg) < 2 ^ 32
    → IsStamped tm quarters
    → alphabet_of dcs ≡ some 8
    → bit_and tpdu_type 64 ≡ 0
    → (bytes : List ℕ) × (pdu_store_number toa number ≡ some bytes)
      × (tpdu_parse_deliver utf8 normalize
            (length number ∷ bytes ++ behind_address pid dcs tm quarters msg)
            tpdu_type
            oa_len
            udh
          ≡ parsed (record {
            oa = if ton_of toa == 0x10 then b'+' ∷ number else number;
            scts = normalize tm;
            msg = msg;
            udh = udh;
          }))
unfolding tpdu_parse_deliver
tpdu_parse_deliver-pdu_store_number utf8 normalize tpdu_type pid dcs quarters toa oa_len number msg
      tm udh digits plain size room space few stamped wide bare =
    let rest = behind_address pid dcs tm quarters msg in
    let (bytes, stored, read) =
      pdu_parse_number-pdu_store_number utf8 toa oa_len number rest digits plain size room space
        few in
    let some_bytes : (suc (length (bytes ++ rest)) == 0) ≡ false = ground arith in
    (
      bytes,
      stored,
      rw (some_bytes, read)
          (after_number normalize tpdu_type pid dcs quarters bytes
            (if ton_of toa == 0x10 then b'+' ∷ number else number) msg tm udh stamped wide bare),
    )
