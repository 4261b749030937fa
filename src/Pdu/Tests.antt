-- ===== src/Pdu/Tests.antt =====
-- Runs of the functions of src/pdu.c on short numbers, and the theorems about them at concrete ones.
use asterisk_chan_quectel.Prelude.{
  ℕ, zero, suc, true, false, ◌*◌, ap, All, ◌≡◌, ◌<◌, refl, none, some, List, [], ◌∷◌, ◌++◌, arith,
  length, leb,
}
use asterisk_chan_quectel.Pdu.{
  PduUdh, pdu_digit2code, pdu_code2digit, store_digits, put_byte, pdu_store_number,
  pdu_parse_number, pdu_relative_validity,
}
use asterisk_chan_quectel.Pdu.Validity.{validity_minutes, pdu_relative_validity_lem}
use asterisk_chan_quectel.Pdu.Parts.{
  req_of, part_of, parts_of, add_part, gsm7_split, need, units_in, septets_in, IsPlain,
  parts_of_lem, parts_of_full_message,
}
use asterisk_chan_quectel.Pdu.Deliver.{
  Tm, parsed, header, header_loop, parse_user_data, beyond, tpdu_parse_deliver, parse_after_number,
  alphabet_of, pdu_parse_timestamp, parse_text, udl_bytes, units_of,
}
use asterisk_chan_quectel.Pdu.Headers.{Element, concatenated, other, header_loop_told}
use asterisk_chan_quectel.Pdu.Overruns.{parse_user_data_language, parse_user_data_no_text}
use asterisk_chan_quectel.Pdu.Messages.{behind_address, tpdu_parse_deliver-pdu_store_number}
use asterisk_chan_quectel.Pdu.Center.{pdu_parse_sca-sca_bytes, pdu_parse_sca_refuses_none}
use asterisk_chan_quectel.Pdu.Report.{pdu_parse_sca}
use asterisk_chan_quectel.Pdu.Build.{sca_bytes}

abbrev utf8 : List ℕ → ℕ → List ℕ
utf8 units size = units

abbrev number : List ℕ
number = b'1' ∷ b'2' ∷ b'#' ∷ []

stored : pdu_store_number 0x91 number ≡ some (0x91 ∷ 0x21 ∷ 0xfb ∷ [])
unfolding pdu_store_number store_digits put_byte pdu_digit2code
stored = refl

two_days : pdu_relative_validity 1441 ≡ 168
unfolding pdu_relative_validity
two_days = refl

pdu_relative_validity_lem_example :
    (pdu_relative_validity 1441 < 256)
    × (leb 1441 (validity_minutes 167) ≡ leb (pdu_relative_validity 1441) 167)
pdu_relative_validity_lem_example = pdu_relative_validity_lem 1441 167 (omega arith) (omega arith)

-- Three units, of which the second is behind the escape, in parts of fewer than three septets.
cut : parts_of 3 3 (65 ∷ 0x1b65 ∷ 66 ∷ []) ≡ some ((1, 1) ∷ (1, 2) ∷ (1, 1) ∷ [])
unfolding parts_of part_of add_part req_of
cut = refl

parts_of_lem_example :
    (parts : List (ℕ × ℕ)) × (parts_of 3 3 (65 ∷ 0x1b65 ∷ 66 ∷ []) ≡ some parts)
    × All (λ p. (0 < p.0) × (p.1 < 3)) parts
    × (units_in parts ≡ 3)
    × (septets_in parts ≡ need (65 ∷ 0x1b65 ∷ 66 ∷ []))
parts_of_lem_example = parts_of_lem 3 3 (65 ∷ 0x1b65 ∷ 66 ∷ []) (omega arith) (omega arith)

-- `n` times the letter A.
abbrev letters : ℕ → List ℕ
letters zero = []
letters (suc n) = 65 ∷ letters n

All-letters : (n : ℕ) → All IsPlain (letters n)
All-letters zero = omega arith
All-letters (suc n) = (omega arith, All-letters n)

length-letters : (n : ℕ) → length (letters n) ≡ n
length-letters zero = refl
length-letters (suc n) = ap suc (length-letters n)

parts_of_full_message_example :
    parts_of 2 (gsm7_split (need (letters 160))) (letters 160) ≡ some ((159, 159) ∷ (1, 1) ∷ [])
parts_of_full_message_example =
    parts_of_full_message 0 (letters 160) (All-letters 160) (length-letters 160)

abbrev no_parts : PduUdh
no_parts = record { ref = 0; parts = 1; order = 0; ss = 0; ls = 0 }

-- Part two of three, and an element that the parser does not know.
abbrev elements : List Element
elements = concatenated 7 3 2 ∷ other 5 (1 ∷ 2 ∷ []) ∷ []

header_loop_told_example :
    header_loop 10
      (record { rest = 0 ∷ 3 ∷ 7 ∷ 3 ∷ 2 ∷ 5 ∷ 2 ∷ 1 ∷ 2 ∷ 65 ∷ []; udhl = 9; udh = no_parts })
    ≡ header (record {
      rest = 65 ∷ [];
      udhl = 0;
      udh = record no_parts { ref = 7; parts = 3; order = 2 };
    })
header_loop_told_example =
    header_loop_told elements 0 (65 ∷ []) no_parts (tt, (refl, tt)) (omega arith)

abbrev noon : Tm
noon = record {
  year = 124;
  mon = 6;
  mday = 1;
  hour = 12;
  min = 0;
  sec = 0;
  behind = false;
  gmtoff = 0;
}

parse_user_data_language_example :
    parse_user_data number noon 8 4 true (3 ∷ 0x24 ∷ 1 ∷ 3 ∷ []) no_parts ≡ beyond
parse_user_data_language_example =
    parse_user_data_language [] 3 8 number noon no_parts tt (omega arith)

parse_user_data_no_text_example :
    parse_user_data number noon 0 4 true (3 ∷ 5 ∷ 0 ∷ 9 ∷ []) no_parts ≡ beyond
unfolding udl_bytes
parse_user_data_no_text_example =
    parse_user_data_no_text (other 5 [] ∷ []) (9 ∷ []) 4 number noon no_parts (refl, tt)
      (omega arith) (omega arith) refl refl

-- A message with two characters of UCS-2.
delivered :
    tpdu_parse_deliver utf8
      (λ t. t)
      (3 ∷ 0x91 ∷ 0x21 ∷ 0xf3 ∷ 0 ∷ 8 ∷ 0x42 ∷ 0x60 ∷ 0x10 ∷ 0x21 ∷ 0 ∷ 0 ∷ 0 ∷ 4 ∷ 0 ∷ 65 ∷ 0 ∷ 66
        ∷ [])
      4
      20
      no_parts
    ≡ parsed (record {
      oa = b'+' ∷ b'1' ∷ b'2' ∷ b'3' ∷ [];
      scts = noon;
      msg = 65 * 256 ∷ 66 * 256 ∷ [];
      udh = no_parts;
    })
unfolding tpdu_parse_deliver parse_after_number alphabet_of pdu_parse_timestamp parse_user_data
    parse_text udl_bytes units_of pdu_parse_number pdu_code2digit
delivered = refl

abbrev evening : Tm
evening = record {
  year = 124;
  mon = 12;
  mday = 31;
  hour = 23;
  min = 59;
  sec = 58;
  behind = true;
  gmtoff = 15 * 60 * 14;
}

tpdu_parse_deliver-pdu_store_number_example :
    (bytes : List ℕ) × (pdu_store_number 0x91 number ≡ some bytes)
    × (tpdu_parse_deliver utf8
          (λ t. t)
          (3 ∷ bytes ++ behind_address 0 8 evening 14 (65 * 256 ∷ 66 * 256 ∷ []))
          4
          20
          no_parts
        ≡ parsed (record {
          oa = b'+' ∷ number;
          scts = evening;
          msg = 65 * 256 ∷ 66 * 256 ∷ [];
          udh = no_parts;
        }))
unfolding pdu_digit2code alphabet_of pdu_code2digit
tpdu_parse_deliver-pdu_store_number_example =
    tpdu_parse_deliver-pdu_store_number utf8 (λ t. t) 4 0 8 14 0x91 20 number
      (65 * 256 ∷ 66 * 256 ∷ []) evening no_parts
      ((omega arith, refl), ((omega arith, refl), ((omega arith, refl), omega arith))) (omega arith)
      (omega arith) (omega arith) (omega arith) (omega arith)
      (record {
        since = omega arith;
        until = omega arith;
        mon = omega arith;
        mday = omega arith;
        hour = omega arith;
        min = omega arith;
        sec = omega arith;
        zone = refl;
        near = omega arith;
      })
      refl refl

pdu_parse_sca-sca_bytes_example :
    (bytes : List ℕ) × (sca_bytes number ≡ some bytes)
    × (pdu_parse_sca utf8 (bytes ++ (4 ∷ 0 ∷ 0 ∷ [])) 20 ≡ some (length bytes, b'+' ∷ number))
unfolding pdu_digit2code pdu_code2digit
pdu_parse_sca-sca_bytes_example =
    pdu_parse_sca-sca_bytes utf8 20 b'1' (b'2' ∷ b'#' ∷ []) (4 ∷ 0 ∷ 0 ∷ [])
      ((omega arith, refl), ((omega arith, refl), ((omega arith, refl), omega arith))) (omega arith)
      (omega arith) (omega arith) (omega arith)

pdu_parse_sca_refuses_none_example : pdu_parse_sca utf8 (0 ∷ 4 ∷ 1 ∷ 0x91 ∷ []) 20 ≡ none
unfolding sca_bytes
pdu_parse_sca_refuses_none_example =
    pdu_parse_sca_refuses_none utf8 20 (0 ∷ []) (4 ∷ 1 ∷ 0x91 ∷ []) refl (omega arith) (omega arith)
