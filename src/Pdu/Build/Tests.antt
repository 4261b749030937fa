-- ===== src/Pdu/Build/Tests.antt =====
-- Runs of `pdu_build` and `pdu_build_mult` of src/pdu.c, and the theorems about them at concrete texts.
use asterisk_chan_quectel.Prelude.{ℕ, ◌≡◌, ◌≢◌, refl, true, false, List, [], ◌∷◌, arith}
use asterisk_chan_quectel.CharConv.Pack.{
  septets_of, unit_septets, decode_septets, gsm7_pack, pack_loop, ls_code, ss_code, big_endian_16,
}
use asterisk_chan_quectel.Pdu.{
  PduUdh, pdu_store_number, store_digits, put_byte, pdu_digit2code, pdu_relative_validity,
}
use asterisk_chan_quectel.Pdu.Deliver.{Tm, parsed, parse_user_data}
use asterisk_chan_quectel.Pdu.Build.{
  built, pdu_build, sca_bytes, with_sca, with_destination, limited, dst_toa_of, pdutype_of,
  use_udh_of, udl_of, header_bytes, text_bytes, unending, pdu_build_mult,
}
use asterisk_chan_quectel.Pdu.UserData.{
  parse_user_data-user_data_ucs2, parse_user_data-user_data_gsm7,
}
use asterisk_chan_quectel.Pdu.Frames.{IsFramed, pdu_build-IsFramed}
use asterisk_chan_quectel.Pdu.Ends.{pdu_build_mult_ends}

abbrev second_part : PduUdh
second_part = record { ref = 9; parts = 3; order = 2; ss = 0; ls = 0 }

abbrev no_header : PduUdh
no_header = record { ref = 0; parts = 1; order = 0; ss = 0; ls = 0 }

abbrev sent_at : Tm
sent_at = record {
  year = 124;
  mon = 6;
  mday = 1;
  hour = 12;
  min = 0;
  sec = 0;
  behind = false;
  gmtoff = 0;
}

abbrev center : List ℕ
center = b'+' ∷ b'4' ∷ b'9' ∷ []

abbrev destination : List ℕ
destination = b'1' ∷ b'2' ∷ b'3' ∷ []

abbrev two_units : List ℕ
two_units = 65 ∷ 66 ∷ []

abbrev message : List ℕ
message = 2 ∷ 0x91 ∷ 0x94 ∷ 17 ∷ 0 ∷ 3 ∷ 0xb9 ∷ 0x21 ∷ 0xf3 ∷ 0 ∷ 0 ∷ 168 ∷ 2 ∷ 0x41 ∷ 0x21 ∷ []

built_message :
    pdu_build 256 center destination 0 two_units 2 1441 false no_header ≡ built 12 message
unfolding pdu_build sca_bytes with_sca with_destination limited dst_toa_of pdutype_of use_udh_of
    udl_of header_bytes text_bytes pdu_store_number store_digits put_byte pdu_digit2code
    pdu_relative_validity gsm7_pack pack_loop septets_of unit_septets
built_message = refl

pdu_build-IsFramed_example : IsFramed 12 message
pdu_build-IsFramed_example =
    pdu_build-IsFramed 256 center destination 0 two_units 2 1441 false no_header 12 message
      built_message

pdu_build_mult_ends_example : pdu_build_mult center destination two_units 1441 false 9 ≢ unending
pdu_build_mult_ends_example = pdu_build_mult_ends center destination two_units 1441 false 9

parse_user_data-user_data_ucs2_example :
    parse_user_data destination sent_at 8 10 true
      (5 ∷ 0 ∷ 3 ∷ 9 ∷ 3 ∷ 2 ∷ 65 ∷ 0 ∷ 66 ∷ 0 ∷ [])
      no_header
    ≡ parsed (record {
      oa = destination;
      scts = sent_at;
      msg = two_units;
      udh = record no_header { ref = 9; parts = 3; order = 2 };
    })
unfolding udl_of use_udh_of header_bytes text_bytes
parse_user_data-user_data_ucs2_example =
    parse_user_data-user_data_ucs2 256 two_units destination sent_at second_part no_header
      (omega arith)

parse_user_data-user_data_gsm7_example :
    parse_user_data destination sent_at 0 9 true
      (5 ∷ 0 ∷ 3 ∷ 9 ∷ 3 ∷ 2 ∷ 0x82 ∷ 0x42 ∷ [])
      no_header
    ≡ parsed (record {
      oa = destination;
      scts = sent_at;
      msg = 0x4100 ∷ 0x4200 ∷ [];
      udh = record no_header { ref = 9; parts = 3; order = 2 };
    })
unfolding udl_of use_udh_of header_bytes text_bytes gsm7_pack pack_loop septets_of unit_septets
    decode_septets ls_code ss_code big_endian_16
parse_user_data-user_data_gsm7_example =
    parse_user_data-user_data_gsm7 256 two_units destination sent_at second_part no_header
      (omega arith) (omega arith) (omega arith) (omega arith) (omega arith)
