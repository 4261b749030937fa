-- ===== src/Pdu/Overruns.antt =====
-- Messages that `tpdu_parse_deliver` of src/pdu.c reads past their end.
use asterisk_chan_quectel.Prelude.{
  ℕ, suc, ◌+◌, ◌-◌, ◌%◌, ◌^◌, ◌<◌, ◌≡◌, refl, ◌∙◌, true, false, List, [], ◌∷◌, ◌++◌, arith, ltb,
  leb, ◌==◌, length, length-append, All,
}
use asterisk_chan_quectel.Pdu.{PduUdh}
use asterisk_chan_quectel.Pdu.Headers.{
  Element, encode_all, IsRegular, header_loop_told, header_loop_language, drop_all,
}
use asterisk_chan_quectel.Pdu.Deliver.{
  nibbles_for, Tm, beyond, parse_text, parse_user_data, nibbles_left, udl_bytes,
}

-- Where a message that is not in the 7-bit alphabet has a header and no text, and the header ends with
-- a national language for the single shift, behind regular elements, the code steps past the end of
-- the message, and copies the -1 bytes that it counts.
pub parse_user_data_language :
    (es : List Element) (v alphabet : ℕ) (oa : List ℕ) (scts : Tm) (udh : PduUdh)
    → All IsRegular es
    → 0 < alphabet
    → let udhl = length (encode_all es) + 3 in
      let pdu = udhl ∷ encode_all es ++ (0x24 ∷ 1 ∷ v ∷ []) in
      parse_user_data oa scts alphabet (length pdu) true pdu udh ≡ beyond
unfolding parse_user_data udl_bytes
parse_user_data_language es v alphabet oa scts udh all wide =
    let size = length-append (encode_all es) (0x24 ∷ 1 ∷ v ∷ []) in
    let other7 : (alphabet == 0) ≡ false = ground arith in
    let same : (n : ℕ) → (n == n) ≡ true = λ n. ground arith in
    let some_bytes : (n : ℕ) → (suc n == 0) ≡ false = λ n. ground arith in
    let n = length (encode_all es ++ (0x24 ∷ 1 ∷ v ∷ [])) in
    let enough : ltb (suc n - 1) (length (encode_all es) + 3) ≡ false = ground (arith, size) in
    rw (other7, same (suc n), some_bytes n, enough, header_loop_language es v [] udh all, other7)
      refl

-- The count of nibbles is -1, as a `size_t`.
nibbles_left_wraps :
    (udl udhl : ℕ)
    → udl < 256
    → udl_bytes 0 udl ≡ udhl + 1
    → nibbles_for udl % 2 ≡ 1
    → nibbles_left udl udhl ≡ 2 ^ 64 - 1
unfolding udl_bytes
nibbles_left_wraps udl udhl small whole odd = omega arith

-- Where a message in the 7-bit alphabet has a header of regular elements, with at most one byte more,
-- that takes all bytes of the user data, and these have an odd number of nibbles, the code counts
-- that -1 nibbles of text are left, and it reads past the end of the message.
pub parse_user_data_no_text :
    (es : List Element) (spare : List ℕ) (udl : ℕ) (oa : List ℕ) (scts : Tm) (udh : PduUdh)
    → All IsRegular es
    → length spare < 2
    → udl < 256
    → udl_bytes 0 udl ≡ length (encode_all es) + length spare + 1
    → nibbles_for udl % 2 ≡ 1
    → parse_user_data oa scts 0 udl true
        ((length (encode_all es) + length spare) ∷ encode_all es ++ spare)
        udh
      ≡ beyond
unfolding parse_user_data parse_text
parse_user_data_no_text es spare udl oa scts udh all few small whole odd =
    let size = length-append (encode_all es) spare in
    let n = length (encode_all es ++ spare) in
    let matches : (udl_bytes 0 udl == suc n) ≡ true = ground (arith, size) in
    let some_bytes : (suc n == 0) ≡ false = ground arith in
    let enough : ltb (suc n - 1) (length (encode_all es) + length spare) ≡ false =
      ground (arith, size) in
    let there : leb (length spare) (length spare) ≡ true = ground arith in
    rw
      (
        matches,
        some_bytes,
        enough,
        header_loop_told es (length spare) spare udh all few,
        there,
        drop_all spare,
        nibbles_left_wraps udl (length (encode_all es) + length spare) small (whole ∙ omega arith)
            odd,
      )
      refl
