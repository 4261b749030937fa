-- ===== src/Pdu/Report.antt =====
-- `pdu_parse_sca`, `tpdu_parse_type` and `tpdu_parse_status_report` of src/pdu.c.
use asterisk_chan_quectel.Prelude.{
  ℕ, ◌+◌, ◌-◌, ◌*◌, Option, none, some, List, [], ◌∷◌, ltb, ◌==◌, if◌then◌else◌, length, drop,
  get_or, sub_u32,
}
use asterisk_chan_quectel.Pdu.{pdu_parse_number}
use asterisk_chan_quectel.Pdu.Deliver.{Tm, pdu_parse_timestamp}

-- One byte more was read.
abbrev pub after_length : Option (ℕ × List ℕ) → Option (ℕ × List ℕ)
after_length none = none
after_length (some (field_len, number)) = some (field_len + 1, number)

-- The bytes that were read and the number, for a message of one byte or more. The count of digits is
-- an `int` that is handed on as `unsigned`.
unfoldable pub pdu_parse_sca : (List ℕ → ℕ → List ℕ) → List ℕ → ℕ → Option (ℕ × List ℕ)
pdu_parse_sca utf8 pdu sca_len =
    let first = get_or pdu 0 0 in
    let sca_digits = if first == 0 then sub_u32 0 2 else (first - 1) * 2 in
    after_length (pdu_parse_number utf8 (drop 1 pdu) sca_digits sca_len)

unfoldable pub tpdu_parse_type : List ℕ → Option ℕ
tpdu_parse_type [] = none
tpdu_parse_type (b ∷ bs) = some b

-- What `tpdu_parse_status_report` gives.
pub record StatusReport : Type 0 where
  pub mr : ℕ
  pub ra : List ℕ
  pub scts : Tm
  pub dt : Tm
  pub st : ℕ

pub data ReportResult : Type 0 where
  reported : StatusReport → ReportResult
  unknown_report invalid_number invalid_timestamp : ReportResult

-- What follows the address; `normalize` is `ast_tm_normalize`.
unfoldable pub report_after_number : (Tm → Tm) → ℕ → List ℕ → Option (ℕ × List ℕ) → ReportResult
report_after_number normalize mr pdu none = invalid_number
report_after_number normalize mr pdu (some (field_len, ra)) =
    let p = drop field_len pdu in
    if ltb (length p) 15
    then invalid_timestamp
    else reported (record {
      mr = mr;
      ra = ra;
      scts = normalize (pdu_parse_timestamp p);
      dt = normalize (pdu_parse_timestamp (drop 7 p));
      st = get_or p 14 0;
    })

unfoldable pub tpdu_parse_status_report :
    (List ℕ → ℕ → List ℕ) → (Tm → Tm) → List ℕ → ℕ → ReportResult
unfolding report_after_number
tpdu_parse_status_report utf8 normalize pdu ra_len =
    if ltb (length pdu) 2
    then unknown_report
    else report_after_number normalize (get_or pdu 0 0) (drop 2 pdu)
        (pdu_parse_number utf8 (drop 2 pdu) (get_or pdu 1 0) ra_len)
