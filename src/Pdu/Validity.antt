-- ===== src/Pdu/Validity.antt =====
-- The validity period of src/pdu.c against the table that its comment quotes from the standard.
use asterisk_chan_quectel.Prelude.{ℕ, ◌+◌, ◌-◌, ◌*◌, ◌≤◌, ◌<◌, ◌≡◌, arith, leb, if◌then◌else◌}
use asterisk_chan_quectel.Pdu.{pdu_relative_validity}

-- The minutes that a byte of the validity period stands for.
unfoldable pub validity_minutes : ℕ → ℕ
validity_minutes vp =
    if leb vp 143
    then (vp + 1) * 5
    else (if leb vp 167
        then 720 + (vp - 143) * 30
        else (if leb vp 196 then (vp - 166) * 1440 else (vp - 192) * 10080))

long_enough :
    (minutes : ℕ)
    → 1 ≤ minutes
    → minutes ≤ 635040
    → let least = pdu_relative_validity minutes in
      (least < 256) × (minutes ≤ validity_minutes least)
unfolding pdu_relative_validity validity_minutes
long_enough minutes one most = ground arith

none_shorter :
    (minutes vp : ℕ)
    → 1 ≤ minutes
    → minutes ≤ 635040
    → minutes ≤ validity_minutes vp
    → pdu_relative_validity minutes ≤ vp
unfolding pdu_relative_validity validity_minutes
none_shorter minutes vp one most h = ground arith

validity_minutes_mono : (a b : ℕ) → a ≤ b → validity_minutes a ≤ validity_minutes b
unfolding validity_minutes
validity_minutes_mono a b h = ground arith

same_test : (a b c d : ℕ) → (a ≤ b → c ≤ d) → (c ≤ d → a ≤ b) → leb a b ≡ leb c d
same_test a b c d to from = ground arith

-- For 1 to 635040 minutes the result is a byte, and a byte stands for as many minutes or more exactly
-- if it is at least the result: the result is the shortest period that is long enough.
pub pdu_relative_validity_lem :
    (minutes vp : ℕ)
    → 1 ≤ minutes
    → minutes ≤ 635040
    → let least = pdu_relative_validity minutes in
      (least < 256) × (leb minutes (validity_minutes vp) ≡ leb least vp)
pdu_relative_validity_lem minutes vp one most =
    let least = pdu_relative_validity minutes in
    let (byte, enough) = long_enough minutes one most in
    (
      byte,
      same_test minutes (validity_minutes vp) least vp (none_shorter minutes vp one most)
          (λ h. omega (arith, validity_minutes_mono least vp h, enough)),
    )
