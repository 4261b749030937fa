-- ===== src/Pdu/Stamps.antt =====
-- The time stamps of src/pdu.c, and the messages that have one.
use asterisk_chan_quectel.Prelude.{
  ℕ, ◌+◌, ◌-◌, ◌*◌, ◌/◌, ◌%◌, ◌≤◌, ◌<◌, ◌≡◌, refl, sym, ap, ◌∙◌, Bool, true, false, not, List, [],
  ◌∷◌, arith, ◌==◌, ==_iff, if◌then◌else◌, all_below, all_below_sound, bit_and,
}
use asterisk_chan_quectel.Pdu.Deliver.{Tm, swapped, pdu_parse_timestamp}

-- Two digits with the last one in the high half of the byte.
abbrev pub semi_octet : ℕ → ℕ
semi_octet n = n / 10 + 16 * (n % 10)

-- The zone in quarters of an hour, with the sign in bit 3.
abbrev pub zone_byte : Bool → ℕ → ℕ
zone_byte behind quarters = (if behind then 8 else 0) + quarters / 10 + 16 * (quarters % 10)

-- The seven bytes of a time stamp.
abbrev pub stamp_bytes : Tm → ℕ → List ℕ
stamp_bytes tm quarters =
    semi_octet (tm.year - 100)
    ∷ semi_octet tm.mon
    ∷ semi_octet tm.mday
    ∷ semi_octet tm.hour
    ∷ semi_octet tm.min
    ∷ semi_octet tm.sec
    ∷ zone_byte tm.behind quarters
    ∷ []

-- A time of this century, in a zone of some quarters of an hour, fewer than 80.
pub record IsStamped (tm : Tm) (quarters : ℕ) : Type 0 where
  pub since : 100 ≤ tm.year
  pub until : tm.year < 200
  pub mon : tm.mon < 100
  pub mday : tm.mday < 100
  pub hour : tm.hour < 100
  pub min : tm.min < 100
  pub sec : tm.sec < 100
  pub zone : tm.gmtoff ≡ 15 * 60 * quarters
  pub near : quarters < 80

swapped_table : all_below 100 (λ n. swapped (semi_octet n) == n) ≡ true
unfolding all_below
swapped_table = refl

swapped-semi_octet : (n : ℕ) → n < 100 → swapped (semi_octet n) ≡ n
swapped-semi_octet n h =
    (==_iff (swapped (semi_octet n)) n).0
      (all_below_sound 100 (λ n. swapped (semi_octet n) == n) n swapped_table h)

-- The quarters and the sign that the last byte of a stamp has.
abbrev zone_quarters : ℕ → ℕ
zone_quarters b = 10 * bit_and b 7 + b / 16

abbrev zone_behind : ℕ → Bool
zone_behind b = not (bit_and b 8 == 0)

quarters_table :
    (behind : Bool) → all_below 80 (λ n. zone_quarters (zone_byte behind n) == n) ≡ true
unfolding all_below
quarters_table true = refl
quarters_table false = refl

zone_quarters-zone_byte : (behind : Bool) (n : ℕ) → n < 80 → zone_quarters (zone_byte behind n) ≡ n
zone_quarters-zone_byte behind n h =
    (==_iff (zone_quarters (zone_byte behind n)) n).0 (
      all_below_sound 80 (λ n. zone_quarters (zone_byte behind n) == n) n (quarters_table behind) h)

zone_tables :
    (all_below 80 (λ n. zone_behind (zone_byte true n)) ≡ true)
    × (all_below 80 (λ n. not (zone_behind (zone_byte false n))) ≡ true)
unfolding all_below
zone_tables = (refl, refl)

zone_behind-zone_byte : (behind : Bool) (n : ℕ) → n < 80 → zone_behind (zone_byte behind n) ≡ behind
zone_behind-zone_byte true n h =
    all_below_sound 80 (λ n. zone_behind (zone_byte true n)) n (zone_tables.0) h
zone_behind-zone_byte false n h =
    let no = all_below_sound 80 (λ n. not (zone_behind (zone_byte false n))) n (zone_tables.1) h in
    ground (arith, no)

-- `pdu_parse_timestamp` reads the time back that a stamp of seven bytes was made from, in each field:
-- for a year of this century, two digits in each other field, and a zone of fewer than 80 quarters of
-- an hour on either side.
pub pdu_parse_timestamp_lem :
    (tm : Tm) (quarters : ℕ)
    → IsStamped tm quarters
    → pdu_parse_timestamp (stamp_bytes tm quarters) ≡ tm
unfolding pdu_parse_timestamp
pdu_parse_timestamp_lem tm quarters h =
    let year : swapped (semi_octet (tm.year - 100)) + 100 ≡ tm.year =
      ap (λ n. n + 100) (swapped-semi_octet (tm.year - 100) (omega (arith, h.until)))
      ∙ omega (arith, h.since) in
    rw
      (
        year,
        swapped-semi_octet tm.mon h.mon,
        swapped-semi_octet tm.mday h.mday,
        swapped-semi_octet tm.hour h.hour,
        swapped-semi_octet tm.min h.min,
        swapped-semi_octet tm.sec h.sec,
        zone_quarters-zone_byte tm.behind quarters h.near,
        zone_behind-zone_byte tm.behind quarters h.near,
        sym h.zone,
      )
      refl
