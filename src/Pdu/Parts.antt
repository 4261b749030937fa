-- ===== src/Pdu/Parts.antt =====
-- How `pdu_build_mult` of src/pdu.c cuts a text of the 7-bit alphabet into parts.
use asterisk_chan_quectel.Prelude.{
  ℕ, zero, suc, ◌+◌, ◌-◌, ◌≤◌, ◌<◌, ◌≡◌, refl, ap, ◌∙◌, Option, none, some, List, [], ◌∷◌, ltb, leb,
  if◌then◌else◌, length, drop, All, arith, min, Bool-cases, inl, inr,
}

-- `msg_gsm7[off + n] > 255 ? 2 : 1`
unfoldable pub req_of : ℕ → ℕ
req_of u = if ltb 255 u then 2 else 1

-- The inner loop: how many units the part has, and how many septets.
unfoldable pub part_of : ℕ → List ℕ → ℕ → ℕ × ℕ
part_of split [] septets = (0, septets)
part_of split (u ∷ us) septets =
    let rest = part_of split us (septets + req_of u) in
    if leb split (septets + req_of u) then (0, septets) else (rest.0 + 1, rest.1)

-- One more part in front.
unfoldable pub add_part : ℕ × ℕ → Option (List (ℕ × ℕ)) → Option (List (ℕ × ℕ))
add_part part none = none
add_part part (some parts) = some (part ∷ parts)

-- `while (off < msg_len)`, with fuel: the units and the septets of each part, `none` where the fuel is
-- used up.
unfoldable pub parts_of : ℕ → ℕ → List ℕ → Option (List (ℕ × ℕ))
unfolding part_of add_part
parts_of fuel split [] = some []
parts_of zero split (u ∷ us) = none
parts_of (suc fuel) split (u ∷ us) =
    let part = part_of split (u ∷ us) 0 in
    add_part part (parts_of fuel split (drop (part.0) (u ∷ us)))

-- `split` for a text of `gsm7_len` septets.
unfoldable pub gsm7_split : ℕ → ℕ
gsm7_split gsm7_len = if ltb 160 gsm7_len then 153 else 160

-- The septets of some units.
unfoldable pub need : List ℕ → ℕ
need [] = 0
need (u ∷ us) = req_of u + need us

pub length-drop : (n : ℕ) (us : List ℕ) → length (drop n us) ≡ length us - n
length-drop zero us = omega arith
length-drop (suc n) [] = omega arith
length-drop (suc n) (u ∷ us) = omega (arith, length-drop n us)

req_small : (u : ℕ) → (1 ≤ req_of u) × (req_of u ≤ 2)
unfolding req_of
req_small u = ground arith

record IsPart (split : ℕ) (us : List ℕ) (s : ℕ) (part : ℕ × ℕ) : Type 0 where
  inside : part.0 ≤ length us
  counted : part.1 + need (drop (part.0) us) ≡ s + need us
  below : part.1 < split

part_of-IsPart :
    (split : ℕ) (us : List ℕ) (s : ℕ) → s < split → IsPart split us s (part_of split us s)
unfolding part_of need
part_of-IsPart split [] s h = record { inside = omega arith; counted = omega arith; below = h }
part_of-IsPart split (u ∷ us) s h = elim (Bool-cases (leb split (s + req_of u))) [
  | inl full ↦ rw full (record { inside = omega arith; counted = omega arith; below = h })
  | inr more ↦
      let p = part_of-IsPart split us (s + req_of u) (ground arith) in
      let up : (part_of split us (s + req_of u)).0 + 1 ≡ suc (part_of split us (s + req_of u)).0 =
        omega arith in
      rw (more, up)
        (record {
          inside = omega (arith, p.inside);
          counted = omega (arith, p.counted);
          below = p.below;
        })
]

pub part_some : (split u : ℕ) (us : List ℕ) → 3 ≤ split → 0 < (part_of split (u ∷ us) 0).0
unfolding part_of
part_some split u us h = ground (arith, req_small u)

-- The units and the septets of all parts.
unfoldable pub units_in : List (ℕ × ℕ) → ℕ
units_in [] = 0
units_in (p ∷ ps) = p.0 + units_in ps

unfoldable pub septets_in : List (ℕ × ℕ) → ℕ
septets_in [] = 0
septets_in (p ∷ ps) = p.1 + septets_in ps

-- For a limit of three septets or more, the loop over the parts ends, with as many rounds as
-- there are units or fewer: no part is empty, each has fewer septets than the limit, and together
-- they have all units and all septets of the text.
pub parts_of_lem :
    (fuel split : ℕ) (us : List ℕ)
    → 3 ≤ split
    → length us ≤ fuel
    → (parts : List (ℕ × ℕ)) × (parts_of fuel split us ≡ some parts)
      × All (λ p. (0 < p.0) × (p.1 < split)) parts
      × (units_in parts ≡ length us)
      × (septets_in parts ≡ need us)
unfolding parts_of units_in septets_in
parts_of_lem fuel split [] h enough = ([], refl, omega arith, refl, unfold need in refl)
parts_of_lem zero split (u ∷ us) h enough = absurd (omega arith)
parts_of_lem (suc fuel) split (u ∷ us) h enough =
    let part = part_of split (u ∷ us) 0 in
    let p = part_of-IsPart split (u ∷ us) 0 (omega arith) in
    let some_units = part_some split u us h in
    let shorter = length-drop (part.0) (u ∷ us) in
    let (parts, made, good, units, septets) =
      parts_of_lem fuel split (drop (part.0) (u ∷ us)) h (omega arith) in
    (
      part ∷ parts,
      rw made (unfold add_part in refl),
      ((some_units, p.below), good),
      omega (arith, p.inside, units),
      omega (arith, p.counted, septets),
    )

-- A unit that is not behind the escape.
abbrev pub IsPlain : ℕ → Type 0
IsPlain u = u ≤ 255

need-plain : (us : List ℕ) → All IsPlain us → need us ≡ length us
unfolding need req_of
need-plain [] h = refl
need-plain (u ∷ us) (h, hs) = ground (arith, need-plain us hs)

part_of-plain :
    (split : ℕ) (us : List ℕ) (s : ℕ)
    → All IsPlain us
    → s < split
    → let n = min (length us) (split - 1 - s) in part_of split us s ≡ (n, s + n)
unfolding part_of req_of
part_of-plain split [] s h k = ground arith
part_of-plain split (u ∷ us) s (h, hs) k =
    let one : ◌≡◌ {A = ℕ} (if ltb 255 u then 2 else 1) 1 = ground arith in
    elim (Bool-cases (leb split (s + 1))) [
      | inl full ↦ rw (one, full) (ground arith)
      | inr more ↦ rw (one, more, part_of-plain split us (s + 1) hs (ground arith)) (ground arith)
    ]

All-drop : (n : ℕ) (us : List ℕ) → All IsPlain us → All IsPlain (drop n us)
All-drop zero us h = h
All-drop (suc n) [] h = h
All-drop (suc n) (u ∷ us) (h, hs) = All-drop n us hs

parts_of_next :
    (fuel split : ℕ) (u : ℕ) (us : List ℕ) (n s : ℕ)
    → part_of split (u ∷ us) 0 ≡ (n, s)
    → parts_of (suc fuel) split (u ∷ us) ≡ add_part (n, s) (parts_of fuel split (drop n (u ∷ us)))
unfolding parts_of
parts_of_next fuel split u us n s e =
    ap (λ (part : ℕ × ℕ). add_part part (parts_of fuel split (drop (part.0) (u ∷ us)))) e

last_part :
    (fuel split : ℕ) (us : List ℕ)
    → All IsPlain us
    → length us ≡ 1
    → 3 ≤ split
    → parts_of (suc fuel) split us ≡ some ((1, 1) ∷ [])
last_part fuel split [] h one k = absurd (omega arith)
last_part fuel split (u ∷ v ∷ us) h one k = absurd (omega arith)
last_part fuel split (u ∷ []) h one k =
    let least : min 1 (split - 1 - 0) ≡ 1 = omega arith in
    let part : part_of split (u ∷ []) 0 ≡ (1, 1) =
      part_of-plain split (u ∷ []) 0 h (omega arith) ∙ ap (λ n. (n, 0 + n)) least in
    parts_of_next fuel split u [] 1 1 part ∙ unfold add_part parts_of in refl

-- A text of 160 units of one septet each is cut into two parts, of 159 septets and of one: the inner
-- loop stops before its limit is reached, not when it would be passed.
pub parts_of_full_message :
    (fuel : ℕ) (us : List ℕ)
    → All IsPlain us
    → length us ≡ 160
    → parts_of (2 + fuel) (gsm7_split (need us)) us ≡ some ((159, 159) ∷ (1, 1) ∷ [])
parts_of_full_message fuel [] h full = absurd (omega arith)
parts_of_full_message fuel (u ∷ us) h full =
    let split : gsm7_split (need (u ∷ us)) ≡ 160 =
      unfold gsm7_split in ground (arith, need-plain (u ∷ us) h) in
    let least : min (length (u ∷ us)) (160 - 1 - 0) ≡ 159 = omega arith in
    let first : part_of 160 (u ∷ us) 0 ≡ (159, 159) =
      part_of-plain 160 (u ∷ us) 0 h (omega arith) ∙ ap (λ n. (n, 0 + n)) least in
    let rest = drop 159 (u ∷ us) in
    let last =
      last_part fuel 160 rest (All-drop 159 (u ∷ us) h) (omega (arith, length-drop 159 (u ∷ us)))
        (omega arith) in
    let two : 2 + fuel ≡ suc (suc fuel) = omega arith in
    rw (split, two)
      (parts_of_next (suc fuel) 160 u us 159 159 first
        ∙ ap (add_part (159, 159)) last
        ∙ unfold add_part in refl)
