-- ===== src/Ring/Search/Memmem.antt =====
-- `memmem` of src/memmem.c against the places where one byte string occurs in another.
use mathlib.Core.Path.{ap₂}
use asterisk_chan_quectel.Prelude.{
  ==_iff, slice-zero, ℕ, zero, suc, ◌+◌, ◌-◌, ◌≤◌, ◌<◌, ◌≡◌, inl, inr, true, false, ◌&&◌, Option,
  none, some, List, [], ◌∷◌, arith, length, slice, get_or, ltb, ◌==◌, if◌then◌else◌, Bool-cases,
}
use asterisk_chan_quectel.Ring.{bytes_eq}
use asterisk_chan_quectel.Ring.Gather.{bytes_eq_sound, bytes_eq_refl}
use asterisk_chan_quectel.Ring.Search.{memchr, memmem_loop, memmem, shift}

-- The bytes of `s` stand in `l` from place `p` on.
abbrev pub Occurs : List ℕ → List ℕ → ℕ → Type 0
Occurs s l p = (p + length s ≤ length l) × (slice l p (length s) ≡ s)

-- `r` is the first place, or there is none.
abbrev pub IsFirst : List ℕ → List ℕ → Option ℕ → Type 0
IsFirst s l none = (q : ℕ) → ¬ Occurs s l q
IsFirst s l (some p) = Occurs s l p × ((q : ℕ) → q < p → ¬ Occurs s l q)

IsFirst-shift :
    (s : List ℕ) (x : ℕ) (l : List ℕ) (r : Option ℕ)
    → ¬ Occurs s (x ∷ l) 0
    → IsFirst s l r
    → IsFirst s (x ∷ l) (shift r)
IsFirst-shift s x l none here rest = λ q. elim q as (λ k. ¬ Occurs s (x ∷ l) k) [
  | zero ↦ here
  | suc k ↦ λ h. rest k (omega arith, h.1)
]
IsFirst-shift s x l (some p) here (at, rest) = (
  (omega arith, at.1),
  λ q. elim q as (λ k. k < suc p → ¬ Occurs s (x ∷ l) k) [
    | zero ↦ λ _. here
    | suc k ↦ λ lt h. rest k (omega arith) (omega arith, h.1)
  ],
)

-- The test of one round of the loop.
test_Occurs :
    (s l : List ℕ)
    → 0 < length s
    → length s ≤ length l
    → (get_or l 0 0 == get_or s 0 0 && bytes_eq (slice l 0 (length s)) s) ≡ false
    → ¬ Occurs s l 0
test_Occurs [] l n h t = absurd (omega arith)
test_Occurs (y ∷ s) [] n h t = absurd (omega arith)
test_Occurs (y ∷ s) (x ∷ l) n h t = λ o.
    let whole : bytes_eq (slice (x ∷ l) 0 (length (y ∷ s))) (y ∷ s) ≡ true =
      rw (o.1) (bytes_eq_refl (y ∷ s)) in
    let head : x ≡ y = cc (o.1) in ground arith

memmem_loop-IsFirst :
    (rounds : ℕ) (l s : List ℕ)
    → 0 < length s
    → length l + 1 ≡ rounds + length s
    → IsFirst s l (memmem_loop rounds l s)
unfolding memmem_loop
memmem_loop-IsFirst zero l s n h = λ q o. omega arith
memmem_loop-IsFirst (suc rounds) [] s n h = absurd (omega arith)
memmem_loop-IsFirst (suc rounds) (x ∷ l) s n h =
    elim (Bool-cases
      (get_or (x ∷ l) 0 0 == get_or s 0 0 && bytes_eq (slice (x ∷ l) 0 (length s)) s)) [
        | inl hit ↦ rw hit (
          (omega arith, bytes_eq_sound (slice (x ∷ l) 0 (length s)) s (ground arith)),
          λ q lt o. omega arith,
        )
        | inr miss ↦ rw miss (
            IsFirst-shift s x l (memmem_loop rounds l s)
              (test_Occurs s (x ∷ l) n (omega arith) miss)
              (memmem_loop-IsFirst rounds l s n (omega arith)))
      ]

memchr-IsFirst : (l : List ℕ) (c : ℕ) → IsFirst (c ∷ []) l (memchr l c)
unfolding memchr
memchr-IsFirst [] c = λ q o. omega arith
memchr-IsFirst (x ∷ l) c = elim (Bool-cases (x == c)) [
  | inl hit ↦
      rw hit ((omega arith, ap₂ ◌∷◌ ((==_iff x c).0 hit) (slice-zero l 0)), λ q lt o. omega arith)
  | inr miss ↦ rw miss (
      IsFirst-shift (c ∷ []) x l (memchr l c) (λ o. let head : x ≡ c = cc (o.1) in ground arith)
        (memchr-IsFirst l c))
]

memmem-none : (s : List ℕ) → memmem [] s ≡ none
unfolding memmem
memmem-none s = ground arith

memmem_one : (x : ℕ) (l : List ℕ) (c : ℕ) → memmem (x ∷ l) (c ∷ []) ≡ memchr (x ∷ l) c
unfolding memmem
memmem_one x l c = ground arith

pub memmem_many :
    (x : ℕ) (l : List ℕ) (c d : ℕ) (s : List ℕ)
    → memmem (x ∷ l) (c ∷ d ∷ s) ≡ (
        if ltb (length (x ∷ l)) (length (c ∷ d ∷ s))
        then none
        else memmem_loop (length (x ∷ l) - length (c ∷ d ∷ s) + 1) (x ∷ l) (c ∷ d ∷ s))
unfolding memmem
memmem_many x l c d s = ground arith

-- `memmem` answers with the first place where `s` stands in `l`, and with none only where there is
-- no such place, unless `s` is empty.
pub memmem-IsFirst : (l s : List ℕ) → 0 < length s → IsFirst s l (memmem l s)
memmem-IsFirst l [] n = absurd (omega arith)
memmem-IsFirst [] (c ∷ s) n = rw memmem-none (λ q o. omega arith)
memmem-IsFirst (x ∷ l) (c ∷ []) n = rw memmem_one (memchr-IsFirst (x ∷ l) c)
memmem-IsFirst (x ∷ l) (c ∷ d ∷ s) n =
    elim (Bool-cases (ltb (length (x ∷ l)) (length (c ∷ d ∷ s)))) [
      | inl short ↦ rw (memmem_many x l c d s, short) (λ q o. ground arith)
      | inr long ↦
          rw (memmem_many x l c d s, long)
            (memmem_loop-IsFirst (length (x ∷ l) - length (c ∷ d ∷ s) + 1) (x ∷ l) (c ∷ d ∷ s)
              (omega arith) (ground arith))
    ]
