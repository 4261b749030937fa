-- ===== src/Cpvt/Found.antt =====
-- Looking up, changing and removing a call in the list of src/cpvt.c.
use mathlib.Core.Path.{subst}
use mathlib.Core.Option.{some-injective}
use asterisk_chan_quectel.Prelude.{
  ℕ, ◌≡◌, refl, sym, ap, ◌∙◌, inl, inr, true, false, none, some, List, [], ◌∷◌, map, arith, ◌==◌,
  All, Bool-cases, if-elim,
}
use asterisk_chan_quectel.Cpvt.{Cpvt, find_cpvt, set_cpvt, remove_cpvt}

pub find_head :
    (id : ℕ) (c d : Cpvt) (cs : List Cpvt)
    → (d.id == id) ≡ true
    → find_cpvt id (d ∷ cs) ≡ some c
    → d ≡ c
find_head id c d cs p e = some-injective d c (rw p at e)

pub find_same : (id : ℕ) (cs : List Cpvt) (c : Cpvt) → find_cpvt id cs ≡ some c → c.id ≡ id
find_same id [] c e = cc
find_same id (d ∷ ds) c e = elim (Bool-cases (d.id == id)) [
  | inl p ↦
      let same : d ≡ c = some-injective d c (rw p at e) in
      subst (λ (x : Cpvt). x.id ≡ id) same (ground arith)
  | inr q ↦ find_same id ds c (rw q at e)
]

-- A call that is found is also found by its own address.
pub find_own :
    (id : ℕ) (cs : List Cpvt) (c : Cpvt) → find_cpvt id cs ≡ some c → find_cpvt c.id cs ≡ some c
find_own id cs c e = subst (λ (n : ℕ). find_cpvt n cs ≡ some c) (sym (find_same id cs c e)) e

pub All-found :
    (P : Cpvt → Type 0) (id : ℕ) (cs : List Cpvt) (c : Cpvt)
    → find_cpvt id cs ≡ some c
    → All P cs
    → P c
All-found P id [] c e all = cc
All-found P id (d ∷ ds) c e all = elim (Bool-cases (d.id == id)) [
  | inl p ↦ subst P (find_head id c d ds p e) (all.0)
  | inr q ↦ All-found P id ds c (rw q at e) (all.1)
]

-- A property of all calls is kept by a change that keeps it for the call that is found.
pub All-set_cpvt :
    (P : Cpvt → Type 0) (id : ℕ) (f : Cpvt → Cpvt) (cs : List Cpvt) (c : Cpvt)
    → find_cpvt id cs ≡ some c
    → P (f c)
    → All P cs
    → All P (set_cpvt id f cs)
unfolding set_cpvt
All-set_cpvt P id f [] c e h all = all
All-set_cpvt P id f (d ∷ ds) c e h all = elim (Bool-cases (d.id == id)) [
  | inl p ↦
      let same = find_head id c d ds p e in rw p (subst (λ (x : Cpvt). P (f x)) (sym same) h, all.1)
  | inr q ↦ rw q (all.0, All-set_cpvt P id f ds c (rw q at e) h (all.1))
]

pub All-remove_cpvt :
    (P : Cpvt → Type 0) (id : ℕ) (cs : List Cpvt) → All P cs → All P (remove_cpvt id cs)
All-remove_cpvt P id [] all = all
All-remove_cpvt P id (d ∷ ds) all =
    if-elim (All P) (d.id == id) (λ p. all.1) (λ q. (all.0, All-remove_cpvt P id ds (all.1)))

pub All-map :
    (P Q : Cpvt → Type 0) (f : Cpvt → Cpvt) (cs : List Cpvt)
    → ((c : Cpvt) → P c → Q (f c))
    → All P cs
    → All Q (map f cs)
All-map P Q f [] h all = all
All-map P Q f (d ∷ ds) h all = (h d (all.0), All-map P Q f ds h (all.1))

-- A change that keeps the address is found in its place.
pub find_cpvt-set_cpvt :
    (id : ℕ) (f : Cpvt → Cpvt) (cs : List Cpvt) (c : Cpvt)
    → ((d : Cpvt) → (f d).id ≡ d.id)
    → find_cpvt id cs ≡ some c
    → find_cpvt id (set_cpvt id f cs) ≡ some (f c)
unfolding set_cpvt
find_cpvt-set_cpvt id f [] c same e = cc
find_cpvt-set_cpvt id f (d ∷ ds) c same e = elim (Bool-cases (d.id == id)) [
  | inl p ↦
      let p' : ((f d).id == id) ≡ true = rw (same d) p in
      rw (p, p') (ap (λ (x : Cpvt). some (f x)) (find_head id c d ds p e))
  | inr q ↦ rw (q, q) (find_cpvt-set_cpvt id f ds c same (rw q at e))
]

-- A change of nothing where the call is not in the list.
pub set_cpvt_missing :
    (id : ℕ) (f : Cpvt → Cpvt) (cs : List Cpvt) → find_cpvt id cs ≡ none → set_cpvt id f cs ≡ cs
unfolding set_cpvt
set_cpvt_missing id f [] e = refl
set_cpvt_missing id f (d ∷ ds) e = elim (Bool-cases (d.id == id)) [
  | inl p ↦ let no : some d ≡ none = rw p at e in cc
  | inr q ↦ rw q (ap (λ (l : List Cpvt). d ∷ l) (set_cpvt_missing id f ds (rw q at e)))
]

-- The call that is found is unchanged by a map that leaves calls with its address alone.
pub find_cpvt-map :
    (id : ℕ) (f : Cpvt → Cpvt) (cs : List Cpvt) (c : Cpvt)
    → ((d : Cpvt) → (f d).id ≡ d.id)
    → ((d : Cpvt) → (d.id == id) ≡ true → f d ≡ d)
    → find_cpvt id cs ≡ some c
    → find_cpvt id (map f cs) ≡ some c
find_cpvt-map id f [] c same fixed e = cc
find_cpvt-map id f (d ∷ ds) c same fixed e = elim (Bool-cases (d.id == id)) [
  | inl p ↦
      let p' : ((f d).id == id) ≡ true = rw (same d) p in
      rw p' (ap some (fixed d p ∙ find_head id c d ds p e))
  | inr q ↦
      let q' : ((f d).id == id) ≡ false = rw (same d) q in
      rw q' (find_cpvt-map id f ds c same fixed (rw q at e))
]

pub set_cpvt_twice :
    (id : ℕ) (f g : Cpvt → Cpvt) (cs : List Cpvt)
    → ((d : Cpvt) → (f d).id ≡ d.id)
    → set_cpvt id g (set_cpvt id f cs) ≡ set_cpvt id (λ d. g (f d)) cs
unfolding set_cpvt
set_cpvt_twice id f g [] same = refl
set_cpvt_twice id f g (d ∷ ds) same = elim (Bool-cases (d.id == id)) [
  | inl p ↦ let p' : ((f d).id == id) ≡ true = rw (same d) p in rw (p, p') refl
  | inr q ↦ rw (q, q) (ap (λ (l : List Cpvt). d ∷ l) (set_cpvt_twice id f g ds same))
]
