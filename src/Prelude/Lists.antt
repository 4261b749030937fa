-- ===== src/Prelude/Lists.antt =====
-- Arrays as lists with native indices: reading and writing a run of cells at an offset.
use Prim.Native.Nat.{ℕ, zero, suc, ◌+◌, ◌-◌, ◌≤◌, ◌<◌, min}
use mathlib.Core.Path.{◌≡◌, refl, sym, ap, ◌∙◌}
use mathlib.Core.List.{List, [], ◌∷◌, ◌++◌, map, append-nil}
use mathlib.Core.Option.{Option, none, some}
use native.Mathlib.Omega.{arith}

module _ {ℓ} {A : Type ℓ} where
  abbrev pub length : List A → ℕ
  length [] = 0
  length (x ∷ xs) = suc (length xs)

  abbrev pub get_or : List A → ℕ → A → A
  get_or [] i d = d
  get_or (x ∷ xs) zero d = x
  get_or (x ∷ xs) (suc i) d = get_or xs i d

  abbrev pub get_elem? : List A → ℕ → Option A
  get_elem? [] i = none
  get_elem? (x ∷ xs) zero = some x
  get_elem? (x ∷ xs) (suc i) = get_elem? xs i

  -- Every element has the property.
  abbrev pub All {κ} : (A → Type κ) → List A → Type κ
  All P [] = Unit {κ}
  All P (x ∷ xs) = P x × All P xs

  abbrev pub take : ℕ → List A → List A
  take zero xs = []
  take (suc n) [] = []
  take (suc n) (x ∷ xs) = x ∷ take n xs

  abbrev pub drop : ℕ → List A → List A
  drop zero xs = xs
  drop (suc n) [] = []
  drop (suc n) (x ∷ xs) = drop n xs

  -- The `n` cells from offset `o` on; fewer where the array ends.
  abbrev pub slice : List A → ℕ → ℕ → List A
  slice [] o n = []
  slice (x ∷ xs) (suc o) n = slice xs o n
  slice (x ∷ xs) zero zero = []
  slice (x ∷ xs) zero (suc n) = x ∷ slice xs zero n

  -- The array with `ds` written from offset `o` on; a write past the end is dropped.
  abbrev pub splice : List A → ℕ → List A → List A
  splice [] o ds = []
  splice (x ∷ xs) (suc o) ds = x ∷ splice xs o ds
  splice (x ∷ xs) zero [] = x ∷ xs
  splice (x ∷ xs) zero (d ∷ ds) = d ∷ splice xs zero ds

module _ {ℓ} {A : Type ℓ} where
  pub length-append : (xs ys : List A) → length (xs ++ ys) ≡ length xs + length ys
  length-append [] ys = omega arith
  length-append (x ∷ xs) ys = omega (arith, length-append xs ys)

  pub length-slice : (xs : List A) (o n : ℕ) → length (slice xs o n) ≡ min n (length xs - o)
  length-slice [] o n = omega arith
  length-slice (x ∷ xs) (suc o) n = omega (arith, length-slice xs o n)
  length-slice (x ∷ xs) zero zero = omega arith
  length-slice (x ∷ xs) zero (suc n) = omega (arith, length-slice xs zero n)

  pub length-splice : (xs : List A) (o : ℕ) (ds : List A) → length (splice xs o ds) ≡ length xs
  length-splice [] o ds = refl
  length-splice (x ∷ xs) (suc o) ds = ap suc (length-splice xs o ds)
  length-splice (x ∷ xs) zero [] = refl
  length-splice (x ∷ xs) zero (d ∷ ds) = ap suc (length-splice xs zero ds)

  pub All-append {κ} : (P : A → Type κ) (xs ys : List A) → All P xs → All P ys → All P (xs ++ ys)
  All-append P [] ys h k = k
  All-append P (x ∷ xs) ys h k = (h.0, All-append P xs ys (h.1) k)

  pub get_elem?-last :
      (xs : List A) (a : A) (n : ℕ) → n ≡ length xs → get_elem? (xs ++ (a ∷ [])) n ≡ some a
  get_elem?-last [] a zero e = refl
  get_elem?-last [] a (suc n) e = absurd (omega arith)
  get_elem?-last (x ∷ xs) a zero e = absurd (omega arith)
  get_elem?-last (x ∷ xs) a (suc n) e = get_elem?-last xs a n (omega arith)

  -- What is left after `n` cells starts with cell `n`.
  pub drop-get_elem? :
      (xs : List A) (n : ℕ)
      → n < length xs
      → (a : A) × (get_elem? xs n ≡ some a) × (drop n xs ≡ a ∷ drop (suc n) xs)
  drop-get_elem? [] n h = absurd (omega arith)
  drop-get_elem? (x ∷ xs) zero h = (x, refl, refl)
  drop-get_elem? (x ∷ xs) (suc n) h = drop-get_elem? xs n (omega arith)

  pub drop-past : (n : ℕ) (xs : List A) → length xs ≤ n → drop n xs ≡ []
  drop-past zero [] h = refl
  drop-past zero (x ∷ xs) h = absurd (omega arith)
  drop-past (suc n) [] h = refl
  drop-past (suc n) (x ∷ xs) h = drop-past n xs (omega arith)

  pub length-take : (n : ℕ) (xs : List A) → length (take n xs) ≡ min n (length xs)
  length-take zero xs = omega arith
  length-take (suc n) [] = omega arith
  length-take (suc n) (x ∷ xs) = omega (arith, length-take n xs)

  pub length-map {κ} : {B : Type κ} (xs : List A) (f : A → B) → length (map f xs) ≡ length xs
  length-map [] f = refl
  length-map (x ∷ xs) f = ap suc (length-map xs f)

  pub slice-zero : (xs : List A) (o : ℕ) → slice xs o 0 ≡ []
  slice-zero [] o = refl
  slice-zero (x ∷ xs) (suc o) = slice-zero xs o
  slice-zero (x ∷ xs) zero = refl

  pub splice-nil : (xs : List A) (o : ℕ) → splice xs o [] ≡ xs
  splice-nil [] o = refl
  splice-nil (x ∷ xs) (suc o) = ap (λ t. x ∷ t) (splice-nil xs o)
  splice-nil (x ∷ xs) zero = refl

  -- A run splits at any point.
  pub slice-add :
      (xs : List A) (o n m k : ℕ) → k ≡ n + m → slice xs o k ≡ slice xs o n ++ slice xs (o + n) m
  slice-add [] o n m k e = refl
  slice-add (x ∷ xs) (suc o) n m k e =
      let next : suc o + n ≡ suc (o + n) = omega arith in rw (next, slice-add xs o n m k e)
  slice-add (x ∷ xs) zero zero m k e = ap (λ j. slice (x ∷ xs) 0 j) (omega arith)
  slice-add (x ∷ xs) zero (suc n) m zero e = absurd (omega arith)
  slice-add (x ∷ xs) zero (suc n) m (suc k) e =
      let next : 0 + suc n ≡ suc (0 + n) = omega arith in
      rw (next, slice-add xs zero n m k (omega arith))

  pub slice_split :
      (xs : List A) (n m k : ℕ) → k ≡ n + m → slice xs 0 k ≡ slice xs 0 n ++ slice xs n m
  slice_split xs n m k e = let from : 0 + n ≡ n = omega arith in rw from at (slice-add xs 0 n m k e)

  -- A run that ends before the write, or starts after it, is not touched.
  pub slice-splice_before :
      (xs : List A) (o : ℕ) (ds : List A) (p n : ℕ)
      → p + n ≤ o
      → slice (splice xs o ds) p n ≡ slice xs p n
  slice-splice_before [] o ds p n h = refl
  slice-splice_before (x ∷ xs) (suc o) ds (suc p) n h =
      slice-splice_before xs o ds p n (omega arith)
  slice-splice_before (x ∷ xs) (suc o) ds zero zero h = refl
  slice-splice_before (x ∷ xs) (suc o) ds zero (suc n) h =
      ap (λ t. x ∷ t) (slice-splice_before xs o ds zero n (omega arith))
  slice-splice_before (x ∷ xs) zero ds (suc p) n h = absurd (omega arith)
  slice-splice_before (x ∷ xs) zero [] zero n h = refl
  slice-splice_before (x ∷ xs) zero (d ∷ ds) zero zero h = refl
  slice-splice_before (x ∷ xs) zero (d ∷ ds) zero (suc n) h = absurd (omega arith)

  pub slice-splice_after :
      (xs : List A) (o : ℕ) (ds : List A) (p n : ℕ)
      → o + length ds ≤ p
      → slice (splice xs o ds) p n ≡ slice xs p n
  slice-splice_after [] o ds p n h = refl
  slice-splice_after (x ∷ xs) (suc o) ds (suc p) n h = slice-splice_after xs o ds p n (omega arith)
  slice-splice_after (x ∷ xs) (suc o) ds zero n h = absurd (omega arith)
  slice-splice_after (x ∷ xs) zero [] p n h = refl
  slice-splice_after (x ∷ xs) zero (d ∷ ds) zero n h = absurd (omega arith)
  slice-splice_after (x ∷ xs) zero (d ∷ ds) (suc p) n h =
      slice-splice_after xs zero ds p n (omega arith)

  -- What was written is read back.
  pub slice-splice_self :
      (xs : List A) (o : ℕ) (ds : List A) (n : ℕ)
      → n ≡ length ds
      → o + n ≤ length xs
      → slice (splice xs o ds) o n ≡ ds
  slice-splice_self [] o [] n e h = refl
  slice-splice_self [] o (d ∷ ds) n e h = absurd (omega arith)
  slice-splice_self (x ∷ xs) (suc o) ds n e h = slice-splice_self xs o ds n e (omega arith)
  slice-splice_self (x ∷ xs) zero [] zero e h = refl
  slice-splice_self (x ∷ xs) zero [] (suc n) e h = absurd (omega arith)
  slice-splice_self (x ∷ xs) zero (d ∷ ds) zero e h = absurd (omega arith)
  slice-splice_self (x ∷ xs) zero (d ∷ ds) (suc n) e h =
      ap (λ t. d ∷ t) (slice-splice_self xs zero ds n (omega arith) (omega arith))

  pub slice_of_zero : (xs : List A) (n : ℕ) → slice xs 0 n ≡ take n xs
  slice_of_zero [] zero = refl
  slice_of_zero [] (suc n) = refl
  slice_of_zero (x ∷ xs) zero = refl
  slice_of_zero (x ∷ xs) (suc n) = ap (λ t. x ∷ t) (slice_of_zero xs n)

  pub take-le : (n : ℕ) (xs ys : List A) → n ≤ length xs → take n (xs ++ ys) ≡ take n xs
  take-le zero xs ys h = refl
  take-le (suc n) [] ys h = absurd (omega arith)
  take-le (suc n) (x ∷ xs) ys h = ap (λ t. x ∷ t) (take-le n xs ys (omega arith))

  pub take-all : (n : ℕ) (xs : List A) → length xs ≤ n → take n xs ≡ xs
  take-all zero [] h = refl
  take-all zero (x ∷ xs) h = absurd (omega arith)
  take-all (suc n) [] h = refl
  take-all (suc n) (x ∷ xs) h = ap (λ t. x ∷ t) (take-all n xs (omega arith))

  -- Taking or dropping past the first part of a join.
  pub take-append :
      (n : ℕ) (xs ys : List A) → length xs ≤ n → take n (xs ++ ys) ≡ xs ++ take (n - length xs) ys
  take-append n [] ys h = ap (λ k. take k ys) (omega arith)
  take-append zero (x ∷ xs) ys h = absurd (omega arith)
  take-append (suc n) (x ∷ xs) ys h =
      ap (λ t. x ∷ t)
        (rw (take-append n xs ys (omega arith)) (ap (λ k. xs ++ take k ys) (omega arith)))

  pub drop-length : (xs ys : List A) (n : ℕ) → n ≡ length xs → drop n (xs ++ ys) ≡ ys
  drop-length [] ys zero e = refl
  drop-length [] ys (suc n) e = absurd (omega arith)
  drop-length (x ∷ xs) ys zero e = absurd (omega arith)
  drop-length (x ∷ xs) ys (suc n) e = drop-length xs ys n (omega arith)

  pub take-slice : (xs : List A) (o n k : ℕ) → n ≤ k → take n (slice xs o k) ≡ slice xs o n
  take-slice [] o zero k h = refl
  take-slice [] o (suc n) k h = refl
  take-slice (x ∷ xs) (suc o) n k h = take-slice xs o n k h
  take-slice (x ∷ xs) zero zero k h = refl
  take-slice (x ∷ xs) zero (suc n) zero h = absurd (omega arith)
  take-slice (x ∷ xs) zero (suc n) (suc k) h =
      ap (λ t. x ∷ t) (take-slice xs zero n k (omega arith))

  pub slice-all : (xs : List A) → slice xs 0 (length xs) ≡ xs
  slice-all xs = slice_of_zero xs (length xs) ∙ take-all (length xs) xs (omega arith)

  pub slice-past : (xs : List A) (o n : ℕ) → length xs ≤ o → slice xs o n ≡ []
  slice-past [] o n h = refl
  slice-past (x ∷ xs) zero n h = absurd (omega arith)
  slice-past (x ∷ xs) (suc o) n h = slice-past xs o n (omega arith)

  -- Asking for more than is left gives what is left.
  pub slice-to_end :
      (xs : List A) (o n k : ℕ) → length xs ≤ o + k → k ≤ n → slice xs o n ≡ slice xs o k
  slice-to_end [] o n k h le = refl
  slice-to_end (x ∷ xs) (suc o) n k h le = slice-to_end xs o n k (omega arith) le
  slice-to_end (x ∷ xs) zero n zero h le = absurd (omega arith)
  slice-to_end (x ∷ xs) zero zero (suc k) h le = absurd (omega arith)
  slice-to_end (x ∷ xs) zero (suc n) (suc k) h le =
      ap (λ t. x ∷ t) (slice-to_end xs zero n k (omega arith) (omega arith))

  -- A run inside a run.
  pub slice-slice :
      (xs : List A) (o k p n : ℕ) → p + n ≤ k → slice (slice xs o k) p n ≡ slice xs (o + p) n
  slice-slice [] o k p n h = refl
  slice-slice (x ∷ xs) (suc o) k p n h =
      let down : suc o + p ≡ suc (o + p) = omega arith in rw down (slice-slice xs o k p n h)
  slice-slice (x ∷ xs) zero zero zero zero h = refl
  slice-slice (x ∷ xs) zero zero zero (suc n) h = absurd (omega arith)
  slice-slice (x ∷ xs) zero zero (suc p) n h = absurd (omega arith)
  slice-slice (x ∷ xs) zero (suc k) zero zero h = refl
  slice-slice (x ∷ xs) zero (suc k) zero (suc n) h =
      ap (λ t. x ∷ t) (slice-slice xs zero k zero n (omega arith))
  slice-slice (x ∷ xs) zero (suc k) (suc p) n h =
      let down : 0 + suc p ≡ suc (0 + p) = omega arith in
      rw down (slice-slice xs zero k p n (omega arith))

  -- A run of a join: its part of the first list, then its part of the second.
  pub slice-append :
      (xs ys : List A) (o n : ℕ)
      → slice (xs ++ ys) o n ≡ slice xs o n ++ slice ys (o - length xs) (n - (length xs - o))
  slice-append [] ys o n =
      let same : o - 0 ≡ o = omega arith in
      let all : n - (0 - o) ≡ n = omega arith in rw (same, all)
  slice-append (x ∷ xs) ys (suc o) n =
      let down : suc o - suc (length xs) ≡ o - length xs = omega arith in
      let gap : suc (length xs) - suc o ≡ length xs - o = omega arith in
      rw (down, gap) (slice-append xs ys o n)
  slice-append (x ∷ xs) ys zero zero =
      let over : 0 - (suc (length xs) - 0) ≡ 0 = omega arith in
      rw over (sym (slice-zero ys (0 - length (x ∷ xs))))
  slice-append (x ∷ xs) ys zero (suc n) =
      let front : 0 - suc (length xs) ≡ 0 - length xs = omega arith in
      let gap : suc n - (suc (length xs) - 0) ≡ n - (length xs - 0) = omega arith in
      rw (front, gap) (ap (λ t. x ∷ t) (slice-append xs ys zero n))

  pub append-nil_of : (xs ys : List A) → ys ≡ [] → xs ++ ys ≡ xs
  append-nil_of xs ys e = rw (e, append-nil)
