-- ===== src/Ring/Search/Pairs.antt =====
-- `rb_read_until_mem_iov` of src/ringbuffer.c against the first occurrence in all that the ring
-- holds: for every pattern while the stored bytes do not go round the end of the storage, and for
-- the two-byte patterns wherever they stand; and what it misses for longer ones.
use native.Mathlib.Decide.{dec_le, ℕ_discrete}
use asterisk_chan_quectel.Prelude.{
  ℕ, ◌+◌, ◌-◌, ◌≤◌, ◌<◌, ◌≡◌, ◌≢◌, sym, ap, ◌∙◌, inl, inr, Option, none, some, List, [], ◌∷◌, ◌++◌,
  arith, length, length-append, length-slice, slice, take, Option-cases, take-slice, slice-all,
  slice-append, slice-past, slice-to_end, append-nil, slice-zero,
}
use asterisk_chan_quectel.Ring.{Ringbuffer, Iov}
use asterisk_chan_quectel.Ring.Bounds.{IsValid}
use asterisk_chan_quectel.Ring.Contents.{contents, window_straight}
use asterisk_chan_quectel.Ring.Gather.{gather}
use asterisk_chan_quectel.Ring.Search.{memmem, rb_read_until_mem_iov}
use asterisk_chan_quectel.Ring.Search.Memmem.{Occurs, IsFirst, memmem-IsFirst}

-- The answer `r` stands for the place `o`: what it gathers are the bytes before it.
abbrev pub Answers : Ringbuffer → ℕ × Iov → Option ℕ → Type 0
Answers rb r none = r.0 ≡ 0
Answers rb r (some p) = (0 < r.0) × (gather rb.buffer r ≡ take p (contents rb))

-- The answer is right: it stands for the first place where `s` occurs in what the ring holds.
abbrev pub IsRight : Ringbuffer → List ℕ → ℕ × Iov → Type 0
IsRight rb s r = (o : Option ℕ) × IsFirst s (contents rb) o × Answers rb r o

-- While the stored bytes do not go round the end of the storage, the answer is right for every
-- pattern of two bytes or more.
pub rb_read_until_mem_iov_straight :
    {rb : Ringbuffer} (iov : Iov) (mem : List ℕ)
    → IsValid rb
    → rb.read + rb.used ≤ rb.size
    → 2 ≤ length mem
    → IsRight rb mem (rb_read_until_mem_iov rb iov mem (length mem))
unfolding rb_read_until_mem_iov gather
rb_read_until_mem_iov_straight {rb} iov mem v q n =
    let flat = window_straight rb.buffer rb.size rb.read rb.used q in
    let first = memmem-IsFirst (contents rb) mem (omega arith) in
    elim (Option-cases (memmem (contents rb) mem)) [
      | inl miss ↦
          let miss' : memmem (slice rb.buffer rb.read rb.used) mem ≡ none = rw flat at miss in
          (none, rw miss at first, ground (arith, slice-all mem))
      | inr (p, hit) ↦
          let hit' : memmem (slice rb.buffer rb.read rb.used) mem ≡ some p = rw flat at hit in
          let at : IsFirst mem (contents rb) (some p) = rw hit at first in
          let size : length (contents rb) ≤ rb.used =
            rw flat (omega (arith, length-slice rb.buffer rb.read rb.used)) in
          let inside : p + length mem ≤ rb.used = omega (arith, at.0.0) in
          (
            some p,
            at,
            rw flat (ground (arith, slice-all mem, take-slice rb.buffer rb.read p rb.used)),
          )
    ]

-- Places of a two-byte pattern in a join.
module _ (xs ys : List ℕ) (a b : ℕ) where
  pub pair_near : (q : ℕ) → q + 2 ≤ length xs → slice (xs ++ ys) q 2 ≡ slice xs q 2
  pair_near q h =
      let none_left : 2 - (length xs - q) ≡ 0 = omega arith in
      slice-append xs ys q 2
      ∙ rw none_left (rw (slice-zero ys (q - length xs)) (append-nil (slice xs q 2)))

  pub pair_far : (q : ℕ) → length xs ≤ q → slice (xs ++ ys) q 2 ≡ slice ys (q - length xs) 2
  pair_far q h =
      let all_left : 2 - (length xs - q) ≡ 2 = omega arith in
      slice-append xs ys q 2 ∙ rw (all_left, slice-past xs q 2 h)

  pub pair_mid : (q : ℕ) → q + 1 ≡ length xs → slice (xs ++ ys) q 2 ≡ slice xs q 1 ++ slice ys 0 1
  pair_mid q h =
      let one_left : 2 - (length xs - q) ≡ 1 = omega arith in
      let start : q - length xs ≡ 0 = omega arith in
      slice-append xs ys q 2
      ∙ rw (one_left, start)
          (ap (λ t. t ++ slice ys 0 1) (slice-to_end xs q 2 1 (omega arith) (omega arith)))

  pub IsFirst-near :
      (p : ℕ) → IsFirst (a ∷ b ∷ []) xs (some p) → IsFirst (a ∷ b ∷ []) (xs ++ ys) (some p)
  IsFirst-near p (at, before) =
      let joined = length-append xs ys in
      (
        (omega arith, pair_near p (omega (arith, at.0)) ∙ at.1),
        λ q lt o. before q lt (omega (arith, at.0), sym (pair_near q (omega (arith, at.0))) ∙ o.1),
      )

  not_before :
      IsFirst (a ∷ b ∷ []) xs none
      → (q : ℕ) → q + 1 < length xs
      → ¬ Occurs (a ∷ b ∷ []) (xs ++ ys) q
  not_before clear q lt o = clear q (omega arith, sym (pair_near q (omega arith)) ∙ o.1)

  pub IsFirst-mid :
      (q : ℕ)
      → IsFirst (a ∷ b ∷ []) xs none
      → q + 1 ≡ length xs
      → 0 < length ys
      → slice xs q 1 ++ slice ys 0 1 ≡ a ∷ b ∷ []
      → IsFirst (a ∷ b ∷ []) (xs ++ ys) (some q)
  IsFirst-mid q clear e more split =
      let joined = length-append xs ys in
      ((omega arith, pair_mid q e ∙ split), λ j lt o. not_before clear j (omega arith) o)

  -- A place counted from the start of the join.
  abbrev pub past : Option ℕ → Option ℕ
  past none = none
  past (some p) = some (length xs + p)

  not_past :
      (r q : ℕ)
      → IsFirst (a ∷ b ∷ []) xs none
      → q + 1 ≡ length xs
      → slice xs q 1 ++ slice ys 0 1 ≢ a ∷ b ∷ []
      → (length xs ≤ r → ¬ Occurs (a ∷ b ∷ []) ys (r - length xs))
      → ¬ Occurs (a ∷ b ∷ []) (xs ++ ys) r
  not_past r q clear e split far o =
      let joined = length-append xs ys in
      elim (dec_le (length xs) r) [
        | yes h ↦ far h (omega (arith, o.0), sym (pair_far r h) ∙ o.1)
        | no h ↦ elim (ℕ_discrete r q) [
          | yes same ↦ split (sym (pair_mid q e) ∙ rw same at (o.1))
          | no other ↦ not_before clear r (omega arith) o
        ]
      ]

  pub IsFirst-far :
      (o : Option ℕ) (q : ℕ)
      → IsFirst (a ∷ b ∷ []) xs none
      → q + 1 ≡ length xs
      → slice xs q 1 ++ slice ys 0 1 ≢ a ∷ b ∷ []
      → IsFirst (a ∷ b ∷ []) ys o
      → IsFirst (a ∷ b ∷ []) (xs ++ ys) (past o)
  IsFirst-far none q clear e split far = λ r. not_past r q clear e split (λ _. far (r - length xs))
  IsFirst-far (some p) q clear e split (at, before) =
      let joined = length-append xs ys in
      let back : length xs + p - length xs ≡ p = omega arith in
      (
        (omega (arith, at.0), pair_far (length xs + p) (omega arith) ∙ rw back (at.1)),
        λ r lt. not_past r q clear e split (λ h. before (r - length xs) (omega arith)),
      )
