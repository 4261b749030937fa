-- ===== src/Ring/Search/Wrapped.antt =====
-- `rb_read_until_mem_iov` of src/ringbuffer.c with a pattern of two bytes, where the stored bytes go
-- round the end of the storage.
use mathlib.Core.Path.{ap₂}
use native.Mathlib.Decide.{dec_le, ℕ_discrete}
use asterisk_chan_quectel.Prelude.{
  ℕ, zero, suc, ◌+◌, ◌-◌, ◌≤◌, ◌<◌, ◌≡◌, ◌≢◌, refl, sym, ap, ◌∙◌, inl, inr, Bool, true, false, ◌&&◌,
  Option, none, some, List, [], ◌∷◌, ◌++◌, arith, length, length-slice, slice, sub_size, Bool-cases,
  Option-cases, take-le, take-append, take-slice, slice-slice, append-nil, slice-zero,
}
use asterisk_chan_quectel.Ring.{Ringbuffer, Iov, bytes_eq}
use asterisk_chan_quectel.Ring.Bounds.{IsValid}
use asterisk_chan_quectel.Ring.Contents.{contents, window_wrapped}
use asterisk_chan_quectel.Ring.Gather.{gather, bytes_eq_sound}
use asterisk_chan_quectel.Ring.Search.{
  memmem, straddle, after_straddle, until_mem_wrapped, rb_read_until_mem_iov,
}
use asterisk_chan_quectel.Ring.Search.Memmem.{IsFirst, memmem-IsFirst}
use asterisk_chan_quectel.Ring.Search.Pairs.{
  rb_read_until_mem_iov_straight, IsRight, Answers, IsFirst-near, IsFirst-mid, IsFirst-far, past,
}

pair_halves :
    (xs ys : List ℕ) (a b : ℕ)
    → length xs ≡ 1
    → xs ++ ys ≡ a ∷ b ∷ []
    → (xs ≡ a ∷ []) × (ys ≡ b ∷ [])
pair_halves [] ys a b h e = absurd (omega arith)
pair_halves (x ∷ []) ys a b h e = ground arith
pair_halves (x ∷ y ∷ xs) ys a b h e = absurd (omega arith)

-- The answer of the branch for stored bytes that go round the end of the storage, for a two-byte
-- pattern, by what each of its tests finds. The first part of what is stored is `k` bytes long.
module _ (rb : Ringbuffer) (iov : Iov) (a b k m : ℕ) (v : IsValid rb)
    (wrapped : rb.size < rb.read + rb.used) (k_is : k ≡ rb.size - rb.read)
    (m_is : m ≡ rb.read + rb.used - rb.size) where
  abbrev answer : ℕ × Iov
  answer = until_mem_wrapped rb iov (a ∷ b ∷ []) 2

  parts : contents rb ≡ slice rb.buffer rb.read k ++ slice rb.buffer 0 m
  parts = rw (k_is, m_is) (window_wrapped rb.buffer rb.size rb.read rb.used wrapped)

  -- The two bytes on either side of the end, as the code reads them.
  abbrev last : List ℕ
  last = slice rb.buffer (rb.read + (k - 1)) 1

  abbrev test : Bool
  test = bytes_eq last (a ∷ []) && bytes_eq (slice rb.buffer 0 1) (b ∷ [])

  answer_near :
      (p : ℕ)
      → p ≤ k
      → 2 ≤ k
      → memmem (slice rb.buffer rb.read k) (a ∷ b ∷ []) ≡ some p
      → (0 < answer.0) × (gather rb.buffer answer ≡ slice rb.buffer rb.read p)
  unfolding until_mem_wrapped gather
  answer_near p h two hit = let first : sub_size rb.size rb.read ≡ k = omega arith in ground (arith)

  answer_mid :
      memmem (slice rb.buffer rb.read k) (a ∷ b ∷ []) ≡ none
      → test ≡ true
      → (0 < answer.0) × (gather rb.buffer answer ≡ slice rb.buffer rb.read (k - 1))
  unfolding until_mem_wrapped gather straddle after_straddle
  answer_mid miss hit = let first : sub_size rb.size rb.read ≡ k = omega arith in ground (arith)

  answer_ended :
      memmem (slice rb.buffer rb.read k) (a ∷ b ∷ []) ≡ none → test ≡ false → m ≡ 1 → answer.0 ≡ 0
  unfolding until_mem_wrapped gather straddle after_straddle
  answer_ended miss miss' one =
      let first : sub_size rb.size rb.read ≡ k = omega arith in ground arith

  answer_none :
      memmem (slice rb.buffer rb.read k) (a ∷ b ∷ []) ≡ none
      → test ≡ false
      → m ≢ 1
      → memmem (slice rb.buffer 0 m) (a ∷ b ∷ []) ≡ none
      → answer.0 ≡ 0
  unfolding until_mem_wrapped gather straddle after_straddle
  answer_none miss miss' more miss'' =
      let first : sub_size rb.size rb.read ≡ k = omega arith in
      let second : sub_size rb.used k ≡ m = omega arith in ground arith

  answer_far_first :
      memmem (slice rb.buffer rb.read k) (a ∷ b ∷ []) ≡ none
      → test ≡ false
      → m ≢ 1
      → memmem (slice rb.buffer 0 m) (a ∷ b ∷ []) ≡ some 0
      → (0 < answer.0) × (gather rb.buffer answer ≡ slice rb.buffer rb.read k)
  unfolding until_mem_wrapped gather straddle after_straddle
  answer_far_first miss miss' more hit =
      let first : sub_size rb.size rb.read ≡ k = omega arith in
      let second : sub_size rb.used k ≡ m = omega arith in ground arith

  answer_far_later :
      (p : ℕ)
      → memmem (slice rb.buffer rb.read k) (a ∷ b ∷ []) ≡ none
      → test ≡ false
      → m ≢ 1
      → memmem (slice rb.buffer 0 m) (a ∷ b ∷ []) ≡ some (suc p)
      → (0 < answer.0)
        × (gather rb.buffer answer ≡ slice rb.buffer rb.read k ++ slice rb.buffer 0 (suc p))
  unfolding until_mem_wrapped gather straddle after_straddle
  answer_far_later p miss miss' more hit =
      let first : sub_size rb.size rb.read ≡ k = omega arith in
      let second : sub_size rb.used k ≡ m = omega arith in ground arith

  answer_far :
      (p : ℕ)
      → memmem (slice rb.buffer rb.read k) (a ∷ b ∷ []) ≡ none
      → test ≡ false
      → m ≢ 1
      → memmem (slice rb.buffer 0 m) (a ∷ b ∷ []) ≡ some p
      → (0 < answer.0)
        × (gather rb.buffer answer ≡ slice rb.buffer rb.read k ++ slice rb.buffer 0 p)
  answer_far zero miss miss' more hit =
      let (more', gathered) = answer_far_first miss miss' more hit in
      (more', rw (slice-zero rb.buffer 0, append-nil) gathered)
  answer_far (suc p) miss miss' more hit = answer_far_later p miss miss' more hit

  -- The same answers, as right ones.
  IsRight-near :
      (p : ℕ)
      → memmem (slice rb.buffer rb.read k) (a ∷ b ∷ []) ≡ some p
      → IsRight rb (a ∷ b ∷ []) answer
  IsRight-near p hit =
      let xs = slice rb.buffer rb.read k in
      let ys = slice rb.buffer 0 m in
      let at : IsFirst (a ∷ b ∷ []) xs (some p) =
        rw hit at (memmem-IsFirst xs (a ∷ b ∷ []) (omega arith)) in
      let size = length-slice rb.buffer rb.read k in
      let (found', gathered) = answer_near p (omega (arith, at.0.0)) (omega (arith, at.0.0)) hit in
      (
        some p,
        rw parts (IsFirst-near xs ys a b p at),
        (
          found',
          gathered
              ∙ rw (parts, take-le p xs ys (omega (arith, at.0.0)))
                  (sym (take-slice rb.buffer rb.read p k (omega (arith, at.0.0)))),
        ),
      )

  -- What the test of the two bytes around the end says.
  around :
      slice (slice rb.buffer rb.read k) (k - 1) 1 ++ slice (slice rb.buffer 0 m) 0 1
      ≡ last ++ slice rb.buffer 0 1
  around = rw (
    slice-slice rb.buffer rb.read k (k - 1) 1 (omega arith),
    slice-slice rb.buffer 0 m 0 1 (omega arith),
  )

  test-true :
      test ≡ true
      → slice (slice rb.buffer rb.read k) (k - 1) 1 ++ slice (slice rb.buffer 0 m) 0 1 ≡ a ∷ b ∷ []
  test-true t =
      around
      ∙ ap₂ ◌++◌ (bytes_eq_sound last (a ∷ []) (ground arith))
          (bytes_eq_sound (slice rb.buffer 0 1) (b ∷ []) (ground arith))

  test-false :
      test ≡ false
      → slice (slice rb.buffer rb.read k) (k - 1) 1 ++ slice (slice rb.buffer 0 m) 0 1 ≢ a ∷ b ∷ []
  test-false t e =
      let halves =
        pair_halves last (slice rb.buffer 0 1) a b
          (omega (arith, length-slice rb.buffer (rb.read + (k - 1)) 1)) (sym around ∙ e) in
      let hit : test ≡ true = rw (halves.0, halves.1) (unfold bytes_eq in ground arith) in cc

  IsRight-mid :
      memmem (slice rb.buffer rb.read k) (a ∷ b ∷ []) ≡ none
      → test ≡ true
      → IsRight rb (a ∷ b ∷ []) answer
  IsRight-mid miss t =
      let xs = slice rb.buffer rb.read k in
      let ys = slice rb.buffer 0 m in
      let clear : IsFirst (a ∷ b ∷ []) xs none =
        rw miss at (memmem-IsFirst xs (a ∷ b ∷ []) (omega arith)) in
      let size = length-slice rb.buffer rb.read k in
      let size' = length-slice rb.buffer 0 m in
      let (found', gathered) = answer_mid miss t in
      (
        some (k - 1),
        rw parts (IsFirst-mid xs ys a b (k - 1) clear (omega arith) (omega arith) (test-true t)),
        (
          found',
          gathered
              ∙ rw (parts, take-le (k - 1) xs ys (omega arith))
                  (sym (take-slice rb.buffer rb.read (k - 1) k (omega arith))),
        ),
      )

  far-Answers :
      memmem (slice rb.buffer rb.read k) (a ∷ b ∷ []) ≡ none
      → test ≡ false
      → (o : Option ℕ) → memmem (slice rb.buffer 0 m) (a ∷ b ∷ []) ≡ o
      → IsFirst (a ∷ b ∷ []) (slice rb.buffer 0 m) o
      → Answers rb answer (past (slice rb.buffer rb.read k) (slice rb.buffer 0 m) a b o)
  far-Answers miss t none hit later = elim (ℕ_discrete m 1) [
    | yes one ↦ answer_ended miss t one
    | no more ↦ answer_none miss t more hit
  ]
  far-Answers miss t (some p) hit later =
      let xs = slice rb.buffer rb.read k in
      let ys = slice rb.buffer 0 m in
      let size = length-slice rb.buffer rb.read k in
      let size' = length-slice rb.buffer 0 m in
      let back : length xs + p - length xs ≡ p = omega arith in
      let (found', gathered) = answer_far p miss t (omega (arith, later.0)) hit in
      (
        found',
        gathered
            ∙ rw (parts, take-append (length xs + p) xs ys (omega arith), back)
                (ap (λ z. xs ++ z) (sym (take-slice rb.buffer 0 p m (omega (arith, later.0))))),
      )

  IsRight-far :
      memmem (slice rb.buffer rb.read k) (a ∷ b ∷ []) ≡ none
      → test ≡ false
      → (o : Option ℕ) → memmem (slice rb.buffer 0 m) (a ∷ b ∷ []) ≡ o
      → IsRight rb (a ∷ b ∷ []) answer
  IsRight-far miss t o hit =
      let xs = slice rb.buffer rb.read k in
      let ys = slice rb.buffer 0 m in
      let clear : IsFirst (a ∷ b ∷ []) xs none =
        rw miss at (memmem-IsFirst xs (a ∷ b ∷ []) (omega arith)) in
      let later : IsFirst (a ∷ b ∷ []) ys o =
        rw hit at (memmem-IsFirst ys (a ∷ b ∷ []) (omega arith)) in
      let size = length-slice rb.buffer rb.read k in
      (
        past xs ys a b o,
        rw parts (IsFirst-far xs ys a b o (k - 1) clear (omega arith) (test-false t) later),
        far-Answers miss t o hit later,
      )

until_mem_goes_round :
    (rb : Ringbuffer) (iov : Iov) (a b : ℕ)
    → IsValid rb
    → rb.size < rb.read + rb.used
    → rb_read_until_mem_iov rb iov (a ∷ b ∷ []) 2 ≡ until_mem_wrapped rb iov (a ∷ b ∷ []) 2
unfolding rb_read_until_mem_iov
until_mem_goes_round rb iov a b v w = ground arith

IsRight-wrapped :
    (rb : Ringbuffer) (iov : Iov) (a b : ℕ)
    → IsValid rb
    → rb.size < rb.read + rb.used
    → IsRight rb (a ∷ b ∷ []) (until_mem_wrapped rb iov (a ∷ b ∷ []) 2)
IsRight-wrapped rb iov a b v w =
    let k = rb.size - rb.read in
    let m = rb.read + rb.used - rb.size in
    elim (Option-cases (memmem (slice rb.buffer rb.read k) (a ∷ b ∷ []))) [
      | inr (p, hit) ↦ IsRight-near rb iov a b k m v w refl refl p hit
      | inl miss ↦ elim (Bool-cases (test rb iov a b k m v w refl refl)) [
        | inl t ↦ IsRight-mid rb iov a b k m v w refl refl miss t
        | inr t ↦
            IsRight-far rb iov a b k m v w refl refl miss t
              (memmem (slice rb.buffer 0 m) (a ∷ b ∷ [])) refl
      ]
    ]

-- For a pattern of two bytes the answer of `rb_read_until_mem_iov` is right wherever the storage
-- wraps: it stands for the first place where the pattern occurs in all that the ring holds, and
-- gathers the bytes before it, or there is no such place and the answer is 0.
pub rb_read_until_mem_iov_pair :
    (rb : Ringbuffer) (iov : Iov) (a b : ℕ)
    → IsValid rb
    → IsRight rb (a ∷ b ∷ []) (rb_read_until_mem_iov rb iov (a ∷ b ∷ []) 2)
rb_read_until_mem_iov_pair rb iov a b v = elim (dec_le (rb.read + rb.used) rb.size) [
  | yes p ↦ rb_read_until_mem_iov_straight iov (a ∷ b ∷ []) v p (omega arith)
  | no p ↦
      rw (until_mem_goes_round rb iov a b v (omega arith))
        (IsRight-wrapped rb iov a b v (omega arith))
]
