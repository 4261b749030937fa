-- ===== src/CharConv/Septets.antt =====
-- The packing of src/char_conv.c as arithmetic.
use asterisk_chan_quectel.Prelude.{
  ℕ, zero, suc, ◌+◌, ◌-◌, ◌*◌, ◌/◌, ◌%◌, ◌^◌, ◌≤◌, ◌<◌, ◌≡◌, refl, ap, ◌∙◌, List, [], ◌∷◌, leb,
  if◌then◌else◌, bit_and, bit_or, length, take, All, arith, low4, low8, bit_or-disjoint,
  pow-positive, if-elim,
}
use native.Mathlib.Nat.{two-pow-succ}
use asterisk_chan_quectel.CharConv.Pack.{pack_loop, nibbles_of}

-- The number whose digits these are, the lowest first.
unfoldable pub number : ℕ → List ℕ → ℕ
number base [] = 0
number base (d ∷ ds) = d + base * number base ds

-- The bits under way after one more septet.
abbrev join : ℕ → ℕ → ℕ → ℕ
join v s p = bit_or v (s * 2 ^ p)

pub join_lem : (v s p : ℕ) → v < 2 ^ p → join v s p ≡ v + s * 2 ^ p
join_lem v s p h = bit_or-disjoint p v s h

-- Enough room for a septet and what is under way.
join_small : (v s p : ℕ) → v < 2 ^ p → s < 128 → join v s p < 128 * 2 ^ p
join_small v s p h small =
    let top : s * 2 ^ p + 2 ^ p ≤ 128 * 2 ^ p = grind arith in omega (arith, join_lem v s p h)

pub pow_below : (k p : ℕ) → p ≤ k → 2 ^ p ≤ 2 ^ k
pow_below zero zero h = omega arith
pow_below zero (suc p) h = absurd (omega arith)
pow_below (suc k) zero h = pow-positive (suc k)
pow_below (suc k) (suc p) h =
    omega (arith, two-pow-succ k, two-pow-succ p, pow_below k p (omega arith))

pub pow-add : (a b : ℕ) → 2 ^ (a + b) ≡ 2 ^ a * 2 ^ b
pow-add zero b = let none_up : 0 + b ≡ b = omega arith in rw none_up (omega arith)
pow-add (suc a) b =
    let up : suc a + b ≡ suc (a + b) = omega arith in
    let scaled = ap (λ (t : ℕ). t * 2 ^ b) (two-pow-succ a) in
    rw up (omega (arith, two-pow-succ (a + b), pow-add a b, scaled))

-- The bytes that `gsm7_pack` puts out, read as one number with the lowest byte first, are the septets
-- read as one number, moved up by the padding.
pub pack_loop-number :
    (ss : List ℕ) (v p : ℕ)
    → All (λ s. s < 128) ss
    → p < 8
    → v < 2 ^ p
    → number 256 (pack_loop ss v p).0 ≡ v + 2 ^ p * number 128 ss
unfolding pack_loop number
pack_loop-number [] v zero all h small = omega arith
pack_loop-number [] v (suc k) all h small =
    let low : v < 256 = omega (arith, pow_below 8 (suc k) (omega arith)) in grind (arith, low8 v)
pack_loop-number (s ∷ ss) v zero (b, bs) h small = omega (
  arith,
  join_lem v s 0 small,
  pack_loop-number ss (join v s 0) 7 bs (omega arith) (omega (arith, join_lem v s 0 small)),
)
pack_loop-number (s ∷ ss) v (suc k) (b, bs) h small =
    let v' = join v s (suc k) in
    let bound = join_small v s (suc k) small b in
    let twice = two-pow-succ k in
    let rest = pack_loop-number ss (v' / 256) k bs (omega arith) (omega (arith, twice)) in
    let out : number 256 (pack_loop (s ∷ ss) v (suc k)).0
        ≡ bit_and v' 0xff + 256 * number 256 (pack_loop ss (v' / 256) k).0 =
      ground arith in
    let scaled = ap (λ (t : ℕ). t * number 128 ss) twice in
    omega (arith, out, rest, low8 v', join_lem v s (suc k) small, scaled)

pub pack_loop-length :
    (ss : List ℕ) (v p : ℕ)
    → p < 8
    → (length (pack_loop ss v p).0 ≡ (p + 7 * length ss + 7) / 8)
      × ((pack_loop ss v p).1 ≡ (p + 7 * length ss) % 8)
unfolding pack_loop
pack_loop-length [] v zero h = omega arith
pack_loop-length [] v (suc k) h = grind arith
pack_loop-length (s ∷ ss) v zero h =
    let (l, e) = pack_loop-length ss (join v s 0) 7 (omega arith) in ground arith
pack_loop-length (s ∷ ss) v (suc k) h =
    let (l, e) = pack_loop-length ss (join v s (suc k) / 256) k (omega arith) in ground arith

pub pack_loop-bytes : (ss : List ℕ) (v p : ℕ) → All (λ b. b < 256) (pack_loop ss v p).0
unfolding pack_loop
pack_loop-bytes [] v zero = omega arith
pack_loop-bytes [] v (suc k) = ground (arith, low8 v)
pack_loop-bytes (s ∷ ss) v p =
    let full = leb 8 (p + 7) in
    let v' = join v s p in
    let rest =
      pack_loop-bytes ss (if full then v' / 256 else v') (if full then p + 7 - 8 else p + 7) in
    if-elim (All (λ b. b < 256)) full (λ _. (omega (arith, low8 v'), rest)) (λ _. rest)

pub number-nibbles_of :
    (bs : List ℕ) → All (λ b. b < 256) bs → number 16 (nibbles_of bs) ≡ number 256 bs
unfolding number nibbles_of
number-nibbles_of [] h = refl
number-nibbles_of (b ∷ bs) (h, hs) = omega (arith, low4 b, low4 (b / 16), number-nibbles_of bs hs)

pub nibbles_small : (bs : List ℕ) → All (λ n. n < 16) (nibbles_of bs)
unfolding nibbles_of
nibbles_small [] = omega arith
nibbles_small (b ∷ bs) = (omega (arith, low4 b), (omega (arith, low4 (b / 16)), nibbles_small bs))

pub length-nibbles_of : (bs : List ℕ) → length (nibbles_of bs) ≡ 2 * length bs
unfolding nibbles_of
length-nibbles_of [] = refl
length-nibbles_of (b ∷ bs) = omega (arith, length-nibbles_of bs)

pub number-take :
    (k : ℕ) (ns : List ℕ) → number 16 ns < 2 ^ (4 * k) → number 16 (take k ns) ≡ number 16 ns
unfolding number
number-take zero ns h = omega arith
number-take (suc k) [] h = refl
number-take (suc k) (n ∷ ns) h =
    let wide : 2 ^ (4 * suc k) ≡ 16 * 2 ^ (4 * k) =
      ap (λ t. 2 ^ t) {x = 4 * suc k} {y = 4 + 4 * k} (omega arith) ∙ pow-add 4 (4 * k) in
    omega (arith, number-take k ns (omega (arith, wide)))

pub number_small : (ss : List ℕ) → All (λ s. s < 128) ss → number 128 ss < 2 ^ (7 * length ss)
unfolding number
number_small [] h = omega arith
number_small (s ∷ ss) (h, hs) =
    let wide : 2 ^ (7 * suc (length ss)) ≡ 128 * 2 ^ (7 * length ss) =
      ap (λ t. 2 ^ t) {x = 7 * suc (length ss)} {y = 7 + 7 * length ss} (omega arith)
      ∙ pow-add 7 (7 * length ss) in
    omega (arith, wide, number_small ss hs)
