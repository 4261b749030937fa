-- ===== src/Prelude/Bits.antt =====
-- Masks and disjoint joins of bits as arithmetic, for every width.
use Prim.Native.Nat.{
  ℕ, zero, suc, ◌+◌, ◌*◌, ◌/◌, ◌%◌, ◌^◌, ◌≤◌, ◌<◌, min, max, bit_and, bit_or, digits,
  bit_and-bitwise, bit_or-bitwise,
}
use mathlib.Core.Path.{◌≡◌, refl, ap}
use mathlib.Core.Bool.{Bool, true, ◌&&◌}
use native.Mathlib.Omega.{arith}
use native.Mathlib.Nat.{two-pow-succ}

-- The count of digits to go does not matter once it covers the first number.
digits-enough :
    (z : ℕ → ℕ) (f : ℕ → ℕ → ℕ) (n m a b : ℕ) → a ≤ n → a ≤ m → digits z f n a b ≡ digits z f m a b
digits-enough z f zero zero a b h k = refl
digits-enough z f zero (suc m) zero b h k = refl
digits-enough z f (suc n) zero zero b h k = refl
digits-enough z f (suc n) (suc m) zero b h k = refl
digits-enough z f zero m (suc a) b h k = absurd (omega arith)
digits-enough z f (suc n) zero (suc a) b h k = absurd (omega arith)
digits-enough z f (suc n) (suc m) (suc a) b h k =
    ap (λ t. t * 2 + f (suc a % 2) (b % 2))
      (digits-enough z f n m (suc a / 2) (b / 2) (omega arith) (omega arith))

zero-bit_and : (b : ℕ) → bit_and 0 b ≡ 0
zero-bit_and b = bit_and-bitwise 0 b

zero-bit_or : (b : ℕ) → bit_or 0 b ≡ b
zero-bit_or b = bit_or-bitwise 0 b

module _ (z : ℕ → ℕ) (f op : ℕ → ℕ → ℕ) (digitwise : (a b : ℕ) → op a b ≡ digits z f a a b) where
  -- The lowest digit of a positive first number, and the rest.
  halved : (a b : ℕ) → op (suc a) b ≡ op (suc a / 2) (b / 2) * 2 + f (suc a % 2) (b % 2)
  halved a b =
      let shorter =
        digits-enough z f a (suc a / 2) (suc a / 2) (b / 2) (omega arith) (omega arith) in
      omega (arith, digitwise (suc a) b, digitwise (suc a / 2) (b / 2), shorter)

pub bit_and-halve : (a b : ℕ) → bit_and a b ≡ bit_and (a / 2) (b / 2) * 2 + min (a % 2) (b % 2)
bit_and-halve zero b = omega (arith, zero-bit_and b, zero-bit_and (b / 2))
bit_and-halve (suc a) b = halved (λ _. zero) min bit_and bit_and-bitwise a b

pub bit_or-halve : (a b : ℕ) → bit_or a b ≡ bit_or (a / 2) (b / 2) * 2 + max (a % 2) (b % 2)
bit_or-halve zero b = omega (arith, zero-bit_or b, zero-bit_or (b / 2))
bit_or-halve (suc a) b = halved (λ t. t) max bit_or bit_or-bitwise a b

zero_and : (room v : ℕ) → v ≤ room → bit_and v 0 ≡ 0
zero_and room zero fits = refl
zero_and zero (suc v) fits = absurd (omega arith)
zero_and (suc room) (suc v) fits =
    let half = zero_and room (suc v / 2) (omega arith) in
    omega (arith, bit_and-halve (suc v) 0, half)

pub bit_and-zero : (v : ℕ) → bit_and v 0 ≡ 0
bit_and-zero v = zero_and v v (omega arith)

zero_or : (room v : ℕ) → v ≤ room → bit_or v 0 ≡ v
zero_or room zero fits = refl
zero_or zero (suc v) fits = absurd (omega arith)
zero_or (suc room) (suc v) fits =
    let half = zero_or room (suc v / 2) (omega arith) in omega (arith, bit_or-halve (suc v) 0, half)

pub bit_or-zero : (v : ℕ) → bit_or v 0 ≡ v
bit_or-zero v = zero_or v v (omega arith)

pub pow-positive : (k : ℕ) → 0 < 2 ^ k
pow-positive zero = omega arith
pow-positive (suc k) = omega (arith, two-pow-succ k, pow-positive k)

-- A mask of k ones keeps the low k bits.
pub low1 : (a : ℕ) → bit_and a 1 ≡ a % 2
low1 a = omega (arith, bit_and-halve a 1, bit_and-zero (a / 2))

pub low2 : (a : ℕ) → bit_and a 3 ≡ a % 4
low2 a = omega (arith, bit_and-halve a 3, low1 (a / 2))

pub low3 : (a : ℕ) → bit_and a 7 ≡ a % 8
low3 a = omega (arith, bit_and-halve a 7, low2 (a / 2))

pub low4 : (a : ℕ) → bit_and a 15 ≡ a % 16
low4 a = omega (arith, bit_and-halve a 15, low3 (a / 2))

pub low5 : (a : ℕ) → bit_and a 31 ≡ a % 32
low5 a = omega (arith, bit_and-halve a 31, low4 (a / 2))

pub low6 : (a : ℕ) → bit_and a 63 ≡ a % 64
low6 a = omega (arith, bit_and-halve a 63, low5 (a / 2))

pub low7 : (a : ℕ) → bit_and a 127 ≡ a % 128
low7 a = omega (arith, bit_and-halve a 127, low6 (a / 2))

pub low8 : (a : ℕ) → bit_and a 255 ≡ a % 256
low8 a = omega (arith, bit_and-halve a 255, low7 (a / 2))

-- A number below 2 ^ k and a multiple of 2 ^ k share no bit.
pub bit_or-disjoint : (k v c : ℕ) → v < 2 ^ k → bit_or v (c * 2 ^ k) ≡ v + c * 2 ^ k
bit_or-disjoint zero zero c h = omega (arith, zero-bit_or (c * 2 ^ 0))
bit_or-disjoint zero (suc v) c h = absurd (omega arith)
bit_or-disjoint (suc k) v c h =
    let double : c * 2 ^ suc k ≡ c * 2 ^ k * 2 =
      omega (arith, ap (λ (t : ℕ). c * t) (two-pow-succ k)) in
    let half : c * 2 ^ suc k / 2 ≡ c * 2 ^ k = omega arith in
    omega (
      arith,
      bit_or-halve v (c * 2 ^ suc k),
      double,
      half,
      ap (bit_or (v / 2)) half,
      bit_or-disjoint k (v / 2) c (omega (arith, two-pow-succ k)),
    )

bit_and-even : (a m n : ℕ) → n ≡ m * 2 → bit_and a n ≡ bit_and (a / 2) m * 2
bit_and-even a m n e =
    let half : n / 2 ≡ m = omega arith in
    let even : n % 2 ≡ 0 = omega arith in
    omega (arith, bit_and-halve a n, ap (bit_and (a / 2)) half)

high_nibble : (a : ℕ) → bit_and a 0xff0 ≡ bit_and (a / 2 / 2 / 2 / 2) 0xff * 16
high_nibble a = omega (
  arith,
  bit_and-even a 0x7f8 0xff0 (omega arith),
  bit_and-even (a / 2) 0x3fc 0x7f8 (omega arith),
  bit_and-even (a / 2 / 2) 0x1fe 0x3fc (omega arith),
  bit_and-even (a / 2 / 2 / 2) 0xff 0x1fe (omega arith),
)

-- The high byte of a 16-bit word.
pub high_byte : (a : ℕ) → a < 65536 → bit_and a 0xff00 / 256 ≡ a / 256
high_byte a h = omega (
  arith,
  bit_and-even a 0x7f80 0xff00 (omega arith),
  bit_and-even (a / 2) 0x3fc0 0x7f80 (omega arith),
  bit_and-even (a / 2 / 2) 0x1fe0 0x3fc0 (omega arith),
  bit_and-even (a / 2 / 2 / 2) 0xff0 0x1fe0 (omega arith),
  high_nibble (a / 2 / 2 / 2 / 2),
  low8 (a / 2 / 2 / 2 / 2 / 2 / 2 / 2 / 2),
)

-- Whether a test holds of every number under a limit, to be evaluated where the limit is small.
unfoldable pub all_below : ℕ → (ℕ → Bool) → Bool
all_below zero test = true
all_below (suc top) test = test top && all_below top test

pub all_below_sound :
    (limit : ℕ) (test : ℕ → Bool) (v : ℕ) → all_below limit test ≡ true → v < limit → test v ≡ true
unfolding all_below
all_below_sound zero test v passed under = absurd (omega arith)
all_below_sound (suc top) test v passed under = ground (arith, all_below_sound top test v)
