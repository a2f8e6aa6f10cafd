-- ===== src/Base/Bits.antt =====
-- Bitwise and, or on the native numbers: the law for the lowest digit, and what follows for the
-- masks that the code uses.
use Prim.Native.Nat.{
  ℕ, zero, suc, ◌+◌, ◌-◌, ◌*◌, ◌/◌, ◌%◌, ◌^◌, ◌≤◌, ◌<◌, min, max, bit_and, bit_or, digits,
  bit_and-bitwise, bit_or-bitwise,
}
use mathlib.Core.Path.{◌≡◌, refl, ◌∙◌, ap, ap₂}
use native.Mathlib.Omega.{arith}
use native.Mathlib.Decide.{dec_le}
use native.Mathlib.Nat.{two-pow-succ}

-- Both operations are recursions on digits that differ in `z` and `f`.
module _ (z : ℕ → ℕ) (f : ℕ → ℕ → ℕ) (ends : (b : ℕ) → z b ≡ z (b / 2) * 2 + f 0 (b % 2)) where
  more_fuel : (n m a b : ℕ) → a ≤ n → a ≤ m → digits z f n a b ≡ digits z f m a b
  more_fuel zero zero a b p q = refl
  more_fuel zero (suc m) zero b p q = refl
  more_fuel zero (suc m) (suc a) b p q = absurd (omega arith)
  more_fuel (suc n) zero zero b p q = refl
  more_fuel (suc n) zero (suc a) b p q = absurd (omega arith)
  more_fuel (suc n) (suc m) zero b p q = refl
  more_fuel (suc n) (suc m) (suc a) b p q =
      ap (λ k. k * 2 + f (suc a % 2) (b % 2))
        (more_fuel n m (suc a / 2) (b / 2) (omega arith) (omega arith))

  lowest : (a b : ℕ) → digits z f a a b ≡ digits z f (a / 2) (a / 2) (b / 2) * 2 + f (a % 2) (b % 2)
  lowest zero b = ends b
  lowest (suc a) b =
      ap (λ k. k * 2 + f (suc a % 2) (b % 2))
        (more_fuel a (suc a / 2) (suc a / 2) (b / 2) (omega arith) (omega arith))

pub bit_and_step : (a b : ℕ) → bit_and a b ≡ bit_and (a / 2) (b / 2) * 2 + min (a % 2) (b % 2)
bit_and_step a b = omega (
  arith,
  bit_and-bitwise a b,
  bit_and-bitwise (a / 2) (b / 2),
  lowest (λ b. zero) min (λ b. omega arith) a b,
)

pub bit_or_step : (a b : ℕ) → bit_or a b ≡ bit_or (a / 2) (b / 2) * 2 + max (a % 2) (b % 2)
bit_or_step a b = omega (
  arith,
  bit_or-bitwise a b,
  bit_or-bitwise (a / 2) (b / 2),
  lowest (λ b. b) max (λ b. omega arith) a b,
)

zero-bit_and : (b : ℕ) → bit_and 0 b ≡ 0
zero-bit_and b = bit_and-bitwise 0 b

zero-bit_or : (b : ℕ) → bit_or 0 b ≡ b
zero-bit_or b = bit_or-bitwise 0 b

-- Induction on the value halved, as a bound that falls.
bit_and-le_fuel : (n a b : ℕ) → a ≤ n → bit_and a b ≤ b
bit_and-le_fuel n zero b h = omega (arith, zero-bit_and b)
bit_and-le_fuel zero (suc a) b h = absurd (omega arith)
bit_and-le_fuel (suc n) (suc a) b h =
    omega (arith, bit_and_step (suc a) b, bit_and-le_fuel n (suc a / 2) (b / 2) (omega arith))

pub bit_and-le : (a b : ℕ) → bit_and a b ≤ b
bit_and-le a b = bit_and-le_fuel a a b (omega arith)

le-bit_or_fuel : (n a b : ℕ) → a ≤ n → (a ≤ bit_or a b) × (b ≤ bit_or a b)
le-bit_or_fuel n zero b h = omega (arith, zero-bit_or b)
le-bit_or_fuel zero (suc a) b h = absurd (omega arith)
le-bit_or_fuel (suc n) (suc a) b h =
    let ih = le-bit_or_fuel n (suc a / 2) (b / 2) (omega arith) in
    omega (arith, bit_or_step (suc a) b, ih.0, ih.1)

pub le-bit_or : (a b : ℕ) → (a ≤ bit_or a b) × (b ≤ bit_or a b)
le-bit_or a b = le-bit_or_fuel a a b (omega arith)

zero_of : (i : ℕ) → i < 1 → i ≡ 0
zero_of i h = omega arith

module _ (k p i : ℕ) where
  -- How a field and the mask behind it look one digit further up.
  field-mul : p * 2 ^ suc k ≡ p * 2 ^ k + p * 2 ^ k
  field-mul = omega (arith, ap (λ t. p * t) (two-pow-succ k))

  field-div : (p * 2 ^ suc k + i) / 2 ≡ p * 2 ^ k + i / 2
  field-div = omega (arith, field-mul)

  field-mod : (p * 2 ^ suc k + i) % 2 ≡ i % 2
  field-mod = omega (arith, field-mul)

no_low-div : (k p : ℕ) → (p * 2 ^ suc k) / 2 ≡ p * 2 ^ k
no_low-div k p = omega (arith, field-mul k p 0)

no_low-mod : (k p : ℕ) → (p * 2 ^ suc k) % 2 ≡ 0
no_low-mod k p = omega (arith, field-mul k p 0)

bit_or-zero_fuel : (n a : ℕ) → a ≤ n → bit_or a 0 ≡ a
bit_or-zero_fuel n zero h = zero-bit_or 0
bit_or-zero_fuel zero (suc a) h = absurd (omega arith)
bit_or-zero_fuel (suc n) (suc a) h =
    omega (arith, bit_or_step (suc a) 0, bit_or-zero_fuel n (suc a / 2) (omega arith))

pub bit_or-zero : (a : ℕ) → bit_or a 0 ≡ a
bit_or-zero a = bit_or-zero_fuel a a (omega arith)

mask-div : (k : ℕ) → (2 ^ suc k - 1) / 2 ≡ 2 ^ k - 1
mask-div k = omega (arith, two-pow-succ k)

pow_pos : (k : ℕ) → 0 < 2 ^ k
pow_pos zero = omega arith
pow_pos (suc k) = omega (arith, two-pow-succ k, pow_pos k)

mask-mod : (k : ℕ) → (2 ^ suc k - 1) % 2 ≡ 1
mask-mod k = omega (arith, two-pow-succ k, pow_pos k)

half_lt : (k i : ℕ) → i < 2 ^ suc k → i / 2 < 2 ^ k
half_lt k i h = omega (arith, two-pow-succ k)

-- `x & (2^k - 1)` keeps the low `k` bits, and drops anything that stands above them.
pub bit_and-low : (k p i : ℕ) → i < 2 ^ k → bit_and (p * 2 ^ k + i) (2 ^ k - 1) ≡ i
bit_and-low zero p i h = omega (arith, bit_and-le (p * 1 + i) 0)
bit_and-low (suc k) p i h = omega (
  arith,
  bit_and_step (p * 2 ^ suc k + i) (2 ^ suc k - 1),
  ap₂ bit_and (field-div k p i) (mask-div k),
  bit_and-low k p (i / 2) (half_lt k i h),
  field-mod k p i,
  mask-mod k,
)

-- Fields that do not overlap: `|` is `+`.
pub bit_or-fields : (k p i : ℕ) → i < 2 ^ k → bit_or (p * 2 ^ k) i ≡ p * 2 ^ k + i
bit_or-fields zero p i h = omega (arith, ap (bit_or (p * 1)) (zero_of i h), bit_or-zero (p * 1))
bit_or-fields (suc k) p i h = omega (
  arith,
  bit_or_step (p * 2 ^ suc k) i,
  ap (λ t. bit_or t (i / 2)) (no_low-div k p),
  bit_or-fields k p (i / 2) (half_lt k i h),
  no_low-mod k p,
  field-mul k p 0,
)

-- A mask of ones above the low `k` bits keeps a field above them.
pub bit_and-high :
    (k p q i : ℕ) → i < 2 ^ k → bit_and (p * 2 ^ k + i) (q * 2 ^ k) ≡ bit_and p q * 2 ^ k
bit_and-high zero p q i h =
    let e : p * 1 + i ≡ p = omega arith in
    let f : q * 1 ≡ q = omega arith in omega (arith, ap₂ bit_and e f)
bit_and-high (suc k) p q i h = omega (
  arith,
  bit_and_step (p * 2 ^ suc k + i) (q * 2 ^ suc k),
  ap₂ bit_and (field-div k p i) (no_low-div k q),
  bit_and-high k p q (i / 2) (half_lt k i h),
  no_low-mod k q,
  field-mul k (bit_and p q) 0,
)

pub bit_and-mask : (k i : ℕ) → i < 2 ^ k → bit_and i (2 ^ k - 1) ≡ i
bit_and-mask k i h =
    let e : i ≡ 0 * 2 ^ k + i = omega arith in
    ap (λ t. bit_and t (2 ^ k - 1)) e ∙ bit_and-low k 0 i h

pow_factor : (n k : ℕ) → k ≤ n → 2 ^ n ≡ 2 ^ (n - k) * 2 ^ k
pow_factor zero k h = let e : k ≡ 0 = omega arith in rw e
pow_factor (suc n) k h = elim (dec_le k n) [
  | yes low ↦
      let up : suc n - k ≡ suc (n - k) = omega arith in
      rw up (
        omega
          (arith, pow_factor n k low, two-pow-succ n, ap (λ t. t * 2 ^ k) (two-pow-succ (n - k))))
  | no high ↦
      let e : k ≡ suc n = omega arith in
      let z : suc n - suc n ≡ 0 = omega arith in rw (e, z) (omega arith)
]

-- The low `k` bits under a field that begins further up, at the bit `n`.
pub bit_and-low_under : (n k p i : ℕ) → k ≤ n → i < 2 ^ k → bit_and (p * 2 ^ n + i) (2 ^ k - 1) ≡ i
bit_and-low_under n k p i h hi =
    let e : p * 2 ^ n + i ≡ p * 2 ^ (n - k) * 2 ^ k + i =
      omega (arith, ap (λ t. p * t) (pow_factor n k h)) in
    ap (λ t. bit_and t (2 ^ k - 1)) e ∙ bit_and-low k (p * 2 ^ (n - k)) i hi

pub pow_le : (n k : ℕ) → k ≤ n → 2 ^ k ≤ 2 ^ n
pow_le zero k h = let e : k ≡ 0 = omega arith in rw e (omega arith)
pow_le (suc n) k h = elim (dec_le k n) [
  | yes low ↦ omega (arith, pow_le n k low, two-pow-succ n)
  | no high ↦ let e : k ≡ suc n = omega arith in rw e (omega arith)
]
