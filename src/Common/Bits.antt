-- ===== src/Common/Bits.antt =====
-- `&` and `|` as arithmetic: both work on the digits above and below a position separately.
use Prim.Native.Nat.{
  ℕ, zero, suc, ◌+◌, ◌-◌, ◌*◌, ◌/◌, ◌%◌, ◌^◌, ◌≤◌, ◌<◌, min, max, bit_and, bit_or, digits,
  bit_and-bitwise, bit_or-bitwise,
}
use mathlib.Core.Path.{◌≡◌, refl, ap}
use native.Mathlib.Omega.{arith}
use native.Mathlib.Nat.{pow-suc, one-le-pow}

-- The native operations recur on binary digits with the first operand for fuel; any fuel that is
-- not below the operand gives the same digits.
module _ (rest : ℕ → ℕ) (digit : ℕ → ℕ → ℕ) where
  fuel_irrelevant :
      (f g a b : ℕ) → a ≤ f → a ≤ g → digits rest digit f a b ≡ digits rest digit g a b
  fuel_irrelevant zero zero a b hf hg = refl
  fuel_irrelevant zero (suc g) zero b hf hg = refl
  fuel_irrelevant zero (suc g) (suc a) b hf hg = absurd (omega arith)
  fuel_irrelevant (suc f) zero zero b hf hg = refl
  fuel_irrelevant (suc f) zero (suc a) b hf hg = absurd (omega arith)
  fuel_irrelevant (suc f) (suc g) zero b hf hg = refl
  fuel_irrelevant (suc f) (suc g) (suc a) b hf hg =
      rw (fuel_irrelevant f g (suc a / 2) (b / 2) (omega arith) (omega arith))

pub bit_and_digit : (a b : ℕ) → bit_and a b ≡ bit_and (a / 2) (b / 2) * 2 + min (a % 2) (b % 2)
bit_and_digit zero b = simp bit_and-bitwise (omega arith)
bit_and_digit (suc a) b = simp bit_and-bitwise (
    omega (
      arith,
      fuel_irrelevant (λ _. 0) min a (suc a / 2) (suc a / 2) (b / 2) (omega arith) (omega arith),
    ))

pub bit_or_digit : (a b : ℕ) → bit_or a b ≡ bit_or (a / 2) (b / 2) * 2 + max (a % 2) (b % 2)
bit_or_digit zero b = simp bit_or-bitwise (omega arith)
bit_or_digit (suc a) b = simp bit_or-bitwise (
    omega (
      arith,
      fuel_irrelevant (λ y. y) max a (suc a / 2) (suc a / 2) (b / 2) (omega arith) (omega arith),
    ))

pub bit_and_left_zero : (b : ℕ) → bit_and 0 b ≡ 0
bit_and_left_zero b = bit_and-bitwise 0 b

pub bit_or_left_zero : (b : ℕ) → bit_or 0 b ≡ b
bit_or_left_zero b = bit_or-bitwise 0 b

-- By the count of digits, so that no strong induction is needed.
bit_and_zero_below : (n a : ℕ) → a ≤ n → bit_and a 0 ≡ 0
bit_and_zero_below n zero h = refl
bit_and_zero_below zero (suc a) h = absurd (omega arith)
bit_and_zero_below (suc n) (suc a) h =
    omega (arith, bit_and_digit (suc a) 0, bit_and_zero_below n (suc a / 2) (omega arith))

pub bit_and_right_zero : (a : ℕ) → bit_and a 0 ≡ 0
bit_and_right_zero a = bit_and_zero_below a a (omega arith)

bit_or_zero_below : (n a : ℕ) → a ≤ n → bit_or a 0 ≡ a
bit_or_zero_below n zero h = refl
bit_or_zero_below zero (suc a) h = absurd (omega arith)
bit_or_zero_below (suc n) (suc a) h =
    omega (arith, bit_or_digit (suc a) 0, bit_or_zero_below n (suc a / 2) (omega arith))

pub bit_or_right_zero : (a : ℕ) → bit_or a 0 ≡ a
bit_or_right_zero a = bit_or_zero_below a a (omega arith)

bit_and_comm_below : (n a b : ℕ) → a ≤ n → bit_and a b ≡ bit_and b a
bit_and_comm_below n zero b h = omega (arith, bit_and_left_zero b, bit_and_right_zero b)
bit_and_comm_below zero (suc a) b h = absurd (omega arith)
bit_and_comm_below (suc n) (suc a) b h = omega (
  arith,
  bit_and_digit (suc a) b,
  bit_and_digit b (suc a),
  bit_and_comm_below n (suc a / 2) (b / 2) (omega arith),
)

pub bit_and_comm : (a b : ℕ) → bit_and a b ≡ bit_and b a
bit_and_comm a b = bit_and_comm_below a a b (omega arith)

pub bit_and-one : (a : ℕ) → bit_and a 1 ≡ a % 2
bit_and-one a = omega (arith, bit_and_digit a 1, bit_and_right_zero (a / 2))

pub bit_or-one : (a : ℕ) → bit_or a 1 ≡ a / 2 * 2 + 1
bit_or-one a = omega (arith, bit_or_digit a 1, bit_or_right_zero (a / 2))

shift-suc : (h k : ℕ) → h * 2 ^ suc k ≡ 2 * (h * 2 ^ k)
shift-suc h k = omega (arith, ap (λ (t : ℕ). h * t) (pow-suc 2 k))

-- What lies above bit `k` and what lies below do not meet.
pub bit_and_split :
    (k h i l m : ℕ)
    → l < 2 ^ k
    → m < 2 ^ k
    → bit_and (h * 2 ^ k + l) (i * 2 ^ k + m) ≡ bit_and h i * 2 ^ k + bit_and l m
bit_and_split zero h i zero zero p q = ground arith
bit_and_split zero h i (suc l) m p q = absurd (omega arith)
bit_and_split zero h i zero (suc m) p q = absurd (omega arith)
bit_and_split (suc k) h i l m p q = ground (
  arith,
  bit_and_digit (h * 2 ^ suc k + l) (i * 2 ^ suc k + m),
  bit_and_digit l m,
  shift-suc h k,
  shift-suc i k,
  shift-suc (bit_and h i) k,
  pow-suc 2 k,
  bit_and_split k h i (l / 2) (m / 2) (omega (arith, pow-suc 2 k)) (omega (arith, pow-suc 2 k)),
)

pub bit_or_split :
    (k h i l m : ℕ)
    → l < 2 ^ k
    → m < 2 ^ k
    → bit_or (h * 2 ^ k + l) (i * 2 ^ k + m) ≡ bit_or h i * 2 ^ k + bit_or l m
bit_or_split zero h i zero zero p q = ground arith
bit_or_split zero h i (suc l) m p q = absurd (omega arith)
bit_or_split zero h i zero (suc m) p q = absurd (omega arith)
bit_or_split (suc k) h i l m p q = ground (
  arith,
  bit_or_digit (h * 2 ^ suc k + l) (i * 2 ^ suc k + m),
  bit_or_digit l m,
  shift-suc h k,
  shift-suc i k,
  shift-suc (bit_or h i) k,
  pow-suc 2 k,
  bit_or_split k h i (l / 2) (m / 2) (omega (arith, pow-suc 2 k)) (omega (arith, pow-suc 2 k)),
)

-- A value below `2 ^ k` is kept whole by the mask of `k` ones.
pub bit_and-ones : (k l : ℕ) → l < 2 ^ k → bit_and l (2 ^ k - 1) ≡ l
bit_and-ones zero zero p = refl
bit_and-ones zero (suc l) p = absurd (omega arith)
bit_and-ones (suc k) l p = ground (
  arith,
  bit_and_digit l (2 ^ suc k - 1),
  pow-suc 2 k,
  one-le-pow k 2,
  bit_and-ones k (l / 2) (omega (arith, pow-suc 2 k)),
)

-- The mask of `k` ones keeps what lies below bit `k`.
pub bit_and_low : (k h l : ℕ) → l < 2 ^ k → bit_and (h * 2 ^ k + l) (2 ^ k - 1) ≡ l
bit_and_low k h l p = ground (
  arith,
  bit_and_split k h 0 l (2 ^ k - 1) p (omega (arith, one-le-pow k 2)),
  bit_and_right_zero h,
  bit_and-ones k l p,
)

-- A mask that starts at bit `k` drops what lies below it.
pub bit_and_high :
    (k h l m : ℕ) → l < 2 ^ k → bit_and (h * 2 ^ k + l) (m * 2 ^ k) ≡ bit_and h m * 2 ^ k
bit_and_high k h l m p =
    ground (arith, bit_and_split k h m l 0 p (omega (arith, one-le-pow k 2)), bit_and_right_zero l)

-- Fields that do not meet are joined by `|` as by `+`.
pub bit_or_fields : (k h m : ℕ) → m < 2 ^ k → bit_or (h * 2 ^ k) m ≡ h * 2 ^ k + m
bit_or_fields k h m p = ground (
  arith,
  bit_or_split k h 0 0 m (omega (arith, one-le-pow k 2)) p,
  bit_or_right_zero h,
  bit_or_left_zero m,
)
