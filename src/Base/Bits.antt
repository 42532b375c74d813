-- ===== src/Base/Bits.antt =====
-- Binary digits of natural numbers, and what `&`, `|` and `>>` do to each.
use Prim.Native.Nat.{
  ℕ, zero, suc, ◌+◌, ◌-◌, ◌*◌, ◌/◌, ◌%◌, ◌^◌, ◌≤◌, ◌<◌, min, max, bit_and, bit_or, digits, bitwise,
  bit_and-bitwise, bit_or-bitwise,
}
use mathlib.Core.Path.{◌≡◌, refl, sym, ap, ◌∙◌}
use native.Mathlib.Decide.{dec_lt}
use Prim.Native.Nat.add
use native.Mathlib.Nat.{
  pow-suc, pow-succ', one-le-pow, div-div-eq-div-mul, div-one, mod-eq-sub-div-mul, div-mul-le_self,
}
use native.Mathlib.Omega.{arith}

-- The digit at place `i`.
pub bit : ℕ → ℕ → ℕ
bit a zero = a % 2
bit a (suc i) = bit (a / 2) i

-- With enough fuel the digit recursion does not depend on it.
fuel_irrelevant :
    (z : ℕ → ℕ) (f : ℕ → ℕ → ℕ) (n m a b : ℕ) → a ≤ n → a ≤ m → digits z f n a b ≡ digits z f m a b
fuel_irrelevant z f zero zero zero b p q = refl
fuel_irrelevant z f zero zero (suc a) b p q = absurd (omega arith)
fuel_irrelevant z f zero (suc m) zero b p q = refl
fuel_irrelevant z f zero (suc m) (suc a) b p q = absurd (omega arith)
fuel_irrelevant z f (suc n) zero zero b p q = refl
fuel_irrelevant z f (suc n) zero (suc a) b p q = absurd (omega arith)
fuel_irrelevant z f (suc n) (suc m) zero b p q = refl
fuel_irrelevant z f (suc n) (suc m) (suc a) b p q =
    omega (arith, fuel_irrelevant z f n m (suc a / 2) (b / 2) (omega arith) (omega arith))

lowest_digit :
    (z : ℕ → ℕ) (f : ℕ → ℕ → ℕ) (a b : ℕ)
    → bitwise z f (suc a) b ≡ bitwise z f (suc a / 2) (b / 2) * 2 + f (suc a % 2) (b % 2)
lowest_digit z f a b =
    omega (arith, fuel_irrelevant z f a (suc a / 2) (suc a / 2) (b / 2) (omega arith) (omega arith))

pub or_step : (a b : ℕ) → bit_or a b ≡ bit_or (a / 2) (b / 2) * 2 + max (a % 2) (b % 2)
or_step zero b = simp bit_or-bitwise (omega arith)
or_step (suc a) b = simp bit_or-bitwise (lowest_digit (λ y. y) max a b)

pub and_step : (a b : ℕ) → bit_and a b ≡ bit_and (a / 2) (b / 2) * 2 + min (a % 2) (b % 2)
and_step zero b = simp bit_and-bitwise (omega arith)
and_step (suc a) b = simp bit_and-bitwise (lowest_digit (λ y. 0) min a b)

pub bit-or : (a b i : ℕ) → bit (bit_or a b) i ≡ max (bit a i) (bit b i)
unfolding bit
bit-or a b zero = omega (arith, or_step a b)
bit-or a b (suc i) = ap (λ t. bit t i) half ∙ bit-or (a / 2) (b / 2) i
  where
    half : bit_or a b / 2 ≡ bit_or (a / 2) (b / 2)
    half = omega (arith, or_step a b)

pub bit-and : (a b i : ℕ) → bit (bit_and a b) i ≡ min (bit a i) (bit b i)
unfolding bit
bit-and a b zero = omega (arith, and_step a b)
bit-and a b (suc i) = ap (λ t. bit t i) half ∙ bit-and (a / 2) (b / 2) i
  where
    half : bit_and a b / 2 ≡ bit_and (a / 2) (b / 2)
    half = omega (arith, and_step a b)

pub bit-zero : (i : ℕ) → bit 0 i ≡ 0
unfolding bit
bit-zero zero = refl
bit-zero (suc i) = bit-zero i

pub bit-le : (a i : ℕ) → bit a i ≤ 1
unfolding bit
bit-le a zero = omega arith
bit-le a (suc i) = bit-le (a / 2) i

-- Halving once and then `j` times.
div-pow : (a j : ℕ) → a / 2 ^ suc j ≡ a / 2 / 2 ^ j
div-pow a j = ap (λ t. a / t) (pow-succ' 2 j) ∙ sym (div-div-eq-div-mul a 2 (2 ^ j))

pub bit-shift : (a j i : ℕ) → bit (a / 2 ^ j) i ≡ bit a (j + i)
unfolding bit
bit-shift a zero i = rw (div-one, add.zero)
bit-shift a (suc j) i = rw (div-pow, add.suc) (bit-shift (a / 2) j i)

mod-pow : (a k : ℕ) → a % 2 ^ suc k ≡ a / 2 % 2 ^ k * 2 + a % 2
mod-pow a k =
    rw (mod-eq-sub-div-mul a (2 ^ suc k), mod-eq-sub-div-mul (a / 2) (2 ^ k), div-pow, pow-suc)
      (omega (arith, div-mul-le_self (a / 2) (2 ^ k)))

and-zero_below : (n a : ℕ) → a ≤ n → bit_and a 0 ≡ 0
and-zero_below n zero h = refl
and-zero_below zero (suc a) h = absurd (omega arith)
and-zero_below (suc n) (suc a) h =
    omega (arith, and_step (suc a) 0, and-zero_below n (suc a / 2) (omega arith))

-- A mask of `k` ones keeps the remainder by `2 ^ k`.
pub and_mask : (k a : ℕ) → bit_and a (2 ^ k - 1) ≡ a % 2 ^ k
and_mask zero a = omega (arith, and-zero_below a a (omega arith))
and_mask (suc k) a = omega (
  arith,
  and_step a (2 ^ suc k - 1),
  ap (bit_and (a / 2)) half,
  mod-pow a k,
  pow-suc 2 k,
  one-le-pow k 2,
  and_mask k (a / 2),
)
  where
    half : (2 ^ suc k - 1) / 2 ≡ 2 ^ k - 1
    half = omega (arith, pow-suc 2 k, one-le-pow k 2)

zero_of_lt_one : {a : ℕ} → a < 1 → a ≡ 0
zero_of_lt_one h = omega arith

pub or-lt : (n a b : ℕ) → a < 2 ^ n → b < 2 ^ n → bit_or a b < 2 ^ n
or-lt zero a b p q = rw (zero_of_lt_one p, zero_of_lt_one q) (omega arith)
or-lt (suc n) a b p q = omega (
  arith,
  or_step a b,
  pow-suc 2 n,
  or-lt n (a / 2) (b / 2) (omega (arith, pow-suc 2 n)) (omega (arith, pow-suc 2 n)),
)

-- A number of `n` digits that are all ones.
pub all_ones : (n x : ℕ) → x < 2 ^ n → ((i : ℕ) → i < n → bit x i ≡ 1) → x + 1 ≡ 2 ^ n
unfolding bit
all_ones zero x h ones = omega arith
all_ones (suc n) x h ones = omega (
  arith,
  pow-suc 2 n,
  ones 0 (omega arith),
  all_ones n (x / 2) (omega (arith, pow-suc 2 n)) (λ i p. ones (suc i) (omega arith)),
)

-- The leading digit.
pub bit_top : (k x : ℕ) → 2 ^ k ≤ x → x < 2 ^ suc k → bit x k ≡ 1
unfolding bit
bit_top zero x h p = omega arith
bit_top (suc k) x h p =
    bit_top k (x / 2) (omega (arith, pow-suc 2 k)) (omega (arith, pow-suc 2 (suc k)))

-- Every positive number has one.
pub log_bounds : (k x : ℕ) → 0 < x → x < 2 ^ k → (j : ℕ) × (j < k) × (2 ^ j ≤ x) × (x < 2 ^ suc j)
log_bounds zero x pos h = absurd (omega arith)
log_bounds (suc k) x pos h = elim (dec_lt x (2 ^ k)) [
  | yes p ↦ let r = log_bounds k x pos p in (r.0, omega (arith, r.1), r.2, r.3)
  | no p ↦ (k, omega arith, omega arith, h)
]
