-- ===== src/Queue/Round.antt =====
-- `tn_queue_spsc_setup` rounds the wanted capacity up to a power of two.
use Prim.Native.Nat.{bit_and, bit_or}
use native.Mathlib.Decide.{dec_lt}
use native.Mathlib.Nat.{pow-suc, pow-le-pow_right}
use tcpeen.Base.{
  ℕ, suc, ◌+◌, ◌-◌, ◌*◌, ◌/◌, ◌^◌, ◌≤◌, ◌<◌, ◌≡◌, subst, ap, sym, inl, inr, true, false,
  if◌then◌else◌, ◌==◌, add64, sub64, Bool-cases, arith,
}
use tcpeen.Base.Bits.{
  bit, bit-or, bit-and, bit-zero, bit-shift, bit-le, or-lt, all_ones, bit_top, log_bounds,
}

-- `capacity |= capacity >> k`
unfoldable pub or_shift : ℕ → ℕ → ℕ
or_shift k x = bit_or x (x / 2 ^ k)

unfoldable pub smear : ℕ → ℕ
unfolding or_shift
smear x = or_shift 32 (or_shift 16 (or_shift 8 (or_shift 4 (or_shift 2 (or_shift 1 x)))))

unfoldable pub round_up : ℕ → ℕ
unfolding smear
round_up capacity =
    if bit_and capacity (sub64 capacity 1) == 0
    then capacity
    else add64 (smear (sub64 capacity 1)) 1

-- The top `j` of the `n` digits of `x` are ones.
abbrev Led : ℕ → ℕ → ℕ → Type 0
Led n j x = (x < 2 ^ n) × ((i : ℕ) → i < n → n ≤ i + j → bit x i ≡ 1)

-- Each step of the smear doubles the run of leading ones.
or_shift-Led : (n j x : ℕ) → Led n j x → Led n (j + j) (or_shift j x)
unfolding or_shift
or_shift-Led n j x (small, ones) = (or-lt n x (x / 2 ^ j) small (shifted), λ i p q. digit i p q)
  where
    shifted : x / 2 ^ j < 2 ^ n
    shifted = omega arith

    digit : (i : ℕ) → i < n → n ≤ i + (j + j) → bit (bit_or x (x / 2 ^ j)) i ≡ 1
    digit i p q =
        rw (bit-or, bit-shift)
          (elim (dec_lt (i + j) n) [
            | yes low ↦ omega (arith, ones (j + i) (omega arith) (omega arith), bit-le x i)
            | no high ↦ omega (arith, ones i p (omega arith), bit-le x (j + i))
          ])

-- All digits of the smeared number are ones.
smear-ones : (k x : ℕ) → k < 64 → 2 ^ k ≤ x → x < 2 ^ suc k → smear x + 1 ≡ 2 ^ suc k
unfolding smear
smear-ones k x small low high = all_ones (suc k) _ full.0 (λ i p. full.1 i p (omega arith))
  where
    lead : Led (suc k) 1 x
    lead = (high, λ i p q. subst (λ j. bit x j ≡ 1) (omega arith) (bit_top k x low high))

    full : Led (suc k) 64 (smear x)
    full = or_shift-Led (suc k) 32 _ (
        or_shift-Led (suc k) 16 _ (
          or_shift-Led (suc k) 8 _
            (or_shift-Led (suc k) 4 _ (or_shift-Led (suc k) 2 _ (or_shift-Led (suc k) 1 _ lead)))))

-- `c & (c - 1)` is zero only at a power of two.
power_of_and_zero : (k c : ℕ) → 2 ^ k ≤ c → c < 2 ^ suc k → bit_and c (c - 1) ≡ 0 → c ≡ 2 ^ k
power_of_and_zero k c low high e = elim (dec_lt (2 ^ k) c) [
  | yes p ↦ absurd (
      omega (
        arith,
        bit-and c (c - 1) k,
        ap (λ t. bit t k) e,
        bit-zero k,
        bit_top k c low high,
        bit_top k (c - 1) (omega arith) (omega arith),
      ))
  | no p ↦ omega arith
]

pred_word : (c : ℕ) → 0 < c → c ≤ 2 ^ 63 → sub64 c 1 ≡ c - 1
pred_word c pos small = omega arith

-- The smallest power of two from `c` on.
abbrev pub IsRounded : ℕ → ℕ → ℕ → Type 0
IsRounded c r k = (r ≡ 2 ^ k) × (c ≤ r) × (r < 2 * c)

power-IsRounded :
    (c : ℕ) → 0 < c → c ≤ 2 ^ 63 → bit_and c (c - 1) ≡ 0 → (k : ℕ) × (k ≤ 63) × IsRounded c c k
power-IsRounded c pos small e =
    let (k, p, low, high) = log_bounds 64 c pos (omega arith) in
    (k, omega arith, (power_of_and_zero k c low high e, omega arith, omega arith))

smear-IsRounded :
    (c : ℕ) → 1 < c → c ≤ 2 ^ 63 → (k : ℕ) × (k ≤ 63) × IsRounded c (add64 (smear (c - 1)) 1) k
smear-IsRounded c big small =
    let (k, p, low, high) = log_bounds 63 (c - 1) (omega arith) (omega arith) in
    let full : add64 (smear (c - 1)) 1 ≡ 2 ^ suc k = omega (
      arith,
      smear-ones k (c - 1) (omega arith) low high,
      pow-le-pow_right {n = 2} (omega arith) {i = suc k} {j = 63} (omega arith),
    ) in
    (suc k, omega arith, (full, omega arith, omega (arith, pow-suc 2 k)))

-- A capacity up to 2 ^ 63 is rounded up to the smallest power of two that is not below it.
pub round_up-IsRounded :
    (c : ℕ) → 0 < c → c ≤ 2 ^ 63 → (k : ℕ) × (k ≤ 63) × IsRounded c (round_up c) k
round_up-IsRounded c pos small =
    subst (λ r. (k : ℕ) × (k ≤ 63) × IsRounded c r k) (sym unfolded)
      (elim (Bool-cases (bit_and c (c - 1) == 0)) [
        | inl done ↦ rw done (power-IsRounded c pos small (ground arith))
        | inr more ↦ rw more (smear-IsRounded c (other more) small)
      ])
  where
    unfolded : round_up c ≡ (if bit_and c (c - 1) == 0 then c else add64 (smear (c - 1)) 1)
    unfolded = unfold round_up in rw (pred_word c pos small)

    other : (bit_and c (c - 1) == 0) ≡ false → 1 < c
    other more = elim (dec_lt 1 c) [
      | yes p ↦ p
      | no p ↦
          let one : c ≡ 1 = omega arith in
          let clash : true ≡ false = subst (λ t. (bit_and t (t - 1) == 0) ≡ false) one more in cc
    ]

-- Above 2 ^ 63 and below 2 ^ 64 the rounded capacity is 0.
pub round_up_overflow : (c : ℕ) → 2 ^ 63 < c → c < 2 ^ 64 → round_up c ≡ 0
unfolding round_up
round_up_overflow c low high = elim (Bool-cases (bit_and c (sub64 c 1) == 0)) [
  | inl done ↦ absurd (omega (arith, power_of_and_zero 63 c (omega arith) high (is_zero done)))
  | inr more ↦
      rw (more, word)
        (omega (arith, smear-ones 63 (c - 1) (omega arith) (omega arith) (omega arith)))
]
  where
    word : sub64 c 1 ≡ c - 1
    word = omega arith

    is_zero : (bit_and c (sub64 c 1) == 0) ≡ true → bit_and c (c - 1) ≡ 0
    is_zero e = ground (arith, ap (bit_and c) word)
