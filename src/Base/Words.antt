-- ===== src/Base/Words.antt =====
-- `uint64_t` and `size_t` arithmetic with its wrap-around.
use Prim.Native.Nat.{ℕ, ◌+◌, ◌-◌, ◌%◌, ◌^◌, ◌≤◌, ◌<◌, ◌*◌, ◌∣◌, zero, suc}
use Prim.Native.Nat.add
use native.Mathlib.Nat.{mod-mod_of_dvd, mod-add-mod, pow-suc, mod-lt, mod-eq_of_lt, mod-eq-sub-mod}
use mathlib.Core.Logic.{◌≢◌}
use mathlib.Core.Path.{◌≡◌, ap, ◌∙◌}
use native.Mathlib.Decide.{dec_lt}
use native.Mathlib.Omega.{arith}

abbrev pub u64_mod : ℕ
u64_mod = 2 ^ 64

-- `a + b` in `uint64_t`.
abbrev pub add64 : ℕ → ℕ → ℕ
add64 a b = (a + b) % u64_mod

-- `a - b` in `uint64_t`: the modulus is added first, since `-` on ℕ stops at 0.
abbrev pub sub64 : ℕ → ℕ → ℕ
sub64 a b = (a + u64_mod - b) % u64_mod

pub add64-lt : (a b : ℕ) → add64 a b < u64_mod
add64-lt a b = omega arith

-- Adding back what was subtracted restores the word, across the wrap.
pub add64-sub64 : (a b : ℕ) → a < u64_mod → b < u64_mod → add64 b (sub64 a b) ≡ a
add64-sub64 a b ha hb = omega arith

pow_add : (a b : ℕ) → 2 ^ (a + b) ≡ 2 ^ a * 2 ^ b
pow_add zero b = rw add.zero (omega arith)
pow_add (suc a) b =
    rw add.suc (omega (arith, pow-suc 2 (a + b), pow_add a b, ap (λ t. t * 2 ^ b) (pow-suc 2 a)))

pow_dvd_u64 : (k : ℕ) → k ≤ 64 → 2 ^ k ∣ u64_mod
pow_dvd_u64 k h = ∣ (2 ^ (64 - k), ap (λ e. 2 ^ e) whole ∙ pow_add k (64 - k)) ∣₁
  where
    whole : 64 ≡ k + (64 - k)
    whole = omega arith

-- The wrap-around of a counter does not move it in a ring of 2 ^ k places.
pub wrap-mod : (k a : ℕ) → k ≤ 64 → a % u64_mod % 2 ^ k ≡ a % 2 ^ k
wrap-mod k a h = mod-mod_of_dvd (2 ^ k) a (pow_dvd_u64 k h)

-- Fewer than `n` steps round a ring of `n` places do not come back to the start.
pub mod-add-ne : (n t d : ℕ) → 0 < d → d < n → (t + d) % n ≢ t % n
mod-add-ne n t d pos small e = elim (dec_lt (t % n + d) n) [
  | yes p ↦ omega (arith, mod-add-mod t n d, mod-eq_of_lt p)
  | no p ↦ omega (
    arith,
    mod-add-mod t n d,
    mod-lt t {m = n} (omega arith),
    mod-eq-sub-mod {n = t % n + d} {m = n} (omega arith),
    mod-eq_of_lt {n = t % n + d - n} {m = n} (omega (arith, mod-lt t {m = n} (omega arith))),
  )
]
