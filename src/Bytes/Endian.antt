-- ===== src/Bytes/Endian.antt =====
-- Numbers in network byte order.
use tcpeen.Base.{
  ℕ, zero, suc, ◌+◌, ◌*◌, ◌/◌, ◌%◌, ◌^◌, ◌≡◌, refl, List, [], ◌∷◌, length, ap, sym, ◌∙◌, arith,
}
use native.Mathlib.Nat.{
  pow-suc, mod-eq-sub-div-mul, div-add-mod', div-mul-le_self, div-div-eq-div-mul,
}

unfoldable pub be_bytes : ℕ → ℕ → List ℕ
be_bytes zero x = []
be_bytes (suc w) x = (x / 256 ^ w % 256) ∷ be_bytes w x

unfoldable pub be_value : ℕ → List ℕ → ℕ
be_value acc [] = acc
be_value acc (b ∷ bs) = be_value (acc * 256 + b) bs

pub length-be_bytes : (w x : ℕ) → length (be_bytes w x) ≡ w
unfolding be_bytes
length-be_bytes zero x = refl
length-be_bytes (suc w) x = ap suc (length-be_bytes w x)

-- The digit above `w` bytes.
mod-split : (x w : ℕ) → x % 256 ^ suc w ≡ x / 256 ^ w % 256 * 256 ^ w + x % 256 ^ w
mod-split x w =
    rw (mod-eq-sub-div-mul x (256 ^ suc w), mod-eq-sub-div-mul x (256 ^ w), shorter)
      (omega (
        arith,
        ap (λ t. x / 256 ^ w / 256 * t) (pow-suc 256 w),
        ap (λ t. t * 256 ^ w) (div-add-mod' (x / 256 ^ w) 256),
        div-mul-le_self x (256 ^ w),
      ))
  where
    shorter : x / 256 ^ suc w ≡ x / 256 ^ w / 256
    shorter = ap (λ t. x / t) (pow-suc 256 w) ∙ sym (div-div-eq-div-mul x (256 ^ w) 256)

be_value-acc : (w x acc : ℕ) → be_value acc (be_bytes w x) ≡ acc * 256 ^ w + x % 256 ^ w
unfolding be_value be_bytes
be_value-acc zero x acc = omega arith
be_value-acc (suc w) x acc = omega (
  arith,
  be_value-acc w x (acc * 256 + x / 256 ^ w % 256),
  mod-split x w,
  ap (λ t. acc * t) (pow-suc 256 w),
)

-- Reading back what was written gives the number, cut to the width.
pub be_value-be_bytes : (w x : ℕ) → be_value 0 (be_bytes w x) ≡ x % 256 ^ w
be_value-be_bytes w x = omega (arith, be_value-acc w x 0)
