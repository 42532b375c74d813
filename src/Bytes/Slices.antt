-- ===== src/Bytes/Slices.antt =====
-- Reading and writing a run of bytes in a memory.
use Prim.Native.Nat.add
use tcpeen.Base.{
  ℕ, zero, suc, ◌+◌, ◌-◌, ◌≤◌, ◌≡◌, refl, ap, sym, take-append, ◌∙◌, List, [], ◌∷◌, ◌++◌, length,
  take, drop, length-append, length-take, length-drop, arith,
}

abbrev pub slice : List ℕ → ℕ → ℕ → List ℕ
slice m p n = take n (drop p m)

-- `memcpy` of `bs` to offset `p`.
abbrev pub splice : List ℕ → ℕ → List ℕ → List ℕ
splice m p bs = take p m ++ (bs ++ drop (p + length bs) m)

take-nil : (n : ℕ) → take {A = ℕ} n [] ≡ []
take-nil zero = refl
take-nil (suc n) = refl

pub length-slice : (m : List ℕ) (p n : ℕ) → p + n ≤ length m → length (slice m p n) ≡ n
length-slice m p n h = length-take n (drop p m) (omega (arith, length-drop {0} p m))

pub length-splice :
    (m : List ℕ) (p : ℕ) (bs : List ℕ)
    → p + length bs ≤ length m
    → length (splice m p bs) ≡ length m
length-splice m p bs h = omega (
  arith,
  length-append {0} (take p m) (bs ++ drop (p + length bs) m),
  length-append {0} bs (drop (p + length bs) m),
  length-take {0} p m (omega arith),
  length-drop {0} (p + length bs) m,
)

take-append_add : (xs ys : List ℕ) (k : ℕ) → take (length xs + k) (xs ++ ys) ≡ xs ++ take k ys
take-append_add [] ys k = rw add.zero
take-append_add (x ∷ xs) ys k = rw add.suc (ap (λ t. x ∷ t) (take-append_add xs ys k))

take-take : (k n : ℕ) (xs : List ℕ) → k ≤ n → take k (take n xs) ≡ take k xs
take-take zero n xs h = refl
take-take (suc k) zero xs h = absurd (omega arith)
take-take (suc k) (suc n) [] h = refl
take-take (suc k) (suc n) (x ∷ xs) h = ap (λ t. x ∷ t) (take-take k n xs (omega arith))

drop-take : (k n : ℕ) (xs : List ℕ) → k ≤ n → drop k (take n xs) ≡ take (n - k) (drop k xs)
drop-take zero n xs h = ap (λ i. take i xs) {y = n - 0} (omega arith)
drop-take (suc k) zero xs h = absurd (omega arith)
drop-take (suc k) (suc n) [] h = sym (take-nil (suc n - suc k))
drop-take (suc k) (suc n) (x ∷ xs) h =
    drop-take k n xs (omega arith)
    ∙ ap (λ i. take i (drop k xs)) {x = n - k} {y = suc n - suc k} (omega arith)

drop-drop : (k p : ℕ) (xs : List ℕ) → drop k (drop p xs) ≡ drop (p + k) xs
drop-drop k zero xs = rw add.zero
drop-drop zero (suc p) [] = rw add.suc
drop-drop (suc k) (suc p) [] = rw add.suc
drop-drop k (suc p) (x ∷ xs) = rw add.suc (drop-drop k p xs)

-- Writing just past a run of bytes extends it.
pub slice-splice :
    (m : List ℕ) (p n : ℕ) (bs : List ℕ)
    → p + n + length bs ≤ length m
    → slice (splice m (p + n) bs) p (n + length bs) ≡ slice m p n ++ bs
slice-splice m zero n bs h = rw (add.zero, whole)
  where
    rest : List ℕ
    rest = drop (n + length bs) m

    size : length (take n m) ≡ n
    size = length-take n m (omega arith)

    whole : take (n + length bs) (take n m ++ (bs ++ rest)) ≡ take n m ++ bs
    whole =
        ap (λ (i : ℕ). take (i + length bs) (take n m ++ (bs ++ rest))) (sym size)
        ∙ take-append_add (take n m) (bs ++ rest) (length bs)
        ∙ ap (λ t. take n m ++ t) (take-append bs rest)
slice-splice [] (suc p) n bs h = absurd (omega arith)
slice-splice (x ∷ m) (suc p) n bs h = rw (add.suc, add.suc) (slice-splice m p n bs (omega arith))

pub take-slice : (m : List ℕ) (p n k : ℕ) → k ≤ n → take k (slice m p n) ≡ slice m p k
take-slice m p n k h = take-take k n (drop p m) h

pub drop-slice : (m : List ℕ) (p n k : ℕ) → k ≤ n → drop k (slice m p n) ≡ slice m (p + k) (n - k)
drop-slice m p n k h = drop-take k n (drop p m) h ∙ ap (take (n - k)) (drop-drop k p m)

pub drop-append : (xs ys : List ℕ) → drop (length xs) (xs ++ ys) ≡ ys
drop-append [] ys = refl
drop-append (x ∷ xs) ys = drop-append xs ys

take-add : (n k : ℕ) (xs : List ℕ) → take (n + k) xs ≡ take n xs ++ take k (drop n xs)
take-add zero k xs = rw add.zero
take-add (suc n) k [] = rw take-nil (sym (take-nil k))
take-add (suc n) k (x ∷ xs) = rw add.suc (ap (λ t. x ∷ t) (take-add n k xs))

-- Two runs of bytes, one behind the other.
pub slice-append : (m : List ℕ) (p n k : ℕ) → slice m p (n + k) ≡ slice m p n ++ slice m (p + n) k
slice-append m p n k =
    take-add n k (drop p m) ∙ ap (λ t. take n (drop p m) ++ take k t) (drop-drop n p m)
