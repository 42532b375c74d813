-- ===== src/Base/Shares.antt =====
-- Indices that are shared out among lists.
use Prim.Native.Nat.{ℕ, zero, suc, ◌+◌, ◌≤◌, ◌<◌}
use mathlib.Core.Path.{◌≡◌, ap, ◌∙◌}
use mathlib.Core.Bool.{Bool, true, false, ◌&&◌}
use mathlib.Core.List.{List, [], ◌∷◌, ◌++◌}
use native.Mathlib.Omega.{arith}
use tcpeen.Base.Tests.{ltb, leb, ◌==◌}
use tcpeen.Base.Lists.{length, length-append, count_up, length-count_up}

abbrev pub one_if : Bool → ℕ
one_if true = 1
one_if false = 0

abbrev pub occurs : ℕ → List ℕ → ℕ
occurs i [] = 0
occurs i (x ∷ xs) = one_if (x == i) + occurs i xs

pub occurs-append : (i : ℕ) (xs ys : List ℕ) → occurs i (xs ++ ys) ≡ occurs i xs + occurs i ys
occurs-append i [] ys = omega arith
occurs-append i (x ∷ xs) ys = omega (arith, occurs-append i xs ys)

abbrev pub total : ℕ → List (List ℕ) → ℕ
total i [] = 0
total i (xs ∷ xss) = occurs i xs + total i xss

abbrev pub size : List (List ℕ) → ℕ
size [] = 0
size (xs ∷ xss) = length xs + size xss

-- Every index below `n` is in one of the lists, once, and nothing else is.
pub record Partition (n : ℕ) (xss : List (List ℕ)) : Type 0 where
  pub once : (i : ℕ) → total i xss ≡ one_if (ltb i n)
  pub sized : size xss ≡ n

pub occurs-lt : (n i : ℕ) → 0 < one_if (ltb i n) → i < n
occurs-lt n i h = ground arith

pub occurs_self : (i : ℕ) (xs : List ℕ) → 0 < occurs i (i ∷ xs)
occurs_self i xs = ground arith

-- The first index of the first list is in range.
pub first-lt : (n i : ℕ) (xs : List ℕ) (xss : List (List ℕ)) → Partition n ((i ∷ xs) ∷ xss) → i < n
first-lt n i xs xss p = occurs-lt n i (omega (arith, p.once i, occurs_self i xs))

occurs-count_up : (j a n : ℕ) → occurs j (count_up a n) ≡ one_if (leb a j && ltb j (a + n))
occurs-count_up j a zero = ground arith
occurs-count_up j a (suc n) = ground (arith, occurs-count_up j (a + 1) n)

pub count_up-snoc : (a n : ℕ) → count_up a (n + 1) ≡ count_up a n ++ (a + n) ∷ []
count_up-snoc a n = ap (count_up a) {y = suc n} (omega arith) ∙ go a n
  where
    go : (a n : ℕ) → count_up a (suc n) ≡ count_up a n ++ (a + n) ∷ []
    go a zero = ap (λ x. x ∷ []) (omega arith)
    go a (suc n) =
        ap (λ xs. a ∷ xs)
          (go (a + 1) n
            ∙ ap (λ x. count_up (a + 1) n ++ x ∷ []) {x = a + 1 + n} {y = a + suc n} (omega arith))

pub count_up_next : (i : ℕ) → count_up 0 (i + 1) ≡ count_up 0 i ++ i ∷ []
count_up_next i =
    count_up-snoc 0 i ∙ ap (λ x. count_up 0 i ++ x ∷ []) {x = 0 + i} {y = i} (omega arith)

-- The indices below `n`, all in one list.
pub counted_up : (n : ℕ) → Partition n (count_up 0 n ∷ [])
counted_up n = record {
  once = λ j. ground (arith, occurs-count_up j 0 n);
  sized = omega (arith, length-count_up 0 n);
}

-- The first index of the second list is in range, and only there.
pub second-lt :
    (n i : ℕ) (xs used : List ℕ)
    → Partition n (xs ∷ (i ∷ used) ∷ [])
    → (i < n) × (occurs i used ≡ 0)
second-lt n i xs used p = (occurs-lt n i (omega (arith, p.once i, occurs_self i used)), only)
  where
    at_most : (b : Bool) → one_if b ≤ 1
    at_most true = omega arith
    at_most false = omega arith

    only : occurs i used ≡ 0
    only = omega (arith, p.once i, self, at_most (ltb i n))
      where
        self : one_if (i == i) ≡ 1
        self = ground arith

-- An index moves from the front of one list to another.
module _ (n i : ℕ) (xs ys zs : List ℕ) where
  pub first_to_second :
      Partition n ((i ∷ xs) ∷ ys ∷ zs ∷ []) → Partition n (xs ∷ (ys ++ i ∷ []) ∷ zs ∷ [])
  first_to_second p = record {
    once = λ j. omega (arith, p.once j, occurs-append j ys (i ∷ []));
    sized = omega (arith, p.sized, length-append ys (i ∷ []));
  }

  pub second_to_third :
      Partition n (xs ∷ (i ∷ ys) ∷ zs ∷ []) → Partition n (xs ∷ ys ∷ (i ∷ zs) ∷ [])
  second_to_third p = record { once = λ j. omega (arith, p.once j); sized = omega (arith, p.sized) }

  pub third_to_first :
      Partition n (xs ∷ ys ∷ (i ∷ zs) ∷ []) → Partition n ((xs ++ i ∷ []) ∷ ys ∷ zs ∷ [])
  third_to_first p = record {
    once = λ j. omega (arith, p.once j, occurs-append j xs (i ∷ []));
    sized = omega (arith, p.sized, length-append xs (i ∷ []));
  }

at_most_one : (b : Bool) → one_if b ≤ 1
at_most_one true = omega arith
at_most_one false = omega arith

-- An index that has been met is in none of the other lists.
pub met_once :
    (n i : ℕ) (xss : List (List ℕ))
    → Partition n xss
    → 0 < total i xss
    → (i < n) × (total i xss ≡ 1)
met_once n i xss p h =
    (occurs-lt n i (omega (arith, p.once i)), omega (arith, p.once i, at_most_one (ltb i n)))

pub occurs_first : (i : ℕ) (xs : List ℕ) → occurs i (i ∷ xs) ≡ 1 + occurs i xs
occurs_first i xs = ground arith

-- The indices below `n`, all in the first of three lists.
pub all_first : (n : ℕ) {xs : List ℕ} → xs ≡ count_up 0 n → Partition n (xs ∷ [] ∷ [] ∷ [])
all_first n e = record {
  once = λ j. omega (arith, (counted_up n).once j, ap (occurs j) e);
  sized = omega (arith, (counted_up n).sized, ap length e);
}
