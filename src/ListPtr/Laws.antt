-- ===== src/ListPtr/Laws.antt =====
-- The list as the stack of its entries, the last one on top.
use mathlib.Core.List.{Perm, perm_middle, append-nil}
use native.Mathlib.Decide.{dec_lt}
use mathlib.Core.List.Perm
use tcpeen.Base.{
  ℕ, zero, suc, ◌-◌, ◌*◌, ◌%◌, ◌^◌, ◌≤◌, ◌<◌, ◌≡◌, refl, ap, ◌∙◌, Option, none, some, List, [], ◌∷◌,
  ◌++◌, length, length-set, take, length-take, get_or, set, get_elem?-eq-get_or, get_or-set_self,
  u64_mod, add64, success, error, leb, ◌==◌, ◌⊎◌, inl, inr, Bool-cases, arith, Option-cases, false,
}
use tcpeen.ListPtr.{ListPtr, setup, push_back, pop_back, clear, remove}

pub record IsValid (l : ListPtr) : Type 0 where
  pub storage : l.capacity ≤ length l.cells
  pub within : l.index ≤ l.capacity
  pub word : l.capacity < u64_mod

abbrev pub contents : ListPtr → List ℕ
contents l = take l.index l.cells

take-suc : (xs : List ℕ) (n : ℕ) → n < length xs → take (suc n) xs ≡ take n xs ++ get_or xs n 0 ∷ []
take-suc [] n h = absurd (omega arith)
take-suc (x ∷ xs) zero h = refl
take-suc (x ∷ xs) (suc n) h = ap (λ t. x ∷ t) (take-suc xs n (omega arith))

-- Writing past the entries does not change them.
take-set_after : (xs : List ℕ) (n i v : ℕ) → n ≤ i → take n (set xs i v) ≡ take n xs
take-set_after [] n i v h = refl
take-set_after (x ∷ xs) zero i v h = refl
take-set_after (x ∷ xs) (suc n) zero v h = absurd (omega arith)
take-set_after (x ∷ xs) (suc n) (suc i) v h =
    ap (λ t. x ∷ t) (take-set_after xs n i v (omega arith))

-- Writing over an entry takes it out and puts the new one in.
take-set-perm :
    (xs : List ℕ) (n i v : ℕ)
    → i < n
    → n ≤ length xs
    → Perm (v ∷ take n xs) (get_or xs i 0 ∷ take n (set xs i v))
take-set-perm [] n i v h r = absurd (omega arith)
take-set-perm (x ∷ xs) zero i v h r = absurd (omega arith)
take-set-perm (x ∷ xs) (suc n) zero v h r = Perm.swap x v (take n xs)
take-set-perm (x ∷ xs) (suc n) (suc i) v h r = Perm.trans (Perm.swap x v (take n xs)) (
    Perm.trans (Perm.cons x (take-set-perm xs n i v (omega arith) (omega arith)))
      (Perm.swap (get_or xs i 0) x (take n (set xs i v))))

snoc-perm : (x : ℕ) (xs : List ℕ) → Perm (xs ++ x ∷ []) (x ∷ xs)
snoc-perm x xs = rw append-nil at (perm_middle {a = x} xs [])

module _ (l : ListPtr) (v : IsValid l) where
  open l use {cells, capacity, index}

  pub push_back-IsValid : (item : ℕ) → IsValid (push_back l item).1
  unfolding push_back
  push_back-IsValid item = ground (arith, v, length-set cells index item)

  pub pop_back-IsValid : IsValid (pop_back l).2
  unfolding pop_back
  pop_back-IsValid = ground (arith, v)

  pub remove-IsValid : (i : ℕ) → IsValid (remove l i).1
  unfolding remove
  remove-IsValid i = ground (arith, v, length-set cells i (get_or cells (index - 1) 0))

  last_split : 0 < index → contents l ≡ take (index - 1) cells ++ get_or cells (index - 1) 0 ∷ []
  last_split pos =
      ap (λ n. take n cells) {y = suc (index - 1)} (omega arith)
      ∙ take-suc cells (index - 1) (omega (arith, v))

  -- A push on a valid list succeeds where there is room and puts the item on top; on a full list
  -- it fails and changes nothing.
  pub push_back_lem :
      (item : ℕ)
      → let (s, r) = push_back l item in
        ((s ≡ success) × (index < capacity) × (contents r ≡ contents l ++ item ∷ []))
        ⊎ ((s ≡ error) × (index ≡ capacity) × (r ≡ l))
  unfolding push_back
  push_back_lem item = elim (Bool-cases (leb capacity index)) [
    | inl full ↦ rw full (inr (refl, ground (arith, v), refl))
    | inr room ↦ rw room (inl (refl, ground arith, grown room))
  ]
    where
      grown :
          leb capacity index ≡ false
          → take (add64 index 1) (set cells index item) ≡ take index cells ++ item ∷ []
      grown room =
          rw (next room, take-suc (set cells index item) index (rw length-set (ground (arith, v))))
            (rw (
              take-set_after cells index index item (omega arith),
              get_or-set_self cells index item 0 (ground (arith, v)),
            ))
        where
          next : leb capacity index ≡ false → add64 index 1 ≡ suc index
          next room = ground (arith, v)

  -- A pop from a valid list returns the top entry and leaves the rest; on the empty list it
  -- fails and changes nothing.
  pub pop_back_lem :
      let (s, out, r) = pop_back l in
      ((s ≡ error) × (out ≡ none) × (contents l ≡ []) × (r ≡ l))
      ⊎ ((x : ℕ) × (s ≡ success) × (out ≡ some x) × (contents l ≡ contents r ++ x ∷ []))
  unfolding pop_back
  pop_back_lem = elim (Bool-cases (index == 0)) [
    | inl e ↦ rw e (inl (refl, refl, ap (λ n. take n cells) {y = 0} (ground arith), refl))
    | inr ne ↦ rw ne (
        inr (
          get_or cells (index - 1) 0,
          refl,
          get_elem?-eq-get_or cells (index - 1) 0 (ground (arith, v)),
          last_split (ground arith),
        ))
  ]

  -- Removing an entry in range takes out that entry and no other; the order may change.
  pub remove_lem :
      (i : ℕ)
      → i < index
      → let (s, r) = remove l i in (s ≡ success) × Perm (contents l) (get_or cells i 0 ∷ contents r)
  unfolding remove
  remove_lem i h = rw not_empty (refl, Perm.trans to_front (replaced i h))
    where
      last : ℕ
      last = get_or cells (index - 1) 0

      not_empty : (index == 0) ≡ false
      not_empty = ground arith

      to_front : Perm (contents l) (last ∷ take (index - 1) cells)
      to_front = rw (last_split (omega arith)) (snoc-perm last (take (index - 1) cells))

      replaced :
          (i : ℕ)
          → i < index
          → Perm
              (last ∷ take (index - 1) cells)
              (get_or cells i 0 ∷ take (index - 1) (set cells i last))
      replaced i h = elim (dec_lt i (index - 1)) [
        | yes p ↦ take-set-perm cells (index - 1) i last p (omega (arith, v))
        | no p ↦
            let e : i ≡ index - 1 = omega arith in
            rw (e, take-set_after cells (index - 1) (index - 1) last (omega arith))
              (Perm.refl (last ∷ take (index - 1) cells))
      ]

pub length-contents : (l : ListPtr) → IsValid l → length (contents l) ≡ l.index
length-contents l v = length-take l.index l.cells (omega (arith, v))

pub capacity-push_back : (l : ListPtr) (item : ℕ) → (push_back l item).1.capacity ≡ l.capacity
unfolding push_back
capacity-push_back l item = ground arith

pub capacity-pop_back : (l : ListPtr) → (pop_back l).2.capacity ≡ l.capacity
unfolding pop_back
capacity-pop_back l = ground arith

-- TN_MEM_ACQUIRE, by words.
abbrev pub AcquiresWords : (ℕ → Option (List ℕ)) → Type 0
AcquiresWords acquire = (n : ℕ) (m : List ℕ) → acquire n ≡ some m → n ≤ 8 * length m

-- A successful setup of a capacity below 2 ^ 61 gives an empty list of that capacity.
pub setup_empty :
    (acquire : ℕ → Option (List ℕ)) (c : ℕ)
    → AcquiresWords acquire
    → c < 2 ^ 61
    → (setup acquire c).0 ≡ success
    → let l = (setup acquire c).1 in IsValid l × (contents l ≡ []) × (l.capacity ≡ c)
unfolding setup
setup_empty acquire c ok small e = elim (Option-cases (acquire (c * 8 % u64_mod))) [
  | inl missing ↦ absurd (ground (arith, missing))
  | inr (m, got) ↦
      let built : setup acquire c ≡ (success, record { cells = m; capacity = c; index = 0 }) =
        ground (arith, got) in
      rw built (
        record {
          storage = omega (arith, ok (c * 8 % u64_mod) m got);
          within = omega arith;
          word = omega arith;
        },
        refl,
        refl,
      )
]

-- A cleared list is empty.
pub clear_lem :
    (l : ListPtr)
    → IsValid l
    → IsValid (clear l) × (contents (clear l) ≡ []) × ((clear l).capacity ≡ l.capacity)
unfolding clear
clear_lem l v = (ground (arith, v), refl, refl)

-- Where the memory is there, the setup succeeds.
pub setup_succeeds :
    (acquire : ℕ → Option (List ℕ)) (c : ℕ)
    → ((n : ℕ) → (m : List ℕ) × (acquire n ≡ some m))
    → (setup acquire c).0 ≡ success
unfolding setup
setup_succeeds acquire c there = let (m, got) = there (c * 8 % u64_mod) in ground (arith, got)
