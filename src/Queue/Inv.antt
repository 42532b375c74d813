-- ===== src/Queue/Inv.antt =====
-- The representation invariant of tn_queue_spsc_t.
use native.Mathlib.Nat.{one-le-pow, pow-le-pow_right, mod-lt}
use tcpeen.Base.{
  ℕ, ◌-◌, ◌*◌, ◌%◌, ◌^◌, ◌≤◌, ◌<◌, ◌≡◌, ◌≢◌, ◌∙◌, Option, some, List, length, length-set, u64_mod,
  add64, sub64, success, arith, inl, inr, Option-cases,
}
use tcpeen.Base.Bits.{and_mask}
use tcpeen.Base.Words.{wrap-mod}
use tcpeen.Queue.{Queue, setup, slot, push, peek, pop, pop_cached, pop_back, pop_all}
use tcpeen.Queue.Round.{round_up, round_up-IsRounded, IsRounded}

-- A queue of 2 ^ k places.
pub record IsValid (k : ℕ) (q : Queue) : Type 0 where
  pub narrow : k ≤ 63
  pub power : q.capacity ≡ 2 ^ k
  pub masked : q.mask ≡ q.capacity - 1
  pub storage : q.capacity ≤ length q.buffer
  pub head_word : q.head < u64_mod
  pub tail_word : q.tail < u64_mod
  pub fits : sub64 q.head q.tail ≤ q.capacity

-- `tn_queue_spsc_peek` has returned an entry that is still the oldest.
pub record IsPeeked (q : Queue) : Type 0 where
  pub cached : q.tail_cache ≡ q.tail
  pub some_left : q.head ≢ q.tail

module _ {k : ℕ} {q : Queue} (v : IsValid k q) where
  pub capacity_bounds : (0 < q.capacity) × (q.capacity ≤ 2 ^ 63)
  capacity_bounds = omega (
    arith,
    v.power,
    one-le-pow k 2,
    pow-le-pow_right {n = 2} (omega arith) {i = k} {j = 63} v.narrow,
  )

  -- The masked index is the remainder, whether or not the counter has wrapped.
  pub slot-mod : (i : ℕ) → slot q (i % u64_mod) ≡ i % q.capacity
  slot-mod i =
      rw (v.masked, v.power) (and_mask k (i % u64_mod) ∙ wrap-mod k i (omega (arith, v.narrow)))

  -- In a valid queue the place of any counter, taken modulo 2 ^ 64, is inside the array.
  pub slot-lt : (i : ℕ) → slot q (i % u64_mod) < length q.buffer
  slot-lt i = omega (arith, slot-mod i, mod-lt i {m = q.capacity} capacity_bounds.0, v.storage)

  pub push-IsValid : (ptr : ℕ) → IsValid k (push q ptr).1
  unfolding push
  push-IsValid ptr = ground (arith, v, capacity_bounds, length-set q.buffer (slot q q.head) ptr)

  pub pop_back-IsValid : IsValid k (pop_back q).2
  unfolding pop_back
  pop_back-IsValid = ground (arith, v, capacity_bounds)

  pub pop-IsValid : IsValid k (pop q).1
  unfolding pop
  pop-IsValid = ground (arith, v, capacity_bounds)

  pub peek-IsValid : IsValid k (peek q).2
  unfolding peek
  peek-IsValid = ground (arith, v)

  pub pop_all-IsValid : (limit : ℕ) → IsValid k (pop_all q limit).3
  unfolding pop_all
  pop_all-IsValid limit = ground (arith, v, capacity_bounds)

  pub pop_cached-IsValid : IsPeeked q → IsValid k (pop_cached q)
  unfolding pop_cached
  pop_cached-IsValid p = ground (arith, v, capacity_bounds)

-- TN_MEM_ACQUIRE returns NULL or at least as many bytes as were asked for.
abbrev pub Acquires : (ℕ → Option (List ℕ)) → Type 0
Acquires acquire = (n : ℕ) (m : List ℕ) → acquire n ≡ some m → n ≤ 8 * length m

-- A setup is determined by the rounding of the capacity.
pub setup_rounded :
    (acquire : ℕ → Option (List ℕ)) (q : Queue) (c k : ℕ) {r : Queue}
    → Acquires acquire
    → c < 2 ^ 60
    → k ≤ 63
    → IsRounded c (round_up c) k
    → setup acquire q c ≡ (success, r)
    → IsValid k r × (r.capacity ≡ round_up c) × (r.head ≡ 0) × (r.tail ≡ 0)
unfolding setup
setup_rounded acquire q c k ok small narrow rounded e =
    let size : ℕ = 8 * add64 1 (round_up c) % u64_mod in
    elim (Option-cases (acquire size)) [
      | inl missing ↦ absurd (ground (arith, missing))
      | inr (m, got) ↦ (
        record {
          narrow = narrow;
          power = ground (arith, got, rounded);
          masked = ground (arith, got, rounded);
          storage = ground (arith, got, rounded, ok size m got);
          head_word = ground (arith, got);
          tail_word = ground (arith, got);
          fits = ground (arith, got);
        },
        ground (arith, got),
        ground (arith, got),
        ground (arith, got),
      )
    ]

-- A successful setup for fewer than 2 ^ 60 places returns a valid empty queue of the smallest power
-- of two that is not below the wanted capacity.
pub setup-IsValid :
    (acquire : ℕ → Option (List ℕ)) (q : Queue) (c : ℕ) {r : Queue}
    → Acquires acquire
    → 0 < c
    → c < 2 ^ 60
    → setup acquire q c ≡ (success, r)
    → (k : ℕ) × IsValid k r × (c ≤ r.capacity) × (r.capacity < 2 * c) × (r.head ≡ 0) × (r.tail ≡ 0)
setup-IsValid acquire q c ok pos small e =
    let (k, narrow, rounded) = round_up-IsRounded c pos (omega arith) in
    let (valid, capacity, head, tail) = setup_rounded acquire q c k ok small narrow rounded e in
    (k, valid, omega (arith, rounded, capacity), omega (arith, rounded, capacity), head, tail)

-- Where the memory is there, the setup succeeds.
pub setup_succeeds :
    (acquire : ℕ → Option (List ℕ)) (q : Queue) (c : ℕ)
    → ((n : ℕ) → (m : List ℕ) × (acquire n ≡ some m))
    → (setup acquire q c).0 ≡ success
unfolding setup
setup_succeeds acquire q c there =
    let (m, got) = there (8 * add64 1 (round_up c) % u64_mod) in ground (arith, got)
