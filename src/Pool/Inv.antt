-- ===== src/Pool/Inv.antt =====
-- The invariant of a buffer pool, and its pop and push.
use tcpeen.Base.{
  ℕ, ◌+◌, ◌*◌, ◌%◌, suc, ◌≤◌, ◌<◌, ◌≡◌, refl, sym, ap, subst, ◌∙◌, ◌⊎◌, inl, inr, none, some, [],
  ◌∷◌, ◌++◌, length, length-append, length-modify, modify, Below, Below-append, u64_mod, add64,
  sub64, Bool-cases, Option-cases, failed, success, error, arith,
}
use tcpeen.Buffer
use tcpeen.Queue
use tcpeen.Queue.{Queue}
use tcpeen.Queue.Inv as QueueInv
use tcpeen.Queue.Refine.{contents}
use tcpeen.Queue.Cases.{push_cases, pop_back_cases, shifted}
use tcpeen.Pool.{Pool, push, pop_back, taken, reset_at}

pub record IsValid (k : ℕ) (p : Pool) : Type 0 where
  pub queue : QueueInv.IsValid k p.free
  pub counted : p.blocks_inuse + length (contents p.free) ≡ p.block_count
  pub bytes : p.bytes_inuse ≡ p.blocks_inuse * p.block_size % u64_mod
  pub sized : length p.buffers ≡ p.block_count
  pub room : p.block_count ≤ p.free.capacity
  pub words : (p.block_size < u64_mod) × (p.block_count < u64_mod)
  pub known : Below p.block_count (contents p.free)

product_succ : (b s : ℕ) → (b + 1) * s ≡ b * s + s
product_succ b s = omega arith

bytes_more : (b s : ℕ) → add64 (b * s % u64_mod) s ≡ (b + 1) * s % u64_mod
bytes_more b s =
    ap (λ x. x % u64_mod) refl ∙ step (b * s) s ∙ ap (λ x. x % u64_mod) (sym (product_succ b s))
  where
    step : (x s : ℕ) → add64 (x % u64_mod) s ≡ (x + s) % u64_mod
    step x s = omega arith

bytes_less : (b s : ℕ) → s < u64_mod → sub64 ((b + 1) * s % u64_mod) s ≡ b * s % u64_mod
bytes_less b s h = ap (λ x. sub64 (x % u64_mod) s) (product_succ b s) ∙ step (b * s) s h
  where
    step : (x s : ℕ) → s < u64_mod → sub64 ((x + s) % u64_mod) s ≡ x % u64_mod
    step x s h = omega arith

module _ {k : ℕ} {p : Pool} (v : IsValid k p) where
  -- Buffer `i` has left the pool, reset.
  abbrev pub Hands : ℕ → Pool → Type 0
  Hands i r =
      (contents p.free ≡ i ∷ contents r.free)
      × (r.blocks_inuse ≡ p.blocks_inuse + 1)
      × (r.buffers ≡ modify p.buffers i Buffer.reset)
      × (i < p.block_count)
      × IsValid k r

  pub taken-IsValid :
      (i : ℕ) (q : Queue)
      → contents p.free ≡ i ∷ contents q
      → QueueInv.IsValid k q
      → q.capacity ≡ p.free.capacity
      → Hands i (reset_at (some i) (taken p q))
  unfolding reset_at taken
  taken-IsValid i q e w c = (
    e,
    one_more,
    refl,
    below.0,
    record {
      queue = w;
      counted = omega (arith, one_more, v.counted, length_step);
      bytes =
          ap (λ b. add64 b p.block_size) v.bytes
          ∙ bytes_more p.blocks_inuse p.block_size
          ∙ ap (λ b. b * p.block_size % u64_mod) (sym one_more);
      sized = length-modify p.buffers i Buffer.reset ∙ v.sized;
      room = omega (arith, v.room, c);
      words = v.words;
      known = below.1;
    },
  )
    where
      length_step : length (contents p.free) ≡ suc (length (contents q))
      length_step = ap length e

      one_more : add64 p.blocks_inuse 1 ≡ p.blocks_inuse + 1
      one_more = omega (arith, v.counted, length_step, v.words.1)

      below : Below p.block_count (i ∷ contents q)
      below = subst (Below p.block_count) e v.known

  -- A pop from a valid pool hands out the buffer that has been free for longest, reset, counts
  -- it as in use and leaves a valid pool; where none is free it fails and changes nothing.
  pub pop_back-Hands :
      let (s, out, r) = pop_back p in
      ((contents p.free ≡ []) × (s ≡ error) × (out ≡ none) × (r ≡ p))
      ⊎ ((i : ℕ) × (s ≡ success) × (out ≡ some i) × Hands i r)
  unfolding pop_back
  pop_back-Hands = elim (pop_back_cases v.queue) [
    | inl (e, _, _, none_left) ↦ rw e (inl (none_left, refl, refl, refl))
    | inr (i, e, _, _, step, w) ↦
        rw e (inr (i, refl, refl, taken-IsValid i (shifted p.free) step w refl))
  ]

  -- A buffer that is given back to a valid pool while a block is in use always fits: it becomes
  -- the newest free one, one block less is in use, and the pool stays valid.
  pub push_returns :
      (i : ℕ)
      → 0 < p.blocks_inuse
      → i < p.block_count
      → let (s, r) = push p i in
        (s ≡ success)
        × (contents r.free ≡ contents p.free ++ i ∷ [])
        × (r.blocks_inuse + 1 ≡ p.blocks_inuse)
        × (r.buffers ≡ p.buffers)
        × IsValid k r
  unfolding push
  push_returns i some_out h = elim (push_cases v.queue i) [
    | inl (_, full) ↦ absurd (omega (arith, full, v.counted, v.room))
    | inr (q, e, step, w, c, _) ↦ rw e (
      refl,
      step,
      one_less,
      refl,
      record {
        queue = w;
        counted = omega (arith, one_less, v.counted, longer q i step);
        bytes =
            ap (λ b. sub64 b p.block_size)
              (v.bytes ∙ ap (λ b. b * p.block_size % u64_mod) (sym one_less))
            ∙ bytes_less (sub64 p.blocks_inuse 1) p.block_size v.words.0;
        sized = v.sized;
        room = omega (arith, v.room, c);
        words = v.words;
        known =
            subst (Below p.block_count) (sym step)
              (Below-append p.block_count (contents p.free) (i ∷ []) v.known (h, tt));
      },
    )
  ]
    where
      one_less : sub64 p.blocks_inuse 1 + 1 ≡ p.blocks_inuse
      one_less = omega (arith, v.counted, v.words.1, some_out)

      longer :
          (q : Queue) (i : ℕ)
          → contents q ≡ contents p.free ++ i ∷ []
          → length (contents q) ≡ length (contents p.free) + 1
      longer q i step = ap length step ∙ length-append (contents p.free) (i ∷ [])

pub push-blocks :
    (p : Pool) (i : ℕ)
    → ((push p i).1.block_count ≡ p.block_count) × ((push p i).1.block_size ≡ p.block_size)
unfolding push
push-blocks p i = elim (Bool-cases (failed (Queue.push p.free i).0)) [
  | inl bad ↦ rw bad (refl, refl)
  | inr good ↦ rw good (refl, refl)
]

pub pop_back-blocks :
    (p : Pool)
    → ((pop_back p).2.block_count ≡ p.block_count) × ((pop_back p).2.block_size ≡ p.block_size)
unfolding pop_back taken reset_at
pop_back-blocks p = elim (Bool-cases (failed (Queue.pop_back p.free).0)) [
  | inl bad ↦ rw bad (refl, refl)
  | inr good ↦ elim (Option-cases (Queue.pop_back p.free).1) [
    | inl nothing ↦ rw (good, nothing) (refl, refl)
    | inr (i, there) ↦ rw (good, there) (refl, refl)
  ]
]
