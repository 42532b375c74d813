-- ===== src/Pool/Peek.antt =====
-- A buffer of the pool that is looked at, and the contents of the buffers.
use tcpeen.Base.{
  ℕ, ◌<◌, ◌≡◌, refl, sym, ap, subst, ◌∙◌, ◌⊎◌, inl, inr, none, some, List, [], ◌∷◌, length,
  length-modify, modify, set, get_elem?, get_elem?-set, get_elem?-modify, Below, success, error,
  arith,
}
use tcpeen.Buffer
use tcpeen.Buffer.{Buffer}
use tcpeen.Buffer.Inv as BufferInv
use tcpeen.Buffer.Copy.{reset_lem, capacity-reset}
use tcpeen.Queue
use tcpeen.Queue.{Queue}
use tcpeen.Queue.Inv as QueueInv
use tcpeen.Queue.Refine.{contents}
use tcpeen.Queue.Cases.{pop_back_cases, shifted, recache}
use tcpeen.Pool.{Pool, peek, pop_cached, reset_at, taken}
use tcpeen.Pool.Inv.{IsValid, taken-IsValid}

-- Every buffer is valid and has the size of a block.
abbrev pub AreValid : ℕ → List Buffer → Type 0
AreValid n bs =
    (j : ℕ) (b : Buffer)
    → get_elem? bs j ≡ some b
    → (at : ℕ) × BufferInv.IsValid at b × (b.buf.capacity ≡ n)

pub set-AreValid :
    (n : ℕ) (bs : List Buffer) (i : ℕ) {b : Buffer} {at : ℕ}
    → AreValid n bs
    → BufferInv.IsValid at b
    → b.buf.capacity ≡ n
    → AreValid n (set bs i b)
set-AreValid n bs i {b} {at} v w c j x h = elim (get_elem?-set bs i j b h) [
  | inl (_, e) ↦ (at, subst (BufferInv.IsValid at) (sym e) w, ap (λ y. y.buf.capacity) e ∙ c)
  | inr g ↦ v j x g
]

pub reset-AreValid :
    (n : ℕ) (bs : List Buffer) (i : ℕ) → AreValid n bs → AreValid n (modify bs i Buffer.reset)
reset-AreValid n bs i v j x h = elim (get_elem?-modify bs i j Buffer.reset h) [
  | inl (_, y, g, e) ↦
      let (at, w, c) = v j y g in
      (
        0,
        subst (BufferInv.IsValid 0) (sym e) (reset_lem w).0,
        ap (λ y. y.buf.capacity) e ∙ capacity-reset y ∙ c,
      )
  | inr g ↦ v j x g
]

-- The pool after buffer `i` has been looked at.
abbrev pub peeked : ℕ → Pool → Pool
peeked i p = record p {
  free = record (p.free) { tail_cache = p.free.tail };
  buffers = modify p.buffers i Buffer.reset;
}

-- Other buffers of the same number do not matter to the pool.
pub rebuffer :
    {k : ℕ} {p : Pool}
    → IsValid k p
    → (bs : List Buffer) → length bs ≡ p.block_count
    → IsValid k (record p { buffers = bs })
rebuffer v bs e = record {
  queue = v.queue;
  counted = v.counted;
  bytes = v.bytes;
  sized = e;
  room = v.room;
  words = v.words;
  known = v.known;
}

-- Neither does the cached tail of its free queue.
pub peeked-IsValid : {k : ℕ} {p : Pool} → IsValid k p → (i : ℕ) → IsValid k (peeked i p)
peeked-IsValid {p = p} v i = record {
  queue = recache v.queue p.free.tail;
  counted = v.counted;
  bytes = v.bytes;
  sized = length-modify p.buffers i Buffer.reset ∙ v.sized;
  room = v.room;
  words = v.words;
  known = v.known;
}

module _ {k : ℕ} {p : Pool} (v : IsValid k p) where
  pub peek_cases :
      ((peek p ≡ (error, none, p)) × (contents p.free ≡ []))
      ⊎ ((i : ℕ) × (peek p ≡ (success, some i, peeked i p))
          × (contents p.free ≡ i ∷ contents (shifted p.free))
          × (i < p.block_count))
  unfolding peek reset_at
  peek_cases = elim (pop_back_cases v.queue) [
    | inl (_, _, e, none_left) ↦ inl (rw e refl, none_left)
    | inr (i, _, _, e, step, _) ↦
        inr (i, rw e refl, step, (subst (Below p.block_count) step v.known).0)
  ]

  after_shift :
      (i : ℕ)
      → contents p.free ≡ i ∷ contents (shifted p.free)
      → QueueInv.IsValid k (shifted p.free)
  after_shift i step = elim (pop_back_cases v.queue) [
    | inl (_, _, _, none_left) ↦ absurd (ground (arith, none_left, step))
    | inr (_, _, _, _, _, w) ↦ w
  ]

  -- The cached pop after the look takes the buffer out.
  pub pop_cached-peeked :
      (i : ℕ) (bs : List Buffer)
      → contents p.free ≡ i ∷ contents (shifted p.free)
      → length bs ≡ p.block_count
      → let r = pop_cached (record (peeked i p) { buffers = bs }) in
        IsValid k r
        × (contents r.free ≡ contents (shifted p.free))
        × (r.buffers ≡ bs)
        × (r.block_count ≡ p.block_count)
        × (r.block_size ≡ p.block_size)
  unfolding pop_cached taken Queue.pop_cached reset_at
  pop_cached-peeked i bs step e =
      let q : Queue = record (shifted p.free) { tail_cache = p.free.tail } in
      let w = taken-IsValid v i q step (recache (after_shift i step) p.free.tail) refl in
      (rebuffer w.4 bs e, refl, refl, refl, refl)
