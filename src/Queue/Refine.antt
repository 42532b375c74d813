-- ===== src/Queue/Refine.antt =====
-- The contents of a queue, and its calls next to those of the FIFO of Fifo.antt.
use native.Mathlib.Nat.{mod-add-mod, add-zero, mod-lt, mod-eq_of_lt}
use tcpeen.Base.{
  ℕ, zero, suc, ◌+◌, ◌-◌, ◌%◌, ◌≤◌, ◌<◌, ◌≡◌, ◌≢◌, refl, ap, ap₂, ◌∙◌, sym, some, List, [], ◌∷◌,
  ◌++◌, length, get_or, set, get_or-set_self, get_or-set_ne, get_elem?, subst, get_elem?-eq-get_or,
  u64_mod, add64, sub64, success, arith, inl, inr, true, false, Bool-cases, ◌==◌,
}
use tcpeen.Base.Words.{wrap-mod, mod-add-ne}
use tcpeen.Fifo
use tcpeen.Fifo.{Fifo}
use tcpeen.Queue.{Queue, count, slot, push, peek, pop, pop_cached, pop_back}
use tcpeen.Queue.Inv.{IsValid, IsPeeked, slot-mod, slot-lt, capacity_bounds}

-- The `n` entries from the counter `t` on, going round at `cap`.
abbrev pub window : List ℕ → ℕ → ℕ → ℕ → Fifo
window buf cap t zero = []
window buf cap t (suc n) = get_or buf (t % cap) 0 ∷ window buf cap (t + 1) n

abbrev pub contents : Queue → Fifo
contents q = window q.buffer q.capacity q.tail (sub64 q.head q.tail)

pub length-window : (buf : List ℕ) (cap t n : ℕ) → length (window buf cap t n) ≡ n
length-window buf cap t zero = refl
length-window buf cap t (suc n) = ap suc (length-window buf cap (t + 1) n)

pub length-contents : (q : Queue) → length (contents q) ≡ count q
unfolding count
length-contents q = length-window q.buffer q.capacity q.tail (sub64 q.head q.tail)

-- Only the place of the counter in the ring matters.
pub window-mod :
    (buf : List ℕ) (cap t u n : ℕ) → t % cap ≡ u % cap → window buf cap t n ≡ window buf cap u n
window-mod buf cap t u zero e = refl
window-mod buf cap t u (suc n) e =
    ap₂ ◌∷◌ (ap (λ i. get_or buf i 0) e) (window-mod buf cap (t + 1) (u + 1) n next)
  where
    next : (t + 1) % cap ≡ (u + 1) % cap
    next = sym (mod-add-mod t cap 1) ∙ ap (λ r. (r + 1) % cap) e ∙ mod-add-mod u cap 1

-- Writing just past a window extends it.
window-set :
    (buf : List ℕ) (cap x n t i : ℕ)
    → 0 < cap
    → cap ≤ length buf
    → n < cap
    → i ≡ (t + n) % cap
    → window (set buf i x) cap t (suc n) ≡ window buf cap t n ++ x ∷ []
window-set buf cap x zero t i pos room h e =
    rw (e, add-zero) (rw (get_or-set_self buf (t % cap) x 0 (omega (arith, mod-lt t pos))))
window-set buf cap x (suc n) t i pos room h e =
    ap₂ ◌∷◌ (get_or-set_ne buf i (t % cap) x 0 apart) (
      window-set buf cap x n (t + 1) i pos room (omega arith) (e ∙ ap (λ k. k % cap) (omega arith)))
  where
    apart : i ≢ t % cap
    apart p = mod-add-ne cap t (suc n) (omega arith) h (sym e ∙ p)

window_of_ne_zero :
    (buf : List ℕ) (cap t n : ℕ)
    → n ≢ 0
    → window buf cap t n ≡ get_or buf (t % cap) 0 ∷ window buf cap (t + 1) (n - 1)
window_of_ne_zero buf cap t zero p = absurd (p refl)
window_of_ne_zero buf cap t (suc n) p = ap (λ k. window buf cap t (suc k)) (omega arith)

module _ {k : ℕ} {q : Queue} (v : IsValid k q) where
  open q use {buffer, capacity, head, tail}

  pub head-slot : slot q head ≡ (tail + sub64 head tail) % capacity
  head-slot = ap (slot q) whole ∙ slot-mod v (tail + sub64 head tail)
    where
      whole : head ≡ (tail + sub64 head tail) % u64_mod
      whole = omega (arith, v)

  pub tail-slot : slot q tail ≡ tail % capacity
  tail-slot = ap (slot q) (sym (mod-eq_of_lt v.tail_word)) ∙ slot-mod v tail

  -- A push returns the status of the FIFO's push and leaves the queue holding the FIFO's entries.
  pub push_refines :
      (ptr : ℕ) → let (s, r) = push q ptr in (s, contents r) ≡ Fifo.push capacity (contents q) ptr
  unfolding push Fifo.push
  push_refines ptr = elim (Bool-cases (sub64 head tail == capacity)) [
    | inl full ↦ rw (full, length-window, full)
    | inr room ↦
        rw (room, length-window, room) (rw (one_more room) (ap (λ c. (success, c)) (extend room)))
  ]
    where
      one_more :
          (sub64 head tail == capacity) ≡ false → sub64 (add64 head 1) tail ≡ suc (sub64 head tail)
      one_more room = ground (arith, v, capacity_bounds v)

      extend :
          (sub64 head tail == capacity) ≡ false
          → window (set buffer (slot q head) ptr) capacity tail (suc (sub64 head tail))
            ≡ contents q ++ ptr ∷ []
      extend room =
          window-set buffer capacity ptr (sub64 head tail) tail (slot q head) (capacity_bounds v).0
            v.storage (ground (arith, v)) head-slot

  pub contents_step :
      head ≢ tail
      → contents q ≡ get_or buffer (slot q tail) 0 ∷ contents (record q { tail = add64 tail 1 })
  contents_step ne =
      window_of_ne_zero buffer capacity tail (sub64 head tail) (omega (arith, v))
      ∙ ap₂ ◌∷◌ (ap (λ i. get_or buffer i 0) (sym tail-slot)) (
          window-mod buffer capacity (tail + 1) (add64 tail 1) (sub64 head tail - 1) wrap
          ∙ ap (window buffer capacity (add64 tail 1)) less)
    where
      wrap : (tail + 1) % capacity ≡ add64 tail 1 % capacity
      wrap = rw v.power (sym (wrap-mod k (tail + 1) (omega (arith, v))))

      less : sub64 head tail - 1 ≡ sub64 head (add64 tail 1)
      less = omega (arith, v)

  tail-lt : slot q tail < length buffer
  tail-lt = subst (λ t. slot q t < length buffer) (mod-eq_of_lt v.tail_word) (slot-lt v tail)

  pub oldest : get_elem? buffer (slot q tail) ≡ some (get_or buffer (slot q tail) 0)
  oldest = get_elem?-eq-get_or buffer (slot q tail) 0 tail-lt

  pub none_left : (head == tail) ≡ true → contents q ≡ []
  none_left e = ap (window buffer capacity tail) zero_size
    where
      zero_size : sub64 head tail ≡ 0
      zero_size = ground (arith, v)

  -- A pop that returns its pointer is the FIFO's pop.
  pub pop_back_refines :
      let (s, out, r) = pop_back q in (s, out, contents r) ≡ Fifo.pop (contents q)
  unfolding pop_back Fifo.pop
  pop_back_refines = elim (Bool-cases (head == tail)) [
    | inl e ↦ rw (e, none_left e)
    | inr ne ↦ rw (ne, contents_step (ground arith), oldest)
  ]

  -- So is a pop that does not, but for the pointer.
  pub pop_refines :
      let (s, r) = pop q in let (t, out, f) = Fifo.pop (contents q) in (s ≡ t) × (contents r ≡ f)
  unfolding pop Fifo.pop
  pop_refines = elim (Bool-cases (head == tail)) [
    | inl e ↦ rw (e, none_left e) (refl, refl)
    | inr ne ↦ rw (ne, contents_step (ground arith)) (refl, refl)
  ]

  -- A peek returns the oldest pointer and removes nothing.
  pub peek_refines :
      let (s, out, r) = peek q in ((s, out) ≡ Fifo.peek (contents q)) × (contents r ≡ contents q)
  unfolding peek Fifo.peek
  peek_refines = elim (Bool-cases (head == tail)) [
    | inl e ↦ rw e (rw (none_left e), refl)
    | inr ne ↦ rw ne (rw (contents_step (ground arith), oldest), refl)
  ]

  -- After a peek that still shows the oldest entry, the cached pop removes it.
  pub pop_cached_refines : IsPeeked q → contents (pop_cached q) ≡ (Fifo.pop (contents q)).2
  unfolding pop_cached Fifo.pop
  pop_cached_refines p = rw (contents_step p.some_left, p.cached)
