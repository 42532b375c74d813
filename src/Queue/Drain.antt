-- ===== src/Queue/Drain.antt =====
-- `tn_queue_spsc_pop_all`, and the peek before a cached pop.
use native.Mathlib.Nat.{add-zero}
use tcpeen.Base.{
  ℕ, zero, suc, ◌+◌, ◌-◌, ◌%◌, ◌≤◌, ◌<◌, min, ◌≡◌, refl, ap, ap₂, ◌∙◌, some, List, ◌∷◌, get_or,
  get_elem?, get_elem?-eq-get_or, take, drop, map, u64_mod, add64, sub64, ltb, ◌==◌, if◌then◌else◌,
  success, arith, inl, inr, Bool-cases,
}
use tcpeen.Base.Words.{wrap-mod}
use tcpeen.Fifo
use tcpeen.Fifo.{Fifo, Op, Reply, put, look, remove, get, drain}
use tcpeen.Queue.{Queue, slot, peek, pop_cached, pop_back, pop_all, copy_out}
use tcpeen.Queue.Inv.{IsValid, IsPeeked, capacity_bounds, slot-mod, slot-lt}
use tcpeen.Queue.Refine.{window, window-mod, none_left, length-window, contents}

pub take-window :
    (buf : List ℕ) (cap t n m : ℕ) → n ≤ m → take n (window buf cap t m) ≡ window buf cap t n
take-window buf cap t zero m h = refl
take-window buf cap t (suc n) zero h = absurd (omega arith)
take-window buf cap t (suc n) (suc m) h =
    ap (λ w. get_or buf (t % cap) 0 ∷ w) (take-window buf cap (t + 1) n m (omega arith))

pub drop-window :
    (buf : List ℕ) (cap t n m : ℕ)
    → n ≤ m
    → drop n (window buf cap t m) ≡ window buf cap (t + n) (m - n)
drop-window buf cap t zero m h = ap₂ (window buf cap) (omega arith) (omega arith)
drop-window buf cap t (suc n) zero h = absurd (omega arith)
drop-window buf cap t (suc n) (suc m) h =
    drop-window buf cap (t + 1) n m (omega arith) ∙ ap₂ (window buf cap) (omega arith) (omega arith)

module _ {k : ℕ} {q : Queue} (v : IsValid k q) where
  open q use {buffer, capacity, head, tail}

  -- The copying loop writes out a window.
  copy_out-window :
      (n off : ℕ)
      → off + n < u64_mod
      → copy_out q off n ≡ map some (window buffer capacity (tail + off) n)
  unfolding copy_out
  copy_out-window zero off h = refl
  copy_out-window (suc n) off h = ap₂ ◌∷◌ first (
      ap (λ i. copy_out q i n) no_wrap
      ∙ copy_out-window n (off + 1) (omega arith)
      ∙ ap (λ t. map some (window buffer capacity t n)) shift)
    where
      no_wrap : add64 off 1 ≡ off + 1
      no_wrap = omega arith

      shift : tail + (off + 1) ≡ tail + off + 1
      shift = omega arith

      first :
          get_elem? buffer (slot q (add64 tail off))
          ≡ some (get_or buffer ((tail + off) % capacity) 0)
      first =
          get_elem?-eq-get_or buffer (slot q (add64 tail off)) 0 (slot-lt v (tail + off))
          ∙ ap (λ i. some (get_or buffer i 0)) (slot-mod v (tail + off))

  -- A bulk pop from a valid queue returns the status, the pointers and the count of the bulk pop
  -- of the FIFO, and leaves the entries that it leaves.
  pub pop_all_refines :
      (limit : ℕ)
      → let (s, outs, n, r) = pop_all q limit in
        (s, outs, n, contents r) ≡ Fifo.pop_all (contents q) limit
  unfolding pop_all Fifo.pop_all
  pop_all_refines limit = elim (Bool-cases (sub64 head tail == 0)) [
    | inl e ↦ rw (e, none_left v (ground (arith, v)))
    | inr ne ↦
        rw
          (
            ne,
            Fifo.pop_all-some (contents q) limit
                (ground (arith, length-window buffer capacity tail (sub64 head tail))),
            length-window,
            bounded,
            copy_out-window n 0 (omega (arith, v, capacity_bounds v)),
            take-window buffer capacity tail n (sub64 head tail) (omega arith),
            drop-window buffer capacity tail n (sub64 head tail) (omega arith),
          )
          (rw (add-zero, left))
  ]
    where
      n : ℕ
      n = min (sub64 head tail) limit

      left :
          window buffer capacity (add64 tail n) (sub64 head (add64 tail n))
          ≡ window buffer capacity (tail + n) (sub64 head tail - n)
      left =
          ap (window buffer capacity (add64 tail n)) (omega (arith, v, capacity_bounds v))
          ∙ window-mod buffer capacity (add64 tail n) (tail + n) (sub64 head tail - n)
              (rw v.power (wrap-mod k (tail + n) (omega (arith, v))))

      bounded : (if ltb (sub64 head tail) limit then sub64 head tail else limit) ≡ n
      bounded = ground arith

  -- A peek that succeeds and the cached pop after it hand out and leave what one `pop_back`
  -- does.
  pub peek-pop_cached :
      (peek q).0 ≡ success
      → let (s, out, r) = peek q in
        let (t, popped, u) = pop_back q in
        (s ≡ t) × (out ≡ popped) × (contents (pop_cached r) ≡ contents u)
  unfolding peek pop_back pop_cached
  peek-pop_cached e = ground arith

  -- What a successful peek leaves is ready for the cached pop.
  pub peek-IsPeeked : (peek q).0 ≡ success → IsPeeked (peek q).2
  unfolding peek
  peek-IsPeeked e = ground arith
