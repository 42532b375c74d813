-- ===== src/Queue/Cases.antt =====
-- What one call does to a valid queue, in the form that the users of the queue apply.
use tcpeen.Base.{
  ℕ, ◌≡◌, ◌≢◌, refl, sym, ap, ap₂, false, subst, set, ◌∙◌, ◌⊎◌, inl, inr, Option, none, some, List,
  [], ◌∷◌, ◌++◌, ◌==◌, Bool-cases, length, sub64, add64, Status, success, queue_empty, queue_full,
  arith, get_or, take, drop, take-append-drop, length-take, min, map, ltb, if◌then◌else◌,
}
use tcpeen.Fifo
use tcpeen.Queue.{Queue, slot, push, peek, pop, pop_back, pop_all, copy_out}
use tcpeen.Queue.Inv.{IsValid, push-IsValid, pop-IsValid, pop_all-IsValid}
use tcpeen.Queue.Drain.{pop_all_refines}
use tcpeen.Queue.Refine.{contents, length-window, push_refines, none_left, contents_step, oldest}

-- The queue after a push.
abbrev pub pushed : ℕ → Queue → Queue
pushed x q = record q { buffer = set q.buffer (slot q q.head) x; head = add64 q.head 1 }

-- The queue after its oldest entry is gone.
abbrev pub shifted : Queue → Queue
shifted q = record q { tail = add64 q.tail 1 }

-- The cached tail is no part of the invariant.
pub recache : {k : ℕ} {q : Queue} → IsValid k q → (t : ℕ) → IsValid k (record q { tail_cache = t })
recache v t = record {
  narrow = v.narrow;
  power = v.power;
  masked = v.masked;
  storage = v.storage;
  head_word = v.head_word;
  tail_word = v.tail_word;
  fits = v.fits;
}

module _ {k : ℕ} {q : Queue} (v : IsValid k q) where
  pub push_cases :
      (x : ℕ)
      → ((push q x ≡ (queue_full, q)) × (length (contents q) ≡ q.capacity))
        ⊎ ((r : Queue) × (push q x ≡ (success, r))
            × (contents r ≡ contents q ++ x ∷ [])
            × IsValid k r
            × (r.capacity ≡ q.capacity)
            × (length (contents q) ≢ q.capacity))
  push_cases x = elim (Bool-cases (sub64 q.head q.tail == q.capacity)) [
    | inl full ↦ inl (unfold push in rw full, rw length-window (ground arith))
    | inr room ↦
        let e : push q x ≡ (success, pushed x q) = unfold push in rw room in
        inr (
          pushed x q,
          e,
          ap (λ p. contents p.1) (sym e)
              ∙ ap (λ p. p.1) (push_refines v x)
              ∙ (unfold Fifo.push in rw (length-window, room)),
          subst (λ p. IsValid k p.1) e (push-IsValid v x),
          refl,
          rw length-window (ground arith),
        )
  ]

  pub pop_back_cases :
      ((pop_back q ≡ (queue_empty, none, q))
        × (pop q ≡ (queue_empty, q))
        × (peek q ≡ (queue_empty, none, q))
        × (contents q ≡ []))
      ⊎ ((x : ℕ) × (pop_back q ≡ (success, some x, shifted q))
          × (pop q ≡ (success, shifted q))
          × (peek q ≡ (success, some x, record q { tail_cache = q.tail }))
          × (contents q ≡ x ∷ contents (shifted q))
          × IsValid k (shifted q))
  pop_back_cases = elim (Bool-cases (q.head == q.tail)) [
    | inl e ↦ inl (unfold pop_back in rw e, unfold pop in rw e, unfold peek in rw e, none_left v e)
    | inr ne ↦
        let popped : pop q ≡ (success, shifted q) = unfold pop in rw ne in
        inr (
          get_or q.buffer (slot q q.tail) 0,
          unfold pop_back in rw (ne, oldest v),
          popped,
          unfold peek in rw (ne, oldest v),
          contents_step v (ground arith),
          subst (λ p. IsValid k p.1) popped (pop-IsValid v),
        )
  ]

  -- The queue after `n` entries are gone.
  abbrev pub dropped : ℕ → Queue
  dropped n = record q { tail = add64 q.tail n }

  pub pop_all_cases :
      (limit : ℕ)
      → ((pop_all q limit ≡ (queue_empty, [], limit, q)) × (contents q ≡ []))
        ⊎ ((taken : List ℕ) × (pop_all q limit
              ≡ (success, map some taken, length taken, dropped (length taken)))
            × (contents q ≡ taken ++ contents (dropped (length taken)))
            × (length taken ≡ min (length (contents q)) limit)
            × IsValid k (dropped (length taken)))
  pop_all_cases limit = elim (Bool-cases (sub64 q.head q.tail == 0)) [
    | inl e ↦ inl (unfold pop_all in rw e, none_left v (ground (arith, v)))
    | inr ne ↦ inr (
      taken,
      popped ne ∙ ap₂ (λ outs m. (success, outs, m, dropped m)) (outs ne) (sym size),
      rw size (sym (take-append-drop n (contents q)) ∙ ap (λ xs. taken ++ xs) (sym (left ne))),
      size,
      rw size (subst (λ p. IsValid k p.3) (popped ne) (pop_all-IsValid v limit)),
    )
  ]
    where
      n : ℕ
      n = min (length (contents q)) limit

      taken : List ℕ
      taken = take n (contents q)

      size : length taken ≡ n
      size = length-take n (contents q) (omega arith)

      bounded : (if ltb (sub64 q.head q.tail) limit then sub64 q.head q.tail else limit) ≡ n
      bounded = ground (arith, length-window q.buffer q.capacity q.tail (sub64 q.head q.tail))

      popped :
          (sub64 q.head q.tail == 0) ≡ false
          → pop_all q limit ≡ (success, copy_out q 0 n, n, dropped n)
      popped ne = unfold pop_all in rw (ne, bounded)

      spec :
          (sub64 q.head q.tail == 0) ≡ false
          → ◌≡◌ {A = Status × List (Option ℕ) × ℕ × List ℕ}
              (
                (pop_all q limit).0,
                (pop_all q limit).1,
                (pop_all q limit).2,
                contents (pop_all q limit).3,
              )
              (success, map some taken, n, drop n (contents q))
      spec ne =
          pop_all_refines v limit
          ∙ Fifo.pop_all-some (contents q) limit
              (ground (arith, length-window q.buffer q.capacity q.tail (sub64 q.head q.tail)))

      outs : (sub64 q.head q.tail == 0) ≡ false → copy_out q 0 n ≡ map some taken
      outs ne = ap (λ p. p.1) (sym (popped ne)) ∙ ap (λ p. p.1) (spec ne)

      left : (sub64 q.head q.tail == 0) ≡ false → contents (dropped n) ≡ drop n (contents q)
      left ne = ap (λ p. contents p.3) (sym (popped ne)) ∙ ap (λ p. p.3) (spec ne)
