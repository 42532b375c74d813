-- ===== src/Events/Laws.antt =====
-- The calls of src/event.c and who holds which event.
use tcpeen.Base.{
  ℕ, ◌<◌, ◌≡◌, refl, ap, subst, ◌∙◌, ◌⊎◌, inl, inr, none, some, List, [], ◌∷◌, ◌++◌, map, min,
  Bool-cases, failed, length, length-append, length-modify, modify, Partition, occurs,
  occurs-append, size, first-lt, success, error, arith,
}
use tcpeen.Queue
use tcpeen.Queue.Refine.{contents}
use tcpeen.Queue.Cases.{push_cases, pop_back_cases, pop_all_cases, shifted, dropped}
use tcpeen.Events.{Event, EventList, free_pop, ready_push, ready_pop_all, free_push}
use tcpeen.Events.Inv.{IsValid}

module _ {k : ℕ} {held : List ℕ} {l : EventList} (v : IsValid k held l) where
  -- The oldest free event is changed by `f` and handed out, the ready events stay, and every
  -- event is still in one place; where none is free the call fails and changes nothing.
  pub free_pop_lem :
      (f : Event → Event)
      → let (s, out, r) = free_pop f l in
        ((contents l.free ≡ []) × (s ≡ error) × (out ≡ none) × (r ≡ l))
        ⊎ ((i : ℕ) × (s ≡ success)
            × (out ≡ some i)
            × (i < l.capacity)
            × (contents l.free ≡ i ∷ contents r.free)
            × (r.events ≡ modify l.events i f)
            × (contents r.ready ≡ contents l.ready)
            × IsValid k (i ∷ held) r)
  unfolding free_pop
  free_pop_lem f = elim (pop_back_cases v.free_queue) [
    | inl (e, _, _, none_left) ↦ rw e (inl (none_left, refl, refl, refl))
    | inr (i, e, _, _, step, w) ↦ rw e (
        inr (
          i,
          refl,
          refl,
          in_range i (contents (shifted l.free)) step,
          step,
          refl,
          refl,
          record {
            free_queue = w;
            ready_queue = v.ready_queue;
            free_capacity = v.free_capacity;
            ready_capacity = v.ready_capacity;
            stored = omega (arith, length-modify l.events i f, v.stored);
            owned = moved i (contents (shifted l.free)) step;
          },
        ))
  ]
    where
      in_range : (i : ℕ) (rest : List ℕ) → contents l.free ≡ i ∷ rest → i < l.capacity
      in_range i rest step =
          first-lt l.capacity i rest (contents l.ready ∷ held ∷ [])
            (subst (λ xs. Partition l.capacity (xs ∷ contents l.ready ∷ held ∷ [])) step v.owned)

      moved :
          (i : ℕ) (rest : List ℕ)
          → contents l.free ≡ i ∷ rest
          → Partition l.capacity (rest ∷ contents l.ready ∷ (i ∷ held) ∷ [])
      moved i rest step = record {
        once = λ j. omega (arith, v.owned.once j, ap (occurs j) step);
        sized = omega (arith, v.owned.sized, ap length step);
      }

module _ {k i : ℕ} {held : List ℕ} {l : EventList} (v : IsValid k (i ∷ held) l) where
  -- The holder of an event can always make it ready: the push succeeds, the event becomes the
  -- newest ready one, the free events and the contents of the events stay, and every event is
  -- still in one place.
  pub ready_push_lem :
      let (s, r) = ready_push l i in
      (s ≡ success)
      × (contents r.ready ≡ contents l.ready ++ i ∷ [])
      × (contents r.free ≡ contents l.free)
      × (r.events ≡ l.events)
      × IsValid k held r
  unfolding ready_push
  ready_push_lem = elim (push_cases v.ready_queue i) [
    | inl (_, full) ↦ absurd (omega (arith, full, v.ready_capacity, v.owned.sized))
    | inr (q, e, step, w, c, _) ↦ rw e (
      refl,
      step,
      refl,
      refl,
      record {
        free_queue = v.free_queue;
        ready_queue = w;
        free_capacity = v.free_capacity;
        ready_capacity = c ∙ v.ready_capacity;
        stored = v.stored;
        owned = record {
          once = λ j. omega (
            arith,
            v.owned.once j,
            ap (occurs j) step,
            occurs-append j (contents l.ready) (i ∷ []),
          );
          sized =
              omega
                (arith, v.owned.sized, ap length step, length-append (contents l.ready) (i ∷ []));
        };
      },
    )
  ]

  -- The holder of an event can always give it back: the push succeeds, the event becomes the
  -- newest free one, the ready events and the contents of the events stay, and every event is
  -- still in one place.
  pub free_push_lem :
      let (s, r) = free_push l i in
      (s ≡ success)
      × (contents r.free ≡ contents l.free ++ i ∷ [])
      × (contents r.ready ≡ contents l.ready)
      × (r.events ≡ l.events)
      × IsValid k held r
  unfolding free_push
  free_push_lem = elim (push_cases v.free_queue i) [
    | inl (_, full) ↦ absurd (omega (arith, full, v.free_capacity, v.owned.sized))
    | inr (q, e, step, w, c, _) ↦ rw e (
      refl,
      step,
      refl,
      refl,
      record {
        free_queue = w;
        ready_queue = v.ready_queue;
        free_capacity = c ∙ v.free_capacity;
        ready_capacity = v.ready_capacity;
        stored = v.stored;
        owned = record {
          once = λ j. omega (
            arith,
            v.owned.once j,
            ap (occurs j) step,
            occurs-append j (contents l.free) (i ∷ []),
          );
          sized =
              omega
                (arith, v.owned.sized, ap length step, length-append (contents l.free) (i ∷ []));
        };
      },
    )
  ]

module _ {k : ℕ} {held : List ℕ} {l : EventList} (v : IsValid k held l) where
  -- The oldest ready events are handed out in order, at most `limit` of them, and every event is
  -- still in one place; where none is ready the call fails and changes nothing.
  pub ready_pop_all_lem :
      (limit : ℕ)
      → let (s, outs, n, r) = ready_pop_all l limit in
        ((contents l.ready ≡ []) × (s ≡ error) × (outs ≡ []) × (r ≡ l))
        ⊎ ((taken : List ℕ) × (s ≡ success)
            × (outs ≡ map some taken)
            × (n ≡ length taken)
            × (n ≡ min (length (contents l.ready)) limit)
            × (contents l.ready ≡ taken ++ contents r.ready)
            × IsValid k (taken ++ held) r)
  unfolding ready_pop_all
  ready_pop_all_lem limit = elim (pop_all_cases v.ready_queue limit) [
    | inl (e, none_left) ↦ rw e (inl (none_left, refl, refl, refl))
    | inr (taken, e, step, size, w) ↦ rw e (
        inr (
          taken,
          refl,
          refl,
          refl,
          size,
          step,
          record {
            free_queue = v.free_queue;
            ready_queue = w;
            free_capacity = v.free_capacity;
            ready_capacity = v.ready_capacity;
            stored = v.stored;
            owned = moved taken (contents (dropped v.ready_queue (length taken))) step;
          },
        ))
  ]
    where
      moved :
          (taken rest : List ℕ)
          → contents l.ready ≡ taken ++ rest
          → Partition l.capacity (contents l.free ∷ rest ∷ (taken ++ held) ∷ [])
      moved taken rest step = record {
        once = λ j. omega (
          arith,
          v.owned.once j,
          ap (occurs j) step,
          occurs-append j taken rest,
          occurs-append j taken held,
        );
        sized = omega (
          arith,
          v.owned.sized,
          ap length step,
          length-append taken rest,
          length-append taken held,
        );
      }

-- Only the ready queue is changed.
pub ready_pop_all_same :
    (l : EventList) (limit : ℕ)
    → let r = (ready_pop_all l limit).3 in r ≡ record l { ready = r.ready }
unfolding ready_pop_all
ready_pop_all_same l limit = elim (Bool-cases (failed (Queue.pop_all l.ready limit).0)) [
  | inl bad ↦ rw bad refl
  | inr good ↦ rw good refl
]
