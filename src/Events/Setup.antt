-- ===== src/Events/Setup.antt =====
-- The event list that `tn_event_list_setup` leaves.
use tcpeen.Base.{
  ℕ, zero, suc, ◌+◌, ◌*◌, ◌%◌, ◌^◌, ◌≤◌, ◌<◌, ◌≡◌, refl, sym, ap, subst, ◌∙◌, inl, inr, Option,
  some, List, [], ◌∷◌, ◌++◌, length, length-modify, length-count_up, count_up, count_up_next,
  counted_up, occurs, modify, ltb, Bool-cases, u64_mod, success, arith,
}
use tcpeen.Queue
use tcpeen.Queue.{Queue}
use tcpeen.Queue.Inv as QueueInv
use tcpeen.Queue.Inv.{Acquires, setup_rounded}
use tcpeen.Queue.Round.{round_up-IsRounded}
use tcpeen.Queue.Refine.{contents, none_left}
use tcpeen.Queue.Cases.{push_cases}
use tcpeen.Events.{Event, EventList, fill, setup, sizeof_event}
use tcpeen.Events.Inv.{IsValid}

-- The event list after `i` rounds of the loop.
pub record IsFilled (k i : ℕ) (l : EventList) : Type 0 where
  pub free_queue : QueueInv.IsValid k l.free
  pub ready_queue : QueueInv.IsValid k l.ready
  pub free_capacity : l.free.capacity ≡ l.capacity
  pub ready_capacity : l.ready.capacity ≡ l.capacity
  pub stored : l.capacity ≤ length l.events
  pub free_events : contents l.free ≡ count_up 0 i
  pub none_ready : contents l.ready ≡ []

-- Every round makes the next event free; after the last one, all are.
pub fill_lem :
    {k : ℕ} (rounds i : ℕ) {l : EventList}
    → IsFilled k i l
    → i ≤ l.capacity
    → l.capacity < i + rounds
    → l.capacity < 2 ^ 32
    → (r : EventList) × (fill rounds i l ≡ (success, r))
      × IsFilled k l.capacity r
      × (r.capacity ≡ l.capacity)
unfolding fill
fill_lem zero i w h fuel small = absurd (omega arith)
fill_lem {k} (suc rounds) i {l} w h fuel small = elim (Bool-cases (ltb i l.capacity)) [
  | inl more ↦ elim (push_cases w.free_queue i) [
    | inl (_, full) ↦
        absurd (ground (arith, full, ap length w.free_events, length-count_up 0 i, w.free_capacity))
    | inr (q, e, step, v, c, _) ↦
        let l' : EventList = record l {
          events = modify l.events i (λ e. record e { id = i });
          free = q;
        } in
        let next : (i + 1) % 2 ^ 32 ≡ i + 1 = ground arith in
        let round : fill (suc rounds) i l ≡ fill rounds (i + 1) l' = rw (more, e, next) refl in
        let (r, done, w', same) =
          fill_lem rounds (i + 1) {l = l'}
            (record {
              free_queue = v;
              ready_queue = w.ready_queue;
              free_capacity = c ∙ w.free_capacity;
              ready_capacity = w.ready_capacity;
              stored = omega (arith, w.stored, length-modify l.events i (λ e. record e { id = i }));
              free_events = step ∙ ap (λ xs. xs ++ i ∷ []) w.free_events ∙ sym (count_up_next i);
              none_ready = w.none_ready;
            })
            (ground arith) (omega arith) small in
        (r, round ∙ done, w', same)
  ]
  | inr stop ↦
      let last : i ≡ l.capacity = ground arith in
      (l, rw stop refl, subst (λ i. IsFilled k i l) last w, refl)
]

-- TN_MEM_ACQUIRE for the events.
abbrev pub AcquiresEvents : (ℕ → Option (List Event)) → Type 0
AcquiresEvents acquire = (n : ℕ) (m : List Event) → acquire n ≡ some m → n ≤ sizeof_event * length m

-- After the last round every event is free.
filled-IsValid : (k : ℕ) (r : EventList) → IsFilled k r.capacity r → IsValid k [] r
filled-IsValid k r w = record {
  free_queue = w.free_queue;
  ready_queue = w.ready_queue;
  free_capacity = w.free_capacity;
  ready_capacity = w.ready_capacity;
  stored = w.stored;
  owned = record {
    once = λ j. omega (
      arith,
      (counted_up r.capacity).once j,
      ap (occurs j) w.free_events,
      ap (occurs j) w.none_ready,
    );
    sized =
        omega
          (arith, (counted_up r.capacity).sized, ap length w.free_events, ap length w.none_ready);
  };
}

-- What the loop starts from, where all the memory is there.
abbrev raw : (ℕ → Option (List ℕ)) → EventList → ℕ → List Event → EventList
raw words l c memory = record {
  events = memory;
  free = (Queue.setup words l.free c).1;
  ready = (Queue.setup words l.ready c).1;
  capacity = (Queue.setup words l.ready c).1.capacity;
}

setup_steps :
    (words : ℕ → Option (List ℕ)) (structs : ℕ → Option (List Event)) (l : EventList) (c : ℕ)
    {r : EventList}
    → setup words structs l c ≡ (success, r)
    → ((Queue.setup words l.free c).0 ≡ success)
      × ((Queue.setup words l.ready c).0 ≡ success)
      × (memory : List Event) × (structs
            ((Queue.setup words l.ready c).1.capacity * sizeof_event % u64_mod)
          ≡ some memory)
      × (fill (suc ((Queue.setup words l.ready c).1.capacity)) 0 (raw words l c memory)
          ≡ (success, r))
unfolding setup
setup_steps words structs l c e = ground arith

filled :
    (words : ℕ → Option (List ℕ)) (l : EventList) (c : ℕ) (memory : List Event)
    → Acquires words
    → 0 < c
    → c < 2 ^ 31
    → (Queue.setup words l.free c).0 ≡ success
    → (Queue.setup words l.ready c).0 ≡ success
    → (Queue.setup words l.ready c).1.capacity * sizeof_event % u64_mod
      ≤ sizeof_event * length memory
    → (k : ℕ) × ((c ≤ (Queue.setup words l.ready c).1.capacity)
        × ((Queue.setup words l.ready c).1.capacity < 2 * c))
      × (r : EventList) × (fill
            (suc ((Queue.setup words l.ready c).1.capacity))
            0
            (raw words l c memory)
          ≡ (success, r))
      × IsFilled k (Queue.setup words l.ready c).1.capacity r
      × (r.capacity ≡ (Queue.setup words l.ready c).1.capacity)
filled words l c memory ok pos small s t enough =
    let (k, narrow, rounded) = round_up-IsRounded c pos (omega arith) in
    let (free_valid, free_size, fh, ft) =
      setup_rounded words l.free c k ok (omega arith) narrow rounded
        (ap (λ s. (s, (Queue.setup words l.free c).1)) s) in
    let (ready_valid, ready_size, rh, rt) =
      setup_rounded words l.ready c k ok (omega arith) narrow rounded
        (ap (λ s. (s, (Queue.setup words l.ready c).1)) t) in
    let (r, done, w, same) =
      fill_lem (suc (Queue.setup words l.ready c).1.capacity) 0 {l = raw words l c memory}
        (record {
          free_queue = free_valid;
          ready_queue = ready_valid;
          free_capacity = free_size ∙ sym ready_size;
          ready_capacity = refl;
          stored = omega (arith, rounded, ready_size, enough);
          free_events = none_left free_valid (ground (arith, fh, ft));
          none_ready = none_left ready_valid (ground (arith, rh, rt));
        })
        (omega arith) (omega arith) (omega (arith, rounded, ready_size)) in
    (k, (omega (arith, rounded, ready_size), omega (arith, rounded, ready_size)), r, done, w, same)

-- A successful setup for fewer than 2 ^ 31 events leaves every event free, in order, at least as
-- many as were asked for and less than twice as many.
pub setup_all_free :
    (words : ℕ → Option (List ℕ)) (structs : ℕ → Option (List Event)) (l : EventList) (c : ℕ)
    {r : EventList}
    → Acquires words
    → AcquiresEvents structs
    → 0 < c
    → c < 2 ^ 31
    → setup words structs l c ≡ (success, r)
    → (k : ℕ) × IsValid k [] r
      × (c ≤ r.capacity)
      × (r.capacity < 2 * c)
      × (contents r.free ≡ count_up 0 r.capacity)
      × (contents r.ready ≡ [])
setup_all_free words structs l c {r} ok ok_events pos small e =
    let (s, t, memory, got, done) = setup_steps words structs l c e in
    let (k, rounded, r', done', w, same) =
      filled words l c memory ok pos small s t (
        ok_events ((Queue.setup words l.ready c).1.capacity * sizeof_event % u64_mod) memory got) in
    let same_list : r' ≡ r = ap (λ p. p.1) (sym done' ∙ done) in
    subst
      (λ r.
        (k : ℕ) × IsValid k [] r
        × (c ≤ r.capacity)
        × (r.capacity < 2 * c)
        × (contents r.free ≡ count_up 0 r.capacity)
        × (contents r.ready ≡ []))
      same_list
      (
        k,
        filled-IsValid k r' (subst (λ n. IsFilled k n r') (sym same) w),
        omega (arith, rounded, same),
        omega (arith, rounded, same),
        w.free_events ∙ ap (count_up 0) (sym same),
        w.none_ready,
      )

-- Where the memory is there, the setup succeeds.
pub setup_succeeds :
    (words : ℕ → Option (List ℕ)) (structs : ℕ → Option (List Event)) (l : EventList) (c : ℕ)
    → Acquires words
    → AcquiresEvents structs
    → ((n : ℕ) → (m : List ℕ) × (words n ≡ some m))
    → ((n : ℕ) → (m : List Event) × (structs n ≡ some m))
    → 0 < c
    → c < 2 ^ 31
    → (setup words structs l c).0 ≡ success
unfolding setup
setup_succeeds words structs l c ok ok_events words_there structs_there pos small =
    let s = QueueInv.setup_succeeds words l.free c words_there in
    let t = QueueInv.setup_succeeds words l.ready c words_there in
    let bytes : ℕ = (Queue.setup words l.ready c).1.capacity * sizeof_event % u64_mod in
    let (memory, got) = structs_there bytes in
    let (_, _, _, done, _, _) =
      filled words l c memory ok pos small s t (ok_events bytes memory got) in
    rw (setup, s, t, got, done) refl
