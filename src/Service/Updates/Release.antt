-- ===== src/Service/Updates/Release.antt =====
-- The updates that the main thread releases, and a whole turn with them.
use tcpeen.Base.{
  ℕ, min, ◌<◌, ◌≡◌, refl, sym, ap, subst, ◌∙◌, inl, inr, Option, none, some, List, [], ◌∷◌, ◌++◌,
  map, take, length, get_elem?-some, Bool-cases, failed, occurs_first, met_once, success, arith,
}
use mathlib.Core.List.{append_assoc, append-nil}
use tcpeen.Events
use tcpeen.Events.{
  EventList, EventType, event_none, event_ioerror, event_client_open, event_client_close,
  event_client_read, free_push,
}
use tcpeen.Events.Inv.{IsValid}
use tcpeen.Events.Laws.{free_push_lem, ready_pop_all_same}
use tcpeen.Queue.Refine.{contents}
use tcpeen.Service.{Service}
use tcpeen.Service.Updates.{acquire, give_back, release_event, release_all, release}
use tcpeen.Service.Updates.Laws.{acquire_lem}

-- Only the pool for reading and the events differ.
abbrev pub SameElse : Service → Service → Type 0
SameElse s s' = s' ≡ record s { pool_read = s'.pool_read; events = s'.events }

give_back_same :
    (t : EventType) (b : Option ℕ) (s : Service)
    → give_back t b s ≡ record s { pool_read = (give_back t b s).pool_read }
unfolding give_back
give_back_same event_none b s = refl
give_back_same event_ioerror b s = refl
give_back_same event_client_open b s = refl
give_back_same event_client_close b s = refl
give_back_same event_client_read none s = refl
give_back_same event_client_read (some b) s = refl

-- What becomes of the events when the main thread gives `given` back.
abbrev pub Returns : ℕ → List ℕ → List ℕ → Service → Service → Type 0
Returns k given held s s' =
    (contents s'.events.free ≡ contents s.events.free ++ given)
    × (contents s'.events.ready ≡ contents s.events.ready)
    × (s'.events.events ≡ s.events.events)
    × IsValid k held s'.events
    × SameElse s s'

known : {k i : ℕ} {held : List ℕ} {l : EventList} → IsValid k (i ∷ held) l → i < length l.events
known {i = i} {held = held} {l = l} v =
    let (below, _) =
      met_once l.capacity i (contents l.free ∷ contents l.ready ∷ (i ∷ held) ∷ []) v.owned
        (omega (arith, occurs_first i held)) in
    omega (arith, below, v.stored)

release_one :
    {k i : ℕ} {held : List ℕ} (s : Service)
    → IsValid k (i ∷ held) s.events
    → Returns k (i ∷ []) held s (release_event s (some i))
unfolding release_event
release_one {i = i} s v =
    let (e, there) = get_elem?-some s.events.events i (known v) in
    let (_, free, ready, same, w) = free_push_lem v in
    let back : Service = give_back e.type e.tn_buffer s in
    let kept = give_back_same e.type e.tn_buffer s in
    let events : back.events ≡ s.events = ap (λ s. s.events) kept in
    rw (release_event, there)
      (
        ap (λ l. contents (free_push l i).1.free) events ∙ free,
        ap (λ l. contents (free_push l i).1.ready) events ∙ ready,
        ap (λ l. (free_push l i).1.events) events ∙ same,
        rw events w,
        ap {A = Service} {B = Service} (λ s'. record s' { events = (free_push s'.events i).1 }) kept
            ∙ rw events refl,
      )

prepend-Returns :
    (k i : ℕ) (given held : List ℕ) (s s₁ s₂ : Service)
    → Returns k (i ∷ []) (given ++ held) s s₁
    → Returns k given held s₁ s₂
    → Returns k (i ∷ given) held s s₂
prepend-Returns k i given held s s₁ s₂ (free₁, ready₁, events₁, _, same₁)
      (free₂, ready₂, events₂, w, same₂) =
    (
      free₂ ∙ ap (λ xs. xs ++ given) free₁ ∙ append_assoc (contents s.events.free) (i ∷ []) given,
      ready₂ ∙ ready₁,
      events₂ ∙ events₁,
      w,
      same₂
          ∙ ap {A = Service} {B = Service}
              (λ s. record s { pool_read = s₂.pool_read; events = s₂.events }) same₁,
    )

release_given :
    {k : ℕ} (given held : List ℕ) (s : Service)
    → IsValid k (given ++ held) s.events
    → Returns k given held s (release_all (map some given) s)
unfolding release_all
release_given [] held s v = (sym (append-nil (contents s.events.free)), refl, refl, v, refl)
release_given {k} (i ∷ given) held s v =
    let one : Returns k (i ∷ []) (given ++ held) s (release_event s (some i)) = release_one s v in
    prepend-Returns k i given held s (release_event s (some i))
      (release_all (map some given) (release_event s (some i))) one
      (release_given given held (release_event s (some i)) one.3)

pub release_updates :
    (k : ℕ) (given held : List ℕ) (s : Service)
    → take s.event_updates_count s.event_updates ≡ map some given
    → IsValid k (given ++ held) s.events
    → Returns k given held s ((release s).1)
unfolding release
release_updates k given held s e v =
    subst (λ os. Returns k given held s (release_all os s)) (sym e) (release_given given held s v)

pub acquired_same :
    (s : Service)
    → let s₁ = (acquire s).2 in
      s₁ ≡ record s {
        events = s₁.events;
        event_updates = s₁.event_updates;
        event_updates_count = s₁.event_updates_count;
      }
unfolding acquire
acquired_same s = elim (Bool-cases (failed (Events.ready_pop_all s.events s.buffer_count).0)) [
  | inl bad ↦ rw bad refl
  | inr good ↦ rw good refl
]

pub acquired_free : (s : Service) → contents (acquire s).2.events.free ≡ contents s.events.free
unfolding acquire
acquired_free s =
    let same = ap (λ l. contents l.free) (ready_pop_all_same s.events s.buffer_count) in
    elim (Bool-cases (failed (Events.ready_pop_all s.events s.buffer_count).0)) [
      | inl bad ↦ rw bad same
      | inr good ↦ rw good same
    ]

released : (s : Service) → (release s).0 ≡ success
unfolding release
released s = refl

-- What one turn of the main thread does to the events: it takes the oldest ready ones, at most as
-- many as it has room for, and each of them is free in the end, in order.
pub acquire-release :
    {k : ℕ} {held : List ℕ} (s : Service)
    → IsValid k held s.events
    → let (r, count, s₁) = acquire s in
      let (t, s₂) = release s₁ in
      (t ≡ success)
      × (count ≡ min (length (contents s.events.ready)) s.buffer_count)
      × (taken : List ℕ) × (contents s.events.ready ≡ taken ++ contents s₂.events.ready)
      × (length taken ≡ count)
      × (contents s₂.events.free ≡ contents s.events.free ++ taken)
      × IsValid k held s₂.events
acquire-release {k} {held} s v = elim (acquire_lem k held s v) [
  | inl (none_ready, r, count, none_there, same) ↦
      let s₁ : Service = (acquire s).2 in
      let (free, ready, _, w, _) =
        release_updates k [] held s₁ (ap (λ n. take n s₁.event_updates) none_there) (rw same v) in
      (
        released s₁,
        omega (arith, count, ap length none_ready),
        [],
        sym (ready ∙ ap (λ l. contents l.ready) same),
        sym count,
        free ∙ ap (λ xs. xs ++ []) (acquired_free s),
        w,
      )
  | inr (taken, r, least, count, size, entries, step, w) ↦
      let s₁ : Service = (acquire s).2 in
      let (free, ready, _, w, _) =
        release_updates k taken held s₁ (ap (λ n. take n s₁.event_updates) count ∙ entries) w in
      (
        released s₁,
        least,
        taken,
        step ∙ ap (λ xs. taken ++ xs) (sym ready),
        size,
        free ∙ ap (λ xs. xs ++ taken) (acquired_free s),
        w,
      )
]
