-- ===== src/Events.antt =====
-- src/event.c and include/tn/event.h: the fixed set of events that the IO thread and the main
-- thread pass to each other. A `tn_event_base_t *` is the index of the event in `events`. The
-- members of the union of event types are one record: the code reads a member only of the type it set.
pub mod Inv
pub mod Laws
pub mod Setup
pub mod Tests
use tcpeen.Base.{
  ℕ, zero, suc, ◌+◌, ◌*◌, ◌%◌, ◌^◌, Bool, Option, none, some, List, [], if◌then◌else◌, ltb, modify,
  u64_mod, Status, success, error, failed,
}
use tcpeen.Queue
use tcpeen.Queue.{Queue}

pub data EventType : Type 0 where
  event_none event_ioerror event_client_open event_client_close event_client_read : EventType

pub record Event : Type 0 where
  pub id : ℕ
  pub type : EventType
  pub client_id : ℕ
  pub tn_buffer : Option ℕ
  pub buffer : Option ℕ
  pub len : ℕ
  pub error_code : Status
  pub host_local : List ℕ
  pub host_remote : List ℕ

pub record EventList : Type 0 where
  pub events : List Event
  pub free : Queue
  pub ready : Queue
  pub capacity : ℕ

-- `sizeof(tn_event_base_t)`
abbrev pub sizeof_event : ℕ
sizeof_event = 256

-- The loop of `tn_event_list_setup`. Its counter has 32 bits; one round more than there are places
-- in the queue of free events is enough, since a push on a full queue ends the loop.
pub fill : ℕ → ℕ → EventList → Status × EventList
fill zero i l = (success, l)
fill (suc rounds) i l =
    let events = modify l.events i (λ e. record e { id = i }) in
    let (s, q) = Queue.push l.free i in
    let l' : EventList = record l { events = events; free = q } in
    let rest = fill rounds ((i + 1) % 2 ^ 32) l' in
    if ltb i l.capacity then (if failed s then (error, l') else rest) else (success, l)

-- `words` and `structs` are TN_MEM_ACQUIRE for the two rings and for the events, with whatever the
-- memory holds.
pub setup : (ℕ → Option (List ℕ)) → (ℕ → Option (List Event)) → EventList → ℕ → Status × EventList
unfolding fill
setup words structs l capacity =
    let (s, free) = Queue.setup words l.free capacity in
    let (t, ready) = Queue.setup words l.ready capacity in
    let places = Queue.get_capacity ready in
    let l' : EventList = record l { free = free; ready = ready; capacity = places } in
    if failed s
    then (error, record l { free = free })
    else (if failed t
        then (error, record l { free = free; ready = ready })
        else elim (structs (places * sizeof_event % u64_mod)) [
          | none ↦ (error, record l' { events = [] })
          | some memory ↦ fill (suc places) 0 (record l' { events = memory })
        ])

pub cleanup : EventList → EventList
cleanup l = record l { free = Queue.cleanup l.free; ready = Queue.cleanup l.ready; events = [] }

pub free_pop_back : EventList → Status × Option ℕ × EventList
free_pop_back l = let (s, out, q) = Queue.pop_back l.free in (s, out, record l { free = q })

-- The event that `out` points to, changed by `f`.
abbrev pub change : EventList → Option ℕ → (Event → Event) → EventList
change l none f = l
change l (some i) f = record l { events = modify l.events i f }

-- The four functions that pop a free event and prepare it for its type by `f`.
pub free_pop : (Event → Event) → EventList → Status × Option ℕ × EventList
free_pop f l =
    let (s, out, q) = Queue.pop_back l.free in
    let l' : EventList = record l { free = q } in
    if failed s then (error, none, l') else (success, out, change l' out f)

abbrev pub as_error : Event → Event
as_error e = record e { type = event_ioerror; tn_buffer = none }

abbrev pub as_open : Event → Event
as_open e = record e { type = event_client_open }

abbrev pub as_close : Event → Event
as_close e = record e { type = event_client_close; tn_buffer = none }

abbrev pub as_read : Event → Event
as_read e = record e { type = event_client_read; tn_buffer = none }

abbrev pub free_pop_error : EventList → Status × Option ℕ × EventList
free_pop_error l = free_pop as_error l

abbrev pub free_pop_open : EventList → Status × Option ℕ × EventList
free_pop_open l = free_pop as_open l

abbrev pub free_pop_close : EventList → Status × Option ℕ × EventList
free_pop_close l = free_pop as_close l

abbrev pub free_pop_read : EventList → Status × Option ℕ × EventList
free_pop_read l = free_pop as_read l

pub ready_push : EventList → ℕ → Status × EventList
ready_push l evt = let (s, q) = Queue.push l.ready evt in (s, record l { ready = q })

pub ready_peek : EventList → Status × Option ℕ × EventList
ready_peek l =
    let (s, out, q) = Queue.peek l.ready in
    let l' : EventList = record l { ready = q } in
    if failed s then (error, none, l') else (success, out, l')

pub ready_pop : EventList → Status × EventList
ready_pop l =
    let (s, q) = Queue.pop l.ready in
    if failed s then (error, record l { ready = q }) else (success, record l { ready = q })

pub ready_pop_cached : EventList → EventList
ready_pop_cached l = record l { ready = Queue.pop_cached l.ready }

pub ready_pop_back : EventList → Status × Option ℕ × EventList
ready_pop_back l =
    let (s, out, q) = Queue.pop_back l.ready in
    let l' : EventList = record l { ready = q } in
    if failed s then (error, none, l') else (success, out, l')

pub ready_pop_all : EventList → ℕ → Status × List (Option ℕ) × ℕ × EventList
ready_pop_all l limit =
    let (s, outs, n, q) = Queue.pop_all l.ready limit in
    let l' : EventList = record l { ready = q } in
    if failed s then (error, outs, n, l') else (success, outs, n, l')

pub free_push : EventList → ℕ → Status × EventList
free_push l evt = let (s, q) = Queue.push l.free evt in (s, record l { free = q })
