-- ===== src/Service/Updates.antt =====
-- `tcp_service_events_acquire` and `tcp_service_events_release`.
pub mod Laws
pub mod Release
use tcpeen.Base.{
  ℕ, Option, none, some, List, [], ◌∷◌, ◌++◌, length, take, drop, get_elem?, if◌then◌else◌, Status,
  success, error, failed,
}
use tcpeen.Pool
use tcpeen.Events
use tcpeen.Events.{EventType, event_client_read}
use tcpeen.Service.{Service}

-- The status, the number of events that can be read in `event_updates`, and the service.
pub acquire : Service → Status × ℕ × Service
acquire s =
    let (r, outs, count, events) = Events.ready_pop_all s.events s.buffer_count in
    let s' : Service = record s {
      events = events;
      event_updates = outs ++ drop (length outs) s.event_updates;
      event_updates_count = 0;
    } in
    if failed r then (error, 0, s') else (success, count, record s' { event_updates_count = count })

-- The buffer of a read event goes back to its pool; other events have none.
pub give_back : EventType → Option ℕ → Service → Service
give_back event_client_read (some b) s = record s { pool_read = (Pool.push s.pool_read b).1 }
give_back _ _ s = s

-- One event is released. A pointer to nothing is skipped here; the code never stores one.
pub release_event : Service → Option ℕ → Service
unfolding give_back
release_event s none = s
release_event s (some i) = elim (get_elem? s.events.events i) [
  | none ↦ s
  | some e ↦
      let s' = give_back e.type e.tn_buffer s in
      record s' { events = (Events.free_push s'.events i).1 }
]

pub release_all : List (Option ℕ) → Service → Service
unfolding release_event
release_all [] s = s
release_all (e ∷ es) s = release_all es (release_event s e)

pub release : Service → Status × Service
unfolding release_all
release s = (success, release_all (take s.event_updates_count s.event_updates) s)
