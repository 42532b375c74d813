-- ===== src/Events/Inv.antt =====
-- The invariant of an event list: every event is free, ready or with one of its users.
use tcpeen.Base.{ℕ, ◌≡◌, ◌≤◌, List, [], ◌∷◌, length, Partition}
use tcpeen.Queue.Inv as QueueInv
use tcpeen.Queue.Refine.{contents}
use tcpeen.Events.{EventList}

-- `held` are the events that are out of both queues.
pub record IsValid (k : ℕ) (held : List ℕ) (l : EventList) : Type 0 where
  pub free_queue : QueueInv.IsValid k l.free
  pub ready_queue : QueueInv.IsValid k l.ready
  pub free_capacity : l.free.capacity ≡ l.capacity
  pub ready_capacity : l.ready.capacity ≡ l.capacity
  pub stored : l.capacity ≤ length l.events
  pub owned : Partition l.capacity (contents l.free ∷ contents l.ready ∷ held ∷ [])
