-- ===== src/Events/Tests.antt =====
-- Four events: event 2 is free, 0 and 3 are ready, and 1 is held.
use tcpeen.Base.{ℕ, ◌≡◌, refl, none, List, [], ◌∷◌, ◌++◌, success, arith}
use tcpeen.Queue.{Queue}
use tcpeen.Queue.Refine.{contents}
use tcpeen.Events.{Event, EventList, event_none, ready_push}
use tcpeen.Events.Inv.{IsValid}
use tcpeen.Events.Laws.{ready_push_lem}

abbrev pub plain_event : Event
plain_event = record {
  id = 0;
  type = event_none;
  client_id = 0;
  tn_buffer = none;
  buffer = none;
  len = 0;
  error_code = success;
  host_local = [];
  host_remote = [];
}

abbrev ring : List ℕ → ℕ → Queue
ring xs n = record { capacity = 4; mask = 3; buffer = xs; head = n; tail = 0; tail_cache = 0 }

abbrev pub four : EventList
four = record {
  events = plain_event ∷ plain_event ∷ plain_event ∷ plain_event ∷ [];
  free = ring (2 ∷ 0 ∷ 0 ∷ 0 ∷ []) 1;
  ready = ring (0 ∷ 3 ∷ 0 ∷ 0 ∷ []) 2;
  capacity = 4;
}

pub four-IsValid : IsValid 2 (1 ∷ []) four
four-IsValid = record {
  free_queue = record {
    narrow = omega arith;
    power = refl;
    masked = refl;
    storage = omega arith;
    head_word = omega arith;
    tail_word = omega arith;
    fits = omega arith;
  };
  ready_queue = record {
    narrow = omega arith;
    power = refl;
    masked = refl;
    storage = omega arith;
    head_word = omega arith;
    tail_word = omega arith;
    fits = omega arith;
  };
  free_capacity = refl;
  ready_capacity = refl;
  stored = omega arith;
  owned = record { once = λ i. ground arith; sized = refl };
}

ready_push_lem_example :
    let (s, r) = ready_push four 1 in
    (s ≡ success)
    × (contents r.ready ≡ contents four.ready ++ 1 ∷ [])
    × (contents r.free ≡ contents four.free)
    × (r.events ≡ four.events)
    × IsValid 2 [] r
ready_push_lem_example = ready_push_lem four-IsValid
