-- ===== src/Service/Tests.antt =====
-- A small service: the structures of the other tests put together.
use tcpeen.Base.{
  true, false, ℕ, min, ◌≡◌, refl, none, some, List, [], ◌∷◌, ◌++◌, length, success, error, ◌⊎◌,
  arith,
}
use tcpeen.Endpoint
use tcpeen.Endpoint.{zeroed}
use tcpeen.Endpoint.Tests.{by_length}
use tcpeen.Queue.Refine.{contents}
use tcpeen.Pool.Tests.{half, one_free}
use tcpeen.Events.{EventList}
use tcpeen.Events.Inv as EventsInv
use tcpeen.Events.Inv.{IsValid}
use tcpeen.Events.Tests.{four, four-IsValid}
use tcpeen.Channel.Tests.{table}
use tcpeen.Service.{Service, service_new, service_starting, service_started, service_stopping}
use tcpeen.Service.Lifecycle.{start, stop, stop_signal, set_state, get_state}
use tcpeen.Service.Lifecycle.Moves.{
  Moves, step, run, stops, signals, comes_up, step-Moves, stop_signal-stopping, start_failed,
}
use tcpeen.Service.Thread.{uv_signal, io_thread}
use tcpeen.Service.Thread.Laws.{io_thread_leaves}
use tcpeen.Service.Updates.{acquire, release}
use tcpeen.Service.Updates.Release.{acquire-release}
use tcpeen.Service.Callbacks.{on_close_channel_cb}
use tcpeen.Service.Callbacks.Laws.{on_close_channel_cb-stranded}

abbrev pub small : Service
small = record {
  host_listen = zeroed;
  channel_list = table;
  pool_read = half;
  pool_write = half;
  events = four;
  event_updates = none ∷ none ∷ [];
  event_updates_count = 0;
  buffer_count = 2;
  write_reqs = [];
  write_reqs_free = one_free;
  write_reqs_ready = one_free;
  counters = record { send_msgs = 0; send_bytes = 0; recv_msgs = 0; recv_bytes = 0 };
  state = service_started;
}

step-Moves_example :
    ((step signals small).state ≡ service_started)
    ⊎ Moves service_started (step signals small).state
step-Moves_example = step-Moves signals small

signalled : (stop_signal small).0 ≡ success
unfolding stop_signal set_state get_state
signalled = refl

stop_signal-stopping_example :
    let r = run (stops ∷ comes_up ∷ stops ∷ []) (stop_signal small).1 in
    (r.state ≡ service_stopping) × ((stop r).0 ≡ error)
stop_signal-stopping_example = stop_signal-stopping (stops ∷ comes_up ∷ stops ∷ []) small signalled

abbrev new : Service
new = record small { state = service_new }

-- No address is given.
not_started : (start by_length success new none 80).0 ≡ error
unfolding start set_state get_state Endpoint.set Endpoint.set_ip4 Endpoint.set_ip6
not_started = refl

start_failed_example :
    let r = (start by_length success new none 80).1 in
    (r.state ≡ service_starting) × (start by_length success r (some []) 81 ≡ (error, r))
start_failed_example =
    start_failed by_length by_length success success new none (some []) 80 81 not_started refl

acquire-release_example :
    let (r, count, s₁) = acquire small in
    let (t, s₂) = release s₁ in
    (t ≡ success)
    × (count ≡ min (length (contents four.ready)) 2)
    × (taken : List ℕ) × (contents four.ready ≡ taken ++ contents s₂.events.ready)
    × (length taken ≡ count)
    × (contents s₂.events.free ≡ contents four.free ++ taken)
    × IsValid 2 (1 ∷ []) s₂.events
acquire-release_example = acquire-release small four-IsValid

-- All four events are with the users, so that none is free.
abbrev busy : EventList
busy = record four {
  free = record {
    capacity = 4;
    mask = 3;
    buffer = 0 ∷ 0 ∷ 0 ∷ 0 ∷ [];
    head = 0;
    tail = 0;
    tail_cache = 0;
  };
}

busy-IsValid : EventsInv.IsValid 2 (1 ∷ 2 ∷ []) busy
busy-IsValid = record {
  free_queue = record {
    narrow = omega arith;
    power = refl;
    masked = refl;
    storage = omega arith;
    head_word = omega arith;
    tail_word = omega arith;
    fits = omega arith;
  };
  ready_queue = four-IsValid.ready_queue;
  free_capacity = refl;
  ready_capacity = refl;
  stored = omega arith;
  owned = record { once = λ i. ground arith; sized = refl };
}

on_close_channel_cb-stranded_example :
    (on_close_channel_cb (record small { events = busy }) 1).channel_list.client_list_free
    ≡ table.client_list_free
on_close_channel_cb-stranded_example =
    on_close_channel_cb-stranded (record small { events = busy }) 1 busy-IsValid refl

io_thread_leaves_example :
    let (left, runs, s') =
      io_thread (λ h. true) (λ c. success) (record small { state = service_starting }) in
    (((runs ≡ true)
        × (service_starting ≡ service_starting)
        × (s' ≡ record small { state = service_started })
        × (left ≡ uv_signal ∷ []))
      ⊎ ((runs ≡ false) × (s' ≡ record small { state = service_starting })))
    × ((left ≡ []) ⊎ ((left ≡ uv_signal ∷ []) × (true ≡ true)))
io_thread_leaves_example =
    io_thread_leaves (λ h. true) (λ c. success) (record small { state = service_starting })
