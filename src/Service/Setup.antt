-- ===== src/Service/Setup.antt =====
-- `tcp_service_setup` and `tcp_service_cleanup`. The sizes of the structs of libuv are not known, so
-- that the memory for write requests is asked for by their number.
pub mod Requests
pub mod Laws
pub mod Tests
use tcpeen.Base.{
  ℕ, zero, suc, ◌+◌, ◌*◌, ◌%◌, Option, none, some, List, [], map, set, u64_mod, if◌then◌else◌,
  Status, success, error, failed,
}
use tcpeen.Memory.{Memory}
use tcpeen.Bytes.{ByteOps}
use tcpeen.Endpoint.{zeroed}
use tcpeen.Queue
use tcpeen.Queue.{Queue}
use tcpeen.Pool
use tcpeen.Pool.{Pool}
use tcpeen.Events
use tcpeen.Events.{Event}
use tcpeen.Channel
use tcpeen.Channel.{no_list}
use tcpeen.Service.{Service, WriteReq, Counters, service_new, max_clients, max_read, change_req}

abbrev no_queue : Queue
no_queue = record { capacity = 0; mask = 0; buffer = []; head = 0; tail = 0; tail_cache = 0 }

abbrev no_pool : Pool
no_pool = record {
  blocks_inuse = 0;
  bytes_inuse = 0;
  block_size = 0;
  block_count = 0;
  buffers = [];
  free = no_queue;
}

-- The service after `memset(service, 0, sizeof(*service))`; the counters are globals.
abbrev pub blank : Counters → Service
blank counters = record {
  host_listen = zeroed;
  channel_list = record {
    client_map = [];
    clients_max = 0;
    client_list_free = no_list;
    client_list_open = no_list;
  };
  pool_read = no_pool;
  pool_write = no_pool;
  events = record { events = []; free = no_queue; ready = no_queue; capacity = 0 };
  event_updates = [];
  event_updates_count = 0;
  buffer_count = 0;
  write_reqs = [];
  write_reqs_free = no_queue;
  write_reqs_ready = no_queue;
  counters = counters;
  state = service_new;
}

-- The loop over the write requests from `i` on, with `rounds` to go.
pub fill : ℕ → ℕ → Service → Status × Service
fill zero i s = (success, s)
fill (suc rounds) i s =
    let numbered = change_req s i (λ w. record w { id = i; buffer = none }) in
    let (r, free) = Queue.push numbered.write_reqs_free i in
    let queued : Service = record numbered { write_reqs_free = free } in
    let rest =
      fill rounds (i + 1) (record queued { event_updates = set queued.event_updates i none }) in
    if failed r then (error, queued) else rest

-- On an error the arrays of the service are released.
abbrev pub released : Service → Service
released s = record s { event_updates = []; write_reqs = [] }

-- The parameters are the memory, the memory for events and for write requests, and what the
-- library of byte buffers does.
pub record Host : Type 0 where
  pub mem : Memory
  pub events : ℕ → Option (List Event)
  pub reqs : ℕ → Option (List WriteReq)
  pub ops : ByteOps

-- `sizeof(tcp_service_priv_t)`
abbrev pub sizeof_priv : ℕ
sizeof_priv = 48

module _ (host : Host) where
  -- The setup from the array of updates on.
  pub setup_reqs : Service → Status × Service
  setup_reqs s = elim (host.mem.words (s.buffer_count * 8 % u64_mod)) [
    | none ↦ (error, released s)
    | some updates ↦
        let s₁ : Service = record s { event_updates = map some updates } in
        elim (host.reqs s.buffer_count) [
          | none ↦ (error, released s₁)
          | some memory ↦
              let (r, free) = Queue.setup host.mem.words s.write_reqs_free s.buffer_count in
              let s₂ : Service = record s₁ { write_reqs = memory; write_reqs_free = free } in
              let (t, ready) = Queue.setup host.mem.words s.write_reqs_ready s.buffer_count in
              let s₃ : Service = record s₂ { write_reqs_ready = ready } in
              let (u, s₄) = fill s.buffer_count 0 s₃ in
              if failed r
              then (error, released s₂)
              else (if failed t
                  then (error, released s₃)
                  else (if failed u then (error, released s₄) else (success, s₄)))
        ]
  ]

  -- The setup from the pools on. The pools are numbered 0 and 1.
  pub setup_pools : Service → Status × Service
  unfolding setup_reqs
  setup_pools s =
      let (r, pool_read) = Pool.setup host.ops host.mem 0 s.pool_read s.buffer_count max_read in
      let s₁ : Service = record s { pool_read = pool_read } in
      let (t, pool_write) = Pool.setup host.ops host.mem 1 s.pool_write s.buffer_count max_read in
      let s₂ : Service = record s₁ { pool_write = pool_write } in
      let (u, events) = Events.setup host.mem.words host.events s.events s.buffer_count in
      let s₃ : Service = record s₂ { events = events } in
      if failed r
      then (error, released s₁)
      else (if failed t
          then (error, released s₂)
          else (if failed u then (error, released s₃) else setup_reqs s₃))

  -- The service keeps nothing of what it held before.
  pub setup : Counters → Status × Service
  unfolding setup_pools
  setup counters =
      let (r, channels) = Channel.setup host.mem max_clients in
      let s : Service = record (blank counters) { channel_list = channels } in
      if host.mem.structs sizeof_priv
      then (if failed r
          then (error, released s)
          else setup_pools (record s { buffer_count = max_clients * 4 }))
      else (error, blank counters)

-- A service that has been set up.
pub cleanup : Service → Service
cleanup s = record s {
  channel_list = (Channel.cleanup s.channel_list).1;
  pool_read = Pool.cleanup s.pool_read;
  pool_write = Pool.cleanup s.pool_write;
  events = Events.cleanup s.events;
  write_reqs_free = Queue.cleanup s.write_reqs_free;
  write_reqs_ready = Queue.cleanup s.write_reqs_ready;
  event_updates = [];
  write_reqs = [];
}
