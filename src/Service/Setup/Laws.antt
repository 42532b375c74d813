-- ===== src/Service/Setup/Laws.antt =====
-- The service that `tcp_service_setup` leaves.
use tcpeen.Base.{ℕ, ◌*◌, ◌≡◌, sym, ap, subst, ◌∙◌, [], count_up, success, arith}
use tcpeen.Queue.Refine.{contents}
use tcpeen.Pool
use tcpeen.Pool.{Pool}
use tcpeen.Pool.Setup as PoolSetup
use tcpeen.Events
use tcpeen.Events.Inv as EventsInv
use tcpeen.Events.Setup as EventsSetup
use tcpeen.Channel
use tcpeen.Channel.Table as Table
use tcpeen.Channel.Setup as ChannelSetup
use tcpeen.Service.{Service, Counters, service_new, max_clients, max_read}
use tcpeen.Service.Setup.{Host, setup}
use tcpeen.Service.Setup.Requests.{
  IsHost, AllFree, pooled, charted, pools_steps, setup_steps, reqs_free, setup_succeeds,
  IsPlentyHost,
}
use tcpeen.Service.Send.Inv.{IsValid}

-- A new service where every write request, every buffer of both pools, every event and every channel
-- is free, and no request and no event is ready.
abbrev pub Idle : Service → Type 0
Idle r =
    (r.state ≡ service_new)
    × (k : ℕ) × (m : ℕ) × IsValid k m [] r
    × (contents r.write_reqs_free ≡ count_up 0 (max_clients * 4))
    × (n : ℕ) × AllFree n (max_clients * 4) r.pool_read
    × (e : ℕ) × EventsInv.IsValid e [] r.events
    × (contents r.events.ready ≡ [])
    × Table.IsValid [] r.channel_list
    × (r.channel_list.clients_max ≡ max_clients)

module _ (host : Host) (laws : IsHost host) where
  pool_free :
      (id : ℕ) (p : Pool)
      → (Pool.setup host.ops host.mem id p (max_clients * 4) max_read).0 ≡ success
      → (m : ℕ) × AllFree m
          (max_clients * 4)
          (Pool.setup host.ops host.mem id p (max_clients * 4) max_read).1
  pool_free id p e =
      let (m, v, free, count, size, buffers) =
        PoolSetup.blocks_all_free host.ops host.mem id p (max_clients * 4) max_read laws.ops
          laws.mem (omega arith) (omega arith) (omega arith) (omega arith)
          (ap (λ s. (s, (Pool.setup host.ops host.mem id p (max_clients * 4) max_read).1)) e) in
      (m, (v, free, count, size, buffers))

  setup_leaves : (counters : Counters) {r : Service} → setup host counters ≡ (success, r) → Idle r
  setup_leaves counters {r} done =
      let s : Service = charted host counters in
      let (channels_ok, rest) = setup_steps host counters done in
      let (read_ok, write_ok, events_ok, last) = pools_steps host s rest in
      let (n, read_free) = pool_free 0 s.pool_read read_ok in
      let (m, write_free) = pool_free 1 s.pool_write write_ok in
      let (e, events_valid, _, _, _, none_ready) =
        EventsSetup.setup_all_free host.mem.words host.events s.events (max_clients * 4)
          laws.mem.words_lem laws.events (omega arith) (omega arith)
          (ap (λ t. (t, (Events.setup host.mem.words host.events s.events (max_clients * 4)).1))
            events_ok) in
      let (table_valid, max, _) =
        ChannelSetup.setup_channels_free host.mem max_clients laws.mem (omega arith)
          (ap (λ t. (t, (Channel.setup host.mem max_clients).1)) channels_ok) in
      let (k, valid, free, _, events, table, pool, state) =
        reqs_free host laws (pooled host s) write_free (omega arith) (omega arith) last in
      (
        state,
        k,
        m,
        valid,
        free,
        n,
        subst (AllFree n (max_clients * 4)) (sym pool) read_free,
        e,
        subst (EventsInv.IsValid e []) (sym events) events_valid,
        ap (λ l. contents l.ready) events ∙ none_ready,
        subst (Table.IsValid []) (sym table) table_valid,
        ap (λ l. l.clients_max) table ∙ max,
      )

  -- Where there is all the memory that is asked for, the setup succeeds, and leaves a new service
  -- that is valid with nothing in hand: every write request, every buffer of both pools, every event
  -- and every channel is free, and no request and no event is ready.
  pub setup-Idle :
      (counters : Counters)
      → IsPlentyHost host
      → let (t, r) = setup host counters in (t ≡ success) × Idle r
  setup-Idle counters plenty =
      let done = setup_succeeds host laws counters plenty in
      (done, setup_leaves counters (ap (λ t. (t, (setup host counters).1)) done))
