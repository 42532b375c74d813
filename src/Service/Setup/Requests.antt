-- ===== src/Service/Setup/Requests.antt =====
-- The steps of `tcp_service_setup`, and the write requests that it leaves.
use tcpeen.Base.{
  ℕ, zero, suc, ◌+◌, ◌*◌, ◌%◌, ◌^◌, ◌≤◌, ◌<◌, ◌≡◌, refl, sym, ap, subst, ◌∙◌, inl, inr, none, some,
  List, [], ◌∷◌, ◌++◌, map, length, length-modify, modify, set, length-count_up, count_up,
  count_up_next, all_first, u64_mod, success, arith,
}
use tcpeen.Memory.{IsMemory, IsPlenty}
use tcpeen.Bytes.{IsByteOps}
use tcpeen.Queue
use tcpeen.Queue.Inv as QueueInv
use tcpeen.Queue.Inv.{setup_rounded}
use tcpeen.Queue.Round.{round_up-IsRounded}
use tcpeen.Queue.Refine.{contents, none_left}
use tcpeen.Queue.Cases.{push_cases}
use tcpeen.Pool
use tcpeen.Pool.{Pool}
use tcpeen.Pool.Inv as PoolInv
use tcpeen.Pool.Peek.{AreValid}
use tcpeen.Pool.Setup as PoolSetup
use tcpeen.Events
use tcpeen.Events.{Event}
use tcpeen.Events.Setup as EventsSetup
use tcpeen.Events.Setup.{AcquiresEvents}
use tcpeen.Channel
use tcpeen.Channel.Setup as ChannelSetup
use tcpeen.Service.{Service, WriteReq, Counters, max_clients, max_read}
use tcpeen.Service.Setup.{Host, sizeof_priv, blank, fill, setup_reqs, setup_pools, setup}
use tcpeen.Service.Send.Inv.{IsValid}

-- What the loop has done to the service after `i` rounds, and what it leaves alone.
record IsFilled (k i : ℕ) (s r : Service) : Type 0 where
  free_queue : QueueInv.IsValid k r.write_reqs_free
  free_room : s.buffer_count ≤ r.write_reqs_free.capacity
  free : contents r.write_reqs_free ≡ count_up 0 i
  stored : s.buffer_count ≤ length r.write_reqs
  same : r ≡ record s {
    write_reqs = r.write_reqs;
    write_reqs_free = r.write_reqs_free;
    event_updates = r.event_updates;
  }

fill_lem :
    {k : ℕ} {s : Service} (rounds i : ℕ) {r : Service}
    → IsFilled k i s r
    → i + rounds ≡ s.buffer_count
    → (t : Service) × (fill rounds i r ≡ (success, t)) × IsFilled k s.buffer_count s t
unfolding fill
fill_lem {k} {s} zero i {r} w h =
    (r, refl, subst (λ i. IsFilled k i s r) {x = i} {y = s.buffer_count} (omega (arith, h)) w)
fill_lem {k} {s} (suc rounds) i {r} w h = elim (push_cases w.free_queue i) [
  | inl (_, full) ↦
      absurd (omega (arith, full, ap length w.free, length-count_up 0 i, w.free_room, h))
  | inr (q, e, step, v, c, _) ↦
      let reqs : List WriteReq = modify r.write_reqs i (λ w. record w { id = i; buffer = none }) in
      let next : Service = record r {
        write_reqs = reqs;
        write_reqs_free = q;
        event_updates = set r.event_updates i none;
      } in
      let (t, done, w') =
        fill_lem {k = k} {s = s} rounds (i + 1) {r = next}
          (record {
            free_queue = v;
            free_room = omega (arith, c, w.free_room);
            free = step ∙ ap (λ xs. xs ++ i ∷ []) w.free ∙ sym (count_up_next i);
            stored = omega (
              arith,
              w.stored,
              length-modify r.write_reqs i (λ w. record w { id = i; buffer = none }),
            );
            same =
                ap {A = Service} {B = Service}
                  (λ r. record r {
                    write_reqs = reqs;
                    write_reqs_free = q;
                    event_updates = next.event_updates;
                  })
                  w.same;
          })
          (omega (arith, h)) in
      (t, rw e done, w')
]

module _ (host : Host) where
  -- What the array of requests starts from.
  abbrev raw : Service → List ℕ → List WriteReq → Service
  raw s updates memory = record s {
    event_updates = map some updates;
    write_reqs = memory;
    write_reqs_free = (Queue.setup host.mem.words s.write_reqs_free s.buffer_count).1;
    write_reqs_ready = (Queue.setup host.mem.words s.write_reqs_ready s.buffer_count).1;
  }

  reqs_steps :
      (s : Service) {r : Service}
      → setup_reqs host s ≡ (success, r)
      → (updates : List ℕ) × (host.mem.words (s.buffer_count * 8 % u64_mod) ≡ some updates)
        × (memory : List WriteReq) × (host.reqs s.buffer_count ≡ some memory)
        × ((Queue.setup host.mem.words s.write_reqs_free s.buffer_count).0 ≡ success)
        × ((Queue.setup host.mem.words s.write_reqs_ready s.buffer_count).0 ≡ success)
        × (fill s.buffer_count 0 (raw s updates memory) ≡ (success, r))
  unfolding setup_reqs
  reqs_steps s e = ground arith

  -- The service with its pools and its events.
  abbrev pub pooled : Service → Service
  pooled s = record s {
    pool_read = (Pool.setup host.ops host.mem 0 s.pool_read s.buffer_count max_read).1;
    pool_write = (Pool.setup host.ops host.mem 1 s.pool_write s.buffer_count max_read).1;
    events = (Events.setup host.mem.words host.events s.events s.buffer_count).1;
  }

  pub pools_steps :
      (s : Service) {r : Service}
      → setup_pools host s ≡ (success, r)
      → ((Pool.setup host.ops host.mem 0 s.pool_read s.buffer_count max_read).0 ≡ success)
        × ((Pool.setup host.ops host.mem 1 s.pool_write s.buffer_count max_read).0 ≡ success)
        × ((Events.setup host.mem.words host.events s.events s.buffer_count).0 ≡ success)
        × (setup_reqs host (pooled s) ≡ (success, r))
  unfolding setup_pools
  pools_steps s e = ground arith

  -- The service with its channels.
  abbrev pub charted : Counters → Service
  charted counters = record (blank counters) {
    channel_list = (Channel.setup host.mem max_clients).1;
    buffer_count = max_clients * 4;
  }

  pub setup_steps :
      (counters : Counters) {r : Service}
      → setup host counters ≡ (success, r)
      → ((Channel.setup host.mem max_clients).0 ≡ success)
        × (setup_pools host (charted counters) ≡ (success, r))
  unfolding setup
  setup_steps counters e = ground arith

-- The memory is as large as was asked for, and the byte buffers behave.
pub record IsHost (host : Host) : Type 0 where
  pub mem : IsMemory host.mem
  pub events : AcquiresEvents host.events
  pub reqs : (n : ℕ) (m : List WriteReq) → host.reqs n ≡ some m → n ≤ length m
  pub ops : IsByteOps host.ops

-- There is all the memory that is asked for.
pub record IsPlentyHost (host : Host) : Type 0 where
  pub mem : IsPlenty host.mem
  pub events_there : (n : ℕ) → (m : List Event) × (host.events n ≡ some m)
  pub reqs_there : (n : ℕ) → (m : List WriteReq) × (host.reqs n ≡ some m)

-- A pool whose blocks are all free.
abbrev pub AllFree : ℕ → ℕ → Pool → Type 0
AllFree m n p =
    PoolInv.IsValid m p
    × (contents p.free ≡ count_up 0 n)
    × (p.block_count ≡ n)
    × (p.block_size ≡ max_read)
    × AreValid max_read p.buffers

module _ (host : Host) (laws : IsHost host) where
  -- The loop over the requests succeeds.
  looped :
      (s : Service) (updates : List ℕ) (memory : List WriteReq)
      → 0 < s.buffer_count
      → s.buffer_count < 2 ^ 60
      → (Queue.setup host.mem.words s.write_reqs_free s.buffer_count).0 ≡ success
      → (Queue.setup host.mem.words s.write_reqs_ready s.buffer_count).0 ≡ success
      → s.buffer_count ≤ length memory
      → let start = raw host s updates memory in
        (k : ℕ) × (s.buffer_count ≤ start.write_reqs_ready.capacity)
        × QueueInv.IsValid k start.write_reqs_ready
        × (contents start.write_reqs_ready ≡ [])
        × (t : Service) × (fill s.buffer_count 0 start ≡ (success, t))
        × IsFilled k s.buffer_count start t
  looped s updates memory pos small free_ok ready_ok enough =
      let n : ℕ = s.buffer_count in
      let (k, narrow, rounded) = round_up-IsRounded n pos (omega (arith, small)) in
      let (free_valid, free_size, fh, ft) =
        setup_rounded host.mem.words s.write_reqs_free n k laws.mem.words_lem small narrow rounded
          (ap (λ t. (t, (Queue.setup host.mem.words s.write_reqs_free n).1)) free_ok) in
      let (ready_valid, ready_size, rh, rt) =
        setup_rounded host.mem.words s.write_reqs_ready n k laws.mem.words_lem small narrow rounded
          (ap (λ t. (t, (Queue.setup host.mem.words s.write_reqs_ready n).1)) ready_ok) in
      let start : Service = raw host s updates memory in
      let (t, done, w) =
        fill_lem {k = k} {s = start} n 0 {r = start}
          (record {
            free_queue = free_valid;
            free_room = omega (arith, rounded, free_size);
            free = none_left free_valid (ground (arith, fh, ft));
            stored = enough;
            same = refl;
          })
          (omega arith) in
      (
        k,
        omega (arith, rounded, ready_size),
        ready_valid,
        none_left ready_valid (ground (arith, rh, rt)),
        t,
        done,
        w,
      )

  -- The write requests are all free.
  pub reqs_free :
      {m : ℕ} (s : Service) {r : Service}
      → AllFree m s.buffer_count s.pool_write
      → 0 < s.buffer_count
      → s.buffer_count < 2 ^ 60
      → setup_reqs host s ≡ (success, r)
      → (k : ℕ) × IsValid k m [] r
        × (contents r.write_reqs_free ≡ count_up 0 s.buffer_count)
        × (r.buffer_count ≡ s.buffer_count)
        × (r.events ≡ s.events)
        × (r.channel_list ≡ s.channel_list)
        × (r.pool_read ≡ s.pool_read)
        × (r.state ≡ s.state)
  reqs_free {m} s {r} (pool_valid, pool_free, count, size, buffers) pos small e =
      let (updates, _, memory, got, free_ok, ready_ok, done) = reqs_steps host s e in
      let n : ℕ = s.buffer_count in
      let (k, ready_room, ready_valid, none_queued, t, done', w) =
        looped s updates memory pos small free_ok ready_ok (laws.reqs n memory got) in
      let start : Service = raw host s updates memory in
      let equal : t ≡ r = ap (λ p. p.1) (sym done' ∙ done) in
      let w : IsFilled k n start r = subst (IsFilled k n start) equal w in
      let ready : r.write_reqs_ready ≡ start.write_reqs_ready =
        ap (λ r. r.write_reqs_ready) w.same in
      let pool : r.pool_write ≡ s.pool_write = ap (λ r. r.pool_write) w.same in
      let counted : r.buffer_count ≡ n = ap (λ r. r.buffer_count) w.same in
      let none_ready : contents r.write_reqs_ready ≡ [] = ap contents ready ∙ none_queued in
      (
        k,
        record {
          free_queue = w.free_queue;
          ready_queue = subst (QueueInv.IsValid k) (sym ready) ready_valid;
          free_room = omega (arith, w.free_room, counted);
          ready_room = omega (arith, ready_room, counted, ap (λ q. q.capacity) ready);
          stored = omega (arith, w.stored, counted);
          reqs = rw (counted, none_ready) (all_first n w.free);
          pool = subst (PoolInv.IsValid m) (sym pool) pool_valid;
          valid_buffers = rw (pool, size) buffers;
          buffers = rw (pool, none_ready, count) (all_first n pool_free);
          ready_loaded = rw none_ready tt;
          writing_loaded = tt;
        },
        w.free,
        counted,
        ap (λ r. r.events) w.same,
        ap (λ r. r.channel_list) w.same,
        ap (λ r. r.pool_read) w.same,
        ap (λ r. r.state) w.same,
      )

  -- Where all the memory is there, the end of the setup succeeds.
  reqs_succeed :
      (s : Service)
      → IsPlentyHost host
      → 0 < s.buffer_count
      → s.buffer_count < 2 ^ 60
      → (setup_reqs host s).0 ≡ success
  unfolding setup_reqs
  reqs_succeed s plenty pos small =
      let n : ℕ = s.buffer_count in
      let (updates, there) = plenty.mem.words_there (n * 8 % u64_mod) in
      let (memory, got) = plenty.reqs_there n in
      let f = QueueInv.setup_succeeds host.mem.words s.write_reqs_free n plenty.mem.words_there in
      let r = QueueInv.setup_succeeds host.mem.words s.write_reqs_ready n plenty.mem.words_there in
      let (_, _, _, _, _, done, _) =
        looped s updates memory pos small f r (laws.reqs n memory got) in
      rw (setup_reqs, there, got, f, r, done) refl

  pub setup_succeeds : (counters : Counters) → IsPlentyHost host → (setup host counters).0 ≡ success
  unfolding setup setup_pools
  setup_succeeds counters plenty =
      let n : ℕ = max_clients * 4 in
      let s : Service = charted host counters in
      let channels =
        ChannelSetup.setup_succeeds host.mem max_clients laws.mem plenty.mem (omega arith) in
      let read =
        PoolSetup.setup_succeeds host.ops host.mem 0 s.pool_read n max_read laws.ops laws.mem
          plenty.mem (omega arith) (omega arith) (omega arith) (omega arith) in
      let write =
        PoolSetup.setup_succeeds host.ops host.mem 1 s.pool_write n max_read laws.ops laws.mem
          plenty.mem (omega arith) (omega arith) (omega arith) (omega arith) in
      let events =
        EventsSetup.setup_succeeds host.mem.words host.events s.events n laws.mem.words_lem
          laws.events plenty.mem.words_there plenty.events_there (omega arith) (omega arith) in
      rw (plenty.mem.structs_there sizeof_priv, channels, read, write, events)
        (reqs_succeed (pooled host s) plenty (omega arith) (omega arith))
