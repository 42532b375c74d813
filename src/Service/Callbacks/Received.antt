-- ===== src/Service/Callbacks/Received.antt =====
-- The bytes of a read become an event, and its buffer goes from the channel to the event.
use tcpeen.Base.{
  ℕ, zero, suc, ◌+◌, ◌≤◌, ◌≡◌, refl, ap, ◌∙◌, ◌⊎◌, inl, inr, Option-cases, none, some, List, [],
  ◌∷◌, ◌++◌, length, length-set, length-modify, modify, set, get_elem?, get_elem?-some,
  get_elem?-lt, get_elem?-modify_self, get_elem?-set_self, occurs, one_if, ◌==◌, Status, success,
  recv_evtpop, arith,
}
use tcpeen.Bytes.Slices.{slice}
use tcpeen.Buffer
use tcpeen.Buffer.{Buffer}
use tcpeen.Buffer.Inv as BufferInv
use tcpeen.Buffer.Inv.{pending}
use tcpeen.Buffer.Copy.{add_length_lem, capacity-add_length}
use tcpeen.Queue.Refine.{contents}
use tcpeen.Pool.{Pool}
use tcpeen.Pool.Inv as PoolInv
use tcpeen.Pool.Peek.{AreValid, set-AreValid, rebuffer}
use tcpeen.Events.{Event, EventList, free_pop, as_read, ready_push, event_client_read}
use tcpeen.Events.Inv as EventsInv
use tcpeen.Events.Laws.{free_pop_lem, ready_push_lem}
use tcpeen.Channel.{Channel}
use tcpeen.Service.{Service, channel_at, change_channel}
use tcpeen.Service.Callbacks.{take_bytes}
use tcpeen.Service.Callbacks.Reads.{IsValid, buffers_of}

abbrev emptied : Channel → Channel
emptied c = record c { read_buffer = none }

one_less :
    (cs : List Channel) (i b j : ℕ) {c : Channel}
    → get_elem? cs i ≡ some c
    → c.read_buffer ≡ some b
    → (one_if (b == j) + occurs j (buffers_of (modify cs i emptied)) ≡ occurs j (buffers_of cs))
      × (suc (length (buffers_of (modify cs i emptied))) ≡ length (buffers_of cs))
one_less [] i b j h e = absurd (ground arith)
one_less (d ∷ cs) zero b j h e =
    let there : d.read_buffer ≡ some b = ground (arith, h, e) in rw there (refl, refl)
one_less (d ∷ cs) (suc i) b j h e =
    let (o, l) = one_less cs i b j h e in
    elim (Option-cases d.read_buffer) [
      | inl nothing ↦ rw nothing (o, l)
      | inr (x, there) ↦ rw there (omega (arith, o), ap (λ n. suc n) l)
    ]

-- A change of one event does not matter to who holds it.
refill :
    {k : ℕ} {held : List ℕ} {l : EventList}
    → EventsInv.IsValid k held l
    → (i : ℕ) (f : Event → Event)
    → EventsInv.IsValid k held (record l { events = modify l.events i f })
refill {l = l} v i f = record {
  free_queue = v.free_queue;
  ready_queue = v.ready_queue;
  free_capacity = v.free_capacity;
  ready_capacity = v.ready_capacity;
  stored = omega (arith, v.stored, length-modify l.events i f);
  owned = v.owned;
}

module _ (s : Service) (channel n b : ℕ) (c : Channel) (buf : Buffer) where
  abbrev longer : Buffer
  longer = (Buffer.add_length buf n).1

  abbrev read_pool : Pool
  read_pool = record (s.pool_read) { buffers = set s.pool_read.buffers b longer }

  abbrev fill : Event → Event
  fill e = record e {
    client_id = c.id;
    tn_buffer = c.read_buffer;
    buffer = Buffer.read_ptr longer;
    len = Buffer.read_length longer;
  }

  abbrev popped : EventList
  popped = (free_pop as_read s.events).2

  abbrev filled : ℕ → EventList
  filled i = record popped { events = modify popped.events i fill }

  abbrev announced : ℕ → Service
  announced i =
      change_channel (record s { pool_read = read_pool; events = (ready_push (filled i) i).1 })
        channel emptied

  with_event :
      (i : ℕ)
      → c.read_buffer ≡ some b
      → get_elem? s.pool_read.buffers b ≡ some buf
      → (Buffer.add_length buf n).0 ≡ success
      → (free_pop as_read s.events).0 ≡ success
      → (free_pop as_read s.events).1 ≡ some i
      → (ready_push (filled i) i).0 ≡ success
      → take_bytes s channel c n ≡ (success, announced i)
  unfolding take_bytes
  with_event i owner found fits got out pushed =
      ground (arith, owner, found, fits, got, out, pushed)

  without_event :
      c.read_buffer ≡ some b
      → get_elem? s.pool_read.buffers b ≡ some buf
      → (Buffer.add_length buf n).0 ≡ success
      → (free_pop as_read s.events).1 ≡ none
      → take_bytes s channel c n
        ≡ (recv_evtpop, record s { pool_read = read_pool; events = popped })
  unfolding take_bytes
  without_event owner found fits out = ground (arith, owner, found, fits, out)

module _ {m k : ℕ} {out held : List ℕ} {s : Service} (v : IsValid m out s)
    (w : EventsInv.IsValid k held s.events) (channel n : ℕ) {c : Channel} {b : ℕ} {buf : Buffer}
    (there : channel_at s channel ≡ some c) (owner : c.read_buffer ≡ some b)
    (found : get_elem? s.pool_read.buffers b ≡ some buf) where
  -- The event `evt` is the newest ready one, and its buffer holds `n` bytes more than before.
  abbrev pub Received : Status × Service → Type 0
  Received (r, s') =
      (i : ℕ) × (evt : Event) × (full : Buffer) × (r ≡ success)
      × (contents s'.events.ready ≡ contents s.events.ready ++ i ∷ [])
      × (get_elem? s'.events.events i ≡ some evt)
      × (evt.type ≡ event_client_read)
      × (evt.client_id ≡ c.id)
      × (evt.tn_buffer ≡ some b)
      × (get_elem? s'.pool_read.buffers b ≡ some full)
      × (pending full ≡ pending buf ++ slice buf.buf.buffer buf.buf.len n)
      × (evt.len ≡ Buffer.read_length full)
      × EventsInv.IsValid k held s'.events
      × IsValid m (b ∷ out) s'

  kept_pool : PoolInv.IsValid m (read_pool s channel n b c buf)
  kept_pool =
      rebuffer v.pool (read_pool s channel n b c buf).buffers
        (length-set s.pool_read.buffers b (longer s channel n b c buf) ∙ v.pool.sized)

  kept_buffers :
      {at : ℕ}
      → BufferInv.IsValid at (longer s channel n b c buf)
      → buf.buf.capacity ≡ s.pool_read.block_size
      → AreValid s.pool_read.block_size (read_pool s channel n b c buf).buffers
  kept_buffers l size =
      set-AreValid s.pool_read.block_size s.pool_read.buffers b v.valid_buffers l
        (capacity-add_length buf n ∙ size)

  handed_over :
      {at : ℕ} (i : ℕ)
      → BufferInv.IsValid at (longer s channel n b c buf)
      → buf.buf.capacity ≡ s.pool_read.block_size
      → IsValid m (b ∷ out) (announced s channel n b c buf i)
  handed_over i l size =
      let cs : List Channel = s.channel_list.client_map in
      record {
        pool = kept_pool;
        valid_buffers = kept_buffers l size;
        buffers = record {
          once = λ j. omega (arith, v.buffers.once j, (one_less cs channel b j there owner).0);
          sized = omega (arith, v.buffers.sized, (one_less cs channel b 0 there owner).1);
        };
      }

  pub received :
      n ≤ Buffer.remaining buf
      → let (r, s') = take_bytes s channel c n in
        ((full : Buffer) × (contents s.events.free ≡ [])
          × (r ≡ recv_evtpop)
          × (get_elem? s'.pool_read.buffers b ≡ some full)
          × (pending full ≡ pending buf ++ slice buf.buf.buffer buf.buf.len n)
          × (s'.channel_list ≡ s.channel_list)
          × (contents s'.pool_read.free ≡ contents s.pool_read.free)
          × (contents s'.events.ready ≡ contents s.events.ready)
          × EventsInv.IsValid k held s'.events
          × IsValid m out s')
        ⊎ Received (r, s')
  received fits =
      let (at, valid, size) = v.valid_buffers b buf found in
      elim (add_length_lem valid n) [
        | inr (big, _, _) ↦ absurd (omega (arith, fits, big))
        | inl (_, ok, l, held_bytes) ↦ elim (free_pop_lem w as_read) [
          | inl (none_left, _, o, unchanged) ↦
              rw (without_event s channel n b c buf owner found ok o) (
                inl (
                  longer s channel n b c buf,
                  none_left,
                  refl,
                  get_elem?-set_self s.pool_read.buffers b (longer s channel n b c buf)
                      (get_elem?-lt s.pool_read.buffers b found),
                  held_bytes,
                  refl,
                  refl,
                  ap (λ (l : EventList). contents l.ready) unchanged,
                  rw unchanged w,
                  record {
                    pool = kept_pool;
                    valid_buffers = kept_buffers l size;
                    buffers = v.buffers;
                  },
                ))
          | inr (i, got, o, below, _, events, ready, w₁) ↦
              let (pushed, joined, _, same, w₂) =
                ready_push_lem (refill w₁ i (fill s channel n b c buf)) in
              let (e, old) = get_elem?-some s.events.events i (omega (arith, below, w.stored)) in
              let new =
                get_elem?-modify_self (modify s.events.events i as_read) i
                  (fill s channel n b c buf) (as_read e)
                  (get_elem?-modify_self s.events.events i as_read e old) in
              rw (with_event s channel n b c buf i owner found ok got o pushed) (
                inr (
                  i,
                  fill s channel n b c buf (as_read e),
                  longer s channel n b c buf,
                  refl,
                  joined ∙ ap (λ xs. xs ++ i ∷ []) ready,
                  ap (λ es. get_elem? es i)
                        (same ∙ ap (λ es. modify es i (fill s channel n b c buf)) events)
                      ∙ new,
                  refl,
                  refl,
                  owner,
                  get_elem?-set_self s.pool_read.buffers b (longer s channel n b c buf)
                      (get_elem?-lt s.pool_read.buffers b found),
                  held_bytes,
                  refl,
                  w₂,
                  handed_over i l size,
                ))
        ]
      ]
