-- ===== src/Service/Callbacks/Delivered.antt =====
-- A read of some bytes, from libuv to the event that tells the main thread.
use tcpeen.Base.{
  add64, Bool, false, ℕ, zero, suc, ◌≤◌, ◌≡◌, refl, ap, ◌∙◌, ◌⊎◌, inl, inr, none, some, List, [],
  ◌∷◌, ◌++◌, modify, get_elem?, get_elem?-modify_self, Status, success, recv_evtpop,
}
use tcpeen.Bytes.Slices.{slice}
use tcpeen.Buffer
use tcpeen.Buffer.{Buffer}
use tcpeen.Buffer.Inv.{pending}
use tcpeen.Queue.Refine.{contents}
use tcpeen.Events.{Event, event_client_read}
use tcpeen.Events.Inv as EventsInv
use tcpeen.Channel.{Channel, ChannelList}
use tcpeen.Service.{Service, channel_at, change_channel}
use tcpeen.Service.Callbacks.{bytes, take_bytes, fail_read, on_recv_cb}
use tcpeen.Service.Callbacks.Received.{received}
use tcpeen.Service.Callbacks.Reads.{IsValid, buffers_of}

buffers_of-with_code :
    (cs : List Channel) (i : ℕ) (code : Status)
    → buffers_of (modify cs i (λ c. record c { error_code = code })) ≡ buffers_of cs
buffers_of-with_code [] i code = refl
buffers_of-with_code (c ∷ cs) zero code = refl
buffers_of-with_code (c ∷ cs) (suc i) code =
    ap (λ rest. elim c.read_buffer as (λ _. List ℕ) [ none ↦ rest | some b ↦ b ∷ rest ])
      (buffers_of-with_code cs i code)

-- The counters after a read of `n` bytes.
abbrev counted : Service → ℕ → Service
counted s n = record s {
  counters = record (s.counters) {
    recv_msgs = add64 s.counters.recv_msgs 1;
    recv_bytes = add64 s.counters.recv_bytes n;
  };
}

counted-IsValid :
    {m : ℕ} {out : List ℕ} {s : Service} → IsValid m out s → (n : ℕ) → IsValid m out (counted s n)
counted-IsValid v n = record { pool = v.pool; valid_buffers = v.valid_buffers; buffers = v.buffers }

after_success :
    (s : Service) (channel n : ℕ) (closing : Bool) {c : Channel} {s' : Service}
    → channel_at s channel ≡ some c
    → take_bytes (counted s (suc n)) channel c (suc n) ≡ (success, s')
    → on_recv_cb s channel (bytes (suc n)) closing ≡ (false, s')
unfolding on_recv_cb
after_success s channel n closing there e = rw (on_recv_cb, there, e) refl

after_failure :
    (s : Service) (channel n : ℕ) (closing : Bool) {c : Channel} {s' : Service}
    → channel_at s channel ≡ some c
    → take_bytes (counted s (suc n)) channel c (suc n) ≡ (recv_evtpop, s')
    → on_recv_cb s channel (bytes (suc n)) closing
      ≡ (false, change_channel s' channel (λ c. record c { error_code = recv_evtpop }))
unfolding on_recv_cb fail_read
after_failure s channel n closing there e = rw (on_recv_cb, there, e) refl

module _ {m k : ℕ} {out held : List ℕ} {s : Service} (v : IsValid m out s)
    (w : EventsInv.IsValid k held s.events) (channel n : ℕ) (closing : Bool) {c : Channel} {b : ℕ}
    {buf : Buffer} (there : channel_at s channel ≡ some c) (owner : c.read_buffer ≡ some b)
    (found : get_elem? s.pool_read.buffers b ≡ some buf) where
  -- The newest ready event `evt` is the read event of the client, and has the buffer `b`.
  abbrev pub Announces : Service → Type 0
  Announces s' =
      (i : ℕ) × (evt : Event) × (contents s'.events.ready ≡ contents s.events.ready ++ i ∷ [])
      × (get_elem? s'.events.events i ≡ some evt)
      × (evt.type ≡ event_client_read)
      × (evt.client_id ≡ c.id)
      × (evt.tn_buffer ≡ some b)
      × IsValid m (b ∷ out) s'

  -- The channel still has the buffer `b`, and the error; no event becomes ready, and no buffer is
  -- given back.
  abbrev pub Retains : Service → Type 0
  Retains s' =
      (kept : Channel) × (channel_at s' channel ≡ some kept)
      × (kept.read_buffer ≡ some b)
      × (kept.error_code ≡ recv_evtpop)
      × (contents s'.pool_read.free ≡ contents s.pool_read.free)
      × (contents s'.events.ready ≡ contents s.events.ready)
      × IsValid m out s'

  -- A read of some bytes into the buffer of a channel, with room for them: the bytes join the ones that
  -- the buffer holds, and the handle is not closed. Where an event is free, it tells the main thread of
  -- the client and takes the buffer over from the channel. Where none is, the channel keeps the
  -- buffer and has the error, no event becomes ready, and the free buffers stay as they are. Every
  -- event and every buffer stays in one place.
  pub on_recv_cb-keeps_bytes :
      suc n ≤ Buffer.remaining buf
      → let (closed, s') = on_recv_cb s channel (bytes (suc n)) closing in
        (closed ≡ false)
        × (full : Buffer) × (get_elem? s'.pool_read.buffers b ≡ some full)
        × (pending full ≡ pending buf ++ slice buf.buf.buffer buf.buf.len (suc n))
        × EventsInv.IsValid k held s'.events
        × (((contents s.events.free ≡ []) × Retains s') ⊎ Announces s')
  on_recv_cb-keeps_bytes fits =
      let t : Status × Service = take_bytes (counted s (suc n)) channel c (suc n) in
      elim (received (counted-IsValid v (suc n)) w channel (suc n) there owner found fits) [
        | inl (full, none_left, r, at, holds, channels, free, ready, events, u) ↦
            rw (after_failure s channel n closing there (ap (λ r. (r, t.1)) r)) (
              refl,
              full,
              at,
              holds,
              events,
              inl (
                none_left,
                (
                  record c { error_code = recv_evtpop },
                  get_elem?-modify_self t.1.channel_list.client_map channel
                      (λ c. record c { error_code = recv_evtpop }) c
                      (ap (λ (l : ChannelList). get_elem? l.client_map channel) channels ∙ there),
                  owner,
                  refl,
                  free,
                  ready,
                  record {
                    pool = u.pool;
                    valid_buffers = u.valid_buffers;
                    buffers =
                        rw (buffers_of-with_code t.1.channel_list.client_map channel recv_evtpop)
                          u.buffers;
                  },
                ),
              ),
            )
        | inr (i, evt, full, r, joined, stored, kind, client, owns, at, holds, _, events, u) ↦
            rw (after_success s channel n closing there (ap (λ r. (r, t.1)) r))
              (refl, full, at, holds, events, inr (i, evt, joined, stored, kind, client, owns, u))
      ]
