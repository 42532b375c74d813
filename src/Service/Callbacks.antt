-- ===== src/Service/Callbacks.antt =====
-- The callbacks of src/tcp_service_internal.c on reads, writes and closed handles. What libuv
-- answers to a call is a parameter, and what is asked of it is part of the result.
pub mod Laws
pub mod Writes
pub mod Ready
pub mod Reads
pub mod Received
pub mod Delivered
pub mod Tests
use tcpeen.Base.{
  ℕ, zero, suc, ◌+◌, Bool, true, false, Option, none, some, List, [], ◌∷◌, get_elem?, set,
  if◌then◌else◌, add64, Status, success, error, recv_error, recv_ebuf, recv_evtpop, recv_evtpush,
  uv, failed,
}
use tcpeen.Buffer
use tcpeen.Buffer.{Buffer}
use tcpeen.Queue
use tcpeen.Pool
use tcpeen.Pool.{Pool}
use tcpeen.Events
use tcpeen.Events.{Event, EventList, change}
use tcpeen.Channel.{
  Channel, ChannelList, channel_open, channel_closing, channel_closed, buffer_at, close_channel,
}
use tcpeen.Service.{Service, WriteReq, Counters, channel_at, change_channel, change_req}

-- A buffer goes back to the pool for reading; NULL is not pushed.
abbrev pub return_read : Service → Option ℕ → Service
return_read s none = s
return_read s (some b) = record s { pool_read = (Pool.push s.pool_read b).1 }

abbrev pub return_write : Service → Option ℕ → Service
return_write s none = s
return_write s (some b) = record s { pool_write = (Pool.push s.pool_write b).1 }

-- The channel of the handle has closed. Without a free event the channel is not given back.
pub on_close_channel_cb : Service → ℕ → Service
on_close_channel_cb s channel = elim (channel_at s channel) [
  | none ↦ s
  | some c ↦
      let closed =
        change_channel (return_read s c.read_buffer) channel
          (λ c. record c { state = channel_closed; read_buffer = none }) in
      let (r, evt, events) = Events.free_pop_close closed.events in
      if failed r then record closed { events = events } else elim evt [
        | none ↦ record closed { events = events }
        | some e ↦
            let filled =
              change events (some e) (λ e. record e { client_id = c.id; error_code = success }) in
            record closed {
              events = (Events.ready_push filled e).1;
              channel_list = (close_channel closed.channel_list channel).1;
            }
      ]
]

-- `sent` is the status of the write, of `len` bytes.
abbrev pub count_send : Counters → Status → ℕ → Counters
count_send n sent len =
    if failed sent
    then n
    else record n { send_msgs = add64 n.send_msgs 1; send_bytes = add64 n.send_bytes len }

pub on_send_cb : Service → ℕ → Status → Service
on_send_cb s req sent = elim (get_elem? s.write_reqs req) [
  | none ↦ s
  | some w ↦
      let counted = record s { counters = count_send s.counters sent w.len } in
      let returned =
        return_write (change_req counted req (λ w. record w { buffer = none })) w.buffer in
      record returned { write_reqs_free = (Queue.push returned.write_reqs_free req).1 }
]

-- One write request that was ready. `written` is the answer of `uv_write`, and the result tells
-- whether it was asked and took the request.
pub prepare : (ℕ → Status) → Service → ℕ → Bool × Service
prepare written s req = elim (get_elem? s.write_reqs req) [
  | none ↦ (false, s)
  | some w ↦ elim w.channel [
    | none ↦ (false, s)
    | some i ↦ elim (channel_at s i) [
      | none ↦ (false, s)
      | some c ↦
          let unsent = return_write s w.buffer in
          let dropped : Service = record unsent {
            write_reqs_free = (Queue.push unsent.write_reqs_free req).1;
          } in
          elim c.state [
            | channel_open ↦
                if failed (written req)
                then (false, change_req dropped req (λ w. record w { buffer = none }))
                else (true, s)
            | _ ↦ (false, dropped)
          ]
    ]
  ]
]

-- The loop of `on_prep_cb`: the requests that libuv took, and the service. As many rounds as there
-- are ready requests are enough, since nothing in the loop makes another one ready.
pub on_prep_cb : (ℕ → Status) → ℕ → Service → List ℕ × Service
unfolding prepare
on_prep_cb written zero s = ([], s)
on_prep_cb written (suc rounds) s =
    let (r, req, ready) = Queue.pop_back s.write_reqs_ready in
    let s₁ : Service = record s { write_reqs_ready = ready } in
    elim req [
      | none ↦ ([], s₁)
      | some w ↦
          let (taken, s₂) = prepare written s₁ w in
          let (more, s₃) = on_prep_cb written rounds s₂ in
          if failed r then ([], s₁) else (if taken then (w ∷ more, s₃) else (more, s₃))
    ]

-- The place and the room for the next read, and the service.
pub on_recv_alloc_cb : Service → ℕ → Option ℕ × ℕ × Service
on_recv_alloc_cb s channel = elim (channel_at s channel) [
  | none ↦ (none, 0, s)
  | some c ↦
      let s' : Service = elim c.read_buffer [
        | some b ↦ s
        | none ↦
            let (r, out, pool) = Pool.pop_back s.pool_read in
            change_channel (record s { pool_read = pool }) channel
              (λ c. record c { read_buffer = out })
      ] in
      elim (channel_at s' channel) [
        | none ↦ (none, 0, s')
        | some c' ↦ elim (buffer_at s'.pool_read.buffers c'.read_buffer) [
          | none ↦ (none, 0, s')
          | some b ↦ (some (Buffer.write_ptr b), Buffer.remaining b, s')
        ]
      ]
]

-- What libuv reports of a read: an error code, or a number of bytes.
pub data Nread : Type 0 where
  bad : ℕ → Nread
  bytes : ℕ → Nread

-- The end of `on_recv_cb` where all is not well; the result tells whether the handle is closed.
pub fail_read : Service → ℕ → Status → Bool → Bool → Bool × Service
fail_read s channel code close closing =
    let failed_with = change_channel s channel (λ c. record c { error_code = code }) in
    if close
    then (if closing
        then (false, failed_with)
        else (true, change_channel failed_with channel (λ c. record c { state = channel_closing })))
    else (false, failed_with)

-- `nread` bytes have come in behind the write end of the buffer of the channel.
pub take_bytes : Service → ℕ → Channel → ℕ → Status × Service
take_bytes s channel c nread = elim (buffer_at s.pool_read.buffers c.read_buffer) [
  | none ↦ (recv_ebuf, s)
  | some b ↦
      let (r, b') = Buffer.add_length b nread in
      let s₁ : Service = record s {
        pool_read = record (s.pool_read) {
          buffers = elim c.read_buffer [
            | none ↦ s.pool_read.buffers
            | some i ↦ set s.pool_read.buffers i b'
          ];
        };
      } in
      let (t, evt, events) = Events.free_pop_read s₁.events in
      let filled = change events evt (λ e. record e {
        client_id = c.id;
        tn_buffer = c.read_buffer;
        buffer = Buffer.read_ptr b';
        len = Buffer.read_length b';
      }) in
      elim evt [
        | none ↦ if failed r then (recv_ebuf, s₁) else (recv_evtpop, record s₁ { events = events })
        | some e ↦
            let (u, pushed) = Events.ready_push filled e in
            let s₂ : Service = record s₁ { events = pushed } in
            if failed r
            then (recv_ebuf, s₁)
            else (if failed t
                then (recv_evtpop, record s₁ { events = events })
                else (if failed u then (recv_evtpush, s₂) else (
                  success,
                  change_channel s₂ channel (λ c. record c { read_buffer = none }),
                )))
      ]
]

-- `closing` is the answer of `uv_is_closing`; the result tells whether `uv_close` is called.
pub on_recv_cb : Service → ℕ → Nread → Bool → Bool × Service
unfolding fail_read take_bytes
on_recv_cb s channel (bad code) closing = fail_read s channel (uv code) true closing
on_recv_cb s channel (bytes zero) closing = fail_read s channel recv_error false closing
on_recv_cb s channel (bytes (suc n)) closing = elim (channel_at s channel) [
  | none ↦ (false, s)
  | some c ↦
      let counted : Service = record s {
        counters = record (s.counters) {
          recv_msgs = add64 s.counters.recv_msgs 1;
          recv_bytes = add64 s.counters.recv_bytes (suc n);
        };
      } in
      let (r, s') = take_bytes counted channel c (suc n) in
      if failed r then fail_read s' channel r false closing else (false, s')
]
