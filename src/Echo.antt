-- ===== src/Echo.antt =====
-- src/tcpserv/tcpserv_unity.c: a server that sends back what it reads, with the calls of the main
-- thread alone. The setup of the system and of the threads, and the sleep, are not modelled.
pub mod Laws
pub mod Rounds
pub mod Tests
use tcpeen.Base.{
  ℕ, Bool, true, false, not, Option, none, some, List, [], ◌∷◌, take, get_elem?, modify,
  if◌then◌else◌, Status, success, event_nochan, failed,
}
use tcpeen.Bytes.{ByteOps}
use tcpeen.Buffer
use tcpeen.Buffer.{bytes_at}
use tcpeen.Pool.{Pool}
use tcpeen.Events.{Event, event_client_read}
use tcpeen.Channel
use tcpeen.Channel.{buffer_at}
use tcpeen.Service.{Service, service_stopping}
use tcpeen.Service.Lifecycle.{get_state}
use tcpeen.Service.Updates.{acquire, release}
use tcpeen.Service.Send.{send}

-- `tn_buffer_read_reset` on a buffer of a pool.
abbrev pub rewound : Option ℕ → Pool → Pool
rewound none p = p
rewound (some i) p = record p { buffers = modify p.buffers i Buffer.read_reset }

module _ (ops : ByteOps) where
  -- A read event without a buffer is refused here; TN_ASSERT stops the code on one, and where there
  -- is nothing to send.
  pub handle_client_read : Service → Event → Status × Service
  handle_client_read s e =
      let (r, channel) = Channel.get s.channel_list e.client_id in
      if failed r then (event_nochan, s) else elim channel [
        | none ↦ (event_nochan, s)
        | some c ↦
            let s' : Service = record s { pool_read = rewound e.tn_buffer s.pool_read } in
            elim (buffer_at s'.pool_read.buffers e.tn_buffer) [
              | none ↦ (event_nochan, s')
              | some b ↦
                  send ops s' c (bytes_at b.buf.buffer (Buffer.read_ptr b) (Buffer.read_length b))
            ]
      ]

  -- The switch on the type of one event. A pointer to nothing is skipped here; the service never
  -- hands out one.
  pub handle : Service → Option ℕ → Service
  unfolding handle_client_read
  handle s none = s
  handle s (some i) = elim (get_elem? s.events.events i) [
    | none ↦ s
    | some e ↦ elim e.type [ event_client_read ↦ (handle_client_read s e).1 | _ ↦ s ]
  ]

  pub handle_all : Service → List (Option ℕ) → Service
  unfolding handle
  handle_all s [] = s
  handle_all s (evt ∷ evts) = handle_all (handle s evt) evts

  -- One round of the loop in `main`; the count is 0 where no event is acquired.
  pub round : Service → Service
  unfolding handle_all
  round s =
      let (r, count, s') = acquire s in (release (handle_all s' (take count s'.event_updates))).1

-- The test of the loop.
pub goes_on : Service → Bool
unfolding get_state
goes_on s = elim (get_state s) [ service_stopping ↦ false | _ ↦ true ]
