-- ===== src/Connection/Receive.antt =====
-- `on_tcp_recv_cb` of src/tcp_connection.c: the bytes that have come in go to the buffer of the
-- connection, and the whole messages there are taken out of it. A message is its length in 4 bytes,
-- and then that many bytes: the number of the message and the time at which it was sent, 8 bytes
-- each, and the rest, which is skipped.
pub mod Refine
pub mod Stream
pub mod Pieces
pub mod Laws
pub mod Loop
use tcpeen.Base.{
  ℕ, zero, suc, ◌+◌, ◌-◌, ◌%◌, ◌^◌, Bool, true, false, Option, none, some, List, [], ◌∷◌, length,
  if◌then◌else◌, ltb, ◌==◌, add64, sub64, Status, success, error, failed,
}
use tcpeen.Bytes.{ByteOps}
use tcpeen.Buffer
use tcpeen.Buffer.{Buffer}
use tcpeen.Channel.{read_header, read_payload}
use tcpeen.Context.{Context}
use tcpeen.Connection.{Connection, negsuc, disconnect}

-- What libuv reports of a read: the error -(n + 1), or bytes, which may be none.
pub data Received : Type 0 where
  bad : ℕ → Received
  got : List ℕ → Received

-- The answers of the clock, and what the conversion of nanoseconds makes of a time.
pub record Clock : Type 0 where
  pub now : ℕ
  pub to_millis : ℕ → ℕ

-- How a round of the loop ends: no more to do, a jump to `cleanup`, or another round, with the
-- latency of the last message.
pub data Round : Type 0 where
  wait : Round
  stop : Connection → Buffer → Round
  go_on : ℕ → Connection → Buffer → Round

module _ (ops : ByteOps) (clock : Clock) where
  pub header_round : ℕ → Connection → Buffer → Round
  unfolding Buffer.read_length
  header_round latency c b =
      let (s, out, b') = Buffer.read_be32 ops b in
      if ltb (Buffer.read_length b) 4 then wait else elim out [
        | none ↦ stop c b'
        | some n ↦
            if failed s
            then stop c b'
            else go_on latency (record c { next_payload_len = n; read_state = read_payload }) b'
      ]

  -- `id` has come in: the connection counts on the numbers one by one.
  abbrev pub accepted : ℕ → Connection → Connection
  accepted id c = record c {
    last_recv_msg_id =
        if id == add64 c.last_recv_msg_id 1 then add64 c.last_recv_msg_id 1 else c.last_recv_msg_id;
    read_state = read_header;
  }

  -- What follows the number and the time.
  abbrev pub skip_rest : ℕ → ℕ → Connection → Buffer → Round
  skip_rest id sent c b =
      let (s, b') = Buffer.read_skip ops b ((c.next_payload_len + 2 ^ 32 - 16) % 2 ^ 32) in
      if failed s
      then stop c b'
      else go_on (clock.to_millis (sub64 clock.now sent)) (accepted id c) b'

  pub payload_round : Connection → Buffer → Round
  unfolding Buffer.read_length
  payload_round c b =
      let (s, id, b₁) = Buffer.read_be64 ops b in
      let (t, sent, b₂) = Buffer.read_be64 ops b₁ in
      if ltb (Buffer.read_length b) c.next_payload_len then wait else elim id [
        | none ↦ stop c b₁
        | some i ↦ if failed s then stop c b₁ else elim sent [
          | none ↦ stop c b₂
          | some at ↦ if failed t then stop c b₂ else skip_rest i at c b₂
        ]
      ]

  -- A state that is neither is gone round without a change.
  pub round : ℕ → Connection → Buffer → Round
  unfolding header_round payload_round
  round latency c b = elim c.read_state [
    | read_header ↦ header_round latency c b
    | read_payload ↦ payload_round c b
    | _ ↦ go_on latency c b
  ]

  -- The loop on `fuel` rounds: the status with which it is left, the latency, the connection and
  -- the buffer; `none` where it goes on.
  pub process : ℕ → ℕ → Connection → Buffer → Option (Status × ℕ × Connection × Buffer)
  unfolding round
  process zero latency c b = none
  process (suc fuel) latency c b = elim (round latency c b) [
    | wait ↦ some (success, latency, c, b)
    | stop c' b' ↦ some (error, latency, c', b')
    | go_on latency' c' b' ↦ process fuel latency' c' b'
  ]

  -- `n` bytes were received, and the loop has ended well.
  pub finish : ℕ → ℕ → Context → Connection → Buffer → Context × Connection
  unfolding Buffer.read_length
  finish n latency ctx c b = (
    record ctx { recv_msgs = add64 ctx.recv_msgs 1; recv_bytes = add64 ctx.recv_bytes n },
    record c {
      next_buffer = some (if Buffer.read_length b == 0 then Buffer.reset b else b);
      latency_total = add64 c.latency_total latency;
      latency_max = if ltb c.latency_max latency then latency else c.latency_max;
      tstamp_last_msg = clock.now;
      recv_msgs = add64 c.recv_msgs 1;
      recv_bytes = add64 c.recv_bytes n;
    },
  )

  -- Each round but the last takes at least four bytes out of the buffer, so that one more round
  -- than there are bytes is enough. `none` where the code does not return, or has no buffer.
  pub take_bytes : List ℕ → Context → Connection → Option (Context × Connection)
  unfolding Buffer.read_length
  take_bytes bs ctx c = elim c.next_buffer [
    | none ↦ none
    | some b ↦
        let (s, b') = Buffer.write ops b bs in
        let loop = process (suc (Buffer.read_length b')) 0 c b' in
        if failed s then some (ctx, record c { next_buffer = some b' }) else elim loop [
          | none ↦ none
          | some (t, latency, c', b'') ↦
              if failed t
              then some (ctx, record c' { next_buffer = some b'' })
              else some (finish (length bs) latency ctx c' b'')
        ]
  ]

  -- Whether the handle is closed, the context and the connection; `closing` is the answer of
  -- `uv_is_closing`.
  pub on_tcp_recv_cb : Received → Bool → Context → Connection → Option (Bool × Context × Connection)
  on_tcp_recv_cb (bad e) closing ctx c =
      let (closed, c') = disconnect (record c { read_err = negsuc e }) closing in
      some (closed, ctx, c')
  on_tcp_recv_cb (got []) closing ctx c = some (false, ctx, c)
  on_tcp_recv_cb (got (x ∷ xs)) closing ctx c = elim (take_bytes (x ∷ xs) ctx c) [
    | none ↦ none
    | some (ctx', c') ↦ some (false, ctx', c')
  ]
