-- ===== src/Connection.antt =====
-- src/tcp_connection.c and include/tn/tcp_connection.h: a connection of the load generator, which
-- frames what it sends and reads it back. What libuv, the clock and the memory answer to a call are
-- parameters. A handle of libuv is a number. The context that `conn->ctx` points to is passed beside
-- the connection.
pub mod Disconnect
pub mod Tests
pub mod Closing
pub mod Moves
pub mod Roundtrip
pub mod Receive
pub mod Decode
pub mod Send
use tcpeen.Base.{
  ℕ, zero, suc, ◌+◌, ◌^◌, ◌%◌, ◌-◌, Bool, true, false, Option, none, some, List, [], ◌∷◌, length,
  if◌then◌else◌, ltb, ◌==◌, add64, sub64, Status, success, error, error_nomem, error_inval, failed,
}
use tcpeen.Memory.{Memory}
use tcpeen.Bytes.{ByteBuf, ByteOps}
use tcpeen.Buffer
use tcpeen.Buffer.{Buffer}
use tcpeen.Pool.{sizeof_buffer}
use tcpeen.Endpoint
use tcpeen.Endpoint.{Endpoint, AddrOps}
use tcpeen.Channel.{ReadState, read_none, read_header, read_payload}
use tcpeen.Context
use tcpeen.Context.{Context}

-- `negsuc n` is -(n + 1).
pub data ℤ : Type 0 where
  pos : ℕ → ℤ
  negsuc : ℕ → ℤ

pub data ConnState : Type 0 where
  conn_new conn_connecting conn_connected conn_disconnecting conn_disconnected : ConnState

-- `next_buf` tells whether there is memory for the buffer, which `next_buffer` then holds.
pub record Connection : Type 0 where
  pub tcp_handle : Option ℕ
  pub host_local : Endpoint
  pub host_remote : Endpoint
  pub read_err : ℤ
  pub write_err : ℤ
  pub state : ConnState
  pub id : ℕ
  pub recv_msgs : ℕ
  pub recv_bytes : ℕ
  pub send_msgs : ℕ
  pub send_bytes : ℕ
  pub latency_total : ℕ
  pub latency_max : ℕ
  pub tstamp_first_msg : ℕ
  pub tstamp_last_msg : ℕ
  pub current_msg_id : ℕ
  pub last_recv_msg_id : ℕ
  pub next_payload_len : ℕ
  pub next_payload_remaining : ℕ
  pub next_msg_id : ℕ
  pub next_latency : ℕ
  pub next_buf : Bool
  pub next_buffer : Option Buffer
  pub read_state : ReadState

-- After `memset`.
abbrev pub blank : Connection
blank = record {
  tcp_handle = none;
  host_local = Endpoint.zeroed;
  host_remote = Endpoint.zeroed;
  read_err = pos 0;
  write_err = pos 0;
  state = conn_new;
  id = 0;
  recv_msgs = 0;
  recv_bytes = 0;
  send_msgs = 0;
  send_bytes = 0;
  latency_total = 0;
  latency_max = 0;
  tstamp_first_msg = 0;
  tstamp_last_msg = 0;
  current_msg_id = 0;
  last_recv_msg_id = 0;
  next_payload_len = 0;
  next_payload_remaining = 0;
  next_msg_id = 0;
  next_latency = 0;
  next_buf = false;
  next_buffer = none;
  read_state = read_none;
}

abbrev pub buffer_size : ℕ
buffer_size = 131070

pub init : ByteOps → Memory → Status × Connection
init ops mem =
    let cleared : Connection = record blank { read_state = read_header } in
    elim (mem.bytes buffer_size) [
      | none ↦ (error, cleared)
      | some m ↦
          let stored : Connection = record cleared { next_buf = true } in
          if mem.structs sizeof_buffer
          then (let (s, b) = Buffer.setup ops m buffer_size in
              let ready : Connection = record stored { next_buffer = some b } in
              if failed s then (error, ready) else (success, ready))
          else (error, stored)
    ]

-- `tcp_get_conns` on one of the connections.
pub get_conn : ByteOps → Memory → Connection
unfolding init
get_conn ops mem = record ((init ops mem).1) {
  read_err = pos 1;
  write_err = pos 2;
  state = conn_disconnected;
}

-- `given` tells whether there is memory for it.
pub new : Bool → Option Context → Option Connection
new given none = none
new given (some ctx) = if given then some blank else none

-- `closing` is the answer of `uv_is_closing`; the result tells whether `uv_close` is called.
pub disconnect : Connection → Bool → Bool × Connection
disconnect c closing =
    let close : Bool × Connection = elim c.tcp_handle [
      | none ↦ (false, c)
      | some h ↦ if closing then (false, c) else (true, record c { state = conn_disconnecting })
    ] in
    elim c.state [ conn_disconnected ↦ (false, c) | conn_disconnecting ↦ (false, c) | _ ↦ close ]

-- `handle->data` is the connection, or NULL.
pub on_tcp_close_cb : Option Connection → Option Connection
on_tcp_close_cb none = none
on_tcp_close_cb (some c) = some (record c { state = conn_disconnected; tcp_handle = none })

-- The answers of the memory and of libuv while a connection is made.
pub record Answers : Type 0 where
  pub handle : Option ℕ
  pub tcp_init : Status
  pub tcp_nodelay : Status
  pub tcp_bind : Status
  pub request : Bool
  pub tcp_connect : Status
  pub closing : Bool

abbrev pub any_address : List ℕ
any_address = b'0' ∷ b'.' ∷ b'0' ∷ b'.' ∷ b'0' ∷ b'.' ∷ b'0' ∷ []

-- The end of `tcp_connect_begin` where a call fails.
abbrev pub give_up : Bool → Connection → Status × Bool × Connection
give_up closing c = let (closed, c') = disconnect c closing in (error, closed, c')

-- What follows the handle: the status, whether the handle is closed, and the connection.
pub begin_with :
    AddrOps → Answers → Option (List ℕ) → ℕ → ℕ → Connection → Status × Bool × Connection
unfolding disconnect
begin_with addr a host port h c₀ =
    let c : Connection = record c₀ { tcp_handle = some h } in
    let (r, remote) = Endpoint.set addr c.host_remote host port in
    let c₁ : Connection = record c { host_remote = remote } in
    let (l, loc) = Endpoint.set addr c.host_local (some any_address) 0 in
    let c₂ : Connection = record c₁ { host_local = loc } in
    let c₃ : Connection = record c₂ { state = conn_connecting } in
    if failed a.tcp_init
    then give_up a.closing c
    else (if failed r
        then give_up a.closing c₁
        else (if failed l
            then give_up a.closing c₂
            else (if failed a.tcp_nodelay
                then give_up a.closing c₂
                else (if failed a.tcp_bind
                    then give_up a.closing c₂
                    else (if a.request
                        then (if failed a.tcp_connect
                            then give_up a.closing c₃
                            else (success, false, c₃))
                        else give_up a.closing c₂)))))

abbrev pub may_connect : ConnState → Bool
may_connect conn_new = true
may_connect conn_disconnected = true
may_connect _ = false

pub connect_begin :
    AddrOps
    → Answers
    → Option Context
    → Option (List ℕ)
    → ℕ
    → Connection
    → Status × Bool × Connection
unfolding begin_with
connect_begin addr a ctx host port c =
    if may_connect c.state
    then elim (Context.get_loop ctx) [
      | none ↦ (error_inval, false, c)
      | some loop ↦ elim a.handle [
        | none ↦ (error_nomem, false, record c { tcp_handle = none })
        | some h ↦ begin_with addr a host port h c
      ]
    ]
    else (error_inval, false, c)

-- `h` is the handle of the request, `status` and `read_start` are what libuv answers.
pub on_tcp_connected_cb : Connection → ℕ → Bool → Status → Bool → Bool × Connection
unfolding disconnect
on_tcp_connected_cb c h refused read_start closing =
    let c' : Connection = record c { state = conn_connected; tcp_handle = some h } in
    if refused
    then disconnect c closing
    else (if failed read_start then disconnect c' closing else (false, c'))
