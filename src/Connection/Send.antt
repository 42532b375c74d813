-- ===== src/Connection/Send.antt =====
-- `tcp_write_begin` and `on_tcp_write_cb` of src/tcp_connection.c. `alloc` is `aws_byte_buf_init`:
-- an empty buffer of the size that is asked for, or none.
pub mod Laws
pub mod Closing
use tcpeen.Base.{
  ℕ, ◌+◌, ◌%◌, ◌^◌, Bool, true, false, Option, none, some, List, [], ◌∷◌, length, if◌then◌else◌,
  ltb, ◌==◌, add64, Status, failed,
}
use tcpeen.Bytes.{ByteBuf, ByteOps}
use tcpeen.Bytes.Slices.{slice}
use tcpeen.Context.{Context}
use tcpeen.Connection.{Connection, ConnState, conn_connecting, conn_connected, ℤ, disconnect}

-- Whether `tcp_write_begin` goes on, and the state.
unfoldable pub ready_to_write : ConnState → Bool × ConnState
ready_to_write conn_connecting = (true, conn_connected)
ready_to_write conn_connected = (true, conn_connected)
ready_to_write s = (false, s)

-- The bytes of a message; `none` where one of the calls fails whose failure ends the function.
unfoldable pub frame : ByteOps → (ℕ → Option ByteBuf) → ℕ → ℕ → List ℕ → Option (List ℕ)
frame ops alloc id now bytes =
    let len = length bytes in
    elim (alloc (len + 4 + 8 + 8 + 1)) [
      | none ↦ none
      | some b₀ ↦
          let (ok₁, b₁) = ops.buf_write_be32 b₀ ((len + 8 + 8 + 1) % 2 ^ 32) in
          let (ok₂, b₂) = ops.buf_write_be64 b₁ id in
          let (ok₃, b₃) = ops.buf_write_be64 b₂ now in
          let (ok₄, b₄) = ops.buf_write b₃ bytes in
          let (ok₅, b₅) = ops.buf_write_u8 b₄ 0 in
          if ok₁
          then (if ok₂ then (if ok₃ then some (slice b₅.buffer 0 b₅.len) else none) else none)
          else none
    ]

-- The answers of the memory and of libuv to the rest of the call.
pub record Answers : Type 0 where
  pub request : Bool
  pub write : Status
  pub closing : Bool

-- What libuv is given to write, whether the handle is closed, and the connection that the handle
-- belongs to; `none` where there is no handle or it has no connection. A `char *` and a length are a
-- list, NULL is `none`.
unfoldable pub write_begin :
    ByteOps
    → (ℕ → Option ByteBuf)
    → ℕ
    → Answers
    → Option Connection
    → Option (List ℕ)
    → Option (List ℕ) × Bool × Option Connection
write_begin ops alloc now a none bytes = (none, false, none)
write_begin ops alloc now a (some c) none = (none, false, some c)
write_begin ops alloc now a (some c) (some []) = (none, false, some c)
write_begin ops alloc now a (some c) (some (x ∷ xs)) =
    let (goes_on, state) = ready_to_write c.state in
    let c' : Connection = record c { state = state; current_msg_id = add64 c.current_msg_id 1 } in
    let (closed, c'') = disconnect c' a.closing in
    if goes_on
    then elim (frame ops alloc c'.current_msg_id now (x ∷ xs)) [
      | none ↦ (none, false, some c')
      | some bytes ↦
          if a.request
          then (if failed a.write then (none, closed, some c'') else (some bytes, false, some c'))
          else (none, false, some c')
    ]
    else (none, false, some c)

abbrev pub is_connected : ConnState → Bool
is_connected conn_connected = true
is_connected _ = false

-- `len` bytes were written, at `now`.
pub count_write : ℕ → ℕ → Context → Connection → Context × Connection
count_write now len ctx c = if len == 0 then (ctx, c) else (
  record ctx { send_msgs = add64 ctx.send_msgs 1; send_bytes = add64 ctx.send_bytes len },
  record c {
    tstamp_first_msg = if c.tstamp_first_msg == 0 then now else c.tstamp_first_msg;
    send_msgs = add64 c.send_msgs 1;
    send_bytes = add64 c.send_bytes len;
  },
)

-- `failure` is the status of the write where that is not 0. Whether the handle is closed, the
-- context and the connection.
pub on_tcp_write_cb : ℕ → ℕ → Option ℤ → Bool → Context → Connection → Bool × Context × Connection
on_tcp_write_cb now len (some e) closing ctx c =
    let (closed, c') = disconnect (record c { write_err = e }) closing in (closed, ctx, c')
on_tcp_write_cb now len none closing ctx c =
    let (ctx', c') = count_write now len ctx c in
    let (closed, c'') = disconnect c' closing in
    if is_connected c'.state then (false, ctx', c') else (closed, ctx', c'')

-- It does the same to the connection, and does not release the bytes.
abbrev pub on_tcp_write_frag_cb :
    ℕ → ℕ → Option ℤ → Bool → Context → Connection → Bool × Context × Connection
on_tcp_write_frag_cb = on_tcp_write_cb
