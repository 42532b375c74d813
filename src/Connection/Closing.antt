-- ===== src/Connection/Closing.antt =====
-- A connection whose handle is being closed, until the handle is closed.
use tcpeen.Base.{
  ℕ, ◌+◌, ◌≡◌, refl, ◌∙◌, Bool, true, false, ◌||◌, Option, none, some, List, [], ◌∷◌, one_if,
  Status, arith,
}
use tcpeen.Bytes.{ByteBuf, ByteOps}
use tcpeen.Endpoint.{AddrOps}
use tcpeen.Context.{Context}
use tcpeen.Connection.{
  Connection, conn_disconnecting, ℤ, negsuc, Answers, disconnect, connect_begin,
  on_tcp_connected_cb,
}
use tcpeen.Connection.Disconnect.{disconnect_idle}
use tcpeen.Connection.Send.{write_begin, count_write, on_tcp_write_cb}
use tcpeen.Connection.Send
use tcpeen.Connection.Send.Closing.{write_begin_refused, on_tcp_write_cb_idle}

-- A call of the program, or a callback, but the arrival of bytes, a connection that comes up, and
-- the end of closing.
pub data Event : Type 1 where
  connect : AddrOps → Answers → Option Context → Option (List ℕ) → ℕ → Event
  refused : ℕ → Status → Bool → Event
  write : ByteOps → (ℕ → Option ByteBuf) → ℕ → Send.Answers → Option (List ℕ) → Event
  written : ℕ → ℕ → Option ℤ → Bool → Context → Event
  read_failed : ℕ → Bool → Event
  hang_up : Bool → Event

abbrev or_same : Connection → Option Connection → Connection
or_same c none = c
or_same c (some c') = c'

abbrev is_given : Option (List ℕ) → Bool
is_given none = false
is_given (some bs) = true

-- Whether `uv_close` is called, whether there is something for libuv to write, and the connection.
pub run : Event → Connection → Bool × Bool × Connection
run (connect addr a ctx host port) c =
    let (s, closed, c') = connect_begin addr a ctx host port c in (closed, false, c')
run (refused h read_start closing) c =
    let (closed, c') = on_tcp_connected_cb c h true read_start closing in (closed, false, c')
run (write ops alloc now a bytes) c =
    let (out, closed, c') = write_begin ops alloc now a (some c) bytes in
    (closed, is_given out, or_same c c')
run (written now len failure closing ctx) c =
    let (closed, ctx', c') = on_tcp_write_cb now len failure closing ctx c in (closed, false, c')
run (read_failed n closing) c =
    let (closed, c') = disconnect (record c { read_err = negsuc n }) closing in (closed, false, c')
run (hang_up closing) c = let (closed, c') = disconnect c closing in (closed, false, c')

-- Nothing is closed and nothing is written, and the handle stays as it is.
abbrev Quiet : Connection → Bool × Bool × Connection → Type 0
Quiet c (closed, out, c') =
    (closed ≡ false)
    × (out ≡ false)
    × (c'.state ≡ conn_disconnecting)
    × (c'.tcp_handle ≡ c.tcp_handle)

run-Quiet : (e : Event) (c : Connection) → c.state ≡ conn_disconnecting → Quiet c (run e c)
unfolding run connect_begin on_tcp_connected_cb
run-Quiet (connect addr a ctx host port) c h = ground (arith, h)
run-Quiet (refused x read_start closing) c h =
    rw (disconnect_idle c closing h) (refl, refl, h, refl)
run-Quiet (write ops alloc now a bytes) c h =
    rw (write_begin_refused ops alloc now a c bytes h) (refl, refl, h, refl)
run-Quiet (written now len failure closing ctx) c h =
    let (closed, state, handle) = on_tcp_write_cb_idle now len failure closing ctx c h in
    (closed, refl, state, handle)
run-Quiet (read_failed n closing) c h =
    rw (disconnect_idle (record c { read_err = negsuc n }) closing h) (refl, refl, h, refl)
run-Quiet (hang_up closing) c h = rw (disconnect_idle c closing h) (refl, refl, h, refl)

-- How often `uv_close` is called, whether libuv is given something to write, and the connection.
pub run_all : List Event → Connection → ℕ × Bool × Connection
run_all [] c = (0, false, c)
run_all (e ∷ es) c =
    let (closed, out, c') = run e c in
    let (n, more, c'') = run_all es c' in (one_if closed + n, out || more, c'')

-- While the handle of a connection is being closed, no call and no callback closes it again or
-- gives libuv something to write, and the connection stays in that state with its handle, but for
-- the arrival of bytes, which is not among the events, a connection that comes up all the same, and
-- the end of closing.
pub run_all-Quiet :
    (es : List Event) (c : Connection)
    → c.state ≡ conn_disconnecting
    → let (n, out, c') = run_all es c in
      (n ≡ 0) × (out ≡ false) × (c'.state ≡ conn_disconnecting) × (c'.tcp_handle ≡ c.tcp_handle)
unfolding run_all
run_all-Quiet [] c h = (refl, refl, h, refl)
run_all-Quiet (e ∷ es) c h =
    let (closed, out, state, handle) = run-Quiet e c h in
    let (n, more, state', handle') = run_all-Quiet es (run e c).2 state in
    (rw (closed, n) refl, rw (out, more) refl, state', handle' ∙ handle)
