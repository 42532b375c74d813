-- ===== src/Connection/Send/Closing.antt =====
-- Writes on a connection whose handle is being closed.
use tcpeen.Base.{
  ℕ, ◌≡◌, refl, ap, ◌∙◌, Bool, false, Option, none, some, List, [], ◌∷◌, Bool-cases, inl, inr, ◌==◌,
  arith,
}
use tcpeen.Bytes.{ByteBuf, ByteOps}
use tcpeen.Context.{Context}
use tcpeen.Connection.{Connection, ℤ, conn_disconnecting}
use tcpeen.Connection.Disconnect.{disconnect_idle}
use tcpeen.Connection.Send.{
  Answers, ready_to_write, write_begin, count_write, is_connected, on_tcp_write_cb,
}

-- Nothing is written.
pub write_begin_refused :
    (ops : ByteOps) (alloc : ℕ → Option ByteBuf) (now : ℕ) (a : Answers) (c : Connection)
    (bytes : Option (List ℕ))
    → c.state ≡ conn_disconnecting
    → write_begin ops alloc now a (some c) bytes ≡ (none, false, some c)
unfolding write_begin
write_begin_refused ops alloc now a c none h = refl
write_begin_refused ops alloc now a c (some []) h = refl
write_begin_refused ops alloc now a c (some (x ∷ xs)) h = ground (arith, stops)
  where
    stops : (ready_to_write c.state).0 ≡ false
    stops = unfold ready_to_write in rw h refl

count_write-KeepsState :
    (now len : ℕ) (ctx : Context) (c : Connection)
    → ((count_write now len ctx c).1.state ≡ c.state)
      × ((count_write now len ctx c).1.tcp_handle ≡ c.tcp_handle)
unfolding count_write
count_write-KeepsState now len ctx c = elim (Bool-cases (len == 0)) [
  | inl e ↦ rw e (refl, refl)
  | inr e ↦ rw e (refl, refl)
]

-- The handle is not closed again.
pub on_tcp_write_cb_idle :
    (now len : ℕ) (failure : Option ℤ) (closing : Bool) (ctx : Context) (c : Connection)
    → c.state ≡ conn_disconnecting
    → let (closed, ctx', c') = on_tcp_write_cb now len failure closing ctx c in
      (closed ≡ false) × (c'.state ≡ conn_disconnecting) × (c'.tcp_handle ≡ c.tcp_handle)
unfolding on_tcp_write_cb
on_tcp_write_cb_idle now len (some e) closing ctx c h =
    rw (disconnect_idle (record c { write_err = e }) closing h) (refl, h, refl)
on_tcp_write_cb_idle now len none closing ctx c h =
    let (state, handle) = count_write-KeepsState now len ctx c in
    let d = disconnect_idle (count_write now len ctx c).1 closing (state ∙ h) in
    let not_up : is_connected (count_write now len ctx c).1.state ≡ false =
      ap is_connected (state ∙ h) in
    ground (arith, not_up, d, state, handle, h)
