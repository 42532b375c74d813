-- ===== src/Connection/Receive/Stream.antt =====
-- What the calls of `on_tcp_recv_cb` come to, in whatever pieces the bytes arrive.
use native.Mathlib.Decide.{dec_lt}
use tcpeen.Base.{
  ℕ, ◌+◌, ◌<◌, ◌≡◌, refl, ◌∙◌, inl, inr, Bool, false, some, List, [], ◌∷◌, length, arith,
}
use tcpeen.Bytes.{ByteOps, IsByteOps}
use tcpeen.Buffer.{Buffer}
use tcpeen.Context.{Context}
use tcpeen.Connection.{Connection, negsuc, disconnect}
use tcpeen.Connection.Disconnect.{disconnect_lem}
use tcpeen.Connection.Receive.{Clock, Received, bad, got, take_bytes, on_tcp_recv_cb}
use tcpeen.Connection.Receive.Refine.{IsReady}
use tcpeen.Connection.Receive.Laws.{take_bytes_lem, take_bytes_full}

-- `c` is `c'` but for its handle and the progress of its connection.
abbrev pub KeepsStream : Connection → Connection → Type 0
KeepsStream c c' =
    (c'.next_buffer ≡ c.next_buffer)
    × (c'.read_state ≡ c.read_state)
    × (c'.next_payload_len ≡ c.next_payload_len)
    × (c'.last_recv_msg_id ≡ c.last_recv_msg_id)

pub disconnect-KeepsStream :
    (c : Connection) (closing : Bool) → KeepsStream c (disconnect c closing).1
disconnect-KeepsStream c closing = elim (disconnect_lem c closing) [
  | inl (_, _, _, e) ↦ rw e (refl, refl, refl, refl)
  | inr (_, e) ↦ rw e (refl, refl, refl, refl)
]

module _ (ops : ByteOps) (laws : IsByteOps ops) (clock : Clock) where
  pub recv_some :
      (x : ℕ) (xs : List ℕ) (closing : Bool) (ctx ctx' : Context) (c c' : Connection)
      → take_bytes ops clock (x ∷ xs) ctx c ≡ some (ctx', c')
      → on_tcp_recv_cb ops clock (got (x ∷ xs)) closing ctx c ≡ some (false, ctx', c')
  unfolding on_tcp_recv_cb
  recv_some x xs closing ctx ctx' c c' e = rw (e, on_tcp_recv_cb) refl

  module _ (closing : Bool) (ctx : Context) {at : ℕ} {c : Connection} {b : Buffer}
      (there : c.next_buffer ≡ some b) (r : IsReady at c b) where
    -- Whatever libuv reports to a connection whose buffer is ready, the callback returns, and the
    -- connection has a ready buffer afterwards.
    pub on_tcp_recv_cb-returns :
        (e : Received)
        → (closed : Bool) × (ctx' : Context) × (c' : Connection) × (to : ℕ) × (b' : Buffer)
          × (on_tcp_recv_cb ops clock e closing ctx c ≡ some (closed, ctx', c'))
          × (c'.next_buffer ≡ some b')
          × IsReady to c' b'
    unfolding on_tcp_recv_cb
    on_tcp_recv_cb-returns (bad n) =
        let (next, read, _, _) =
          disconnect-KeepsStream (record c { read_err = negsuc n }) closing in
        (
          (disconnect (record c { read_err = negsuc n }) closing).0,
          ctx,
          (disconnect (record c { read_err = negsuc n }) closing).1,
          at,
          b,
          refl,
          next ∙ there,
          record { valid = r.valid; awake = rw read (r.awake); small = r.small },
        )
    on_tcp_recv_cb-returns (got []) = (false, ctx, c, at, b, refl, there, r)
    on_tcp_recv_cb-returns (got (x ∷ xs)) =
        elim (dec_lt b.buf.capacity (b.buf.len + length (x ∷ xs))) [
          | yes full ↦ (
            false,
            ctx,
            c,
            at,
            b,
            recv_some x xs closing ctx ctx c c
                (take_bytes_full ops laws clock ctx there r (x ∷ xs) full),
            there,
            r,
          )
          | no fits ↦
              let (d, ctx', c', _, e, (h, _, _)) =
                take_bytes_lem ops laws clock ctx there r (x ∷ xs) (omega arith) in
              (
                false,
                ctx',
                c',
                h.at,
                h.buf,
                recv_some x xs closing ctx ctx' c c' e,
                h.there,
                h.ready,
              )
        ]

    -- Bytes for which a ready buffer has no room are lost, and nothing changes.
    pub on_tcp_recv_cb-loses :
        (x : ℕ) (xs : List ℕ)
        → b.buf.capacity < b.buf.len + length (x ∷ xs)
        → on_tcp_recv_cb ops clock (got (x ∷ xs)) closing ctx c ≡ some (false, ctx, c)
    on_tcp_recv_cb-loses x xs full =
        recv_some x xs closing ctx ctx c c
          (take_bytes_full ops laws clock ctx there r (x ∷ xs) full)
