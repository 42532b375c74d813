-- ===== src/Connection/Moves.antt =====
-- How the calls and the callbacks of a connection move its state and its handle. What is done with
-- bytes that come in is in Receive.
use tcpeen.Base.{
  ℕ, ◌≡◌, ◌≢◌, refl, ◌∙◌, ◌⊎◌, inl, inr, Bool, true, false, Bool-cases, Option, none, some, List,
  if◌then◌else◌, Status, success, error, failed, arith,
}
use tcpeen.Endpoint
use tcpeen.Endpoint.{AddrOps}
use tcpeen.Context
use tcpeen.Context.{Context}
use tcpeen.Connection.{
  Connection, conn_connecting, conn_disconnecting, conn_disconnected, Answers, any_address,
  disconnect, connect_begin, begin_with, give_up,
}
use tcpeen.Connection.Disconnect.{disconnect_lem}
use tcpeen.Connection.Receive.Stream.{KeepsStream}

-- All that `tcp_connect_begin` asks for but the connection itself.
abbrev pub prepared : AddrOps → Answers → Option (List ℕ) → ℕ → Connection → Bool
prepared addr a host port c =
    if failed a.tcp_init
    then false
    else if failed (Endpoint.set addr c.host_remote host port).0
    then false
    else if failed (Endpoint.set addr c.host_local (some any_address) 0).0
    then false
    else if failed a.tcp_nodelay
    then false
    else if failed a.tcp_bind
    then false
    else a.request

disconnect_idle :
    (c : Connection) (closing : Bool)
    → c.state ≡ conn_disconnected
    → disconnect c closing ≡ (false, c)
disconnect_idle c closing e = elim (disconnect_lem c closing) [
  | inl ((_, up), _, _, _) ↦ absurd (up e)
  | inr (_, same) ↦ same
]

module _ (addr : AddrOps) (a : Answers) (host : Option (List ℕ)) (port : ℕ) (h : ℕ)
    (c : Connection) where
  abbrev with_handle : Connection
  with_handle = record c { tcp_handle = some h }

  abbrev with_remote : Connection
  with_remote = record with_handle { host_remote = (Endpoint.set addr c.host_remote host port).1 }

  abbrev with_local : Connection
  with_local = record with_remote {
    host_local = (Endpoint.set addr c.host_local (some any_address) 0).1;
  }

  abbrev connecting : Connection
  connecting = record with_local { state = conn_connecting }

  -- A call fails before libuv is asked to connect.
  abbrev Fails : Type 0
  Fails =
      (c' : Connection) × (prepared addr a host port c ≡ false)
      × (begin_with addr a host port h c ≡ give_up a.closing c')
      × (c'.state ≡ c.state)
      × (c'.tcp_handle ≡ some h)
      × KeepsStream c c'

  abbrev Asks : Type 0
  Asks =
      (prepared addr a host port c ≡ true)
      × (begin_with addr a host port h c ≡ (
          if failed a.tcp_connect
          then give_up a.closing connecting
          else (success, false, connecting)))

  begin_with_lem : Fails ⊎ Asks
  unfolding begin_with
  begin_with_lem = elim (Bool-cases (failed a.tcp_init)) [
    | inl e₁ ↦ inl (with_handle, rw e₁ refl, rw e₁ refl, refl, refl, (refl, refl, refl, refl))
    | inr g₁ ↦ elim (Bool-cases (failed (Endpoint.set addr c.host_remote host port).0)) [
      | inl e₂ ↦
          inl
            (with_remote, rw (g₁, e₂) refl, rw (g₁, e₂) refl, refl, refl, (refl, refl, refl, refl))
      | inr g₂ ↦
          elim (Bool-cases (failed (Endpoint.set addr c.host_local (some any_address) 0).0)) [
            | inl e₃ ↦ inl (
              with_local,
              rw (g₁, g₂, e₃) refl,
              rw (g₁, g₂, e₃) refl,
              refl,
              refl,
              (refl, refl, refl, refl),
            )
            | inr g₃ ↦ elim (Bool-cases (failed a.tcp_nodelay)) [
              | inl e₄ ↦ inl (
                with_local,
                rw (g₁, g₂, g₃, e₄) refl,
                rw (g₁, g₂, g₃, e₄) refl,
                refl,
                refl,
                (refl, refl, refl, refl),
              )
              | inr g₄ ↦ elim (Bool-cases (failed a.tcp_bind)) [
                | inl e₅ ↦ inl (
                  with_local,
                  rw (g₁, g₂, g₃, g₄, e₅) refl,
                  rw (g₁, g₂, g₃, g₄, e₅) refl,
                  refl,
                  refl,
                  (refl, refl, refl, refl),
                )
                | inr g₅ ↦ elim (Bool-cases a.request) [
                  | inl g₆ ↦
                      inr (rw (g₁, g₂, g₃, g₄, g₅, g₆) refl, rw (g₁, g₂, g₃, g₄, g₅, g₆) refl)
                  | inr e₆ ↦ inl (
                    with_local,
                    rw (g₁, g₂, g₃, g₄, g₅, e₆) refl,
                    rw (g₁, g₂, g₃, g₄, g₅, e₆) refl,
                    refl,
                    refl,
                    (refl, refl, refl, refl),
                  )
                ]
              ]
            ]
          ]
    ]
  ]

  -- What may come of making a connection that was closed.
  abbrev pub Again : Status × Bool × Connection → Type 0
  Again r =
      let (s, closed, c') = r in
      KeepsStream c c'
      × (c'.tcp_handle ≡ some h)
      × (((prepared addr a host port c ≡ true)
            × (failed a.tcp_connect ≡ false)
            × (s ≡ success)
            × (closed ≡ false)
            × (c'.state ≡ conn_connecting))
          ⊎ ((prepared addr a host port c ≡ true)
              × (failed a.tcp_connect ≡ true)
              × (a.closing ≡ false)
              × (s ≡ error)
              × (closed ≡ true)
              × (c'.state ≡ conn_disconnecting))
          ⊎ ((prepared addr a host port c ≡ true)
              × (failed a.tcp_connect ≡ true)
              × (a.closing ≡ true)
              × (s ≡ error)
              × (closed ≡ false)
              × (c'.state ≡ conn_connecting))
          ⊎ ((prepared addr a host port c ≡ false)
              × (s ≡ error)
              × (closed ≡ false)
              × (c'.state ≡ conn_disconnected)))

  given_up :
      (c' : Connection)
      → prepared addr a host port c ≡ false
      → c'.state ≡ conn_disconnected
      → c'.tcp_handle ≡ some h
      → KeepsStream c c'
      → Again (give_up a.closing c')
  given_up c' p idle handle keeps =
      rw (disconnect_idle c' a.closing idle) (keeps, handle, inr (inr (inr (p, refl, refl, idle))))

  asked :
      prepared addr a host port c ≡ true
      → Again (
          if failed a.tcp_connect
          then give_up a.closing connecting
          else (success, false, connecting))
  asked p = elim (Bool-cases (failed a.tcp_connect)) [
    | inr e ↦ rw e ((refl, refl, refl, refl), refl, inl (p, refl, refl, refl, refl))
    | inl e ↦ elim (disconnect_lem connecting a.closing) [
      | inl (_, _, q, d) ↦
          rw (e, d) ((refl, refl, refl, refl), refl, inr (inl (p, refl, q, refl, refl, refl)))
      | inr (inr (inr (inr q)), d) ↦
          rw (e, d) ((refl, refl, refl, refl), refl, inr (inr (inl (p, refl, q, refl, refl, refl))))
      | inr (inl x, d) ↦ absurd (other_state x)
      | inr (inr (inl x), d) ↦ absurd (closed_state x)
      | inr (inr (inr (inl x)), d) ↦ absurd (no_handle x)
    ]
  ]
    where
      other_state : conn_connecting ≢ conn_disconnecting
      other_state x = cc

      closed_state : conn_connecting ≢ conn_disconnected
      closed_state x = cc

      no_handle : some h ≢ none
      no_handle x = cc

-- A connection that was closed and is made again, where there is a handle `h` for it. Where all is
-- prepared and libuv takes it, it is connecting. Where libuv does not, the handle is closed, unless
-- libuv is closing it. Where one of the calls before fails, the call fails, the connection stays
-- closed, and the new handle stays open. In every case what was read before stays to be read.
pub connect_begin-Again :
    (addr : AddrOps) (a : Answers) (ctx : Option Context) (host : Option (List ℕ)) (port : ℕ)
    (c : Connection) {loop h : ℕ}
    → c.state ≡ conn_disconnected
    → Context.get_loop ctx ≡ some loop
    → a.handle ≡ some h
    → Again addr a host port h c (connect_begin addr a ctx host port c)
unfolding connect_begin
connect_begin-Again addr a ctx host port c {loop} {h} idle there given =
    rw taken (elim (begin_with_lem addr a host port h c) [
      | inl (c', p, e, state, handle, keeps) ↦
          rw e (given_up addr a host port h c c' p (state ∙ idle) handle keeps)
      | inr (p, e) ↦ rw e (asked addr a host port h c p)
    ])
  where
    taken : connect_begin addr a ctx host port c ≡ begin_with addr a host port h c
    taken = ground (arith, idle, there, given)
