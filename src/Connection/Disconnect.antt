-- ===== src/Connection/Disconnect.antt =====
-- `tcp_conn_disconnect`: the handle is closed once.
use tcpeen.Base.{
  ℕ, ◌≡◌, ◌≢◌, refl, ◌⊎◌, inl, inr, Bool, true, false, none, some, Option-cases, Bool-cases, arith,
}
use tcpeen.Connection.{
  Connection, ConnState, conn_new, conn_connecting, conn_connected, conn_disconnecting,
  conn_disconnected, disconnect,
}

-- Whether a connection in this state may have a handle that is open.
abbrev pub IsUp : ConnState → Type 0
IsUp s = (s ≢ conn_disconnecting) × (s ≢ conn_disconnected)

abbrev pub shut : Connection → Connection
shut c = record c { state = conn_disconnecting }

IsUp-cases : (s : ConnState) → (s ≡ conn_disconnecting) ⊎ (s ≡ conn_disconnected) ⊎ IsUp s
IsUp-cases conn_new = inr (inr (λ e. cc, λ e. cc))
IsUp-cases conn_connecting = inr (inr (λ e. cc, λ e. cc))
IsUp-cases conn_connected = inr (inr (λ e. cc, λ e. cc))
IsUp-cases conn_disconnecting = inl refl
IsUp-cases conn_disconnected = inr (inl refl)

module _ (c : Connection) (closing : Bool) where
  abbrev pub Closes : Type 0
  Closes =
      IsUp c.state
      × ((h : ℕ) × (c.tcp_handle ≡ some h))
      × (closing ≡ false)
      × (disconnect c closing ≡ (true, shut c))

  abbrev pub Stays : Type 0
  Stays =
      ((c.state ≡ conn_disconnecting)
        ⊎ (c.state ≡ conn_disconnected)
        ⊎ (c.tcp_handle ≡ none)
        ⊎ (closing ≡ true))
      × (disconnect c closing ≡ (false, c))

  down :
      (c.state ≡ conn_disconnecting) ⊎ (c.state ≡ conn_disconnected)
      → disconnect c closing ≡ (false, c)
  unfolding disconnect
  down (inl e) = ground (arith, e)
  down (inr e) = ground (arith, e)

  no_handle : c.tcp_handle ≡ none → disconnect c closing ≡ (false, c)
  unfolding disconnect
  no_handle e = ground (arith, e)

  is_closing : closing ≡ true → disconnect c closing ≡ (false, c)
  unfolding disconnect
  is_closing e = ground (arith, e)

  closes :
      (h : ℕ)
      → IsUp c.state
      → c.tcp_handle ≡ some h
      → closing ≡ false
      → disconnect c closing ≡ (true, shut c)
  unfolding disconnect
  closes h up there e = ground (arith, there, e, up)

  -- The handle of a connection that is up is closed where libuv is not closing it yet; otherwise
  -- nothing happens.
  pub disconnect_lem : Closes ⊎ Stays
  disconnect_lem = elim (IsUp-cases c.state) [
    | inl e ↦ inr (inl e, down (inl e))
    | inr (inl e) ↦ inr (inr (inl e), down (inr e))
    | inr (inr up) ↦ elim (Option-cases c.tcp_handle) [
      | inl e ↦ inr (inr (inr (inl e)), no_handle e)
      | inr (h, e) ↦ elim (Bool-cases closing) [
        | inl q ↦ inr (inr (inr (inr q)), is_closing q)
        | inr q ↦ inl (up, (h, e), q, closes h up e q)
      ]
    ]
  ]

-- A connection whose handle is being closed.
pub disconnect_idle :
    (c : Connection) (closing : Bool)
    → c.state ≡ conn_disconnecting
    → disconnect c closing ≡ (false, c)
disconnect_idle c closing e = down c closing (inl e)
