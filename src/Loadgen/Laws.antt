-- ===== src/Loadgen/Laws.antt =====
-- The phases of the load generator.
use tcpeen.Base.{
  ℕ, suc, ◌+◌, ◌≤◌, ◌≡◌, ◌≢◌, refl, sym, ap, ◌∙◌, ◌⊎◌, inl, inr, true, false, Bool-cases, some,
  List, [], ◌∷◌, if◌then◌else◌, leb, arith,
}
use tcpeen.Context.{Context}
use tcpeen.Connection.{
  Connection, ConnState, conn_new, conn_connecting, conn_connected, conn_disconnecting,
  conn_disconnected, connect_begin,
}
use tcpeen.Loadgen.{Args, World, Tally, tally_state, connect_one, connect_all, is_connected}

-- `n` of the connections were made again, and the others are as they were.
pub data Connects (w : World) (args : Args) (ctx : Context)
    : ℕ → ℕ → List Connection → List Connection → Type 0 where
  ends : (i : ℕ) → Connects w args ctx i 0 [] []
  stays :
      (i n : ℕ) (c : Connection) (cs ds : List Connection)
      → Connects w args ctx (suc i) n cs ds
      → Connects w args ctx i n (c ∷ cs) (c ∷ ds)
  begins :
      (i n : ℕ) (c : Connection) (cs ds : List Connection)
      → (c.state ≡ conn_new) ⊎ (c.state ≡ conn_disconnected)
      → Connects w args ctx (suc i) n cs ds
      → Connects w args ctx i
          (suc n)
          (c ∷ cs)
          ((connect_begin w.addr (w.connecting i) (some ctx) (some args.host) args.port c).2 ∷ ds)

abbrev pub AllConnected : List Connection → Type 0
AllConnected [] = Unit {0}
AllConnected (c ∷ cs) = (c.state ≡ conn_connected) × AllConnected cs

unfoldable pub count_connected : List Connection → ℕ
count_connected [] = 0
count_connected (c ∷ cs) =
    if is_connected c.state then suc (count_connected cs) else count_connected cs

-- What the first loop makes of a state.
tally_lem :
    (s : ConnState) (t : Tally)
    → ((tally_state s t).1.made ≡ t.made)
      × ((tally_state s t).1.connected ≡ (if is_connected s then t.connected + 1 else t.connected))
      × (((tally_state s t).0 ≡ false) ⊎ ((s ≡ conn_new) ⊎ (s ≡ conn_disconnected)))
unfolding tally_state
tally_lem conn_new t = (refl, refl, inr (inl refl))
tally_lem conn_connecting t = (refl, refl, inl refl)
tally_lem conn_connected t = (refl, refl, inl refl)
tally_lem conn_disconnecting t = (refl, refl, inl refl)
tally_lem conn_disconnected t = (refl, refl, inr (inr refl))

module _ (w : World) (args : Args) (ctx : Context) (limit : ℕ) where
  abbrev begun : ℕ → Connection → Connection
  begun i c = (connect_begin w.addr (w.connecting i) (some ctx) (some args.host) args.port c).2

  connect_one_lem :
      (i : ℕ) (t : Tally) (c : Connection)
      → let (t', c') = connect_one w args ctx limit i t c in
        (t'.connected ≡ (if is_connected c.state then t.connected + 1 else t.connected))
        × (((t'.made ≡ t.made) × (c' ≡ c))
            ⊎ ((t'.made ≡ t.made + 1)
                × (t'.made ≤ limit)
                × (c' ≡ begun i c)
                × ((c.state ≡ conn_new) ⊎ (c.state ≡ conn_disconnected))))
  unfolding connect_one
  connect_one_lem i t c =
      let (same, sum, way) = tally_lem c.state t in
      elim (Bool-cases (tally_state c.state t).0) [
        | inr stop ↦ rw stop (sum, inl (same, refl))
        | inl go ↦ elim (Bool-cases (leb limit (tally_state c.state t).1.made)) [
          | inl full ↦ rw (go, full) (sum, inl (same, refl))
          | inr room ↦
              rw (go, room)
                (
                  sum,
                  inr (
                    ap (λ n. n + 1) same,
                    under room,
                    refl,
                    elim way [ inl stop ↦ absurd (true-ne-false (sym go ∙ stop)) | inr s ↦ s ],
                  ),
                )
        ]
      ]
    where
      under :
          leb limit (tally_state c.state t).1.made ≡ false
          → (tally_state c.state t).1.made + 1 ≤ limit
      under e = ground arith

      true-ne-false : true ≢ false
      true-ne-false e = cc

  -- The loop of the first phase counts the connections that are connected, and makes others again,
  -- up to its limit.
  pub connect_all_lem :
      (i : ℕ) (t : Tally) (cs : List Connection)
      → t.made ≤ limit
      → let (t', cs') = connect_all w args ctx limit i t cs in
        (t'.connected ≡ t.connected + count_connected cs)
        × ((n : ℕ) × (t'.made ≡ t.made + n) × (t'.made ≤ limit) × Connects w args ctx i n cs cs')
  unfolding connect_all count_connected
  connect_all_lem i t [] le = (omega arith, (0, omega arith, le, ends i))
  connect_all_lem i t (c ∷ cs) le =
      let (sum, way) = connect_one_lem i t c in
      let rest = connect_all_lem (suc i) (connect_one w args ctx limit i t c).0 cs in
      elim way [
        | inl (made, same) ↦
            let (sums, (n, m, le', r)) = rest (omega (arith, made)) in
            (
              ground (arith, sum, sums),
              (n, omega (arith, made, m), le', rw same (stays i n c cs _ r)),
            )
        | inr (made, small, same, state) ↦
            let (sums, (n, m, le', r)) = rest small in
            (
              ground (arith, sum, sums),
              (suc n, omega (arith, made, m), le', rw same (begins i n c cs _ state r)),
            )
      ]
