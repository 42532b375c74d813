-- ===== src/Loadgen/Phases.antt =====
-- How a tick of the load generator moves it from phase to phase.
use tcpeen.Base.{
  ℕ, suc, ◌+◌, ◌≤◌, ◌<◌, ◌≡◌, refl, ap, ◌∙◌, ◌⊎◌, inl, inr, true, Bool-cases, List, [], ◌∷◌, length,
  min, if◌then◌else◌, ltb, leb, ◌==◌, add64, sub64, arith,
}
use tcpeen.Connection.{
  Connection, ConnState, conn_new, conn_connecting, conn_connected, conn_disconnecting,
  conn_disconnected,
}
use tcpeen.Loadgen.{
  Loadgen, Args, World, no_tally, max_connections_per_timer, connect_all, is_connected,
  transmit_one, transmit_all, establish, transmit, finish, run_phase, on_tick_cb,
}
use tcpeen.Loadgen.Laws.{Connects, AllConnected, count_connected, connect_all_lem}

count-le : (cs : List Connection) → count_connected cs ≤ length cs
unfolding count_connected
count-le [] = omega arith
count-le (c ∷ cs) = ground (arith, count-le cs)

is_connected-eq : (s : ConnState) → is_connected s ≡ true → s ≡ conn_connected
is_connected-eq conn_connected e = refl
is_connected-eq conn_new e = cc
is_connected-eq conn_connecting e = cc
is_connected-eq conn_disconnecting e = cc
is_connected-eq conn_disconnected e = cc

count-all : (cs : List Connection) → length cs ≤ count_connected cs → AllConnected cs
unfolding count_connected
count-all [] h = tt
count-all (c ∷ cs) h = elim (Bool-cases (is_connected c.state)) [
  | inl e ↦ (is_connected-eq c.state e, count-all cs (ground (arith, e)))
  | inr e ↦ absurd (ground (arith, e, count-le cs))
]

all-count : (cs : List Connection) → AllConnected cs → length cs ≤ count_connected cs
unfolding count_connected
all-count [] h = omega arith
all-count (c ∷ cs) (e, h) = ground (arith, all-count cs h, ap is_connected e)

module _ (w : World) (args : Args) (g : Loadgen) where
  -- A tick of the phase in which the connections are made: at most a thousand of those that are new
  -- or closed are made again, and the others stay as they are. The phase is over just where all of them
  -- were connected.
  pub establish_lem :
      let g' = establish w args g in
      ((n : ℕ) × (n ≤ 1000) × Connects w args g.ctx 0 n g.conns g'.conns)
      × ((AllConnected g.conns × (g'.appstate ≡ add64 g.appstate 1))
          ⊎ ((AllConnected g.conns → ⊥) × (g'.appstate ≡ g.appstate)))
  unfolding establish
  establish_lem =
      let (sum, (n, made, small, r)) =
        connect_all_lem w args g.ctx (min (length g.conns) max_connections_per_timer) 0 no_tally
          g.conns (omega arith) in
      elim (Bool-cases (
        leb (length g.conns)
          (connect_all w args g.ctx (min (length g.conns) max_connections_per_timer) 0 no_tally
            g.conns).0.connected)) [
              | inl e ↦ (
                (n, omega (arith, made, small), rw e r),
                inl (count-all g.conns (ground (arith, sum, e)), rw e refl),
              )
              | inr e ↦ (
                (n, omega (arith, made, small), rw e r),
                inr (λ all. ground (arith, sum, e, all-count g.conns all), rw e refl),
              )
            ]

  -- Once the time is over, nothing is sent.
  transmit_all_done : (i : ℕ) (cs : List Connection) → (transmit_all w args true i cs).1 ≡ cs
  unfolding transmit_all transmit_one
  transmit_all_done i [] = refl
  transmit_all_done i (c ∷ cs) = ap (λ t. c ∷ t) (transmit_all_done (suc i) cs)

  -- The next phase ends only where the time is over.
  transmit_phase :
      ((transmit w args g).1.appstate ≡ g.appstate)
      ⊎ (((transmit w args g).1.appstate ≡ add64 g.appstate 1)
          × (g.transmit_time_ms < g.elapsed_ms)
          × ((transmit w args g).1.conns ≡ g.conns))
  unfolding transmit
  transmit_phase = elim (Bool-cases (ltb g.transmit_time_ms g.elapsed_ms)) [
    | inr e ↦ inl (
        rw e (elim (Bool-cases (g.last_recv_msgs == g.ctx.recv_msgs)) [
          | inl q ↦ rw q refl
          | inr q ↦ rw q refl
        ]))
    | inl e ↦ elim (Bool-cases (g.last_recv_msgs == g.ctx.recv_msgs)) [
      | inr q ↦ inl (rw (e, q) refl)
      | inl q ↦ elim (Bool-cases (ltb 6000 g.elapsed_since_io)) [
        | inr r ↦ inl (rw (e, q, r) refl)
        | inl r ↦ inr (rw (e, q, r) refl, ground arith, rw (e, q, r) (transmit_all_done 0 g.conns))
      ]
    ]
  ]

  -- The phase stays, or the next one comes.
  abbrev pub Moved : Loadgen → Type 0
  Moved g' =
      (g'.appstate ≡ g.appstate)
      ⊎ ((g'.appstate ≡ g.appstate + 1)
          × (g.appstate < 6)
          × (g.appstate ≡ 1 → AllConnected g.conns)
          × (g.appstate ≡ 2 → g'.conns ≡ g.conns))

  establish-Moved : g.appstate ≡ 1 → Moved (establish w args g)
  establish-Moved e = elim establish_lem.1 [
    | inl (all, p) ↦ inr (p ∙ ground (arith, e), omega arith, λ x. all, λ x. absurd (omega arith))
    | inr (_, p) ↦ inl p
  ]

  transmit-Moved : g.appstate ≡ 2 → Moved (transmit w args g).1
  transmit-Moved e = elim transmit_phase [
    | inl p ↦ inl p
    | inr (p, over, same) ↦
        inr (p ∙ ground (arith, e), omega arith, λ x. absurd (omega arith), λ x. same)
  ]

  run_phase-Moved : Moved (run_phase w args g).1
  unfolding run_phase finish
  run_phase-Moved = elim (Bool-cases (g.appstate == 0)) [
    | inl e₀ ↦ rw e₀ (inr (ground arith, ground arith, λ x. absurd (ground arith), λ x. refl))
    | inr n₀ ↦ elim (Bool-cases (g.appstate == 1)) [
      | inl e₁ ↦ rw (n₀, e₁) (establish-Moved (ground arith))
      | inr n₁ ↦ elim (Bool-cases (g.appstate == 2)) [
        | inl e₂ ↦ rw (n₀, n₁, e₂) (transmit-Moved (ground arith))
        | inr n₂ ↦ elim (Bool-cases (g.appstate == 3)) [
          | inl e₃ ↦
              rw (n₀, n₁, n₂, e₃)
                (inr (
                  ground arith,
                  ground arith,
                  λ x. absurd (ground arith),
                  λ x. absurd (ground arith),
                ))
          | inr n₃ ↦ elim (Bool-cases (g.appstate == 4)) [
            | inl e₄ ↦
                rw (n₀, n₁, n₂, n₃, e₄)
                  (inr (
                    ground arith,
                    ground arith,
                    λ x. absurd (ground arith),
                    λ x. absurd (ground arith),
                  ))
            | inr n₄ ↦ elim (Bool-cases (g.appstate == 5)) [
              | inl e₅ ↦
                  rw (n₀, n₁, n₂, n₃, n₄, e₅)
                    (inr (
                      ground arith,
                      ground arith,
                      λ x. absurd (ground arith),
                      λ x. absurd (ground arith),
                    ))
              | inr n₅ ↦ rw (n₀, n₁, n₂, n₃, n₄, n₅) (inl refl)
            ]
          ]
        ]
      ]
    ]
  ]

-- A tick leaves the phase as it is or comes to the next one of the seven: from the phase in which
-- the connections are made only where all of them are connected, and from the phase in which
-- messages are sent only in a tick that leaves the connections as they are.
pub on_tick_cb_lem :
    (w : World) (args : Args) (g : Loadgen) → Moved w args g (on_tick_cb w args g).1
unfolding on_tick_cb
on_tick_cb_lem w args g = elim (Bool-cases (ltb elapsed g.transmit_ticks)) [
  | inl early ↦ rw early (inl refl)
  | inr due ↦ rw due (
      run_phase-Moved w args (record g {
        start_ticks = w.later;
        current_ticks = w.later;
        elapsed_ms = add64 g.elapsed_ms (w.to_millis elapsed);
        elapsed_since_io = add64 g.elapsed_since_io (w.to_millis elapsed);
      }))
]
  where
    elapsed : ℕ
    elapsed = sub64 w.later (if g.start_ticks == 0 then w.now else g.start_ticks)
