-- ===== src/Loadgen/Statistics.antt =====
-- The statistics at the end of a run of the load generator.
use tcpeen.Base.{
  ℕ, suc, ◌+◌, ◌/◌, ◌%◌, ◌^◌, ◌≡◌, ◌≢◌, refl, ap, ◌∙◌, ◌⊎◌, inl, inr, Bool, Bool-cases, List, [],
  ◌∷◌, if◌then◌else◌, max, ltb, ◌==◌, arith,
}
use tcpeen.Connection.{Connection, disconnect}
use tcpeen.Connection.Disconnect.{disconnect_lem}
use tcpeen.Loadgen.{
  Loadgen, World, disconnect_all, sum_up, statistics, shown, divides_by_zero, finish,
}

-- The sum and the greatest of what the connections have, without a bound.
abbrev pub sum_of : (Connection → ℕ) → List Connection → ℕ
sum_of f [] = 0
sum_of f (c ∷ cs) = f c + sum_of f cs

abbrev pub greatest : (Connection → ℕ) → List Connection → ℕ
greatest f [] = 0
greatest f (c ∷ cs) = max (f c) (greatest f cs)

-- The numbers that the statistics read.
abbrev SameNumbers : Connection → Connection → Type 0
SameNumbers c d =
    (c.latency_max ≡ d.latency_max)
    × (c.latency_total ≡ d.latency_total)
    × (c.recv_msgs ≡ d.recv_msgs)

disconnect-SameNumbers : (c : Connection) (closing : Bool) → SameNumbers (disconnect c closing).1 c
disconnect-SameNumbers c closing = elim (disconnect_lem c closing) [
  | inl (_, _, _, e) ↦ rw e (refl, refl, refl)
  | inr (_, e) ↦ rw e (refl, refl, refl)
]

triple :
    {a a' b b' c c' : ℕ} → a ≡ a' → b ≡ b' → c ≡ c' → ◌≡◌ {A = ℕ × ℕ × ℕ} (a, b, c) (a', b', c')
triple p q r = λ i. (p i, q i, r i)

larger : (a b : ℕ) → (if ltb a b then b else a) ≡ max a b
larger a b = ground arith

-- The loop of the code adds up what there is, whatever was closed before.
sum_up_lem :
    (w : World) (i worst total msgs : ℕ) (cs : List Connection)
    → sum_up (worst, total % 2 ^ 64, msgs % 2 ^ 64) (disconnect_all w i cs) ≡ (
      max worst (greatest (λ c. c.latency_max) cs),
      (total + sum_of (λ c. c.latency_total) cs) % 2 ^ 64,
      (msgs + sum_of (λ c. c.recv_msgs) cs) % 2 ^ 64,
    )
unfolding sum_up disconnect_all
sum_up_lem w i worst total msgs [] = triple (omega arith) (omega arith) (omega arith)
sum_up_lem w i worst total msgs (c ∷ cs) =
    let (p, q, r) = disconnect-SameNumbers c (w.closing i) in
    rw (p, q, r)
      (ap (λ t. sum_up t (disconnect_all w (suc i) cs))
          (triple (larger worst c.latency_max) (omega arith) (omega arith))
        ∙ sum_up_lem w (suc i) (max worst c.latency_max) (total + c.latency_total)
            (msgs + c.recv_msgs) cs
        ∙ triple (omega arith) (omega arith) (omega arith))

-- The end of a run. With no message received, counted in 64 bits, the code divides by 0. Otherwise
-- it shows the greatest of the worst latencies of the connections, and the sum of their latencies, in
-- 64 bits, divided by the number of messages.
pub finish-statistics :
    (w : World) (g : Loadgen)
    → let msgs = sum_of (λ c. c.recv_msgs) g.conns % 2 ^ 64 in
      let total = sum_of (λ c. c.latency_total) g.conns % 2 ^ 64 in
      let worst = greatest (λ c. c.latency_max) g.conns in
      ((msgs ≡ 0) × ((finish w g).0.latencies ≡ divides_by_zero))
      ⊎ ((msgs ≢ 0) × ((finish w g).0.latencies ≡ shown worst (total / msgs)))
unfolding finish statistics
finish-statistics w g = elim (Bool-cases (msgs == 0)) [
  | inl e ↦ inl (ground (arith, e), rw (all_summed, e) refl)
  | inr e ↦ inr (λ z. ground (arith, e, z), rw (all_summed, e) refl)
]
  where
    msgs : ℕ
    msgs = sum_of (λ c. c.recv_msgs) g.conns % 2 ^ 64

    all_summed : sum_up (0, 0, 0) (disconnect_all w 0 g.conns) ≡ (
      greatest (λ c. c.latency_max) g.conns,
      sum_of (λ c. c.latency_total) g.conns % 2 ^ 64,
      msgs,
    )
    all_summed = sum_up_lem w 0 0 0 0 g.conns ∙ triple (omega arith) (omega arith) (omega arith)
