-- ===== src/Connection/Receive/Loop.antt =====
-- The loop of `on_tcp_recv_cb` ends, and comes to where the decoder comes to.
use tcpeen.Base.{
  ℕ, zero, suc, ◌≡◌, refl, sym, subst, ◌∙◌, ◌⊎◌, inl, inr, none, some, success, error,
}
use tcpeen.Bytes.{ByteOps, IsByteOps}
use tcpeen.Buffer.{Buffer}
use tcpeen.Buffer.Inv.{pending}
use tcpeen.Connection.{Connection}
use tcpeen.Connection.Receive.{Clock, wait, stop, go_on, round, process}
use tcpeen.Connection.Receive.Refine.{IsReady, decoder, caught_up, round_lem}
use tcpeen.Connection.Decode.{Decoder, Outcome, short, broken, rests, drain}
use tcpeen.Connection.Decode.Laws.{drain_waits, drain_breaks, drain_moves, drain_zero}

module _ (ops : ByteOps) (laws : IsByteOps ops) (clock : Clock) where
  process_wait :
      (fuel latency : ℕ) (c : Connection) (b : Buffer)
      → round ops clock latency c b ≡ wait
      → process ops clock (suc fuel) latency c b ≡ some (success, latency, c, b)
  unfolding process
  process_wait fuel latency c b e = rw (e, process) refl

  process-stop :
      (fuel latency : ℕ) (c : Connection) (b b' : Buffer)
      → round ops clock latency c b ≡ stop c b'
      → process ops clock (suc fuel) latency c b ≡ some (error, latency, c, b')
  unfolding process
  process-stop fuel latency c b b' e = rw (e, process) refl

  process_go_on :
      (fuel latency latency' : ℕ) (c c' : Connection) (b b' : Buffer)
      → round ops clock latency c b ≡ go_on latency' c' b'
      → process ops clock (suc fuel) latency c b ≡ process ops clock fuel latency' c' b'
  unfolding process
  process_go_on fuel latency latency' c c' b b' e = rw (e, process) refl

  process_zero :
      (latency : ℕ) (c : Connection) (b : Buffer) → process ops clock 0 latency c b ≡ none
  unfolding process
  process_zero latency c b = refl

  -- The three ways of the loop.
  abbrev pub Drains : ℕ → ℕ → Connection → Buffer → Outcome → Type 0
  Drains fuel latency c b out =
      ((out ≡ short) × (process ops clock fuel latency c b ≡ none))
      ⊎ ((d : Decoder) × (b' : Buffer) × (to : ℕ) × (out ≡ rests d)
          × (process ops clock fuel latency c b ≡ some (success, d.latency, caught_up c d, b'))
          × IsReady to (caught_up c d) b'
          × (pending b' ≡ d.stream)
          × (b'.buf ≡ b.buf))
      ⊎ ((d : Decoder) × (b' : Buffer) × (to : ℕ) × (out ≡ broken)
          × (process ops clock fuel latency c b ≡ some (error, d.latency, caught_up c d, b'))
          × IsReady to (caught_up c d) b'
          × (b'.buf ≡ b.buf))

  one_more :
      (fuel latency : ℕ) (c : Connection) (d : Decoder) (b b' : Buffer) {out : Outcome}
      → b'.buf ≡ b.buf
      → process ops clock (suc fuel) latency c b
        ≡ process ops clock fuel d.latency (caught_up c d) b'
      → Drains fuel d.latency (caught_up c d) b' out
      → Drains (suc fuel) latency c b out
  one_more fuel latency c d b b' same e (inl (o, p)) = inl (o, e ∙ p)
  one_more fuel latency c d b b' same e (inr (inl (d₂, b₂, to, o, p, r, q, kept))) =
      inr (inl (d₂, b₂, to, o, e ∙ p, r, q, kept ∙ same))
  one_more fuel latency c d b b' same e (inr (inr (d₂, b₂, to, o, p, r, kept))) =
      inr (inr (d₂, b₂, to, o, e ∙ p, r, kept ∙ same))

  pub process_lem :
      (fuel latency : ℕ) (c : Connection) {at : ℕ} {b : Buffer}
      → IsReady at c b
      → Drains fuel latency c b (drain clock fuel (decoder latency c b))
  process_lem zero latency c {at} {b} r = inl (drain_zero clock _, process_zero latency c b)
  process_lem (suc fuel) latency c {at} {b} r = elim (round_lem ops laws clock latency c r) [
    | inl (s, e) ↦ inr (
        inl (
          decoder latency c b,
          b,
          at,
          drain_waits clock fuel (decoder latency c b) s,
          process_wait fuel latency c b e,
          r,
          refl,
          refl,
        ))
    | inr (inl (d, b', to, s, e, r', p, same)) ↦
        let arrived : decoder d.latency (caught_up c d) b' ≡ d = λ i. record d { stream = p i } in
        let ih =
          subst (λ x. Drains fuel d.latency (caught_up c d) b' (drain clock fuel x)) arrived
            (process_lem fuel d.latency (caught_up c d) r') in
        subst (Drains (suc fuel) latency c b)
          (sym (drain_moves clock fuel (decoder latency c b) d s))
          (one_more fuel latency c d b b' same
            (process_go_on fuel latency d.latency c (caught_up c d) b b' e) ih)
    | inr (inr (b', to, s, e, r', same)) ↦ inr (
        inr (
          decoder latency c b,
          b',
          to,
          drain_breaks clock fuel (decoder latency c b) s,
          process-stop fuel latency c b b' e,
          r',
          same,
        ))
  ]
