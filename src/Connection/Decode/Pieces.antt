-- ===== src/Connection/Decode/Pieces.antt =====
-- The decoder on two pieces of a stream, one after the other.
use tcpeen.Base.{
  ℕ, zero, suc, ◌+◌, ◌≡◌, ◌≢◌, refl, sym, ap, ◌∙◌, ◌⊎◌, inl, inr, List, arith, length-append,
}
use tcpeen.Connection.Receive.{Clock}
use tcpeen.Connection.Decode.{
  Decoder, waits, breaks, moves, Outcome, short, broken, rests, after_header, after_payload, step,
  drain, IsAwake, fed,
}
use tcpeen.Connection.Decode.Laws.{
  Step-cases, short-ne-rests, broken-ne-rests, rests_injective, step_cases, step_header,
  step_payload, step-Falls, step-fed, drain_waits, drain_breaks, drain_moves, drain_zero,
  drain_more,
}

-- The same decoder with another latency.
abbrev pub late : ℕ → Decoder → Decoder
late l d = record d { latency = l }

pub short-ne-broken : short ≢ broken
short-ne-broken e = cc

pub Outcome-cases : (o : Outcome) → (o ≡ short) ⊎ (o ≡ broken) ⊎ ((d : Decoder) × (o ≡ rests d))
Outcome-cases short = inl refl
Outcome-cases broken = inr (inl refl)
Outcome-cases (rests d) = inr (inr (d, refl))

module _ (clock : Clock) where
  step-late :
      (l : ℕ) (d : Decoder)
      → IsAwake d.state
      → ((step clock d ≡ waits) × (step clock (late l d) ≡ waits))
        ⊎ ((step clock d ≡ breaks) × (step clock (late l d) ≡ breaks))
        ⊎ ((d' : Decoder) × (k : ℕ) × (step clock d ≡ moves d')
            × (step clock (late l d) ≡ moves (late k d')))
  step-late l d w = elim (step_cases clock d w) [
    | inl (inl (h, few), s) ↦ inl (s, step_header clock (late l d) h ∙ ground arith)
    | inl (inr (h, few), s) ↦ inl (s, step_payload clock (late l d) h ∙ ground arith)
    | inr (inl (h, enough, s)) ↦
        inr (inr (after_header clock d, l, s, step_header clock (late l d) h ∙ ground arith))
    | inr (inr (inl (h, enough, fine, s))) ↦ inr (
        inr (
          after_payload clock d,
          (after_payload clock d).latency,
          s,
          step_payload clock (late l d) h ∙ ground arith,
        ))
    | inr (inr (inr (h, enough, tiny, s))) ↦
        inr (inl (s, step_payload clock (late l d) h ∙ ground arith))
  ]

  -- The latency of an earlier message does not matter to what is read.
  pub drain-late :
      (f l : ℕ) (d d' : Decoder)
      → IsAwake d.state
      → drain clock f d ≡ rests d'
      → (k : ℕ) × (drain clock f (late l d) ≡ rests (late k d'))
  drain-late zero l d d' w h = absurd (short-ne-rests (sym (drain_zero clock d) ∙ h))
  drain-late (suc f) l d d' w h = elim (step-late l d w) [
    | inl (s, t) ↦
        let same : d ≡ d' = rests_injective (sym (drain_waits clock f d s) ∙ h) in
        (l, drain_waits clock f (late l d) t ∙ ap (λ x. rests (late l x)) same)
    | inr (inl (s, t)) ↦ absurd (broken-ne-rests (sym (drain_breaks clock f d s) ∙ h))
    | inr (inr (d₁, k, s, t)) ↦
        let (m, e) =
          drain-late f k d₁ d' (step-Falls clock d d₁ w s).0
            (sym (drain_moves clock f d d₁ s) ∙ h) in
        (m, drain_moves clock f (late l d) (late k d₁) t ∙ e)
  ]

  step-fed_breaks :
      (d : Decoder) (bs : List ℕ)
      → IsAwake d.state
      → step clock d ≡ breaks
      → step clock (fed bs d) ≡ breaks
  step-fed_breaks d bs w e = elim (step_cases clock d w) [
    | inl (_, s) ↦ cc
    | inr (inl (_, _, s)) ↦ cc
    | inr (inr (inl (_, _, _, s))) ↦ cc
    | inr (inr (inr (h, enough, tiny, s))) ↦
        step_payload clock (fed bs d) h ∙ ground (arith, length-append {0} d.stream bs)
  ]

  -- What comes later does not mend a broken stream.
  pub drain-fed_broken :
      (f : ℕ) (d : Decoder) (bs : List ℕ)
      → IsAwake d.state
      → drain clock f d ≡ broken
      → drain clock f (fed bs d) ≡ broken
  drain-fed_broken zero d bs w h = absurd (short-ne-broken (sym (drain_zero clock d) ∙ h))
  drain-fed_broken (suc f) d bs w h = elim (Step-cases (step clock d)) [
    | inl e ↦ absurd (broken-ne-rests (sym h ∙ drain_waits clock f d e))
    | inr (inl e) ↦ drain_breaks clock f (fed bs d) (step-fed_breaks d bs w e)
    | inr (inr (d₁, e)) ↦
        drain_moves clock f (fed bs d) (fed bs d₁) (step-fed clock d d₁ bs w e)
        ∙ drain-fed_broken f d₁ bs (step-Falls clock d d₁ w e).0
            (sym (drain_moves clock f d d₁ e) ∙ h)
  ]

  -- Any numbers of rounds that are enough come to the same.
  pub drain_enough :
      (f g : ℕ) (d : Decoder)
      → drain clock f d ≢ short
      → drain clock g d ≢ short
      → drain clock f d ≡ drain clock g d
  drain_enough f g d p q =
      sym (drain_more clock f g d p)
      ∙ ap (λ n. drain clock n d) {x = f + g} {y = g + f} (omega arith)
      ∙ drain_more clock g f d q
