-- ===== src/Connection/Decode/Laws.antt =====
-- The steps of the decoder end, and it does not matter in which pieces the bytes come.
use Prim.Native.Nat.add
use tcpeen.Base.{
  ℕ, zero, suc, ◌+◌, ◌≤◌, ◌<◌, ◌≡◌, ◌≢◌, refl, sym, ap, ◌∙◌, ◌⊎◌, inl, inr, false, List, [], ◌∷◌,
  ◌++◌, length, take, drop, length-append, length-drop, ltb, leb, Bool-cases, arith,
}
use tcpeen.Channel.{read_header, read_payload}
use tcpeen.Connection.Receive.{Clock}
use tcpeen.Connection.Decode.{
  Decoder, Step, waits, breaks, moves, short, broken, rests, header_step, payload_step,
  after_header, after_payload, step, drain, IsAwake, fed,
}

pub take-append_le {ℓ} :
    {A : Type ℓ} (n : ℕ) (xs ys : List A) → n ≤ length xs → take n (xs ++ ys) ≡ take n xs
take-append_le zero xs ys h = refl
take-append_le (suc n) [] ys h = absurd (omega arith)
take-append_le (suc n) (x ∷ xs) ys h = ap (λ t. x ∷ t) (take-append_le n xs ys (omega arith))

pub drop-append_le {ℓ} :
    {A : Type ℓ} (n : ℕ) (xs ys : List A) → n ≤ length xs → drop n (xs ++ ys) ≡ drop n xs ++ ys
drop-append_le zero xs ys h = refl
drop-append_le (suc n) [] ys h = absurd (omega arith)
drop-append_le (suc n) (x ∷ xs) ys h = drop-append_le n xs ys (omega arith)

pub Step-cases : (s : Step) → (s ≡ waits) ⊎ (s ≡ breaks) ⊎ ((d : Decoder) × (s ≡ moves d))
Step-cases waits = inl refl
Step-cases breaks = inr (inl refl)
Step-cases (moves d) = inr (inr (d, refl))

pub short-ne-rests : {d : Decoder} → short ≢ rests d
short-ne-rests e = cc

pub broken-ne-rests : {d : Decoder} → broken ≢ rests d
broken-ne-rests e = cc

pub rests_injective : {d d' : Decoder} → rests d ≡ rests d' → d ≡ d'
rests_injective e = cc

-- The four ways of a step.
abbrev pub StepCases : Clock → Decoder → Type 0
StepCases clock d =
    (((d.state ≡ read_header) × (length d.stream < 4)
        ⊎ (d.state ≡ read_payload) × (length d.stream < d.need))
      × (step clock d ≡ waits))
    ⊎ ((d.state ≡ read_header)
        × (4 ≤ length d.stream)
        × (step clock d ≡ moves (after_header clock d)))
    ⊎ ((d.state ≡ read_payload)
        × (d.need ≤ length d.stream)
        × (16 < d.need)
        × (step clock d ≡ moves (after_payload clock d)))
    ⊎ ((d.state ≡ read_payload)
        × (d.need ≤ length d.stream)
        × (d.need ≤ 16)
        × (step clock d ≡ breaks))

module _ (clock : Clock) where
  pub step_header : (d : Decoder) → d.state ≡ read_header → step clock d ≡ header_step clock d
  unfolding step
  step_header d e = rw e

  pub step_payload : (d : Decoder) → d.state ≡ read_payload → step clock d ≡ payload_step clock d
  unfolding step
  step_payload d e = rw e

  pub step_cases : (d : Decoder) → IsAwake d.state → StepCases clock d
  step_cases d (inl h) = elim (Bool-cases (ltb (length d.stream) 4)) [
    | inl little ↦ inl (inl (h, ground arith), step_header d h ∙ rw little)
    | inr enough ↦ inr (inl (h, ground arith, step_header d h ∙ rw enough))
  ]
  step_cases d (inr h) = elim (Bool-cases (ltb (length d.stream) d.need)) [
    | inl little ↦ inl (inr (h, ground arith), step_payload d h ∙ rw little)
    | inr enough ↦ elim (Bool-cases (leb d.need 16)) [
      | inl tiny ↦
          inr (inr (inr (h, ground arith, ground arith, step_payload d h ∙ rw (enough, tiny))))
      | inr fine ↦
          inr (inr (inl (h, ground arith, ground arith, step_payload d h ∙ rw (enough, fine))))
    ]
  ]

  -- A step takes bytes out of the stream, and leaves the decoder awake.
  pub step-Falls :
      (d d' : Decoder)
      → IsAwake d.state
      → step clock d ≡ moves d'
      → IsAwake d'.state × (length d'.stream < length d.stream)
  step-Falls d d' w e = elim (step_cases d w) [
    | inl (_, s) ↦ cc
    | inr (inl (_, enough, s)) ↦
        let same : after_header clock d ≡ d' = cc in
        rw (← same) (inr refl, omega (arith, length-drop {0} 4 d.stream))
    | inr (inr (inl (_, enough, fine, s))) ↦
        let same : after_payload clock d ≡ d' = cc in
        rw (← same) (inl refl, omega (arith, length-drop {0} d.need d.stream))
    | inr (inr (inr (_, _, _, s))) ↦ cc
  ]

  pub drain_waits :
      (fuel : ℕ) (d : Decoder) → step clock d ≡ waits → drain clock (suc fuel) d ≡ rests d
  unfolding drain
  drain_waits fuel d e = rw (e, drain) refl

  pub drain_breaks :
      (fuel : ℕ) (d : Decoder) → step clock d ≡ breaks → drain clock (suc fuel) d ≡ broken
  unfolding drain
  drain_breaks fuel d e = rw (e, drain) refl

  pub drain_moves :
      (fuel : ℕ) (d d' : Decoder)
      → step clock d ≡ moves d'
      → drain clock (suc fuel) d ≡ drain clock fuel d'
  unfolding drain
  drain_moves fuel d d' e = rw (e, drain) refl

  pub drain_zero : (d : Decoder) → drain clock 0 d ≡ short
  unfolding drain
  drain_zero d = refl

  -- As many rounds as there are bytes, and one more, are enough.
  pub drain-ne-short :
      (fuel : ℕ) (d : Decoder)
      → IsAwake d.state
      → length d.stream < fuel
      → drain clock fuel d ≢ short
  drain-ne-short zero d w h = absurd (omega arith)
  drain-ne-short (suc fuel) d w h = elim (Step-cases (step clock d)) [
    | inl e ↦ rw (drain_waits fuel d e) (λ p. cc)
    | inr (inl e) ↦ rw (drain_breaks fuel d e) (λ p. cc)
    | inr (inr (d', e)) ↦
        let (w', falls) = step-Falls d d' w e in
        rw (drain_moves fuel d d' e) (drain-ne-short fuel d' w' (omega arith))
  ]

  -- More rounds change nothing.
  pub drain_more :
      (fuel more : ℕ) (d : Decoder)
      → drain clock fuel d ≢ short
      → drain clock (fuel + more) d ≡ drain clock fuel d
  drain_more zero more d h = absurd (h (drain_zero d))
  drain_more (suc fuel) more d h = elim (Step-cases (step clock d)) [
    | inl e ↦ rw (add.suc, drain_waits (fuel + more) d e, drain_waits fuel d e)
    | inr (inl e) ↦ rw (add.suc, drain_breaks (fuel + more) d e, drain_breaks fuel d e)
    | inr (inr (d', e)) ↦
        rw (add.suc, drain_moves (fuel + more) d d' e, drain_moves fuel d d' e)
          (drain_more fuel more d' (λ p. h (drain_moves fuel d d' e ∙ p)))
  ]

  -- What is behind the bytes of a step does not change it.
  pub step-fed :
      (d d' : Decoder) (bs : List ℕ)
      → IsAwake d.state
      → step clock d ≡ moves d'
      → step clock (fed bs d) ≡ moves (fed bs d')
  step-fed d d' bs w e = elim (step_cases d w) [
    | inl (_, s) ↦ cc
    | inr (inl (h, enough, s)) ↦
        let same : after_header clock d ≡ d' = cc in
        step_header (fed bs d) h
        ∙ rw (← same, enough_too 4 enough)
            (rw (take-append_le 4 d.stream bs enough, drop-append_le 4 d.stream bs enough))
    | inr (inr (inl (h, enough, fine, s))) ↦
        let same : after_payload clock d ≡ d' = cc in
        let long : leb d.need 16 ≡ false = ground arith in
        step_payload (fed bs d) h
        ∙ rw (← same, enough_too d.need enough, long)
            (rw (
              take-append_le 8 d.stream bs (omega arith),
              drop-append_le 8 d.stream bs (omega arith),
              take-append_le 8 (drop 8 d.stream) bs (omega (arith, length-drop {0} 8 d.stream)),
              drop-append_le d.need d.stream bs enough,
            ))
    | inr (inr (inr (_, _, _, s))) ↦ cc
  ]
    where
      enough_too : (n : ℕ) → n ≤ length d.stream → ltb (length (d.stream ++ bs)) n ≡ false
      enough_too n h = ground (arith, length-append {0} d.stream bs)

  -- At rest the decoder is awake and waits.
  pub drain-AtRest :
      (fuel : ℕ) (d d' : Decoder)
      → IsAwake d.state
      → drain clock fuel d ≡ rests d'
      → IsAwake d'.state × (step clock d' ≡ waits)
  drain-AtRest zero d d' w h = absurd (short-ne-rests (sym (drain_zero d) ∙ h))
  drain-AtRest (suc fuel) d d' w h = elim (Step-cases (step clock d)) [
    | inl e ↦
        let same : d ≡ d' = rests_injective (sym (drain_waits fuel d e) ∙ h) in rw (← same) (w, e)
    | inr (inl e) ↦ absurd (broken-ne-rests (sym (drain_breaks fuel d e) ∙ h))
    | inr (inr (d₁, e)) ↦
        drain-AtRest fuel d₁ d' (step-Falls d d₁ w e).0 (sym (drain_moves fuel d d₁ e) ∙ h)
  ]

  -- Bytes that come later are taken as if they had come at once.
  pub drain-fed :
      (f g : ℕ) (d d' : Decoder) (bs : List ℕ)
      → IsAwake d.state
      → drain clock f d ≡ rests d'
      → drain clock g (fed bs d') ≢ short
      → drain clock (f + g) (fed bs d) ≡ drain clock g (fed bs d')
  drain-fed zero g d d' bs w h ne = absurd (short-ne-rests (sym (drain_zero d) ∙ h))
  drain-fed (suc f) g d d' bs w h ne = elim (Step-cases (step clock d)) [
    | inl e ↦
        let same : d ≡ d' = rests_injective (sym (drain_waits f d e) ∙ h) in
        rw same (
          ap (λ n. drain clock n (fed bs d')) {x = suc f + g} {y = g + suc f} (omega arith)
          ∙ drain_more g (suc f) (fed bs d') ne)
    | inr (inl e) ↦ absurd (broken-ne-rests (sym (drain_breaks f d e) ∙ h))
    | inr (inr (d₁, e)) ↦
        rw (add.suc, drain_moves (f + g) (fed bs d) (fed bs d₁) (step-fed d d₁ bs w e))
          (drain-fed f g d₁ d' bs (step-Falls d d₁ w e).0 (sym (drain_moves f d d₁ e) ∙ h) ne)
  ]
