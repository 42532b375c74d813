-- ===== src/Connection/Decode/Messages.antt =====
-- A message that was sent is taken out of the stream in two steps.
use tcpeen.Base.{
  ℕ, suc, ◌+◌, ◌^◌, ◌%◌, ◌<◌, ◌≡◌, refl, ap, subst, ◌∙◌, inl, inr, List, ◌++◌, length, take, drop,
  take-append, length-append, sub64, arith,
}
use mathlib.Core.List.{append_assoc}
use tcpeen.Bytes.Slices.{drop-append}
use tcpeen.Bytes.Endian.{be_bytes, be_value, length-be_bytes, be_value-be_bytes}
use mathlib.Core.Logic.{◌≢◌}
use tcpeen.Channel.{read_header, read_payload}
use tcpeen.Connection.Receive.{Clock}
use tcpeen.Connection.Send.Laws.{message_bytes, length-message_bytes}
use tcpeen.Connection.Decode.{Decoder, moves, after_header, after_payload, next_id, step, drain}
use tcpeen.Connection.Decode.Laws.{step_cases, drain_moves}

read_payload-ne-read_header : read_payload ≢ read_header
read_payload-ne-read_header e = cc

take-number : (w x : ℕ) (t : List ℕ) → take w (be_bytes w x ++ t) ≡ be_bytes w x
take-number w x t =
    subst (λ k. take k (be_bytes w x ++ t) ≡ be_bytes w x) (length-be_bytes w x)
      (take-append (be_bytes w x) t)

drop-number : (w x : ℕ) (t : List ℕ) → drop w (be_bytes w x ++ t) ≡ t
drop-number w x t =
    subst (λ k. drop k (be_bytes w x ++ t) ≡ t) (length-be_bytes w x) (drop-append (be_bytes w x) t)

read-number : (w x : ℕ) (t : List ℕ) → be_value 0 (take w (be_bytes w x ++ t)) ≡ x % 256 ^ w
read-number w x t = ap (be_value 0) (take-number w x t) ∙ be_value-be_bytes w x

module _ (clock : Clock) (id at : ℕ) (bytes rest : List ℕ) (short : length bytes < 2 ^ 31) where
  -- What follows the length of the message.
  abbrev payload : List ℕ
  payload = be_bytes 8 id ++ (be_bytes 8 at ++ ((bytes ++ be_bytes 1 0) ++ rest))

  message-eq : message_bytes id at bytes ++ rest ≡ be_bytes 4 (length bytes + 17) ++ payload
  unfolding message_bytes
  message-eq = simp append_assoc

  length-payload : length payload ≡ length bytes + 17 + length rest
  length-payload = omega (
    arith,
    ap length message-eq,
    length-append {0} (message_bytes id at bytes) rest,
    length-message_bytes id at bytes,
    length-append {0} (be_bytes 4 (length bytes + 17)) payload,
    length-be_bytes 4 (length bytes + 17),
  )

  drop-payload : drop (length bytes + 17) payload ≡ rest
  drop-payload =
      ap (drop (length bytes + 17)) regrouped
      ∙ subst (λ k. drop k (inside ++ rest) ≡ rest) length-inside (drop-append inside rest)
    where
      inside : List ℕ
      inside = be_bytes 8 id ++ (be_bytes 8 at ++ (bytes ++ be_bytes 1 0))

      regrouped : payload ≡ inside ++ rest
      regrouped = simp append_assoc

      length-inside : length inside ≡ length bytes + 17
      length-inside =
          omega (arith, ap length regrouped, length-append {0} inside rest, length-payload)

  -- The decoder behind the message.
  abbrev pub behind : Decoder → Decoder
  behind d = record d {
    state = read_header;
    need = length bytes + 17;
    last = next_id clock d.last (id % 2 ^ 64);
    latency = clock.to_millis (sub64 clock.now (at % 2 ^ 64));
    stream = rest;
  }

  pub drain-message :
      (fuel : ℕ) (d : Decoder)
      → d.state ≡ read_header
      → d.stream ≡ message_bytes id at bytes ++ rest
      → drain clock (suc (suc fuel)) d ≡ drain clock fuel (behind d)
  drain-message fuel d h e =
      drain_moves clock (suc fuel) d waiting first
      ∙ drain_moves clock fuel waiting (behind d) second
    where
      stream : d.stream ≡ be_bytes 4 (length bytes + 17) ++ payload
      stream = e ∙ message-eq

      size : length d.stream ≡ 4 + (length bytes + 17 + length rest)
      size = omega (
        arith,
        ap length stream,
        length-append {0} (be_bytes 4 (length bytes + 17)) payload,
        length-be_bytes 4 (length bytes + 17),
        length-payload,
      )

      waiting : Decoder
      waiting = record d { state = read_payload; need = length bytes + 17; stream = payload }

      header : be_value 0 (take 4 d.stream) ≡ length bytes + 17
      header =
          ap (λ t. be_value 0 (take 4 t)) stream
          ∙ read-number 4 (length bytes + 17) payload
          ∙ omega arith

      left : drop 4 d.stream ≡ payload
      left = ap (drop 4) stream ∙ drop-number 4 (length bytes + 17) payload

      arrived : after_header clock d ≡ waiting
      arrived = λ i. record d { state = read_payload; need = header i; stream = left i }

      first : step clock d ≡ moves waiting
      first = elim (step_cases clock d (inl h)) [
        | inl (inl (_, few), _) ↦ absurd (omega (arith, size))
        | inl (inr (p, _), _) ↦ cc
        | inr (inl (_, _, s)) ↦ s ∙ ap moves arrived
        | inr (inr (inl (p, _, _, _))) ↦ cc
        | inr (inr (inr (p, _, _, _))) ↦ cc
      ]

      number : be_value 0 (take 8 payload) ≡ id % 2 ^ 64
      number = read-number 8 id (be_bytes 8 at ++ ((bytes ++ be_bytes 1 0) ++ rest)) ∙ omega arith

      time : be_value 0 (take 8 (drop 8 payload)) ≡ at % 2 ^ 64
      time =
          ap (λ t. be_value 0 (take 8 t))
            (drop-number 8 id (be_bytes 8 at ++ ((bytes ++ be_bytes 1 0) ++ rest)))
          ∙ read-number 8 at ((bytes ++ be_bytes 1 0) ++ rest)
          ∙ omega arith

      counted : after_payload clock waiting ≡ behind d
      counted = λ i. record d {
        state = read_header;
        need = length bytes + 17;
        last = next_id clock d.last (number i);
        latency = clock.to_millis (sub64 clock.now (time i));
        stream = drop-payload i;
      }

      second : step clock waiting ≡ moves (behind d)
      second = elim (step_cases clock waiting (inr refl)) [
        | inl (inl (p, _), _) ↦ absurd (read_payload-ne-read_header p)
        | inl (inr (_, few), _) ↦ absurd (omega (arith, length-payload))
        | inr (inl (p, _, s)) ↦ absurd (read_payload-ne-read_header p)
        | inr (inr (inl (_, _, _, s))) ↦ s ∙ ap moves counted
        | inr (inr (inr (_, _, tiny, _))) ↦ absurd (omega arith)
      ]
