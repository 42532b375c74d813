-- ===== src/Connection/Receive/Refine.antt =====
-- The loop of `on_tcp_recv_cb` is the decoder, on what the buffer of the connection holds.
use native.Mathlib.Decide.{dec_lt}
use tcpeen.Base.{
  ap₂, ℕ, ◌+◌, ◌-◌, ◌%◌, ◌^◌, ◌≤◌, ◌<◌, ◌≡◌, refl, ap, ◌∙◌, ◌⊎◌, inl, inr, false, some, length,
  take, drop, ltb, sub64, Status, success, arith,
}
use tcpeen.Bytes.{ByteOps, IsByteOps}
use tcpeen.Bytes.Endian.{be_value}
use tcpeen.Bytes.Slices.{slice}
use tcpeen.Buffer
use tcpeen.Buffer.{Buffer, read_be64}
use tcpeen.Buffer.Inv.{IsValid, pending}
use tcpeen.Buffer.Stream.{
  advanced, advanced-IsValid, pending-advanced, length-pending, read_skip_lem,
}
use tcpeen.Buffer.Numbers.{read_be32_in, read_be64_in, read_be64_out}
use tcpeen.Channel.{read_header, read_payload}
use tcpeen.Connection.{Connection, buffer_size}
use tcpeen.Connection.Receive.{
  Clock, wait, stop, go_on, header_round, payload_round, skip_rest, round, accepted,
}
use tcpeen.Connection.Decode.{
  Decoder, waits, breaks, moves, after_header, after_payload, step, IsAwake,
}
use tcpeen.Connection.Decode.Laws.{step_cases}

-- The buffer `b` of a connection, whose cursor is at `at`, holds a stream of messages.
pub record IsReady (at : ℕ) (c : Connection) (b : Buffer) : Type 0 where
  pub valid : IsValid at b
  pub awake : IsAwake c.read_state
  pub small : b.buf.capacity ≤ buffer_size

abbrev pub decoder : ℕ → Connection → Buffer → Decoder
decoder latency c b = record {
  state = c.read_state;
  need = c.next_payload_len;
  last = c.last_recv_msg_id;
  latency = latency;
  stream = pending b;
}

-- The connection that has come as far as the decoder.
abbrev pub caught_up : Connection → Decoder → Connection
caught_up c d = record c {
  read_state = d.state;
  next_payload_len = d.need;
  last_recv_msg_id = d.last;
}

both : {p : Status × Buffer} {s : Status} {b : Buffer} → p.0 ≡ s → p.1 ≡ b → p ≡ (s, b)
both e f = λ i. (e i, f i)

module _ (ops : ByteOps) (laws : IsByteOps ops) (clock : Clock) (latency : ℕ) (c : Connection) where
  round_header :
      (b : Buffer)
      → c.read_state ≡ read_header
      → round ops clock latency c b ≡ header_round ops clock latency c b
  unfolding round
  round_header b e = rw (e, round) refl

  round_payload :
      (b : Buffer)
      → c.read_state ≡ read_payload
      → round ops clock latency c b ≡ payload_round ops clock c b
  unfolding round
  round_payload b e = rw (e, round) refl

  module _ {at : ℕ} {b : Buffer} (v : IsValid at b) where
    header_wait : length (pending b) < 4 → header_round ops clock latency c b ≡ wait
    unfolding header_round
    header_wait little = ground (arith, length-pending v)

    header_go :
        4 ≤ length (pending b)
        → header_round ops clock latency c b
          ≡ go_on latency
              (record c {
                next_payload_len = be_value 0 (take 4 (pending b));
                read_state = read_payload;
              })
              (advanced at 4 b)
    unfolding header_round
    header_go enough = ground (arith, length-pending v, read_be32_in v ops laws)

    payload_wait : length (pending b) < c.next_payload_len → payload_round ops clock c b ≡ wait
    unfolding payload_round
    payload_wait little = ground (arith, length-pending v)

    -- The buffer after the number and the time.
    abbrev behind : Buffer
    behind = advanced (at + 8) 8 (advanced at 8 b)

    module _ (enough : c.next_payload_len ≤ length (pending b))
        (small : b.buf.capacity ≤ buffer_size) where
      arrived : ltb b.pos.len c.next_payload_len ≡ false
      arrived = ground (arith, length-pending v)

      -- The number and the time are read.
      numbers :
          16 ≤ length (pending b)
          → payload_round ops clock c b
            ≡ skip_rest ops clock
                (be_value 0 (take 8 (pending b)))
                (be_value 0 (take 8 (drop 8 (pending b))))
                c
                behind
      unfolding payload_round
      numbers two = ground (arith, arrived, first, second)
        where
          first :
              read_be64 ops b ≡ (success, some (be_value 0 (take 8 (pending b))), advanced at 8 b)
          first = read_be64_in v ops laws (omega (arith, length-pending v))

          second :
              read_be64 ops (advanced at 8 b)
              ≡ (success, some (be_value 0 (take 8 (drop 8 (pending b)))), behind)
          second =
              read_be64_in (advanced-IsValid v 8 (omega (arith, length-pending v))) ops laws
                (omega (arith, length-pending v))
              ∙ ap (λ bs. (success, some (be_value 0 (take 8 bs)), behind))
                  (pending-advanced v 8 (omega (arith, length-pending v)))

      behind-IsValid : 16 ≤ length (pending b) → IsValid (at + 8 + 8) behind
      behind-IsValid two =
          advanced-IsValid (advanced-IsValid v 8 (omega (arith, length-pending v))) 8
            (omega (arith, length-pending v))

      payload_go :
          16 < c.next_payload_len
          → payload_round ops clock c b
            ≡ go_on
                (clock.to_millis (sub64 clock.now (be_value 0 (take 8 (drop 8 (pending b))))))
                (accepted ops clock (be_value 0 (take 8 (pending b))) c)
                (advanced (at + 8 + 8) (c.next_payload_len - 16) behind)
      payload_go fine = numbers (omega arith) ∙ rw (rest, skips) refl
        where
          rest : (c.next_payload_len + 2 ^ 32 - 16) % 2 ^ 32 ≡ c.next_payload_len - 16
          rest = omega (arith, length-pending v, v)

          skips :
              Buffer.read_skip ops behind (c.next_payload_len - 16)
              ≡ (success, advanced (at + 8 + 8) (c.next_payload_len - 16) behind)
          skips =
              elim (read_skip_lem (behind-IsValid (omega arith)) ops laws
                (c.next_payload_len - 16)) [
                  | inl (positive, fits, s, r) ↦ both s r
                  | inr (inl (none_left, s, r, same)) ↦ absurd (omega arith)
                  | inr (inr (out, s, r)) ↦ absurd (omega (arith, length-pending v))
                ]

      -- A payload that is too short for its own header ends the loop, wherever that shows.
      payload_stop :
          c.next_payload_len ≤ 16
          → (b' : Buffer) × (to : ℕ) × (payload_round ops clock c b ≡ stop c b')
            × IsValid to b'
            × (b'.buf ≡ b.buf)
      unfolding payload_round
      payload_stop tiny = elim (dec_lt (length (pending b)) 8) [
        | yes few ↦ (b, at, no_number few, v, refl)
        | no some_bytes ↦ elim (dec_lt (length (pending b)) 16) [
          | yes few ↦ (
            advanced at 8 b,
            at + 8,
            no_time (omega arith) few,
            advanced-IsValid v 8 (omega (arith, length-pending v)),
            refl,
          )
          | no two ↦ no_rest (omega arith)
        ]
      ]
        where
          no_number : length (pending b) < 8 → payload_round ops clock c b ≡ stop c b
          no_number few =
              ground (arith, arrived, read_be64_out v ops laws (omega (arith, length-pending v)))

          no_time :
              8 ≤ length (pending b)
              → length (pending b) < 16
              → payload_round ops clock c b ≡ stop c (advanced at 8 b)
          no_time eight few =
              let first = read_be64_in v ops laws (omega (arith, length-pending v)) in
              let second =
                read_be64_out (advanced-IsValid v 8 (omega (arith, length-pending v))) ops laws
                  (omega (arith, length-pending v)) in
              ground (arith, arrived, first, second)

          no_rest :
              16 ≤ length (pending b)
              → (b' : Buffer) × (to : ℕ) × (payload_round ops clock c b ≡ stop c b')
                × IsValid to b'
                × (b'.buf ≡ b.buf)
          no_rest two =
              elim (read_skip_lem (behind-IsValid two) ops laws
                ((c.next_payload_len + 2 ^ 32 - 16) % 2 ^ 32)) [
                  | inl (positive, fits, s, r) ↦ absurd (omega (arith, length-pending v, v))
                  | inr (inl (none_left, s, r, same)) ↦ (
                    advanced (at + 8 + 8) 0 behind,
                    at + 8 + 8 + 0,
                    numbers two ∙ rw (both s r) refl,
                    advanced-IsValid (behind-IsValid two) 0 (omega arith),
                    refl,
                  )
                  | inr (inr (out, s, r)) ↦ (
                    behind,
                    at + 8 + 8,
                    numbers two ∙ rw (both s r) refl,
                    behind-IsValid two,
                    refl,
                  )
                ]

  -- The rounds of the loop are the steps of the decoder.
  abbrev Simulates : ℕ → Buffer → Type 0
  Simulates at b =
      ((step clock (decoder latency c b) ≡ waits) × (round ops clock latency c b ≡ wait))
      ⊎ ((d : Decoder) × (b' : Buffer) × (to : ℕ) × (step clock (decoder latency c b) ≡ moves d)
          × (round ops clock latency c b ≡ go_on d.latency (caught_up c d) b')
          × IsReady to (caught_up c d) b'
          × (pending b' ≡ d.stream)
          × (b'.buf ≡ b.buf))
      ⊎ ((b' : Buffer) × (to : ℕ) × (step clock (decoder latency c b) ≡ breaks)
          × (round ops clock latency c b ≡ stop c b')
          × IsReady to c b'
          × (b'.buf ≡ b.buf))

  pub round_lem : {at : ℕ} {b : Buffer} → IsReady at c b → Simulates at b
  round_lem {at} {b} r = elim (step_cases clock (decoder latency c b) r.awake) [
    | inl (inl (h, little), s) ↦ inl (s, round_header b h ∙ header_wait r.valid little)
    | inl (inr (h, little), s) ↦ inl (s, round_payload b h ∙ payload_wait r.valid little)
    | inr (inl (h, enough, s)) ↦ inr (
        inl (
          after_header clock (decoder latency c b),
          advanced at 4 b,
          at + 4,
          s,
          round_header b h ∙ header_go r.valid enough,
          record {
            valid = advanced-IsValid r.valid 4 (omega (arith, length-pending r.valid));
            awake = inr refl;
            small = r.small;
          },
          pending-advanced r.valid 4 (omega (arith, length-pending r.valid)),
          refl,
        ))
    | inr (inr (inl (h, enough, fine, s))) ↦
        let two : 16 ≤ b.pos.len = omega (arith, length-pending r.valid) in
        let v = behind-IsValid r.valid enough r.small (omega arith) in
        inr (
          inl (
            after_payload clock (decoder latency c b),
            advanced (at + 8 + 8) (c.next_payload_len - 16) (behind r.valid),
            at + 8 + 8 + (c.next_payload_len - 16),
            s,
            round_payload b h ∙ payload_go r.valid enough r.small fine,
            record {
              valid =
                  advanced-IsValid v (c.next_payload_len - 16)
                    (omega (arith, length-pending r.valid));
              awake = inl refl;
              small = r.small;
            },
            ap₂ (slice b.buf.buffer) (omega arith) (omega arith)
                ∙ pending-advanced r.valid c.next_payload_len
                    (omega (arith, length-pending r.valid)),
            refl,
          ))
    | inr (inr (inr (h, enough, tiny, s))) ↦
        let (b', to, e, v, same) = payload_stop r.valid enough r.small tiny in
        inr (
          inr (
            b',
            to,
            s,
            round_payload b h ∙ e,
            record { valid = v; awake = r.awake; small = rw same (r.small) },
            same,
          ))
  ]
