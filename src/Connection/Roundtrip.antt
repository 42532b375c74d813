-- ===== src/Connection/Roundtrip.antt =====
-- Messages that a connection sends and that come back to it, as from an echo server.
use tcpeen.Base.{
  ℕ, suc, ◌^◌, ◌%◌, ◌<◌, ◌≡◌, refl, sym, ap, ◌∙◌, inl, inr, List, ◌∷◌, [], Bool, false, Option,
  some, ◌++◌, length, add64, arith,
}
use tcpeen.Bytes.{ByteBuf, ByteOps, IsByteOps}
use tcpeen.Buffer.{Buffer}
use tcpeen.Buffer.Inv.{pending}
use tcpeen.Buffer.Writes.{Fits}
use tcpeen.Channel.{read_header}
use tcpeen.Context.{Context}
use tcpeen.Connection.{Connection}
use tcpeen.Connection.Send.{Answers, write_begin}
use tcpeen.Connection.Send.Laws.{IsAlloc, message_bytes, write_begin_sent, frame-eq_some}
use tcpeen.Connection.Receive.{Clock, got, on_tcp_recv_cb}
use tcpeen.Connection.Receive.Refine.{IsReady, decoder}
use tcpeen.Connection.Receive.Stream.{KeepsStream}
use tcpeen.Connection.Receive.Pieces.{on_tcp_recv_cb_lem}
use tcpeen.Connection.Decode.{Decoder, rests, waits, step, drain, fed, next_id}
use tcpeen.Connection.Decode.Laws.{step_cases, drain_waits, drain-ne-short, short-ne-rests}
use tcpeen.Connection.Decode.Pieces.{drain_enough}
use tcpeen.Connection.Decode.Messages.{behind, drain-message}

module _ (ops : ByteOps) (alloc : ℕ → Option ByteBuf) where
  -- The connection `c` has sent `all` and is `c'`, one message after the other, each of which
  -- libuv took.
  pub data Sends : Connection → List ℕ → Connection → Type 0 where
    done : (c : Connection) → Sends c [] c
    one :
        (c c' c'' : Connection) (now : ℕ) (a : Answers) (x : ℕ) (xs out more all : List ℕ)
        → length (x ∷ xs) < 2 ^ 31
        → now < 2 ^ 64
        → write_begin ops alloc now a (some c) (some (x ∷ xs)) ≡ (some out, false, some c')
        → all ≡ out ++ more
        → Sends c' more c''
        → Sends c all c''

-- The number after the last one is the one that is counted on.
next_lem :
    (clock : Clock) (last current : ℕ)
    → last ≡ current
    → next_id clock last (add64 current 1 % 2 ^ 64) ≡ add64 current 1
next_lem clock last current e = ground arith

idle : (clock : Clock) (d : Decoder) → d.state ≡ read_header → d.stream ≡ [] → step clock d ≡ waits
idle clock d h s = elim (step_cases clock d (inl h)) [
  | inl (_, e) ↦ e
  | inr (inl (_, some_bytes, _)) ↦ absurd (omega (arith, ap length s))
  | inr (inr (inl (p, _, _, _))) ↦ cc
  | inr (inr (inr (p, _, _, _))) ↦ cc
]

module _ (ops : ByteOps) (laws : IsByteOps ops) (alloc : ℕ → Option ByteBuf) (known : IsAlloc alloc)
    (clock : Clock) where
  -- A decoder that has counted the messages up to now counts all that are sent.
  read_back :
      {c c' : Connection} {all : List ℕ} (d : Decoder)
      → Sends ops alloc c all c'
      → d.state ≡ read_header
      → d.last ≡ c.current_msg_id
      → d.stream ≡ all
      → (fuel : ℕ) × (d' : Decoder) × (drain clock fuel d ≡ rests d')
        × (d'.state ≡ read_header)
        × (d'.last ≡ c'.current_msg_id)
        × (d'.stream ≡ [])
  read_back d (done c) h l s = (1, d, drain_waits clock 0 d (idle clock d h s), h, l, s)
  read_back d (one c c' c'' now a x xs out more all small time e split rest) h l s =
      let (made, is_sent) = write_begin_sent ops alloc now a c c' x xs out e in
      let bytes =
        frame-eq_some ops laws alloc known (add64 c.current_msg_id 1) now (x ∷ xs) out small made in
      let stream : d.stream ≡ message_bytes (add64 c.current_msg_id 1) now (x ∷ xs) ++ more =
        s ∙ split ∙ ap (λ t. t ++ more) bytes in
      let (fuel, d', e', h', l', s') =
        read_back (behind clock (add64 c.current_msg_id 1) now (x ∷ xs) more small d) rest refl
          (next_lem clock d.last c.current_msg_id l ∙ sym (ap (λ c. c.current_msg_id) is_sent))
          refl in
      (
        suc (suc fuel),
        d',
        drain-message clock (add64 c.current_msg_id 1) now (x ∷ xs) more small fuel d h stream ∙ e',
        h',
        l',
        s',
      )

  Sends-KeepsStream :
      {c c' : Connection} {all : List ℕ} → Sends ops alloc c all c' → KeepsStream c c'
  Sends-KeepsStream (done c) = (refl, refl, refl, refl)
  Sends-KeepsStream (one c c' c'' now a x xs out more all small time e split rest) =
      let (p, q, u, v) = Sends-KeepsStream rest in
      let (made, is_sent) = write_begin_sent ops alloc now a c c' x xs out e in
      (
        p ∙ ap (λ c. c.next_buffer) is_sent,
        q ∙ ap (λ c. c.read_state) is_sent,
        u ∙ ap (λ c. c.next_payload_len) is_sent,
        v ∙ ap (λ c. c.last_recv_msg_id) is_sent,
      )

  -- A connection with a ready, empty buffer waits for a header and has counted all messages that it
  -- had sent. All that it then sends is counted when the bytes come back to it, in one piece that
  -- fits the buffer: the number of the last message counted is that of the last one sent, and it
  -- waits for the next message, with nothing left over.
  pub roundtrip :
      (ctx : Context) {c c' : Connection} {at : ℕ} {b : Buffer} (y : ℕ) (ys : List ℕ)
      → c.next_buffer ≡ some b
      → IsReady at c b
      → c.read_state ≡ read_header
      → pending b ≡ []
      → c.last_recv_msg_id ≡ c.current_msg_id
      → Sends ops alloc c (y ∷ ys) c'
      → Fits (y ∷ ys) b
      → (ctx' : Context) × (c'' : Connection) × (b' : Buffer) × ((closing : Bool)
          → on_tcp_recv_cb ops clock (got (y ∷ ys)) closing ctx c' ≡ some (false, ctx', c''))
        × (c''.last_recv_msg_id ≡ c'.current_msg_id)
        × (c''.read_state ≡ read_header)
        × (c''.next_buffer ≡ some b')
        × (pending b' ≡ [])
  roundtrip ctx {c} {c'} {at} {b} y ys there r h empty count sends fits =
      let (next, read, _, last) = Sends-KeepsStream sends in
      let r' : IsReady at c' b = record {
        valid = r.valid;
        awake = rw read (r.awake);
        small = r.small;
      } in
      let (fuel, d', e, h', l, s) =
        read_back (fed (y ∷ ys) (decoder 0 c' b)) sends (read ∙ h) (last ∙ count)
          (ap (λ t. t ++ (y ∷ ys)) empty) in
      let enough =
        drain_enough clock (suc (length (pending b ++ (y ∷ ys)))) fuel
          (fed (y ∷ ys) (decoder 0 c' b))
          (drain-ne-short clock (suc (length (pending b ++ (y ∷ ys))))
            (fed (y ∷ ys) (decoder 0 c' b)) r'.awake (omega arith))
          (λ p. short-ne-rests (sym p ∙ e)) in
      let (ctx', c'', calls, (held, _, _)) =
        on_tcp_recv_cb_lem ops laws clock ctx d' y ys (next ∙ there) r' fits (enough ∙ e) in
      (ctx', c'', held.buf, calls, held.last ∙ l, held.state ∙ h', held.there, held.stream ∙ s)
