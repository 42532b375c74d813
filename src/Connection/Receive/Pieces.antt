-- ===== src/Connection/Receive/Pieces.antt =====
-- It does not matter in which pieces the bytes of a connection arrive.
use tcpeen.Base.{
  ℕ, suc, ◌+◌, ◌≡◌, ◌≢◌, sym, ap, subst, ◌∙◌, inl, inr, Bool, false, some, List, ◌∷◌, ◌++◌, length,
  arith, length-append,
}
use mathlib.Core.List.{append_assoc}
use tcpeen.Bytes.{ByteOps, IsByteOps}
use tcpeen.Buffer.{Buffer}
use tcpeen.Buffer.Inv.{pending}
use tcpeen.Buffer.Writes.{Fits}
use tcpeen.Context.{Context}
use tcpeen.Connection.{Connection}
use tcpeen.Connection.Receive.{Clock, got, on_tcp_recv_cb}
use tcpeen.Connection.Receive.Refine.{IsReady, decoder}
use tcpeen.Connection.Receive.Laws.{reads, Holds, HoldsWithin, take_bytes_lem}
use tcpeen.Connection.Receive.Stream.{recv_some}
use tcpeen.Connection.Decode.{Decoder, short, rests, drain, fed}
use tcpeen.Connection.Decode.Laws.{
  rests_injective, short-ne-rests, broken-ne-rests, drain-AtRest, drain-fed, drain-ne-short,
}
use tcpeen.Connection.Decode.Pieces.{
  late, short-ne-broken, Outcome-cases, drain-late, drain-fed_broken, drain_enough,
}

-- The latency of the last message is not part of what a connection holds.
timeless : {c : Connection} {d : Decoder} (k : ℕ) → Holds c (late k d) → Holds c d
timeless k h = record {
  buf = h.buf;
  at = h.at;
  there = h.there;
  ready = h.ready;
  state = h.state;
  need = h.need;
  last = h.last;
  stream = h.stream;
}

module _ (ops : ByteOps) (laws : IsByteOps ops) (clock : Clock) where
  -- A call with `bs` from which the connection comes to hold `d`.
  abbrev pub Reads : Context → Connection → List ℕ → Context → Connection → Decoder → Type 0
  Reads ctx c bs ctx' c' d =
      ((closing : Bool) → on_tcp_recv_cb ops clock (got bs) closing ctx c ≡ some (false, ctx', c'))
      × Holds c' d

  -- A call with bytes for which there is room comes to where the decoder comes to.
  pub on_tcp_recv_cb_lem :
      (ctx : Context) {at : ℕ} {c : Connection} {b : Buffer} (d : Decoder) (x : ℕ) (xs : List ℕ)
      → c.next_buffer ≡ some b
      → IsReady at c b
      → Fits (x ∷ xs) b
      → reads clock c b (x ∷ xs) ≡ rests d
      → (ctx' : Context) × (c' : Connection) × ((closing : Bool)
          → on_tcp_recv_cb ops clock (got (x ∷ xs)) closing ctx c ≡ some (false, ctx', c'))
        × HoldsWithin b.buf.capacity (b.buf.len + length (x ∷ xs)) c' d
  on_tcp_recv_cb_lem ctx {at} {c} {b} d x xs there r fits e =
      let (d', ctx', c', o, s, h) = take_bytes_lem ops laws clock ctx there r (x ∷ xs) fits in
      elim o [
        | inl same ↦
            let eq : d' ≡ d = rests_injective (sym same ∙ e) in
            (
              ctx',
              c',
              λ closing. recv_some ops laws clock x xs closing ctx ctx' c c' s,
              subst (HoldsWithin b.buf.capacity (b.buf.len + length (x ∷ xs)) c') eq h,
            )
        | inr bad ↦ absurd (broken-ne-rests (sym bad ∙ e))
      ]

  module _ (ctx : Context) {at : ℕ} {c : Connection} {b : Buffer} (d : Decoder) (x : ℕ)
      (xs : List ℕ) (y : ℕ) (ys : List ℕ) (there : c.next_buffer ≡ some b) (r : IsReady at c b)
      (fits : Fits ((x ∷ xs) ++ (y ∷ ys)) b)
      (e : reads clock c b ((x ∷ xs) ++ (y ∷ ys)) ≡ rests d) where
    both_fed :
        fed (y ∷ ys) (fed (x ∷ xs) (decoder 0 c b)) ≡ fed ((x ∷ xs) ++ (y ∷ ys)) (decoder 0 c b)
    both_fed = λ i. record (decoder 0 c b) { stream = append_assoc (pending b) (x ∷ xs) (y ∷ ys) i }

    -- The number of rounds of a call with `bs`.
    abbrev fuel : List ℕ → ℕ
    fuel bs = suc (length (pending b ++ bs))

    -- The number of rounds of the second call.
    abbrev later : Decoder → ℕ
    later d₁ = suc (length (d₁.stream ++ (y ∷ ys)))

    abbrev start : Decoder
    start = fed (x ∷ xs) (decoder 0 c b)

    abbrev joined : Decoder
    joined = fed (y ∷ ys) start

    abbrev pieces : List ℕ
    pieces = (x ∷ xs) ++ (y ∷ ys)

    at_once : drain clock (fuel pieces) joined ≡ rests d
    at_once = ap (drain clock (fuel pieces)) both_fed ∙ e

    at_once-ne-short : drain clock (fuel pieces) joined ≢ short
    at_once-ne-short h = short-ne-rests (sym h ∙ at_once)

    first : (d₁ : Decoder) × (reads clock c b (x ∷ xs) ≡ rests d₁)
    first = elim (Outcome-cases (reads clock c b (x ∷ xs))) [
      | inl s ↦ absurd (drain-ne-short clock (fuel (x ∷ xs)) start r.awake (omega arith) s)
      | inr (inl s) ↦
          let more = drain-fed_broken clock (fuel (x ∷ xs)) start (y ∷ ys) r.awake s in
          absurd (
            broken-ne-rests (
              sym more
              ∙ drain_enough clock (fuel (x ∷ xs)) (fuel pieces) joined
                  (λ h. short-ne-broken (sym h ∙ more)) at_once-ne-short
              ∙ at_once))
      | inr (inr s) ↦ s
    ]

    second :
        (d₁ : Decoder)
        → reads clock c b (x ∷ xs) ≡ rests d₁
        → drain clock (later d₁) (fed (y ∷ ys) d₁) ≡ rests d
    second d₁ h =
        let awake = (drain-AtRest clock (fuel (x ∷ xs)) start d₁ r.awake h).0 in
        let more = drain-ne-short clock (later d₁) (fed (y ∷ ys) d₁) awake (omega arith) in
        let one = drain-fed clock (fuel (x ∷ xs)) (later d₁) start d₁ (y ∷ ys) r.awake h more in
        sym one
        ∙ drain_enough clock (fuel (x ∷ xs) + suc (length (d₁.stream ++ (y ∷ ys)))) (fuel pieces)
            joined (λ z. more (sym one ∙ z)) at_once-ne-short
        ∙ at_once

    -- The second call, on the connection that the first one leaves.
    afterwards :
        (ctx₁ : Context) {c₁ : Connection} (d₁ : Decoder)
        → reads clock c b (x ∷ xs) ≡ rests d₁
        → HoldsWithin b.buf.capacity (b.buf.len + length (x ∷ xs)) c₁ d₁
        → (ctx₂ : Context) × (c₂ : Connection) × Reads ctx₁ c₁ (y ∷ ys) ctx₂ c₂ d
    afterwards ctx₁ {c₁} d₁ s (h, size, top) =
        let same : fed (y ∷ ys) (decoder 0 c₁ h.buf) ≡ late 0 (fed (y ∷ ys) d₁) = λ i. record {
          state = h.state i;
          need = h.need i;
          last = h.last i;
          latency = 0;
          stream = h.stream i ++ (y ∷ ys);
        } in
        let awake = (drain-AtRest clock (fuel (x ∷ xs)) start d₁ r.awake s).0 in
        let (k, e₂) = drain-late clock (later d₁) 0 (fed (y ∷ ys) d₁) d awake (second d₁ s) in
        let e₃ : reads clock c₁ h.buf (y ∷ ys) ≡ rests (late k d) =
          ap (λ t. drain clock (suc (length (t ++ (y ∷ ys)))) (fed (y ∷ ys) (decoder 0 c₁ h.buf)))
            h.stream
          ∙ ap (drain clock (later d₁)) same
          ∙ e₂ in
        let (ctx₂, c₂, calls, (held, _, _)) =
          on_tcp_recv_cb_lem ctx₁ (late k d) y ys h.there h.ready
            (omega (arith, length-append {0} (x ∷ xs) (y ∷ ys))) e₃ in
        (ctx₂, c₂, (calls, timeless k held))

    -- Where the buffer is ready, has room for two pieces of bytes, and no payload is too short,
    -- the bytes leave the same state, counter and rest of the stream, whether they come in
    -- one read or in two.
    pub on_tcp_recv_cb-pieces :
        ((ctx₁ : Context) × (c₁ : Connection) × Reads ctx c ((x ∷ xs) ++ (y ∷ ys)) ctx₁ c₁ d)
        × ((d₁ : Decoder) × (ctx₁ : Context) × (c₁ : Connection) × (ctx₂ : Context)
            × (c₂ : Connection) × Reads ctx c (x ∷ xs) ctx₁ c₁ d₁
            × Reads ctx₁ c₁ (y ∷ ys) ctx₂ c₂ d)
    on_tcp_recv_cb-pieces =
        let (ctx₁, c₁, calls₁, (held₁, _, _)) =
          on_tcp_recv_cb_lem ctx d x (xs ++ (y ∷ ys)) there r fits e in
        let (d₂, s) = first in
        let (ctx₂, c₂, calls₂, held₂) =
          on_tcp_recv_cb_lem ctx d₂ x xs there r
            (omega (arith, length-append {0} (x ∷ xs) (y ∷ ys))) s in
        let (ctx₃, c₃, calls₃) = afterwards ctx₂ d₂ s held₂ in
        ((ctx₁, c₁, (calls₁, held₁)), (d₂, ctx₂, c₂, ctx₃, c₃, (calls₂, held₂.0), calls₃))
