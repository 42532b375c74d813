-- ===== src/Connection/Receive/Laws.antt =====
-- What a call of `on_tcp_recv_cb` does to the stream that the connection reads.
use tcpeen.Base.{
  ℕ, suc, ◌+◌, ◌≤◌, ◌<◌, ◌≡◌, ◌≢◌, refl, sym, ap, subst, ◌∙◌, ◌⊎◌, inl, inr, Bool-cases, ◌==◌,
  Option, some, List, [], ◌∷◌, ◌++◌, length, Status, success, error, arith, length-append,
}
use tcpeen.Bytes.{ByteOps, IsByteOps}
use tcpeen.Buffer
use tcpeen.Buffer.{Buffer}
use tcpeen.Buffer.Inv.{pending}
use tcpeen.Buffer.Stream.{length-pending}
use tcpeen.Buffer.Copy.{capacity-reset, len-reset, reset_lem}
use tcpeen.Buffer.Writes.{Fits, appended, appended-IsValid, pending-appended, write_lem, write_full}
use tcpeen.Context.{Context}
use tcpeen.Connection.{Connection}
use tcpeen.Connection.Receive.{Clock, process, finish, take_bytes}
use tcpeen.Connection.Receive.Refine.{IsReady, decoder, caught_up}
use tcpeen.Connection.Receive.Loop.{Drains, process_lem}
use tcpeen.Connection.Decode.{Decoder, Outcome, short, broken, rests, drain, fed}
use tcpeen.Connection.Decode.Laws.{drain-ne-short}

-- What a connection has come to when `bs` have come in behind what its buffer holds.
abbrev pub reads : Clock → Connection → Buffer → List ℕ → Outcome
reads clock c b bs = drain clock (suc (length (pending b ++ bs))) (fed bs (decoder 0 c b))

-- The connection has read as far as the decoder, and its buffer holds what is left.
pub record Holds (c : Connection) (d : Decoder) : Type 0 where
  pub buf : Buffer
  pub at : ℕ
  pub there : c.next_buffer ≡ some buf
  pub ready : IsReady at c buf
  pub state : c.read_state ≡ d.state
  pub need : c.next_payload_len ≡ d.need
  pub last : c.last_recv_msg_id ≡ d.last
  pub stream : pending buf ≡ d.stream

-- The buffer has the size `capacity`, and at most `top` of it is written.
abbrev pub HoldsWithin : ℕ → ℕ → Connection → Decoder → Type 0
HoldsWithin capacity top c d =
    (h : Holds c d) × (h.buf.buf.capacity ≡ capacity) × (h.buf.buf.len ≤ top)

emptied-IsReady :
    {at : ℕ} {c : Connection} {b : Buffer} → IsReady at c b → IsReady 0 c (Buffer.reset b)
emptied-IsReady r = record {
  valid = (reset_lem r.valid).0;
  awake = r.awake;
  small = rw (capacity-reset _) (r.small);
}

nothing : (xs : List ℕ) → length xs ≡ 0 → [] ≡ xs
nothing [] e = refl
nothing (x ∷ xs) e = absurd (omega arith)

-- The end of a call: a buffer from which all is read starts again.
finish-Holds :
    (ops : ByteOps) (clock : Clock) (n latency : ℕ) (ctx : Context) (c : Connection) (d : Decoder)
    {at : ℕ} {b : Buffer}
    → IsReady at (caught_up c d) b
    → pending b ≡ d.stream
    → HoldsWithin b.buf.capacity b.buf.len (finish ops clock n latency ctx (caught_up c d) b).1 d
unfolding finish
finish-Holds ops clock n latency ctx c d {at} {b} r p = elim (Bool-cases (b.pos.len == 0)) [
  | inl e ↦
      let none_left : b.pos.len ≡ 0 = ground arith in
      let again = emptied-IsReady r in
      (
        record {
          buf = Buffer.reset b;
          at = 0;
          there = rw e refl;
          ready = record { valid = again.valid; awake = again.awake; small = again.small };
          state = refl;
          need = refl;
          last = refl;
          stream =
              (reset_lem r.valid).1 ∙ nothing (pending b) (length-pending r.valid ∙ none_left) ∙ p;
        },
        capacity-reset b,
        omega (arith, len-reset b),
      )
  | inr e ↦ (
    record {
      buf = b;
      at = at;
      there = rw e refl;
      ready = record { valid = r.valid; awake = r.awake; small = r.small };
      state = refl;
      need = refl;
      last = refl;
      stream = p;
    },
    refl,
    omega arith,
  )
]

module _ (ops : ByteOps) (laws : IsByteOps ops) (clock : Clock) (ctx : Context) {at : ℕ}
    {c : Connection} {b : Buffer} (there : c.next_buffer ≡ some b) (r : IsReady at c b) where
  abbrev loop_of : List ℕ → Option (Status × ℕ × Connection × Buffer)
  loop_of bs = process ops clock (suc (b.pos.len + length bs)) 0 c (appended bs b)

  after_stop :
      (bs : List ℕ) (latency : ℕ) (c' : Connection) (b' : Buffer)
      → Fits bs b
      → loop_of bs ≡ some (error, latency, c', b')
      → take_bytes ops clock bs ctx c ≡ some (ctx, record c' { next_buffer = some b' })
  unfolding take_bytes
  after_stop bs latency c' b' fits e = ground (arith, there, write_lem r.valid ops laws bs fits, e)

  after_end :
      (bs : List ℕ) (latency : ℕ) (c' : Connection) (b' : Buffer)
      → Fits bs b
      → loop_of bs ≡ some (success, latency, c', b')
      → take_bytes ops clock bs ctx c ≡ some (finish ops clock (length bs) latency ctx c' b')
  unfolding take_bytes
  after_end bs latency c' b' fits e = ground (arith, there, write_lem r.valid ops laws bs fits, e)

  -- Bytes for which there is no room are lost, and nothing else changes.
  pub take_bytes_full :
      (bs : List ℕ)
      → b.buf.capacity < b.buf.len + length bs
      → take_bytes ops clock bs ctx c ≡ some (ctx, c)
  unfolding take_bytes
  take_bytes_full bs h = ground (arith, there, write_full r.valid ops laws bs h, same)
    where
      same : record c { next_buffer = some b } ≡ c
      same = λ i. record c { next_buffer = sym there i }

  arrived : (bs : List ℕ) → Fits bs b → decoder 0 c (appended bs b) ≡ fed bs (decoder 0 c b)
  arrived bs fits = λ i. record (decoder 0 c b) { stream = pending-appended r.valid bs fits i }

  rounds : (bs : List ℕ) → suc (b.pos.len + length bs) ≡ suc (length (pending b ++ bs))
  rounds bs = omega (arith, length-append {0} (pending b) bs, length-pending r.valid)

  -- The ways of a call that has room for its bytes.
  abbrev pub Takes : List ℕ → Outcome → Type 0
  Takes bs out =
      (d : Decoder) × (ctx' : Context) × (c' : Connection) × ((out ≡ rests d) ⊎ (out ≡ broken))
      × (take_bytes ops clock bs ctx c ≡ some (ctx', c'))
      × HoldsWithin b.buf.capacity (b.buf.len + length bs) c' d

  took :
      (bs : List ℕ) {out : Outcome}
      → Fits bs b
      → out ≢ short
      → Drains ops laws clock (suc (b.pos.len + length bs)) 0 c (appended bs b) out
      → Takes bs out
  took bs fits ne (inl (o, p)) = absurd (ne o)
  took bs fits ne (inr (inl (d, b', to, o, p, w, q, same))) =
      let (h, size, top) = finish-Holds ops clock (length bs) d.latency ctx c d w q in
      (
        d,
        (finish ops clock (length bs) d.latency ctx (caught_up c d) b').0,
        (finish ops clock (length bs) d.latency ctx (caught_up c d) b').1,
        inl o,
        after_end bs d.latency (caught_up c d) b' fits p,
        (h, size ∙ ap (λ x. x.capacity) same, omega (arith, ap (λ x. x.len) same)),
      )
  took bs fits ne (inr (inr (d, b', to, o, p, w, same))) = (
    record d { stream = pending b' },
    ctx,
    record (caught_up c d) { next_buffer = some b' },
    inr o,
    after_stop bs d.latency (caught_up c d) b' fits p,
    (
      record {
        buf = b';
        at = to;
        there = refl;
        ready = record { valid = w.valid; awake = w.awake; small = w.small };
        state = refl;
        need = refl;
        last = refl;
        stream = refl;
      },
      ap (λ x. x.capacity) same,
      omega (arith, ap (λ x. x.len) same),
    ),
  )

  appended-IsReady : (bs : List ℕ) → Fits bs b → IsReady at c (appended bs b)
  appended-IsReady bs fits = record {
    valid = appended-IsValid r.valid bs fits;
    awake = r.awake;
    small = r.small;
  }

  reads-ne-short : (bs : List ℕ) → reads clock c b bs ≢ short
  reads-ne-short bs =
      drain-ne-short clock (suc (length (pending b ++ bs))) (fed bs (decoder 0 c b)) r.awake
        (omega arith)

  reads_lem :
      (bs : List ℕ)
      → Fits bs b
      → drain clock (suc (b.pos.len + length bs)) (decoder 0 c (appended bs b)) ≡ reads clock c b bs
  reads_lem bs fits =
      ap (λ n. drain clock n (decoder 0 c (appended bs b))) (rounds bs)
      ∙ ap (drain clock (suc (length (pending b ++ bs)))) (arrived bs fits)

  -- Bytes for which there is room are read as the decoder reads them.
  pub take_bytes_lem : (bs : List ℕ) → Fits bs b → Takes bs (reads clock c b bs)
  take_bytes_lem bs fits = took bs fits (reads-ne-short bs) (
      subst (Drains ops laws clock (suc (b.pos.len + length bs)) 0 c (appended bs b))
        (reads_lem bs fits)
        (process_lem ops laws clock (suc (b.pos.len + length bs)) 0 c (appended-IsReady bs fits)))
