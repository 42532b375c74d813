-- ===== src/Channel/Read.antt =====
-- How a channel takes messages, each a length in network order and then that many bytes, out of
-- its read buffer.
use tcpeen.Base.{
  ℕ, ◌+◌, ◌^◌, ◌≤◌, ◌<◌, ◌≡◌, refl, sym, ap, subst, ◌∙◌, none, some, List, ◌++◌, length, take, drop,
  take-append, length-append, get_elem?, get_elem?-lt, get_elem?-set_self, set, success, error,
  arith, ◌⊎◌, inl, inr,
}
use tcpeen.Bytes.{ByteOps, IsByteOps}
use tcpeen.Bytes.Slices.{drop-append}
use tcpeen.Bytes.Endian.{be_bytes, be_value, be_value-be_bytes, length-be_bytes}
use tcpeen.Buffer
use tcpeen.Buffer.{Buffer, Span, bytes_at}
use tcpeen.Buffer.Inv.{IsValid, pending}
use tcpeen.Buffer.Stream.{
  advanced, pending-advanced, advanced-IsValid, length-pending, read_skip_lem,
}
use tcpeen.Buffer.Copy.{pending_prefix}
use tcpeen.Buffer.Numbers.{read_be32_in, read_be32_out}
use native.Mathlib.Decide.{dec_lt}
use tcpeen.Channel.{Channel, read_header, read_payload, header, payload, buffer_at, put_buffer}

-- The bytes that the channel has received and not yet taken, `bs` being the buffers of the pool.
pub record Receives (bs : List Buffer) (c : Channel) (at : ℕ) (stream : List ℕ) : Type 0 where
  pub index : ℕ
  pub owner : c.read_buffer ≡ some index
  pub buf : Buffer
  pub there : get_elem? bs index ≡ some buf
  pub valid : IsValid at buf
  pub holds : pending buf ≡ stream

put-at :
    (bs : List Buffer) (i : ℕ) (b c : Buffer)
    → get_elem? bs i ≡ some b
    → get_elem? (set bs i c) i ≡ some c
put-at bs i b c h = get_elem?-set_self bs i c (get_elem?-lt bs i h)

module _ (ops : ByteOps) (laws : IsByteOps ops) {bs : List Buffer} {c : Channel} {at : ℕ}
    {stream : List ℕ} (w : Receives bs c at stream) where
  -- The channel after its buffer has changed.
  after :
      (d : Channel) (b : Buffer) {to : ℕ} {left : List ℕ}
      → d.read_buffer ≡ c.read_buffer
      → IsValid to b
      → pending b ≡ left
      → Receives (set bs w.index b) d to left
  after d b e v h = record {
    index = w.index;
    owner = e ∙ w.owner;
    buf = b;
    there = put-at bs w.index w.buf b w.there;
    valid = v;
    holds = h;
  }

  size : length stream ≡ w.buf.pos.len
  size = sym (ap length w.holds) ∙ length-pending w.valid

  found : buffer_at bs c.read_buffer ≡ some w.buf
  found = ap (buffer_at bs) w.owner ∙ w.there

  put : (b : Buffer) → put_buffer bs c.read_buffer b ≡ set bs w.index b
  put b = ap (λ o. put_buffer bs o b) w.owner

  header_in :
      (n : ℕ) (b : Buffer)
      → Buffer.read_be32 ops w.buf ≡ (success, some n, b)
      → header ops bs c ≡ (
        success,
        n,
        set bs w.index b,
        record c { next_payload_len = n; read_state = read_payload },
      )
  unfolding header
  header_in n b e = ground (arith, found, e, put b)

  header_out :
      Buffer.read_be32 ops w.buf ≡ (error, none, w.buf)
      → header ops bs c ≡ (error, 0, set bs w.index w.buf, c)
  unfolding header
  header_out e = ground (arith, found, e, put w.buf)

  -- A header of four bytes that has come in whole is taken out of the stream, and the channel
  -- then waits for that many bytes of payload; otherwise the call fails and leaves the channel
  -- and its stream as they were.
  pub header_lem :
      let (s, n, bs', c') = header ops bs c in
      ((4 ≤ length stream)
        × (s ≡ success)
        × (n ≡ be_value 0 (take 4 stream))
        × (c' ≡ record c { next_payload_len = n; read_state = read_payload })
        × Receives bs' c' (at + 4) (drop 4 stream))
      ⊎ ((length stream < 4) × (s ≡ error) × (n ≡ 0) × (c' ≡ c) × Receives bs' c' at stream)
  header_lem = elim (dec_lt (length stream) 4) [
    | yes short ↦
        rw (header_out (read_be32_out w.valid ops laws (omega (arith, size))))
          (inr (short, refl, refl, refl, after c w.buf refl w.valid w.holds))
    | no whole ↦
        let enough : 4 ≤ w.buf.pos.len = omega (arith, size) in
        rw
          (header_in (be_value 0 (take 4 (pending w.buf))) (advanced at 4 w.buf)
            (read_be32_in w.valid ops laws enough))
          (inl (
            omega arith,
            refl,
            ap (λ bs. be_value 0 (take 4 bs)) w.holds,
            refl,
            after _ (advanced at 4 w.buf) refl (advanced-IsValid w.valid 4 enough)
                (pending-advanced w.valid 4 enough ∙ ap (drop 4) w.holds),
          ))
  ]

  -- The span of a payload.
  abbrev span : Span
  span = record { ptr = w.buf.pos.ptr; len = c.next_payload_len }

  payload_in :
      (b : Buffer)
      → Buffer.read_skip ops w.buf c.next_payload_len ≡ (success, b)
      → payload ops bs c ≡ (success, span, set bs w.index b, record c { read_state = read_header })
  unfolding payload
  payload_in b e = ground (arith, found, e, put b)

  payload_out :
      (b : Buffer)
      → Buffer.read_skip ops w.buf c.next_payload_len ≡ (error, b)
      → payload ops bs c ≡ (error, record { ptr = none; len = 0 }, set bs w.index b, c)
  unfolding payload
  payload_out b e = ground (arith, found, e, put b)

  -- A payload that has come in whole is handed out in place and taken out of the stream, and the
  -- channel then waits for a header. One that has not, and one of no bytes, are errors and leave
  -- the channel and its stream as they were.
  pub payload_lem :
      let (s, out, bs', c') = payload ops bs c in
      ((0 < c.next_payload_len)
        × (c.next_payload_len ≤ length stream)
        × (s ≡ success)
        × (c' ≡ record c { read_state = read_header })
        × (r : Receives bs' c' (at + c.next_payload_len) (drop c.next_payload_len stream))
        × (bytes_at r.buf.buf.buffer out.ptr out.len ≡ take c.next_payload_len stream))
      ⊎ (((c.next_payload_len ≡ 0) ⊎ (length stream < c.next_payload_len))
          × (s ≡ error)
          × (c' ≡ c)
          × Receives bs' c' at stream)
  unfolding after
  payload_lem = elim (read_skip_lem w.valid ops laws c.next_payload_len) [
    | inl (pos, enough, s, r) ↦
        rw (payload_in (advanced at c.next_payload_len w.buf) (λ i. (s i, r i))) (
          inl (
            pos,
            omega (arith, size),
            refl,
            refl,
            after _ (advanced at c.next_payload_len w.buf) refl
                (advanced-IsValid w.valid c.next_payload_len enough)
                (pending-advanced w.valid c.next_payload_len enough
                  ∙ ap (drop c.next_payload_len) w.holds),
            pending_prefix w.valid c.next_payload_len enough ∙ ap (take c.next_payload_len) w.holds,
          ))
    | inr (inl (none_read, s, r, same)) ↦ rw (payload_out (advanced at 0 w.buf) (λ i. (s i, r i))) (
        inr (
          inl none_read,
          refl,
          refl,
          after c (advanced at 0 w.buf) refl
              (subst (λ t. IsValid t (advanced at 0 w.buf)) (omega arith)
                (advanced-IsValid w.valid 0 (omega arith)))
              (pending-advanced w.valid 0 (omega arith) ∙ w.holds),
        ))
    | inr (inr (short, s, r)) ↦
        rw (payload_out w.buf (λ i. (s i, r i)))
          (inr (inr (omega (arith, size)), refl, refl, after c w.buf refl w.valid w.holds))
  ]

-- A whole message of at least one byte is received as it was sent: the header call takes its
-- length, the payload call hands out its bytes, and what follows it stays.
pub message_lem :
    (ops : ByteOps) (laws : IsByteOps ops) (bs : List Buffer) (c : Channel) (at : ℕ)
    (message rest : List ℕ)
    → Receives bs c at (be_bytes 4 (length message) ++ (message ++ rest))
    → 0 < length message
    → length message < 2 ^ 32
    → let (s, n, bs₁, c₁) = header ops bs c in
      let (t, out, bs₂, c₂) = payload ops bs₁ c₁ in
      (s ≡ success)
      × (n ≡ length message)
      × (t ≡ success)
      × (c₂.read_state ≡ read_header)
      × (r : Receives bs₂ c₂ (at + 4 + length message) rest) × (bytes_at r.buf.buf.buffer out.ptr
            out.len
          ≡ message)
message_lem ops laws bs c at message rest w pos small = elim (header_lem ops laws w) [
  | inl (_, s, n, e, w₁) ↦
      let w₁ : Receives (header ops bs c).2 (header ops bs c).3 (at + 4) (message ++ rest) =
        subst (Receives (header ops bs c).2 (header ops bs c).3 (at + 4)) tail w₁ in
      let len : (header ops bs c).3.next_payload_len ≡ length message =
        ap (λ d. d.next_payload_len) e ∙ n ∙ number in
      elim (payload_lem ops laws w₁) [
        | inl (_, _, t, e₂, w₂, bytes) ↦
            let (w₃, got) =
              subst (λ left. Left (length message) left message) (drop-append message rest)
                (subst (λ got. Left (length message) (drop (length message) (message ++ rest)) got)
                  (take-append message rest)
                  (subst (λ m. Left m (drop m (message ++ rest)) (take m (message ++ rest))) len
                    (w₂, bytes))) in
            (s, n ∙ number, t, ap (λ d. d.read_state) e₂, w₃, got)
        | inr (inl none_read, _, _, _) ↦ absurd (omega (arith, len))
        | inr (inr short, _, _, _) ↦ absurd (omega (arith, len, length-append message rest))
      ]
  | inr (short, _, _, _, _) ↦ absurd (
      omega (
        arith,
        length-append (be_bytes 4 (length message)) (message ++ rest),
        length-be_bytes 4 (length message),
      ))
]
  where
    -- What the payload call leaves, after `m` bytes.
    Left : ℕ → List ℕ → List ℕ → Type 0
    Left m left got =
        let (t, out, bs₂, c₂) = payload ops (header ops bs c).2 (header ops bs c).3 in
        (r : Receives bs₂ c₂ (at + 4 + m) left) × (bytes_at r.buf.buf.buffer out.ptr out.len ≡ got)

    number : be_value 0 (take 4 (be_bytes 4 (length message) ++ (message ++ rest))) ≡ length message
    number =
        ap (be_value 0) (
          ap (λ k. take k (be_bytes 4 (length message) ++ (message ++ rest)))
            (sym (length-be_bytes 4 (length message)))
          ∙ take-append (be_bytes 4 (length message)) (message ++ rest))
        ∙ be_value-be_bytes 4 (length message)
        ∙ omega arith

    tail : drop 4 (be_bytes 4 (length message) ++ (message ++ rest)) ≡ message ++ rest
    tail =
        ap (λ k. drop k (be_bytes 4 (length message) ++ (message ++ rest)))
          (sym (length-be_bytes 4 (length message)))
        ∙ drop-append (be_bytes 4 (length message)) (message ++ rest)
