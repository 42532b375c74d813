-- ===== src/Connection/Send/Laws.antt =====
-- The bytes of a message that `tcp_write_begin` makes.
use tcpeen.Base.{
  add64, ℕ, ◌+◌, ◌^◌, ◌%◌, ◌≤◌, ◌<◌, ◌≡◌, refl, sym, ap, subst, ◌∙◌, Bool, true, false, Option,
  none, some, List, [], ◌∷◌, ◌++◌, length, length-append, arith,
}
use mathlib.Core.List.{append_assoc}
use mathlib.Core.Logic.{◌≢◌}
use tcpeen.Base.{Option-cases, inl, inr}
use tcpeen.Bytes.{ByteBuf, ByteOps, IsByteOps, half_word}
use tcpeen.Bytes.Slices.{slice, splice, slice-splice, length-splice}
use tcpeen.Bytes.Endian.{be_bytes, length-be_bytes}
use tcpeen.Connection.{Connection}
use tcpeen.Connection.Send.{Answers, ready_to_write, frame, write_begin}

-- `aws_byte_buf_init` gives an empty buffer that has its size.
pub record IsAlloc (alloc : ℕ → Option ByteBuf) : Type 0 where
  pub empty : (n : ℕ) (b : ByteBuf) → alloc n ≡ some b → b.len ≡ 0
  pub size : (n : ℕ) (b : ByteBuf) → alloc n ≡ some b → b.capacity ≡ n
  pub storage : (n : ℕ) (b : ByteBuf) → alloc n ≡ some b → n ≤ length b.buffer

-- A buffer of `n` bytes holds `bs`.
pub record Filled (n : ℕ) (bs : List ℕ) (b : ByteBuf) : Type 0 where
  pub holds : slice b.buffer 0 b.len ≡ bs
  pub len : b.len ≡ length bs
  pub size : b.capacity ≡ n
  pub storage : n ≤ length b.buffer

-- A write that was successful, after which the buffer holds `bs`.
abbrev Wrote : ℕ → List ℕ → Bool × ByteBuf → Type 0
Wrote n bs (s, b) = (s ≡ true) × Filled n bs b

-- The message with the number `id` of the time `at`: its length, the number, the time, the bytes
-- and an end.
unfoldable pub message_bytes : ℕ → ℕ → List ℕ → List ℕ
message_bytes id at bytes =
    be_bytes 4 (length bytes + 17) ++ (be_bytes 8 id ++ (be_bytes 8 at ++ (bytes ++ be_bytes 1 0)))

module _ (ops : ByteOps) (laws : IsByteOps ops) where
  write-Filled :
      {n : ℕ} {bs : List ℕ} {b : ByteBuf} (xs : List ℕ)
      → Filled n bs b
      → n < half_word
      → length bs + length xs ≤ n
      → Wrote n (bs ++ xs) (ops.buf_write b xs)
  write-Filled {n} {bs} {b} xs f small room =
      rw (laws.write_in b xs (omega (arith, f)) (omega (arith, f))) (
        refl,
        record {
          holds = at_end ∙ ap (λ t. t ++ xs) f.holds;
          len = omega (arith, f, length-append {0} bs xs);
          size = f.size;
          storage = omega (arith, f, length-splice b.buffer b.len xs (omega (arith, f)));
        },
      )
    where
      at_end : slice (splice b.buffer b.len xs) 0 (b.len + length xs) ≡ slice b.buffer 0 b.len ++ xs
      at_end =
          subst
            (λ (k : ℕ).
              slice (splice b.buffer k xs) 0 (b.len + length xs) ≡ slice b.buffer 0 b.len ++ xs)
            {x = 0 + b.len} {y = b.len} (omega arith)
            (slice-splice b.buffer 0 b.len xs (omega (arith, f)))

  write_number-Filled :
      {n : ℕ} {bs : List ℕ} {b : ByteBuf} (w x : ℕ) {r : Bool × ByteBuf}
      → r ≡ ops.buf_write b (be_bytes w x)
      → Filled n bs b
      → n < half_word
      → length bs + w ≤ n
      → Wrote n (bs ++ be_bytes w x) r
  write_number-Filled {n} {bs} w x e f small room =
      subst (Wrote n (bs ++ be_bytes w x)) (sym e)
        (write-Filled (be_bytes w x) f small (omega (arith, length-be_bytes w x)))

  module _ (alloc : ℕ → Option ByteBuf) (known : IsAlloc alloc) (id now : ℕ) (bytes : List ℕ)
      {b₀ : ByteBuf} (short : length bytes < 2 ^ 31)
      (there : alloc (length bytes + 4 + 8 + 8 + 1) ≡ some b₀) where
    abbrev size : ℕ
    size = length bytes + 4 + 8 + 8 + 1

    abbrev head : List ℕ
    head = be_bytes 4 ((length bytes + 8 + 8 + 1) % 2 ^ 32)

    abbrev numbered : List ℕ
    numbered = head ++ be_bytes 8 id

    abbrev stamped : List ℕ
    stamped = numbered ++ be_bytes 8 now

    abbrev b₁ : ByteBuf
    b₁ = (ops.buf_write_be32 b₀ ((length bytes + 8 + 8 + 1) % 2 ^ 32)).1

    abbrev b₂ : ByteBuf
    b₂ = (ops.buf_write_be64 b₁ id).1

    abbrev b₃ : ByteBuf
    b₃ = (ops.buf_write_be64 b₂ now).1

    abbrev b₄ : ByteBuf
    b₄ = (ops.buf_write b₃ bytes).1

    length-numbered : length numbered ≡ 12
    length-numbered = omega (
      arith,
      length-append {0} head (be_bytes 8 id),
      length-be_bytes 4 ((length bytes + 8 + 8 + 1) % 2 ^ 32),
      length-be_bytes 8 id,
    )

    length-stamped : length stamped ≡ 20
    length-stamped =
        omega (
          arith,
          length-append {0} numbered (be_bytes 8 now),
          length-numbered,
          length-be_bytes 8 now,
        )

    empty_buffer : Filled size [] b₀
    empty_buffer = record {
      holds = rw (known.empty _ b₀ there) refl;
      len = known.empty _ b₀ there;
      size = known.size _ b₀ there;
      storage = known.storage _ b₀ there;
    }

    length_written : Wrote size head (ops.buf_write_be32 b₀ ((length bytes + 8 + 8 + 1) % 2 ^ 32))
    length_written =
        write_number-Filled 4 _ (laws.write_be32 b₀ _) empty_buffer (omega arith) (omega arith)

    id_written : Wrote size numbered (ops.buf_write_be64 b₁ id)
    id_written =
        write_number-Filled 8 id (laws.write_be64 b₁ id) length_written.1 (omega arith)
          (omega (arith, length-be_bytes 4 ((length bytes + 8 + 8 + 1) % 2 ^ 32)))

    time_written : Wrote size stamped (ops.buf_write_be64 b₂ now)
    time_written =
        write_number-Filled 8 now (laws.write_be64 b₂ now) id_written.1 (omega arith)
          (omega (arith, length-numbered))

    bytes_written : Wrote size (stamped ++ bytes) (ops.buf_write b₃ bytes)
    bytes_written = write-Filled bytes time_written.1 (omega arith) (omega (arith, length-stamped))

    end_written : Wrote size ((stamped ++ bytes) ++ be_bytes 1 0) (ops.buf_write_u8 b₄ 0)
    end_written =
        write_number-Filled 1 0 (laws.write_u8 b₄ 0) bytes_written.1 (omega arith)
          (omega (arith, length-stamped, length-append {0} stamped bytes))

    regrouped : (stamped ++ bytes) ++ be_bytes 1 0 ≡ message_bytes id now bytes
    unfolding message_bytes
    regrouped =
        ap
          (λ (k : ℕ).
            (((be_bytes 4 k ++ be_bytes 8 id) ++ be_bytes 8 now) ++ bytes) ++ be_bytes 1 0)
          {x = (length bytes + 8 + 8 + 1) % 2 ^ 32} {y = length bytes + 17} (omega arith)
        ∙ simp (append_assoc)

    -- Where there is memory, the bytes are those of the message.
    pub frame_lem : frame ops alloc id now bytes ≡ some (message_bytes id now bytes)
    unfolding frame
    frame_lem = ground (
      arith, there, length_written.0, id_written.0, time_written.0, end_written.1.holds, regrouped,
    )

-- The bytes that are made are always those of the message.
pub frame-eq_some :
    (ops : ByteOps) (laws : IsByteOps ops) (alloc : ℕ → Option ByteBuf) (known : IsAlloc alloc)
    (id now : ℕ) (bytes out : List ℕ)
    → length bytes < 2 ^ 31
    → frame ops alloc id now bytes ≡ some out
    → out ≡ message_bytes id now bytes
frame-eq_some ops laws alloc known id now bytes out small e =
    elim (Option-cases (alloc (length bytes + 4 + 8 + 8 + 1))) [
      | inl missing ↦ absurd (none-ne-some (sym (frame_none missing) ∙ e))
      | inr (b, there) ↦ unwrap (sym e ∙ frame_lem ops laws alloc known id now bytes small there)
    ]
  where
    frame_none : alloc (length bytes + 4 + 8 + 8 + 1) ≡ none → frame ops alloc id now bytes ≡ none
    frame_none missing = unfold frame in ground (arith, missing)

    none-ne-some : none ≢ some out
    none-ne-some p = cc

    unwrap : some out ≡ some (message_bytes id now bytes) → out ≡ message_bytes id now bytes
    unwrap p = cc

-- The length of a message.
module _ (id at : ℕ) (bytes : List ℕ) where
  pub length-message_bytes : length (message_bytes id at bytes) ≡ length bytes + 21
  unfolding message_bytes
  length-message_bytes = omega (
    arith,
    length-append {0} (be_bytes 4 (length bytes + 17))
        (be_bytes 8 id ++ (be_bytes 8 at ++ (bytes ++ be_bytes 1 0))),
    length-append {0} (be_bytes 8 id) (be_bytes 8 at ++ (bytes ++ be_bytes 1 0)),
    length-append {0} (be_bytes 8 at) (bytes ++ be_bytes 1 0),
    length-append {0} bytes (be_bytes 1 0),
    length-be_bytes 4 (length bytes + 17),
    length-be_bytes 8 id,
    length-be_bytes 8 at,
    length-be_bytes 1 0,
  )

-- The connection after a message was made.
abbrev pub sent : Connection → Connection
sent c = record c { state = (ready_to_write c.state).1; current_msg_id = add64 c.current_msg_id 1 }

module _ (ops : ByteOps) (alloc : ℕ → Option ByteBuf) (now : ℕ) (a : Answers) (c c' : Connection)
    (x : ℕ) (xs out : List ℕ) where
  -- A message that libuv took.
  pub write_begin_sent :
      write_begin ops alloc now a (some c) (some (x ∷ xs)) ≡ (some out, false, some c')
      → (frame ops alloc (add64 c.current_msg_id 1) now (x ∷ xs) ≡ some out) × (c' ≡ sent c)
  unfolding write_begin
  write_begin_sent e = ground arith
