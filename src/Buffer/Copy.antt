-- ===== src/Buffer/Copy.antt =====
-- Copying between buffers, resetting, and bytes that the IO layer writes behind the write end.
use tcpeen.Base.{
  ℕ, ◌+◌, ◌≤◌, ◌<◌, ◌≡◌, refl, sym, List, [], ◌++◌, length, take, add64, sub64, ltb, ◌==◌,
  Bool-cases, inl, inr, ◌⊎◌, length-take, Status, success, error, arith, if◌then◌else◌,
}
use tcpeen.Bytes.{ByteOps, IsByteOps, half_word}
use tcpeen.Bytes.Slices.{slice, take-slice, slice-append}
use native.Mathlib.Decide.{dec_lt}
use tcpeen.Buffer.{
  bytes_at, Buffer, setup, write, reset, read_reset, add_length, remaining, read_buffer,
  write_buffer,
}
use tcpeen.Buffer.Inv.{IsValid, pending}
use tcpeen.Buffer.Stream.{length-pending}
use tcpeen.Buffer.Writes.{Fits, write_lem, write_full, pending-appended}

-- A new buffer over a memory is empty and valid.
pub setup_lem :
    (ops : ByteOps) (m : List ℕ) (n : ℕ)
    → IsByteOps ops
    → n ≤ length m
    → n < half_word
    → let (s, b) = setup ops m n in
      (s ≡ success) × IsValid 0 b × (pending b ≡ []) × (b.buf.len ≡ 0) × (b.buf.capacity ≡ n)
unfolding setup
setup_lem ops m n laws room small =
    rw (laws.from_buf, laws.from_empty_array) (refl, ground arith, refl, refl, refl)

pub capacity-reset : (b : Buffer) → (reset b).buf.capacity ≡ b.buf.capacity
unfolding reset
capacity-reset b = refl

pub len-reset : (b : Buffer) → (reset b).buf.len ≡ 0
unfolding reset
len-reset b = refl

module _ {at : ℕ} {b : Buffer} (v : IsValid at b) where
  -- A reset forgets the stream and frees the whole capacity.
  pub reset_lem :
      IsValid 0 (reset b) × (pending (reset b) ≡ []) × (remaining (reset b) ≡ b.buf.capacity)
  unfolding reset remaining
  reset_lem = (ground (arith, v), refl, omega (arith, v))

  -- Rewinding makes every written byte readable again.
  pub read_reset_lem :
      IsValid 0 (read_reset b) × (pending (read_reset b) ≡ slice b.buf.buffer 0 b.buf.len)
  unfolding read_reset
  read_reset_lem = (ground (arith, v), refl)

  -- Bytes that were stored behind the write end join the stream; a count beyond the free space is
  -- refused and changes nothing.
  pub add_length_lem :
      (n : ℕ)
      → let (s, r) = add_length b n in
        ((n ≤ remaining b)
          × (s ≡ success)
          × IsValid at r
          × (pending r ≡ pending b ++ slice b.buf.buffer b.buf.len n))
        ⊎ ((remaining b < n) × (s ≡ error) × (r ≡ b))
  unfolding add_length remaining
  add_length_lem n = elim (Bool-cases (ltb (sub64 b.buf.capacity b.buf.len) n)) [
    | inl out ↦ rw out (inr (ground arith, refl, refl))
    | inr fits ↦
        let h : n ≤ sub64 b.buf.capacity b.buf.len = ground arith in
        rw fits (inl (h, refl, ground (arith, v), grown (omega (arith, v))))
  ]
    where
      grown :
          b.buf.len + n ≤ b.buf.capacity
          → pending (record b { pos = record (b.pos) { len = add64 b.pos.len n } })
            ≡ pending b ++ slice b.buf.buffer b.buf.len n
      grown h = rw (v.cursor, no_wrap h, ← v.readable) (slice-append b.buf.buffer at b.pos.len n)
        where
          no_wrap : b.buf.len + n ≤ b.buf.capacity → add64 b.pos.len n ≡ b.pos.len + n
          no_wrap h = omega (arith, v)

  pub pending_prefix :
      (m : ℕ) → m ≤ b.pos.len → bytes_at b.buf.buffer b.pos.ptr m ≡ take m (pending b)
  pending_prefix m h = rw v.cursor (sym (take-slice b.buf.buffer at b.pos.len m h))

  -- What a copy of `m` bytes to `dst` may come to.
  abbrev pub Copied : ℕ → Buffer → Status × Buffer → Type 0
  Copied m dst (s, r) =
      ((b.pos.len < m) × (s ≡ error) × (r ≡ dst))
      ⊎ ((m ≤ b.pos.len) × (remaining dst < m) × (s ≡ error) × (r ≡ dst))
      ⊎ ((m ≤ b.pos.len)
          × (m ≤ remaining dst)
          × (s ≡ success)
          × (pending r ≡ pending dst ++ take m (pending b)))

  copy_prefix :
      (ops : ByteOps) (laws : IsByteOps ops) {to : ℕ} {dst : Buffer} (m : ℕ)
      → IsValid to dst
      → m ≤ b.pos.len
      → Copied m dst (write ops dst (bytes_at b.buf.buffer b.pos.ptr m))
  copy_prefix ops laws {to} {dst} m d h =
      rw (pending_prefix m h) (elim (dec_lt (sub64 dst.buf.capacity dst.buf.len) m) [
        | yes out ↦
            rw (write_full d ops laws (take m (pending b)) (omega (arith, d, size)))
              (inr (inl (h, unfold remaining in out, refl, refl)))
        | no fits ↦
            let room : Fits (take m (pending b)) dst = omega (arith, d, size) in
            rw (write_lem d ops laws (take m (pending b)) room) (
              inr (
                inr (
                  h,
                  unfold remaining in omega arith,
                  refl,
                  pending-appended d (take m (pending b)) room,
                )))
      ])
    where
      size : length (take m (pending b)) ≡ m
      size = length-take m (pending b) (omega (arith, length-pending v))

  -- Copying 0 bytes copies all that is pending. A copy of more than is pending, or of more than the
  -- free space, is refused and changes nothing; any other appends the pending bytes in order.
  pub write_buffer_lem :
      (ops : ByteOps) (laws : IsByteOps ops) {to : ℕ} {dst : Buffer} (n : ℕ)
      → IsValid to dst
      → let m = if n == 0 then b.pos.len else n in
        let (s, r) = write_buffer ops dst b n in
        ((b.pos.len < m) × (s ≡ error) × (r ≡ dst))
        ⊎ ((m ≤ b.pos.len) × (remaining dst < m) × (s ≡ error) × (r ≡ dst))
        ⊎ ((m ≤ b.pos.len)
            × (m ≤ remaining dst)
            × (s ≡ success)
            × (pending r ≡ pending dst ++ take m (pending b)))
  unfolding write_buffer read_buffer
  write_buffer_lem ops laws n d = elim (Bool-cases (n == 0)) [
    | inl e ↦ rw e (unfold write in copy_prefix ops laws b.pos.len d (omega arith))
    | inr ne ↦ rw ne (elim (Bool-cases (ltb b.pos.len n)) [
      | inl out ↦ rw out (inl (ground arith, refl, refl))
      | inr fits ↦ rw fits (unfold write in copy_prefix ops laws n d (ground arith))
    ])
  ]

pub capacity-add_length : (b : Buffer) (n : ℕ) → (add_length b n).1.buf.capacity ≡ b.buf.capacity
unfolding add_length
capacity-add_length b n = elim (Bool-cases (ltb (sub64 b.buf.capacity b.buf.len) n)) [
  | inl out ↦ rw out refl
  | inr fits ↦ rw fits refl
]
