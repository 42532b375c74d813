-- ===== src/Buffer/Writes.antt =====
-- What the writes of a buffer do to the stream of pending bytes.
use tcpeen.Base.{ℕ, ◌+◌, ◌≤◌, ◌<◌, ◌≡◌, List, ◌++◌, length, add64, success, error, arith}
use tcpeen.Bytes.{ByteOps, IsByteOps}
use tcpeen.Bytes.Slices.{splice, length-splice, slice-splice}
use tcpeen.Buffer.{Buffer, write}
use tcpeen.Buffer.Inv.{IsValid, pending}

-- The buffer after `bs` is written.
abbrev pub appended : List ℕ → Buffer → Buffer
appended bs b = record b {
  buf = record (b.buf) { buffer = splice b.buf.buffer b.buf.len bs; len = b.buf.len + length bs };
  pos = record (b.pos) { len = b.pos.len + length bs };
}

abbrev pub Fits : List ℕ → Buffer → Type 0
Fits bs b = b.buf.len + length bs ≤ b.buf.capacity

module _ {at : ℕ} {b : Buffer} (v : IsValid at b) where
  pub appended-IsValid : (bs : List ℕ) → Fits bs b → IsValid at (appended bs b)
  appended-IsValid bs h =
      ground (arith, v, length-splice b.buf.buffer b.buf.len bs (omega (arith, v)))

  -- Written bytes are appended to the stream.
  pub pending-appended : (bs : List ℕ) → Fits bs b → pending (appended bs b) ≡ pending b ++ bs
  pending-appended bs h =
      rw (v.cursor, ← v.readable) (slice-splice b.buf.buffer at b.pos.len bs (omega (arith, v)))

  -- A write that fits appends its bytes.
  pub write_lem :
      (ops : ByteOps) (laws : IsByteOps ops) (bs : List ℕ)
      → Fits bs b
      → write ops b bs ≡ (success, appended bs b)
  unfolding write
  write_lem ops laws bs h = rw (laws.write_in b.buf bs v.small h, no_wrap)
    where
      no_wrap : add64 b.pos.len (length bs) ≡ b.pos.len + length bs
      no_wrap = omega (arith, v)

  -- A write that does not fit changes nothing.
  pub write_full :
      (ops : ByteOps) (laws : IsByteOps ops) (bs : List ℕ)
      → b.buf.capacity < b.buf.len + length bs
      → write ops b bs ≡ (error, b)
  unfolding write
  write_full ops laws bs h = rw (laws.write_out b.buf bs v.small h)
