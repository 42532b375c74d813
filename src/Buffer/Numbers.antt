-- ===== src/Buffer/Numbers.antt =====
-- Numbers in network order written to a buffer and read back.
use tcpeen.Base.{
  ℕ, ◌+◌, ◌^◌, ◌%◌, ◌≤◌, ◌<◌, ◌≡◌, refl, sym, ap, subst, ◌∙◌, Option, some, List, ◌++◌, length,
  take, drop, take-append, Bool, Status, success, error, none, arith, length-append,
}
use tcpeen.Bytes.{ByteBuf, Cursor, ByteOps, IsByteOps, ReadsNumber}
use tcpeen.Bytes.Slices.{drop-append}
use tcpeen.Bytes.Endian.{be_bytes, be_value, length-be_bytes, be_value-be_bytes}
use tcpeen.Buffer.{
  Buffer, read_u8, read_be16, read_be32, read_be64, write, write_u8, write_be16, write_be32,
  write_be64, finish_read, finish_write,
}
use tcpeen.Buffer.Inv.{IsValid, pending}
use tcpeen.Buffer.Stream.{advanced, number_in, number_out, length-pending, pending-advanced}
use tcpeen.Buffer.Writes.{Fits, write_lem, pending-appended}

-- A call that succeeds with a value, leaving `rest` to read.
abbrev pub HandsOut {ℓ} : {A : Type ℓ} → A → List ℕ → Status × Option A × Buffer → Type ℓ
HandsOut x rest (s, out, r) = (s ≡ success) × (out ≡ some x) × (pending r ≡ rest)

-- A call that succeeds, leaving `bytes` to read.
abbrev pub Leaves : List ℕ → Status × Buffer → Type 0
Leaves bytes (s, r) = (s ≡ success) × (pending r ≡ bytes)

-- The four widths of a number.
pub data Width : Type 0 where
  u8 be16 be32 be64 : Width

abbrev pub width : Width → ℕ
width u8 = 1
width be16 = 2
width be32 = 4
width be64 = 8

abbrev pub read_number : ByteOps → Width → Buffer → Status × Option ℕ × Buffer
read_number ops u8 b = read_u8 ops b
read_number ops be16 b = read_be16 ops b
read_number ops be32 b = read_be32 ops b
read_number ops be64 b = read_be64 ops b

abbrev pub write_number : ByteOps → Width → Buffer → ℕ → Status × Buffer
write_number ops u8 b x = write_u8 ops b x
write_number ops be16 b x = write_be16 ops b x
write_number ops be32 b x = write_be32 ops b x
write_number ops be64 b x = write_be64 ops b x

module _ {at : ℕ} {b : Buffer} (v : IsValid at b) (ops : ByteOps) (laws : IsByteOps ops) where
  finish_number :
      (w : ℕ) (f : List ℕ → Cursor → Option ℕ × Cursor) (x : ℕ) (rest : List ℕ)
      → ReadsNumber ops w f
      → pending b ≡ be_bytes w x ++ rest
      → HandsOut (x % 256 ^ w) rest (finish_read b (f b.buf.buffer b.pos))
  finish_number w f x rest spec e = rw (number_in v ops laws w f spec enough) (
    refl,
    ap some (ap (be_value 0) first ∙ be_value-be_bytes w x),
    pending-advanced v w enough ∙ last,
  )
    where
      enough : w ≤ b.pos.len
      enough = omega (
        arith,
        ap length e,
        length-pending v,
        length-append {0} (be_bytes w x) rest,
        length-be_bytes w x,
      )

      first : take w (pending b) ≡ be_bytes w x
      first = rw e (
          subst (λ k. take k (be_bytes w x ++ rest) ≡ be_bytes w x) (length-be_bytes w x)
            (take-append (be_bytes w x) rest))

      last : drop w (pending b) ≡ rest
      last = rw e (
          subst (λ k. drop k (be_bytes w x ++ rest) ≡ rest) (length-be_bytes w x)
            (drop-append (be_bytes w x) rest))

  -- A number that was written in network order is read back, cut to its width, and the bytes
  -- behind it stay to be read.
  read_numbers :
      (x : ℕ) (rest : List ℕ)
      → (pending b ≡ be_bytes 1 x ++ rest → HandsOut (x % 2 ^ 8) rest (read_u8 ops b))
        × (pending b ≡ be_bytes 2 x ++ rest → HandsOut (x % 2 ^ 16) rest (read_be16 ops b))
        × (pending b ≡ be_bytes 4 x ++ rest → HandsOut (x % 2 ^ 32) rest (read_be32 ops b))
        × (pending b ≡ be_bytes 8 x ++ rest → HandsOut (x % 2 ^ 64) rest (read_be64 ops b))
  unfolding read_u8 read_be16 read_be32 read_be64
  read_numbers x rest = (
    finish_number 1 ops.cursor_read_u8 x rest laws.read_u8,
    finish_number 2 ops.cursor_read_be16 x rest laws.read_be16,
    finish_number 4 ops.cursor_read_be32 x rest laws.read_be32,
    finish_number 8 ops.cursor_read_be64 x rest laws.read_be64,
  )

  append_number :
      (w x : ℕ) (f : ByteBuf → ℕ → Bool × ByteBuf)
      → ((c : ByteBuf) (x : ℕ) → f c x ≡ ops.buf_write c (be_bytes w x))
      → b.buf.len + w ≤ b.buf.capacity
      → Leaves (pending b ++ be_bytes w x) (finish_write b w (f b.buf x))
  append_number w x f spec h =
      subst (Leaves (pending b ++ be_bytes w x)) (sym same) (
        rw (write_lem v ops laws (be_bytes w x) fits)
          (refl, pending-appended v (be_bytes w x) fits))
    where
      fits : Fits (be_bytes w x) b
      fits = omega (arith, length-be_bytes w x)

      same : finish_write b w (f b.buf x) ≡ write ops b (be_bytes w x)
      same = unfold write in rw (spec b.buf x, length-be_bytes w x)

  write_numbers :
      (x : ℕ)
      → (b.buf.len + 1 ≤ b.buf.capacity → Leaves (pending b ++ be_bytes 1 x) (write_u8 ops b x))
        × (b.buf.len + 2 ≤ b.buf.capacity → Leaves (pending b ++ be_bytes 2 x) (write_be16 ops b x))
        × (b.buf.len + 4 ≤ b.buf.capacity → Leaves (pending b ++ be_bytes 4 x) (write_be32 ops b x))
        × (b.buf.len + 8 ≤ b.buf.capacity → Leaves (pending b ++ be_bytes 8 x) (write_be64 ops b x))
  unfolding write_u8 write_be16 write_be32 write_be64
  write_numbers x = (
    append_number 1 x ops.buf_write_u8 laws.write_u8,
    append_number 2 x ops.buf_write_be16 laws.write_be16,
    append_number 4 x ops.buf_write_be32 laws.write_be32,
    append_number 8 x ops.buf_write_be64 laws.write_be64,
  )

  -- The four bytes of a length are read as a number; fewer are left alone.
  pub read_be32_in :
      4 ≤ b.pos.len
      → read_be32 ops b ≡ (success, some (be_value 0 (take 4 (pending b))), advanced at 4 b)
  unfolding read_be32
  read_be32_in h = number_in v ops laws 4 ops.cursor_read_be32 laws.read_be32 h

  pub read_be32_out : b.pos.len < 4 → read_be32 ops b ≡ (error, none, b)
  unfolding read_be32
  read_be32_out h = number_out v ops laws 4 ops.cursor_read_be32 laws.read_be32 h

  pub read_be64_in :
      8 ≤ b.pos.len
      → read_be64 ops b ≡ (success, some (be_value 0 (take 8 (pending b))), advanced at 8 b)
  unfolding read_be64
  read_be64_in h = number_in v ops laws 8 ops.cursor_read_be64 laws.read_be64 h

  pub read_be64_out : b.pos.len < 8 → read_be64 ops b ≡ (error, none, b)
  unfolding read_be64
  read_be64_out h = number_out v ops laws 8 ops.cursor_read_be64 laws.read_be64 h

  -- A number of any width is read out of its bytes in network order, which are taken from the stream.
  pub read_number_lem :
      (w : Width) (x : ℕ) (rest : List ℕ)
      → pending b ≡ be_bytes (width w) x ++ rest
      → HandsOut (x % 256 ^ width w) rest (read_number ops w b)
  read_number_lem u8 x rest e = (read_numbers x rest).0 e
  read_number_lem be16 x rest e = (read_numbers x rest).1 e
  read_number_lem be32 x rest e = (read_numbers x rest).2 e
  read_number_lem be64 x rest e = (read_numbers x rest).3 e

  -- A number that fits is appended to the stream as its bytes in network order.
  pub write_number_lem :
      (w : Width) (x : ℕ)
      → b.buf.len + width w ≤ b.buf.capacity
      → Leaves (pending b ++ be_bytes (width w) x) (write_number ops w b x)
  write_number_lem u8 x h = (write_numbers x).0 h
  write_number_lem be16 x h = (write_numbers x).1 h
  write_number_lem be32 x h = (write_numbers x).2 h
  write_number_lem be64 x h = (write_numbers x).3 h
