-- ===== src/Bytes.antt =====
-- The byte buffer and cursor of aws-c-common (deps/aws-c-common/include/aws/common/byte_buf.h),
-- which tn_buffer_t holds: the structs, whose fields src/buffer.c reads and writes, and the functions
-- that it calls. The functions are a parameter, with the behaviour that their header documents.
pub mod Slices
pub mod Endian
pub mod Plain
use tcpeen.Base.{
  ℕ, ◌+◌, ◌-◌, ◌≤◌, ◌<◌, ◌^◌, ◌≡◌, Bool, true, false, Option, none, some, List, length,
}
use Slices.{slice, splice}
use Endian.{be_bytes, be_value}

pub record ByteBuf : Type 0 where
  pub buffer : List ℕ
  pub len : ℕ
  pub capacity : ℕ

-- A pointer into the memory of a buffer is the offset from its first byte; NULL is `none`.
pub record Cursor : Type 0 where
  pub ptr : Option ℕ
  pub len : ℕ

abbrev pub half_word : ℕ
half_word = 2 ^ 63

-- A read returns `none` where the C function returns false. It is given the memory under the cursor.
pub record ByteOps : Type 0 where
  pub buf_from_empty_array : List ℕ → ℕ → ByteBuf
  pub cursor_from_buf : ByteBuf → Cursor
  pub cursor_advance : Cursor → ℕ → Cursor × Cursor
  pub cursor_read : List ℕ → Cursor → ℕ → Option (List ℕ) × Cursor
  pub cursor_read_u8 : List ℕ → Cursor → Option ℕ × Cursor
  pub cursor_read_be16 : List ℕ → Cursor → Option ℕ × Cursor
  pub cursor_read_be32 : List ℕ → Cursor → Option ℕ × Cursor
  pub cursor_read_be64 : List ℕ → Cursor → Option ℕ × Cursor
  pub buf_write : ByteBuf → List ℕ → Bool × ByteBuf
  pub buf_write_u8 : ByteBuf → ℕ → Bool × ByteBuf
  pub buf_write_be16 : ByteBuf → ℕ → Bool × ByteBuf
  pub buf_write_be32 : ByteBuf → ℕ → Bool × ByteBuf
  pub buf_write_be64 : ByteBuf → ℕ → Bool × ByteBuf

-- A number of `w` bytes is read as those bytes in network order.
abbrev pub ReadsNumber : ByteOps → ℕ → (List ℕ → Cursor → Option ℕ × Cursor) → Type 0
ReadsNumber ops w read =
    (m : List ℕ) (c : Cursor)
    → ((bs : List ℕ)
        → (ops.cursor_read m c w).0 ≡ some bs
        → read m c ≡ (some (be_value 0 bs), (ops.cursor_read m c w).1))
      × ((ops.cursor_read m c w).0 ≡ none → read m c ≡ (none, (ops.cursor_read m c w).1))

-- What the header documents. Lengths from SIZE_MAX / 2 on are refused.
pub record IsByteOps (ops : ByteOps) : Type 0 where
  pub from_empty_array :
      (m : List ℕ) (n : ℕ)
      → ops.buf_from_empty_array m n ≡ record { buffer = m; len = 0; capacity = n }
  pub from_buf : (b : ByteBuf) → ops.cursor_from_buf b ≡ record { ptr = some 0; len = b.len }
  pub advance_in :
      (p l n : ℕ)
      → l < half_word
      → n ≤ l
      → ops.cursor_advance (record { ptr = some p; len = l }) n
        ≡ (record { ptr = some p; len = n }, record { ptr = some (p + n); len = l - n })
  pub advance_out :
      (c : Cursor) (n : ℕ)
      → c.len < n
      → ops.cursor_advance c n ≡ (record { ptr = none; len = 0 }, c)
  pub read_in :
      (m : List ℕ) (p l n : ℕ)
      → l < half_word
      → n ≤ l
      → ops.cursor_read m (record { ptr = some p; len = l }) n
        ≡ (some (slice m p n), record { ptr = some (p + n); len = l - n })
  pub read_out : (m : List ℕ) (c : Cursor) (n : ℕ) → c.len < n → ops.cursor_read m c n ≡ (none, c)
  pub read_u8 : ReadsNumber ops 1 ops.cursor_read_u8
  pub read_be16 : ReadsNumber ops 2 ops.cursor_read_be16
  pub read_be32 : ReadsNumber ops 4 ops.cursor_read_be32
  pub read_be64 : ReadsNumber ops 8 ops.cursor_read_be64
  pub write_in :
      (b : ByteBuf) (bs : List ℕ)
      → b.capacity < half_word
      → b.len + length bs ≤ b.capacity
      → ops.buf_write b bs
        ≡ (true, record b { buffer = splice b.buffer b.len bs; len = b.len + length bs })
  pub write_out :
      (b : ByteBuf) (bs : List ℕ)
      → b.capacity < half_word
      → b.capacity < b.len + length bs
      → ops.buf_write b bs ≡ (false, b)
  pub write_u8 : (b : ByteBuf) (x : ℕ) → ops.buf_write_u8 b x ≡ ops.buf_write b (be_bytes 1 x)
  pub write_be16 : (b : ByteBuf) (x : ℕ) → ops.buf_write_be16 b x ≡ ops.buf_write b (be_bytes 2 x)
  pub write_be32 : (b : ByteBuf) (x : ℕ) → ops.buf_write_be32 b x ≡ ops.buf_write b (be_bytes 4 x)
  pub write_be64 : (b : ByteBuf) (x : ℕ) → ops.buf_write_be64 b x ≡ ops.buf_write b (be_bytes 8 x)
