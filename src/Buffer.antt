-- ===== src/Buffer.antt =====
-- src/buffer.c and include/tn/buffer.h: a byte buffer with a write end and a read cursor. The
-- functions of aws-c-common are the parameter `ops`; TN_ASSERT is a precondition.
pub mod Inv
pub mod Stream
pub mod Writes
pub mod Numbers
pub mod Copy
pub mod Tests
use tcpeen.Base.{
  ℕ, ◌+◌, Bool, true, false, Option, none, some, List, [], if◌then◌else◌, ltb, ◌==◌, add64, sub64,
  length, Status, success, error,
}
use tcpeen.Bytes.{ByteBuf, Cursor, ByteOps}
use tcpeen.Bytes.Slices.{slice}

-- `pool` names the pool that the buffer belongs to.
pub record Buffer : Type 0 where
  pub pool : Option ℕ
  pub buf : ByteBuf
  pub pos : Cursor

pub record Span : Type 0 where
  pub ptr : Option ℕ
  pub len : ℕ

-- The bytes under a pointer; NULL has none.
abbrev pub bytes_at : List ℕ → Option ℕ → ℕ → List ℕ
bytes_at m none n = []
bytes_at m (some p) n = slice m p n

pub read_seek : Buffer → Span → Status × Buffer
read_seek b span = (success, record b { pos = record { ptr = span.ptr; len = span.len } })

pub read_reset : Buffer → Buffer
read_reset b = record b { pos = record { ptr = some 0; len = b.buf.len } }

pub write_reset : Buffer → Buffer
unfolding read_reset
write_reset b = read_reset (record b { buf = record (b.buf) { len = 0 } })

pub reset : Buffer → Buffer
unfolding write_reset
reset b = write_reset b

pub get_length : Buffer → ℕ
get_length b = b.buf.len

unfoldable pub read_length : Buffer → ℕ
read_length b = b.pos.len

pub set_length : Buffer → ℕ → Status × Buffer
set_length b len = if ltb (sub64 b.buf.capacity b.buf.len) len then (error, b) else (
  success,
  record b { buf = record (b.buf) { len = len }; pos = record (b.pos) { len = len } },
)

pub add_length : Buffer → ℕ → Status × Buffer
add_length b len = if ltb (sub64 b.buf.capacity b.buf.len) len then (error, b) else (
  success,
  record b {
    buf = record (b.buf) { len = add64 b.buf.len len };
    pos = record (b.pos) { len = add64 b.pos.len len };
  },
)

unfoldable pub remaining : Buffer → ℕ
remaining b = sub64 b.buf.capacity b.buf.len

-- The offset at which the next byte is written.
unfoldable pub write_ptr : Buffer → ℕ
write_ptr b = b.buf.len

abbrev pub read_ptr : Buffer → Option ℕ
read_ptr b = b.pos.ptr

-- A read that hands out a value, and moves the cursor as the library function says.
abbrev pub finish_read {ℓ} : {A : Type ℓ} → Buffer → Option A × Cursor → Status × Option A × Buffer
finish_read b (none, c) = (error, none, record b { pos = c })
finish_read b (some x, c) = (success, some x, record b { pos = c })

-- A write of `n` bytes makes them readable.
abbrev pub finish_write : Buffer → ℕ → Bool × ByteBuf → Status × Buffer
finish_write b n (false, buf) = (error, record b { buf = buf })
finish_write b n (true, buf) =
    (success, record b { buf = buf; pos = record (b.pos) { len = add64 b.pos.len n } })

module _ (ops : ByteOps) where
  pub setup : List ℕ → ℕ → Status × Buffer
  setup src capacity =
      let buf = ops.buf_from_empty_array src capacity in
      (success, record { pool = none; buf = buf; pos = ops.cursor_from_buf buf })

  pub read : Buffer → ℕ → Status × Option (List ℕ) × Buffer
  read b len = finish_read b (ops.cursor_read b.buf.buffer b.pos len)

  pub read_skip : Buffer → ℕ → Status × Buffer
  read_skip b len =
      let (span, rest) = ops.cursor_advance b.pos len in
      let moved : Buffer = record b { pos = rest } in
      elim span.ptr [
        | none ↦ (error, moved)
        | some p ↦ if span.len == 0 then (error, moved) else (success, moved)
      ]

  pub read_u8 : Buffer → Status × Option ℕ × Buffer
  read_u8 b = finish_read b (ops.cursor_read_u8 b.buf.buffer b.pos)

  pub read_be16 : Buffer → Status × Option ℕ × Buffer
  read_be16 b = finish_read b (ops.cursor_read_be16 b.buf.buffer b.pos)

  pub read_be32 : Buffer → Status × Option ℕ × Buffer
  read_be32 b = finish_read b (ops.cursor_read_be32 b.buf.buffer b.pos)

  pub read_be64 : Buffer → Status × Option ℕ × Buffer
  read_be64 b = finish_read b (ops.cursor_read_be64 b.buf.buffer b.pos)

  pub write : Buffer → List ℕ → Status × Buffer
  write b src = finish_write b (length src) (ops.buf_write b.buf src)

  pub write_u8 : Buffer → ℕ → Status × Buffer
  write_u8 b x = finish_write b 1 (ops.buf_write_u8 b.buf x)

  pub write_be16 : Buffer → ℕ → Status × Buffer
  write_be16 b x = finish_write b 2 (ops.buf_write_be16 b.buf x)

  pub write_be32 : Buffer → ℕ → Status × Buffer
  write_be32 b x = finish_write b 4 (ops.buf_write_be32 b.buf x)

  pub write_be64 : Buffer → ℕ → Status × Buffer
  write_be64 b x = finish_write b 8 (ops.buf_write_be64 b.buf x)

  -- Copies into `dst` without moving the cursor of `b`; length 0 means all that can be read.
  pub read_buffer : Buffer → Buffer → ℕ → Status × Buffer
  unfolding write
  read_buffer b dst len =
      if len == 0
      then write dst (bytes_at b.buf.buffer b.pos.ptr b.pos.len)
      else (if ltb b.pos.len len
          then (error, dst)
          else write dst (bytes_at b.buf.buffer b.pos.ptr len))

  pub write_buffer : Buffer → Buffer → ℕ → Status × Buffer
  unfolding read_buffer
  write_buffer b src len = read_buffer src b len
