-- ===== src/Buffer/Inv.antt =====
-- A buffer is a stream of bytes: the cursor reads what lies before the write end.
use tcpeen.Base.{ℕ, ◌+◌, ◌≤◌, ◌<◌, ◌≡◌, some, List, length}
use tcpeen.Bytes.{half_word}
use tcpeen.Buffer.{Buffer, bytes_at}

-- `at` is the offset of the read cursor.
pub record IsValid (at : ℕ) (b : Buffer) : Type 0 where
  pub cursor : b.pos.ptr ≡ some at
  pub readable : at + b.pos.len ≡ b.buf.len
  pub within : b.buf.len ≤ b.buf.capacity
  pub storage : b.buf.capacity ≤ length b.buf.buffer
  pub small : b.buf.capacity < half_word

-- The bytes that are written and not yet read.
abbrev pub pending : Buffer → List ℕ
pending b = bytes_at b.buf.buffer b.pos.ptr b.pos.len
