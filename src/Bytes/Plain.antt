-- ===== src/Bytes/Plain.antt =====
-- One implementation of the byte functions that behaves as their header documents, for the tests.
use tcpeen.Base.{
  ℕ, ◌+◌, ◌-◌, ◌≡◌, refl, Bool, true, false, Option, none, some, List, [], length, ltb,
  if◌then◌else◌, arith,
}
use tcpeen.Bytes.{ByteBuf, Cursor, ByteOps, IsByteOps}
use tcpeen.Bytes.Slices.{slice, splice}
use tcpeen.Bytes.Endian.{be_bytes, be_value}

abbrev moved : Option ℕ → ℕ → Option ℕ
moved none n = none
moved (some p) n = some (p + n)

abbrev under : List ℕ → Option ℕ → ℕ → List ℕ
under m none n = []
under m (some p) n = slice m p n

abbrev read : List ℕ → Cursor → ℕ → Option (List ℕ) × Cursor
read m c n =
    if ltb c.len n
    then (none, c)
    else (some (under m c.ptr n), record { ptr = moved c.ptr n; len = c.len - n })

abbrev number : Option (List ℕ) × Cursor → Option ℕ × Cursor
number (none, c) = (none, c)
number (some bs, c) = (some (be_value 0 bs), c)

abbrev write : ByteBuf → List ℕ → Bool × ByteBuf
write b bs =
    if ltb b.capacity (b.len + length bs)
    then (false, b)
    else (true, record b { buffer = splice b.buffer b.len bs; len = b.len + length bs })

abbrev pub plain : ByteOps
plain = record {
  buf_from_empty_array = λ m n. record { buffer = m; len = 0; capacity = n };
  cursor_from_buf = λ b. record { ptr = some 0; len = b.len };
  cursor_advance = λ c n.
      if ltb c.len n
      then (record { ptr = none; len = 0 }, c)
      else (record { ptr = c.ptr; len = n }, record { ptr = moved c.ptr n; len = c.len - n });
  cursor_read = read;
  cursor_read_u8 = λ m c. number (read m c 1);
  cursor_read_be16 = λ m c. number (read m c 2);
  cursor_read_be32 = λ m c. number (read m c 4);
  cursor_read_be64 = λ m c. number (read m c 8);
  buf_write = write;
  buf_write_u8 = λ b x. write b (be_bytes 1 x);
  buf_write_be16 = λ b x. write b (be_bytes 2 x);
  buf_write_be32 = λ b x. write b (be_bytes 4 x);
  buf_write_be64 = λ b x. write b (be_bytes 8 x);
}

number_lem :
    (p : Option (List ℕ) × Cursor)
    → ((bs : List ℕ) → p.0 ≡ some bs → number p ≡ (some (be_value 0 bs), p.1))
      × (p.0 ≡ none → number p ≡ (none, p.1))
number_lem (none, c) = (λ bs e. absurd (ground arith), λ e. refl)
number_lem (some cs, c) = (λ bs e. ground arith, λ e. absurd (ground arith))

pub plain-IsByteOps : IsByteOps plain
plain-IsByteOps = record {
  from_empty_array = λ m n. refl;
  from_buf = λ b. refl;
  advance_in = λ p l n h fits. ground arith;
  advance_out = λ c n out. ground arith;
  read_in = λ m p l n h fits. ground arith;
  read_out = λ m c n out. ground arith;
  read_u8 = λ m c. number_lem (read m c 1);
  read_be16 = λ m c. number_lem (read m c 2);
  read_be32 = λ m c. number_lem (read m c 4);
  read_be64 = λ m c. number_lem (read m c 8);
  write_in = λ b bs h fits. ground arith;
  write_out = λ b bs h out. ground arith;
  write_u8 = λ b x. refl;
  write_be16 = λ b x. refl;
  write_be32 = λ b x. refl;
  write_be64 = λ b x. refl;
}
