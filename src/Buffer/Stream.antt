-- ===== src/Buffer/Stream.antt =====
-- What the reads and writes of a buffer do to the stream of pending bytes.
use native.Mathlib.Decide.{dec_lt}
use tcpeen.Base.{
  ◌⊎◌, ℕ, ◌+◌, ◌-◌, ◌≤◌, ◌<◌, ◌≡◌, refl, sym, ap, ◌∙◌, Option, none, some, List, length, take, drop,
  ◌==◌, Bool-cases, inl, inr, success, error, arith,
}
use tcpeen.Bytes.{Cursor, ByteOps, IsByteOps, ReadsNumber}
use tcpeen.Bytes.Slices.{slice, length-slice, take-slice, drop-slice}
use tcpeen.Bytes.Endian.{be_value}
use tcpeen.Buffer.{Buffer, read, read_skip, finish_read}
use tcpeen.Buffer.Inv.{IsValid, pending}

-- The cursor after `n` more bytes.
abbrev pub advanced : ℕ → ℕ → Buffer → Buffer
advanced at n b = record b { pos = record { ptr = some (at + n); len = b.pos.len - n } }

module _ {at : ℕ} {b : Buffer} (v : IsValid at b) where
  pos-eq : b.pos ≡ record { ptr = some at; len = b.pos.len }
  pos-eq = λ i. record { ptr = v.cursor i; len = b.pos.len }

  pub pending-slice : pending b ≡ slice b.buf.buffer at b.pos.len
  pending-slice = rw v.cursor

  pub length-pending : length (pending b) ≡ b.pos.len
  length-pending = rw v.cursor (length-slice b.buf.buffer at b.pos.len (omega (arith, v)))

  pub advanced-IsValid : (n : ℕ) → n ≤ b.pos.len → IsValid (at + n) (advanced at n b)
  advanced-IsValid n h = ground (arith, v)

  pub pending-advanced : (n : ℕ) → n ≤ b.pos.len → pending (advanced at n b) ≡ drop n (pending b)
  pending-advanced n h = rw pending-slice (sym (drop-slice b.buf.buffer at b.pos.len n h))

  module _ (ops : ByteOps) (laws : IsByteOps ops) where
    cursor_read_in :
        (n : ℕ)
        → n ≤ b.pos.len
        → ops.cursor_read b.buf.buffer b.pos n
          ≡ (some (take n (pending b)), record { ptr = some (at + n); len = b.pos.len - n })
    cursor_read_in n h =
        ap (λ c. ops.cursor_read b.buf.buffer c n) pos-eq
        ∙ laws.read_in b.buf.buffer at b.pos.len n (omega (arith, v)) h
        ∙ ap (λ bs. (some bs, record { ptr = some (at + n); len = b.pos.len - n }))
            (sym (rw pending-slice (take-slice b.buf.buffer at b.pos.len n h)))

    -- A read of what is pending hands out its first bytes and removes them.
    pub read_lem :
        (n : ℕ)
        → n ≤ b.pos.len
        → read ops b n ≡ (success, some (take n (pending b)), advanced at n b)
    unfolding read
    read_lem n h = rw (cursor_read_in n h)

    -- A read of more than is pending changes nothing.
    pub read_short : (n : ℕ) → b.pos.len < n → read ops b n ≡ (error, none, b)
    unfolding read
    read_short n h = rw (laws.read_out b.buf.buffer b.pos n h)

    pub number_in :
        (w : ℕ) (f : List ℕ → Cursor → Option ℕ × Cursor)
        → ReadsNumber ops w f
        → w ≤ b.pos.len
        → finish_read b (f b.buf.buffer b.pos)
          ≡ (success, some (be_value 0 (take w (pending b))), advanced at w b)
    number_in w f spec h =
        rw ((spec b.buf.buffer b.pos).0 _ (ap (λ p. p.0) (cursor_read_in w h)), cursor_read_in w h)

    pub number_out :
        (w : ℕ) (f : List ℕ → Cursor → Option ℕ × Cursor)
        → ReadsNumber ops w f
        → b.pos.len < w
        → finish_read b (f b.buf.buffer b.pos) ≡ (error, none, b)
    number_out w f spec h =
        let out = laws.read_out b.buf.buffer b.pos w h in
        rw ((spec b.buf.buffer b.pos).1 (ap (λ p. p.0) out), out)

    -- Skipping over pending bytes removes them; a skip of none, or of too many, is an error and
    -- leaves the stream as it was.
    pub read_skip_lem :
        (n : ℕ)
        → let (s, r) = read_skip ops b n in
          ((0 < n) × (n ≤ b.pos.len) × (s ≡ success) × (r ≡ advanced at n b))
          ⊎ ((n ≡ 0) × (s ≡ error) × (r ≡ advanced at 0 b) × (pending r ≡ pending b))
          ⊎ ((b.pos.len < n) × (s ≡ error) × (r ≡ b))
    unfolding read_skip
    read_skip_lem n = elim (dec_lt b.pos.len n) [
      | yes out ↦
          rw (laws.advance_out b.pos n out, read_skip, laws.advance_out b.pos n out)
            (inr (inr (out, refl, refl)))
      | no fits ↦
          rw (advance_in n (omega arith), read_skip, advance_in n (omega arith))
            (elim (Bool-cases (n == 0)) [
              | inl e ↦
                  let none_read : n ≡ 0 = ground arith in
                  rw e (
                    inr (
                      inl (
                        none_read,
                        refl,
                        ap (λ n. advanced at n b) none_read,
                        rw none_read (pending-advanced 0 (omega arith)),
                      )))
              | inr ne ↦ rw ne (inl (ground arith, omega arith, refl, refl))
            ])
    ]
      where
        advance_in :
            (n : ℕ)
            → n ≤ b.pos.len
            → ops.cursor_advance b.pos n ≡ (
              record { ptr = some at; len = n },
              record { ptr = some (at + n); len = b.pos.len - n },
            )
        advance_in n h =
            ap (λ c. ops.cursor_advance c n) pos-eq
            ∙ laws.advance_in at b.pos.len n (omega (arith, v)) h
