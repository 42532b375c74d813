-- ===== src/Buffer/Tests.antt =====
-- A buffer with a message of two bytes and one byte of the next.
use tcpeen.Base.{◌≤◌, ◌<◌, ◌≡◌, refl, some, [], ◌∷◌, ◌++◌, success, error, ◌⊎◌, arith, take}
use tcpeen.Bytes.Plain.{plain, plain-IsByteOps}
use tcpeen.Buffer.{Buffer, remaining, write_buffer}
use tcpeen.Buffer.Inv.{IsValid, pending}
use tcpeen.Buffer.Copy.{write_buffer_lem}

abbrev pub letter : Buffer
letter = record {
  pool = some 0;
  buf = record { buffer = 0 ∷ 0 ∷ 0 ∷ 2 ∷ 7 ∷ 8 ∷ 9 ∷ 0 ∷ 0 ∷ []; len = 7; capacity = 9 };
  pos = record { ptr = some 0; len = 7 };
}

pub letter-IsValid : IsValid 0 letter
letter-IsValid = record {
  cursor = refl;
  readable = refl;
  within = omega arith;
  storage = omega arith;
  small = omega arith;
}

write_buffer_lem_example :
    let (s, r) = write_buffer plain letter letter 1 in
    ((7 < 1) × (s ≡ error) × (r ≡ letter))
    ⊎ ((1 ≤ 7) × (remaining letter < 1) × (s ≡ error) × (r ≡ letter))
    ⊎ ((1 ≤ 7)
        × (1 ≤ remaining letter)
        × (s ≡ success)
        × (pending r ≡ pending letter ++ take 1 (pending letter)))
write_buffer_lem_example = write_buffer_lem letter-IsValid plain plain-IsByteOps 1 letter-IsValid
