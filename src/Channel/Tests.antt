-- ===== src/Channel/Tests.antt =====
-- A table of two channels, one of them in use, and the letter of the buffer's tests in its buffer.
use tcpeen.Base.{
  ℕ, zero, ◌≤◌, ◌<◌, ◌≡◌, refl, ap, true, none, some, List, [], ◌∷◌, ◌++◌, length, replicate,
  length-replicate, occurs, success, error, ◌⊎◌, arith,
}
use mathlib.Core.Option.{some-injective}
use tcpeen.Memory.{Memory, IsMemory}
use tcpeen.Bytes.Plain.{plain, plain-IsByteOps}
use tcpeen.Bytes.Endian.{be_bytes}
use tcpeen.Buffer.{Buffer, bytes_at}
use tcpeen.Buffer.Tests.{letter, letter-IsValid}
use tcpeen.Queue.Tests.{exactly, exactly-Acquires}
use tcpeen.Channel.{
  Channel, ChannelList, blank, no_list, channel_open, read_header, header, payload, open_channel,
}
use tcpeen.Channel.Read.{Receives, message_lem}
use tcpeen.Channel.Table.{IsValid, open_channel_lem}

abbrev pub reader : Channel
reader = record blank { read_buffer = some 1; state = channel_open; read_state = read_header }

abbrev buffers : List Buffer
buffers = letter ∷ letter ∷ []

letter_received : Receives buffers reader 0 (be_bytes 4 2 ++ (7 ∷ 8 ∷ 9 ∷ []))
unfolding be_bytes
letter_received = record {
  index = 1;
  owner = refl;
  buf = letter;
  there = refl;
  valid = letter-IsValid;
  holds = refl;
}

message_lem_example :
    let (s, n, bs₁, c₁) = header plain buffers reader in
    let (t, out, bs₂, c₂) = payload plain bs₁ c₁ in
    (s ≡ success)
    × (n ≡ 2)
    × (t ≡ success)
    × (c₂.read_state ≡ read_header)
    × (r : Receives bs₂ c₂ 6 (9 ∷ [])) × (bytes_at r.buf.buf.buffer out.ptr out.len ≡ 7 ∷ 8 ∷ [])
message_lem_example =
    message_lem plain plain-IsByteOps buffers reader 0 (7 ∷ 8 ∷ []) (9 ∷ []) letter_received
      (omega arith) (omega arith)

-- Channel 0 is free and channel 1 is in use.
abbrev pub table : ChannelList
table = record {
  client_map = blank ∷ reader ∷ [];
  clients_max = 2;
  client_list_free = record { cells = 0 ∷ 1 ∷ []; capacity = 2; index = 1 };
  client_list_open = no_list;
}

pub table-IsValid : IsValid (1 ∷ []) table
table-IsValid = record {
  free_list = record { storage = omega arith; within = omega arith; word = omega arith };
  free_capacity = refl;
  mapped = refl;
  owned = record { once = λ i. ground arith; sized = refl };
}

open_channel_lem_example :
    let (s, out, r) = open_channel table in
    ((table.client_list_free.index ≡ table.clients_max) × (s ≡ error) × (out ≡ none) × (r ≡ table))
    ⊎ ((i : ℕ) × (s ≡ success)
        × (out ≡ some i)
        × (i < 2)
        × (occurs i (1 ∷ []) ≡ 0)
        × (r.client_map ≡ table.client_map)
        × IsValid (i ∷ 1 ∷ []) r)
open_channel_lem_example = open_channel_lem (1 ∷ []) table table-IsValid

abbrev pub mem : Memory
mem = record { bytes = exactly; words = exactly; structs = λ n. true }

pub mem-IsMemory : IsMemory mem
mem-IsMemory = record { bytes_lem = whole; words_lem = exactly-Acquires }
  where
    whole : (n : ℕ) (m : List ℕ) → exactly n ≡ some m → n ≤ length m
    whole n m e =
        omega (arith, length-replicate n zero, ap length (some-injective (replicate n zero) m e))
