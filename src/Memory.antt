-- ===== src/Memory.antt =====
-- TN_MEM_ACQUIRE as the modules see it: NULL, or memory of at least the size that was asked for,
-- holding whatever it holds.
use tcpeen.Base.{ℕ, ◌*◌, ◌≤◌, ◌≡◌, Bool, true, Option, some, List, length}

-- `bytes n` and `words n` are the memory of n bytes, by bytes and by words of 8; `structs n` tells
-- whether there are n bytes for structs that the caller fills in itself.
pub record Memory : Type 0 where
  pub bytes : ℕ → Option (List ℕ)
  pub words : ℕ → Option (List ℕ)
  pub structs : ℕ → Bool

pub record IsMemory (mem : Memory) : Type 0 where
  pub bytes_lem : (n : ℕ) (m : List ℕ) → mem.bytes n ≡ some m → n ≤ length m
  pub words_lem : (n : ℕ) (m : List ℕ) → mem.words n ≡ some m → n ≤ 8 * length m

-- Every call is given memory.
pub record IsPlenty (mem : Memory) : Type 0 where
  pub bytes_there : (n : ℕ) → (m : List ℕ) × (mem.bytes n ≡ some m)
  pub words_there : (n : ℕ) → (m : List ℕ) × (mem.words n ≡ some m)
  pub structs_there : (n : ℕ) → mem.structs n ≡ true
