-- ===== src/Pool/Tests.antt =====
-- A pool of two buffers, one of them out.
use tcpeen.Base.{ℕ, ◌≡◌, refl, none, some, [], ◌∷◌, success, error, ◌⊎◌, arith}
use tcpeen.Buffer.Tests.{letter}
use tcpeen.Queue.{Queue}
use tcpeen.Queue.Inv as QueueInv
use tcpeen.Queue.Refine.{contents}
use tcpeen.Pool.{Pool, pop_back}
use tcpeen.Pool.Inv.{IsValid, Hands, pop_back-Hands}

abbrev pub one_free : Queue
one_free = record {
  capacity = 2;
  mask = 1;
  buffer = 1 ∷ 0 ∷ [];
  head = 1;
  tail = 0;
  tail_cache = 0;
}

pub one_free-IsValid : QueueInv.IsValid 1 one_free
one_free-IsValid = record {
  narrow = omega arith;
  power = refl;
  masked = refl;
  storage = omega arith;
  head_word = omega arith;
  tail_word = omega arith;
  fits = omega arith;
}

abbrev pub half : Pool
half = record {
  blocks_inuse = 1;
  bytes_inuse = 9;
  block_size = 9;
  block_count = 2;
  buffers = letter ∷ letter ∷ [];
  free = one_free;
}

pub half-IsValid : IsValid 1 half
half-IsValid = record {
  queue = one_free-IsValid;
  counted = refl;
  bytes = refl;
  sized = refl;
  room = omega arith;
  words = (omega arith, omega arith);
  known = (omega arith, tt);
}

pop_back-Hands_example :
    let (s, out, r) = pop_back half in
    ((contents half.free ≡ []) × (s ≡ error) × (out ≡ none) × (r ≡ half))
    ⊎ ((i : ℕ) × (s ≡ success) × (out ≡ some i) × Hands half-IsValid i r)
pop_back-Hands_example = pop_back-Hands half-IsValid
