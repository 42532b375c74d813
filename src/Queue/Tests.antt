-- ===== src/Queue/Tests.antt =====
-- The queue on a small ring whose counters have wrapped around.
use tcpeen.Base.{
  ℕ, zero, ◌≤◌, ◌<◌, ◌≡◌, refl, ap, Option, some, List, [], ◌∷◌, length, replicate,
  length-replicate, success, arith,
}
use mathlib.Core.Option.{some-injective}
use tcpeen.Fifo
use tcpeen.Fifo.{put, look, remove, get, drain}
use tcpeen.Queue.{Queue, setup}
use tcpeen.Queue.Round.{round_up, IsRounded, round_up-IsRounded}
use tcpeen.Queue.Inv.{IsValid, Acquires, setup-IsValid}
use tcpeen.Queue.Run.{run, run_refines}

-- It holds 40 and then 10.
abbrev pub wrapped : Queue
wrapped = record {
  capacity = 4;
  mask = 3;
  buffer = 10 ∷ 20 ∷ 30 ∷ 40 ∷ [];
  head = 1;
  tail = 18446744073709551615;
  tail_cache = 18446744073709551615;
}

pub wrapped-IsValid : IsValid 2 wrapped
wrapped-IsValid = record {
  narrow = omega arith;
  power = refl;
  masked = refl;
  storage = omega arith;
  head_word = omega arith;
  tail_word = omega arith;
  fits = omega arith;
}

run_refines_example :
    run wrapped (put 5 ∷ get ∷ drain 9 ∷ get ∷ [])
    ≡ Fifo.run 4 (40 ∷ 10 ∷ []) (put 5 ∷ get ∷ drain 9 ∷ get ∷ [])
run_refines_example = run_refines 2 (put 5 ∷ get ∷ drain 9 ∷ get ∷ []) wrapped-IsValid

round_up-IsRounded_example : (k : ℕ) × (k ≤ 63) × IsRounded 5 (round_up 5) k
round_up-IsRounded_example = round_up-IsRounded 5 (omega arith) (omega arith)

-- Memory of just the size that was asked for.
abbrev pub exactly : ℕ → Option (List ℕ)
exactly n = some (replicate n 0)

pub exactly-Acquires : Acquires exactly
exactly-Acquires n m e = omega (arith, length-replicate n zero, same)
  where
    same : length (replicate n zero) ≡ length m
    same = ap length (some-injective (replicate n zero) m e)

abbrev fresh : Queue
fresh = (setup exactly wrapped 3).1

built : setup exactly wrapped 3 ≡ (success, fresh)
unfolding setup
built = refl

setup-IsValid_example :
    (k : ℕ) × IsValid k fresh
    × (3 ≤ fresh.capacity)
    × (fresh.capacity < 6)
    × (fresh.head ≡ 0)
    × (fresh.tail ≡ 0)
setup-IsValid_example =
    setup-IsValid exactly wrapped 3 exactly-Acquires (omega arith) (omega arith) built
