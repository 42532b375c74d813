-- ===== src/Fifo.antt =====
-- What tn_queue_spsc promises: a first-in first-out queue of at most `capacity` pointers.
use tcpeen.Base.{
  ℕ, Option, none, some, List, [], ◌∷◌, ◌++◌, if◌then◌else◌, ◌==◌, length, take, drop, map, min,
  ◌≡◌, ◌≢◌, refl, Status, success, queue_empty, queue_full,
}

abbrev pub Fifo : Type 0
Fifo = List ℕ

unfoldable pub push : ℕ → Fifo → ℕ → Status × Fifo
push capacity q ptr = if length q == capacity then (queue_full, q) else (success, q ++ ptr ∷ [])

unfoldable pub peek : Fifo → Status × Option ℕ
peek [] = (queue_empty, none)
peek (x ∷ q) = (success, some x)

unfoldable pub pop : Fifo → Status × Option ℕ × Fifo
pop [] = (queue_empty, none, [])
pop (x ∷ q) = (success, some x, q)

unfoldable pub pop_all : Fifo → ℕ → Status × List (Option ℕ) × ℕ × Fifo
pop_all [] limit = (queue_empty, [], limit, [])
pop_all (x ∷ q) limit =
    let n = min (length (x ∷ q)) limit in (success, map some (take n (x ∷ q)), n, drop n (x ∷ q))

pub pop_all-some :
    (q : Fifo) (limit : ℕ)
    → length q ≢ 0
    → pop_all q limit ≡ (
      success,
      map some (take (min (length q) limit) q),
      min (length q) limit,
      drop (min (length q) limit) q,
    )
unfolding pop_all
pop_all-some [] limit h = absurd (h refl)
pop_all-some (x ∷ q) limit h = refl

-- The calls of a client, and what each returns: a status and the pointers handed out.
pub data Op : Type 0 where
  put : ℕ → Op
  look remove get : Op
  drain : ℕ → Op

abbrev pub Reply : Type 0
Reply = Status × List (Option ℕ)

module _ (capacity : ℕ) where
  unfoldable pub run : Fifo → List Op → List Reply
  unfolding push peek pop pop_all
  run q [] = []
  run q (put x ∷ ops) = let (s, r) = push capacity q x in (s, []) ∷ run r ops
  run q (look ∷ ops) = let (s, out) = peek q in (s, out ∷ []) ∷ run q ops
  run q (remove ∷ ops) = let (s, out, r) = pop q in (s, []) ∷ run r ops
  run q (get ∷ ops) = let (s, out, r) = pop q in (s, out ∷ []) ∷ run r ops
  run q (drain n ∷ ops) = let (s, outs, count, r) = pop_all q n in (s, outs) ∷ run r ops
