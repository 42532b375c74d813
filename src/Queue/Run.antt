-- ===== src/Queue/Run.antt =====
-- Histories of calls on one queue.
use tcpeen.Base.{ℕ, ◌≡◌, refl, List, [], ◌∷◌, arith}
use tcpeen.Fifo
use tcpeen.Fifo.{Op, Reply, put, look, remove, get, drain}
use tcpeen.Queue.{Queue, push, peek, pop, pop_back, pop_all}
use tcpeen.Queue.Inv.{
  IsValid, push-IsValid, pop-IsValid, pop_back-IsValid, peek-IsValid, pop_all-IsValid,
}
use tcpeen.Queue.Refine.{contents, push_refines, pop_refines, pop_back_refines, peek_refines}
use tcpeen.Queue.Drain.{pop_all_refines}

pub run : Queue → List Op → List Reply
run q [] = []
run q (put x ∷ ops) = let (s, r) = push q x in (s, []) ∷ run r ops
run q (look ∷ ops) = let (s, out, r) = peek q in (s, out ∷ []) ∷ run r ops
run q (remove ∷ ops) = let (s, r) = pop q in (s, []) ∷ run r ops
run q (get ∷ ops) = let (s, out, r) = pop_back q in (s, out ∷ []) ∷ run r ops
run q (drain n ∷ ops) = let (s, outs, count, r) = pop_all q n in (s, outs) ∷ run r ops

capacity-push : (q : Queue) (x : ℕ) → (push q x).1.capacity ≡ q.capacity
unfolding push
capacity-push q x = ground arith

capacity-peek : (q : Queue) → (peek q).2.capacity ≡ q.capacity
unfolding peek
capacity-peek q = ground arith

capacity-pop : (q : Queue) → (pop q).1.capacity ≡ q.capacity
unfolding pop
capacity-pop q = ground arith

capacity-pop_back : (q : Queue) → (pop_back q).2.capacity ≡ q.capacity
unfolding pop_back
capacity-pop_back q = ground arith

capacity-pop_all : (q : Queue) (n : ℕ) → (pop_all q n).3.capacity ≡ q.capacity
unfolding pop_all
capacity-pop_all q n = ground arith

-- Every history of pushes, peeks, pops and bulk pops on a valid queue returns what the bounded
-- FIFO of its contents returns.
pub run_refines :
    (k : ℕ) (ops : List Op) {q : Queue}
    → IsValid k q
    → run q ops ≡ Fifo.run q.capacity (contents q) ops
unfolding run Fifo.run
run_refines k [] v = refl
run_refines k (put x ∷ ops) {q} v =
    rw (run_refines k ops (push-IsValid v x), ← push_refines v x, capacity-push)
run_refines k (look ∷ ops) {q} v =
    rw (run_refines k ops (peek-IsValid v), (peek_refines v).1, capacity-peek, ← (peek_refines v).0)
run_refines k (remove ∷ ops) {q} v =
    rw (run_refines k ops (pop-IsValid v), (pop_refines v).1, capacity-pop, (pop_refines v).0)
run_refines k (get ∷ ops) {q} v =
    rw (run_refines k ops (pop_back-IsValid v), ← pop_back_refines v, capacity-pop_back)
run_refines k (drain n ∷ ops) {q} v =
    rw (run_refines k ops (pop_all-IsValid v n), ← pop_all_refines v n, capacity-pop_all)
