-- ===== src/Queue/Threads/Contents.antt =====
-- What the accesses of the two threads do to the contents of the ring.
use tcpeen.Base.{
  ℕ, suc, ◌+◌, ◌-◌, ◌≤◌, ◌<◌, ◌≡◌, sym, ap, ap₂, ◌∙◌, [], ◌∷◌, ◌++◌, length, take, take-append-drop,
  get_or, set, add64, sub64, arith,
}
use tcpeen.Base.Words.{wrap-mod}
use tcpeen.Queue.{Queue, slot}
use tcpeen.Queue.Inv.{IsValid, capacity_bounds, slot-mod}
use tcpeen.Queue.Refine.{contents, window, window-mod, length-window, head-slot}
use tcpeen.Queue.Drain.{take-window, drop-window}
use tcpeen.Queue.Threads.Inv.{window-set_after, window-snoc}

pub size : (q : Queue) → length (contents q) ≡ sub64 q.head q.tail
size q = length-window q.buffer q.capacity q.tail (sub64 q.head q.tail)

module _ {k : ℕ} {q : Queue} (v : IsValid k q) where
  -- The place behind the window takes a pointer.
  pub write-contents :
      (x : ℕ)
      → sub64 q.head q.tail < q.capacity
      → contents (record q { buffer = set q.buffer (slot q q.head) x }) ≡ contents q
  write-contents x room =
      window-set_after q.buffer q.capacity x (sub64 q.head q.tail) (sub64 q.head q.tail) q.tail
        (slot q q.head) (capacity_bounds v).0 (omega arith) room (head-slot v)

  pub publish-contents :
      (x : ℕ)
      → sub64 q.head q.tail < q.capacity
      → get_or q.buffer (slot q q.head) 0 ≡ x
      → contents (record q { head = add64 q.head 1 }) ≡ contents q ++ x ∷ []
  publish-contents x room there =
      ap (window q.buffer q.capacity q.tail) one_more
      ∙ window-snoc q.buffer q.capacity q.tail (sub64 q.head q.tail)
      ∙ ap (λ y. contents q ++ y ∷ []) (ap (λ i. get_or q.buffer i 0) (sym (head-slot v)) ∙ there)
    where
      one_more : sub64 (add64 q.head 1) q.tail ≡ suc (sub64 q.head q.tail)
      one_more = omega (arith, v, capacity_bounds v)

  pub remove-contents :
      (n : ℕ)
      → n ≤ sub64 q.head q.tail
      → contents q ≡ take n (contents q) ++ contents (record q { tail = add64 q.tail n })
  remove-contents n h =
      sym (take-append-drop n (contents q))
      ∙ ap (λ r. take n (contents q) ++ r)
          (drop-window q.buffer q.capacity q.tail n (sub64 q.head q.tail) h ∙ sym left)
    where
      left :
          window q.buffer q.capacity (add64 q.tail n) (sub64 q.head (add64 q.tail n))
          ≡ window q.buffer q.capacity (q.tail + n) (sub64 q.head q.tail - n)
      left =
          ap (window q.buffer q.capacity (add64 q.tail n)) (omega (arith, v, capacity_bounds v))
          ∙ window-mod q.buffer q.capacity (add64 q.tail n) (q.tail + n) (sub64 q.head q.tail - n)
              (rw v.power (wrap-mod k (q.tail + n) (omega (arith, v))))

  -- The next entry that is copied out.
  pub copied-take :
      (n : ℕ)
      → n < sub64 q.head q.tail
      → take (n + 1) (contents q)
        ≡ take n (contents q) ++ get_or q.buffer (slot q (add64 q.tail n)) 0 ∷ []
  copied-take n h =
      take-window q.buffer q.capacity q.tail (n + 1) (sub64 q.head q.tail) (omega arith)
      ∙ ap (window q.buffer q.capacity q.tail) {y = suc n} (omega arith)
      ∙ window-snoc q.buffer q.capacity q.tail n
      ∙ ap₂ (λ xs i. xs ++ get_or q.buffer i 0 ∷ [])
          (sym (take-window q.buffer q.capacity q.tail n (sub64 q.head q.tail) (omega arith)))
          (sym (slot-mod v (q.tail + n)))
