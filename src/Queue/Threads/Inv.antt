-- ===== src/Queue/Threads/Inv.antt =====
-- What holds between any two accesses of the two threads.
use tcpeen.Base.{
  ℕ, zero, suc, ◌+◌, ◌-◌, ◌%◌, ◌^◌, ◌≤◌, ◌<◌, ◌≡◌, ◌≢◌, refl, sym, ap, ap₂, ◌∙◌, List, [], ◌∷◌,
  ◌++◌, take, get_or, get_or-set_ne, set, sub64, arith,
}
use tcpeen.Base.Words.{mod-add-ne}
use tcpeen.Queue.{Queue, slot}
use tcpeen.Queue.Inv.{IsValid}
use tcpeen.Queue.Refine.{contents, window}
use tcpeen.Queue.Threads.{
  Producer, idle, loaded_head, loaded_tail, written, Consumer, resting, loaded_own, loaded_both,
  copied, System,
}

-- What the locals of the producer say of the memory, and of the tail that it has seen last.
abbrev pub ProducerKnows : Queue → ℕ → Producer → Type 0
ProducerKnows q seen idle = Unit {0}
ProducerKnows q seen (loaded_head ptr head) = head ≡ q.head
ProducerKnows q seen (loaded_tail ptr head tail) = (head ≡ q.head) × (tail ≡ seen)
ProducerKnows q seen (written ptr head) =
    (head ≡ q.head) × (sub64 q.head seen < q.capacity) × (get_or q.buffer (slot q head) 0 ≡ ptr)

-- What the locals of the consumer say of it, and of the head that it has seen last.
abbrev pub ConsumerKnows : Queue → ℕ → Consumer → Type 0
ConsumerKnows q seen resting = Unit {0}
ConsumerKnows q seen (loaded_own tail) = tail ≡ q.tail
ConsumerKnows q seen (loaded_both tail head) = (tail ≡ q.tail) × (head ≡ seen)
ConsumerKnows q seen (copied tail out) =
    (tail ≡ q.tail) × (1 ≤ sub64 seen q.tail) × (out ∷ [] ≡ take 1 (contents q))

-- The counters that were seen are behind, and not by more than the ring holds.
abbrev pub TailBehind : Queue → ℕ → Type 0
TailBehind q seen =
    (sub64 q.head q.tail ≤ sub64 q.head seen) × (sub64 q.head seen ≤ q.capacity) × (seen < 2 ^ 64)

abbrev pub HeadBehind : Queue → ℕ → Type 0
HeadBehind q seen = (sub64 seen q.tail ≤ sub64 q.head q.tail) × (seen < 2 ^ 64)

pub record Inv (k : ℕ) (s : System) : Type 0 where
  pub valid : IsValid k s.mem
  pub ordered : s.sent ≡ s.taken ++ contents s.mem
  pub tail_behind : TailBehind s.mem s.seen_tail
  pub head_behind : HeadBehind s.mem s.seen_head
  pub producer_knows : ProducerKnows s.mem s.seen_tail s.producer
  pub consumer_knows : ConsumerKnows s.mem s.seen_head s.consumer

-- A window that ends before a place does not see a write to it.
pub window-set_after :
    (buf : List ℕ) (cap x n m t i : ℕ)
    → 0 < cap
    → n ≤ m
    → m < cap
    → i ≡ (t + m) % cap
    → window (set buf i x) cap t n ≡ window buf cap t n
window-set_after buf cap x zero m t i pos h room e = refl
window-set_after buf cap x (suc n) m t i pos h room e =
    ap₂ ◌∷◌ (get_or-set_ne buf i (t % cap) x 0 apart) (
      window-set_after buf cap x n (m - 1) (t + 1) i pos (omega arith) (omega arith)
        (e ∙ ap (λ j. j % cap) (omega arith)))
  where
    apart : i ≢ t % cap
    apart p = mod-add-ne cap t m (omega arith) room (sym e ∙ p)

pub window-snoc :
    (buf : List ℕ) (cap t n : ℕ)
    → window buf cap t (suc n) ≡ window buf cap t n ++ get_or buf ((t + n) % cap) 0 ∷ []
window-snoc buf cap t zero = ap (λ j. get_or buf (j % cap) 0 ∷ []) (omega arith)
window-snoc buf cap t (suc n) =
    ap (λ w. get_or buf (t % cap) 0 ∷ w)
      (window-snoc buf cap (t + 1) n
        ∙ ap (λ j. window buf cap (t + 1) n ++ get_or buf (j % cap) 0 ∷ []) {x = t + 1 + n}
            {y = t + suc n} (omega arith))
