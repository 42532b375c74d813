-- ===== src/Queue/Threads/Safety.antt =====
-- What the invariant means for the pointers and for the places of the ring.
use tcpeen.Base.{ℕ, ◌+◌, ◌%◌, ◌^◌, ◌≤◌, ◌≡◌, ◌≢◌, refl, sym, ap, ◌∙◌, ◌++◌, length, sub64, arith}
use tcpeen.Base.Words.{mod-add-ne}
use tcpeen.Queue.{Queue, slot}
use tcpeen.Queue.Inv.{IsValid, slot-mod}
use tcpeen.Queue.Refine.{contents, head-slot}
use tcpeen.Queue.Threads.{loaded_tail, loaded_both, System, init, Reach, here, next}
use tcpeen.Queue.Threads.Inv.{Inv}
use tcpeen.Queue.Threads.Contents.{size}
use tcpeen.Queue.Threads.Steps.{local_head, local_tail, has_room, Step-Inv}

init-Inv : (k : ℕ) (q : Queue) → IsValid k q → Inv k (init q)
init-Inv k q v = record {
  valid = v;
  ordered = refl;
  tail_behind = (omega arith, v.fits, v.tail_word);
  head_behind = (omega arith, v.head_word);
  producer_knows = tt;
  consumer_knows = tt;
}

pub Reach-Inv : {k : ℕ} {q : Queue} {s : System} → IsValid k q → Reach q s → Inv k s
Reach-Inv {k} {q} v here = init-Inv k q v
Reach-Inv v (next r st) = Step-Inv (Reach-Inv v r) st

-- In every state that the pushes of a producer and the pops of a consumer (`pop_back`) can reach from a
-- valid queue, what has been taken and then what the queue holds is what has been sent, in order, and
-- the queue holds at most its capacity.
pub sent_in_order :
    {k : ℕ} {q : Queue} {s : System}
    → IsValid k q
    → Reach q s
    → (s.sent ≡ s.taken ++ contents s.mem) × (length (contents s.mem) ≤ s.mem.capacity)
sent_in_order {k} {q} {s} v r =
    let w = Reach-Inv v r in (w.ordered, omega (arith, w.valid, size s.mem))

-- No race on a place of the ring: in every such state, where the producer is about to write and the
-- consumer is about to read, they are at different places.
pub places_apart :
    {k : ℕ} {q : Queue} {s : System} {ptr head tail own seen : ℕ}
    → IsValid k q
    → Reach q s
    → s.producer ≡ loaded_tail ptr head tail
    → sub64 head tail ≢ s.mem.capacity
    → s.consumer ≡ loaded_both own seen
    → seen ≢ own
    → slot s.mem head ≢ slot s.mem own
places_apart {s = s} {head = head} {own = own} v r e ne c more same =
    let w = Reach-Inv v r in
    let (ours, _) = local_head w e in
    let (theirs, loaded) = local_tail w c in
    let room = has_room w e ne in
    let q = s.mem in
    let gap : ℕ = sub64 q.head q.tail in
    let there : slot q own ≡ q.tail % q.capacity =
      ap (slot q) (theirs ∙ tail_word w) ∙ slot-mod w.valid q.tail in
    let here : slot q head ≡ (q.tail + gap) % q.capacity = ap (slot q) ours ∙ head-slot w.valid in
    mod-add-ne q.capacity q.tail gap (omega (arith, theirs, loaded, w.valid, w.head_behind, more))
      (omega (arith, room, w.tail_behind)) (sym here ∙ same ∙ there)
  where
    tail_word : {k : ℕ} → Inv k s → s.mem.tail ≡ s.mem.tail % 2 ^ 64
    tail_word w = omega (arith, w.valid)
