-- ===== src/Queue/Threads/Knows.antt =====
-- What a thread knows stays true while the other one goes on.
use tcpeen.Base.{
  ℕ, zero, suc, ◌≤◌, ◌≡◌, refl, sym, ap, ◌∙◌, List, [], ◌∷◌, ◌++◌, length, length-append, take,
  arith,
}
use tcpeen.Queue.{Queue}
use tcpeen.Queue.Refine.{contents}
use tcpeen.Queue.Threads.{
  Producer, idle, loaded_head, loaded_tail, written, Consumer, resting, loaded_own, loaded_both,
  copied,
}
use tcpeen.Queue.Threads.Inv.{ProducerKnows, ConsumerKnows, HeadBehind}
use tcpeen.Queue.Threads.Contents.{size}

take-prefix : (n : ℕ) (xs ys : List ℕ) → n ≤ length xs → take n (xs ++ ys) ≡ take n xs
take-prefix zero xs ys h = refl
take-prefix (suc n) [] ys h = absurd (omega arith)
take-prefix (suc n) (x ∷ xs) ys h = ap (λ t. x ∷ t) (take-prefix n xs ys (omega arith))

-- What the consumer knows stays true while the producer adds entries behind.
pub consumer_grows :
    (q r : Queue) (more : List ℕ) (seen : ℕ) (c : Consumer)
    → q.tail ≡ r.tail
    → contents r ≡ contents q ++ more
    → HeadBehind q seen
    → ConsumerKnows q seen c
    → ConsumerKnows r seen c
consumer_grows q r more seen resting t e h w = tt
consumer_grows q r more seen (loaded_own tail) t e h w = w ∙ t
consumer_grows q r more seen (loaded_both tail head) t e h w = (w.0 ∙ t, w.1)
consumer_grows q r more seen (copied tail out) t e h w = (
  w.0 ∙ t,
  omega (arith, w, t),
  w.2 ∙ sym (take-prefix 1 (contents q) more (omega (arith, h, w, size q))) ∙ ap (take 1) (sym e),
)

pub head_grows :
    (q r : Queue) (more : List ℕ) (seen : ℕ)
    → q.tail ≡ r.tail
    → contents r ≡ contents q ++ more
    → HeadBehind q seen
    → HeadBehind r seen
head_grows q r more seen t e h =
    (omega (arith, h, t, size q, size r, ap length e, length-append (contents q) more), h.1)

-- What the producer knows stays true while the consumer removes entries in front.
pub producer_drains :
    (q : Queue) (tail seen : ℕ) (p : Producer)
    → ProducerKnows q seen p
    → ProducerKnows (record q { tail = tail }) seen p
producer_drains q tail seen idle w = tt
producer_drains q tail seen (loaded_head ptr head) w = w
producer_drains q tail seen (loaded_tail ptr head t) w = w
producer_drains q tail seen (written ptr head) w = w
