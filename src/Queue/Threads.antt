-- ===== src/Queue/Threads.antt =====
-- The producer and the consumer of one queue on two threads, an access of shared memory at a time,
-- in any order: `tn_queue_spsc_push` against `tn_queue_spsc_pop_back` of src/queue_spsc.c. The last
-- store of each is a release, and the load of the other's counter is an acquire: it gives the newest
-- value or an older one, but none older than the thread has seen before, and what was done before that
-- value was stored is then seen too. `tn_queue_spsc_pop_all`, whose last store is relaxed, is not among
-- the calls here.
pub mod Inv
pub mod Contents
pub mod Knows
pub mod Steps
pub mod Safety
pub mod Tests
use tcpeen.Base.{ℕ, ◌^◌, ◌+◌, ◌≤◌, ◌<◌, ◌≡◌, ◌≢◌, List, [], ◌∷◌, ◌++◌, get_or, set, add64, sub64}
use tcpeen.Queue.{Queue, slot}
use tcpeen.Queue.Refine.{contents}

-- Where the producer stands in a push, with its local variables.
pub data Producer : Type 0 where
  idle : Producer
  loaded_head : (ptr head : ℕ) → Producer
  loaded_tail : (ptr head tail : ℕ) → Producer
  written : (ptr head : ℕ) → Producer

-- Where the consumer stands in a `pop_back`; `out` is what it has copied.
pub data Consumer : Type 0 where
  resting : Consumer
  loaded_own : (tail : ℕ) → Consumer
  loaded_both : (tail head : ℕ) → Consumer
  copied : (tail out : ℕ) → Consumer

-- `seen_tail` is the tail that the producer has loaded last, `seen_head` the head that the consumer has;
-- `sent` and `taken` are what the two threads have pushed and popped so far, in order.
pub record System : Type 0 where
  pub mem : Queue
  pub producer : Producer
  pub consumer : Consumer
  pub seen_tail : ℕ
  pub seen_head : ℕ
  pub sent : List ℕ
  pub taken : List ℕ

-- One access of the producer.
pub data PushStep (s : System) : System → Type 0 where
  push_begins :
      (ptr : ℕ)
      → s.producer ≡ idle
      → PushStep s (record s { producer = loaded_head ptr s.mem.head })
  push_loads :
      (ptr head tail : ℕ)
      → s.producer ≡ loaded_head ptr head
      → tail < 2 ^ 64
      → sub64 head s.mem.tail ≤ sub64 head tail
      → sub64 head tail ≤ sub64 head s.seen_tail
      → PushStep s (record s { producer = loaded_tail ptr head tail; seen_tail = tail })
  push_full :
      (ptr head tail : ℕ)
      → s.producer ≡ loaded_tail ptr head tail
      → sub64 head tail ≡ s.mem.capacity
      → PushStep s (record s { producer = idle })
  push_writes :
      (ptr head tail : ℕ)
      → s.producer ≡ loaded_tail ptr head tail
      → sub64 head tail ≢ s.mem.capacity
      → PushStep s (record s {
        mem = record (s.mem) { buffer = set s.mem.buffer (slot s.mem head) ptr };
        producer = written ptr head;
      })
  push_ends :
      (ptr head : ℕ)
      → s.producer ≡ written ptr head
      → PushStep s (record s {
        mem = record (s.mem) { head = add64 head 1 };
        producer = idle;
        sent = s.sent ++ ptr ∷ [];
      })

-- One access of the consumer.
pub data PopStep (s : System) : System → Type 0 where
  pop_begins : s.consumer ≡ resting → PopStep s (record s { consumer = loaded_own s.mem.tail })
  pop_loads :
      (tail head : ℕ)
      → s.consumer ≡ loaded_own tail
      → head < 2 ^ 64
      → sub64 s.seen_head tail ≤ sub64 head tail
      → sub64 head tail ≤ sub64 s.mem.head tail
      → PopStep s (record s { consumer = loaded_both tail head; seen_head = head })
  pop_empty :
      (tail head : ℕ)
      → s.consumer ≡ loaded_both tail head
      → head ≡ tail
      → PopStep s (record s { consumer = resting })
  pop_copies :
      (tail head : ℕ)
      → s.consumer ≡ loaded_both tail head
      → head ≢ tail
      → PopStep s (record s { consumer = copied tail (get_or s.mem.buffer (slot s.mem tail) 0) })
  pop_ends :
      (tail out : ℕ)
      → s.consumer ≡ copied tail out
      → PopStep s (record s {
        mem = record (s.mem) { tail = add64 tail 1 };
        consumer = resting;
        taken = s.taken ++ out ∷ [];
      })

-- One access of one thread.
pub data Step (s t : System) : Type 0 where
  pushes : PushStep s t → Step s t
  pops : PopStep s t → Step s t

-- Both threads are between two calls and have seen the counters, and what the queue holds counts as
-- sent.
abbrev pub init : Queue → System
init q = record {
  mem = q;
  producer = idle;
  consumer = resting;
  seen_tail = q.tail;
  seen_head = q.head;
  sent = contents q;
  taken = [];
}

pub data Reach (q : Queue) : System → Type 0 where
  here : Reach q (init q)
  next : {s t : System} → Reach q s → Step s t → Reach q t
