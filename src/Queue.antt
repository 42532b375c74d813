-- ===== src/Queue.antt =====
-- src/queue_spsc.c and include/tn/queue_spsc.h: the ring of pointers between one producer and one
-- consumer. The atomics are plain fields here: each call runs alone. A pointer is a number, NULL
-- is `none`, and an array that is NULL is empty.
pub mod Round
pub mod Inv
pub mod Refine
pub mod Drain
pub mod Run
pub mod Cases
pub mod Threads
pub mod Tests
use Prim.Native.Nat.{bit_and, bit_or}
use tcpeen.Base.{
  ℕ, zero, suc, ◌+◌, ◌*◌, ◌/◌, ◌%◌, ◌^◌, Bool, true, false, Option, none, some, List, [], ◌∷◌,
  if◌then◌else◌, ltb, ◌==◌, get_elem?, set, u64_mod, add64, sub64, Status, success, error,
  queue_empty, queue_full,
}
use Round.{round_up}

pub record Queue : Type 0 where
  pub capacity : ℕ
  pub mask : ℕ
  pub buffer : List ℕ
  pub head : ℕ
  pub tail : ℕ
  pub tail_cache : ℕ

-- `acquire n` is the memory of TN_MEM_ACQUIRE(n), in words, with whatever it holds.
unfoldable pub setup : (ℕ → Option (List ℕ)) → Queue → ℕ → Status × Queue
setup acquire q capacity =
    let places = round_up capacity in
    elim (acquire (8 * add64 1 places % u64_mod)) [
      | none ↦ (error, record q { buffer = [] })
      | some memory ↦ (
        success,
        record {
          capacity = places;
          mask = sub64 places 1;
          buffer = memory;
          head = 0;
          tail = 0;
          tail_cache = 0;
        },
      )
    ]

pub cleanup : Queue → Queue
cleanup q = record q { buffer = [] }

pub count : Queue → ℕ
count q = sub64 q.head q.tail

abbrev pub get_capacity : Queue → ℕ
get_capacity q = q.capacity

pub is_empty : Queue → Bool
unfolding count
is_empty q = count q == 0

pub is_full : Queue → Bool
unfolding count
is_full q = count q == q.capacity

-- `q->buffer[i & q->mask]`
abbrev pub slot : Queue → ℕ → ℕ
slot q i = bit_and i q.mask

unfoldable pub push : Queue → ℕ → Status × Queue
push q ptr =
    if sub64 q.head q.tail == q.capacity
    then (queue_full, q)
    else (success, record q { buffer = set q.buffer (slot q q.head) ptr; head = add64 q.head 1 })

pub peek : Queue → Status × Option ℕ × Queue
peek q =
    if q.head == q.tail
    then (queue_empty, none, q)
    else (success, get_elem? q.buffer (slot q q.tail), record q { tail_cache = q.tail })

pub pop : Queue → Status × Queue
pop q = if q.head == q.tail then (queue_empty, q) else (success, record q { tail = add64 q.tail 1 })

unfoldable pub pop_cached : Queue → Queue
pop_cached q = record q { tail = add64 q.tail_cache 1 }

pub pop_back : Queue → Status × Option ℕ × Queue
pop_back q =
    if q.head == q.tail
    then (queue_empty, none, q)
    else (success, get_elem? q.buffer (slot q q.tail), record q { tail = add64 q.tail 1 })

-- The copying loop of `tn_queue_spsc_pop_all`, with `rounds` still to go at offset `off`.
pub copy_out : Queue → ℕ → ℕ → List (Option ℕ)
copy_out q off zero = []
copy_out q off (suc rounds) =
    get_elem? q.buffer (slot q (add64 q.tail off)) ∷ copy_out q (add64 off 1) rounds

-- At most `limit` pointers; the status, the pointers written, the count and the queue.
pub pop_all : Queue → ℕ → Status × List (Option ℕ) × ℕ × Queue
unfolding copy_out
pop_all q limit =
    let size = sub64 q.head q.tail in
    if size == 0
    then (queue_empty, [], limit, q)
    else (let n = if ltb size limit then size else limit in
        (success, copy_out q 0 n, n, record q { tail = add64 q.tail n }))
