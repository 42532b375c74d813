-- ===== src/Queue/Threads/Tests.antt =====
-- Both threads on a small ring whose counters have wrapped around.
use tcpeen.Base.{◌≤◌, length, ◌≡◌, ◌≢◌, refl, [], ◌++◌, arith}
use tcpeen.Queue.{slot}
use tcpeen.Queue.Refine.{contents}
use tcpeen.Queue.Tests.{wrapped, wrapped-IsValid}
use tcpeen.Queue.Threads.{
  System, Reach, here, next, push_begins, push_loads, pop_begins, pop_loads, pushes, pops,
  loaded_tail, loaded_both,
}
use tcpeen.Queue.Threads.Safety.{sent_in_order, places_apart}

-- The producer is about to write 5, and the consumer to copy one entry.
abbrev busy : System
busy = record {
  mem = wrapped;
  producer = loaded_tail 5 1 18446744073709551615;
  consumer = loaded_both 18446744073709551615 1;
  seen_tail = 18446744073709551615;
  seen_head = 1;
  sent = contents wrapped;
  taken = [];
}

busy-Reach : Reach wrapped busy
busy-Reach =
    next
      (next
        (next (next here (pushes (push_begins 5 refl))) (
          pushes
            (push_loads 5 1 18446744073709551615 refl (omega arith) (omega arith) (omega arith))))
        (pops (pop_begins refl)))
      (pops (pop_loads 18446744073709551615 1 refl (omega arith) (omega arith) (omega arith)))

sent_in_order_example :
    (contents wrapped ≡ [] ++ contents wrapped) × (length (contents wrapped) ≤ 4)
sent_in_order_example = sent_in_order wrapped-IsValid busy-Reach

places_apart_example : slot wrapped 1 ≢ slot wrapped 18446744073709551615
places_apart_example =
    places_apart wrapped-IsValid busy-Reach refl (λ e. omega (arith, e)) refl
      (λ e. omega (arith, e))
