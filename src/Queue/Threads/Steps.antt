-- ===== src/Queue/Threads/Steps.antt =====
-- The invariant is kept by every access of either thread.
use tcpeen.Base.{
  ℕ, ◌≤◌, ◌<◌, ◌≡◌, ◌≢◌, refl, sym, ap, ap₂, subst, ◌∙◌, [], ◌∷◌, ◌++◌, length, length-set, get_or,
  get_or-set_self, set, add64, sub64, arith,
}
use native.Mathlib.Nat.{mod-eq_of_lt}
use mathlib.Core.List.{append_assoc, append-nil}
use tcpeen.Queue.{slot}
use tcpeen.Queue.Inv.{capacity_bounds, slot-lt}
use tcpeen.Queue.Refine.{contents}
use tcpeen.Queue.Threads.{
  Producer, idle, loaded_tail, written, Consumer, resting, loaded_both, copied, System, PushStep,
  PopStep, Step, pushes, pops, push_begins, push_loads, push_full, push_writes, push_ends,
  pop_begins, pop_loads, pop_empty, pop_copies, pop_ends,
}
use tcpeen.Queue.Threads.Inv.{ProducerKnows, ConsumerKnows, Inv}
use tcpeen.Queue.Threads.Contents.{write-contents, publish-contents, remove-contents, copied-take}
use tcpeen.Queue.Threads.Knows.{consumer_grows, head_grows, producer_drains}

module _ {k : ℕ} {s : System} (w : Inv k s) where
  open s use {mem, producer, consumer, seen_tail, seen_head}

  pub local_head : {p : Producer} → producer ≡ p → ProducerKnows mem seen_tail p
  local_head e = subst (ProducerKnows mem seen_tail) e w.producer_knows

  pub local_tail : {c : Consumer} → consumer ≡ c → ConsumerKnows mem seen_head c
  local_tail e = subst (ConsumerKnows mem seen_head) e w.consumer_knows

  -- The producer has seen that there is room.
  pub has_room :
      {ptr head tail : ℕ}
      → producer ≡ loaded_tail ptr head tail
      → sub64 head tail ≢ mem.capacity
      → sub64 mem.head seen_tail < mem.capacity
  has_room e ne = omega (arith, local_head e, w.tail_behind)

  write-Inv :
      (ptr head tail : ℕ)
      → producer ≡ loaded_tail ptr head tail
      → sub64 head tail ≢ mem.capacity
      → Inv k (record s {
        mem = record mem { buffer = set mem.buffer (slot mem head) ptr };
        producer = written ptr head;
      })
  write-Inv ptr head tail e ne =
      let (own, _) = local_head e in
      let room : sub64 mem.head mem.tail < mem.capacity =
        omega (arith, has_room e ne, w.tail_behind) in
      let same : contents (record mem { buffer = set mem.buffer (slot mem head) ptr })
          ≡ contents mem =
        subst
          (λ h. contents (record mem { buffer = set mem.buffer (slot mem h) ptr }) ≡ contents mem)
          (sym own) (write-contents w.valid ptr room) in
      record {
        valid = ground (arith, w.valid, length-set mem.buffer (slot mem head) ptr);
        ordered = w.ordered ∙ ap (λ c. s.taken ++ c) (sym same);
        tail_behind = w.tail_behind;
        head_behind = w.head_behind;
        producer_knows =
            (own, has_room e ne, get_or-set_self mem.buffer (slot mem head) ptr 0 in_range);
        consumer_knows =
            consumer_grows mem (record mem { buffer = set mem.buffer (slot mem head) ptr }) []
              seen_head consumer refl (same ∙ sym (append-nil (contents mem))) w.head_behind
              w.consumer_knows;
      }
    where
      in_range : slot mem head < length mem.buffer
      in_range =
          subst (λ h. slot mem h < length mem.buffer)
            (mod-eq_of_lt w.valid.head_word ∙ sym (local_head e).0) (slot-lt w.valid mem.head)

  publish-Inv :
      (ptr head : ℕ)
      → producer ≡ written ptr head
      → Inv k (record s {
        mem = record mem { head = add64 head 1 };
        producer = idle;
        sent = s.sent ++ ptr ∷ [];
      })
  publish-Inv ptr head e =
      let (own, room, there) = local_head e in
      let grown : contents (record mem { head = add64 head 1 }) ≡ contents mem ++ ptr ∷ [] =
        ap (λ h. contents (record mem { head = add64 h 1 })) own
        ∙ publish-contents w.valid ptr (omega (arith, room, w.tail_behind))
            (ap (λ h. get_or mem.buffer (slot mem h) 0) (sym own) ∙ there) in
      record {
        valid = ground (arith, w.valid, w.tail_behind, capacity_bounds w.valid);
        ordered =
            ap (λ xs. xs ++ ptr ∷ []) w.ordered
            ∙ append_assoc s.taken (contents mem) (ptr ∷ [])
            ∙ ap (λ c. s.taken ++ c) (sym grown);
        tail_behind = (
          omega (arith, own, room, w.valid, w.tail_behind, capacity_bounds w.valid),
          omega (arith, own, room, w.valid, w.tail_behind, capacity_bounds w.valid),
          w.tail_behind.2,
        );
        head_behind =
            head_grows mem (record mem { head = add64 head 1 }) (ptr ∷ []) seen_head refl grown
              w.head_behind;
        producer_knows = tt;
        consumer_knows =
            consumer_grows mem (record mem { head = add64 head 1 }) (ptr ∷ []) seen_head consumer
              refl grown w.head_behind w.consumer_knows;
      }

  copy-Inv :
      (tail head : ℕ)
      → consumer ≡ loaded_both tail head
      → head ≢ tail
      → Inv k (record s { consumer = copied tail (get_or mem.buffer (slot mem tail) 0) })
  copy-Inv tail head e ne =
      let (own, seen) = local_tail e in
      let some_left : 1 ≤ sub64 seen_head mem.tail =
        omega (arith, own, seen, w.valid, w.head_behind, ne) in
      record {
        valid = w.valid;
        ordered = w.ordered;
        tail_behind = w.tail_behind;
        head_behind = w.head_behind;
        producer_knows = w.producer_knows;
        consumer_knows = (
          own,
          some_left,
          ap (λ t. get_or mem.buffer (slot mem t) 0 ∷ []) (own ∙ in_word)
              ∙ sym (copied-take w.valid 0 (omega (arith, some_left, w.head_behind))),
        );
      }
    where
      in_word : mem.tail ≡ add64 mem.tail 0
      in_word = omega (arith, w.valid)

  remove-Inv :
      (tail out : ℕ)
      → consumer ≡ copied tail out
      → Inv k (record s {
        mem = record mem { tail = add64 tail 1 };
        consumer = resting;
        taken = s.taken ++ out ∷ [];
      })
  remove-Inv tail out e =
      let (own, within, same) = local_tail e in
      let there : 1 ≤ sub64 mem.head mem.tail = omega (arith, within, w.head_behind) in
      let rest : contents mem ≡ out ∷ contents (record mem { tail = add64 tail 1 }) =
        remove-contents w.valid 1 there
        ∙ ap₂ (λ xs t. xs ++ contents (record mem { tail = add64 t 1 })) (sym same) (sym own) in
      record {
        valid = ground (arith, w.valid, there, capacity_bounds w.valid);
        ordered =
            w.ordered
            ∙ ap (λ c. s.taken ++ c) rest
            ∙ sym (append_assoc s.taken (out ∷ []) (contents (record mem { tail = add64 tail 1 })));
        tail_behind = (
          omega (arith, own, there, w.valid, w.tail_behind, capacity_bounds w.valid),
          w.tail_behind.1,
          w.tail_behind.2,
        );
        head_behind = (
          omega (arith, own, within, there, w.valid, w.head_behind, capacity_bounds w.valid),
          w.head_behind.1,
        );
        producer_knows = producer_drains mem (add64 tail 1) seen_tail producer w.producer_knows;
        consumer_knows = tt;
      }

  push-Inv : {t : System} → PushStep s t → Inv k t
  push-Inv (push_begins ptr e) = record {
    valid = w.valid;
    ordered = w.ordered;
    tail_behind = w.tail_behind;
    head_behind = w.head_behind;
    producer_knows = refl;
    consumer_knows = w.consumer_knows;
  }
  push-Inv (push_loads ptr head tail e word new old) = record {
    valid = w.valid;
    ordered = w.ordered;
    tail_behind =
        rw (← (local_head e)) (new, omega (arith, old, w.tail_behind, local_head e), word);
    head_behind = w.head_behind;
    producer_knows = (local_head e, refl);
    consumer_knows = w.consumer_knows;
  }
  push-Inv (push_full ptr head tail e full) = record {
    valid = w.valid;
    ordered = w.ordered;
    tail_behind = w.tail_behind;
    head_behind = w.head_behind;
    producer_knows = tt;
    consumer_knows = w.consumer_knows;
  }
  push-Inv (push_writes ptr head tail e ne) = write-Inv ptr head tail e ne
  push-Inv (push_ends ptr head e) = publish-Inv ptr head e

  pop-Inv : {t : System} → PopStep s t → Inv k t
  pop-Inv (pop_begins e) = record {
    valid = w.valid;
    ordered = w.ordered;
    tail_behind = w.tail_behind;
    head_behind = w.head_behind;
    producer_knows = w.producer_knows;
    consumer_knows = refl;
  }
  pop-Inv (pop_loads tail head e word old new) = record {
    valid = w.valid;
    ordered = w.ordered;
    tail_behind = w.tail_behind;
    head_behind = (omega (arith, new, local_tail e), word);
    producer_knows = w.producer_knows;
    consumer_knows = (local_tail e, refl);
  }
  pop-Inv (pop_empty tail head e none_left) = record {
    valid = w.valid;
    ordered = w.ordered;
    tail_behind = w.tail_behind;
    head_behind = w.head_behind;
    producer_knows = w.producer_knows;
    consumer_knows = tt;
  }
  pop-Inv (pop_copies tail head e ne) = copy-Inv tail head e ne
  pop-Inv (pop_ends tail out e) = remove-Inv tail out e

  -- One access of either thread keeps the invariant.
  pub Step-Inv : {t : System} → Step s t → Inv k t
  Step-Inv (pushes step) = push-Inv step
  Step-Inv (pops step) = pop-Inv step
