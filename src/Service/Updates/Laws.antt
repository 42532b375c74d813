-- ===== src/Service/Updates/Laws.antt =====
-- The updates that the main thread acquires in src/tcp_service.c.
use tcpeen.Base.{
  ℕ, suc, min, ◌≡◌, refl, sym, ap, ◌∙◌, ◌⊎◌, inl, inr, Option, some, List, [], ◌∷◌, ◌++◌, map, take,
  take-append, drop, length, Status, success, error,
}
use tcpeen.Events
use tcpeen.Events.{Event, EventList, free_push}
use tcpeen.Events.Inv.{IsValid}
use tcpeen.Events.Laws.{ready_pop_all_lem}
use tcpeen.Queue.Refine.{contents}
use tcpeen.Service.{Service}
use tcpeen.Service.Updates.{acquire}

length-map : (xs : List ℕ) → length (map some xs) ≡ length xs
length-map [] = refl
length-map (x ∷ xs) = ap (λ n. suc n) (length-map xs)

-- Where events are ready, the main thread acquires the oldest ones, in order and at most as many
-- as it has room for: they are the first entries of the array of updates, and are held by it.
-- Where none is ready, the call fails, the count is 0 and the events stay.
pub acquire_lem :
    (k : ℕ) (held : List ℕ) (s : Service)
    → IsValid k held s.events
    → let (r, count, s') = acquire s in
      ((contents s.events.ready ≡ [])
        × (r ≡ error)
        × (count ≡ 0)
        × (s'.event_updates_count ≡ 0)
        × (s'.events ≡ s.events))
      ⊎ ((taken : List ℕ) × (r ≡ success)
          × (count ≡ min (length (contents s.events.ready)) s.buffer_count)
          × (s'.event_updates_count ≡ count)
          × (length taken ≡ count)
          × (take count s'.event_updates ≡ map some taken)
          × (contents s.events.ready ≡ taken ++ contents s'.events.ready)
          × IsValid k (taken ++ held) s'.events)
unfolding acquire
acquire_lem k held s v = elim (ready_pop_all_lem v s.buffer_count) [
  | inl (none_ready, r, outs, same) ↦ rw r (inl (none_ready, refl, refl, refl, same))
  | inr (taken, r, outs, n, least, step, w) ↦
      rw r (inr (taken, refl, least, refl, sym n, first taken outs n, step, w))
]
  where
    popped : Status × List (Option ℕ) × ℕ × EventList
    popped = Events.ready_pop_all s.events s.buffer_count

    first :
        (taken : List ℕ)
        → popped.1 ≡ map some taken
        → popped.2 ≡ length taken
        → take popped.2 (popped.1 ++ drop (length popped.1) s.event_updates) ≡ map some taken
    first taken outs n =
        ap (λ k. take k (popped.1 ++ drop (length popped.1) s.event_updates))
          (n ∙ sym (length-map taken) ∙ ap length (sym outs))
        ∙ take-append popped.1 (drop (length popped.1) s.event_updates)
        ∙ outs
