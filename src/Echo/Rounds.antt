-- ===== src/Echo/Rounds.antt =====
-- What a round of the loop of the server keeps.
use tcpeen.Base.{
  ℕ, min, ◌≡◌, sym, ap, subst, ◌∙◌, inl, inr, some, List, [], ◌++◌, map, take, length, arith,
}
use tcpeen.Bytes.{ByteOps, IsByteOps}
use tcpeen.Queue.Refine.{contents}
use tcpeen.Events.Inv as EventsInv
use tcpeen.Channel.Table as Table
use tcpeen.Service.{Service}
use tcpeen.Service.Updates.{acquire, release}
use tcpeen.Service.Updates.Laws.{acquire_lem}
use tcpeen.Service.Updates.Release.{acquired_same, acquired_free, release_updates}
use tcpeen.Service.Send.Inv.{IsValid, elsewhere}
use tcpeen.Echo.{handle_all, round}
use tcpeen.Echo.Laws.{handle_all_keeps}

-- What the main thread has acquired: the events `taken`.
record IsAcquired (n : ℕ) (held taken : List ℕ) (s : Service) : Type 0 where
  updates : take (acquire s).1 (acquire s).2.event_updates ≡ map some taken
  counted : (acquire s).2.event_updates_count ≡ (acquire s).1
  least : length taken ≡ min (length (contents s.events.ready)) s.buffer_count
  oldest : contents s.events.ready ≡ taken ++ contents (acquire s).2.events.ready
  events : EventsInv.IsValid n (taken ++ held) (acquire s).2.events

acquired :
    {n : ℕ} {held : List ℕ} (s : Service)
    → EventsInv.IsValid n held s.events
    → (taken : List ℕ) × IsAcquired n held taken s
acquired {n} {held} s v = elim (acquire_lem n held s v) [
  | inl (none_ready, _, count, none_there, same) ↦ (
    [],
    record {
      updates = ap (λ n. take n (acquire s).2.event_updates) count;
      counted = none_there ∙ sym count;
      least = omega (arith, ap length none_ready);
      oldest = sym (ap (λ l. contents l.ready) same);
      events = subst (EventsInv.IsValid n held) (sym same) v;
    },
  )
  | inr (taken, _, least, count, size, updates, oldest, w) ↦ (
    taken,
    record {
      updates = updates;
      counted = count;
      least = size ∙ least;
      oldest = oldest;
      events = w;
    },
  )
]

module _ (ops : ByteOps) (laws : IsByteOps ops) {k m n : ℕ} {writing used held : List ℕ}
    {s : Service} where
  -- A round of the loop keeps the service valid, its events included, and the table of channels as it
  -- is, whatever comes of sending. It takes the oldest events that are ready, at most as many as there
  -- are buffers, and each of them is free in the end, in order.
  pub round_keeps :
      IsValid k m writing s
      → Table.IsValid used s.channel_list
      → EventsInv.IsValid n held s.events
      → let s' = round ops s in
        IsValid k m writing s'
        × (s'.channel_list ≡ s.channel_list)
        × EventsInv.IsValid n held s'.events
        × (taken : List ℕ) × (contents s.events.ready ≡ taken ++ contents s'.events.ready)
        × (length taken ≡ min (length (contents s.events.ready)) s.buffer_count)
        × (contents s'.events.free ≡ contents s.events.free ++ taken)
  unfolding round
  round_keeps v t events =
      let s₁ : Service = (acquire s).2 in
      let same₁ = acquired_same s in
      let v₁ : IsValid k m writing s₁ = subst (IsValid k m writing) (sym same₁) (
        elsewhere v (record s {
          events = s₁.events;
          event_updates = s₁.event_updates;
          event_updates_count = s₁.event_updates_count;
        })) in
      let table₁ : s₁.channel_list ≡ s.channel_list = ap (λ s. s.channel_list) same₁ in
      let (taken, a) = acquired s events in
      let s₂ : Service = handle_all ops s₁ (map some taken) in
      let (v₂, same₂) =
        handle_all_keeps ops laws k m writing used taken s₁ v₁
          (subst (Table.IsValid used) (sym table₁) t) in
      let s₃ : Service = (release s₂).1 in
      let updates₂ : take s₂.event_updates_count s₂.event_updates ≡ map some taken =
        ap (λ s. take s.event_updates_count s.event_updates) same₂
        ∙ ap (λ n. take n s₁.event_updates) a.counted
        ∙ a.updates in
      let events₂ : s₂.events ≡ s₁.events = ap (λ s. s.events) same₂ in
      let (free, ready, _, w, same₃) =
        release_updates n taken held s₂ updates₂
          (subst (EventsInv.IsValid n (taken ++ held)) (sym events₂) a.events) in
      let v₃ : IsValid k m writing s₃ =
        subst (IsValid k m writing) (sym same₃)
          (elsewhere v₂ (record s₂ { pool_read = s₃.pool_read; events = s₃.events })) in
      let whole : round ops s ≡ s₃ = ap (λ os. (release (handle_all ops s₁ os)).1) a.updates in
      rw whole (
        v₃,
        ap (λ s. s.channel_list) same₃ ∙ ap (λ s. s.channel_list) same₂ ∙ table₁,
        w,
        taken,
        a.oldest ∙ ap (λ xs. taken ++ xs) (sym (ready ∙ ap (λ l. contents l.ready) events₂)),
        a.least,
        free
            ∙ ap (λ l. contents l.free ++ taken) events₂
            ∙ ap (λ xs. xs ++ taken) (acquired_free s),
      )
