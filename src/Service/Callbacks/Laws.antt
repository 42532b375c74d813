-- ===== src/Service/Callbacks/Laws.antt =====
-- What a closed handle leaves behind.
use tcpeen.Base.{ℕ, ◌≡◌, List, [], arith, inl, inr, Option-cases}
use tcpeen.Events.{as_close}
use tcpeen.Events.Inv as EventsInv
use tcpeen.Events.Laws.{free_pop_lem}
use tcpeen.Queue.Refine.{contents}
use tcpeen.Service.{Service, channel_at}
use tcpeen.Service.Callbacks.{on_close_channel_cb}

-- Where the event list is valid and no event is free, the callback of a closed channel leaves
-- the list of free channels as it was.
pub on_close_channel_cb-stranded :
    {k : ℕ} {held : List ℕ} (s : Service) (channel : ℕ)
    → EventsInv.IsValid k held s.events
    → contents s.events.free ≡ []
    → (on_close_channel_cb s channel).channel_list.client_list_free
      ≡ s.channel_list.client_list_free
unfolding on_close_channel_cb
on_close_channel_cb-stranded s channel v e = elim (Option-cases (channel_at s channel)) [
  | inl missing ↦ ground (arith, missing)
  | inr (c, found) ↦ elim (free_pop_lem v as_close) [
    | inl (_, r, _, _) ↦ elim (Option-cases c.read_buffer) [
      | inl no_buffer ↦ ground (arith, found, no_buffer, r)
      | inr (b, buffer) ↦ ground (arith, found, buffer, r)
    ]
    | inr (i, _, _, _, step, _, _, _) ↦ absurd (ground (arith, e, step))
  ]
]
