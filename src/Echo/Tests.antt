-- ===== src/Echo/Tests.antt =====
-- The server with the service of the tests of sending, and with the events and the letter of others.
use tcpeen.Base.{
  ℕ, min, ◌≤◌, ◌<◌, ◌≡◌, refl, some, List, [], ◌∷◌, ◌++◌, length, success, event_nochan, send_noreq,
  send_nobuf, ◌⊎◌,
}
use tcpeen.Bytes.Plain.{plain, plain-IsByteOps}
use tcpeen.Buffer.Tests.{letter-IsValid}
use tcpeen.Queue.Refine.{contents}
use tcpeen.Events.{Event, event_client_read}
use tcpeen.Events.Inv as EventsInv
use tcpeen.Events.Tests.{plain_event, four, four-IsValid}
use tcpeen.Channel.Tests.{table, table-IsValid}
use tcpeen.Service.Send.Inv.{IsValid}
use tcpeen.Service.Send.Laws.{Sent}
use tcpeen.Service.Send.Laws.{SameElse as WritesOnly}
use tcpeen.Service.Send.Tests.{sender, sender-IsValid}
use tcpeen.Echo.{handle_client_read, round}
use tcpeen.Echo.Laws.{reread, reread-IsValid, handle_client_read-echoes}
use tcpeen.Echo.Rounds.{round_keeps}

-- Client 1 has sent the letter.
abbrev letter_read : Event
letter_read = record plain_event { type = event_client_read; client_id = 1; tn_buffer = some 0 }

handle_client_read-echoes_example :
    let (r, s') = handle_client_read plain sender letter_read in
    ((2 ≤ 1) × (r ≡ event_nochan) × (s' ≡ sender))
    ⊎ ((contents sender.write_reqs_free ≡ []) × (r ≡ send_noreq) × (s' ≡ reread (some 0) sender))
    ⊎ (((contents sender.pool_write.free ≡ []) ⊎ (sender.pool_write.block_size < 7))
        × (r ≡ send_nobuf)
        × (contents s'.write_reqs_ready ≡ contents sender.write_reqs_ready)
        × WritesOnly (reread-IsValid sender-IsValid (some 0)) s'
        × IsValid 1 1 [] s')
    ⊎ ((r ≡ success)
        × Sent
            (reread-IsValid sender-IsValid (some 0))
            plain
            plain-IsByteOps
            1
            (0 ∷ 0 ∷ 0 ∷ 2 ∷ 7 ∷ 8 ∷ 9 ∷ [])
            s')
handle_client_read-echoes_example =
    handle_client_read-echoes plain plain-IsByteOps sender-IsValid letter_read table-IsValid refl
      refl letter-IsValid

round_keeps_example :
    let s' = round plain sender in
    IsValid 1 1 [] s'
    × (s'.channel_list ≡ table)
    × EventsInv.IsValid 2 (1 ∷ []) s'.events
    × (taken : List ℕ) × (contents four.ready ≡ taken ++ contents s'.events.ready)
    × (length taken ≡ min (length (contents four.ready)) 2)
    × (contents s'.events.free ≡ contents four.free ++ taken)
round_keeps_example = round_keeps plain plain-IsByteOps sender-IsValid table-IsValid four-IsValid
