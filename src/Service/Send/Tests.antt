-- ===== src/Service/Send/Tests.antt =====
-- A service of two write requests: request 1 and buffer 1 are free, request 0 is ready with buffer 0.
use tcpeen.Base.{
  ℕ, zero, suc, ◌<◌, ◌≡◌, refl, none, some, [], ◌∷◌, ◌++◌, rev_append, Status, success, send_noreq,
  send_nobuf, ◌⊎◌, arith,
}
use tcpeen.Bytes.Plain.{plain, plain-IsByteOps}
use tcpeen.Buffer.Tests.{letter, letter-IsValid}
use tcpeen.Queue.{Queue}
use tcpeen.Queue.Inv as QueueInv
use tcpeen.Queue.Refine.{contents}
use tcpeen.Pool.Tests.{half, half-IsValid, one_free, one_free-IsValid}
use tcpeen.Pool.Peek.{AreValid}
use tcpeen.Channel.Tests.{table}
use tcpeen.Service.{Service, WriteReq}
use tcpeen.Service.Tests.{small}
use tcpeen.Service.Send.{send}
use tcpeen.Service.Send.Inv.{IsValid, IsLoaded}
use tcpeen.Service.Send.Laws.{Sent, SameElse, send_keeps}
use tcpeen.Service.Callbacks.{on_send_cb, on_prep_cb}
use tcpeen.Service.Callbacks.Writes.{on_send_cb-IsValid}
use tcpeen.Service.Callbacks.Ready.{on_prep_cb-Drained, written_of, dropped_of}

abbrev blank_req : WriteReq
blank_req = record { id = 1; channel = none; buffer = none; base = none; len = 0 }

abbrev ready_req : WriteReq
ready_req = record { id = 0; channel = some 1; buffer = some 0; base = some 0; len = 7 }

-- It holds 0.
abbrev pub one_ready : Queue
one_ready = record one_free { buffer = 0 ∷ 0 ∷ [] }

abbrev none_ready : Queue
none_ready = record one_ready { tail = 1 }

abbrev pub sender : Service
sender = record small {
  channel_list = table;
  pool_write = half;
  buffer_count = 2;
  write_reqs = ready_req ∷ blank_req ∷ [];
  write_reqs_free = one_free;
  write_reqs_ready = one_ready;
}

abbrev writer : Service
writer = record sender { write_reqs_ready = none_ready }

pub one_ready-IsValid : QueueInv.IsValid 1 one_ready
one_ready-IsValid = record {
  narrow = omega arith;
  power = refl;
  masked = refl;
  storage = omega arith;
  head_word = omega arith;
  tail_word = omega arith;
  fits = omega arith;
}

pub two_letters : AreValid 9 (letter ∷ letter ∷ [])
two_letters zero b e = (0, ground (arith, letter-IsValid), ground arith)
two_letters (suc zero) b e = (0, ground (arith, letter-IsValid), ground arith)
two_letters (suc (suc j)) b e = absurd (ground arith)

ready-IsLoaded : IsLoaded 2 (ready_req ∷ blank_req ∷ []) 0
ready-IsLoaded = record {
  req = ready_req;
  there = refl;
  target = 1;
  channel = refl;
  known = omega arith;
  index = 0;
  buffer = refl;
}

pub sender-IsValid : IsValid 1 1 [] sender
sender-IsValid = record {
  free_queue = one_free-IsValid;
  ready_queue = one_ready-IsValid;
  free_room = omega arith;
  ready_room = omega arith;
  stored = omega arith;
  reqs = record { once = λ i. ground arith; sized = refl };
  pool = half-IsValid;
  valid_buffers = two_letters;
  buffers = record { once = λ i. ground arith; sized = refl };
  ready_loaded = (ready-IsLoaded, tt);
  writing_loaded = tt;
}

writer-IsValid : IsValid 1 1 (0 ∷ []) writer
writer-IsValid = record {
  free_queue = one_free-IsValid;
  ready_queue = record {
    narrow = omega arith;
    power = refl;
    masked = refl;
    storage = omega arith;
    head_word = omega arith;
    tail_word = omega arith;
    fits = omega arith;
  };
  free_room = omega arith;
  ready_room = omega arith;
  stored = omega arith;
  reqs = record { once = λ i. ground arith; sized = refl };
  pool = half-IsValid;
  valid_buffers = two_letters;
  buffers = record { once = λ i. ground arith; sized = refl };
  ready_loaded = tt;
  writing_loaded = (ready-IsLoaded, tt);
}

send_keeps_example :
    let (r, s') = send plain sender 0 (5 ∷ 6 ∷ []) in
    ((contents one_free ≡ []) × (r ≡ send_noreq) × (s' ≡ sender))
    ⊎ (((contents one_free ≡ []) ⊎ (9 < 2))
        × (r ≡ send_nobuf)
        × (contents s'.write_reqs_ready ≡ contents one_ready)
        × SameElse sender-IsValid s'
        × IsValid 1 1 [] s')
    ⊎ ((r ≡ success) × Sent sender-IsValid plain plain-IsByteOps 0 (5 ∷ 6 ∷ []) s')
send_keeps_example = send_keeps sender-IsValid plain plain-IsByteOps 0 (5 ∷ 6 ∷ []) (omega arith)

on_send_cb-IsValid_example :
    let s' = on_send_cb writer 0 success in
    IsValid 1 1 [] s'
    × (contents s'.write_reqs_free ≡ contents one_free ++ 0 ∷ [])
    × (contents s'.pool_write.free ≡ contents one_free ++ 0 ∷ [])
    × (contents s'.write_reqs_ready ≡ contents none_ready)
on_send_cb-IsValid_example = on_send_cb-IsValid writer-IsValid success

-- libuv takes every request.
abbrev takes_all : ℕ → Status
takes_all i = success

on_prep_cb-Drained_example :
    let (taken, s') = on_prep_cb takes_all 1 sender in
    (contents s'.write_reqs_ready ≡ [])
    × (taken ≡ written_of takes_all sender)
    × (contents s'.write_reqs_free ≡ contents one_free ++ dropped_of takes_all sender)
    × IsValid 1 1 (rev_append taken []) s'
on_prep_cb-Drained_example = on_prep_cb-Drained takes_all 1 sender-IsValid (omega arith)
