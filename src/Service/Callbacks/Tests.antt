-- ===== src/Service/Callbacks/Tests.antt =====
-- A service where buffer 0 is free for reading, channel 1 has buffer 1 and channel 0 has none.
use tcpeen.Base.{◌∷◌, some, ◌≤◌, ◌++◌, false, get_elem?, modify, ℕ, ◌≡◌, refl, none, [], ◌⊎◌, arith}
use tcpeen.Queue.Refine.{contents}
use tcpeen.Pool.Tests.{half}
use tcpeen.Buffer.{Buffer, remaining, reset}
use tcpeen.Buffer.Inv.{pending}
use tcpeen.Buffer.Tests.{letter}
use tcpeen.Events.Inv as EventsInv
use tcpeen.Events.Tests.{four, four-IsValid}
use tcpeen.Channel.{blank}
use tcpeen.Channel.Tests.{reader}
use tcpeen.Service.{Service}
use tcpeen.Service.Tests.{small}
use tcpeen.Service.Send.Tests.{one_ready, one_ready-IsValid, two_letters}
use tcpeen.Service.Callbacks.{bytes, on_recv_alloc_cb, on_recv_cb}
use tcpeen.Service.Callbacks.Delivered.{Announces, Retains, on_recv_cb-keeps_bytes}
use tcpeen.Service.Callbacks.Reads.{IsValid, ReadsInto, on_recv_alloc_cb-IsValid}

abbrev receiver : Service
receiver = record small { pool_read = record half { free = one_ready } }

receiver-IsValid : IsValid 1 [] receiver
receiver-IsValid = record {
  pool = record {
    queue = one_ready-IsValid;
    counted = refl;
    bytes = refl;
    sized = refl;
    room = omega arith;
    words = (omega arith, omega arith);
    known = (omega arith, tt);
  };
  valid_buffers = two_letters;
  buffers = record { once = λ i. ground arith; sized = refl };
}

on_recv_alloc_cb-IsValid_example :
    let (at, room, s') = on_recv_alloc_cb receiver 0 in
    IsValid 1 [] s'
    × (((b : ℕ) × (blank.read_buffer ≡ some b)
          × (s' ≡ receiver)
          × ReadsInto receiver-IsValid 0 {c = blank} refl b (at, room, s'))
        ⊎ ((b : ℕ) × (blank.read_buffer ≡ none)
            × (contents one_ready ≡ b ∷ contents s'.pool_read.free)
            × (s'.pool_read.buffers ≡ modify half.buffers b reset)
            × ReadsInto receiver-IsValid 0 {c = blank} refl b (at, room, s'))
        ⊎ ((blank.read_buffer ≡ none)
            × (contents one_ready ≡ [])
            × (at ≡ none)
            × (room ≡ 0)
            × (s' ≡ receiver)))
on_recv_alloc_cb-IsValid_example = on_recv_alloc_cb-IsValid receiver-IsValid 0 {c = blank} refl

two_fit : 2 ≤ remaining letter
unfolding remaining
two_fit = omega arith

on_recv_cb-keeps_bytes_example :
    let (closed, s') = on_recv_cb receiver 1 (bytes 2) false in
    (closed ≡ false)
    × (full : Buffer) × (get_elem? s'.pool_read.buffers 1 ≡ some full)
    × (pending full ≡ pending letter ++ 0 ∷ 0 ∷ [])
    × EventsInv.IsValid 2 (1 ∷ []) s'.events
    × (((contents four.free ≡ [])
          × Retains receiver-IsValid four-IsValid 1 1 false {c = reader} {b = 1} {buf = letter} refl
              refl refl s')
        ⊎ Announces receiver-IsValid four-IsValid 1 1 false {c = reader} {b = 1} {buf = letter} refl
            refl refl s')
on_recv_cb-keeps_bytes_example =
    on_recv_cb-keeps_bytes receiver-IsValid four-IsValid 1 1 false {c = reader} {b = 1}
      {buf = letter} refl refl refl two_fit
