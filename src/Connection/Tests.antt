-- ===== src/Connection/Tests.antt =====
-- A connection with a buffer of 64 bytes that sends the letter `A` and gets it back.
use tcpeen.Base.{
  ℕ, ◌≡◌, refl, inl, Bool, true, false, Option, none, some, List, [], ◌∷◌, replicate,
  length-replicate, success, error, arith,
}
use tcpeen.Bytes.{ByteBuf}
use tcpeen.Bytes.Plain.{plain, plain-IsByteOps}
use tcpeen.Buffer.{Buffer}
use tcpeen.Buffer.Inv.{pending}
use tcpeen.Channel.{read_header}
use tcpeen.Context.{Context}
use tcpeen.Context
use tcpeen.Connection.{
  Connection, connect_begin, disconnect, blank, conn_connected, conn_disconnected,
  conn_disconnecting,
}
use tcpeen.Connection.Send.{ready_to_write, frame, write_begin}
use tcpeen.Connection.Send
use tcpeen.Connection
use tcpeen.Endpoint.{AddrOps, zeroed}
use tcpeen.Connection.Closing.{run_all, hang_up, read_failed, run_all-Quiet}
use tcpeen.Connection.Moves.{Again, connect_begin-Again}
use tcpeen.Bytes.Endian.{be_bytes, be_value}
use tcpeen.Connection.Decode.{Decoder, rests, step, drain}
use tcpeen.Connection.Receive.Laws.{reads}
use tcpeen.Connection.Receive.Pieces.{Reads, on_tcp_recv_cb-pieces}
use tcpeen.Connection.Send.Laws.{IsAlloc}
use tcpeen.Connection.Receive.{Clock, got, on_tcp_recv_cb}
use tcpeen.Connection.Receive.Refine.{IsReady}
use tcpeen.Connection.Receive.Stream.{on_tcp_recv_cb-returns, on_tcp_recv_cb-loses}
use tcpeen.Connection.Roundtrip.{Sends, done, one, roundtrip}

abbrev fresh : Buffer
fresh = record {
  pool = none;
  buf = record { buffer = replicate 64 0; len = 0; capacity = 64 };
  pos = record { ptr = some 0; len = 0 };
}

abbrev talker : Connection
talker = record blank {
  state = conn_connected;
  tcp_handle = some 0;
  next_buffer = some fresh;
  read_state = read_header;
}

abbrev clock : Clock
clock = record { now = 5; to_millis = λ t. t }

abbrev alloc : ℕ → Option ByteBuf
alloc n = some (record { buffer = replicate n 0; len = 0; capacity = n })

alloc-IsAlloc : IsAlloc alloc
alloc-IsAlloc = record {
  empty = λ n b e. ground arith;
  size = λ n b e. ground arith;
  storage = λ n b e. ground (arith, length-replicate {A = ℕ} n 0);
}

talker-IsReady : IsReady 0 talker fresh
talker-IsReady = record {
  valid = record {
    cursor = refl;
    readable = refl;
    within = omega arith;
    storage = omega arith;
    small = omega arith;
  };
  awake = inl refl;
  small = omega arith;
}

told-IsReady : IsReady 0 (record talker { current_msg_id = 1 }) fresh
told-IsReady = record {
  valid = talker-IsReady.valid;
  awake = inl refl;
  small = talker-IsReady.small;
}

abbrev taken : Send.Answers
taken = record { request = true; write = success; closing = false }

abbrev told : Connection
told = record talker { current_msg_id = 1 }

abbrev letter : List ℕ
letter =
    0 ∷ 0 ∷ 0 ∷ 18 ∷ 0 ∷ 0 ∷ 0 ∷ 0 ∷ 0 ∷ 0 ∷ 0 ∷ 1 ∷ 0 ∷ 0 ∷ 0 ∷ 0 ∷ 0 ∷ 0 ∷ 0 ∷ 3 ∷ 65 ∷ 0 ∷ []

written :
    write_begin plain alloc 3 taken (some talker) (some (65 ∷ [])) ≡ (some letter, false, some told)
unfolding write_begin frame ready_to_write disconnect be_bytes
written = refl

letter_sent : Sends plain alloc talker letter told
letter_sent =
    one talker told told 3 taken 65 [] letter [] letter (omega arith) (omega arith) written refl
      (done told)

roundtrip_example :
    (ctx' : Context) × (c'' : Connection) × (b' : Buffer) × ((closing : Bool)
      → on_tcp_recv_cb plain clock (got letter) closing Context.blank told
        ≡ some (false, ctx', c''))
    × (c''.last_recv_msg_id ≡ 1)
    × (c''.read_state ≡ read_header)
    × (c''.next_buffer ≡ some b')
    × (pending b' ≡ [])
roundtrip_example =
    roundtrip plain plain-IsByteOps alloc alloc-IsAlloc clock Context.blank {c = talker} 0
      (0 ∷ 0 ∷ 18 ∷ 0 ∷ 0 ∷ 0 ∷ 0 ∷ 0 ∷ 0 ∷ 0 ∷ 1 ∷ 0 ∷ 0 ∷ 0 ∷ 0 ∷ 0 ∷ 0 ∷ 0 ∷ 3 ∷ 65 ∷ 0 ∷ [])
      refl talker-IsReady refl refl refl letter_sent (omega arith)

on_tcp_recv_cb-returns_example :
    (closed : Bool) × (ctx' : Context) × (c' : Connection) × (to : ℕ) × (b' : Buffer)
    × (on_tcp_recv_cb plain clock (got (0 ∷ 0 ∷ [])) false Context.blank talker
        ≡ some (closed, ctx', c'))
    × (c'.next_buffer ≡ some b')
    × IsReady to c' b'
on_tcp_recv_cb-returns_example =
    on_tcp_recv_cb-returns plain plain-IsByteOps clock false Context.blank refl talker-IsReady
      (got (0 ∷ 0 ∷ []))

on_tcp_recv_cb-loses_example :
    on_tcp_recv_cb plain clock (got (7 ∷ replicate 64 7)) false Context.blank talker
    ≡ some (false, Context.blank, talker)
on_tcp_recv_cb-loses_example =
    on_tcp_recv_cb-loses plain plain-IsByteOps clock false Context.blank refl talker-IsReady 7
      (replicate 64 7) (omega arith)

-- What the decoder makes of the letter.
abbrev counted : Decoder
counted = record { state = read_header; need = 18; last = 1; latency = 2; stream = [] }

letter_read : reads clock told fresh letter ≡ rests counted
unfolding drain step be_value
letter_read = refl

on_tcp_recv_cb-pieces_example :
    ((ctx₁ : Context) × (c₁ : Connection) × Reads plain plain-IsByteOps clock Context.blank told
        letter ctx₁ c₁ counted)
    × ((d₁ : Decoder) × (ctx₁ : Context) × (c₁ : Connection) × (ctx₂ : Context) × (c₂ : Connection)
        × Reads plain plain-IsByteOps clock Context.blank told (0 ∷ 0 ∷ 0 ∷ 18 ∷ 0 ∷ []) ctx₁ c₁ d₁
        × Reads plain plain-IsByteOps clock ctx₁ c₁
            (0 ∷ 0 ∷ 0 ∷ 0 ∷ 0 ∷ 0 ∷ 1 ∷ 0 ∷ 0 ∷ 0 ∷ 0 ∷ 0 ∷ 0 ∷ 0 ∷ 3 ∷ 65 ∷ 0 ∷ [])
            ctx₂
            c₂
            counted)
on_tcp_recv_cb-pieces_example =
    on_tcp_recv_cb-pieces plain plain-IsByteOps clock Context.blank counted 0 (0 ∷ 0 ∷ 18 ∷ 0 ∷ [])
      0 (0 ∷ 0 ∷ 0 ∷ 0 ∷ 0 ∷ 1 ∷ 0 ∷ 0 ∷ 0 ∷ 0 ∷ 0 ∷ 0 ∷ 0 ∷ 3 ∷ 65 ∷ 0 ∷ []) refl told-IsReady
      (omega arith) letter_read

abbrev ended : Connection
ended = record talker { state = conn_disconnecting }

run_all-Quiet_example :
    let (n, out, c') = run_all (hang_up false ∷ read_failed 3 false ∷ []) ended in
    (n ≡ 0) × (out ≡ false) × (c'.state ≡ conn_disconnecting) × (c'.tcp_handle ≡ some 0)
run_all-Quiet_example = run_all-Quiet (hang_up false ∷ read_failed 3 false ∷ []) ended refl

abbrev gone : Connection
gone = record talker { state = conn_disconnected; tcp_handle = none }

-- No address is known; the answers are those of a call that fails on the remote address.
abbrev no_addr : AddrOps
no_addr = record {
  ip4_addr = λ ip port. (error, zeroed.sockaddr);
  ip6_addr = λ ip port. (error, zeroed.sockaddr);
  ip4_name = λ a. [];
  ip6_name = λ a. [];
  print = λ name port. [];
}

abbrev answers : Connection.Answers
answers = record {
  handle = some 4;
  tcp_init = success;
  tcp_nodelay = success;
  tcp_bind = success;
  request = true;
  tcp_connect = success;
  closing = false;
}

abbrev looped : Context
looped = record Context.blank { config = some (record { uv_loop = some 1 }) }

looped_loop : Context.get_loop (some looped) ≡ some 1
unfolding Context.get_loop
looped_loop = refl

connect_begin-Again_example :
    Again no_addr answers
      (some [])
      80
      4
      gone
      (connect_begin no_addr answers (some looped) (some []) 80 gone)
connect_begin-Again_example =
    connect_begin-Again no_addr answers (some looped) (some []) 80 gone refl looped_loop refl
