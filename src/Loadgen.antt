-- ===== src/Loadgen.antt =====
-- src/tcplg/tcplg.c: the load generator. `on_tick_cb` is modelled, by which a timer drives the program
-- through its phases; what is printed is not, and `main` is not.
pub mod Laws
pub mod CmdArgs
pub mod Phases
pub mod Statistics
pub mod Tests
use tcpeen.Base.{
  ℕ, zero, suc, ◌+◌, ◌/◌, ◌≡◌, Bool, true, false, ◌&&◌, Option, none, some, List, [], ◌∷◌, length,
  min, if◌then◌else◌, ltb, leb, ◌==◌, add64, sub64,
}
use tcpeen.Bytes.{ByteBuf, ByteOps}
use tcpeen.Endpoint.{AddrOps}
use tcpeen.Context.{Context}
use tcpeen.Connection
use tcpeen.Connection.{
  Connection, ConnState, conn_new, conn_connecting, conn_connected, conn_disconnecting,
  conn_disconnected, connect_begin, disconnect,
}
use tcpeen.Connection.Send
use tcpeen.Connection.Send.{write_begin}

-- The global state. `average` is what the last phase divides: `none` before it.
pub record Loadgen : Type 0 where
  pub appstate : ℕ
  pub conns : List Connection
  pub ctx : Context
  pub start_ticks : ℕ
  pub current_ticks : ℕ
  pub transmit_ticks : ℕ
  pub elapsed_ms : ℕ
  pub elapsed_since_io : ℕ
  pub last_recv_msgs : ℕ
  pub transmit_time_ms : ℕ
  pub failed : ℕ

-- `cmdline_args` as far as it is read here.
pub record Args : Type 0 where
  pub host : List ℕ
  pub port : ℕ
  pub message : List ℕ

-- The functions of the libraries, and the answers of the clock and of libuv, those to the calls for
-- a connection by its index.
pub record World : Type 0 where
  pub ops : ByteOps
  pub alloc : ℕ → Option ByteBuf
  pub addr : AddrOps
  pub now : ℕ
  pub later : ℕ
  pub to_millis : ℕ → ℕ
  pub connecting : ℕ → Connection.Answers
  pub writing : ℕ → Send.Answers
  pub write_time : ℕ → ℕ
  pub closing : ℕ → Bool

abbrev pub max_connections_per_timer : ℕ
max_connections_per_timer = 1000

-- The counters of the loops over the connections.
pub record Tally : Type 0 where
  pub connected : ℕ
  pub connecting : ℕ
  pub failed : ℕ
  pub made : ℕ

abbrev pub no_tally : Tally
no_tally = record { connected = 0; connecting = 0; failed = 0; made = 0 }

-- Whether the loop of the first phase goes on to connect in this state, and its counters.
pub tally_state : ConnState → Tally → Bool × Tally
tally_state conn_new t = (true, t)
tally_state conn_connecting t = (false, record t { connecting = t.connecting + 1 })
tally_state conn_connected t = (false, record t { connected = t.connected + 1 })
tally_state conn_disconnected t = (true, record t { failed = t.failed + 1 })
tally_state conn_disconnecting t = (false, record t { failed = t.failed + 1 })

-- One round of that loop, with `limit` calls at most in all of them.
pub connect_one : World → Args → Context → ℕ → ℕ → Tally → Connection → Tally × Connection
connect_one w args ctx limit i t c =
    let (goes_on, t') = tally_state c.state t in
    let (s, closed, c') =
      connect_begin w.addr (w.connecting i) (some ctx) (some args.host) args.port c in
    if goes_on
    then (if leb limit t'.made then (t', c) else (record t' { made = t'.made + 1 }, c'))
    else (t', c)

pub connect_all : World → Args → Context → ℕ → ℕ → Tally → List Connection → Tally × List Connection
connect_all w args ctx limit i t [] = (t, [])
connect_all w args ctx limit i t (c ∷ cs) =
    let (t', c') = connect_one w args ctx limit i t c in
    let (t'', cs') = connect_all w args ctx limit (suc i) t' cs in (t'', c' ∷ cs')

-- The connection that a handle belongs to.
abbrev pub of_handle : Connection → Option Connection
of_handle c = elim c.tcp_handle [ none ↦ none | some h ↦ some c ]

abbrev pub is_connected : ConnState → Bool
is_connected conn_connected = true
is_connected _ = false

abbrev pub or_same : Connection → Option Connection → Connection
or_same c none = c
or_same c (some c') = c'

-- One round of the loop of the second phase: what libuv is given to write, and the connection.
pub transmit_one : World → Args → Bool → ℕ → Connection → Option (List ℕ) × Connection
transmit_one w args done_send i c =
    let (out, closed, c') =
      write_begin w.ops w.alloc (w.write_time i) (w.writing i) (of_handle c) (some args.message) in
    if done_send
    then (none, c)
    else (if is_connected c.state then (out, or_same c c') else (none, c))

pub transmit_all :
    World → Args → Bool → ℕ → List Connection → List (Option (List ℕ)) × List Connection
transmit_all w args done_send i [] = ([], [])
transmit_all w args done_send i (c ∷ cs) =
    let (out, c') = transmit_one w args done_send i c in
    let (outs, cs') = transmit_all w args done_send (suc i) cs in (out ∷ outs, c' ∷ cs')

pub disconnect_all : World → ℕ → List Connection → List Connection
disconnect_all w i [] = []
disconnect_all w i (c ∷ cs) = (disconnect c (w.closing i)).1 ∷ disconnect_all w (suc i) cs

-- The worst latency, the sum of latencies, and the number of messages.
pub sum_up : ℕ × ℕ × ℕ → List Connection → ℕ × ℕ × ℕ
sum_up s [] = s
sum_up (worst, total, msgs) (c ∷ cs) =
    sum_up
      (
        if ltb worst c.latency_max then c.latency_max else worst,
        add64 total c.latency_total,
        add64 msgs c.recv_msgs,
      )
      cs

-- What comes of the statistics: they were not asked for, the worst and the average latency are
-- shown, or the average is a division by 0, which stops the program.
pub data Latencies : Type 0 where
  not_asked : Latencies
  shown : (worst average : ℕ) → Latencies
  divides_by_zero : Latencies

-- The division of the code.
abbrev pub show : ℕ → ℕ → ℕ → Latencies
show worst total msgs = if msgs == 0 then divides_by_zero else shown worst (total / msgs)

pub statistics : List Connection → Latencies
statistics cs = let (worst, total, msgs) = sum_up (0, 0, 0) cs in show worst total msgs

-- What a tick does but to the state: what libuv is given to write, connection by connection, and the
-- statistics.
pub record Output : Type 0 where
  pub written : List (Option (List ℕ))
  pub latencies : Latencies

abbrev pub silent : Output
silent = record { written = []; latencies = not_asked }

-- The first phase but one: the connections are made.
pub establish : World → Args → Loadgen → Loadgen
establish w args g =
    let (t, conns) =
      connect_all w args g.ctx (min (length g.conns) max_connections_per_timer) 0 no_tally
        g.conns in
    let g' : Loadgen = record g { conns = conns } in
    if leb (length g.conns) t.connected
    then record g' { elapsed_ms = 0; appstate = add64 g.appstate 1 }
    else g'

-- The next phase: messages are sent until the time is over, and after that there is a wait until
-- nothing has come for six seconds.
pub transmit : World → Args → Loadgen → Output × Loadgen
transmit w args g =
    let done_send = ltb g.transmit_time_ms g.elapsed_ms in
    let (outs, conns) = transmit_all w args done_send 0 g.conns in
    let sent : Loadgen = record g { conns = conns } in
    let heard : Loadgen =
      if g.last_recv_msgs == g.ctx.recv_msgs
      then sent
      else record sent { elapsed_since_io = 0; last_recv_msgs = g.ctx.recv_msgs } in
    let output : Output = record silent { written = outs } in
    if done_send && ltb 6000 heard.elapsed_since_io
    then (output, record heard { elapsed_ms = 0; appstate = add64 g.appstate 1; failed = 0 })
    else (output, heard)

-- The connections are closed, and the statistics are shown.
pub finish : World → Loadgen → Output × Loadgen
finish w g =
    let conns = disconnect_all w 0 g.conns in
    (
      record silent { latencies = statistics conns },
      record g { conns = conns; elapsed_ms = 0; appstate = add64 g.appstate 1 },
    )

pub run_phase : World → Args → Loadgen → Output × Loadgen
run_phase w args g =
    let next : Loadgen = record g { appstate = add64 g.appstate 1 } in
    if g.appstate == 0
    then (silent, next)
    else (if g.appstate == 1
        then (silent, establish w args g)
        else (if g.appstate == 2
            then transmit w args g
            else (if g.appstate == 3
                then finish w g
                else (if g.appstate == 4
                    then (silent, next)
                    else (if g.appstate == 5 then (silent, next) else (silent, g))))))

pub on_tick_cb : World → Args → Loadgen → Output × Loadgen
on_tick_cb w args g₀ =
    let g : Loadgen = record g₀ {
      start_ticks = if g₀.start_ticks == 0 then w.now else g₀.start_ticks;
      current_ticks = w.later;
    } in
    let diff = sub64 g.current_ticks g.start_ticks in
    let ms = w.to_millis diff in
    if ltb diff g.transmit_ticks
    then (silent, g)
    else run_phase w args (record g {
      start_ticks = g.current_ticks;
      elapsed_ms = add64 g.elapsed_ms ms;
      elapsed_since_io = add64 g.elapsed_since_io ms;
    })
