-- ===== src/Loadgen/Tests.antt =====
-- A load generator with one connection, and a command line that is accepted.
use tcpeen.Base.{
  ℕ, ◌/◌, ◌%◌, ◌^◌, ◌≢◌, ◌≤◌, ◌≡◌, ◌⊎◌, true, false, none, some, [], ◌∷◌, success, error,
}
use tcpeen.Bytes.Plain.{plain}
use tcpeen.Endpoint.{zeroed}
use tcpeen.Context
use tcpeen.Connection.{Connection, blank, pos}
use tcpeen.Loadgen.{Loadgen, Args, World, establish, finish, shown, divides_by_zero, on_tick_cb}
use tcpeen.Loadgen.Laws.{Connects, AllConnected}
use tcpeen.Loadgen.Phases.{Moved, establish_lem, on_tick_cb_lem}
use tcpeen.Loadgen.Statistics.{sum_of, greatest, finish-statistics}
use tcpeen.Loadgen.CmdArgs.{CmdArgs, Texts}

abbrev world : World
world = record {
  ops = plain;
  alloc = λ n. none;
  addr = record {
    ip4_addr = λ ip port. (error, zeroed.sockaddr);
    ip6_addr = λ ip port. (error, zeroed.sockaddr);
    ip4_name = λ a. [];
    ip6_name = λ a. [];
    print = λ name port. [];
  };
  now = 3;
  later = 9;
  to_millis = λ t. t;
  connecting = λ i. record {
    handle = some 4;
    tcp_init = success;
    tcp_nodelay = success;
    tcp_bind = success;
    request = true;
    tcp_connect = success;
    closing = false;
  };
  writing = λ i. record { request = true; write = success; closing = false };
  write_time = λ i. 9;
  closing = λ i. false;
}

abbrev target : Args
target = record { host = b'1' ∷ []; port = 80; message = b'A' ∷ [] }

abbrev single : Loadgen
single = record {
  appstate = 1;
  conns = blank ∷ [];
  ctx = Context.blank;
  start_ticks = 0;
  current_ticks = 0;
  transmit_ticks = 2;
  elapsed_ms = 0;
  elapsed_since_io = 0;
  last_recv_msgs = 0;
  transmit_time_ms = 10;
  failed = 0;
}

-- A connection that has received four messages.
abbrev answered : Connection
answered = record blank { recv_msgs = 4; latency_total = 10; latency_max = 5 }

abbrev ended : Loadgen
ended = record single { appstate = 3; conns = answered ∷ [] }

establish_lem_example :
    let g' = establish world target single in
    ((n : ℕ) × (n ≤ 1000) × Connects world target Context.blank 0 n (blank ∷ []) g'.conns)
    × ((AllConnected (blank ∷ []) × (g'.appstate ≡ 2))
        ⊎ ((AllConnected (blank ∷ []) → ⊥) × (g'.appstate ≡ 1)))
establish_lem_example = establish_lem world target single

on_tick_cb_lem_example : Moved world target single (on_tick_cb world target single).1
on_tick_cb_lem_example = on_tick_cb_lem world target single

finish-statistics_example :
    ((sum_of (λ c. c.recv_msgs) (answered ∷ []) % 2 ^ 64 ≡ 0)
      × ((finish world ended).0.latencies ≡ divides_by_zero))
    ⊎ ((sum_of (λ c. c.recv_msgs) (answered ∷ []) % 2 ^ 64 ≢ 0)
        × ((finish world ended).0.latencies
            ≡ shown (greatest (λ c. c.latency_max) (answered ∷ [])) (
                sum_of (λ c. c.latency_total) (answered ∷ [])
                % 2 ^ 64
                / (sum_of (λ c. c.recv_msgs) (answered ∷ []) % 2 ^ 64))))
finish-statistics_example = finish-statistics world ended

-- The server is split into an address and a port, which are the same here.
abbrev texts : Texts
texts = record { split = λ s. some ((b'1' ∷ []) ∷ (b'1' ∷ []) ∷ []); left = []; atoi = λ s. pos 1 }

abbrev given : CmdArgs
given = record {
  clients = pos 0;
  rate = pos 0;
  prefix = pos 32;
  time = pos 0;
  msglen = 0;
  message = some (b'A' ∷ []);
  server = some (b'1' ∷ b':' ∷ b'1' ∷ []);
  host = [];
  port = pos 0;
}

abbrev checked : CmdArgs
checked = record given {
  clients = pos 1;
  time = pos 10;
  msglen = 1;
  host = b'1' ∷ [];
  port = pos 1;
}
