-- ===== src/Server.antt =====
-- src/tcpserv/tcpserv.c: an older echo server, which calls libuv itself. What the memory, libuv and the
-- threads answer to a call is a parameter. `main` and what is logged are not modelled.
pub mod Laws
pub mod Loop
pub mod Tests
use tcpeen.Base.{
  ℕ, ◌+◌, ◌≡◌, Bool, true, false, not, ◌&&◌, Option, none, some, List, [], ◌∷◌, ◌++◌, if◌then◌else◌,
  one_if, add64, Status, success, failed, uv,
}

-- The global state: `thread_priv` tells whether `uvu_thread_priv` is not NULL.
pub record Server : Type 0 where
  pub send_msgs : ℕ
  pub send_bytes : ℕ
  pub recv_msgs : ℕ
  pub recv_bytes : ℕ
  pub thread_priv : Bool
  pub closing : Bool

-- The memory that an echo takes: what libuv reads into, and the request to write.
pub data Block : Type 0 where
  bytes_block request_block : Block

-- What libuv reports of a read.
pub data Nread : Type 0 where
  bad : ℕ → Nread
  nothing : Nread
  got : ℕ → Nread

-- What is asked of libuv and of the memory: the blocks that are released, whether the handle is
-- closed, and how many bytes are to be written, if any.
pub record Effects : Type 0 where
  pub released : List Block
  pub closes : Bool
  pub written : Option ℕ

pub free_write_req : List Block
free_write_req = bytes_block ∷ request_block ∷ []

-- `sent` is the status of a write of `len` bytes.
pub on_send_cb : Status → ℕ → Server → List Block × Server
unfolding free_write_req
on_send_cb sent len s = if failed sent then (free_write_req, s) else (
  free_write_req,
  record s { send_msgs = add64 s.send_msgs 1; send_bytes = add64 s.send_bytes len },
)

-- The end of `on_recv_cb`, where `request` tells whether there is a request; `is_closing` is the
-- answer of libuv.
pub end_recv : Bool → Bool → Bool → Effects
end_recv request close is_closing = record {
  released = if request then bytes_block ∷ request_block ∷ [] else bytes_block ∷ [];
  closes = close && not is_closing;
  written = none;
}

-- `request` tells whether there is memory for the request, `write` is the answer to the write.
pub on_recv_cb : Nread → Bool → Status → Bool → Server → Effects × Server
unfolding end_recv
on_recv_cb (bad n) request write is_closing s = (end_recv false true is_closing, s)
on_recv_cb nothing request write is_closing s = (end_recv false false is_closing, s)
on_recv_cb (got n) request write is_closing s =
    let s' : Server = record s {
      recv_msgs = add64 s.recv_msgs 1;
      recv_bytes = add64 s.recv_bytes n;
    } in
    if request
    then (if failed write
        then (end_recv true true is_closing, s')
        else (record { released = []; closes = false; written = some n }, s'))
    else (end_recv false true is_closing, s')

-- `status` is that of the connection, `client` tells whether there is memory for it. Whether the
-- handle of the client is closed, and whether it is read from.
pub on_connection_cb : Bool → Bool → Status → Status → Bool → Bool × Bool
on_connection_cb refused client accept read_start is_closing =
    if refused
    then (false, false)
    else (if client
        then (if failed accept
            then (not is_closing, false)
            else (if failed read_start then (not is_closing, false) else (false, true)))
        else (false, false))

-- The answers to the calls of `uvu_server_start`: the memory, the address parsers, whether the address
-- is of a known family, and the thread.
pub record StartAnswers : Type 0 where
  pub memory : Bool
  pub ip6_addr : Status
  pub ip4_addr : Status
  pub known_family : Bool
  pub thread_create : Status

-- UV_UNKNOWN is -4094, UV_ENOMEM is -12; `unknown_family` is the 1 that is returned there.
pub data Started : Type 0 where
  started unknown no_memory unknown_family : Started
  refused_by : Status → Started

pub server_start : StartAnswers → Server → Started × Server
server_start a s₀ =
    let s : Server = record s₀ { closing = false } in
    let s' : Server = record s { thread_priv = true } in
    let address =
      if failed a.ip6_addr then (if failed a.ip4_addr then some a.ip4_addr else none) else none in
    if s.thread_priv
    then (unknown, s)
    else (if a.memory
        then elim address [
          | some r ↦ (refused_by r, s')
          | none ↦
              if a.known_family
              then (if failed a.thread_create
                  then (refused_by a.thread_create, s')
                  else (started, s'))
              else (unknown_family, s')
        ]
        else (no_memory, s))

-- On the loop of libuv: the server is to close.
pub async_cb : Server → Server
async_cb s = record s { closing = true }

-- Whether the timer closes the listener and itself; the arguments tell whether libuv is closing them.
pub timer_cb : Bool → Bool → Server → Bool × Bool
timer_cb server_closing timer_closing s =
    if s.closing then (not server_closing, not timer_closing) else (false, false)

-- Whether the private part is released; the thread runs `async_cb` before it can be joined. The
-- pointer to the private part stays as it is.
pub server_stop : Server → Option Bool × Server
unfolding async_cb
server_stop s = if s.closing then (none, s) else (some s.thread_priv, async_cb s)

-- What a program does to a server: to start it, with these answers, and to stop it.
pub data Call : Type 0 where
  start : StartAnswers → Call
  stop : Call

abbrev pub is_started : Started → Bool
is_started started = true
is_started _ = false

-- The starts that succeed.
pub run : List Call → Server → ℕ × Server
run [] s = (0, s)
run (start a ∷ cs) s =
    let (r, s') = server_start a s in let (n, s'') = run cs s' in (one_if (is_started r) + n, s'')
run (stop ∷ cs) s = let (r, s') = server_stop s in run cs s'
