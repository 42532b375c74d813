-- ===== src/Fslog.antt =====
-- src/fslog.c and include/tn/fslog.h: a file that an IO thread of its own reads or writes. What libuv
-- answers to a call is a parameter; a file descriptor is a number. The functions that open, close,
-- read and write do nothing yet in the code and are not modelled, and neither is what is logged.
pub mod Laws
pub mod Reads
pub mod Tests
use tcpeen.Base.{
  ℕ, zero, suc, ◌+◌, Bool, true, false, ◌||◌, Option, none, some, List, [], ◌∷◌, ◌++◌,
  if◌then◌else◌, get_elem?, Status, success, error, failed,
}
use tcpeen.Memory.{Memory}
use tcpeen.Bytes.{ByteOps}
use tcpeen.Buffer
use tcpeen.Pool
use tcpeen.Pool.{Pool}

pub data FslogState : Type 0 where
  fslog_new fslog_starting fslog_started fslog_stopping fslog_stopped : FslogState
  fslog_error fslog_invalid : FslogState

pub data FslogType : Type 0 where
  fslog_none fslog_read fslog_write fslog_unknown : FslogType

-- `opened` is `uv_fsopen_req.result` of the private part.
pub record Fslog : Type 0 where
  pub pool : Pool
  pub buffer : Option ℕ
  pub state : FslogState
  pub type : FslogType
  pub opened : ℕ

-- `req->result`: the error -(n + 1), or a number.
pub data Result : Type 0 where
  bad : ℕ → Result
  good : ℕ → Result

-- A read that is asked of libuv: the descriptor, the place in the buffer and the length.
pub record Read : Type 0 where
  pub file : ℕ
  pub buffer : ℕ
  pub place : ℕ
  pub length : ℕ

unfoldable pub set_state : FslogState → Fslog → Fslog
set_state t f = record f { state = t }

pub on_write : Result → Fslog → Fslog
unfolding set_state
on_write (bad e) f = set_state fslog_error f
on_write (good n) f = f

-- `uv_fs_read` on the descriptor `file` into the buffer of the log; `none` where that is NULL.
unfoldable pub read_into : ℕ → Fslog → Option Read
read_into file f = elim f.buffer [
  | none ↦ none
  | some i ↦ elim (get_elem? f.pool.buffers i) [
    | none ↦ none
    | some b ↦ some (record {
      file = file;
      buffer = i;
      place = Buffer.write_ptr b;
      length = Pool.buffer_capacity f.pool;
    })
  ]
]

-- `close` is the answer of `uv_fs_close`. The read that is asked for, the descriptor that is
-- closed, and the log.
unfoldable pub on_fslog_read_cb : Result → Status → Fslog → Option Read × Option ℕ × Fslog
unfolding set_state read_into
on_fslog_read_cb (bad e) close f = (none, none, set_state fslog_error f)
on_fslog_read_cb (good zero) close f =
    (none, some f.opened, if failed close then set_state fslog_error f else f)
on_fslog_read_cb (good (suc n)) close f = (read_into (suc n) f, none, f)

abbrev pub reads_file : FslogType → Bool
reads_file fslog_read = true
reads_file _ = false

-- A buffer is taken out of the pool where there is none yet.
unfoldable pub with_buffer : Fslog → Status × Fslog
with_buffer f = elim f.buffer [
  | some i ↦ (success, f)
  | none ↦ let (s, out, p) = Pool.pop_back f.pool in (s, record f { pool = p; buffer = out })
]

unfoldable pub on_fslog_open_cb : Result → Fslog → Option Read × Fslog
unfolding set_state read_into with_buffer
on_fslog_open_cb (bad e) f = (none, set_state fslog_error f)
on_fslog_open_cb (good file) f =
    let f' : Fslog = record f { opened = file } in
    let (s, f'') = with_buffer f' in
    if reads_file f.type
    then (if failed s then (none, f'') else (read_into file f'', f''))
    else (none, f')

-- After `memset`, `zeroed` being a pool of which all is 0; `launch` is the answer to the launch of the
-- thread.
pub setup : Pool → FslogType → Status → Status × Fslog
setup zeroed t launch =
    let f : Fslog = record {
      pool = zeroed;
      buffer = none;
      state = fslog_starting;
      type = t;
      opened = 0;
    } in
    if failed launch then (error, f) else (success, f)

-- Whether the thread is still to be joined.
abbrev pub is_running : FslogState → Bool
is_running fslog_starting = true
is_running fslog_started = true
is_running _ = false

-- `thread` is what the thread does before it ends; whether it is joined.
pub cleanup : (Fslog → Fslog) → Fslog → Bool × Fslog
unfolding set_state
cleanup thread f =
    if is_running f.state
    then (true, set_state fslog_stopped (thread (set_state fslog_stopping f)))
    else (false, f)

-- The answers of the memory and of libuv to the thread.
pub record Answers : Type 0 where
  pub ops : ByteOps
  pub memory : Memory
  pub pool_id : ℕ
  pub loop_memory : Bool
  pub loop_init : Status
  pub timer_memory : Bool
  pub timer_init : Status
  pub timer_start : Status
  pub fs_open : Status
  pub loop_close : Status
  pub loop_close_again : Status

abbrev pub is_starting : FslogState → Bool
is_starting fslog_starting = true
is_starting _ = false

-- The end of the thread, which has got an error or not.
unfoldable pub leave : Bool → Fslog → Fslog
unfolding set_state
leave erred f =
    let f' : Fslog = if erred then set_state fslog_error f else f in
    record f' { pool = Pool.cleanup f'.pool }

-- From the timer on; `run` is what the callbacks do while `uv_run` runs. A file that cannot be opened
-- ends the thread without an error, since `ret` is still that of the timer.
unfoldable pub thread_loop : Answers → (Fslog → Fslog) → Fslog → Fslog
unfolding set_state leave
thread_loop a run f =
    let started = set_state fslog_started f in
    let end = λ (g : Fslog).
      if failed a.loop_close then leave (failed a.loop_close_again) g else leave false g in
    if is_starting f.state
    then (if failed a.fs_open then leave false started else end (run started))
    else end f

-- `tn_fslog_thread` where there is memory for the private part; where there is none, the code goes on
-- to read through a pointer that was never set.
unfoldable pub thread : Answers → (Fslog → Fslog) → Fslog → Fslog
unfolding leave thread_loop
thread a run f =
    let (s, p) = Pool.setup a.ops a.memory a.pool_id f.pool 10000 65535 in
    let f' : Fslog = record f { pool = p } in
    if failed s
    then leave true f'
    else (if a.loop_memory
        then (if failed a.loop_init
            then leave true f'
            else (if a.timer_memory
                then (if failed a.timer_init || failed a.timer_start
                    then leave true f'
                    else thread_loop a run f')
                else leave false f'))
        else leave true f')
