-- ===== src/Server/Loop.antt =====
-- The thread of src/tcpserv/tcpserv.c, `uvu_server_run`: the handles it asks memory for, the calls of
-- libuv, and what it releases. What the callbacks do while `uv_run` runs is in Server.
use tcpeen.Base.{
  ◌≡◌, refl, inl, inr, Bool, Bool-cases, true, false, ◌&&◌, List, [], ◌∷◌, ◌++◌, if◌then◌else◌,
  Status, failed,
}

pub data Handle : Type 0 where
  loop_handle tcp_handle timer_handle : Handle

-- The calls in the order of the code, up to `uv_run`.
pub data Prepare : Type 0 where
  loop_init timer_init timer_start tcp_init tcp_nodelay tcp_bind listen run_loop : Prepare

abbrev pub handles : List Handle
handles = loop_handle ∷ tcp_handle ∷ timer_handle ∷ []

abbrev pub calls : List Prepare
calls =
    loop_init ∷ timer_init ∷ timer_start ∷ tcp_init ∷ tcp_nodelay ∷ tcp_bind ∷ listen ∷ run_loop
    ∷ []

-- The handles that have memory when the first request fails, or all of them; the others are NULL.
pub acquire : (Handle → Bool) → List Handle → Bool × List Handle
acquire there [] = (true, [])
acquire there (h ∷ hs) =
    let (all, got) = acquire there hs in if there h then (all, h ∷ got) else (false, [])

abbrev pub is_timer : Handle → Bool
is_timer timer_handle = true
is_timer _ = false

abbrev pub is_tcp : Handle → Bool
is_tcp tcp_handle = true
is_tcp _ = false

abbrev pub is_loop : Handle → Bool
is_loop loop_handle = true
is_loop _ = false

-- Those of the handles that pass the test.
pub only : (Handle → Bool) → List Handle → List Handle
only test [] = []
only test (h ∷ hs) = let rest = only test hs in if test h then h ∷ rest else rest

-- `uvu_server_run_cleanup` where these handles are not NULL: what is released, in the order of the
-- code.
pub run_cleanup : List Handle → List Handle
unfolding only
run_cleanup hs = only is_timer hs ++ only is_tcp hs ++ only is_loop hs

-- The calls go on until one fails.
pub all_succeed : (Prepare → Status) → List Prepare → Bool
all_succeed answers [] = true
all_succeed answers (c ∷ cs) =
    let rest = all_succeed answers cs in if failed (answers c) then false else rest

-- The answers to the requests for memory, to the calls, and to the two attempts to close the loop.
pub record Answers : Type 0 where
  pub memory : Handle → Bool
  pub calls : Prepare → Status
  pub loop_close : Status
  pub loop_close_again : Status

-- How the thread ends: whether it comes to its end without an error, the handles it had, and those that
-- it releases.
pub record Ended : Type 0 where
  pub well : Bool
  pub acquired : List Handle
  pub released : List Handle

pub server_run : Answers → Ended
unfolding acquire run_cleanup all_succeed
server_run a =
    let (all, got) = acquire a.memory handles in
    let closed =
      if failed a.loop_close then (if failed a.loop_close_again then false else true) else true in
    record {
      well = all && all_succeed a.calls calls && closed;
      acquired = got;
      released = run_cleanup got;
    }

-- Whatever fails, the thread releases each handle that it has, once, the last one first.
abbrev reversed : List Handle → List Handle
reversed [] = []
reversed (h ∷ hs) = reversed hs ++ h ∷ []

pub run_releases : (a : Answers) → (server_run a).released ≡ reversed (server_run a).acquired
unfolding server_run acquire run_cleanup only
run_releases a = elim (Bool-cases (a.memory loop_handle)) [
  | inr l ↦ rw l refl
  | inl l ↦ elim (Bool-cases (a.memory tcp_handle)) [
    | inr t ↦ rw (l, t) refl
    | inl t ↦ elim (Bool-cases (a.memory timer_handle)) [
      | inr i ↦ rw (l, t, i) refl
      | inl i ↦ rw (l, t, i) refl
    ]
  ]
]
