-- ===== src/Service/Thread.antt =====
-- `tcp_service_io_thread`: the handles that it asks memory for, the calls of libuv by which it gets
-- ready, and what it does to the state of the service. What the callbacks do while `uv_run` runs is
-- in Callbacks and Connect. A NULL service or private part, on which the thread ends at once, is not
-- modelled.
pub mod Laws
use tcpeen.Base.{
  ℕ, Bool, true, false, ◌&&◌, not, List, [], ◌∷◌, filter, if◌then◌else◌, Status, success, failed,
}
use tcpeen.Service.{Service}
use tcpeen.Service.Lifecycle.{listener_up}

-- The members of `tcp_service_priv_t` in the order in which they get memory.
pub data Member : Type 0 where
  uv_loop tcp_handle uv_accept_timer uv_prep uv_check uv_signal : Member

-- The calls of libuv before the listener is up, in the order of the code.
pub data Call : Type 0 where
  loop_init timer_init timer_start prepare_init prepare_start check_init check_start : Call
  tcp_init tcp_nodelay tcp_bind listen : Call

abbrev pub members : List Member
members = uv_loop ∷ tcp_handle ∷ uv_accept_timer ∷ uv_prep ∷ uv_check ∷ uv_signal ∷ []

abbrev pub calls : List Call
calls =
    loop_init ∷ timer_init ∷ timer_start ∷ prepare_init ∷ prepare_start ∷ check_init ∷ check_start
    ∷ tcp_init ∷ tcp_nodelay ∷ tcp_bind ∷ listen ∷ []

-- The members that have memory when the first request fails, or all of them.
pub acquire_members : (Member → Bool) → List Member → Bool × List Member
acquire_members there [] = (true, [])
acquire_members there (h ∷ hs) =
    let (all, got) = acquire_members there hs in if there h then (all, h ∷ got) else (false, [])

-- The calls go on until one fails.
pub get_ready : (Call → Status) → List Call → Bool
get_ready answers [] = true
get_ready answers (c ∷ cs) =
    let rest = get_ready answers cs in if failed (answers c) then false else rest

-- The members that the end of the thread releases.
abbrev pub is_released : Member → Bool
is_released uv_signal = false
is_released _ = true

-- The members whose memory is not released, whether the loop of libuv is run, and the service when
-- it starts to run, or at the end where it does not.
pub io_thread : (Member → Bool) → (Call → Status) → Service → List Member × Bool × Service
unfolding acquire_members get_ready
io_thread there answers s =
    let (all, got) = acquire_members there members in
    let left = filter (λ h. not (is_released h)) got in
    let (runs, s') = listener_up s in
    if all && get_ready answers calls then (left, runs, s') else (left, false, s)
