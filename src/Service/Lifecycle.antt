-- ===== src/Service/Lifecycle.antt =====
-- `tcp_service_start`, `tcp_service_stop`, `tcp_service_stop_signal` and `tcp_service_state`, what
-- the IO thread does to the state, and `on_sigint_cb`. Launching and joining a thread are
-- parameters.
pub mod Moves
use tcpeen.Base.{
  ℕ, Bool, true, false, ◌||◌, Option, List, [], ◌∷◌, if◌then◌else◌, Status, success, error, failed,
}
use tcpeen.Endpoint
use tcpeen.Endpoint.{AddrOps}
use tcpeen.Service.{
  Service, ServiceState, service_new, service_starting, service_started, service_stopping,
  service_stopped, service_error, service_invalid,
}

unfoldable pub set_state : Service → ServiceState → Service
set_state s state = record s { state = state }

unfoldable pub get_state : Service → ServiceState
get_state s = s.state

-- `state == TCP_SERVICE_NEW || state == TCP_SERVICE_STOPPED`
abbrev pub may_start : ServiceState → Bool
may_start service_new = true
may_start service_stopped = true
may_start _ = false

-- `state == TCP_SERVICE_STOPPING || state == TCP_SERVICE_STOPPED`
abbrev pub has_stopped : ServiceState → Bool
has_stopped service_stopping = true
has_stopped service_stopped = true
has_stopped _ = false

unfoldable pub start : AddrOps → Status → Service → Option (List ℕ) → ℕ → Status × Service
unfolding set_state get_state
start ops launched s ip port =
    let starting = set_state s service_starting in
    let (r, host) = Endpoint.set ops s.host_listen ip port in
    let listening : Service = record starting { host_listen = host } in
    if may_start (get_state s)
    then (if failed r
        then (error, listening)
        else (if failed (Endpoint.get_string ops host).0
            then (error, listening)
            else (if failed launched then (error, listening) else (success, listening))))
    else (error, s)

-- The result of the join is only logged.
pub stop : Service → Status × Service
unfolding set_state get_state
stop s =
    if has_stopped (get_state s)
    then (error, s)
    else (success, set_state (set_state s service_stopping) service_stopped)

unfoldable pub stop_signal : Service → Status × Service
unfolding set_state get_state
stop_signal s =
    if has_stopped (get_state s) then (error, s) else (success, set_state s service_stopping)

-- The IO thread has its listener up: it runs the loop only where the service is still starting.
unfoldable pub listener_up : Service → Bool × Service
unfolding set_state get_state
listener_up s = elim (get_state s) [
  | service_starting ↦ (true, set_state s service_started)
  | _ ↦ (false, s)
]

-- `interrupted` is the test `signum == SIGINT`.
pub on_sigint_cb : Bool → Service → Service
unfolding stop_signal
on_sigint_cb interrupted s = if interrupted then (stop_signal s).1 else s

-- The handles that the timer closes on the first tick after the service has left its started state.
pub data Handle : Type 0 where
  tcp_handle accept_timer prep check : Handle

abbrev pub still_open : (Handle → Bool) → List Handle → List Handle
still_open closing [] = []
still_open closing (h ∷ hs) =
    let rest = still_open closing hs in if closing h then rest else h ∷ rest

pub on_timer_cb : (Handle → Bool) → Service → List Handle
unfolding get_state
on_timer_cb closing s = elim (get_state s) [
  | service_started ↦ []
  | _ ↦ still_open closing (tcp_handle ∷ accept_timer ∷ prep ∷ check ∷ [])
]
