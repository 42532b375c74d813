-- ===== src/Service/Lifecycle/Moves.antt =====
-- The state machine of the service, over all the calls that change its state.
use tcpeen.Base.{
  ℕ, Bool, true, ◌≡◌, ◌≢◌, refl, sym, subst, Option, List, [], ◌∷◌, Status, success, error, arith,
  ◌⊎◌, inl, inr, if◌then◌else◌, Bool-cases,
}
use tcpeen.Endpoint.{AddrOps}
use tcpeen.Service.{
  Service, ServiceState, service_new, service_starting, service_started, service_stopping,
  service_stopped,
}
use tcpeen.Service.Lifecycle.{
  start, stop, stop_signal, listener_up, on_sigint_cb, set_state, get_state, may_start,
}

-- The calls, each with what its surroundings answer.
pub data Call : Type 0 where
  starts : AddrOps → Status → Option (List ℕ) → ℕ → Call
  stops signals comes_up : Call
  interrupts : Bool → Call

pub step : Call → Service → Service
step (starts ops launched ip port) s = (start ops launched s ip port).1
step stops s = (stop s).1
step signals s = (stop_signal s).1
step comes_up s = (listener_up s).1
step (interrupts b) s = on_sigint_cb b s

pub run : List Call → Service → Service
run [] s = s
run (c ∷ cs) s = run cs (step c s)

-- The moves of the state: new or stopped to starting, starting to started, and any state that is
-- not stopping or stopped to one of these two.
abbrev pub Moves : ServiceState → ServiceState → Type 0
Moves s t =
    (((s ≡ service_new) ⊎ (s ≡ service_stopped)) × (t ≡ service_starting))
    ⊎ ((s ≡ service_starting) × (t ≡ service_started))
    ⊎ ((s ≢ service_stopping)
        × (s ≢ service_stopped)
        × ((t ≡ service_stopping) ⊎ (t ≡ service_stopped)))

start-state :
    (ops : AddrOps) (launched : Status) (s : Service) (ip : Option (List ℕ)) (port : ℕ)
    → (start ops launched s ip port).1.state
      ≡ (if may_start s.state then service_starting else s.state)
unfolding start set_state get_state
start-state ops launched s ip port = elim (Bool-cases (may_start s.state)) [
  | inl e ↦ rw e (ground arith)
  | inr e ↦ rw e refl
]

starting-Moves :
    (t : ServiceState) → let u = if may_start t then service_starting else t in (u ≡ t) ⊎ Moves t u
starting-Moves t = ground arith

-- A call of start, stop, stop_signal, the interrupt or the coming up of the listener leaves the
-- state as it is or moves it: from new or stopped to starting, from starting to started, or from
-- a state other than stopping and stopped to one of these two.
pub step-Moves :
    (c : Call) (s : Service) → ((step c s).state ≡ s.state) ⊎ Moves s.state (step c s).state
unfolding step stop stop_signal listener_up on_sigint_cb set_state get_state
step-Moves (starts ops launched ip port) s =
    subst (λ u. (u ≡ s.state) ⊎ Moves s.state u) (sym (start-state ops launched s ip port))
      (starting-Moves s.state)
step-Moves stops s = ground arith
step-Moves signals s = ground arith
step-Moves comes_up s = ground arith
step-Moves (interrupts b) s = ground arith

stuck : (c : Call) (s : Service) → s.state ≡ service_stopping → (step c s).state ≡ service_stopping
unfolding step start stop stop_signal listener_up on_sigint_cb set_state get_state
stuck (starts ops launched ip port) s e = ground arith
stuck stops s e = ground arith
stuck signals s e = ground arith
stuck comes_up s e = ground arith
stuck (interrupts b) s e = ground arith

stays :
    (cs : List Call) (s : Service)
    → s.state ≡ service_stopping
    → (run cs s).state ≡ service_stopping
unfolding run
stays [] s e = e
stays (c ∷ cs) s e = stays cs (step c s) (stuck c s e)

refused : (s : Service) → s.state ≡ service_stopping → (stop s).0 ≡ error
unfolding stop get_state set_state
refused s e = ground arith

-- After a successful stop signal, whatever calls of start, stop, stop_signal, the interrupt and
-- the coming up of the listener follow, the service stays stopping, and `tcp_service_stop` is
-- refused.
pub stop_signal-stopping :
    (cs : List Call) (s : Service)
    → (stop_signal s).0 ≡ success
    → let r = run cs (stop_signal s).1 in (r.state ≡ service_stopping) × ((stop r).0 ≡ error)
stop_signal-stopping cs s e =
    let there : (run cs (stop_signal s).1).state ≡ service_stopping =
      stays cs (stop_signal s).1 (signalled s e) in
    (there, refused (run cs (stop_signal s).1) there)
  where
    signalled :
        (s : Service) → (stop_signal s).0 ≡ success → (stop_signal s).1.state ≡ service_stopping
    signalled s e = unfold stop_signal set_state get_state in ground arith

-- A start that is let through and then fails leaves the service starting, and every further
-- start is refused and changes nothing.
pub start_failed :
    (ops ops' : AddrOps) (launched launched' : Status) (s : Service) (ip ip' : Option (List ℕ))
    (port port' : ℕ)
    → (start ops launched s ip port).0 ≡ error
    → may_start s.state ≡ true
    → let r = (start ops launched s ip port).1 in
      (r.state ≡ service_starting) × (start ops' launched' r ip' port' ≡ (error, r))
unfolding start set_state get_state
start_failed ops ops' launched launched' s ip ip' port port' e may =
    let left : (start ops launched s ip port).1.state ≡ service_starting = ground arith in
    (left, rw left refl)
