-- ===== src/Fslog/Laws.antt =====
-- What becomes of a log after an error, and what is left when its thread ends.
use tcpeen.Base.{
  ℕ, zero, suc, ◌+◌, ◌≡◌, refl, ap, ◌∙◌, inl, inr, Bool, true, false, Bool-cases, Option-cases,
  ◌||◌, if◌then◌else◌, List, [], ◌∷◌, one_if, Status, failed, arith,
}
use tcpeen.Pool
use tcpeen.Fslog.{
  Fslog, fslog_error, Result, bad, good, set_state, on_write, on_fslog_read_cb, on_fslog_open_cb,
  with_buffer, cleanup, reads_file, Answers, thread, thread_loop, leave, is_starting,
}

-- What happens to a log: a callback with its result, or the cleanup, with what the thread does
-- meanwhile.
pub data Event : Type 0 where
  opened : Result → Event
  was_read : Result → Status → Event
  was_written : Result → Event
  cleans_up : (Fslog → Fslog) → Event

-- Whether the thread is joined, and the log.
pub run : Event → Fslog → Bool × Fslog
run (opened r) f = (false, (on_fslog_open_cb r f).1)
run (was_read r close) f = (false, (on_fslog_read_cb r close f).2)
run (was_written r) f = (false, on_write r f)
run (cleans_up thread) f = cleanup thread f

-- How often the thread is joined, and the log.
pub run_all : List Event → Fslog → ℕ × Fslog
run_all [] f = (0, f)
run_all (e ∷ es) f =
    let (joined, f') = run e f in let (n, f'') = run_all es f' in (one_if joined + n, f'')

with_buffer_state : (f : Fslog) → (with_buffer f).1.state ≡ f.state
unfolding with_buffer
with_buffer_state f = elim (Option-cases f.buffer) [ inl e ↦ rw e refl | inr (i, e) ↦ rw e refl ]

module _ (f : Fslog) (h : f.state ≡ fslog_error) where
  read_fails : (r : Result) (close : Status) → (on_fslog_read_cb r close f).2.state ≡ fslog_error
  unfolding on_fslog_read_cb set_state
  read_fails (bad e) close = refl
  read_fails (good zero) close = elim (Bool-cases (failed close)) [
    | inl e ↦ rw e refl
    | inr e ↦ rw e h
  ]
  read_fails (good (suc n)) close = h

  open_fails : (r : Result) → (on_fslog_open_cb r f).1.state ≡ fslog_error
  unfolding on_fslog_open_cb set_state
  open_fails (bad e) = refl
  open_fails (good file) = elim (Bool-cases (reads_file f.type)) [
    | inr e ↦ rw e h
    | inl e ↦ elim (Bool-cases (failed (with_buffer (record f { opened = file })).0)) [
      | inl q ↦ rw (e, q) (with_buffer_state (record f { opened = file }) ∙ h)
      | inr q ↦ rw (e, q) (with_buffer_state (record f { opened = file }) ∙ h)
    ]
  ]

  run_fails : (e : Event) → ((run e f).0 ≡ false) × ((run e f).1.state ≡ fslog_error)
  unfolding run on_write cleanup set_state
  run_fails (opened r) = (refl, open_fails r)
  run_fails (was_read r close) = (refl, read_fails r close)
  run_fails (was_written (bad e)) = (refl, refl)
  run_fails (was_written (good n)) = (refl, h)
  run_fails (cleans_up thread) = rw h (refl, refl)

-- After an error, through any callbacks with any results and any cleanups, in any order, the state
-- stays as it is, and no cleanup joins the thread. A new setup is not among these.
pub run_all_fails :
    (es : List Event) (f : Fslog)
    → f.state ≡ fslog_error
    → ((run_all es f).0 ≡ 0) × ((run_all es f).1.state ≡ fslog_error)
unfolding run_all
run_all_fails [] f h = (refl, h)
run_all_fails (e ∷ es) f h =
    let (joined, state) = run_fails f h e in
    let (none_joined, end) = run_all_fails es (run e f).1 state in
    (omega (arith, ap one_if joined, none_joined), end)

-- The pool of a log has no buffers.
pub record IsDrained (f : Fslog) : Type 0 where
  pub empty : f.pool.buffers ≡ []

-- One of the two branches is taken.
if-IsDrained : (b : Bool) {f g : Fslog} → IsDrained f → IsDrained g → IsDrained (if b then f else g)
if-IsDrained true p q = p
if-IsDrained false p q = q

leave-IsDrained : (erred : Bool) (f : Fslog) → IsDrained (leave erred f)
unfolding leave Pool.cleanup
leave-IsDrained erred f = record { empty = refl }

thread_loop-IsDrained :
    (a : Answers) (callbacks : Fslog → Fslog) (f : Fslog) → IsDrained (thread_loop a callbacks f)
unfolding thread_loop
thread_loop-IsDrained a callbacks f =
    if-IsDrained (is_starting f.state)
      (if-IsDrained (failed a.fs_open) (leave-IsDrained false _) (ends _)) (ends f)
  where
    ends :
        (g : Fslog)
        → IsDrained
            (if failed a.loop_close then leave (failed a.loop_close_again) g else leave false g)
    ends g =
        if-IsDrained (failed a.loop_close) (leave-IsDrained (failed a.loop_close_again) g)
          (leave-IsDrained false g)

-- However the thread ends, its pool has no buffers left.
pub thread-IsDrained :
    (a : Answers) (callbacks : Fslog → Fslog) (f : Fslog) → IsDrained (thread a callbacks f)
unfolding thread
thread-IsDrained a callbacks f = if-IsDrained _ (leave-IsDrained true ready) (
    if-IsDrained a.loop_memory
      (if-IsDrained (failed a.loop_init) (leave-IsDrained true ready) (
        if-IsDrained a.timer_memory
          (if-IsDrained (failed a.timer_init || failed a.timer_start) (leave-IsDrained true ready)
            (thread_loop-IsDrained a callbacks ready))
          (leave-IsDrained false ready)))
      (leave-IsDrained true ready))
  where
    ready : Fslog
    ready = record f { pool = (Pool.setup a.ops a.memory a.pool_id f.pool 10000 65535).1 }
