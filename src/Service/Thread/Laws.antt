-- ===== src/Service/Thread/Laws.antt =====
-- What the IO thread leaves behind.
use tcpeen.Base.{
  ◌≡◌, refl, ◌⊎◌, inl, inr, Bool, Bool-cases, true, false, not, [], ◌∷◌, filter, Status, arith,
}
use tcpeen.Service.{Service, service_starting, service_started}
use tcpeen.Service.Lifecycle.{listener_up, set_state, get_state}
use tcpeen.Service.Thread.{
  Member, uv_loop, tcp_handle, uv_accept_timer, uv_prep, uv_check, uv_signal, is_released, Call,
  members, calls, acquire_members, get_ready, io_thread,
}

-- Either all members have memory, or one before the last has none.
acquire_cases :
    (there : Member → Bool)
    → let (all, got) = acquire_members there members in
      let left = filter (λ h. not (is_released h)) got in
      ((all ≡ true) × (there uv_signal ≡ true) × (left ≡ uv_signal ∷ []))
      ⊎ ((all ≡ false) × (left ≡ []))
unfolding acquire_members
acquire_cases there = elim (Bool-cases (there uv_loop)) [
  | inr missing ↦ rw missing (inr (refl, refl))
  | inl a ↦ elim (Bool-cases (there tcp_handle)) [
    | inr missing ↦ rw (a, missing) (inr (refl, refl))
    | inl b ↦ elim (Bool-cases (there uv_accept_timer)) [
      | inr missing ↦ rw (a, b, missing) (inr (refl, refl))
      | inl c ↦ elim (Bool-cases (there uv_prep)) [
        | inr missing ↦ rw (a, b, c, missing) (inr (refl, refl))
        | inl d ↦ elim (Bool-cases (there uv_check)) [
          | inr missing ↦ rw (a, b, c, d, missing) (inr (refl, refl))
          | inl e ↦ elim (Bool-cases (there uv_signal)) [
            | inr missing ↦ rw (a, b, c, d, e, missing) (inr (refl, refl))
            | inl f ↦ rw (a, b, c, d, e, f) (inl (refl, refl, refl))
          ]
        ]
      ]
    ]
  ]
]

listener_up_cases :
    (s : Service)
    → let (runs, s') = listener_up s in
      ((runs ≡ true) × (s.state ≡ service_starting) × (s' ≡ record s { state = service_started }))
      ⊎ ((runs ≡ false) × (s' ≡ s))
unfolding listener_up set_state get_state
listener_up_cases s = ground arith

-- Whatever memory it gets and libuv answers, the IO thread runs the loop of libuv only where the
-- service was starting, and is started then; otherwise the service does not change. What it
-- does not release is nothing, or the signal handle where it has memory.
pub io_thread_leaves :
    (there : Member → Bool) (answers : Call → Status) (s : Service)
    → let (left, runs, s') = io_thread there answers s in
      (((runs ≡ true)
          × (s.state ≡ service_starting)
          × (s' ≡ record s { state = service_started })
          × (left ≡ uv_signal ∷ []))
        ⊎ ((runs ≡ false) × (s' ≡ s)))
      × ((left ≡ []) ⊎ ((left ≡ uv_signal ∷ []) × (there uv_signal ≡ true)))
unfolding io_thread
io_thread_leaves there answers s = elim (acquire_cases there) [
  | inr (some_missing, none_left) ↦ rw (some_missing, none_left) (inr (refl, refl), inl refl)
  | inl (all, signal, left) ↦ elim (Bool-cases (get_ready answers calls)) [
    | inr missing ↦ rw (all, missing, left) (inr (refl, refl), inr (refl, signal))
    | inl ready ↦ elim (listener_up_cases s) [
      | inl (runs, state, same) ↦
          rw (all, ready, left) (inl (runs, state, same, refl), inr (refl, signal))
      | inr (stays, same) ↦ rw (all, ready, left) (inr (stays, same), inr (refl, signal))
    ]
  ]
]
