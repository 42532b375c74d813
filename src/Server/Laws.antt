-- ===== src/Server/Laws.antt =====
-- Who releases the memory of an echo, and how often the server starts.
use tcpeen.Base.{
  ℕ, ◌+◌, ◌≤◌, ◌≡◌, refl, ap, ◌⊎◌, inl, inr, Bool, true, false, Bool-cases, Option, none, some,
  List, [], ◌∷◌, ◌++◌, not, one_if, add64, Status, failed, arith,
}
use tcpeen.Server.{
  Server, Block, bytes_block, request_block, Nread, bad, nothing, got, on_send_cb, on_recv_cb,
  is_started, StartAnswers, server_start, server_stop, Call, start, stop, run,
}

-- The blocks that a read takes.
abbrev pub acquired : Nread → Bool → List Block
acquired (got n) true = bytes_block ∷ request_block ∷ []
acquired _ _ = bytes_block ∷ []

-- What the end of the write releases, with `sent` as its status, where there is one.
abbrev pub released_later : Option ℕ → Status → Server → List Block
released_later none sent s = []
released_later (some n) sent s = (on_send_cb sent n s).0

abbrev pub is_bad : Nread → Bool
is_bad (bad n) = true
is_bad _ = false

send_releases :
    (sent : Status) (n : ℕ) (s : Server)
    → (on_send_cb sent n s).0 ≡ bytes_block ∷ request_block ∷ []
unfolding on_send_cb
send_releases sent n s = elim (Bool-cases (failed sent)) [ inl f ↦ rw f refl | inr f ↦ rw f refl ]

abbrev counted : ℕ → Server → Server
counted n s = record s { recv_msgs = add64 s.recv_msgs 1; recv_bytes = add64 s.recv_bytes n }

-- The memory of a read and of its echo is released once, by the read or at the end of the write,
-- whatever comes of them. The handle is closed where the read has failed, and where there
-- are bytes and they cannot be sent back, but not where libuv is closing it.
pub on_recv_cb_lem :
    (e : Nread) (request : Bool) (write : Status) (is_closing : Bool) (sent : Status) (s : Server)
    → let (out, s') = on_recv_cb e request write is_closing s in
      (out.released ++ released_later out.written sent s' ≡ acquired e request)
      × (((e ≡ nothing) × (out.closes ≡ false) × (out.written ≡ none))
          ⊎ ((n : ℕ) × (e ≡ got n)
              × (request ≡ true)
              × (failed write ≡ false)
              × (out.closes ≡ false)
              × (out.written ≡ some n))
          ⊎ (((is_bad e ≡ true)
                ⊎ ((n : ℕ) × (e ≡ got n) × ((request ≡ false) ⊎ (failed write ≡ true))))
              × (out.closes ≡ not is_closing)
              × (out.written ≡ none)))
unfolding on_recv_cb
on_recv_cb_lem (bad n) request write is_closing sent s = (refl, inr (inr (inl refl, refl, refl)))
on_recv_cb_lem nothing request write is_closing sent s = (refl, inl (refl, refl, refl))
on_recv_cb_lem (got n) false write is_closing sent s =
    (refl, inr (inr (inr (n, refl, inl refl), refl, refl)))
on_recv_cb_lem (got n) true write is_closing sent s = elim (Bool-cases (failed write)) [
  | inl e ↦ rw e (refl, inr (inr (inr (n, refl, inr refl), refl, refl)))
  | inr e ↦
      rw (e, send_releases sent n (counted n s)) (refl, inr (inl (n, refl, refl, refl, refl, refl)))
]

-- A start sets the private part where it succeeds, and does not succeed where it was set.
start_lem :
    (a : StartAnswers) (s : Server)
    → one_if (is_started (server_start a s).0) + one_if s.thread_priv
      ≤ one_if (server_start a s).1.thread_priv
unfolding server_start
start_lem a s = elim (Bool-cases s.thread_priv) [
  | inl set ↦ rw (set, server_start) (omega arith)
  | inr unset ↦ elim (Bool-cases a.memory) [
    | inr m ↦ rw (unset, m) (omega arith)
    | inl m ↦ ground (arith, unset, m)
  ]
]

stop_lem : (s : Server) → (server_stop s).1.thread_priv ≡ s.thread_priv
unfolding server_stop
stop_lem s = elim (Bool-cases s.closing) [ inl e ↦ rw e refl | inr e ↦ rw e refl ]

-- Over any calls of start and stop, at most one start succeeds, and none where the private part
-- was set before: the pointer to it is never cleared.
pub run-le : (cs : List Call) (s : Server) → (run cs s).0 + one_if s.thread_priv ≤ 1
unfolding run
run-le [] s = elim (Bool-cases s.thread_priv) [
  | inl e ↦ rw e (omega arith)
  | inr e ↦ rw e (omega arith)
]
run-le (start a ∷ cs) s = omega (arith, start_lem a s, run-le cs (server_start a s).1)
run-le (stop ∷ cs) s = omega (arith, ap one_if (stop_lem s), run-le cs (server_stop s).1)
