-- ===== src/Server/Tests.antt =====
-- A server that starts twice, and a read whose bytes are sent back.
use tcpeen.Base.{
  ℕ, ◌+◌, ◌≤◌, ◌≡◌, ◌⊎◌, true, false, not, none, some, [], ◌∷◌, ◌++◌, one_if, success, failed,
}
use tcpeen.Server.{Server, StartAnswers, nothing, got, on_recv_cb, start, stop, run}
use tcpeen.Server.Laws.{acquired, released_later, is_bad, on_recv_cb_lem, run-le}

abbrev at_rest : Server
at_rest = record {
  send_msgs = 0;
  send_bytes = 0;
  recv_msgs = 0;
  recv_bytes = 0;
  thread_priv = false;
  closing = false;
}

abbrev fine : StartAnswers
fine = record {
  memory = true;
  ip6_addr = success;
  ip4_addr = success;
  known_family = true;
  thread_create = success;
}

on_recv_cb_lem_example :
    let (out, s') = on_recv_cb (got 5) true success false at_rest in
    (out.released ++ released_later out.written success s' ≡ acquired (got 5) true)
    × (((got 5 ≡ nothing) × (out.closes ≡ false) × (out.written ≡ none))
        ⊎ ((n : ℕ) × (got 5 ≡ got n)
            × (true ≡ true)
            × (failed success ≡ false)
            × (out.closes ≡ false)
            × (out.written ≡ some n))
        ⊎ (((is_bad (got 5) ≡ true)
              ⊎ ((n : ℕ) × (got 5 ≡ got n) × ((true ≡ false) ⊎ (failed success ≡ true))))
            × (out.closes ≡ not false)
            × (out.written ≡ none)))
on_recv_cb_lem_example = on_recv_cb_lem (got 5) true success false success at_rest

run-le_example : (run (start fine ∷ stop ∷ start fine ∷ []) at_rest).0 + one_if false ≤ 1
run-le_example = run-le (start fine ∷ stop ∷ start fine ∷ []) at_rest
