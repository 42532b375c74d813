-- ===== src/Fslog/Tests.antt =====
-- A log that has been set up, and one that has failed.
use tcpeen.Base.{ℕ, ◌⊎◌, none, suc, ◌≡◌, refl, some, [], ◌∷◌, map, success}
use tcpeen.Pool.Tests.{half, half-IsValid, one_free}
use tcpeen.Fslog.{
  Fslog, fslog_starting, fslog_error, fslog_read, good, bad, on_fslog_open_cb, on_fslog_read_cb,
}
use tcpeen.Fslog.Laws.{opened, was_read, cleans_up, run_all, run_all_fails}
use tcpeen.Fslog.Reads.{whole, follow, follow_astray}
use tcpeen.Queue.Refine.{contents}

abbrev log : Fslog
log = record { pool = half; buffer = none; state = fslog_starting; type = fslog_read; opened = 0 }

abbrev spoiled : Fslog
spoiled = record log { state = fslog_error }

run_all_fails_example :
    let (n, f) =
      run_all (opened (good 3) ∷ was_read (bad 4) success ∷ cleans_up (λ f. f) ∷ []) spoiled in
    (n ≡ 0) × (f.state ≡ fslog_error)
run_all_fails_example =
    run_all_fails (opened (good 3) ∷ was_read (bad 4) success ∷ cleans_up (λ f. f) ∷ []) spoiled
      refl

follow_astray_example :
    let (first, f') = on_fslog_open_cb (good 3) log in
    ((contents one_free ≡ []) × (first ≡ none) × (f'.buffer ≡ none))
    ⊎ ((b : ℕ) × (contents one_free ≡ b ∷ contents f'.pool.free)
        × (f'.buffer ≡ some b)
        × (first ≡ whole half b 3)
        × (follow (7 ∷ 1 ∷ []) f' ≡ (map (λ n. whole half b (suc n)) (7 ∷ 1 ∷ []), f'))
        × ((on_fslog_read_cb (good 0) success f').1 ≡ some 3))
follow_astray_example = follow_astray 3 (7 ∷ 1 ∷ []) log success half-IsValid refl refl
