-- ===== src/Fslog/Reads.antt =====
-- From which descriptors a file is read, and to where.
use tcpeen.Base.{
  ℕ, suc, ◌≡◌, refl, ap, ◌∙◌, ◌⊎◌, inl, inr, true, false, map, Option, none, some, List, [], ◌∷◌,
  get_elem?, get_elem?-some, get_elem?-modify_self, Status, success, failed, arith,
}
use tcpeen.Queue.Refine.{contents}
use tcpeen.Buffer
use tcpeen.Buffer.{Buffer}
use tcpeen.Buffer.Copy.{len-reset}
use tcpeen.Pool
use tcpeen.Pool.{Pool}
use tcpeen.Pool.Inv as PoolInv
use tcpeen.Pool.Inv.{pop_back-Hands, pop_back-blocks}
use tcpeen.Fslog.{
  Fslog, good, Read, read_into, on_fslog_read_cb, on_fslog_open_cb, with_buffer, reads_file,
}

-- What is asked of libuv while the reads of a log give so many bytes, each of them one more than the
-- number here, and the log.
pub follow : List ℕ → Fslog → List (Option Read) × Fslog
follow [] f = ([], f)
follow (n ∷ ns) f =
    let (next, closed, f') = on_fslog_read_cb (good (suc n)) success f in
    let (rest, f'') = follow ns f' in (next ∷ rest, f'')

follow_same : (ns : List ℕ) (f : Fslog) → follow ns f ≡ (map (λ n. read_into (suc n) f) ns, f)
unfolding follow on_fslog_read_cb
follow_same [] f = refl
follow_same (n ∷ ns) f = rw (follow_same ns f) refl

-- A read of a whole block to the start of buffer `b`.
abbrev pub whole : Pool → ℕ → ℕ → Option Read
whole p b file = some (record { file = file; buffer = b; place = 0; length = p.block_size })

read_whole :
    (file b : ℕ) (f : Fslog) {buf : Buffer}
    → f.buffer ≡ some b
    → get_elem? f.pool.buffers b ≡ some buf
    → buf.buf.len ≡ 0
    → read_into file f ≡ whole f.pool b file
unfolding read_into Buffer.write_ptr Pool.buffer_capacity
read_whole file b f owner there empty = ground (arith, owner, there, empty)

map_whole : {A : Type 0} (g h : ℕ → A) (ns : List ℕ) → ((n : ℕ) → g n ≡ h n) → map g ns ≡ map h ns
map_whole g h [] e = refl
map_whole g h (n ∷ ns) e = rw (e n, map_whole g h ns e) refl

module _ (file : ℕ) (f : Fslog) (empty : f.buffer ≡ none) (t : reads_file f.type ≡ true) where
  -- The log after the open, with what the pool gives.
  abbrev with_fresh : Fslog
  with_fresh = record f {
    opened = file;
    pool = (Pool.pop_back f.pool).2;
    buffer = (Pool.pop_back f.pool).1;
  }

  gets : with_buffer (record f { opened = file }) ≡ ((Pool.pop_back f.pool).0, with_fresh)
  unfolding with_buffer
  gets = ground (arith, empty)

  opens :
      failed (Pool.pop_back f.pool).0 ≡ false
      → on_fslog_open_cb (good file) f ≡ (read_into file with_fresh, with_fresh)
  unfolding on_fslog_open_cb
  opens s = rw (t, gets, s) refl

  finds_none :
      failed (Pool.pop_back f.pool).0 ≡ true → on_fslog_open_cb (good file) f ≡ (none, with_fresh)
  unfolding on_fslog_open_cb
  finds_none s = rw (t, gets, s) refl

-- A log for reading, without a buffer and with a valid pool, opens its file. Where no buffer is free,
-- nothing is read. Otherwise it gets the oldest free buffer. The first read is from the
-- descriptor of the file, and, when the reads give so many bytes, every later one is from a descriptor
-- that is the number of bytes of the one before; all of them are of a whole block to the start of that
-- buffer. At the end of the file the descriptor of the open is closed.
pub follow_astray :
    {m : ℕ} (file : ℕ) (ns : List ℕ) (f : Fslog) (close : Status)
    → PoolInv.IsValid m f.pool
    → f.buffer ≡ none
    → reads_file f.type ≡ true
    → let (first, f') = on_fslog_open_cb (good file) f in
      ((contents f.pool.free ≡ []) × (first ≡ none) × (f'.buffer ≡ none))
      ⊎ ((b : ℕ) × (contents f.pool.free ≡ b ∷ contents f'.pool.free)
          × (f'.buffer ≡ some b)
          × (first ≡ whole f.pool b file)
          × (follow ns f' ≡ (map (λ n. whole f.pool b (suc n)) ns, f'))
          × ((on_fslog_read_cb (good 0) close f').1 ≡ some file))
unfolding on_fslog_read_cb
follow_astray file ns f close v empty t = elim (pop_back-Hands v) [
  | inl (none_left, s, o, same) ↦
      rw (finds_none file f empty t (ap failed s)) (inl (none_left, refl, o))
  | inr (b, s, o, (step, _, reset, below, w)) ↦
      let (old, there) = get_elem?-some f.pool.buffers b (omega (arith, v.sized, below)) in
      let there' : get_elem? (Pool.pop_back f.pool).2.buffers b ≡ some (Buffer.reset old) =
        ap (λ bs. get_elem? bs b) reset
        ∙ get_elem?-modify_self f.pool.buffers b Buffer.reset old there in
      let read : (n : ℕ) → read_into n (with_fresh file f empty t) ≡ whole f.pool b n = λ n.
        read_whole n b (with_fresh file f empty t) o there' (len-reset old)
        ∙ ap (λ k. some (record { file = n; buffer = b; place = 0; length = k }))
            (pop_back-blocks f.pool).1 in
      rw (opens file f empty t (ap failed s)) (
        inr (
          b,
          step,
          o,
          read file,
          follow_same ns (with_fresh file f empty t)
              ∙ ap (λ rs. (rs, with_fresh file f empty t))
                  (map_whole (λ n. read_into (suc n) (with_fresh file f empty t))
                    (λ n. whole f.pool b (suc n)) ns (λ n. read (suc n))),
          refl,
        ))
]
