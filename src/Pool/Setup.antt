-- ===== src/Pool/Setup.antt =====
-- The pool that `tn_buffer_pool_setup` leaves.
use tcpeen.Base.{
  ℕ, zero, suc, ◌+◌, ◌-◌, ◌*◌, ◌%◌, ◌^◌, ◌≤◌, ◌<◌, ◌≡◌, refl, sym, ap, subst, ◌∙◌, inl, inr, some,
  List, [], ◌∷◌, ◌++◌, length, length-append, get_elem?-snoc, length-count_up, count_up,
  count_up_next, Below-count_up, u64_mod, success, arith,
}
use tcpeen.Memory.{Memory, IsMemory, IsPlenty}
use tcpeen.Bytes.{ByteOps, IsByteOps, half_word}
use tcpeen.Bytes.Slices.{slice, length-slice}
use tcpeen.Buffer.Inv as BufferInv
use tcpeen.Buffer.Copy.{setup_lem}
use tcpeen.Queue
use tcpeen.Queue.{Queue}
use tcpeen.Queue.Inv as QueueInv
use tcpeen.Queue.Refine.{contents, none_left}
use tcpeen.Queue.Cases.{push_cases}
use tcpeen.Pool.{Pool, block, fill, setup, sizeof_buffer}
use tcpeen.Pool.Inv.{IsValid}
use tcpeen.Pool.Peek.{AreValid}

-- A block lies within the allocation.
block_fits : (a i s : ℕ) → a * s + s ≤ (a + 1 + i) * s
block_fits a i s = omega arith

within : (n i s : ℕ) → i < n → (n - 1 - i) * s + s ≤ n * s
within n i s h =
    subst (λ m. (n - 1 - i) * s + s ≤ m * s) {x = n - 1 - i + 1 + i} {y = n} (omega arith)
      (block_fits (n - 1 - i) i s)

module _ (ops : ByteOps) (laws : IsByteOps ops) (id : ℕ) (allocation : List ℕ) where
  block-IsValid :
      (p : Pool) (i : ℕ)
      → i < p.block_count
      → p.block_count * p.block_size ≤ length allocation
      → p.block_size < half_word
      → BufferInv.IsValid 0 (block ops id allocation p i)
        × ((block ops id allocation p i).buf.capacity ≡ p.block_size)
  unfolding block
  block-IsValid p i h room small =
      let at : ℕ = (p.block_count - 1 - i) * p.block_size in
      let size : length (slice allocation at p.block_size) ≡ p.block_size =
        length-slice allocation at p.block_size
          (omega (arith, within p.block_count i p.block_size h, room)) in
      let (_, v, _, _, c) =
        setup_lem ops (slice allocation at p.block_size) p.block_size laws (omega (arith, size))
          small in
      (
        record {
          cursor = v.cursor;
          readable = v.readable;
          within = v.within;
          storage = v.storage;
          small = v.small;
        },
        c,
      )

  -- The pool after `i` rounds of the loop.
  pub record IsFilled (k n size i : ℕ) (p : Pool) : Type 0 where
    pub queue : QueueInv.IsValid k p.free
    pub room : n ≤ p.free.capacity
    pub count : p.block_count ≡ n
    pub block : p.block_size ≡ size
    pub unused : (p.blocks_inuse ≡ 0) × (p.bytes_inuse ≡ 0)
    pub stored : length p.buffers ≡ i
    pub valid : AreValid size p.buffers
    pub free : contents p.free ≡ count_up 0 i

  fill_lem :
      {k n size : ℕ} (rounds i : ℕ) {p : Pool}
      → IsFilled k n size i p
      → i + rounds ≡ n
      → n * size ≤ length allocation
      → size < half_word
      → (r : Pool) × (fill ops id allocation rounds i p ≡ (success, r)) × IsFilled k n size n r
  unfolding fill
  fill_lem {k} {n} {size} zero i {p} w h room small =
      (p, refl, subst (λ i. IsFilled k n size i p) {x = i} {y = n} (omega (arith, h)) w)
  fill_lem {k} {n} {size} (suc rounds) i {p} w h room small = elim (push_cases w.queue i) [
    | inl (_, full) ↦ absurd (omega (arith, full, ap length w.free, length-count_up 0 i, w.room, h))
    | inr (q, e, step, v, c, _) ↦
        let p' : Pool = record p {
          buffers = p.buffers ++ block ops id allocation p i ∷ [];
          free = q;
        } in
        let (r, done, w') =
          fill_lem {k = k} {n = n} {size = size} rounds (i + 1) {p = p'}
            (record {
              queue = v;
              room = omega (arith, w.room, c);
              count = w.count;
              block = w.block;
              unused = w.unused;
              stored =
                  omega
                    (arith, length-append p.buffers (block ops id allocation p i ∷ []), w.stored);
              valid = valid_more w (omega (arith, h)) room small;
              free = step ∙ ap (λ xs. xs ++ i ∷ []) w.free ∙ sym (count_up_next i);
            })
            (omega (arith, h)) room small in
        (r, rw e done, w')
  ]
    where
      valid_more :
          IsFilled k n size i p
          → i < n
          → n * size ≤ length allocation
          → size < half_word
          → AreValid size (p.buffers ++ block ops id allocation p i ∷ [])
      valid_more w h room small j x e =
          elim (get_elem?-snoc p.buffers (block ops id allocation p i) j e) [
            | inl same ↦
                let (v, c) =
                  block-IsValid p i (rw w.count h) (rw (w.count, w.block) room)
                    (rw w.block small) in
                (
                  0,
                  subst (BufferInv.IsValid 0) (sym same) v,
                  ap (λ b. b.buf.capacity) same ∙ c ∙ w.block,
                )
            | inr old ↦ w.valid j x old
          ]

filled-IsValid :
    {ops : ByteOps} {laws : IsByteOps ops} {id : ℕ} {allocation : List ℕ} {k n size : ℕ} {r : Pool}
    → IsFilled ops laws id allocation k n size n r
    → n < u64_mod
    → size < u64_mod
    → IsValid k r
filled-IsValid {n = n} {size = size} {r = r} w narrow small = record {
  queue = w.queue;
  counted = omega (arith, w.unused.0, ap length w.free, length-count_up 0 n, w.count);
  bytes = w.unused.1 ∙ sym (ap (λ b. b * r.block_size % u64_mod) w.unused.0 ∙ none r.block_size);
  sized = w.stored ∙ sym w.count;
  room = omega (arith, w.room, w.count);
  words = (omega (arith, w.block, small), omega (arith, w.count, narrow));
  known = rw (w.count, w.free) (Below-count_up n 0 n (omega arith));
}
  where
    none : (s : ℕ) → 0 * s % u64_mod ≡ 0
    none s = omega arith

-- What the loop starts from, where all the memory is there.
abbrev raw : Memory → Pool → ℕ → ℕ → Pool
raw mem p n size = record p {
  block_count = n;
  block_size = size;
  blocks_inuse = 0;
  bytes_inuse = 0;
  buffers = [];
  free = (Queue.setup mem.words p.free n).1;
}

setup_steps :
    (ops : ByteOps) (mem : Memory) (id : ℕ) (p : Pool) (n size : ℕ) {r : Pool}
    → setup ops mem id p n size ≡ (success, r)
    → ((Queue.setup mem.words p.free n).0 ≡ success)
      × (allocation : List ℕ) × (mem.bytes (n * size % u64_mod) ≡ some allocation)
      × (fill ops id allocation n 0 (raw mem p n size) ≡ (success, r))
unfolding setup
setup_steps ops mem id p n size e = ground arith

filled :
    (ops : ByteOps) (mem : Memory) (id : ℕ) (p : Pool) (n size : ℕ) (laws : IsByteOps ops)
    → IsMemory mem
    → (allocation : List ℕ) → mem.bytes (n * size % u64_mod) ≡ some allocation
    → 0 < n
    → n < 2 ^ 60
    → size < half_word
    → n * size < u64_mod
    → (Queue.setup mem.words p.free n).0 ≡ success
    → (k : ℕ) × (r : Pool) × (fill ops id allocation n 0 (raw mem p n size) ≡ (success, r))
      × IsFilled ops laws id allocation k n size n r
filled ops mem id p n size laws is_memory allocation got pos narrow small all q =
    let (k, valid, more, _, h, t) =
      QueueInv.setup-IsValid mem.words p.free n (is_memory.words_lem) pos narrow
        (ap (λ s. (s, (Queue.setup mem.words p.free n).1)) q) in
    let room : n * size ≤ length allocation =
      omega (arith, all, is_memory.bytes_lem (n * size % u64_mod) allocation got) in
    let (r, done, w) =
      fill_lem ops laws id allocation {k = k} {n = n} {size = size} n 0 {p = raw mem p n size}
        (record {
          queue = valid;
          room = more;
          count = refl;
          block = refl;
          unused = (refl, refl);
          stored = refl;
          valid = λ j b e. absurd (ground (arith, e));
          free = none_left valid (ground (arith, h, t));
        })
        (omega arith) room small in
    (k, r, done, w)

-- A successful setup of fewer than 2 ^ 60 blocks, all of them in fewer than 2 ^ 64 bytes, leaves a
-- valid pool of just these blocks. Every block is free, in order, and its buffer is valid and has the
-- size of a block.
pub blocks_all_free :
    (ops : ByteOps) (mem : Memory) (id : ℕ) (p : Pool) (n size : ℕ) {r : Pool}
    → IsByteOps ops
    → IsMemory mem
    → 0 < n
    → n < 2 ^ 60
    → size < half_word
    → n * size < u64_mod
    → setup ops mem id p n size ≡ (success, r)
    → (k : ℕ) × IsValid k r
      × (contents r.free ≡ count_up 0 n)
      × (r.block_count ≡ n)
      × (r.block_size ≡ size)
      × AreValid size r.buffers
blocks_all_free ops mem id p n size {r} laws is_memory pos narrow small all e =
    let (q, allocation, got, done) = setup_steps ops mem id p n size e in
    let (k, r', done', w) =
      filled ops mem id p n size laws is_memory allocation got pos narrow small all q in
    let same : r' ≡ r = ap (λ x. x.1) (sym done' ∙ done) in
    let w : IsFilled ops laws id allocation k n size n r =
      subst (IsFilled ops laws id allocation k n size n) same w in
    (
      k,
      filled-IsValid w (omega (arith, narrow)) (omega (arith, small)),
      w.free,
      w.count,
      w.block,
      w.valid,
    )

-- Where all the memory is there, the setup succeeds.
pub setup_succeeds :
    (ops : ByteOps) (mem : Memory) (id : ℕ) (p : Pool) (n size : ℕ)
    → IsByteOps ops
    → IsMemory mem
    → IsPlenty mem
    → 0 < n
    → n < 2 ^ 60
    → size < half_word
    → n * size < u64_mod
    → (setup ops mem id p n size).0 ≡ success
unfolding setup
setup_succeeds ops mem id p n size laws is_memory plenty pos narrow small all =
    let (allocation, got) = plenty.bytes_there (n * size % u64_mod) in
    let q = QueueInv.setup_succeeds mem.words p.free n plenty.words_there in
    let (_, r, done, _) =
      filled ops mem id p n size laws is_memory allocation got pos narrow small all q in
    rw (setup, got, plenty.structs_there (n * sizeof_buffer % u64_mod), q, done) refl
