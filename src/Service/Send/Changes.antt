-- ===== src/Service/Send/Changes.antt =====
-- The steps by which a write request and its buffer change hands.
use tcpeen.Base.{
  inl, inr, success, ℕ, ◌+◌, ◌<◌, ◌≡◌, refl, ap, ap₂, subst, ◌∙◌, List, [], ◌∷◌, ◌++◌, map, length,
  occurs, Partition, arith, first_to_second, second_to_third, third_to_first, met_once,
  occurs_first,
}
use tcpeen.Queue
use tcpeen.Queue.{Queue}
use tcpeen.Queue.Inv as QueueInv
use tcpeen.Queue.Refine.{contents}
use tcpeen.Queue.Cases.{recache, push_cases}
use tcpeen.Pool
use tcpeen.Pool.{Pool}
use tcpeen.Pool.Inv as PoolInv
use tcpeen.Pool.Inv.{push_returns, push-blocks}
use tcpeen.Pool.Peek.{AreValid}
use tcpeen.Service.{Service, WriteReq}
use tcpeen.Service.Send.Inv.{
  IsValid, IsLoaded, AreLoaded, Others, buffer_of, buffer_of-Others, Others-AreLoaded,
  append-AreLoaded, map-snoc,
}

-- A pool with the same blocks.
pub record SameBlocks (m : ℕ) (p p' : Pool) : Type 0 where
  pub valid : PoolInv.IsValid m p'
  pub count : p'.block_count ≡ p.block_count
  pub size : p'.block_size ≡ p.block_size
  pub buffers : AreValid p.block_size p'.buffers

module _ {k m : ℕ} {writing : List ℕ} {s : Service} (v : IsValid k m writing s) where
  -- The oldest free request is in nobody else's hands.
  pub idle :
      (i : ℕ) (rest : List ℕ)
      → contents s.write_reqs_free ≡ i ∷ rest
      → (i < s.buffer_count) × (occurs i (contents s.write_reqs_ready) ≡ 0) × (occurs i writing ≡ 0)
  idle i rest e =
      let p = v.reqs in
      let there : occurs i (contents s.write_reqs_free) ≡ 1 + occurs i rest =
        ap (occurs i) e ∙ occurs_first i rest in
      let (known, one) =
        met_once s.buffer_count i
          (contents s.write_reqs_free ∷ contents s.write_reqs_ready ∷ writing ∷ []) p
          (omega (arith, there)) in
      (known, omega (arith, one, there), omega (arith, one, there))

  -- The oldest free request is filled in, and the pool is looked at.
  pub touched :
      (i : ℕ) (rest : List ℕ) (reqs : List WriteReq) (t : ℕ) (p : Pool)
      → contents s.write_reqs_free ≡ i ∷ rest
      → Others i s.write_reqs reqs
      → SameBlocks m s.pool_write p
      → contents p.free ≡ contents s.pool_write.free
      → IsValid k m writing (record s {
        write_reqs_free = record (s.write_reqs_free) { tail_cache = t };
        write_reqs = reqs;
        pool_write = p;
      })
  touched i rest reqs t p e o b c =
      let (_, not_ready, not_writing) = idle i rest e in
      record {
        free_queue = recache v.free_queue t;
        ready_queue = v.ready_queue;
        free_room = v.free_room;
        ready_room = v.ready_room;
        stored = omega (arith, v.stored, o.as_many);
        reqs = v.reqs;
        pool = b.valid;
        valid_buffers = rw b.size b.buffers;
        buffers =
            rw
              (
                b.count,
                c,
                buffer_of-Others o (contents s.write_reqs_ready) not_ready,
                buffer_of-Others o writing not_writing,
              )
              v.buffers;
        ready_loaded =
            Others-AreLoaded o (length s.channel_list.client_map) (contents s.write_reqs_ready)
              not_ready v.ready_loaded;
        writing_loaded =
            Others-AreLoaded o (length s.channel_list.client_map) writing not_writing
              v.writing_loaded;
      }

  -- The oldest free request joins the ready ones, with the oldest free buffer.
  pub submitted :
      (i b : ℕ) (reqs : List WriteReq) (free ready : Queue) (p : Pool)
      → contents s.write_reqs_free ≡ i ∷ contents free
      → QueueInv.IsValid k free
      → free.capacity ≡ s.write_reqs_free.capacity
      → contents ready ≡ contents s.write_reqs_ready ++ i ∷ []
      → QueueInv.IsValid k ready
      → ready.capacity ≡ s.write_reqs_ready.capacity
      → Others i s.write_reqs reqs
      → IsLoaded (length s.channel_list.client_map) reqs i
      → buffer_of reqs i ≡ b
      → SameBlocks m s.pool_write p
      → contents s.pool_write.free ≡ b ∷ contents p.free
      → IsValid k m writing (record s {
        write_reqs_free = free;
        write_reqs_ready = ready;
        write_reqs = reqs;
        pool_write = p;
      })
  submitted i b reqs free ready p e valid_free free_cap joined valid_ready ready_cap o l held same
        step =
      let (_, not_ready, not_writing) = idle i (contents free) e in
      let were : List ℕ = contents s.write_reqs_ready in
      let clients : ℕ = length s.channel_list.client_map in
      let new_held : map (buffer_of reqs) (contents ready)
          ≡ map (buffer_of s.write_reqs) were ++ b ∷ [] =
        ap (map (buffer_of reqs)) joined
        ∙ map-snoc (buffer_of reqs) were i
        ∙ ap₂ (λ xs y. xs ++ y ∷ []) (buffer_of-Others o were not_ready) held in
      record {
        free_queue = valid_free;
        ready_queue = valid_ready;
        free_room = omega (arith, v.free_room, free_cap);
        ready_room = omega (arith, v.ready_room, ready_cap);
        stored = omega (arith, v.stored, o.as_many);
        reqs = rw joined (
            first_to_second s.buffer_count i (contents free) were writing
              (subst (λ xs. Partition s.buffer_count (xs ∷ were ∷ writing ∷ [])) e v.reqs));
        pool = same.valid;
        valid_buffers = rw same.size same.buffers;
        buffers =
            rw (same.count, new_held, buffer_of-Others o writing not_writing)
              (first_to_second s.pool_write.block_count b (contents p.free)
                (map (buffer_of s.write_reqs) were) (map (buffer_of s.write_reqs) writing)
                (subst
                  (λ xs. Partition s.pool_write.block_count (
                    xs
                    ∷ map (buffer_of s.write_reqs) were
                    ∷ map (buffer_of s.write_reqs) writing
                    ∷ []))
                  step v.buffers));
        ready_loaded = rw joined (
            append-AreLoaded clients reqs were (i ∷ [])
              (Others-AreLoaded o clients were not_ready v.ready_loaded) (l, tt));
        writing_loaded = Others-AreLoaded o clients writing not_writing v.writing_loaded;
      }

  -- The oldest ready request is handed to the IO thread.
  pub taken_ready :
      (i : ℕ) (ready : Queue)
      → contents s.write_reqs_ready ≡ i ∷ contents ready
      → QueueInv.IsValid k ready
      → ready.capacity ≡ s.write_reqs_ready.capacity
      → IsValid k m (i ∷ writing) (record s { write_reqs_ready = ready })
  taken_ready i ready e valid_ready ready_cap =
      let clients : ℕ = length s.channel_list.client_map in
      let loaded : AreLoaded clients s.write_reqs (i ∷ contents ready) =
        subst (AreLoaded clients s.write_reqs) e v.ready_loaded in
      record {
        free_queue = v.free_queue;
        ready_queue = valid_ready;
        free_room = v.free_room;
        ready_room = omega (arith, v.ready_room, ready_cap);
        stored = v.stored;
        reqs =
            second_to_third s.buffer_count i (contents s.write_reqs_free) (contents ready) writing (
              subst
                (λ xs. Partition s.buffer_count (contents s.write_reqs_free ∷ xs ∷ writing ∷ [])) e
                v.reqs);
        pool = v.pool;
        valid_buffers = v.valid_buffers;
        buffers =
            second_to_third s.pool_write.block_count (buffer_of s.write_reqs i)
              (contents s.pool_write.free) (map (buffer_of s.write_reqs) (contents ready))
              (map (buffer_of s.write_reqs) writing)
              (subst
                (λ xs. Partition s.pool_write.block_count (
                  contents s.pool_write.free
                  ∷ map (buffer_of s.write_reqs) xs
                  ∷ map (buffer_of s.write_reqs) writing
                  ∷ []))
                e v.buffers);
        ready_loaded = loaded.1;
        writing_loaded = (loaded.0, v.writing_loaded);
      }

-- A request that the IO thread has goes back, and its buffer with it.
module _ {k m i : ℕ} {writing : List ℕ} {s : Service} (v : IsValid k m (i ∷ writing) s) where
  abbrev buffer : ℕ
  buffer = buffer_of s.write_reqs i

  unheld : (occurs i (contents s.write_reqs_ready) ≡ 0) × (occurs i writing ≡ 0)
  unheld =
      let (_, one) =
        met_once s.buffer_count i
          (contents s.write_reqs_free ∷ contents s.write_reqs_ready ∷ (i ∷ writing) ∷ []) v.reqs
          (omega (arith, occurs_first i writing)) in
      (omega (arith, one, occurs_first i writing), omega (arith, one, occurs_first i writing))

  pub buffer_known : buffer < s.pool_write.block_count
  buffer_known =
      let others : List ℕ = map (buffer_of s.write_reqs) writing in
      (met_once s.pool_write.block_count buffer
        (contents s.pool_write.free
          ∷ map (buffer_of s.write_reqs) (contents s.write_reqs_ready)
          ∷ (buffer ∷ others)
          ∷ [])
        v.buffers (omega (arith, occurs_first buffer others))).0

  pub returned :
      (reqs : List WriteReq)
      → Others i s.write_reqs reqs
      → let p = (Pool.push s.pool_write buffer).1 in
        let (r, free) = Queue.push s.write_reqs_free i in
        (r ≡ success)
        × (contents free ≡ contents s.write_reqs_free ++ i ∷ [])
        × (contents p.free ≡ contents s.pool_write.free ++ buffer ∷ [])
        × IsValid k m writing
            (record s { write_reqs_free = free; write_reqs = reqs; pool_write = p })
  returned reqs o = elim (push_cases v.free_queue i) [
    | inl (_, full) ↦ absurd (omega (arith, full, v.reqs.sized, v.free_room))
    | inr (free, e, joined, valid_free, same_capacity, _) ↦
        let (not_ready, not_writing) = unheld in
        let (_, back, _, kept, valid_pool) =
          push_returns v.pool buffer (omega (arith, v.buffers.sized, v.pool.counted))
            buffer_known in
        let (count, size) = push-blocks s.pool_write buffer in
        let clients : ℕ = length s.channel_list.client_map in
        rw e (
          refl,
          joined,
          back,
          record {
            free_queue = valid_free;
            ready_queue = v.ready_queue;
            free_room = omega (arith, v.free_room, same_capacity);
            ready_room = v.ready_room;
            stored = omega (arith, v.stored, o.as_many);
            reqs = rw joined (
                third_to_first s.buffer_count i (contents s.write_reqs_free)
                  (contents s.write_reqs_ready) writing v.reqs);
            pool = valid_pool;
            valid_buffers = rw (size, kept) v.valid_buffers;
            buffers =
                rw
                  (
                    count,
                    back,
                    buffer_of-Others o (contents s.write_reqs_ready) not_ready,
                    buffer_of-Others o writing not_writing,
                  )
                  (third_to_first s.pool_write.block_count buffer (contents s.pool_write.free)
                    (map (buffer_of s.write_reqs) (contents s.write_reqs_ready))
                    (map (buffer_of s.write_reqs) writing) v.buffers);
            ready_loaded =
                Others-AreLoaded o clients (contents s.write_reqs_ready) not_ready v.ready_loaded;
            writing_loaded = Others-AreLoaded o clients writing not_writing v.writing_loaded.1;
          },
        )
  ]
