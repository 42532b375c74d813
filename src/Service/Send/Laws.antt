-- ===== src/Service/Send/Laws.antt =====
-- What `tcp_service_send` does to the requests and the buffers.
use tcpeen.Base.{
  ℕ, ◌+◌, ◌≤◌, ◌<◌, ◌≡◌, refl, sym, ap, subst, ◌∙◌, ◌⊎◌, inl, inr, none, some, List, [], ◌∷◌, ◌++◌,
  length, length-modify, length-set, modify, set, get_elem?, get_elem?-some, get_elem?-modify_self,
  get_elem?-modify_ne, get_elem?-set_self, arith, success, error, send_noreq, send_nobuf,
}
use tcpeen.Bytes.{ByteOps, IsByteOps}
use tcpeen.Buffer
use tcpeen.Buffer.{Buffer}
use tcpeen.Buffer.Inv as BufferInv
use tcpeen.Buffer.Inv.{pending}
use tcpeen.Buffer.Copy.{reset_lem, capacity-reset, len-reset}
use tcpeen.Buffer.Writes.{appended, appended-IsValid, pending-appended, write_lem, write_full}
use native.Mathlib.Decide.{dec_lt}
use tcpeen.Queue
use tcpeen.Queue.{Queue}
use tcpeen.Queue.Inv as QueueInv
use tcpeen.Queue.Refine.{contents}
use tcpeen.Queue.Cases.{push_cases, pop_back_cases, shifted, recache}
use tcpeen.Pool
use tcpeen.Pool.{Pool}
use tcpeen.Pool.Peek.{
  AreValid, set-AreValid, reset-AreValid, peeked, peeked-IsValid, peek_cases, pop_cached-peeked,
  rebuffer,
}
use tcpeen.Service.{Service, WriteReq}
use tcpeen.Service.Send.{send, write_request, submit}
use tcpeen.Service.Send.Inv.{IsValid, IsLoaded, Others, buffer_in, buffer_of, modify-Others}
use tcpeen.Service.Send.Changes.{SameBlocks, touched, submitted, idle}

-- A write into a buffer that has just been reset.
write-reset_cases :
    {at : ℕ} {b : Buffer} (ops : ByteOps) (laws : IsByteOps ops) (bytes : List ℕ)
    → BufferInv.IsValid at b
    → let r = Buffer.reset b in
      ((b.buf.capacity < length bytes)
        × (Buffer.write ops r bytes ≡ (error, r))
        × BufferInv.IsValid 0 r
        × (r.buf.capacity ≡ b.buf.capacity))
      ⊎ ((f : Buffer) × (Buffer.write ops r bytes ≡ (success, f))
          × BufferInv.IsValid 0 f
          × (f.buf.capacity ≡ b.buf.capacity)
          × (pending f ≡ bytes))
write-reset_cases {b = b} ops laws bytes v =
    let (w, nothing, _) = reset_lem v in
    let c : (Buffer.reset b).buf.capacity ≡ b.buf.capacity = capacity-reset b in
    let empty : (Buffer.reset b).buf.len ≡ 0 = len-reset b in
    elim (dec_lt b.buf.capacity (length bytes)) [
      | yes out ↦ inl (out, write_full w ops laws bytes (omega (arith, out, c)), w, c)
      | no fits ↦
          let room : (Buffer.reset b).buf.len + length bytes ≤ (Buffer.reset b).buf.capacity =
            omega (arith, fits, c, empty) in
          inr (
            appended bytes (Buffer.reset b),
            write_lem w ops laws bytes room,
            appended-IsValid w bytes room,
            c,
            pending-appended w bytes room ∙ ap (λ xs. xs ++ bytes) nothing,
          )
    ]

module _ {k m : ℕ} {writing : List ℕ} {s : Service} (v : IsValid k m writing s) where
  -- Only the write requests and the pool for writing differ.
  abbrev pub SameElse : Service → Type 0
  SameElse s' = s' ≡ record s {
    write_reqs = s'.write_reqs;
    write_reqs_free = s'.write_reqs_free;
    write_reqs_ready = s'.write_reqs_ready;
    pool_write = s'.pool_write;
  }

  -- The pool after the buffer `f` has been stored at `b`.
  abbrev stored_pool : ℕ → Buffer → Pool
  stored_pool b f = record (peeked b s.pool_write) {
    buffers = set (modify s.pool_write.buffers b Buffer.reset) b f;
  }

  as_many_buffers :
      (b : ℕ) (f : Buffer) → length (stored_pool b f).buffers ≡ s.pool_write.block_count
  as_many_buffers b f =
      length-set (modify s.pool_write.buffers b Buffer.reset) b f
      ∙ length-modify s.pool_write.buffers b Buffer.reset
      ∙ v.pool.sized

  stored_valid :
      (b : ℕ) {f : Buffer}
      → BufferInv.IsValid 0 f
      → f.buf.capacity ≡ s.pool_write.block_size
      → AreValid s.pool_write.block_size (stored_pool b f).buffers
  stored_valid b w c =
      set-AreValid s.pool_write.block_size (modify s.pool_write.buffers b Buffer.reset) b
        (reset-AreValid s.pool_write.block_size s.pool_write.buffers b v.valid_buffers) w c

  -- Request `i` and buffer `b` have been looked at.
  abbrev looked : ℕ → ℕ → Service
  looked i b = record s {
    write_reqs_free = record (s.write_reqs_free) { tail_cache = s.write_reqs_free.tail };
    write_reqs = modify s.write_reqs i (λ q. record q { buffer = some b });
    pool_write = peeked b s.pool_write;
  }

  module _ (ops : ByteOps) (laws : IsByteOps ops) (channel : ℕ) (bytes : List ℕ) where
    opened :
        (i b : ℕ) (old : Buffer)
        → Queue.peek s.write_reqs_free
          ≡ (success, some i, record (s.write_reqs_free) { tail_cache = s.write_reqs_free.tail })
        → Pool.peek s.pool_write ≡ (success, some b, peeked b s.pool_write)
        → get_elem? s.pool_write.buffers b ≡ some old
        → send ops s channel bytes
          ≡ write_request ops (looked i b) channel i (Buffer.reset old) b bytes
    unfolding send
    opened i b old e f g =
        let found : get_elem? (modify s.pool_write.buffers b Buffer.reset) b
            ≡ some (Buffer.reset old) =
          get_elem?-modify_self s.pool_write.buffers b Buffer.reset old g in
        rw (e, f, f, found) (rw (e, f) refl)

    -- The bytes do not fit.
    refused :
        (i b : ℕ) (old : Buffer)
        → Buffer.write ops (Buffer.reset old) bytes ≡ (error, Buffer.reset old)
        → write_request ops (looked i b) channel i (Buffer.reset old) b bytes
          ≡ (send_nobuf, record (looked i b) { pool_write = stored_pool b (Buffer.reset old) })
    unfolding write_request
    refused i b old e = rw e refl

    -- The request as it is pushed.
    abbrev filled : ℕ → ℕ → Buffer → List WriteReq
    filled i b f = modify (modify s.write_reqs i (λ q. record q { buffer = some b })) i (λ w.
        record w { channel = some channel; base = Buffer.read_ptr f; len = Buffer.get_length f })

    filled-Others : (i b : ℕ) (f : Buffer) → Others i s.write_reqs (filled i b f)
    filled-Others i b f = record {
      as_many =
          length-modify (modify s.write_reqs i (λ q. record q { buffer = some b })) i (λ w.
            record w {
              channel = some channel;
              base = Buffer.read_ptr f;
              len = Buffer.get_length f;
            })
          ∙ length-modify s.write_reqs i (λ q. record q { buffer = some b });
      same = λ j ne.
          get_elem?-modify_ne (modify s.write_reqs i (λ q. record q { buffer = some b })) i j
            (λ w. record w {
              channel = some channel;
              base = Buffer.read_ptr f;
              len = Buffer.get_length f;
            })
            ne
          ∙ get_elem?-modify_ne s.write_reqs i j (λ q. record q { buffer = some b }) ne;
    }

    abbrev request : ℕ → Buffer → WriteReq → WriteReq
    request b f w = record w {
      channel = some channel;
      buffer = some b;
      base = Buffer.read_ptr f;
      len = Buffer.get_length f;
    }

    filled_at :
        (i b : ℕ) (f : Buffer) {w : WriteReq}
        → get_elem? s.write_reqs i ≡ some w
        → get_elem? (filled i b f) i ≡ some (request b f w)
    filled_at i b f {w} e =
        get_elem?-modify_self (modify s.write_reqs i (λ q. record q { buffer = some b })) i
          (λ w. record w {
            channel = some channel;
            base = Buffer.read_ptr f;
            len = Buffer.get_length f;
          })
          (record w { buffer = some b })
          (get_elem?-modify_self s.write_reqs i (λ q. record q { buffer = some b }) w e)

    stored :
        (i b : ℕ) (old f : Buffer) (ready : Queue)
        → Buffer.write ops (Buffer.reset old) bytes ≡ (success, f)
        → Queue.push s.write_reqs_ready i ≡ (success, ready)
        → write_request ops (looked i b) channel i (Buffer.reset old) b bytes ≡ (
          success,
          record s {
            write_reqs_free = record (shifted s.write_reqs_free) {
              tail_cache = s.write_reqs_free.tail;
            };
            write_reqs_ready = ready;
            write_reqs = filled i b f;
            pool_write = Pool.pop_cached (stored_pool b f);
          },
        )
    unfolding write_request submit Queue.pop_cached
    stored i b old f ready e q = rw (e, q) refl

    -- The oldest free request `w` is ready at the end of the queue, and its buffer `f` holds the
    -- bytes.
    abbrev pub Sent : Service → Type 0
    Sent s' =
        (i : ℕ) × (b : ℕ) × (w : WriteReq) × (f : Buffer) × (contents s.write_reqs_free
          ≡ i ∷ contents s'.write_reqs_free)
        × (contents s'.write_reqs_ready ≡ contents s.write_reqs_ready ++ i ∷ [])
        × (contents s.pool_write.free ≡ b ∷ contents s'.pool_write.free)
        × (get_elem? s'.write_reqs i ≡ some w)
        × (w.channel ≡ some channel)
        × (w.buffer ≡ some b)
        × (get_elem? s'.pool_write.buffers b ≡ some f)
        × (pending f ≡ bytes)
        × SameElse s'
        × IsValid k m writing s'

    store_and_submit :
        (i b : ℕ) (old f : Buffer)
        → channel < length s.channel_list.client_map
        → contents s.write_reqs_free ≡ i ∷ contents (shifted s.write_reqs_free)
        → QueueInv.IsValid k (shifted s.write_reqs_free)
        → contents s.pool_write.free ≡ b ∷ contents (shifted s.pool_write.free)
        → b < s.pool_write.block_count
        → Buffer.write ops (Buffer.reset old) bytes ≡ (success, f)
        → BufferInv.IsValid 0 f
        → f.buf.capacity ≡ s.pool_write.block_size
        → pending f ≡ bytes
        → let (r, s') = write_request ops (looked i b) channel i (Buffer.reset old) b bytes in
          (r ≡ success) × Sent s'
    store_and_submit i b old f known step valid_free pool_step below write valid c holds =
        elim (push_cases v.ready_queue i) [
          | inl (_, full) ↦ absurd (omega (arith, full, ap length step, v.reqs.sized, v.ready_room))
          | inr (ready, e, joined, valid_ready, same_capacity, _) ↦
              let (w, there) = get_elem?-some s.write_reqs i (
                omega
                  (arith, (idle v i (contents (shifted s.write_reqs_free)) step).0, v.stored)) in
              let (valid_pool, pool_left, kept, same_count, same_size) =
                pop_cached-peeked v.pool b (stored_pool b f).buffers pool_step
                  (as_many_buffers b f) in
              let loaded : IsLoaded (length s.channel_list.client_map) (filled i b f) i = record {
                req = request b f w;
                there = filled_at i b f there;
                target = channel;
                channel = refl;
                known = known;
                index = b;
                buffer = refl;
              } in
              let held : buffer_of (filled i b f) i ≡ b = ap buffer_in (filled_at i b f there) in
              let same : SameBlocks m s.pool_write (Pool.pop_cached (stored_pool b f)) = record {
                valid = valid_pool;
                count = same_count;
                size = same_size;
                buffers =
                    subst (AreValid s.pool_write.block_size) (sym kept) (stored_valid b valid c);
              } in
              rw (stored i b old f ready write e) (
                refl,
                (
                  i,
                  b,
                  request b f w,
                  f,
                  step,
                  joined,
                  pool_step ∙ ap (λ xs. b ∷ xs) (sym pool_left),
                  filled_at i b f there,
                  refl,
                  refl,
                  ap (λ bs. get_elem? bs b) kept
                      ∙ get_elem?-set_self (modify s.pool_write.buffers b Buffer.reset) b f (
                          omega (
                            arith,
                            length-modify s.pool_write.buffers b Buffer.reset,
                            v.pool.sized,
                            below,
                          )),
                  holds,
                  refl,
                  submitted v i b (filled i b f)
                      (record (shifted s.write_reqs_free) { tail_cache = s.write_reqs_free.tail })
                      ready (Pool.pop_cached (stored_pool b f)) step
                      (recache valid_free s.write_reqs_free.tail) refl joined valid_ready
                      same_capacity (filled-Others i b f) loaded held same
                      (pool_step ∙ ap (λ xs. b ∷ xs) (sym pool_left)),
                ),
              )
        ]

    refuse :
        (i b : ℕ) (old : Buffer)
        → contents s.write_reqs_free ≡ i ∷ contents (shifted s.write_reqs_free)
        → Buffer.write ops (Buffer.reset old) bytes ≡ (error, Buffer.reset old)
        → BufferInv.IsValid 0 (Buffer.reset old)
        → (Buffer.reset old).buf.capacity ≡ s.pool_write.block_size
        → let (r, s') = write_request ops (looked i b) channel i (Buffer.reset old) b bytes in
          (r ≡ send_nobuf)
          × (contents s'.write_reqs_ready ≡ contents s.write_reqs_ready)
          × SameElse s'
          × IsValid k m writing s'
    refuse i b old step write valid c = rw (refused i b old write) (
      refl,
      refl,
      refl,
      touched v i (contents (shifted s.write_reqs_free)) (looked i b).write_reqs
          s.write_reqs_free.tail (stored_pool b (Buffer.reset old)) step
          (modify-Others s.write_reqs i (λ q. record q { buffer = some b }))
          (record {
            valid =
                rebuffer (peeked-IsValid v.pool b) (stored_pool b (Buffer.reset old)).buffers
                  (as_many_buffers b (Buffer.reset old));
            count = refl;
            size = refl;
            buffers = stored_valid b valid c;
          })
          refl,
    )

    no_buffer :
        (i : ℕ)
        → Queue.peek s.write_reqs_free
          ≡ (success, some i, record (s.write_reqs_free) { tail_cache = s.write_reqs_free.tail })
        → Pool.peek s.pool_write ≡ (error, none, s.pool_write)
        → send ops s channel bytes ≡ (
          send_nobuf,
          record s {
            write_reqs_free = record (s.write_reqs_free) { tail_cache = s.write_reqs_free.tail };
            write_reqs = modify s.write_reqs i (λ q. record q { buffer = none });
          },
        )
    unfolding send
    no_buffer i e f = rw (e, f) (rw e refl)

    -- To send to a channel of the table keeps the service valid, whatever comes of it. Without a free
    -- request it is refused and changes nothing; without a free buffer, or where the bytes are more
    -- than a block, it is refused and no request becomes ready. Otherwise the oldest free request
    -- becomes the newest ready one, with the channel and with the oldest free buffer of the pool,
    -- which then holds just the bytes. Nothing but the write requests and the pool for writing
    -- changes.
    pub send_keeps :
        channel < length s.channel_list.client_map
        → let (r, s') = send ops s channel bytes in
          ((contents s.write_reqs_free ≡ []) × (r ≡ send_noreq) × (s' ≡ s))
          ⊎ (((contents s.pool_write.free ≡ []) ⊎ (s.pool_write.block_size < length bytes))
              × (r ≡ send_nobuf)
              × (contents s'.write_reqs_ready ≡ contents s.write_reqs_ready)
              × SameElse s'
              × IsValid k m writing s')
          ⊎ ((r ≡ success) × Sent s')
    send_keeps known = elim (pop_back_cases v.free_queue) [
      | inl (_, _, e, none_left) ↦
          inl (none_left, unfold send in rw e refl, unfold send in rw e refl)
      | inr (i, _, _, e, step, valid_free) ↦ elim (peek_cases v.pool) [
        | inl (f, no_buffers) ↦ rw (no_buffer i e f) (
            inr (
              inl (
                inl no_buffers,
                refl,
                refl,
                refl,
                touched v i (contents (shifted s.write_reqs_free))
                    (modify s.write_reqs i (λ q. record q { buffer = none })) s.write_reqs_free.tail
                    s.pool_write step
                    (modify-Others s.write_reqs i (λ q. record q { buffer = none }))
                    (record {
                      valid = v.pool;
                      count = refl;
                      size = refl;
                      buffers = v.valid_buffers;
                    })
                    refl,
              )))
        | inr (b, f, pool_step, below) ↦
            let (old, there) =
              get_elem?-some s.pool_write.buffers b (omega (arith, v.pool.sized, below)) in
            let (at, old_valid, size) = v.valid_buffers b old there in
            elim (write-reset_cases ops laws bytes old_valid) [
              | inl (out, write, valid, c) ↦
                  let (r, same, alike, w) = refuse i b old step write valid (c ∙ size) in
                  rw (opened i b old e f there)
                    (inr (inl (inr (omega (arith, out, size)), r, same, alike, w)))
              | inr (g, write, valid, c, holds) ↦ rw (opened i b old e f there) (
                  inr (
                    inr (
                      store_and_submit i b old g known step valid_free pool_step below write valid
                        (c ∙ size) holds)))
            ]
      ]
    ]
