-- ===== src/Service/Callbacks/Reads.antt =====
-- Who holds which buffer for reading: it is free, with a channel, or with an event.
use tcpeen.Base.{
  ℕ, zero, suc, ◌+◌, ◌<◌, ◌≡◌, refl, sym, ap, ◌∙◌, ◌⊎◌, inl, inr, Option, Option-cases, none, some,
  List, [], ◌∷◌, length, modify, get_elem?, get_elem?-some, get_elem?-modify_self, occurs,
  occurs_first, met_once, Partition, one_if, ◌==◌, arith,
}
use tcpeen.Buffer
use tcpeen.Buffer.{Buffer}
use tcpeen.Queue.Refine.{contents}
use tcpeen.Pool
use tcpeen.Pool.{Pool}
use tcpeen.Pool.Inv as PoolInv
use tcpeen.Pool.Inv.{Hands, pop_back-Hands, pop_back-blocks}
use tcpeen.Pool.Peek.{AreValid, reset-AreValid}
use tcpeen.Channel.{Channel}
use tcpeen.Service.{Service, channel_at, change_channel}
use tcpeen.Service.Callbacks.{on_recv_alloc_cb}

-- The buffers of the channels.
abbrev pub buffers_of : List Channel → List ℕ
buffers_of [] = []
buffers_of (c ∷ cs) =
    let rest = buffers_of cs in elim c.read_buffer [ none ↦ rest | some b ↦ b ∷ rest ]

-- `out` are the buffers of the read events.
pub record IsValid (m : ℕ) (out : List ℕ) (s : Service) : Type 0 where
  pub pool : PoolInv.IsValid m s.pool_read
  pub valid_buffers : AreValid s.pool_read.block_size s.pool_read.buffers
  pub buffers :
      Partition s.pool_read.block_count
        (contents s.pool_read.free ∷ buffers_of s.channel_list.client_map ∷ out ∷ [])

-- A channel is given the buffer `b`.
abbrev pub given : ℕ → Channel → Channel
given b c = record c { read_buffer = some b }

one_more :
    (cs : List Channel) (i b j : ℕ) {c : Channel}
    → get_elem? cs i ≡ some c
    → c.read_buffer ≡ none
    → (occurs j (buffers_of (modify cs i (given b))) ≡ one_if (b == j) + occurs j (buffers_of cs))
      × (length (buffers_of (modify cs i (given b))) ≡ suc (length (buffers_of cs)))
one_more [] i b j h e = absurd (ground arith)
one_more (d ∷ cs) zero b j h e =
    let none_there : d.read_buffer ≡ none = ground (arith, h, e) in rw none_there (refl, refl)
one_more (d ∷ cs) (suc i) b j h e =
    let (o, l) = one_more cs i b j h e in
    elim (Option-cases d.read_buffer) [
      | inl nothing ↦ rw nothing (o, l)
      | inr (x, there) ↦ rw there (omega (arith, o), ap (λ n. suc n) l)
    ]

held_once :
    (cs : List Channel) (i b : ℕ) {c : Channel}
    → get_elem? cs i ≡ some c
    → c.read_buffer ≡ some b
    → 0 < occurs b (buffers_of cs)
held_once [] i b h e = absurd (ground arith)
held_once (d ∷ cs) zero b h e =
    let there : d.read_buffer ≡ some b = ground (arith, h, e) in
    rw there (omega (arith, occurs_first b (buffers_of cs)))
held_once (d ∷ cs) (suc i) b h e =
    let more = held_once cs i b h e in
    elim (Option-cases d.read_buffer) [
      | inl nothing ↦ rw nothing more
      | inr (x, there) ↦ rw there (omega (arith, more))
    ]

without_buffer :
    (cs : List Channel) (i : ℕ) {c : Channel}
    → get_elem? cs i ≡ some c
    → c.read_buffer ≡ none
    → modify cs i (λ c. record c { read_buffer = none }) ≡ cs
without_buffer [] i h e = refl
without_buffer (d ∷ cs) zero h e =
    let nothing : d.read_buffer ≡ none = ground (arith, h, e) in
    ap (λ o. record d { read_buffer = o } ∷ cs) (sym nothing)
without_buffer (d ∷ cs) (suc i) h e = ap (λ xs. d ∷ xs) (without_buffer cs i h e)

module _ {m : ℕ} {out : List ℕ} {s : Service} (v : IsValid m out s) (channel : ℕ) {c : Channel}
    (there : channel_at s channel ≡ some c) where
  -- Where the next read goes: to the free end of the buffer `b` of the channel.
  abbrev pub ReadsInto : ℕ → Option ℕ × ℕ × Service → Type 0
  ReadsInto b (at, room, s') =
      (buf : Buffer) × (got : Channel) × (channel_at s' channel ≡ some got)
      × (got.read_buffer ≡ some b)
      × (get_elem? s'.pool_read.buffers b ≡ some buf)
      × (at ≡ some (Buffer.write_ptr buf))
      × (room ≡ Buffer.remaining buf)

  keeps_buffer :
      (b : ℕ) {buf : Buffer}
      → c.read_buffer ≡ some b
      → get_elem? s.pool_read.buffers b ≡ some buf
      → on_recv_alloc_cb s channel ≡ (some (Buffer.write_ptr buf), Buffer.remaining buf, s)
  unfolding on_recv_alloc_cb
  keeps_buffer b e found = ground (arith, there, e, found)

  gets_buffer :
      (b : ℕ) {buf : Buffer}
      → let (r, out, p) = Pool.pop_back s.pool_read in
        c.read_buffer ≡ none
        → out ≡ some b
        → get_elem? p.buffers b ≡ some buf
        → on_recv_alloc_cb s channel ≡ (
          some (Buffer.write_ptr buf),
          Buffer.remaining buf,
          change_channel (record s { pool_read = p }) channel (given b),
        )
  unfolding on_recv_alloc_cb
  gets_buffer b e o found =
      let p = (Pool.pop_back s.pool_read).2 in
      let same : get_elem? (modify s.channel_list.client_map channel (given b)) channel
          ≡ some (given b c) =
        get_elem?-modify_self s.channel_list.client_map channel (given b) c there in
      ground (arith, there, e, o, same, found)

  abbrev emptied : Channel → Channel
  emptied c = record c { read_buffer = none }

  finds_none :
      let (r, out, p) = Pool.pop_back s.pool_read in
      c.read_buffer ≡ none
      → out ≡ none
      → p ≡ s.pool_read
      → on_recv_alloc_cb s channel ≡ (none, 0, s)
  unfolding on_recv_alloc_cb
  finds_none e o unchanged =
      let cs : List Channel = s.channel_list.client_map in
      let p : Pool = (Pool.pop_back s.pool_read).2 in
      let same : get_elem? (modify cs channel emptied) channel ≡ some (emptied c) =
        get_elem?-modify_self cs channel emptied c there in
      let step : on_recv_alloc_cb s channel
          ≡ (none, 0, change_channel (record s { pool_read = p }) channel emptied) =
        ground (arith, there, e, o, same) in
      step
      ∙ ap {A = Pool} {B = Option ℕ × ℕ × Service}
          (λ p. (none, 0, change_channel (record s { pool_read = p }) channel emptied)) unchanged
      ∙ ap {A = List Channel} {B = Option ℕ × ℕ × Service}
          (λ cs. (none, 0, record s { channel_list = record (s.channel_list) { client_map = cs } }))
          (without_buffer cs channel there e)

  taken-IsValid :
      {p : Pool} (b : ℕ)
      → c.read_buffer ≡ none
      → Hands v.pool b p
      → p.block_count ≡ s.pool_read.block_count
      → p.block_size ≡ s.pool_read.block_size
      → IsValid m out (change_channel (record s { pool_read = p }) channel (given b))
  taken-IsValid {p} b e (step, _, kept, _, w) count block =
      let cs : List Channel = s.channel_list.client_map in
      record {
        pool = w;
        valid_buffers =
            rw (block, kept)
              (reset-AreValid s.pool_read.block_size s.pool_read.buffers b v.valid_buffers);
        buffers = rw count (record {
          once = λ j.
              omega
                (arith, v.buffers.once j, ap (occurs j) step, (one_more cs channel b j there e).0);
          sized =
              omega (arith, v.buffers.sized, ap length step, (one_more cs channel b 0 there e).1);
        });
      }

  -- Before a read into a channel of a valid table. Where the channel has a buffer, the read goes to
  -- the free end of that buffer and nothing changes. Where it has none, it gets the oldest free
  -- buffer, reset, and the read goes to the free end of that; where none is free either, the read gets no
  -- place and nothing changes. Every buffer stays in one place.
  pub on_recv_alloc_cb-IsValid :
      let (at, room, s') = on_recv_alloc_cb s channel in
      IsValid m out s'
      × (((b : ℕ) × (c.read_buffer ≡ some b) × (s' ≡ s) × ReadsInto b (at, room, s'))
          ⊎ ((b : ℕ) × (c.read_buffer ≡ none)
              × (contents s.pool_read.free ≡ b ∷ contents s'.pool_read.free)
              × (s'.pool_read.buffers ≡ modify s.pool_read.buffers b Buffer.reset)
              × ReadsInto b (at, room, s'))
          ⊎ ((c.read_buffer ≡ none)
              × (contents s.pool_read.free ≡ [])
              × (at ≡ none)
              × (room ≡ 0)
              × (s' ≡ s)))
  on_recv_alloc_cb-IsValid = elim (Option-cases c.read_buffer) [
    | inr (b, e) ↦
        let (buf, found) = get_elem?-some s.pool_read.buffers b (
          omega (
            arith,
            v.pool.sized,
            (met_once s.pool_read.block_count b
                (contents s.pool_read.free ∷ buffers_of s.channel_list.client_map ∷ out ∷ [])
                v.buffers (omega (arith, held_once s.channel_list.client_map channel b there e))).0,
          )) in
        rw (keeps_buffer b e found) (v, inl (b, e, refl, (buf, c, there, e, found, refl, refl)))
    | inl e ↦ elim (pop_back-Hands v.pool) [
      | inl (none_left, _, o, same) ↦
          rw (finds_none e o same) (v, inr (inr (e, none_left, refl, refl, refl)))
      | inr (b, _, o, hands) ↦
          let p : Pool = (Pool.pop_back s.pool_read).2 in
          let (count, block) = pop_back-blocks s.pool_read in
          let (buf, found) =
            get_elem?-some p.buffers b (omega (arith, hands.3, hands.4.sized, count)) in
          rw (gets_buffer b e o found) (
            taken-IsValid b e hands count block,
            inr (
                inl (
                  b,
                  e,
                  hands.0,
                  hands.2,
                  (
                    buf,
                    given b c,
                    get_elem?-modify_self s.channel_list.client_map channel (given b) c there,
                    refl,
                    found,
                    refl,
                    refl,
                  ),
                )),
          )
    ]
  ]
