-- ===== src/Echo/Laws.antt =====
-- What the server sends back, and what a round of its loop keeps.
use tcpeen.Base.{
  ℕ, ◌≤◌, ◌<◌, ◌≡◌, refl, sym, ap, subst, ◌∙◌, ◌⊎◌, inl, inr, Option, Option-cases, some, List, [],
  ◌∷◌, map, length, get_elem?, get_elem?-modify_self, success, event_nochan, send_noreq, send_nobuf,
}
use tcpeen.Bytes.{ByteOps, IsByteOps}
use tcpeen.Bytes.Slices.{slice}
use tcpeen.Buffer
use tcpeen.Buffer.{Buffer, bytes_at}
use tcpeen.Buffer.Inv as BufferInv
use tcpeen.Buffer.Copy.{read_reset_lem}
use tcpeen.Pool.{Pool}
use tcpeen.Events.{
  Event, EventType, event_none, event_ioerror, event_client_open, event_client_close,
  event_client_read,
}
use tcpeen.Channel
use tcpeen.Channel.{ChannelList, buffer_at}
use tcpeen.Channel.Table as Table
use tcpeen.Channel.Table.{get_lem}
use tcpeen.Service.{Service}
use tcpeen.Service.Send.{send}
use tcpeen.Service.Send.Inv.{IsValid, elsewhere}
use tcpeen.Service.Send.Laws.{Sent, send_keeps}
use tcpeen.Service.Send.Laws.{SameElse as WritesOnly}
use tcpeen.Queue.Refine.{contents}
use tcpeen.Echo.{rewound, handle_client_read, handle, handle_all}

-- The service with the buffer of a read event rewound.
abbrev pub reread : Option ℕ → Service → Service
reread b s = record s { pool_read = rewound b s.pool_read }

pub reread-IsValid :
    {k m : ℕ} {writing : List ℕ} {s : Service}
    → IsValid k m writing s
    → (b : Option ℕ) → IsValid k m writing (reread b s)
reread-IsValid {s = s} v b = elsewhere v (reread b s)

module _ (ops : ByteOps) (laws : IsByteOps ops) {k m : ℕ} {writing : List ℕ} {s : Service}
    (v : IsValid k m writing s) where
  sends :
      (e : Event) (c : ℕ) {buf : Buffer}
      → Channel.get s.channel_list e.client_id ≡ (success, some c)
      → buffer_at (rewound e.tn_buffer s.pool_read).buffers e.tn_buffer ≡ some buf
      → handle_client_read ops s e
        ≡ send ops
            (reread e.tn_buffer s)
            c
            (bytes_at buf.buf.buffer (Buffer.read_ptr buf) (Buffer.read_length buf))
  unfolding handle_client_read
  sends e c known there = rw (known, there) refl

  -- A read event of a client that the table does not have is refused and changes nothing. Otherwise
  -- the buffer `b` of the event is rewound. Either the call fails with no free write request, and
  -- changes nothing more; or it fails with no free buffer for writing, or with more bytes than a block,
  -- no request becomes ready, and nothing but the requests and the pool for writing changes; or it
  -- succeeds, and all the bytes that `b` has been given, also the ones that have been read from it, are
  -- sent back to the client. The service stays valid.
  pub handle_client_read-echoes :
      {used : List ℕ} {at b : ℕ} {buf : Buffer} (e : Event)
      → Table.IsValid used s.channel_list
      → e.tn_buffer ≡ some b
      → get_elem? s.pool_read.buffers b ≡ some buf
      → BufferInv.IsValid at buf
      → let (r, s') = handle_client_read ops s e in
        ((length s.channel_list.client_map ≤ e.client_id) × (r ≡ event_nochan) × (s' ≡ s))
        ⊎ ((contents s.write_reqs_free ≡ []) × (r ≡ send_noreq) × (s' ≡ reread e.tn_buffer s))
        ⊎ (((contents s.pool_write.free ≡ [])
              ⊎ (s.pool_write.block_size < length (slice buf.buf.buffer 0 buf.buf.len)))
            × (r ≡ send_nobuf)
            × (contents s'.write_reqs_ready ≡ contents s.write_reqs_ready)
            × WritesOnly (reread-IsValid v e.tn_buffer) s'
            × IsValid k m writing s')
        ⊎ ((r ≡ success)
            × Sent
                (reread-IsValid v e.tn_buffer)
                ops
                laws
                e.client_id
                (slice buf.buf.buffer 0 buf.buf.len)
                s')
  unfolding Buffer.read_length
  handle_client_read-echoes {used} {at} {b} {buf} e t owner there valid =
      elim (get_lem used s.channel_list e.client_id t) [
        | inr (out, e') ↦
            inl (
              out,
              unfold handle_client_read in rw e' refl,
              unfold handle_client_read in rw e' refl,
            )
        | inl (known, e') ↦
            let all : List ℕ = slice buf.buf.buffer 0 buf.buf.len in
            let again : Buffer = Buffer.read_reset buf in
            let found : buffer_at (rewound e.tn_buffer s.pool_read).buffers e.tn_buffer
                ≡ some again =
              rw owner (get_elem?-modify_self s.pool_read.buffers b Buffer.read_reset buf there) in
            let same : handle_client_read ops s e
                ≡ send ops (reread e.tn_buffer s) e.client_id all =
              sends e e.client_id e' found
              ∙ ap (send ops (reread e.tn_buffer s) e.client_id) (read_reset_lem valid).1 in
            rw same
              (elim (send_keeps (reread-IsValid v e.tn_buffer) ops laws e.client_id all known) [
                | inl (none_free, r, unchanged) ↦ inr (inl (none_free, r, unchanged))
                | inr (inl failure) ↦ inr (inr (inl failure))
                | inr (inr (r, sent)) ↦ inr (inr (inr (r, sent)))
              ])
      ]

-- The service has changed only where reading and sending change it.
abbrev pub SameElse : Service → Service → Type 0
SameElse s s' = s' ≡ record s {
  pool_read = s'.pool_read;
  pool_write = s'.pool_write;
  write_reqs = s'.write_reqs;
  write_reqs_free = s'.write_reqs_free;
  write_reqs_ready = s'.write_reqs_ready;
}

rewound_same :
    (s t : Service) (b : Option ℕ)
    → t ≡ record (reread b s) {
      write_reqs = t.write_reqs;
      write_reqs_free = t.write_reqs_free;
      write_reqs_ready = t.write_reqs_ready;
      pool_write = t.pool_write;
    }
    → SameElse s t
rewound_same s t b e =
    e
    ∙ ap {A = Pool} {B = Service}
        (λ p. record s {
          pool_read = p;
          pool_write = t.pool_write;
          write_reqs = t.write_reqs;
          write_reqs_free = t.write_reqs_free;
          write_reqs_ready = t.write_reqs_ready;
        })
        (sym (ap (λ t. t.pool_read) e))

abbrev pub Kept : ℕ → ℕ → List ℕ → Service → Service → Type 0
Kept k m writing s s' = IsValid k m writing s' × SameElse s s'

module _ (ops : ByteOps) (laws : IsByteOps ops) (k m : ℕ) (writing used : List ℕ) where
  read_keeps :
      (s : Service) (e : Event)
      → IsValid k m writing s
      → Table.IsValid used s.channel_list
      → Kept k m writing s (handle_client_read ops s e).1
  read_keeps s e v t = elim (get_lem used s.channel_list e.client_id t) [
    | inr (_, e') ↦ unfold handle_client_read in rw e' (v, refl)
    | inl (known, e') ↦
        elim (Option-cases (buffer_at (rewound e.tn_buffer s.pool_read).buffers e.tn_buffer)) [
          | inl missing ↦
              unfold handle_client_read in rw (e', missing) (reread-IsValid v e.tn_buffer, refl)
          | inr (buf, there) ↦
              let bytes : List ℕ =
                bytes_at buf.buf.buffer (Buffer.read_ptr buf) (Buffer.read_length buf) in
              rw (sends ops laws v e e.client_id e' there)
                (elim (send_keeps (reread-IsValid v e.tn_buffer) ops laws e.client_id bytes known) [
                  | inl (_, _, same) ↦ rw same (reread-IsValid v e.tn_buffer, refl)
                  | inr (inl (_, _, _, same, w)) ↦ (
                    w,
                    rewound_same s (send ops (reread e.tn_buffer s) e.client_id bytes).1 e.tn_buffer
                        same,
                  )
                  | inr (inr (_, sent)) ↦ (
                    sent.13,
                    rewound_same s (send ops (reread e.tn_buffer s) e.client_id bytes).1 e.tn_buffer
                        sent.12,
                  )
                ])
        ]
  ]

  by_type :
      (s : Service) (e : Event) (t : EventType)
      → Kept k m writing s (handle_client_read ops s e).1
      → Kept k m writing s s
      → Kept k m writing s
          (elim t as (λ _. Service) [ event_client_read ↦ (handle_client_read ops s e).1 | _ ↦ s ])
  by_type s e event_none read same = same
  by_type s e event_ioerror read same = same
  by_type s e event_client_open read same = same
  by_type s e event_client_close read same = same
  by_type s e event_client_read read same = read

  handle_keeps :
      (s : Service) (i : ℕ)
      → IsValid k m writing s
      → Table.IsValid used s.channel_list
      → Kept k m writing s (handle ops s (some i))
  unfolding handle
  handle_keeps s i v t = elim (Option-cases (get_elem? s.events.events i)) [
    | inl missing ↦ rw (handle, missing) (v, refl)
    | inr (e, there) ↦ rw (handle, there) (by_type s e e.type (read_keeps s e v t) (v, refl))
  ]

  pub handle_all_keeps :
      (given : List ℕ) (s : Service)
      → IsValid k m writing s
      → Table.IsValid used s.channel_list
      → Kept k m writing s (handle_all ops s (map some given))
  unfolding handle_all
  handle_all_keeps [] s v t = (v, refl)
  handle_all_keeps (i ∷ given) s v t =
      let s₁ : Service = handle ops s (some i) in
      let (w, same) = handle_keeps s i v t in
      let (w', same') =
        handle_all_keeps given s₁ w
          (subst (Table.IsValid used) (sym (ap (λ s. s.channel_list) same)) t) in
      let s₂ : Service = handle_all ops s₁ (map some given) in
      (
        w',
        same'
            ∙ ap {A = Service} {B = Service}
                (λ s. record s {
                  pool_read = s₂.pool_read;
                  pool_write = s₂.pool_write;
                  write_reqs = s₂.write_reqs;
                  write_reqs_free = s₂.write_reqs_free;
                  write_reqs_ready = s₂.write_reqs_ready;
                })
                same,
      )
