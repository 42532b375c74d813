-- ===== src/Service/Send/Inv.antt =====
-- Who holds which write request and which buffer for writing: a request is free, ready, or with
-- libuv, and a buffer is free or in the hands of a request that is not.
use tcpeen.Base.{
  ℕ, ◌≤◌, ◌<◌, ◌≡◌, ◌≢◌, refl, ap, ap₂, ◌∙◌, Option, none, some, List, [], ◌∷◌, ◌++◌, map, length,
  modify, get_elem?, get_elem?-modify_ne, length-modify, occurs, Partition, arith,
}
use tcpeen.Queue.Inv as QueueInv
use tcpeen.Queue.Refine.{contents}
use tcpeen.Pool.Inv as PoolInv
use tcpeen.Pool.Peek.{AreValid}
use tcpeen.Service.{Service, WriteReq}

-- The buffer of a request; 0 where it has none.
abbrev pub buffer_in : Option WriteReq → ℕ
buffer_in none = 0
buffer_in (some w) = elim w.buffer [ none ↦ 0 | some b ↦ b ]

abbrev pub buffer_of : List WriteReq → ℕ → ℕ
buffer_of reqs i = buffer_in (get_elem? reqs i)

-- The request has a channel of the table and a buffer.
pub record IsLoaded (clients : ℕ) (reqs : List WriteReq) (i : ℕ) : Type 0 where
  pub req : WriteReq
  pub there : get_elem? reqs i ≡ some req
  pub target : ℕ
  pub channel : req.channel ≡ some target
  pub known : target < clients
  pub index : ℕ
  pub buffer : req.buffer ≡ some index

abbrev pub AreLoaded : ℕ → List WriteReq → List ℕ → Type 0
AreLoaded n reqs [] = Unit {0}
AreLoaded n reqs (i ∷ is) = IsLoaded n reqs i × AreLoaded n reqs is

-- `writing` are the requests that libuv has.
pub record IsValid (k m : ℕ) (writing : List ℕ) (s : Service) : Type 0 where
  pub free_queue : QueueInv.IsValid k s.write_reqs_free
  pub ready_queue : QueueInv.IsValid k s.write_reqs_ready
  pub free_room : s.buffer_count ≤ s.write_reqs_free.capacity
  pub ready_room : s.buffer_count ≤ s.write_reqs_ready.capacity
  pub stored : s.buffer_count ≤ length s.write_reqs
  pub reqs :
      Partition s.buffer_count
        (contents s.write_reqs_free ∷ contents s.write_reqs_ready ∷ writing ∷ [])
  pub pool : PoolInv.IsValid m s.pool_write
  pub valid_buffers : AreValid s.pool_write.block_size s.pool_write.buffers
  pub buffers : Partition s.pool_write.block_count (
      contents s.pool_write.free
      ∷ map (buffer_of s.write_reqs) (contents s.write_reqs_ready)
      ∷ map (buffer_of s.write_reqs) writing
      ∷ [])
  pub ready_loaded :
      AreLoaded (length s.channel_list.client_map) s.write_reqs (contents s.write_reqs_ready)
  pub writing_loaded : AreLoaded (length s.channel_list.client_map) s.write_reqs writing

-- What a service keeps for other purposes does not matter.
pub elsewhere :
    {k m : ℕ} {writing : List ℕ} {s : Service}
    → IsValid k m writing s
    → (t : Service)
    → IsValid k m writing (record s {
      host_listen = t.host_listen;
      pool_read = t.pool_read;
      events = t.events;
      event_updates = t.event_updates;
      event_updates_count = t.event_updates_count;
      counters = t.counters;
      state = t.state;
    })
elsewhere v t = record {
  free_queue = v.free_queue;
  ready_queue = v.ready_queue;
  free_room = v.free_room;
  ready_room = v.ready_room;
  stored = v.stored;
  reqs = v.reqs;
  pool = v.pool;
  valid_buffers = v.valid_buffers;
  buffers = v.buffers;
  ready_loaded = v.ready_loaded;
  writing_loaded = v.writing_loaded;
}

not_head : (i x : ℕ) (xs : List ℕ) → occurs i (x ∷ xs) ≡ 0 → (i ≢ x) × (occurs i xs ≡ 0)
not_head i x xs e = (λ p. ground arith, ground arith)

-- The requests other than `i` are the same in both.
pub record Others (i : ℕ) (before after : List WriteReq) : Type 0 where
  pub as_many : length after ≡ length before
  pub same : (j : ℕ) → i ≢ j → get_elem? after j ≡ get_elem? before j

pub modify-Others :
    (reqs : List WriteReq) (i : ℕ) (f : WriteReq → WriteReq) → Others i reqs (modify reqs i f)
modify-Others reqs i f = record {
  as_many = length-modify reqs i f;
  same = λ j. get_elem?-modify_ne reqs i j f;
}

module _ {i : ℕ} {before after : List WriteReq} (o : Others i before after) where
  pub buffer_of-Others :
      (xs : List ℕ) → occurs i xs ≡ 0 → map (buffer_of after) xs ≡ map (buffer_of before) xs
  buffer_of-Others [] e = refl
  buffer_of-Others (x ∷ xs) e =
      ap₂ ◌∷◌ (ap buffer_in (o.same x (not_head i x xs e).0))
        (buffer_of-Others xs (not_head i x xs e).1)

  pub Others-AreLoaded :
      (n : ℕ) (xs : List ℕ) → occurs i xs ≡ 0 → AreLoaded n before xs → AreLoaded n after xs
  Others-AreLoaded n [] e l = tt
  Others-AreLoaded n (x ∷ xs) e l = (
    record {
      req = l.0.req;
      there = o.same x (not_head i x xs e).0 ∙ l.0.there;
      target = l.0.target;
      channel = l.0.channel;
      known = l.0.known;
      index = l.0.index;
      buffer = l.0.buffer;
    },
    Others-AreLoaded n xs (not_head i x xs e).1 l.1,
  )

pub append-AreLoaded :
    (n : ℕ) (reqs : List WriteReq) (xs ys : List ℕ)
    → AreLoaded n reqs xs
    → AreLoaded n reqs ys
    → AreLoaded n reqs (xs ++ ys)
append-AreLoaded n reqs [] ys l m = m
append-AreLoaded n reqs (x ∷ xs) ys l m = (l.0, append-AreLoaded n reqs xs ys l.1 m)

pub map-snoc : (f : ℕ → ℕ) (xs : List ℕ) (x : ℕ) → map f (xs ++ x ∷ []) ≡ map f xs ++ f x ∷ []
map-snoc f [] x = refl
map-snoc f (y ∷ xs) x = ap (λ l. f y ∷ l) (map-snoc f xs x)
