-- ===== src/Channel.antt =====
-- src/tcp_channel.c and include/tn/tcp_channel.h: one connection as the service sees it, and the
-- table of all of them. A `tcp_channel_t *` is the index of the channel in `client_map`; its buffer
-- is an index in the pool for reading, and its handle of libuv is a number.
pub mod Read
pub mod Table
pub mod Setup
pub mod Tests
use tcpeen.Base.{
  ℕ, zero, suc, ◌+◌, ◌*◌, ◌%◌, Option, none, some, List, [], if◌then◌else◌, ltb, leb, ◌==◌,
  get_elem?, modify, set, replicate, u64_mod, Status, success, error, failed,
}
use tcpeen.Memory.{Memory}
use tcpeen.Bytes.{ByteOps}
use tcpeen.Buffer
use tcpeen.Buffer.{Buffer, Span}
use tcpeen.ListPtr
use tcpeen.ListPtr.{ListPtr}
use tcpeen.Endpoint.{Endpoint, zeroed}
use tcpeen.Pool
use tcpeen.Pool.{Pool}

pub data ChannelState : Type 0 where
  channel_new channel_open channel_closing channel_closed channel_error channel_invalid :
      ChannelState

pub data ReadState : Type 0 where
  read_none read_header read_payload read_error read_invalid : ReadState

pub record Channel : Type 0 where
  pub priv : Option ℕ
  pub id : ℕ
  pub read_buffer : Option ℕ
  pub endpoint : Endpoint
  pub error_code : Status
  pub state : ChannelState
  pub read_state : ReadState
  pub next_payload_len : ℕ
  pub last_msg_id : ℕ

-- The buffer that `i` points to; `none` is a pointer to nothing, which TN_ASSERT excludes.
abbrev pub buffer_at : List Buffer → Option ℕ → Option Buffer
buffer_at bs none = none
buffer_at bs (some i) = get_elem? bs i

abbrev pub put_buffer : List Buffer → Option ℕ → Buffer → List Buffer
put_buffer bs none b = bs
put_buffer bs (some i) b = set bs i b

module _ (ops : ByteOps) where
  -- The status, the length, the buffers and the channel.
  pub header : List Buffer → Channel → Status × ℕ × List Buffer × Channel
  header bs c = elim (buffer_at bs c.read_buffer) [
    | none ↦ (error, 0, bs, c)
    | some b ↦
        let (s, out, b') = Buffer.read_be32 ops b in
        let bs' = put_buffer bs c.read_buffer b' in
        elim out [
          | none ↦ (error, 0, bs', c)
          | some n ↦
              if failed s
              then (error, 0, bs', c)
              else (success, n, bs', record c { next_payload_len = n; read_state = read_payload })
        ]
  ]

  pub payload : List Buffer → Channel → Status × Span × List Buffer × Channel
  payload bs c = elim (buffer_at bs c.read_buffer) [
    | none ↦ (error, record { ptr = none; len = 0 }, bs, c)
    | some b ↦
        let span : Span = record { ptr = Buffer.read_ptr b; len = c.next_payload_len } in
        let (s, b') = Buffer.read_skip ops b span.len in
        let bs' = put_buffer bs c.read_buffer b' in
        if failed s
        then (error, record { ptr = none; len = 0 }, bs', c)
        else (success, span, bs', record c { read_state = read_header })
  ]

  -- The end of `tcp_channel_buffer_swap`: what the buffer `prev` still holds is copied to the new one.
  pub copy_rest : ℕ → Pool → Channel → Status × Pool × Channel
  copy_rest prev p c = elim (get_elem? p.buffers prev) [
    | none ↦ (error, p, c)
    | some old ↦ elim (buffer_at p.buffers c.read_buffer) [
      | none ↦ (error, p, c)
      | some new ↦
          let (t, new') = Buffer.write_buffer ops new old 0 in
          let p' : Pool = record p { buffers = put_buffer p.buffers c.read_buffer new' } in
          if Buffer.read_length old == 0
          then (success, p, c)
          else (if failed t then (error, p', c) else (success, p', c))
    ]
  ]

  -- A new buffer from the pool for reading takes over what the old one still holds.
  pub buffer_swap : Pool → Channel → Status × Pool × Channel
  unfolding copy_rest
  buffer_swap p c = elim c.read_buffer [
    | none ↦ (error, p, c)
    | some prev ↦
        let (s, out, p') = Pool.pop_back p in
        let c' : Channel = record c { read_buffer = out } in
        if failed s then (error, p', c') else copy_rest prev p' c'
  ]

pub record ChannelList : Type 0 where
  pub client_map : List Channel
  pub clients_max : ℕ
  pub client_list_free : ListPtr
  pub client_list_open : ListPtr

-- `sizeof(tcp_channel_t)`
abbrev pub sizeof_channel : ℕ
sizeof_channel = 328

-- A channel of zero bytes.
abbrev pub blank : Channel
blank = record {
  priv = none;
  id = 0;
  read_buffer = none;
  endpoint = zeroed;
  error_code = success;
  state = channel_new;
  read_state = read_none;
  next_payload_len = 0;
  last_msg_id = 0;
}

abbrev pub no_list : ListPtr
no_list = record { cells = []; capacity = 0; index = 0 }

-- The loop of `tcp_channel_list_setup` and `tcp_channel_list_reset` from channel `i` on.
pub fill : ℕ → ℕ → ChannelList → Status × ChannelList
fill zero i l = (success, l)
fill (suc rounds) i l =
    let (s, free) = ListPtr.push_back l.client_list_free i in
    let l' : ChannelList = record l {
      client_map = modify l.client_map i (λ c. record c { id = i });
      client_list_free = free;
    } in
    let rest = fill rounds (i + 1) l' in if failed s then (error, l') else rest

-- On an error the list of free channels and the channels are released.
abbrev pub released : ChannelList → ChannelList
released l = record l { client_list_free = ListPtr.cleanup l.client_list_free; client_map = [] }

pub setup : Memory → ℕ → Status × ChannelList
unfolding fill
setup mem clients_max =
    let fresh : ChannelList = record {
      client_map = [];
      clients_max = 0;
      client_list_free = no_list;
      client_list_open = no_list;
    } in
    let (s, free) = ListPtr.setup mem.words clients_max in
    let mapped : ChannelList = record fresh {
      client_map = replicate clients_max blank;
      client_list_free = free;
    } in
    let (t, filled) = fill clients_max 0 mapped in
    if mem.structs (clients_max * sizeof_channel % u64_mod)
    then (if failed s
        then (error, released mapped)
        else (if failed t
            then (error, released filled)
            else (success, record filled { clients_max = clients_max })))
    else (error, released fresh)

-- It returns TN_ERROR also where all is well.
pub cleanup : ChannelList → Status × ChannelList
cleanup l = (error, released l)

pub open_channel : ChannelList → Status × Option ℕ × ChannelList
open_channel l =
    let (s, out, free) = ListPtr.pop_back l.client_list_free in
    let l' : ChannelList = record l { client_list_free = free } in
    if failed s then (error, out, l') else (success, out, l')

pub close_channel : ChannelList → ℕ → Status × ChannelList
close_channel l channel =
    let (s, free) = ListPtr.push_back l.client_list_free channel in
    let l' : ChannelList = record l { client_list_free = free } in
    if failed s then (error, l') else (success, l')

pub reset : ChannelList → Status × ChannelList
unfolding fill
reset l = fill l.clients_max 0 (record l {
  client_map = replicate l.clients_max blank;
  client_list_free = ListPtr.clear l.client_list_free;
  client_list_open = ListPtr.clear l.client_list_open;
})

pub get : ChannelList → ℕ → Status × Option ℕ
get l client_id = if leb l.clients_max client_id then (error, none) else (success, some client_id)
