-- ===== src/Service/Connect.antt =====
-- `on_connection_cb` of src/tcp_service_internal.c.
use tcpeen.Base.{ℕ, Option, none, some, if◌then◌else◌, Status, success, error, failed}
use tcpeen.Endpoint
use tcpeen.Endpoint.{Endpoint, SockAddr, AddrOps, zeroed}
use tcpeen.Events
use tcpeen.Events.{EventList, change, event_client_open}
use tcpeen.Channel.{Channel, channel_open, channel_closing, read_header, open_channel}
use tcpeen.Service.{Service, channel_at, change_channel}

-- What libuv answers to the calls for one new connection.
pub record Peer : Type 0 where
  pub status : Status
  pub handle : Option ℕ
  pub init : Status
  pub accept : Status
  pub peername : Status × SockAddr
  pub sockname : Status × SockAddr
  pub read_start : Status

-- What becomes of the handle of the client.
pub data Fate : Type 0 where
  reading : ℕ → Fate
  closes_channel : ℕ → Fate
  closes_handle : Fate
  dropped : Fate

-- The event that tells of the new client.
pub announce : AddrOps → Service → ℕ → Endpoint → Endpoint → Status × Service
announce ops s client_id local remote =
    let (r, evt, events) = Events.free_pop_open s.events in
    let (t, here) = Endpoint.get_string ops local in
    let (u, there) = Endpoint.get_string ops remote in
    let s₁ : Service = record s { events = events } in
    if failed r then (r, s₁) else elim evt [
      | none ↦ (error, s₁)
      | some e ↦
          let named : EventList = change events (some e) (λ e. record e {
            type = event_client_open;
            client_id = client_id;
            host_local = here;
          }) in
          let filled : EventList = change named (some e) (λ e. record e { host_remote = there }) in
          let (v, pushed) = Events.ready_push filled e in
          if failed t
          then (t, record s { events = named })
          else (if failed u
              then (u, record s { events = filled })
              else (v, record s { events = pushed }))
    ]

-- `channel->id`
abbrev pub id_of : Service → ℕ → ℕ
id_of s channel = elim (channel_at s channel) [ none ↦ 0 | some c ↦ c.id ]

-- The channel is open; the addresses are looked up, and the client is announced.
pub greet : AddrOps → Peer → Service → ℕ → Status × Service
unfolding announce
greet ops p s channel =
    let (t, remote) = Endpoint.convert_from zeroed (some p.peername.1) in
    let (u, local) = Endpoint.convert_from zeroed (some p.sockname.1) in
    let s' = change_channel s channel (λ c. record c { endpoint = remote }) in
    let (v, s'') = announce ops s' (id_of s' channel) local remote in
    if failed p.peername.0
    then (p.peername.0, s)
    else (if failed t
        then (t, s')
        else (if failed p.sockname.0
            then (p.sockname.0, s')
            else (if failed u
                then (u, s')
                else (if failed v then (v, s'') else (p.read_start, s'')))))

-- The fields that a new connection sets.
abbrev pub opened : Option ℕ → Channel → Channel
opened handle c = record c {
  priv = handle;
  read_state = read_header;
  state = channel_open;
  error_code = success;
  read_buffer = none;
  last_msg_id = 0;
}

pub on_connection_cb : AddrOps → Peer → Service → Fate × Service
unfolding greet
on_connection_cb ops p s =
    let (r, out, channels) = open_channel s.channel_list in
    let s₁ : Service = record s { channel_list = channels } in
    if failed p.status then (dropped, s) else elim p.handle [
      | none ↦ (dropped, s)
      | some h ↦
          if failed p.init
          then (dropped, s)
          else (if failed p.accept then (closes_handle, s) else elim out [
            | none ↦ (closes_handle, s₁)
            | some i ↦
                let s₂ = change_channel s₁ i (opened (some h)) in
                let (t, s₃) = greet ops p s₂ i in
                if failed r
                then (closes_handle, s₁)
                else (if failed t
                    then (
                      closes_channel i,
                      change_channel s₃ i (λ c. record c { state = channel_closing }),
                    )
                    else (reading i, s₃))
          ])
    ]
