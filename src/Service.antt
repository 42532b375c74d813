-- ===== src/Service.antt =====
-- src/tcp_service.c, src/tcp_service_internal.c and include/tn/tcp_service.h: the state of the
-- service. Its functions are in the children: Setup, Lifecycle, Send and Updates are what the main
-- thread calls, Thread is the IO thread, Callbacks and Connect are what libuv calls on it.
pub mod Setup
pub mod Lifecycle
pub mod Thread
pub mod Send
pub mod Updates
pub mod Callbacks
pub mod Connect
pub mod Tests
use tcpeen.Base.{ℕ, Option, none, some, List, get_elem?, modify, Status}
use tcpeen.Queue.{Queue}
use tcpeen.Endpoint.{Endpoint}
use tcpeen.Pool.{Pool}
use tcpeen.Events.{EventList}
use tcpeen.Channel.{Channel, ChannelList}

pub data ServiceState : Type 0 where
  service_new service_starting service_started service_stopping : ServiceState
  service_stopped service_error service_invalid : ServiceState

-- `base` and `len` are the members of `uv_buf`; `channel` and `buffer` are indices in the table of
-- channels and in the pool for writing.
pub record WriteReq : Type 0 where
  pub id : ℕ
  pub channel : Option ℕ
  pub buffer : Option ℕ
  pub base : Option ℕ
  pub len : ℕ

-- The global counters of src/tcp_service_internal.c.
pub record Counters : Type 0 where
  pub send_msgs : ℕ
  pub send_bytes : ℕ
  pub recv_msgs : ℕ
  pub recv_bytes : ℕ

pub record Service : Type 0 where
  pub host_listen : Endpoint
  pub channel_list : ChannelList
  pub pool_read : Pool
  pub pool_write : Pool
  pub events : EventList
  pub event_updates : List (Option ℕ)
  pub event_updates_count : ℕ
  pub buffer_count : ℕ
  pub write_reqs : List WriteReq
  pub write_reqs_free : Queue
  pub write_reqs_ready : Queue
  pub counters : Counters
  pub state : ServiceState

-- `TN_SERVICE_MAX_CLIENTS` and `TN_SERVICE_MAX_READ`
abbrev pub max_clients : ℕ
max_clients = 10000

abbrev pub max_read : ℕ
max_read = 65535

abbrev pub channel_at : Service → ℕ → Option Channel
channel_at s i = get_elem? s.channel_list.client_map i

abbrev pub change_channel : Service → ℕ → (Channel → Channel) → Service
change_channel s i f = record s {
  channel_list = record (s.channel_list) { client_map = modify s.channel_list.client_map i f };
}

abbrev pub change_req : Service → ℕ → (WriteReq → WriteReq) → Service
change_req s i f = record s { write_reqs = modify s.write_reqs i f }
