-- ===== src/Plugin.antt =====
-- src/unity/tcpeen_unity.c: the functions that the plugin for Unity exports, over its one service.
-- What the functions of Unity that load and unload the plugin do is nothing.
pub mod Laws
use tcpeen.Base.{
  ℕ, Bool, true, false, Option, none, some, List, [], ◌∷◌, if◌then◌else◌, Status, success, error,
  failed,
}
use tcpeen.Bytes.{ByteOps}
use tcpeen.Endpoint.{AddrOps}
use tcpeen.Channel
use tcpeen.Service.{Service, Counters}
use tcpeen.Service.Setup
use tcpeen.Service.Setup.{Host, sizeof_priv}
use tcpeen.Service.Lifecycle
use tcpeen.Service.Updates
use tcpeen.Service.Send

-- The global service; `has_priv` tells whether `tcp_service.priv` is not NULL.
pub record Plugin : Type 0 where
  pub has_priv : Bool
  pub service : Service

-- TN_GUARD on a call.
abbrev pub guarded : Plugin → Status × Service → Status × Plugin
guarded p (r, s) =
    let p' : Plugin = record p { service = s } in if failed r then (error, p') else (success, p')

-- The private part is released where the setup fails later on, and the pointer to it stays.
pub setup : Host → Counters → Plugin → Status × Plugin
setup host counters p =
    guarded (record p { has_priv = host.mem.structs sizeof_priv }) (Setup.setup host counters)

-- The pointer to the private part stays here too.
pub cleanup : Plugin → Status × Plugin
cleanup p =
    if p.has_priv then (success, record p { service = Setup.cleanup p.service }) else (error, p)

pub start : AddrOps → Status → Plugin → Option (List ℕ) → ℕ → Status × Plugin
start ops launched p ip port =
    if p.has_priv then guarded p (Lifecycle.start ops launched p.service ip port) else (error, p)

pub stop : Plugin → Status × Plugin
stop p = if p.has_priv then guarded p (Lifecycle.stop p.service) else (error, p)

-- The count is written also where nothing is acquired; without a private part it is not.
pub events_acquire : Plugin → Status × ℕ × Plugin
events_acquire p =
    let (r, count, s) = Updates.acquire p.service in
    let (t, p') = guarded p (r, s) in if p.has_priv then (t, count, p') else (error, 0, p)

pub events_release : Plugin → Status × Plugin
events_release p = if p.has_priv then guarded p (Updates.release p.service) else (error, p)

-- `none` is a NULL buffer; a length of 0 is refused like one.
pub send : ByteOps → Plugin → ℕ → Option (List ℕ) → Status × Plugin
send ops p client_id none = (error, p)
send ops p client_id (some []) = (error, p)
send ops p client_id (some (b ∷ bs)) =
    let (r, channel) = Channel.get p.service.channel_list client_id in
    if p.has_priv
    then (if failed r then (error, p) else elim channel [
      | none ↦ (error, p)
      | some c ↦ guarded p (Send.send ops p.service c (b ∷ bs))
    ])
    else (error, p)
