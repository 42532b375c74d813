-- ===== src/Endpoint.antt =====
-- src/endpoint.c and include/tn/endpoint.h. The functions of libuv and `sprintf` that it calls are
-- a parameter, `AddrOps`. A string is the list of its characters.
pub mod Laws
pub mod Tests
use tcpeen.Base.{ℕ, Option, none, some, List, [], if◌then◌else◌, Status, success, error, failed}

-- `other_family` is any family but AF_UNSPEC, AF_INET and AF_INET6.
pub data Family : Type 0 where
  unspec inet inet6 other_family : Family

-- `port` is in host order.
pub record SockAddr : Type 0 where
  pub family : Family
  pub port : ℕ
  pub address : List ℕ

pub data EndpointType : Type 0 where
  type_none type_ipv4 type_ipv6 type_pipe type_file : EndpointType

pub record Endpoint : Type 0 where
  pub type : EndpointType
  pub sockaddr : SockAddr

-- `ip4_addr` and `ip6_addr` also say what they leave in the address where they fail; `print` is
-- sprintf with the format "%s:%u".
pub record AddrOps : Type 0 where
  pub ip4_addr : List ℕ → ℕ → Status × SockAddr
  pub ip6_addr : List ℕ → ℕ → Status × SockAddr
  pub ip4_name : SockAddr → List ℕ
  pub ip6_name : SockAddr → List ℕ
  pub print : List ℕ → ℕ → List ℕ

-- After `memset(endpoint, 0, ...)`.
abbrev pub zeroed : Endpoint
zeroed = record { type = type_none; sockaddr = record { family = unspec; port = 0; address = [] } }

module _ (ops : AddrOps) where
  -- The status and the string that is left in the buffer.
  pub get_string : Endpoint → Status × List ℕ
  get_string e = elim e.sockaddr.family [
    | inet6 ↦ (success, ops.print (ops.ip6_name e.sockaddr) e.sockaddr.port)
    | inet ↦ (success, ops.print (ops.ip4_name e.sockaddr) e.sockaddr.port)
    | unspec ↦ (error, [])
    | other_family ↦ (error, [])
  ]

  -- `ip` is NULL where it is `none`.
  unfoldable pub set_ip4 : Endpoint → Option (List ℕ) → ℕ → Status × Endpoint
  set_ip4 e none port = (error, e)
  set_ip4 e (some ip) port =
      let (s, addr) = ops.ip4_addr ip port in
      let left : Endpoint = record zeroed { sockaddr = addr } in
      if failed s then (error, left) else (success, record left { type = type_ipv4 })

  unfoldable pub set_ip6 : Endpoint → Option (List ℕ) → ℕ → Status × Endpoint
  set_ip6 e none port = (error, e)
  set_ip6 e (some ip) port =
      let (s, addr) = ops.ip6_addr ip port in
      let left : Endpoint = record zeroed { sockaddr = addr } in
      if failed s then (error, left) else (success, record left { type = type_ipv6 })

  unfoldable pub set : Endpoint → Option (List ℕ) → ℕ → Status × Endpoint
  unfolding set_ip4 set_ip6
  set e ip port =
      let (s, tried) = set_ip6 e ip port in
      if failed s then set_ip4 tried ip port else (success, tried)

pub convert_from : Endpoint → Option SockAddr → Status × Endpoint
convert_from e none = (error, e)
convert_from e (some addr) = elim addr.family [
  | inet6 ↦ (success, record { type = type_ipv6; sockaddr = addr })
  | inet ↦ (success, record { type = type_ipv4; sockaddr = addr })
  | unspec ↦ (error, zeroed)
  | other_family ↦ (error, zeroed)
]
