-- ===== src/Endpoint/Laws.antt =====
-- Which endpoints are usable, and which calls make one.
use tcpeen.Base.{ℕ, ◌≡◌, ◌≢◌, some, List, success, error, arith, ◌⊎◌}
use tcpeen.Endpoint.{
  inet, inet6, SockAddr, type_none, type_ipv4, type_ipv6, Endpoint, AddrOps, zeroed, get_string,
  set_ip4, set_ip6, set, convert_from,
}

-- The type and the family of the address agree.
abbrev pub IsUsable : Endpoint → Type 0
IsUsable e =
    ((e.type ≡ type_ipv4) × (e.sockaddr.family ≡ inet))
    ⊎ ((e.type ≡ type_ipv6) × (e.sockaddr.family ≡ inet6))

-- What libuv documents: an address that was parsed has the family of the parser.
pub record IsAddrOps (ops : AddrOps) : Type 0 where
  pub ip4_family :
      (ip : List ℕ) (port : ℕ)
      → (ops.ip4_addr ip port).0 ≡ success
      → (ops.ip4_addr ip port).1.family ≡ inet
  pub ip6_family :
      (ip : List ℕ) (port : ℕ)
      → (ops.ip6_addr ip port).0 ≡ success
      → (ops.ip6_addr ip port).1.family ≡ inet6

-- A usable endpoint has a string.
pub get_string-IsUsable :
    (ops : AddrOps) (e : Endpoint) → IsUsable e → (get_string ops e).0 ≡ success
unfolding get_string
get_string-IsUsable ops e u = ground arith

-- Setting an endpoint takes the address of the IPv6 parser where that accepts it, and else that
-- of the IPv4 parser, and the type then agrees with the family; where neither accepts it the
-- call fails and leaves an endpoint of no type.
pub set_lem :
    (ops : AddrOps) (laws : IsAddrOps ops) (e : Endpoint) (ip : List ℕ) (port : ℕ)
    → let (s, r) = set ops e (some ip) port in
      (((ops.ip6_addr ip port).0 ≡ success)
        × (s ≡ success)
        × IsUsable r
        × (r.sockaddr ≡ (ops.ip6_addr ip port).1))
      ⊎ (((ops.ip6_addr ip port).0 ≢ success)
          × ((ops.ip4_addr ip port).0 ≡ success)
          × (s ≡ success)
          × IsUsable r
          × (r.sockaddr ≡ (ops.ip4_addr ip port).1))
      ⊎ (((ops.ip6_addr ip port).0 ≢ success)
          × ((ops.ip4_addr ip port).0 ≢ success)
          × (s ≡ error)
          × (r.type ≡ type_none))
unfolding set set_ip4 set_ip6
set_lem ops laws e ip port = ground (arith, laws.ip4_family ip port, laws.ip6_family ip port)

-- An address is converted exactly where its family is one of the two, and is then usable.
pub convert_from_lem :
    (e : Endpoint) (addr : SockAddr)
    → let (s, r) = convert_from e (some addr) in
      ((s ≡ success) × IsUsable r × (r.sockaddr ≡ addr))
      ⊎ ((s ≡ error) × (addr.family ≢ inet) × (addr.family ≢ inet6) × (r ≡ zeroed))
unfolding convert_from
convert_from_lem e addr = ground arith
