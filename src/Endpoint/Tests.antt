-- ===== src/Endpoint/Tests.antt =====
-- Parsers that take an address of four or of sixteen characters.
use tcpeen.Base.{
  ℕ, ◌≡◌, ◌≢◌, refl, some, List, [], ◌∷◌, ◌++◌, length, ◌==◌, if◌then◌else◌, success, error, ◌⊎◌,
}
use tcpeen.Endpoint.{AddrOps, inet, inet6, zeroed, type_none, set}
use tcpeen.Endpoint.Laws.{IsAddrOps, IsUsable, set_lem}

abbrev pub by_length : AddrOps
by_length = record {
  ip4_addr = λ ip port. (
    if length ip == 4 then success else error,
    record { family = inet; port = port; address = ip },
  );
  ip6_addr = λ ip port. (
    if length ip == 16 then success else error,
    record { family = inet6; port = port; address = ip },
  );
  ip4_name = λ a. a.address;
  ip6_name = λ a. a.address;
  print = λ name port. name ++ port ∷ [];
}

by_length-IsAddrOps : IsAddrOps by_length
by_length-IsAddrOps = record { ip4_family = λ ip port e. refl; ip6_family = λ ip port e. refl }

abbrev local : List ℕ
local = 127 ∷ 0 ∷ 0 ∷ 1 ∷ []

set_lem_example :
    let (s, r) = set by_length zeroed (some local) 80 in
    (((by_length.ip6_addr local 80).0 ≡ success)
      × (s ≡ success)
      × IsUsable r
      × (r.sockaddr ≡ (by_length.ip6_addr local 80).1))
    ⊎ (((by_length.ip6_addr local 80).0 ≢ success)
        × ((by_length.ip4_addr local 80).0 ≡ success)
        × (s ≡ success)
        × IsUsable r
        × (r.sockaddr ≡ (by_length.ip4_addr local 80).1))
    ⊎ (((by_length.ip6_addr local 80).0 ≢ success)
        × ((by_length.ip4_addr local 80).0 ≢ success)
        × (s ≡ error)
        × (r.type ≡ type_none))
set_lem_example = set_lem by_length by_length-IsAddrOps zeroed local 80
