-- ===== src/Address.antt =====
-- net/InetAddress.h and InetAddress.cc. The byte orders and the texts of addresses are those of the
-- system: `Net` has its functions.
pub mod ReadsBack
pub mod Tests
use clear_moon.Prelude.{
  ℕ, ◌≡◌, Bool, true, false, List, [], ◌∷◌, ◌++◌, Option, none, some, ◌>>=◌, Bytes, if◌then◌else◌,
}
use clear_moon.StdString.{decimal, is_empty}

-- `inet_pton` and `inet_ntop` of the two families, which are `true` for IPv6, the address that stands
-- for any, `htons` and `ntohs`.
pub record Net : Type 0 where
  pub inet_pton : Bool → Bytes → Option Bytes
  pub inet_ntop : Bool → Bytes → Bytes
  pub any_address : Bool → Bytes
  pub htons : ℕ → ℕ
  pub ntohs : ℕ → ℕ

-- `sa_family`: AF_INET and AF_INET6, or another number.
pub data Family : Type 0 where
  af_inet af_inet6 : Family
  af_other : ℕ → Family

-- A `sockaddr_in` or a `sockaddr_in6`, of which the code uses these fields.
pub record Sockaddr : Type 0 where
  pub family : Family
  pub port : ℕ
  pub address : Bytes

-- The union, with `ipv6_` as its tag.
pub data InetAddress : Type 0 where
  addr4 addr6 : Sockaddr → InetAddress

-- Everything is 0, the family too.
abbrev pub create_default : InetAddress
create_default = addr4 (record { family = af_other 0; port = 0; address = 0 ∷ 0 ∷ 0 ∷ 0 ∷ [] })

abbrev pub is_af_inet : Family → Bool
is_af_inet af_inet = true
is_af_inet _ = false

abbrev pub from_sockaddr : Sockaddr → InetAddress
from_sockaddr a = if is_af_inet a.family then addr4 a else addr6 a

-- `setFromSockaddr`, of a `sockaddr_storage` or a `sockaddr`.
abbrev pub set_from_sockaddr : Sockaddr → InetAddress → InetAddress
set_from_sockaddr a old = from_sockaddr a

-- The four copies and moves.
abbrev pub copy : InetAddress → InetAddress
copy (addr4 a) = addr4 a
copy (addr6 a) = addr6 a

abbrev pub get_address : InetAddress → Sockaddr
get_address (addr4 a) = a
get_address (addr6 a) = a

abbrev pub get_family : InetAddress → Family
get_family i = (get_address i).family

-- `sizeof` of the two structures.
abbrev pub get_sock_len : InetAddress → ℕ
get_sock_len (addr4 a) = 16
get_sock_len (addr6 a) = 28

module _ (net : Net) where
  -- `fillIpv4` and `fillIpv6`; the assert on `inet_pton` is `none`.
  abbrev pub address_of : Bool → Bytes → Option Bytes
  address_of ipv6 ip = if is_empty ip then some (net.any_address ipv6) else net.inet_pton ipv6 ip

  abbrev pub fill_ipv4 : Bytes → ℕ → Option Sockaddr
  fill_ipv4 ip port = address_of false ip >>= λ a.
      some (record { family = af_inet; port = net.htons port; address = a })

  abbrev pub fill_ipv6 : Bytes → ℕ → Option Sockaddr
  fill_ipv6 ip port = address_of true ip >>= λ a.
      some (record { family = af_inet6; port = net.htons port; address = a })

  unfoldable pub create : Bytes → ℕ → Bool → Option InetAddress
  create ip port true = fill_ipv6 ip port >>= λ a. some (addr6 a)
  create ip port false = fill_ipv4 ip port >>= λ a. some (addr4 a)

  abbrev pub to_ip : InetAddress → Bytes
  to_ip (addr4 a) = net.inet_ntop false a.address
  to_ip (addr6 a) = net.inet_ntop true a.address

  abbrev pub to_port : InetAddress → ℕ
  to_port (addr4 a) = net.ntohs a.port
  to_port (addr6 a) = net.ntohs a.port

  -- "[" and "]:" around an address of IPv6, ":" behind the other.
  unfoldable pub to_ip_port : InetAddress → Bytes
  to_ip_port (addr6 a) = (91 ∷ to_ip (addr6 a)) ++ (93 ∷ 58 ∷ decimal (to_port (addr6 a)))
  to_ip_port (addr4 a) = to_ip (addr4 a) ++ (58 ∷ decimal (to_port (addr4 a)))
