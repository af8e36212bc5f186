-- ===== src/Address/ReadsBack.antt =====
-- An address that is made and read.
use clear_moon.Prelude.{ℕ, ◌<◌, ◌^◌, ◌≡◌, refl, Bool, true, false, ◌∷◌, ◌++◌, some, Bytes}
use clear_moon.StdString.{decimal, is_empty}
use clear_moon.Address.{
  Net, af_inet, af_inet6, InetAddress, addr4, addr6, set_from_sockaddr, copy, get_address, create,
  to_port, to_ip_port,
}

-- The text of an address with its port.
abbrev pub written : Bool → Bytes → ℕ → Bytes
written true ip port = (91 ∷ ip) ++ (93 ∷ 58 ∷ decimal port)
written false ip port = ip ++ (58 ∷ decimal port)

-- Where `ntohs` undoes `htons`, and the text of an address is the one that `inet_ntop` writes: an address
-- that is made from it and a port is made, shows that text and that port, and is the same when a copy is
-- taken or when it is read back from its structure, as the kernel gives it.
pub create-reads_back :
    (net : Net) (ip address : Bytes) (port : ℕ) (ipv6 : Bool) (old : InetAddress)
    → port < 2 ^ 16
    → ((p : ℕ) → p < 2 ^ 16 → net.ntohs (net.htons p) ≡ p)
    → is_empty ip ≡ false
    → net.inet_pton ipv6 ip ≡ some address
    → net.inet_ntop ipv6 address ≡ ip
    → (a : InetAddress) × (create net ip port ipv6 ≡ some a)
      × (to_ip_port net a ≡ written ipv6 ip port)
      × (to_port net a ≡ port)
      × (copy a ≡ a)
      × (set_from_sockaddr (get_address a) old ≡ a)
unfolding create to_ip_port
create-reads_back net ip address port true old h law e f g = (
  addr6 (record { family = af_inet6; port = net.htons port; address = address }),
  rw (e, f) refl,
  rw (g, law port h) refl,
  law port h,
  refl,
  refl,
)
create-reads_back net ip address port false old h law e f g = (
  addr4 (record { family = af_inet; port = net.htons port; address = address }),
  rw (e, f) refl,
  rw (g, law port h) refl,
  law port h,
  refl,
  refl,
)
