-- ===== src/Address/Tests.antt =====
-- A port that is stored with its two bytes swapped, and texts that stand for themselves.
use clear_moon.Prelude.{
  ℕ, ◌+◌, ◌*◌, ◌/◌, ◌%◌, ◌^◌, ◌<◌, ◌≡◌, refl, true, [], ◌∷◌, some, Bytes, arith,
}
use clear_moon.Address.{
  Net, InetAddress, create_default, create, copy, get_address, set_from_sockaddr, to_ip_port,
  to_port,
}
use clear_moon.Address.ReadsBack.{written, create-reads_back}

abbrev swap_bytes : ℕ → ℕ
swap_bytes n = n % 256 * 256 + n / 256

abbrev plain : Net
plain = record {
  inet_pton = λ v ip. some ip;
  inet_ntop = λ v a. a;
  any_address = λ v. [];
  htons = swap_bytes;
  ntohs = swap_bytes;
}

swap_twice : (p : ℕ) → p < 2 ^ 16 → swap_bytes (swap_bytes p) ≡ p
swap_twice p h = omega arith

-- "::1" and the port 80.
abbrev loopback : Bytes
loopback = 58 ∷ 58 ∷ 49 ∷ []

create-reads_back_example :
    (a : InetAddress) × (create plain loopback 80 true ≡ some a)
    × (to_ip_port plain a ≡ written true loopback 80)
    × (to_port plain a ≡ 80)
    × (copy a ≡ a)
    × (set_from_sockaddr (get_address a) create_default ≡ a)
create-reads_back_example =
    create-reads_back plain loopback loopback 80 true create_default (omega arith) swap_twice refl
      refl refl
