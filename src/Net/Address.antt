-- ===== src/Net/Address.antt =====
-- net/address.h, net/address.cpp: addresses. `uv_inet_pton` for the two families and `uv_ip4_name`
-- are parameters.
use libra_core.Common.{
  ℕ, ◌+◌, ◌*◌, ◌/◌, ◌%◌, ◌^◌, ◌<◌, ◌≡◌, refl, Option, some, none, List, arith, Outcome, done, throw,
  ◌==◌, if◌then◌else◌, Text,
}
use libra_core.Common.{not_implemented, invalid_address}
use libra_core.Base.Bytes.{
  Endian, big, little, uint16, swap_h2n, net_order, object_bytes, be_bytes, wire-swap_h2n,
}

-- `sockaddr_in`: the family, the four bytes of the address, and `sin_port` as an object of the host.
pub record Ipv4 : Type 0 where
  pub sin_family : ℕ
  pub sin_addr : List ℕ
  pub sin_port : ℕ

abbrev pub af_inet : ℕ
af_inet = 2

-- `IPv4(addr, port)`
unfoldable pub make_ipv4 : List ℕ → ℕ → Ipv4
make_ipv4 addr port = record { sin_family = af_inet; sin_addr = addr; sin_port = port }

-- `IPv4(addr)`: the copy of the whole object takes the place of the family that was set before it.
unfoldable pub copy_ipv4 : Ipv4 → Ipv4
copy_ipv4 addr =
    let set = record addr { sin_family = af_inet } in
    record set { sin_family = addr.sin_family; sin_addr = addr.sin_addr; sin_port = addr.sin_port }

-- By what `uv_inet_pton` makes of the text as an IPv4 and as an IPv6 address.
unfoldable pub by_family : Option (List ℕ) → Option (List ℕ) → Endian → ℕ → Outcome Ipv4
unfolding swap_h2n make_ipv4
by_family (some ia) six e port = done (make_ipv4 ia (swap_h2n e uint16 (port % 2 ^ 16)))
by_family none (some ia) e port = throw not_implemented
by_family none none e port = throw invalid_address

-- `Address(host, port)`
unfoldable pub from_host :
    (Text → Option (List ℕ)) → (Text → Option (List ℕ)) → Endian → Text → ℕ → Outcome Ipv4
unfolding by_family
from_host pton4 pton6 e host port = by_family (pton4 host) (pton6 host) e port

-- `Address(addr, length)`: the sizes of `sockaddr_in` and `sockaddr_in6` are 16 and 28.
unfoldable pub from_sockaddr : Ipv4 → ℕ → Outcome Ipv4
unfolding copy_ipv4
from_sockaddr addr len =
    if len == 16
    then done (copy_ipv4 addr)
    else if len == 28
    then throw not_implemented
    else throw invalid_address

unfoldable pub name_or_throw : Option Text → Outcome Text
name_or_throw (some s) = done s
name_or_throw none = throw invalid_address

-- `host()`
unfoldable pub host_of : (List ℕ → Option Text) → Ipv4 → Outcome Text
unfolding name_or_throw
host_of ip4_name a = name_or_throw (ip4_name a.sin_addr)

-- `port()`
unfoldable pub port_number : Ipv4 → ℕ
port_number a = a.sin_port

-- `family()`
unfoldable pub family_of : Ipv4 → ℕ
family_of a = a.sin_family

-- `length()`
unfoldable pub length_of : Ipv4 → ℕ
length_of a = 16

-- `addr()`
unfoldable pub addr_of : Ipv4 → Ipv4
addr_of a = a

-- An address of a host whose text is an IPv4 address and of a port of 16 bits has the port's bytes
-- in network order, as the system wants them. `port()` answers these bytes as a number of the host:
-- the port itself on a host in network order, and the port with its bytes exchanged on the other. A
-- text of an IPv6 address, and one of neither, throw. Where `uv_ip4_name` undoes `uv_inet_pton`, as
-- it does for the canonical text, `host()` answers the text. The family is that of IPv4, and the
-- address made of what `addr()` and `length()` answer is the same address.
pub from_host-port_number :
    (pton4 pton6 : Text → Option (List ℕ)) (ip4_name : List ℕ → Option Text) (host : Text) (p : ℕ)
    → p < 2 ^ 16
    → ((ia : List ℕ)
        → pton4 host ≡ some ia
        → ip4_name ia ≡ some host
        → (e : Endian)
        → (a : Ipv4) × (from_host pton4 pton6 e host p ≡ done a)
          × (host_of ip4_name a ≡ done host)
          × (family_of a ≡ af_inet)
          × (from_sockaddr (addr_of a) (length_of a) ≡ done a)
          × (object_bytes e 2 a.sin_port ≡ be_bytes 2 p)
          × (port_number a ≡ elim e [ big ↦ p | little ↦ p % 256 * 256 + p / 256 ]))
      × ((ia : List ℕ) (e : Endian)
          → pton4 host ≡ none
          → pton6 host ≡ some ia
          → from_host pton4 pton6 e host p ≡ throw not_implemented)
      × ((e : Endian)
          → pton4 host ≡ none
          → pton6 host ≡ none
          → from_host pton4 pton6 e host p ≡ throw invalid_address)
unfolding from_host by_family host_of name_or_throw port_number swap_h2n net_order make_ipv4
    copy_ipv4 from_sockaddr family_of length_of addr_of
from_host-port_number pton4 pton6 ip4_name host p small = (
  λ ia known named e. (
    make_ipv4 ia (swap_h2n e uint16 (p % 2 ^ 16)),
    rw known refl,
    rw named refl,
    refl,
    refl,
    rw (unsigned p small) (wire-swap_h2n e uint16 p small),
    answers e,
  ),
  λ ia e other six. rw (other, six) refl,
  λ e other neither. rw (other, neither) refl,
)
  where
    unsigned : (n : ℕ) → n < 2 ^ 16 → n % 2 ^ 16 ≡ n
    unsigned n h = omega arith

    answers :
        (e : Endian)
        → swap_h2n e uint16 (p % 2 ^ 16) ≡ elim e [ big ↦ p | little ↦ p % 256 * 256 + p / 256 ]
    answers big = omega arith
    answers little = omega arith
