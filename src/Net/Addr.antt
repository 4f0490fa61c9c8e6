-- ===== src/Net/Addr.antt =====
-- include/stice/net/addr.hpp and src/net/addr.cpp: the operations on socket addresses.
-- A `sockaddr` is IPv4, IPv6 or of another family; ports are kept in host order and addresses as
-- their bytes in network order. A pointer argument is an optional address, `none` for a null.
-- The constants are those of Linux.
mod Tests
pub mod Equal
pub mod Mapped
pub mod Scope
use Prim.Native.Nat.{bit_and}
use stice.Base.{
  ℕ, ◌+◌, ◌*◌, ◌%◌, ◌^◌, Bool, true, false, not, ◌&&◌, ◌||◌, Option, none, some, List, [], ◌∷◌,
  ◌++◌, take, drop, replicate, ◌==◌, if◌then◌else◌, list_eq,
}
use stice.Bytes.{byte_at, read_u32_be}
use mathlib.Core.List.{foldl}

abbrev pub af_inet : ℕ
af_inet = 2

abbrev pub af_inet6 : ℕ
af_inet6 = 10

-- `sizeof(sockaddr_in)` and `sizeof(sockaddr_in6)`.
abbrev pub inet_size : ℕ
inet_size = 16

abbrev pub inet6_size : ℕ
inet6_size = 28

pub data SockAddr : Type 0 where
  inet : (ip : List ℕ) (port : ℕ) → SockAddr
  inet6 : (ip : List ℕ) (port flow scope : ℕ) → SockAddr
  other : (family : ℕ) → SockAddr

pub record AddrRecord : Type 0 where
  pub addr : SockAddr
  pub len : ℕ
  pub socktype : ℕ

abbrev pub v4_prefix : List ℕ
v4_prefix = replicate 10 0 ++ (0xff ∷ 0xff ∷ [])

-- `IN6_IS_ADDR_V4MAPPED` and its kin.
unfoldable pub is_v4_mapped : List ℕ → Bool
is_v4_mapped ip = list_eq (take 12 ip) v4_prefix

unfoldable pub is_inet6_loopback : List ℕ → Bool
is_inet6_loopback ip = list_eq ip (replicate 15 0 ++ (1 ∷ []))

unfoldable pub is_inet6_link_local : List ℕ → Bool
is_inet6_link_local ip = (byte_at ip 0 == 0xfe) && (bit_and (byte_at ip 1) 0xc0 == 0x80)

unfoldable pub addr_len : SockAddr → ℕ
addr_len (inet ip port) = inet_size
addr_len (inet6 ip port flow scope) = inet6_size
addr_len (other family) = 0

unfoldable pub addr_port : Option SockAddr → ℕ
addr_port none = 0
addr_port (some (inet ip port)) = port
addr_port (some (inet6 ip port flow scope)) = port
addr_port (some (other family)) = 0

unfoldable pub addr_set_port : SockAddr → ℕ → SockAddr
addr_set_port (inet ip old) port = inet ip port
addr_set_port (inet6 ip old flow scope) port = inet6 ip port flow scope
addr_set_port (other family) port = other family

unfoldable pub addr_is_any : Option SockAddr → Bool
addr_is_any none = true
addr_is_any (some (inet ip port)) = list_eq ip (replicate 4 0)
addr_is_any (some (inet6 ip port flow scope)) = list_eq ip (replicate 16 0)
addr_is_any (some (other family)) = false

-- 127.0.0.0/8 and 169.254.0.0/16 on the host-order word.
unfoldable pub is_loopback_word : ℕ → Bool
is_loopback_word a = bit_and a 0xff000000 == 0x7f000000

unfoldable pub is_link_local_word : ℕ → Bool
is_link_local_word a = bit_and a 0xffff0000 == 0xa9fe0000

unfoldable pub addr_is_local : Option SockAddr → Bool
unfolding is_loopback_word is_link_local_word
addr_is_local none = false
addr_is_local (some (inet ip port)) =
    is_loopback_word (read_u32_be ip) || is_link_local_word (read_u32_be ip)
addr_is_local (some (inet6 ip port flow scope)) =
    if is_inet6_loopback ip
    then true
    else if is_inet6_link_local ip
    then true
    else if is_v4_mapped ip
    then is_loopback_word (read_u32_be (drop 12 ip))
      || is_link_local_word (read_u32_be (drop 12 ip))
    else false
addr_is_local (some (other family)) = false

unfoldable pub addr_is_link_local : Option SockAddr → Bool
unfolding is_link_local_word
addr_is_link_local none = false
addr_is_link_local (some (inet ip port)) = is_link_local_word (read_u32_be ip)
addr_is_link_local (some (inet6 ip port flow scope)) =
    if is_inet6_link_local ip
    then true
    else if is_v4_mapped ip
    then is_link_local_word (read_u32_be (drop 12 ip))
    else false
addr_is_link_local (some (other family)) = false

-- In place: the result, the address and the length after the call.
unfoldable pub addr_unmap : SockAddr → ℕ → Bool × SockAddr × ℕ
addr_unmap (inet ip port) len = (false, inet ip port, len)
addr_unmap (inet6 ip port flow scope) len =
    if is_v4_mapped ip
    then (true, inet (take 4 (drop 12 ip)) port, inet_size)
    else (false, inet6 ip port flow scope, len)
addr_unmap (other family) len = (false, other family, len)

unfoldable pub addr_map : SockAddr → ℕ → Bool × SockAddr × ℕ
addr_map (inet ip port) len = (true, inet6 (v4_prefix ++ take 4 ip) port 0 0, inet6_size)
addr_map (inet6 ip port flow scope) len = (false, inet6 ip port flow scope, len)
addr_map (other family) len = (false, other family, len)

-- The lambda `normalize` of `addrEqual`: the family, the address and the port.
unfoldable pub normalize : SockAddr → Option (ℕ × List ℕ × ℕ)
normalize (inet ip port) = some (af_inet, take 4 ip, port)
normalize (inet6 ip port flow scope) =
    if is_v4_mapped ip
    then some (af_inet, take 4 (drop 12 ip), port)
    else some (af_inet6, take 16 ip, port)
normalize (other family) = none

unfoldable pub same_endpoint : ℕ × List ℕ × ℕ → ℕ × List ℕ × ℕ → Bool → Bool
same_endpoint (fa, na, pa) (fb, nb, pb) compare_ports =
    if not (fa == fb)
    then false
    else if not (list_eq na nb)
    then false
    else if compare_ports && not (pa == pb)
    then false
    else true

-- An address of an unsupported family has no view, and is not equal to anything.
unfoldable pub same_views : Option (ℕ × List ℕ × ℕ) → Option (ℕ × List ℕ × ℕ) → Bool → Bool
same_views none y compare_ports = false
same_views (some x) none compare_ports = false
same_views (some x) (some y) compare_ports = same_endpoint x y compare_ports

unfoldable pub addr_equal : Option SockAddr → Option SockAddr → Bool → Bool
addr_equal none none compare_ports = true
addr_equal none (some b) compare_ports = false
addr_equal (some a) none compare_ports = false
addr_equal (some a) (some b) compare_ports = same_views (normalize a) (normalize b) compare_ports

unfoldable pub is_equal : AddrRecord → AddrRecord → Bool → Bool
unfolding addr_equal
is_equal r o compare_ports =
    if not (r.socktype == o.socktype)
    then false
    else addr_equal (some r.addr) (some o.addr) compare_ports

-- `((h << 5) + h) + x` on a uint64_t.
unfoldable pub hash_step : ℕ → ℕ → ℕ
hash_step h x = (h * 2 ^ 5 + h + x) % 2 ^ 64

-- The bytes, their family and the port that `hash` mixes.
unfoldable pub hash_input : SockAddr → ℕ × List ℕ × ℕ
hash_input (inet ip port) = (af_inet, take 4 ip, port)
hash_input (inet6 ip port flow scope) =
    if is_v4_mapped ip then (af_inet, take 4 (drop 12 ip), port) else (af_inet6, take 16 ip, port)
hash_input (other family) = (family, [], 0)

unfoldable pub hash_mix : ℕ × List ℕ × ℕ → ℕ → Bool → ℕ
unfolding hash_step
hash_mix (family, bytes, port) socktype with_port =
    let h = foldl hash_step (hash_step (hash_step 5381 family) socktype) bytes in
    if with_port then hash_step h port else h

unfoldable pub hash : AddrRecord → Bool → ℕ
unfolding hash_mix hash_input
hash r with_port = hash_mix (hash_input r.addr) r.socktype with_port

-- `parseAddr` with `inet_pton` as a parameter: family and text to the bytes of the address.
unfoldable pub parse_addr : (ℕ → List ℕ → Option (List ℕ)) → List ℕ → ℕ → Option (SockAddr × ℕ)
parse_addr inet_pton host port = elim (inet_pton af_inet host) [
  | some ip ↦ some (inet ip port, inet_size)
  | none ↦ elim (inet_pton af_inet6 host) [
    | some ip ↦ some (inet6 ip port 0 0, inet6_size)
    | none ↦ none
  ]
]
