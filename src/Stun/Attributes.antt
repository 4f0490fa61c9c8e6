-- ===== src/Stun/Attributes.antt =====
-- include/stice/stun/attributes.hpp and src/stun/attributes.cpp: typed access to the attributes.
-- A reader's result and its out parameter are one `Option`: `none` is false, with the parameter
-- left as it was.
pub mod Lookup
pub mod Numbers
pub mod Address
pub mod Delivered
mod Tests
use Prim.Native.Nat.{bit_and, bit_or, bit_xor}
use stice.Base.{
  ℕ, zero, suc, ◌+◌, ◌-◌, ◌*◌, ◌/◌, ◌%◌, ◌^◌, Bool, true, false, not, Option, none, some, List, [],
  ◌∷◌, ◌++◌, length, is_empty, take, drop, ltb, ◌==◌, if◌then◌else◌,
}
use stice.Bytes.{byte_at, read_u16_be, read_u32_be, write_u16_be, write_u32_be}
use stice.Net.Addr.{SockAddr, inet, inet6, other, AddrRecord, inet_size, inet6_size}
use stice.Stun.ErrorReason.{error_reason}
use stice.Stun.Message.{Attribute, Message, add_attribute, find}
use mathlib.Core.List.{foldl}
use mathlib.Core.Option.{map as map_option}

abbrev pub mapped_address : ℕ
mapped_address = 0x0001

abbrev pub error_code : ℕ
error_code = 0x0009

abbrev pub channel_number : ℕ
channel_number = 0x000c

abbrev pub lifetime : ℕ
lifetime = 0x000d

abbrev pub data_type : ℕ
data_type = 0x0013

abbrev pub requested_address_family : ℕ
requested_address_family = 0x0017

abbrev pub requested_transport : ℕ
requested_transport = 0x0019

abbrev pub reservation_token : ℕ
reservation_token = 0x0022

abbrev pub priority : ℕ
priority = 0x0024

abbrev pub use_candidate : ℕ
use_candidate = 0x0025

abbrev pub tcp_type : ℕ
tcp_type = 0x0026

abbrev pub connection_id : ℕ
connection_id = 0x002a

abbrev pub ice_controlled : ℕ
ice_controlled = 0x8029

abbrev pub ice_controlling : ℕ
ice_controlling = 0x802a

abbrev pub nomination : ℕ
nomination = 0xc001

abbrev pub sock_dgram : ℕ
sock_dgram = 2

-- `FamilyIPv4` and `FamilyIPv6`.
abbrev pub family_ipv4 : ℕ
family_ipv4 = 1

abbrev pub family_ipv6 : ℕ
family_ipv6 = 2

unfoldable pub xor_mask : List ℕ → List ℕ
xor_mask tid = 0x21 ∷ 0x12 ∷ 0xa4 ∷ 0x42 ∷ take 12 tid

-- `for (i = 0; i < n; ++i) out[i] = ip[i] ^ mask[i]`.
unfoldable pub xor_bytes : ℕ → List ℕ → List ℕ → List ℕ
xor_bytes zero ip mask = []
xor_bytes (suc n) ip mask =
    bit_xor (byte_at ip 0) (byte_at mask 0) ∷ xor_bytes n (drop 1 ip) (drop 1 mask)

-- `static_cast<uint16_t>(mask[0] << 8) | mask[1]`.
unfoldable pub port_mask : List ℕ → ℕ
port_mask mask = bit_or (byte_at mask 0 * 2 ^ 8 % 2 ^ 16) (byte_at mask 1)

-- By the family of the address.
unfoldable pub encode_xor_sockaddr : SockAddr → List ℕ → List ℕ
encode_xor_sockaddr (inet ip port) mask =
    0 ∷ family_ipv4 ∷ (write_u16_be (bit_xor port (port_mask mask)) ++ xor_bytes 4 ip mask)
encode_xor_sockaddr (inet6 ip port flow scope) mask =
    0 ∷ family_ipv6 ∷ (write_u16_be (bit_xor port (port_mask mask)) ++ xor_bytes 16 ip mask)
encode_xor_sockaddr (other family) mask = []

unfoldable pub encode_xor_addr : AddrRecord → List ℕ → List ℕ
unfolding encode_xor_sockaddr
encode_xor_addr rec tid = encode_xor_sockaddr rec.addr (xor_mask tid)

unfoldable pub decode_xor_addr : List ℕ → List ℕ → Option AddrRecord
unfolding port_mask
decode_xor_addr value tid =
    let family = byte_at value 1 in
    let mask = xor_mask tid in
    let port = bit_xor (read_u16_be (drop 2 value)) (port_mask mask) in
    if ltb (length value) 4
    then none
    else if family == family_ipv4
    then (if ltb (length value) 8
        then none
        else some (record {
          addr = inet (xor_bytes 4 (drop 4 value) mask) port;
          len = inet_size;
          socktype = sock_dgram;
        }))
    else if family == family_ipv6
    then (if ltb (length value) 20
        then none
        else some (record {
          addr = inet6 (xor_bytes 16 (drop 4 value) mask) port 0 0;
          len = inet6_size;
          socktype = sock_dgram;
        }))
    else none

unfoldable pub write_xor_address : Message → ℕ → AddrRecord → List ℕ → Bool × Message
write_xor_address msg type addr tid =
    let v = encode_xor_addr addr tid in
    if is_empty v then (false, msg) else (true, add_attribute msg type v)

unfoldable pub read_xor_address : Message → ℕ → List ℕ → Option AddrRecord
read_xor_address msg type tid = elim (find msg type) [
  | none ↦ none
  | some a ↦ decode_xor_addr (a.value) tid
]

unfoldable pub write_mapped_sockaddr : Message → SockAddr → Bool × Message
write_mapped_sockaddr msg (inet ip port) =
    (true, add_attribute msg mapped_address (0 ∷ family_ipv4 ∷ (write_u16_be port ++ take 4 ip)))
write_mapped_sockaddr msg (inet6 ip port flow scope) =
    (true, add_attribute msg mapped_address (0 ∷ family_ipv6 ∷ (write_u16_be port ++ take 16 ip)))
write_mapped_sockaddr msg (other family) = (false, msg)

unfoldable pub write_mapped_address : Message → AddrRecord → Bool × Message
unfolding write_mapped_sockaddr
write_mapped_address msg addr = write_mapped_sockaddr msg addr.addr

unfoldable pub decode_mapped_address : List ℕ → Option AddrRecord
decode_mapped_address value =
    let family = byte_at value 1 in
    let port = read_u16_be (drop 2 value) in
    if ltb (length value) 4
    then none
    else if family == family_ipv4
    then (if ltb (length value) 8
        then none
        else some (record {
          addr = inet (take 4 (drop 4 value)) port;
          len = inet_size;
          socktype = sock_dgram;
        }))
    else if family == family_ipv6
    then (if ltb (length value) 20
        then none
        else some (record {
          addr = inet6 (take 16 (drop 4 value)) port 0 0;
          len = inet6_size;
          socktype = sock_dgram;
        }))
    else none

unfoldable pub read_mapped_address : Message → Option AddrRecord
read_mapped_address msg = elim (find msg mapped_address) [
  | none ↦ none
  | some a ↦ decode_mapped_address (a.value)
]

-- `!a || a->value.size() != n`: the value of the first attribute of the type, if it has n bytes.
unfoldable pub sized_value : Message → ℕ → ℕ → Option (List ℕ)
sized_value msg type n = elim (find msg type) [
  | none ↦ none
  | some a ↦ if not (length (a.value) == n) then none else some (a.value)
]

-- `!a || a->value.size() < n`.
unfoldable pub long_value : Message → ℕ → ℕ → Option (List ℕ)
long_value msg type n = elim (find msg type) [
  | none ↦ none
  | some a ↦ if ltb (length (a.value)) n then none else some (a.value)
]

unfoldable pub add_priority : Message → ℕ → Message
add_priority msg value = add_attribute msg priority (write_u32_be value)

unfoldable pub read_priority : Message → Option ℕ
read_priority msg = map_option read_u32_be (sized_value msg priority 4)

-- `buf[i] = tiebreaker >> (56 - 8 * i)` for the eight bytes.
unfoldable pub write_u64_be : ℕ → List ℕ
write_u64_be v = write_u32_be (v / 2 ^ 32) ++ write_u32_be v

unfoldable pub add_ice_controlling : Message → ℕ → Message
unfolding write_u64_be
add_ice_controlling msg tiebreaker = add_attribute msg ice_controlling (write_u64_be tiebreaker)

unfoldable pub add_ice_controlled : Message → ℕ → Message
unfolding write_u64_be
add_ice_controlled msg tiebreaker = add_attribute msg ice_controlled (write_u64_be tiebreaker)

-- `out = (out << 8) | b` on a uint64_t.
unfoldable pub push_byte : ℕ → ℕ → ℕ
push_byte out b = bit_or (out * 2 ^ 8 % 2 ^ 64) b

unfoldable pub read_ice_controlling : Message → Option ℕ
read_ice_controlling msg = map_option (foldl push_byte 0) (sized_value msg ice_controlling 8)

unfoldable pub read_ice_controlled : Message → Option ℕ
read_ice_controlled msg = map_option (foldl push_byte 0) (sized_value msg ice_controlled 8)

-- The code is not negative: every caller passes a constant or one that was read.
unfoldable pub add_error_code : Message → ℕ → List ℕ → Message
add_error_code msg code reason =
    let phrase = if is_empty reason then error_reason code else reason in
    add_attribute msg error_code (0 ∷ 0 ∷ bit_and (code / 100) 0x07 ∷ code % 100 ∷ phrase)

unfoldable pub read_error_code : Message → Option (ℕ × List ℕ)
read_error_code msg =
    map_option (λ v. (bit_and (byte_at v 2) 0x07 * 100 + byte_at v 3, drop 4 v))
      (long_value msg error_code 4)

unfoldable pub add_channel_number : Message → ℕ → Message
add_channel_number msg channel =
    add_attribute msg channel_number (channel / 2 ^ 8 % 256 ∷ bit_and channel 0xff ∷ 0 ∷ 0 ∷ [])

unfoldable pub read_channel_number : Message → Option ℕ
read_channel_number msg = map_option read_u16_be (sized_value msg channel_number 4)

unfoldable pub add_lifetime : Message → ℕ → Message
add_lifetime msg seconds = add_attribute msg lifetime (write_u32_be seconds)

unfoldable pub read_lifetime : Message → Option ℕ
read_lifetime msg = map_option read_u32_be (sized_value msg lifetime 4)

unfoldable pub add_requested_transport : Message → ℕ → Message
add_requested_transport msg protocol =
    add_attribute msg requested_transport (protocol ∷ 0 ∷ 0 ∷ 0 ∷ [])

unfoldable pub add_requested_address_family : Message → ℕ → Message
add_requested_address_family msg family = add_attribute msg requested_address_family (family ∷ [])

unfoldable pub add_reservation_token : Message → List ℕ → Message
add_reservation_token msg token = add_attribute msg reservation_token (take 8 token)

unfoldable pub add_tcp_type : Message → ℕ → Message
add_tcp_type msg type = add_attribute msg tcp_type (write_u32_be type)

unfoldable pub read_tcp_type : Message → Option ℕ
read_tcp_type msg = map_option read_u32_be (sized_value msg tcp_type 4)

unfoldable pub add_nomination : Message → ℕ → Message
add_nomination msg value = add_attribute msg nomination (write_u32_be value)

unfoldable pub read_nomination : Message → Option ℕ
read_nomination msg = map_option read_u32_be (long_value msg nomination 4)

unfoldable pub add_connection_id : Message → ℕ → Message
add_connection_id msg id = add_attribute msg connection_id (write_u32_be id)

unfoldable pub read_connection_id : Message → Option ℕ
read_connection_id msg = map_option read_u32_be (long_value msg connection_id 4)

unfoldable pub add_use_candidate : Message → Message
add_use_candidate msg = add_attribute msg use_candidate []

unfoldable pub has_use_candidate : Message → Bool
has_use_candidate msg = elim (find msg use_candidate) [ none ↦ false | some a ↦ true ]

unfoldable pub add_data : Message → List ℕ → Message
add_data msg data_bytes = add_attribute msg data_type data_bytes

-- `addString` and `getString`; a missing attribute reads as the empty string.
unfoldable pub add_string : Message → ℕ → List ℕ → Message
add_string msg type s = add_attribute msg type s

unfoldable pub get_string : Message → ℕ → List ℕ
get_string msg type = elim (find msg type) [ none ↦ [] | some a ↦ a.value ]
