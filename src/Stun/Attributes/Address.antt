-- ===== src/Stun/Attributes/Address.antt =====
-- XOR-MAPPED-ADDRESS and its kin, and the plain MAPPED-ADDRESS.
use Prim.Native.Nat.{bit_xor}
use stice.Base.{
  ℕ, zero, suc, ◌^◌, ◌<◌, ◌≡◌, refl, ap, ◌∙◌, arith, true, false, none, some, List, [], ◌∷◌, ◌++◌,
  length, is_empty, take, drop, take-all,
}
use stice.Base.Bits.{xor-xor, xor-lt}
use stice.Bytes.{byte_at, read_u16_be, write_u16_be}
use stice.Bytes.Laws.{read-write_u16}
use stice.Net.Addr.{SockAddr, inet, inet6, other, AddrRecord, addr_len}
use stice.Net.Addr.Mapped.{IsAddr}
use stice.Stun.Message.{Message, find}
use stice.Stun.Attributes.{
  sock_dgram, family_ipv4, family_ipv6, mapped_address, xor_mask, xor_bytes, port_mask,
  encode_xor_addr, decode_xor_addr, encode_xor_sockaddr, write_mapped_sockaddr, write_xor_address,
  read_xor_address, write_mapped_address, decode_mapped_address, read_mapped_address,
}
use stice.Stun.Attributes.Lookup.{find-add_attribute}

abbrev pub IsPort : SockAddr → Type 0
IsPort (inet ip port) = port < 2 ^ 16
IsPort (inet6 ip port flow scope) = port < 2 ^ 16
IsPort (other family) = ⊥

-- What the wire carries of an address: no flow label and no scope, and always a datagram socket.
abbrev pub on_wire : SockAddr → SockAddr
on_wire (inet ip port) = inet ip port
on_wire (inet6 ip port flow scope) = inet6 ip port 0 0
on_wire (other family) = other family

abbrev pub received : SockAddr → AddrRecord
received a = record { addr = on_wire a; len = addr_len a; socktype = sock_dgram }

-- The mask undoes itself.
xor_bytes-xor_bytes :
    (n : ℕ) (ip mask : List ℕ) → length ip ≡ n → xor_bytes n (xor_bytes n ip mask) mask ≡ ip
unfolding xor_bytes
xor_bytes-xor_bytes zero [] mask h = refl
xor_bytes-xor_bytes zero (x ∷ ip) mask h = absurd (omega arith)
xor_bytes-xor_bytes (suc n) [] mask h = absurd (omega arith)
xor_bytes-xor_bytes (suc n) (x ∷ ip) mask h =
    rw (xor-xor x (byte_at mask 0), xor_bytes-xor_bytes n ip (drop 1 mask) (omega arith)) refl

length-xor_bytes : (n : ℕ) (ip mask : List ℕ) → length (xor_bytes n ip mask) ≡ n
unfolding xor_bytes
length-xor_bytes zero ip mask = refl
length-xor_bytes (suc n) ip mask = ap suc (length-xor_bytes n (drop 1 ip) (drop 1 mask))

port-port :
    (tid : List ℕ) (port : ℕ) (rest : List ℕ)
    → port < 2 ^ 16
    → bit_xor
        (read_u16_be (write_u16_be (bit_xor port (port_mask (xor_mask tid))) ++ rest))
        (port_mask (xor_mask tid))
      ≡ port
unfolding port_mask xor_mask
port-port tid port rest h =
    ap (λ (t : ℕ). bit_xor t 0x2112)
      (read-write_u16 (bit_xor port 0x2112) rest (xor-lt 16 port 0x2112 h (omega arith)))
    ∙ xor-xor port 0x2112

-- An encoded address decodes under the same transaction id, to itself without flow label and scope.
decode_xor_addr-encode :
    (a : SockAddr) (tid : List ℕ)
    → IsAddr a
    → IsPort a
    → decode_xor_addr (encode_xor_sockaddr a (xor_mask tid)) tid ≡ some (received a)
unfolding decode_xor_addr encode_xor_sockaddr addr_len write_u16_be
decode_xor_addr-encode (inet ip port) tid size p =
    rw
      (
        length-xor_bytes 4 ip (xor_mask tid),
        port-port tid port (xor_bytes 4 ip (xor_mask tid)) p,
        xor_bytes-xor_bytes 4 ip (xor_mask tid) size,
      )
      refl
decode_xor_addr-encode (inet6 ip port flow scope) tid size p =
    rw
      (
        length-xor_bytes 16 ip (xor_mask tid),
        port-port tid port (xor_bytes 16 ip (xor_mask tid)) p,
        xor_bytes-xor_bytes 16 ip (xor_mask tid) size,
      )
      refl
decode_xor_addr-encode (other family) tid size p = absurd p

encoded-nonempty :
    (a : SockAddr) (mask : List ℕ) → IsPort a → is_empty (encode_xor_sockaddr a mask) ≡ false
unfolding encode_xor_sockaddr
encoded-nonempty (inet ip port) mask p = refl
encoded-nonempty (inet6 ip port flow scope) mask p = refl
encoded-nonempty (other family) mask p = absurd p

-- An XOR address attribute, of any of the types, reads back under the same transaction id: the
-- address and the port are the ones written, the flow label and the scope of an IPv6 address are
-- gone, and the record is a datagram one.
pub read_xor_address-write_xor_address :
    (m : Message) (type : ℕ) (r : AddrRecord) (tid : List ℕ)
    → find m type ≡ none
    → IsAddr r.addr
    → IsPort r.addr
    → let written = write_xor_address m type r tid in
      (written.0 ≡ true) × (read_xor_address written.1 type tid ≡ some (received r.addr))
unfolding write_xor_address read_xor_address encode_xor_addr
read_xor_address-write_xor_address m type r tid h size p =
    rw (encoded-nonempty r.addr (xor_mask tid) p) (
      refl,
      rw (find-add_attribute m type (encode_xor_sockaddr r.addr (xor_mask tid)) h, read_xor_address)
          (decode_xor_addr-encode r.addr tid size p),
    )

decode_mapped_four :
    (ip : List ℕ) (port : ℕ)
    → length ip ≡ 4
    → port < 2 ^ 16
    → decode_mapped_address (0 ∷ family_ipv4 ∷ (write_u16_be port ++ take 4 ip))
      ≡ some (received (inet ip port))
unfolding decode_mapped_address addr_len write_u16_be
decode_mapped_four ip port size p =
    rw (take-all 4 ip (omega arith), take-all 4 ip (omega arith), size, read-write_u16 port ip p)
      refl

decode_mapped_six :
    (ip : List ℕ) (port flow scope : ℕ)
    → length ip ≡ 16
    → port < 2 ^ 16
    → decode_mapped_address (0 ∷ family_ipv6 ∷ (write_u16_be port ++ take 16 ip))
      ≡ some (received (inet6 ip port flow scope))
unfolding decode_mapped_address addr_len write_u16_be
decode_mapped_six ip port flow scope size p =
    rw (take-all 16 ip (omega arith), take-all 16 ip (omega arith), size, read-write_u16 port ip p)
      refl

read_mapped :
    (m : Message) (a : SockAddr)
    → find m mapped_address ≡ none
    → IsAddr a
    → IsPort a
    → ((write_mapped_sockaddr m a).0 ≡ true)
      × (read_mapped_address (write_mapped_sockaddr m a).1 ≡ some (received a))
unfolding write_mapped_sockaddr read_mapped_address
read_mapped m (inet ip port) h size p = (
  refl,
  rw (find-add_attribute m mapped_address _ h, read_mapped_address)
      (decode_mapped_four ip port size p),
)
read_mapped m (inet6 ip port flow scope) h size p = (
  refl,
  rw (find-add_attribute m mapped_address _ h, read_mapped_address)
      (decode_mapped_six ip port flow scope size p),
)
read_mapped m (other family) h size p = absurd p

-- The plain MAPPED-ADDRESS reads back in the same way.
pub read_mapped_address-write_mapped_address :
    (m : Message) (r : AddrRecord)
    → find m mapped_address ≡ none
    → IsAddr r.addr
    → IsPort r.addr
    → let written = write_mapped_address m r in
      (written.0 ≡ true) × (read_mapped_address written.1 ≡ some (received r.addr))
unfolding write_mapped_address
read_mapped_address-write_mapped_address m r h size p = read_mapped m r.addr h size p
