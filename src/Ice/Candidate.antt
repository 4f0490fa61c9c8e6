-- ===== src/Ice/Candidate.antt =====
-- include/stice/ice/candidate.hpp and src/ice/candidate.cpp: types, names and priorities. The
-- offset for TCP, an atomic global of the source, is an argument here.
pub mod Priority
use Prim.Native.Nat.{bit_or}
use stice.Crypto.Crc32.{crc32}
use stice.Base.{
  ℕ, zero, suc, ◌+◌, ◌-◌, ◌*◌, ◌/◌, ◌%◌, ◌^◌, ◌++◌, Option, Bool, true, false, ◌||◌, List, [], ◌∷◌,
  leb, ltb, ◌==◌, if◌then◌else◌, list_eq,
}
use stice.Base.Ints.{ℤ, pos, negsuc}
use stice.Net.Addr.{SockAddr, AddrRecord, inet, inet6, other, af_inet, af_inet6}

pub data CandidateType : Type 0 where
  unknown : CandidateType
  host : CandidateType
  server_reflexive : CandidateType
  peer_reflexive : CandidateType
  relayed : CandidateType

pub data CandidateTransport : Type 0 where
  udp : CandidateTransport
  tcp_active : CandidateTransport
  tcp_passive : CandidateTransport
  tcp_simultaneous_open : CandidateTransport

-- `TcpPenalty`, the offset at start.
abbrev pub tcp_penalty : ℕ
tcp_penalty = 27

unfoldable pub is_udp : CandidateTransport → Bool
is_udp udp = true
is_udp tcp_active = false
is_udp tcp_passive = false
is_udp tcp_simultaneous_open = false

unfoldable pub type_string : CandidateType → List ℕ
type_string unknown = b'u' ∷ b'n' ∷ b'k' ∷ b'n' ∷ b'o' ∷ b'w' ∷ b'n' ∷ []
type_string host = b'h' ∷ b'o' ∷ b's' ∷ b't' ∷ []
type_string server_reflexive = b's' ∷ b'r' ∷ b'f' ∷ b'l' ∷ b'x' ∷ []
type_string peer_reflexive = b'p' ∷ b'r' ∷ b'f' ∷ b'l' ∷ b'x' ∷ []
type_string relayed = b'r' ∷ b'e' ∷ b'l' ∷ b'a' ∷ b'y' ∷ []

unfoldable pub transport_string : CandidateTransport → List ℕ
transport_string udp = b'U' ∷ b'D' ∷ b'P' ∷ []
transport_string tcp_active = b'T' ∷ b'C' ∷ b'P' ∷ []
transport_string tcp_passive = b'T' ∷ b'C' ∷ b'P' ∷ []
transport_string tcp_simultaneous_open = b'T' ∷ b'C' ∷ b'P' ∷ []

unfoldable pub type_from_string : List ℕ → CandidateType
unfolding type_string
type_from_string s =
    if list_eq s (type_string host)
    then host
    else if list_eq s (type_string server_reflexive)
    then server_reflexive
    else if list_eq s (type_string peer_reflexive)
    then peer_reflexive
    else if list_eq s (type_string relayed)
    then relayed
    else unknown

-- `typePref` before the penalty.
unfoldable pub type_preference : CandidateType → ℕ
type_preference unknown = 0
type_preference host = 126
type_preference peer_reflexive = 110
type_preference server_reflexive = 100
type_preference relayed = 0

unfoldable pub penalised : ℕ → CandidateTransport → ℕ → ℕ
unfolding is_udp
penalised offset transport type_pref =
    if is_udp transport then type_pref else if leb offset type_pref then type_pref - offset else 0

-- The two tables of RFC 6544.
unfoldable pub direct_preference : CandidateTransport → ℕ
direct_preference udp = 0
direct_preference tcp_active = 6
direct_preference tcp_passive = 4
direct_preference tcp_simultaneous_open = 2

unfoldable pub reflexive_preference : CandidateTransport → ℕ
reflexive_preference udp = 0
reflexive_preference tcp_simultaneous_open = 6
reflexive_preference tcp_active = 4
reflexive_preference tcp_passive = 2

unfoldable pub direction_preference : CandidateType → CandidateTransport → ℕ
direction_preference unknown transport = 0
direction_preference host transport = direct_preference transport
direction_preference relayed transport = direct_preference transport
direction_preference server_reflexive transport = reflexive_preference transport
direction_preference peer_reflexive transport = reflexive_preference transport

unfoldable pub clamp_index : ℤ → ℕ
clamp_index (pos n) = if ltb 4095 n then 4095 else n
clamp_index (negsuc n) = 0

-- `if (localPref >= clampedIdx) localPref -= clampedIdx`.
unfoldable pub lower : ℕ → ℕ → ℕ
lower local_pref index = if leb index local_pref then local_pref - index else local_pref

unfoldable pub family_preference : ℕ → ℕ
family_preference family = if (family == af_inet6) || (family == af_inet) then 8191 else 0

unfoldable pub local_preference : CandidateType → ℕ → ℤ → CandidateTransport → ℕ
unfolding is_udp lower
local_preference type family index transport =
    if is_udp transport
    then lower 65535 (clamp_index index)
    else lower (direction_preference type transport * 2 ^ 13 + family_preference family)
        (clamp_index index)

unfoldable pub clamp_component : ℤ → ℕ
clamp_component (pos n) = if ltb n 1 then 1 else if ltb 256 n then 256 else n
clamp_component (negsuc n) = 1

-- `computePriority` on a uint32_t.
unfoldable pub compute_priority : ℕ → CandidateType → ℕ → ℤ → ℤ → CandidateTransport → ℕ
compute_priority offset type family component index transport =
    (bit_or (penalised offset transport (type_preference type) * 2 ^ 24 % 2 ^ 32)
        (local_preference type family index transport * 2 ^ 8 % 2 ^ 32)
      + (256 - clamp_component component))
    % 2 ^ 32

-- The member function: the family of the resolved address.
unfoldable pub family_of : SockAddr → ℕ
family_of (inet ip port) = af_inet
family_of (inet6 ip port flow scope) = af_inet6
family_of (other family) = af_inet

unfoldable pub candidate_priority : ℕ → CandidateType → SockAddr → ℤ → ℤ → CandidateTransport → ℕ
unfolding family_of
candidate_priority offset type resolved component index transport =
    compute_priority offset type (family_of resolved) component index transport

-- `%u`; ten digits are enough for a uint32_t.
unfoldable pub decimal : ℕ → ℕ → List ℕ
decimal zero n = []
decimal (suc places) n =
    let before = decimal places (n / 10) in
    if ltb n 10 then (48 + n) ∷ [] else before ++ ((48 + n % 10) ∷ [])

unfoldable pub compute_foundation : CandidateType → List ℕ → CandidateTransport → List ℕ
unfolding type_string transport_string decimal
compute_foundation type addr transport =
    decimal 10 (crc32 (type_string type ++ (addr ++ transport_string transport)))

pub record Candidate : Type 0 where
  pub type : CandidateType
  pub transport : CandidateTransport
  pub priority : ℕ
  pub component : ℤ
  pub foundation : List ℕ
  pub hostname : List ℕ
  pub service : List ℕ
  pub resolved : AddrRecord
  pub related : Option AddrRecord
