-- ===== src/Ice/Candidate/Priority.antt =====
-- `Candidate::computePriority`: its fields, its range and its order.
use Prim.Native.Nat.{bit_or}
use stice.Base.{ℕ, ◌+◌, ◌-◌, ◌*◌, ◌%◌, ◌^◌, ◌≤◌, ◌<◌, ◌≡◌, refl, ap, arith, false}
use stice.Base.Bits.{or_disjoint}
use stice.Base.Ints.{ℤ, pos, negsuc}
use stice.Ice.Candidate.{
  CandidateType, unknown, host, server_reflexive, peer_reflexive, relayed, CandidateTransport, udp,
  tcp_active, tcp_passive, tcp_simultaneous_open, is_udp, type_preference, penalised,
  direct_preference, reflexive_preference, direction_preference, clamp_index, lower,
  family_preference, local_preference, clamp_component, compute_priority,
}

type_preference-le : (type : CandidateType) → type_preference type ≤ 126
unfolding type_preference
type_preference-le unknown = omega arith
type_preference-le host = omega arith
type_preference-le server_reflexive = omega arith
type_preference-le peer_reflexive = omega arith
type_preference-le relayed = omega arith

penalised-le :
    (offset : ℕ) (transport : CandidateTransport) (pref : ℕ)
    → penalised offset transport pref ≤ pref
unfolding penalised
penalised-le offset transport pref = ground arith

clamp_index-le : (index : ℤ) → clamp_index index ≤ 4095
unfolding clamp_index
clamp_index-le (pos n) = ground arith
clamp_index-le (negsuc n) = omega arith

clamp_component-range :
    (component : ℤ) → (1 ≤ clamp_component component) × (clamp_component component ≤ 256)
unfolding clamp_component
clamp_component-range (pos n) = ground arith
clamp_component-range (negsuc n) = omega arith

direction_preference-le :
    (type : CandidateType) (transport : CandidateTransport)
    → direction_preference type transport ≤ 6
unfolding direction_preference direct_preference reflexive_preference
direction_preference-le type transport = ground arith

lower-le : (pref index : ℕ) → lower pref index ≤ pref
unfolding lower
lower-le pref index = ground arith

family_preference-le : (family : ℕ) → family_preference family ≤ 8191
unfolding family_preference
family_preference-le family = ground arith

udp_local :
    (type : CandidateType) (family : ℕ) (index : ℤ)
    → local_preference type family index udp ≡ 65535 - clamp_index index
unfolding local_preference lower is_udp
udp_local type family index = ground (arith, clamp_index-le index)

tcp_local-lt :
    (type : CandidateType) (family : ℕ) (index : ℤ) (transport : CandidateTransport)
    → is_udp transport ≡ false
    → local_preference type family index transport < 57344
unfolding local_preference
tcp_local-lt type family index transport e = rw e (
    omega (
      arith,
      direction_preference-le type transport,
      family_preference-le family,
      lower-le (direction_preference type transport * 2 ^ 13 + family_preference family)
          (clamp_index index),
    ))

local_preference-lt :
    (type : CandidateType) (family : ℕ) (index : ℤ) (transport : CandidateTransport)
    → local_preference type family index transport < 2 ^ 16
unfolding is_udp
local_preference-lt type family index udp = omega (arith, udp_local type family index)
local_preference-lt type family index tcp_active =
    omega (arith, tcp_local-lt type family index tcp_active refl)
local_preference-lt type family index tcp_passive =
    omega (arith, tcp_local-lt type family index tcp_passive refl)
local_preference-lt type family index tcp_simultaneous_open =
    omega (arith, tcp_local-lt type family index tcp_simultaneous_open refl)

module _ (offset : ℕ) (type : CandidateType) (family : ℕ) (component index : ℤ)
    (transport : CandidateTransport) where
  abbrev type_part : ℕ
  type_part = penalised offset transport (type_preference type)

  abbrev local_part : ℕ
  local_part = local_preference type family index transport

  -- The priority is the sum of three fields that do not overlap, as RFC 8445 defines it: no shift
  -- and no addition of the source wraps around.
  pub compute_priority-fields :
      compute_priority offset type family component index transport
      ≡ type_part * 2 ^ 24 + local_part * 2 ^ 8 + (256 - clamp_component component)
  unfolding compute_priority
  compute_priority-fields = omega (
    arith,
    penalised-le offset transport (type_preference type),
    type_preference-le type,
    local_preference-lt type family index transport,
    clamp_component-range component,
    ap (λ (t : ℕ). bit_or t (local_part * 2 ^ 8 % 2 ^ 32)) high,
    or_disjoint 24 type_part (local_part * 2 ^ 8 % 2 ^ 32)
        (omega (arith, local_preference-lt type family index transport)),
  )
    where
      high : type_part * 2 ^ 24 % 2 ^ 32 ≡ type_part * 2 ^ 24
      high =
          omega
            (arith, penalised-le offset transport (type_preference type), type_preference-le type)

  -- No candidate has a priority of 2 ^ 31 or more: the largest is that of the first UDP host.
  pub compute_priority-bound :
      compute_priority offset type family component index transport ≤ 0x7effffff
  compute_priority-bound = omega (
    arith,
    compute_priority-fields,
    penalised-le offset transport (type_preference type),
    type_preference-le type,
    local_preference-lt type family index transport,
    clamp_component-range component,
  )

udp_type_part : (offset pref : ℕ) → penalised offset udp pref ≡ pref
unfolding penalised is_udp
udp_type_part offset pref = refl

-- Among UDP candidates the type decides: one of a preferred type has the higher priority, whatever
-- the components, families and indices.
pub compute_priority-type :
    (offset : ℕ) (better worse : CandidateType) (f g : ℕ) (c d i j : ℤ)
    → type_preference worse < type_preference better
    → compute_priority offset worse f c i udp < compute_priority offset better g d j udp
compute_priority-type offset better worse f g c d i j h = omega (
  arith,
  compute_priority-fields offset worse f c i udp,
  compute_priority-fields offset better g d j udp,
  udp_type_part offset (type_preference worse),
  udp_type_part offset (type_preference better),
  local_preference-lt worse f i udp,
  clamp_component-range c,
  h,
)

-- Between candidates of one type UDP beats TCP, for every offset, zero included, and whatever the
-- components, families, directions and indices.
pub compute_priority-transport :
    (offset : ℕ) (type : CandidateType) (f g : ℕ) (c d i j : ℤ) (transport : CandidateTransport)
    → is_udp transport ≡ false
    → compute_priority offset type f c i transport < compute_priority offset type g d j udp
compute_priority-transport offset type f g c d i j transport e = omega (
  arith,
  compute_priority-fields offset type f c i transport,
  compute_priority-fields offset type g d j udp,
  udp_type_part offset (type_preference type),
  penalised-le offset transport (type_preference type),
  tcp_local-lt type f i transport e,
  udp_local type g j,
  clamp_index-le j,
  clamp_component-range c,
)

-- On one host the order of the addresses decides: of two UDP candidates of one type, the one with
-- the smaller index, up to 4095, has the higher priority.
pub compute_priority-index :
    (offset : ℕ) (type : CandidateType) (f g : ℕ) (c d : ℤ) (i j : ℕ)
    → i < j
    → j ≤ 4095
    → compute_priority offset type f c (pos j) udp < compute_priority offset type g d (pos i) udp
unfolding clamp_index
compute_priority-index offset type f g c d i j lt le = omega (
  arith,
  compute_priority-fields offset type f c (pos j) udp,
  compute_priority-fields offset type g d (pos i) udp,
  udp_type_part offset (type_preference type),
  udp_local type f (pos j),
  udp_local type g (pos i),
  small j le,
  small i (omega arith),
  clamp_component-range c,
  clamp_component-range d,
)
  where
    small : (n : ℕ) → n ≤ 4095 → clamp_index (pos n) ≡ n
    small n h = ground arith
