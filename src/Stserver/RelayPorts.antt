-- ===== src/Stserver/RelayPorts.antt =====
-- `TurnServer::allocRelayPort` and `releaseRelayPort`. `usedRelayPorts_` is an association list of
-- ports and owners, an owner the number of an allocation, `none` before it is committed.
-- The random words that `randomU32` returns are an argument: one for each try.
pub mod Laws
use stice.Base.{
  ℕ, zero, suc, ◌+◌, ◌-◌, ◌%◌, ◌^◌, Bool, true, false, not, ◌&&◌, Option, none, some, List, [], ◌∷◌,
  ltb, leb, ◌==◌, if◌then◌else◌,
}

pub record RelayPorts : Type 0 where
  pub begin : ℕ
  pub end : ℕ
  pub used : List (ℕ × Option ℕ)

unfoldable pub owner_of : List (ℕ × Option ℕ) → ℕ → Option (Option ℕ)
owner_of [] port = none
owner_of ((p, owner) ∷ rest) port = if p == port then some owner else owner_of rest port

unfoldable pub erase : List (ℕ × Option ℕ) → ℕ → List (ℕ × Option ℕ)
erase [] port = []
erase ((p, owner) ∷ rest) port =
    let more = erase rest port in if p == port then more else ((p, owner) ∷ more)

unfoldable pub contains : List ℕ → ℕ → Bool
contains [] port = false
contains (p ∷ rest) port = if p == port then true else contains rest port

unfoldable pub is_free : RelayPorts → List ℕ → ℕ → Bool
is_free s avoid port = elim (owner_of s.used port) [
  | some owner ↦ false
  | none ↦ not (contains avoid port)
]

-- `usedRelayPorts_[port] = nullptr`, of a port that is not there.
unfoldable pub take_port : RelayPorts → ℕ → RelayPorts
take_port s port = record s { used = (port, none) ∷ s.used }

unfoldable pub ordered : RelayPorts → RelayPorts
ordered s = if ltb s.end s.begin then record s { begin = s.end; end = s.begin } else s

-- The random tries, on a uint16_t.
unfoldable pub random_tries : RelayPorts → List ℕ → List ℕ → Option ℕ
random_tries s avoid [] = none
random_tries s avoid (r ∷ words) =
    let port = (s.begin + r % (s.end - s.begin + 1)) % 2 ^ 16 in
    let more = random_tries s avoid words in if is_free s avoid port then some port else more

-- The scan from p, over n ports.
unfoldable pub scan : RelayPorts → List ℕ → ℕ → ℕ → Option ℕ
scan s avoid zero p = none
scan s avoid (suc n) p =
    let more = scan s avoid n (p + 1) in if is_free s avoid p then some p else more

unfoldable pub grant : RelayPorts → Option ℕ → ℕ × RelayPorts
unfolding take_port
grant s none = (0, s)
grant s (some port) = (port, take_port s port)

unfoldable pub first_of : Option ℕ → Option ℕ → Option ℕ
first_of (some p) other = some p
first_of none other = other

-- The port, 0 if there is none, and the state after the call.
unfoldable pub alloc_relay_port : RelayPorts → List ℕ → List ℕ → ℕ × RelayPorts
unfolding grant first_of ordered
alloc_relay_port state avoid words =
    let s = ordered state in
    grant s (first_of (random_tries s avoid words) (scan s avoid (s.end + 1 - s.begin) s.begin))

unfoldable pub may_release : Option ℕ → Option ℕ → Bool
may_release none owner = true
may_release (some o) none = false
may_release (some o) (some q) = o == q

-- With what `find` returned.
unfoldable pub release_found : RelayPorts → ℕ → Option ℕ → Option (Option ℕ) → RelayPorts
release_found s port owner none = s
release_found s port owner (some held) =
    if not (may_release held owner) then s else record s { used = erase s.used port }

unfoldable pub release_relay_port : RelayPorts → ℕ → Option ℕ → RelayPorts
unfolding release_found
release_relay_port s port owner = release_found s port owner (owner_of s.used port)
