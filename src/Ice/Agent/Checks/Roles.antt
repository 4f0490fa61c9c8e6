-- ===== src/Ice/Agent/Checks/Roles.antt =====
-- The roles of two agents after a connectivity check: RFC 8445 §7.3.1.1.
use stice.Base.{
  ℕ, ◌^◌, ◌<◌, ◌≡◌, ◌≢◌, refl, ap, sym, ◌∙◌, arith, Bool, true, false, not, Option, none, some,
  List, ◌++◌, leb, ==-refl, if◌then◌else◌, Bool-cases, if_cases, inl, inr,
}
use stice.Stun.Message.{Message, decode, find}
use stice.Stun.Attributes.{
  ice_controlling, ice_controlled, write_u64_be, read_ice_controlling, read_ice_controlled,
  sized_value,
}
use stice.Stun.Attributes.Numbers.{read_u64, length-write_u64}
use stice.Ice.Agent.{
  AgentMode, unknown, controlling, controlled, CandidatePair, StunEntry, Agent, is_controlling,
  is_controlled,
}
use stice.Ice.Agent.Pairs.{same_bool, is_some, update_ordered_pairs}
use stice.Ice.Agent.Requests.{resolve_role, or_zero}
use stice.Ice.Agent.Responses.{switch_role, mode_code, is_idle}
use stice.Ice.Agent.Checks.{sent_entry, send_check, pair_of}
use stice.Ice.Agent.Checks.Build.{build_check-role}
use stice.Ice.Agent.Checks.Accepted.{IsNamed, found}

controlled_if : (m : AgentMode) → m ≢ unknown → is_controlled m ≡ not (is_controlling m)
unfolding is_controlled is_controlling
controlled_if unknown h = absurd (h refl)
controlled_if controlling h = refl
controlled_if controlled h = refl

-- What a request says of the sender's role.
abbrev Says : Message → Bool → ℕ → Type 0
Says r true v = (is_some (find r ice_controlling) ≡ true) × (or_zero (read_ice_controlling r) ≡ v)
Says r false v =
    (is_some (find r ice_controlling) ≡ false)
    × (is_some (find r ice_controlled) ≡ true)
    × (or_zero (read_ice_controlled r) ≡ v)

eight_bytes :
    (r : Message) (type v : ℕ)
    → find r type ≡ some (record { type = type; value = write_u64_be v })
    → sized_value r type 8 ≡ some (write_u64_be v)
unfolding sized_value
eight_bytes r type v h = rw (h, sized_value, length-write_u64 v) refl

heard :
    (r : Message) (b : Bool) (v : ℕ)
    → v < 2 ^ 64
    → find r ice_controlling
      ≡ (if b then some (record { type = ice_controlling; value = write_u64_be v }) else none)
    → find r ice_controlled
      ≡ (if b then none else some (record { type = ice_controlled; value = write_u64_be v }))
    → Says r b v
unfolding is_some read_ice_controlling read_ice_controlled
heard r true v lt c d = (rw c refl, rw (eight_bytes r ice_controlling v c) (read_u64 v lt))
heard r false v lt c d =
    (rw c refl, rw d refl, rw (eight_bytes r ice_controlled v d) (read_u64 v lt))

abbrev pub Settles : Agent → Agent → Agent × Bool → Agent → Type 0
Settles a b after switched =
    (is_controlling (if after.1 then switched else a).mode ≡ not (is_controlling after.0.mode))
    × (is_controlling after.0.mode ≡ (
        if same_bool (is_controlling a.mode) (is_controlling b.mode)
        then leb a.tiebreaker b.tiebreaker
        else is_controlling b.mode))

opposite :
    (m : AgentMode)
    → is_controlling (if is_controlling m then controlled else controlling) ≡ not (is_controlling m)
unfolding is_controlling
opposite unknown = refl
opposite controlling = refl
opposite controlled = refl

switched_mode :
    (a : Agent) (n : ℕ) (e : StunEntry) (now : ℕ)
    → e.mode ≡ a.mode
    → is_controlling (switch_role a n e now).mode ≡ not (is_controlling a.mode)
unfolding switch_role update_ordered_pairs
switched_mode a n e now same =
    rw (same, ==-refl (mode_code a.mode))
      (if_cases (λ (x : Agent). is_controlling x.mode ≡ not (is_controlling a.mode))
        (not (is_idle e.state)) _ _ (opposite a.mode) (opposite a.mode))

sent_entry-mode :
    (a : Agent) (fresh : List ℕ) (e : StunEntry) → (sent_entry a fresh e).mode ≡ a.mode
unfolding sent_entry
sent_entry-mode a fresh e = refl

-- The four cases of the roles.
settled :
    (a b switched : Agent) (r : Message) (s t : Bool)
    → is_controlling a.mode ≡ s
    → is_controlling b.mode ≡ t
    → is_controlled b.mode ≡ not t
    → Says r s a.tiebreaker
    → is_controlling switched.mode ≡ not s
    → Settles a b (resolve_role b r) switched
unfolding resolve_role update_ordered_pairs is_controlling
settled a b switched r true true x y z says w = elim (Bool-cases (leb a.tiebreaker b.tiebreaker)) [
  | inl e ↦ rw (says.0, y, says.1, x, e) (w ∙ ap not (sym y), y)
  | inr e ↦ rw (says.0, y, says.1, x, e) (x, refl)
]
settled a b switched r true false x y z says w = rw (says.0, y, x) (ap not (sym y), y)
settled a b switched r false true x y z says w = rw (says.0, says.1, z, x, y) (refl, refl)
settled a b switched r false false x y z says w =
    elim (Bool-cases (leb a.tiebreaker b.tiebreaker)) [
      | inl e ↦ rw (says.0, says.1, z, says.2, x, y, e) (x, refl)
      | inr e ↦ rw (says.0, says.1, z, says.2, x, y, e) (w ∙ ap not (sym y), y)
    ]

-- A connectivity check, of an agent whose names have at most 256 bytes and whose tie-breaker is a 64-bit
-- number, settles the roles when it arrives at an agent that has one, a 487 that answers it being
-- handled as well: afterwards exactly one of the two is controlling, after a conflict the receiver if its
-- tie-breaker is not the smaller, and without a conflict the one that was.
pub resolve_role-send_check :
    (offset : ℕ) (a : Agent) (fresh : List ℕ) (e : StunEntry) (b : Agent) (old r : Message)
    (post : List ℕ) (n now : ℕ)
    → IsNamed a (sent_entry a fresh e).transaction_id
    → decode old ((send_check offset a fresh e).0.raw ++ post) ≡ some (true, r)
    → a.tiebreaker < 2 ^ 64
    → b.mode ≢ unknown
    → Settles a b (resolve_role b r) (switch_role a n (send_check offset a fresh e).1 now)
unfolding send_check
resolve_role-send_check offset a fresh e b old r post n now named d lt role =
    settled a b (switch_role a n (sent_entry a fresh e) now) r (is_controlling a.mode)
      (is_controlling b.mode) refl refl (controlled_if b.mode role)
      (heard r (is_controlling a.mode) a.tiebreaker lt
        (found offset a pair tid named r old post ice_controlling d (omega arith) (omega arith)
            (omega arith)
          ∙ (build_check-role offset a tid pair).0)
        (found offset a pair tid named r old post ice_controlled d (omega arith) (omega arith)
            (omega arith)
          ∙ (build_check-role offset a tid pair).1))
      (switched_mode a n (sent_entry a fresh e) now sent_mode)
  where
    pair : Option CandidatePair
    pair = pair_of a e.pair

    tid : List ℕ
    tid = (sent_entry a fresh e).transaction_id

    sent_mode : (sent_entry a fresh e).mode ≡ a.mode
    sent_mode = sent_entry-mode a fresh e
