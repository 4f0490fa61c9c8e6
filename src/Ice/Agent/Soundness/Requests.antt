-- ===== src/Ice/Agent/Soundness/Requests.antt =====
-- The handler of requests keeps an agent sound; that of responses is in Responses.
use stice.Base.{
  ℕ, ◌≤◌, ◌≡◌, refl, arith, Bool, true, false, not, ◌&&◌, Option, none, some, List, length,
  length-append, length-modify, modify, ltb, ltb→lt, leb, if◌then◌else◌, Bool-cases, if_cases, inl,
  inr, is_empty,
}
use stice.Net.Addr.{SockAddr, AddrRecord, addr_is_link_local}
use stice.Stun.Message.{Message, find}
use stice.Stun.Attributes.{
  has_use_candidate, read_nomination, read_priority, ice_controlling, ice_controlled,
  read_ice_controlling, read_ice_controlled,
}
use stice.Ice.Candidate.{CandidateTransport, Candidate}
use stice.Ice.Agent.{
  AgentMode, controlling, controlled, PairState, CandidatePair, StunEntry, Agent, max_stun_entries,
  max_candidates, is_succeeded, is_controlling, is_controlled,
}
use stice.Ice.Agent.Pairs.{
  is_some, pair_found, pair_for, learn_remote, pair_learned, find_or_create_pair,
  update_ordered_pairs,
}
use stice.Ice.Agent.Pairs.Learn.{find_or_create_pair-IsCheckList}
use stice.Ice.Agent.Requests.{
  or_zero, resolve_role, nominate, apply_nomination, set_state, arm_entry, trigger_check,
  answer_request, accept_request, is_own_relay, verify_binding_request, handle_binding_request,
}
use stice.Ice.Agent.Responses.{succeed}
use stice.Ice.Agent.Soundness.{IsSound, KeepsCandidates, alike-IsSound, modify-IsCheckList}

pair_found_entries :
    (a : Agent) (i j : ℕ) (l r : Candidate) (o : Option ℕ)
    → (pair_found a i l j r o).0.entries ≡ a.entries
unfolding pair_found update_ordered_pairs
pair_found_entries a i j l r none = ground arith
pair_found_entries a i j l r (some k) = refl

pair_for_entries :
    (a : Agent) (j : ℕ) (r : Candidate) (o : Option (ℕ × Candidate))
    → (pair_for a (j, r) o).0.entries ≡ a.entries
unfolding pair_for
pair_for_entries a j r none = refl
pair_for_entries a j r (some (i, l)) = pair_found_entries a i j l r _

module _ (getnameinfo : SockAddr → List ℕ × List ℕ) where
  learned_entries :
      (a : Agent) (src : AddrRecord) (priority : ℕ) (transport : CandidateTransport)
      (o : Option (ℕ × Candidate))
      → (pair_learned a transport (learn_remote getnameinfo a src priority transport o)).0.entries
        ≡ a.entries
  unfolding pair_learned learn_remote
  learned_entries a src priority transport (some (j, r)) = pair_for_entries a j r _
  learned_entries a src priority transport none =
      elim (Bool-cases (leb max_candidates (length a.remote_candidates))) [
        | inl e ↦ rw e refl
        | inr e ↦ rw e (pair_for_entries _ _ _ _)
      ]

  found_entries :
      (a : Agent) (src : AddrRecord) (priority : ℕ) (transport : CandidateTransport)
      → (find_or_create_pair getnameinfo a src priority transport).0.entries ≡ a.entries
  unfolding find_or_create_pair
  found_entries a src priority transport = elim (Bool-cases (addr_is_link_local (some src.addr))) [
    | inl e ↦ rw e refl
    | inr e ↦ rw e (learned_entries a src priority transport _)
  ]

  find_or_create_pair-IsSound :
      (a : Agent) (src : AddrRecord) (priority : ℕ) (transport : CandidateTransport)
      → IsSound a
      → IsSound (find_or_create_pair getnameinfo a src priority transport).0
  find_or_create_pair-IsSound a src priority transport s = record {
    check_list = find_or_create_pair-IsCheckList getnameinfo a src priority transport s.check_list;
    checks = rw (found_entries a src priority transport) s.checks;
  }

pub set_state_keeps : (s : PairState) → KeepsCandidates (set_state s)
unfolding set_state
set_state_keeps s p = (refl, refl, refl, refl)

pub succeed_keeps : (now : ℕ) → KeepsCandidates (succeed now)
unfolding succeed
succeed_keeps now p = (refl, refl, refl, refl)

apply_nomination_keeps : (o : Option ℕ) → KeepsCandidates (apply_nomination o)
unfolding apply_nomination nominate
apply_nomination_keeps none p = (ground arith, ground arith, ground arith, ground arith)
apply_nomination_keeps (some v) p = (ground arith, ground arith, ground arith, ground arith)

pub changed-IsSound :
    (a : Agent) (k : ℕ) (f : CandidatePair → CandidatePair)
    → KeepsCandidates f
    → IsSound a
    → IsSound (record a { pairs = modify a.pairs k f })
changed-IsSound a k f keeps s = record {
  check_list = modify-IsCheckList f keeps a k s.check_list;
  checks = s.checks;
}

pub armed-IsSound :
    (a : Agent) (entries : List StunEntry)
    → length entries ≤ max_stun_entries
    → IsSound a
    → IsSound (record a { entries = entries })
armed-IsSound a entries h s = record {
  check_list = record {
    paired = s.check_list.paired;
    distinct = s.check_list.distinct;
    bounded = s.check_list.bounded;
  };
  checks = h;
}

arm_entry_bounded :
    (a : Agent) (k : ℕ) (p : CandidatePair) (now : ℕ) (o : Option (ℕ × StunEntry))
    → length a.entries ≤ max_stun_entries
    → length (arm_entry a k p now o) ≤ max_stun_entries
unfolding arm_entry
arm_entry_bounded a k p now (some (n, e)) h = rw (length-modify a.entries n _) h
arm_entry_bounded a k p now none h = elim (Bool-cases (ltb (length a.entries) max_stun_entries)) [
  | inl e ↦ rw e (omega (arith, length-append a.entries _, ltb→lt _ _ e))
  | inr e ↦ rw e h
]

trigger_check-IsSound :
    (a : Agent) (k now : ℕ) (o : Option CandidatePair)
    → IsSound a
    → IsSound (trigger_check a k now o)
unfolding trigger_check
trigger_check-IsSound a k now none s = s
trigger_check-IsSound a k now (some p) s =
    let b : Agent = record a { pairs = modify a.pairs k (set_state PairState.pending) } in
    if_cases IsSound (not (is_succeeded p.state) && not (is_empty a.remote_ufrag)) _ _
      (armed-IsSound b _ (arm_entry_bounded b k p now _ s.checks)
        (changed-IsSound a k (set_state PairState.pending) (set_state_keeps PairState.pending) s))
      s

answer_request-IsSound :
    (msg : Message) (now : ℕ) (a : Agent) (o : Option ℕ)
    → IsSound a
    → IsSound (answer_request msg now (a, o)).0
unfolding answer_request
answer_request-IsSound msg now a none s = s
answer_request-IsSound msg now a (some k) s = trigger_check-IsSound _ k now _ (
    if_cases IsSound (has_use_candidate msg) _ _
      (changed-IsSound a k (apply_nomination (read_nomination msg))
        (apply_nomination_keeps (read_nomination msg)) s)
      s)

pub reordered-IsSound :
    (a : Agent) (mode : AgentMode)
    → IsSound a
    → IsSound (update_ordered_pairs (record a { mode = mode }))
unfolding update_ordered_pairs
reordered-IsSound a mode s =
    alike-IsSound a _ (record { pairs = refl; locals = refl; remotes = refl; size = refl }) s

resolve_role-IsSound : (a : Agent) (msg : Message) → IsSound a → IsSound (resolve_role a msg).0
unfolding resolve_role
resolve_role-IsSound a msg s =
    let P = λ (r : Agent × Bool). IsSound r.0 in
    if_cases P (is_some (find msg ice_controlling)) _ _
      (if_cases P (is_controlling a.mode)
        (if leb (or_zero (read_ice_controlling msg)) a.tiebreaker
          then (a, true)
          else (update_ordered_pairs (record a { mode = controlled }), false))
        (a, false)
        (if_cases P (leb (or_zero (read_ice_controlling msg)) a.tiebreaker) (a, true)
          (update_ordered_pairs (record a { mode = controlled }), false) s
          (reordered-IsSound a controlled s))
        s)
      (if_cases P (is_some (find msg ice_controlled)) _ _
        (if_cases P (is_controlled a.mode)
          (if leb (or_zero (read_ice_controlled msg)) a.tiebreaker
            then (update_ordered_pairs (record a { mode = controlling }), false)
            else (a, true))
          (a, false)
          (if_cases P (leb (or_zero (read_ice_controlled msg)) a.tiebreaker)
            (update_ordered_pairs (record a { mode = controlling }), false) (a, true)
            (reordered-IsSound a controlling s) s)
          s)
        s)

module _ (getnameinfo : SockAddr → List ℕ × List ℕ) where
  accept_request-IsSound :
      (msg : Message) (src : AddrRecord) (transport : CandidateTransport) (now : ℕ)
      (r : Agent × Bool)
      → IsSound r.0
      → IsSound (accept_request getnameinfo msg src transport now r).0
  unfolding accept_request
  accept_request-IsSound msg src transport now (a, true) s = s
  accept_request-IsSound msg src transport now (a, false) s =
      answer_request-IsSound msg now _ _
        (find_or_create_pair-IsSound getnameinfo a src (or_zero (read_priority msg)) transport s)

  pub handle_binding_request-IsSound :
      (a : Agent) (msg : Message) (src : AddrRecord) (transport : CandidateTransport) (now : ℕ)
      → IsSound a
      → IsSound (handle_binding_request getnameinfo a msg src transport now).0
  unfolding handle_binding_request
  handle_binding_request-IsSound a msg src transport now s =
      elim (Bool-cases (is_own_relay a.local_candidates src)) [
        | inl e ↦ rw e s
        | inr e ↦ elim (Bool-cases (verify_binding_request a msg)) [
          | inr f ↦ rw (e, f) s
          | inl f ↦
              rw (e, f)
                (accept_request-IsSound msg src transport now _ (resolve_role-IsSound a msg s))
        ]
      ]
