-- ===== src/Ice/Agent/Progress.antt =====
-- `Agent::changeState` and `updateState`: which pair is selected, and the state of the agent.
pub mod Best
pub mod Laws
pub mod Transitions
pub mod Failure
pub mod Patience
mod Tests
use stice.Base.{
  ℕ, zero, suc, ◌+◌, Bool, true, false, not, ◌&&◌, Option, none, some, List, [], ◌∷◌, is_empty, ltb,
  ◌==◌, if◌then◌else◌,
}
use stice.Ice.Candidate.{
  CandidateType, unknown, host, server_reflexive, peer_reflexive, relayed, Candidate,
}
use stice.Ice.Agent.{
  IceState, disconnected, gathering, connecting, connected, completed, failed, LinkReselectPolicy,
  rfc8445, sticky_selected, CandidatePair, Agent, is_succeeded, is_failed,
}
use stice.Ice.Agent.Schedule.{pair_is_tcp_relay, test_pair}

abbrev pub ice_pac_timeout_ms : ℕ
ice_pac_timeout_ms = 39500

-- `stice_state_t`.
unfoldable pub state_code : IceState → ℕ
state_code disconnected = 0
state_code gathering = 1
state_code connecting = 2
state_code connected = 3
state_code completed = 4
state_code IceState.failed = 5

unfoldable pub is_direct : CandidateType → Bool
is_direct unknown = false
is_direct host = true
is_direct server_reflexive = true
is_direct peer_reflexive = false
is_direct relayed = false

unfoldable pub has_no_direct : List Candidate → Bool
has_no_direct [] = true
has_no_direct (c ∷ rest) = let more = has_no_direct rest in if is_direct c.type then false else more

-- What entering CONNECTING records.
unfoldable pub start_checking : Agent → ℕ → Agent
start_checking a now = record a {
  checking_start_time = now;
  config = record a.config {
    checking_start = now;
    early_phase_active =
        ltb 0 a.config.early_phase_max_concurrent && ltb 0 a.config.early_phase_duration;
  };
  relay_only_mode = has_no_direct a.local_candidates;
}

unfoldable pub change_state : Agent → IceState → ℕ → Agent
unfolding start_checking state_code
change_state a new_state now =
    if state_code a.state == state_code new_state
    then a
    else let b = record a { state = new_state; emitted = new_state ∷ a.emitted } in
      if state_code new_state == 2 then start_checking b now else b

unfoldable pub is_better : CandidatePair → Option (ℕ × CandidatePair) → Bool
is_better p none = true
is_better p (some (k, q)) = ltb q.priority p.priority

-- The first of the pairs of highest priority that pass the test, from index k on.
unfoldable pub best_pair :
    (CandidatePair → Bool)
    → List CandidatePair
    → ℕ
    → Option (ℕ × CandidatePair)
    → Option (ℕ × CandidatePair)
best_pair test [] k best = best
best_pair test (p ∷ rest) k best =
    best_pair test rest (suc k) (if test p && is_better p best then some (k, p) else best)

unfoldable pub succeeded_tcp : CandidatePair → Bool
succeeded_tcp p = is_succeeded p.state && pair_is_tcp_relay p

unfoldable pub succeeded_udp : CandidatePair → Bool
succeeded_udp p = is_succeeded p.state && not (pair_is_tcp_relay p)

unfoldable pub is_sticky : LinkReselectPolicy → Bool
is_sticky rfc8445 = false
is_sticky sticky_selected = true

unfoldable pub prefer :
    Bool → Option (ℕ × CandidatePair) → Option (ℕ × CandidatePair) → Option (ℕ × CandidatePair)
prefer sticky none udp = udp
prefer sticky (some t) none = some t
prefer true (some t) (some u) = some t
prefer false (some t) (some u) = if ltb u.1.priority t.1.priority then some t else some u

unfoldable pub choose : Agent → Option (ℕ × CandidatePair)
unfolding best_pair succeeded_tcp succeeded_udp prefer
choose a =
    prefer
      (is_sticky a.config.reselect_policy && test_pair a.pairs a.selected_pair pair_is_tcp_relay)
      (best_pair succeeded_tcp a.pairs 0 none) (best_pair succeeded_udp a.pairs 0 none)

unfoldable pub select_best : Agent → ℕ → CandidatePair → ℕ → Agent
unfolding change_state
select_best a k p now =
    let b = record a { selected_pair = some k } in
    let c = record b { nominated_pair = some k } in
    if p.nominated
    then if state_code c.state == 2
      then change_state (change_state c connected now) completed now
      else if state_code c.state == 3
      then change_state c completed now
      else c
    else if state_code b.state == 2
    then change_state b connected now
    else b

unfoldable pub all_failed : List CandidatePair → Bool
all_failed [] = true
all_failed (p ∷ rest) =
    let more = all_failed rest in if not (is_failed p.state) then false else more

unfoldable pub fail_now : Agent → ℕ → Agent
unfolding change_state
fail_now a now =
    if state_code a.state == 2
    then change_state a IceState.failed now
    else if state_code a.state == 3
    then change_state a IceState.failed now
    else if state_code a.state == 4
    then change_state a IceState.failed now
    else a

-- With no pair that has succeeded.
unfoldable pub without_pair : Agent → ℕ → Agent
without_pair a now =
    if not (all_failed a.pairs)
    then record a { pac_deadline = 0 }
    else if is_empty a.pairs
    then record a { pac_deadline = 0 }
    else if state_code a.state == 2
    then if a.pac_deadline == 0
      then record a { pac_deadline = now + ice_pac_timeout_ms }
      else if ltb now a.pac_deadline
      then a
      else fail_now (record a { pac_deadline = 0 }) now
    else fail_now a now

unfoldable pub follow : Agent → ℕ → Option (ℕ × CandidatePair) → Agent
follow a now none = without_pair a now
follow a now (some (k, p)) = select_best a k p now

unfoldable pub update_state : Agent → ℕ → Agent
update_state a now = follow a now (choose a)
