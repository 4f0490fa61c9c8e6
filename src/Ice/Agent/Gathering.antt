-- ===== src/Ice/Agent/Gathering.antt =====
-- `Agent::checkGatheringComplete`, `addLocalCandidate`, and `formPairs` with the arming at its end. What
-- `formPairs` asks of the TURN clients in between is not part of the state.
use stice.Base.{
  ℕ, Bool, true, not, ◌&&◌, ◌||◌, List, [], ◌∷◌, length, is_empty, ltb, leb, ◌==◌, if◌then◌else◌,
}
use stice.Base.Ints.{is_positive}
use stice.Ice.Candidate.{Candidate}
use stice.Ice.Agent.{IceState, connecting, Agent, max_candidates}
use stice.Ice.Agent.Pairs.{form_pairs}
use stice.Ice.Agent.Schedule.{arm_next_frozen_pair}
use stice.Ice.Agent.Progress.{state_code, change_state}
use stice.Ice.Agent.Descriptions.{push_local}
use mathlib.Core.List.{foldl}

-- `sortCandidates`: a stable sort by falling priority.
unfoldable pub insert_candidate : Candidate → List Candidate → List Candidate
insert_candidate c [] = c ∷ []
insert_candidate c (d ∷ rest) =
    let more = insert_candidate c rest in
    if ltb d.priority c.priority then c ∷ (d ∷ rest) else d ∷ more

unfoldable pub sort_candidates : List Candidate → List Candidate
unfolding insert_candidate
sort_candidates cs = foldl (λ sorted c. insert_candidate c sorted) [] cs

-- The states in which checks run.
unfoldable pub is_checking : IceState → Bool
unfolding state_code
is_checking s = (state_code s == 2) || ((state_code s == 3) || (state_code s == 4))

module _ (relays : Agent → Agent) where
  unfoldable pub form_and_arm : Agent → ℕ → Agent
  form_and_arm a now = arm_next_frozen_pair relays (form_pairs a) now

  unfoldable pub add_local_candidate : Agent → Candidate → ℕ → Agent
  unfolding push_local sort_candidates is_checking form_and_arm
  add_local_candidate a c now =
      let b = push_local a c in
      let sorted = record b { local_candidates = sort_candidates b.local_candidates } in
      let d = if leb (state_code a.state) 1 then sorted else b in
      if leb max_candidates (length a.local_candidates)
      then a
      else if is_checking a.state
      then form_and_arm d now
      else d

  unfoldable pub check_gathering_complete : Agent → ℕ → Agent
  unfolding form_and_arm
  check_gathering_complete a now =
      let b = record a { gathering_done = true } in
      if is_positive a.pending_relay
      then a
      else if is_positive a.pending_reflexive
      then a
      else if a.gathering_done
      then a
      else if not (is_empty a.remote_ufrag)
          && (not (is_empty a.remote_pwd) && (state_code a.state == 1))
      then change_state (form_and_arm b now) connecting now
      else b
