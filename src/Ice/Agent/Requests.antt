-- ===== src/Ice/Agent/Requests.antt =====
-- `Agent::verifyBindingRequest` and `handleBindingRequest`. A handler returns the agent and the code
-- of the response that it sends: 0 for a success, none for no response.
use stice.Base.{
  ℕ, Bool, true, false, not, ◌&&◌, Option, none, some, List, [], ◌∷◌, ◌++◌, length, is_empty,
  list_eq, get_elem?, modify, find_from, ltb, leb, ◌==◌, if◌then◌else◌,
}
use stice.Net.Addr.{SockAddr, AddrRecord, is_equal}
use stice.Stun.Message.{Message, find, check_integrity, integrity_type, username_type}
use stice.Stun.Attributes.{
  get_string, ice_controlling, ice_controlled, read_ice_controlling, read_ice_controlled,
  read_priority, has_use_candidate, read_nomination,
}
use stice.Ice.Candidate.{CandidateTransport, Candidate}
use stice.Ice.Agent.{
  controlling, controlled, PairState, CandidatePair, StunEntry, Agent, is_controlling,
  is_controlled, is_succeeded, max_stun_entries,
}
use stice.Ice.Agent.Pairs.{is_some, is_relayed, update_ordered_pairs, find_or_create_pair}
use stice.Ice.Agent.Schedule.{is_pair, check_entry, arm_transmission, stun_pacing_time_ms}

-- `username.find(':')`: what stands before and behind it.
unfoldable pub split_colon : List ℕ → Option (List ℕ × List ℕ)
split_colon [] = none
split_colon (c ∷ rest) =
    let more = split_colon rest in
    if c == b':'
    then some ([], rest)
    else elim more [ none ↦ none | some parts ↦ some (c ∷ parts.0, parts.1) ]

unfoldable pub verify_names : Agent → Message → Option (List ℕ × List ℕ) → Bool
verify_names a msg none = false
verify_names a msg (some (local_ufrag, remote_ufrag)) =
    if not (list_eq local_ufrag a.local_ufrag)
    then false
    else if not (is_empty a.remote_ufrag) && not (list_eq remote_ufrag a.remote_ufrag)
    then false
    else check_integrity msg a.local_pwd false

unfoldable pub verify_binding_request : Agent → Message → Bool
unfolding verify_names split_colon
verify_binding_request a msg = verify_names a msg (split_colon (get_string msg username_type))

abbrev pub or_zero : Option ℕ → ℕ
or_zero none = 0
or_zero (some n) = n

-- The check of the roles: the agent, and whether the request is refused with 487.
unfoldable pub resolve_role : Agent → Message → Agent × Bool
unfolding update_ordered_pairs
resolve_role a msg =
    let peer_as_controlling = or_zero (read_ice_controlling msg) in
    let peer_as_controlled = or_zero (read_ice_controlled msg) in
    if is_some (find msg ice_controlling)
    then if is_controlling a.mode
      then if leb peer_as_controlling a.tiebreaker
        then (a, true)
        else (update_ordered_pairs (record a { mode = controlled }), false)
      else (a, false)
    else if is_some (find msg ice_controlled)
    then if is_controlled a.mode
      then if leb peer_as_controlled a.tiebreaker
        then (update_ordered_pairs (record a { mode = controlling }), false)
        else (a, true)
      else (a, false)
    else (a, false)

unfoldable pub nominate : CandidatePair → CandidatePair
nominate p =
    if is_succeeded p.state
    then record p { nominated = true }
    else record p { nomination_requested = true }

-- USE-CANDIDATE, with the value of NOMINATION if there is one.
unfoldable pub apply_nomination : Option ℕ → CandidatePair → CandidatePair
unfolding nominate
apply_nomination none p = nominate p
apply_nomination (some value) p =
    if ltb p.nomination_value value then nominate (record p { nomination_value = value }) else p

unfoldable pub set_state : PairState → CandidatePair → CandidatePair
set_state s p = record p { state = s }

-- The entry of the pair k, armed; where need be a new one.
unfoldable pub arm_entry : Agent → ℕ → CandidatePair → ℕ → Option (ℕ × StunEntry) → List StunEntry
unfolding arm_transmission
arm_entry a k p now (some (n, e)) =
    modify a.entries n
      (λ (f : StunEntry). arm_transmission a.config a.pairs now f stun_pacing_time_ms)
arm_entry a k p now none =
    if ltb (length a.entries) max_stun_entries
    then a.entries
      ++ (arm_transmission a.config a.pairs now (check_entry a.mode k p) stun_pacing_time_ms ∷ [])
    else a.entries

-- The triggered check of the pair at k.
unfoldable pub trigger_check : Agent → ℕ → ℕ → Option CandidatePair → Agent
unfolding arm_entry set_state
trigger_check a k now none = a
trigger_check a k now (some p) =
    let b = record a { pairs = modify a.pairs k (set_state PairState.pending) } in
    if not (is_succeeded p.state) && not (is_empty a.remote_ufrag)
    then record b {
      entries = arm_entry b k p now (find_from (λ (e : StunEntry). is_pair e.pair k) a.entries 0);
    }
    else a

-- From the pair on.
unfoldable pub answer_request : Message → ℕ → Agent × Option ℕ → Agent × Option ℕ
unfolding apply_nomination trigger_check
answer_request msg now (a, none) = (a, some 500)
answer_request msg now (a, some k) =
    let b =
      if has_use_candidate msg
      then record a { pairs = modify a.pairs k (apply_nomination (read_nomination msg)) }
      else a in
    (trigger_check b k now (get_elem? b.pairs k), some 0)

unfoldable pub is_own_relay : List Candidate → AddrRecord → Bool
is_own_relay [] src = false
is_own_relay (c ∷ rest) src =
    let more = is_own_relay rest src in
    if is_relayed c.type && is_equal c.resolved src true then true else more

module _ (getnameinfo : SockAddr → List ℕ × List ℕ) where
  unfoldable pub accept_request :
      Message → AddrRecord → CandidateTransport → ℕ → Agent × Bool → Agent × Option ℕ
  accept_request msg src transport now (a, true) = (a, some 487)
  accept_request msg src transport now (a, false) =
      answer_request msg now
        (find_or_create_pair getnameinfo a src (or_zero (read_priority msg)) transport)

  unfoldable pub handle_binding_request :
      Agent → Message → AddrRecord → CandidateTransport → ℕ → Agent × Option ℕ
  handle_binding_request a msg src transport now =
      let code = if is_some (find msg integrity_type) then 400 else 401 in
      if is_own_relay a.local_candidates src
      then (a, none)
      else if not (verify_binding_request a msg)
      then (a, some code)
      else accept_request msg src transport now (resolve_role a msg)
