-- ===== src/Ice/Agent/Responses.antt =====
-- `Agent::armKeepalive`, `handleBindingResponse` and `handleStunMessage`. The random word of the
-- jitter and the handler of server-reflexive responses are arguments.
use stice.Base.{
  ℕ, ◌+◌, ◌-◌, ◌*◌, ◌/◌, ◌%◌, ◌^◌, max, Bool, true, false, not, ◌&&◌, Option, none, some, List,
  list_eq, modify, find_from, ltb, ◌==◌, if◌then◌else◌,
}
use stice.Net.Addr.{SockAddr, AddrRecord, is_equal}
use stice.Stun.Message.{Message}
use stice.Stun.TypeField.{is_response_type}
use stice.Stun.Attributes.{read_error_code}
use stice.Ice.Candidate.{CandidateTransport}
use stice.Ice.Agent.{
  AgentMode, controlling, controlled, PairState, StunEntryType, empty, server, relay, check,
  StunEntryState, CandidatePair, StunEntry, Agent, IcePairingConfig, is_controlling, is_succeeded,
  is_failed, is_check,
}
use stice.Ice.Agent.Pairs.{priority_at, update_ordered_pairs}
use stice.Ice.Agent.Schedule.{test_pair, pair_is_tcp_relay, arm_transmission, arm_next_frozen_pair}
use stice.Ice.Agent.Progress.{best_pair, update_state}
use stice.Ice.Agent.Requests.{handle_binding_request, set_state}

abbrev pub consent_timeout_ms : ℕ
consent_timeout_ms = 30000

-- `armKeepalive`: 10 seconds when idle, else the period of the configuration, up to a fifth more or
-- less, and 4 seconds at least.
unfoldable pub keepalive_period : IcePairingConfig → Bool → Bool → ℕ → ℕ
keepalive_period cfg idle is_relay random =
    let configured = if is_relay then cfg.keepalive_tcp_relay else cfg.keepalive_udp in
    let base = if ltb 0 configured then configured else 5000 in
    let span = max 1 (base / 5) in
    if idle then 10000 else max 4000 (base + random % (2 * span + 1) - span)

unfoldable pub arm_keepalive : Agent → ℕ → ℕ → StunEntry → StunEntry
unfolding keepalive_period test_pair pair_is_tcp_relay
arm_keepalive a now random e = record e {
  state = StunEntryState.succeeded_keepalive;
  transaction_id_expired = true;
  next_transmission =
      now
      + keepalive_period a.config
          (not (a.last_app_data_at == 0) && ltb 30000 (now - a.last_app_data_at))
          (test_pair a.pairs e.pair pair_is_tcp_relay) random;
}

unfoldable pub mode_code : AgentMode → ℕ
mode_code AgentMode.unknown = 0
mode_code controlling = 1
mode_code controlled = 2

unfoldable pub is_idle : StunEntryState → Bool
is_idle StunEntryState.pending = false
is_idle StunEntryState.cancelled = false
is_idle StunEntryState.failed = false
is_idle StunEntryState.succeeded = false
is_idle StunEntryState.succeeded_keepalive = false
is_idle StunEntryState.idle = true

-- A response 487 to the entry e, at n.
unfoldable pub switch_role : Agent → ℕ → StunEntry → ℕ → Agent
unfolding mode_code update_ordered_pairs arm_transmission is_idle
switch_role a n e now =
    let b =
      update_ordered_pairs
        (record a { mode = if is_controlling a.mode then controlled else controlling }) in
    if mode_code e.mode == mode_code a.mode
    then if not (is_idle e.state)
      then record b {
        entries = modify b.entries n (λ (f : StunEntry). arm_transmission b.config b.pairs now f 0);
      }
      else b
    else a

unfoldable pub set_pair : Agent → Option ℕ → (CandidatePair → CandidatePair) → Agent
set_pair a none f = a
set_pair a (some k) f = record a { pairs = modify a.pairs k f }

unfoldable pub fail_entry : StunEntry → StunEntry
fail_entry e = record e { state = StunEntryState.failed }

unfoldable pub succeed : ℕ → CandidatePair → CandidatePair
succeed now p = record p {
  state = PairState.succeeded;
  consent_expiry = now + consent_timeout_ms;
  nominated = if p.nomination_requested then true else p.nominated;
}

unfoldable pub select : Agent → ℕ → Agent
select a k = record a {
  selected_pair = some k;
  nomination_value = (a.nomination_value + 1) % 2 ^ 32;
}

-- The choice of the controlling side, given the best pair and the selected one.
unfoldable pub reselect : Agent → Option (ℕ × CandidatePair) → Option ℕ → Agent
unfolding select
reselect a none selected = a
reselect a (some (k, p)) none = select a k
reselect a (some (k, p)) (some s) =
    if not (k == s) && ltb (priority_at a.pairs s) p.priority then select a k else a

unfoldable pub is_nominated : CandidatePair → Bool
is_nominated p = p.nominated

-- A success for the pair at k.
unfoldable pub handle_success : Agent → ℕ → ℕ → ℕ → ℕ → Agent
unfolding reselect succeed test_pair is_nominated arm_keepalive
handle_success a n k now random =
    let b = record a { pairs = modify a.pairs k (succeed now) } in
    let c =
      if is_controlling b.mode
      then reselect b (best_pair (λ (p : CandidatePair). is_succeeded p.state) b.pairs 0 none)
          b.selected_pair
      else b in
    let d =
      if test_pair c.pairs (some k) is_nominated then record c { nominated_pair = some k } else c in
    record d { entries = modify d.entries n (arm_keepalive d now random) }

unfoldable pub succeed_pair : Agent → ℕ → Option ℕ → ℕ → ℕ → Agent
unfolding handle_success
succeed_pair a n none now random = a
succeed_pair a n (some k) now random = handle_success a n k now random

abbrev pub code_of : Option (ℕ × List ℕ) → ℕ
code_of none = 0
code_of (some (code, reason)) = code

module _ (relays : Agent → Agent) where
  -- An error response other than 487.
  unfoldable pub handle_failure : Agent → ℕ → StunEntry → ℕ → Agent
  unfolding set_pair fail_entry set_state
  handle_failure a n e now =
      let b =
        set_pair (record a { entries = modify a.entries n fail_entry }) e.pair
          (set_state PairState.failed) in
      let c = if is_check e.type then arm_next_frozen_pair relays b now else b in update_state c now

  unfoldable pub handle_result : Agent → Message → ℕ → StunEntry → ℕ → ℕ → Agent
  unfolding switch_role succeed_pair
  handle_result a msg n e now random =
      if msg.cls == 3
      then if code_of (read_error_code msg) == 487
        then switch_role a n e now
        else handle_failure a n e now
      else if is_check e.type && test_pair a.pairs e.pair (λ (p : CandidatePair). is_failed p.state)
      then a
      else succeed_pair a n e.pair now random

  -- The entry n of the agent, found by its transaction id.
  unfoldable pub handle_binding_response :
      Agent → Message → AddrRecord → ℕ → StunEntry → ℕ → ℕ → Agent
  unfolding handle_result
  handle_binding_response a msg src n e now random =
      if not (is_equal e.address src true) then a else handle_result a msg n e now random

  unfoldable pub handle_stun_message :
      (SockAddr → List ℕ × List ℕ)
      → (Agent → Message → AddrRecord → ℕ → StunEntry → Agent)
      → Agent
      → Message
      → AddrRecord
      → CandidateTransport
      → ℕ
      → ℕ
      → Agent × Option ℕ
  unfolding handle_binding_response
  handle_stun_message getnameinfo reflexive a msg src transport now random =
      if not (msg.method == 1)
      then (a, none)
      else if msg.cls == 0
      then handle_binding_request getnameinfo a msg src transport now
      else if is_response_type msg.cls
      then (
        dispatch (
            find_from (λ (e : StunEntry). list_eq e.transaction_id msg.transaction_id) a.entries 0),
        none,
      )
      else (a, none)
    where
      to_entry : ℕ → StunEntry → StunEntryType → Agent
      to_entry n e server = reflexive a msg src n e
      to_entry n e empty = handle_binding_response a msg src n e now random
      to_entry n e relay = handle_binding_response a msg src n e now random
      to_entry n e check = handle_binding_response a msg src n e now random

      dispatch : Option (ℕ × StunEntry) → Agent
      dispatch none = a
      dispatch (some (n, e)) = to_entry n e e.type
