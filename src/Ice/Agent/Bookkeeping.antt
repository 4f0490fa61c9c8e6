-- ===== src/Ice/Agent/Bookkeeping.antt =====
-- `Agent::onBookkeeping`, from the loop over the entries on, `isNominatable` and
-- `acceptanceMinWaitMs`; `nextTimestampMs` is in Timestamp. An entry of type relay has its TURN client.
-- The clock, random values and what a TURN client does in its tick are parameters; the loop runs over
-- the entries that there are when it starts. The soft end of gathering and the retries of RFC 6062
-- connections, which stand before the loop, are not part of it.
pub mod Laws
pub mod Wanes
pub mod Steps
pub mod Consent
pub mod Timestamp
pub mod Deadlines
mod Tests
use stice.Base.{
  ℕ, zero, suc, ◌+◌, ◌-◌, ◌*◌, max, min, Bool, true, false, not, ◌&&◌, ◌||◌, Option, none, some,
  List, [], ◌∷◌, length, get_elem?, modify, find_from, ltb, leb, ◌==◌, if◌then◌else◌,
}
use stice.Base.Ints.{pred}
use stice.Ice.Candidate.{CandidateType, unknown, host, server_reflexive, peer_reflexive, relayed}
use stice.Ice.Agent.{
  AgentMode, IceNominationMode, aggressive, regular, regular_stable_check, PairState, StunEntryType,
  StunEntryState, IcePairingConfig, CandidatePair, StunEntry, Agent, is_controlling, is_succeeded,
  is_check, is_pending,
}
use stice.Ice.Agent.Schedule.{
  pair_is_tcp, pair_is_tcp_relay, test_pair, arm_transmission, is_pair, arm_next_frozen_pair,
  stun_tcp_timeout_ms,
}
use stice.Ice.Agent.Progress.{update_state}
use stice.Ice.Agent.Requests.{set_state}
use stice.Ice.Agent.Responses.{arm_keepalive, set_pair, fail_entry, is_idle, consent_timeout_ms}
use stice.Ice.Agent.Checks.{sent_entry, pair_of}
use stice.Ice.Agent.Gathering.{check_gathering_complete}

abbrev pub last_stun_retransmission_timeout_ms : ℕ
last_stun_retransmission_timeout_ms = 8000

abbrev pub max_stun_check_retransmissions : ℕ
max_stun_check_retransmissions = 6

unfoldable pub is_server : StunEntryType → Bool
is_server StunEntryType.empty = false
is_server StunEntryType.server = true
is_server StunEntryType.relay = false
is_server StunEntryType.check = false

unfoldable pub is_relay : StunEntryType → Bool
is_relay StunEntryType.empty = false
is_relay StunEntryType.server = false
is_relay StunEntryType.relay = true
is_relay StunEntryType.check = false

unfoldable pub is_keepalive : StunEntryState → Bool
is_keepalive StunEntryState.pending = false
is_keepalive StunEntryState.cancelled = false
is_keepalive StunEntryState.failed = false
is_keepalive StunEntryState.succeeded = false
is_keepalive StunEntryState.succeeded_keepalive = true
is_keepalive StunEntryState.idle = false

unfoldable pub is_cancelled : StunEntryState → Bool
is_cancelled StunEntryState.pending = false
is_cancelled StunEntryState.cancelled = true
is_cancelled StunEntryState.failed = false
is_cancelled StunEntryState.succeeded = false
is_cancelled StunEntryState.succeeded_keepalive = false
is_cancelled StunEntryState.idle = false

unfoldable pub max_retransmissions : IcePairingConfig → Bool → Bool → ℕ
max_retransmissions cfg is_turn_tcp_relay is_tcp =
    if is_turn_tcp_relay
    then 3
    else if is_tcp
    then 1
    else if ltb 0 cfg.max_check_retransmit
    then cfg.max_check_retransmit
    else max_stun_check_retransmissions

-- A transmission and the timer of the next.
unfoldable pub retransmit : Agent → Bool → List ℕ → ℕ → StunEntry → StunEntry
unfolding sent_entry
retransmit a is_tcp fresh now e =
    let sent = if is_server e.type then e else sent_entry a fresh e in
    let timeout =
      if is_tcp
      then e.retransmission_timeout
      else min (e.retransmission_timeout * 2) last_stun_retransmission_timeout_ms in
    record sent {
      retransmissions = e.retransmissions + 1;
      retransmission_timeout = timeout;
      next_transmission = now + timeout;
    }

unfoldable pub postpone : ℕ → StunEntry → StunEntry
postpone now e = record e { next_transmission = now + stun_tcp_timeout_ms }

unfoldable pub is_expired : ℕ → CandidatePair → Bool
is_expired now p = leb p.consent_expiry now

-- `bound`: whether the RFC 6062 data connection is; `tick n`: what the tick of the TURN client of the
-- entry n does.
module _ (relays : Agent → Agent) (tick : ℕ → Agent → Agent) (bound : Bool) where
  -- A server's entry that has failed.
  unfoldable pub give_up_server : Agent → StunEntry → ℕ → Agent
  give_up_server a e now =
      if is_server e.type
      then check_gathering_complete relays
          (record a { pending_reflexive = pred a.pending_reflexive }) now
      else a

  -- The entry n, out of retransmissions.
  unfoldable pub give_up : Agent → ℕ → StunEntry → ℕ → Agent
  unfolding give_up_server set_pair
  give_up a n e now =
      let b = give_up_server (record a { entries = modify a.entries n fail_entry }) e now in
      let c = set_pair b e.pair (set_state PairState.failed) in
      if is_check e.type then arm_next_frozen_pair relays c now else c

  unfoldable pub drive_relay : Agent → ℕ → StunEntry → Agent
  drive_relay a n e = if is_relay e.type && not (is_cancelled e.state) then tick n a else a

  -- A pending entry whose time has come.
  unfoldable pub drive_pending : Agent → ℕ → StunEntry → ℕ → List ℕ → Agent
  unfolding give_up max_retransmissions retransmit postpone
  drive_pending a n e now fresh =
      let is_tcp = test_pair a.pairs e.pair pair_is_tcp in
      let is_turn_tcp_relay = test_pair a.pairs e.pair pair_is_tcp_relay in
      let sent = record a { entries = modify a.entries n (retransmit a is_tcp fresh now) } in
      if is_turn_tcp_relay && not bound
      then record a { entries = modify a.entries n (postpone now) }
      else if leb (max_retransmissions a.config is_turn_tcp_relay is_tcp) e.retransmissions
      then give_up a n e now
      else drive_relay sent n e

  -- An entry that keeps a pair alive.
  unfoldable pub drive_keepalive : Agent → ℕ → StunEntry → ℕ → List ℕ → ℕ → Agent
  unfolding set_pair is_expired
  drive_keepalive a n e now fresh random =
      let expired =
        set_pair (record a { entries = modify a.entries n fail_entry }) e.pair
          (set_state PairState.failed) in
      let kept = record a {
        entries =
            modify a.entries n
              (λ (f : StunEntry). arm_keepalive a now random (sent_entry a fresh f));
      } in
      if test_pair a.pairs e.pair (is_expired now)
      then expired
      else drive_relay (if leb e.next_transmission now then kept else a) n e

  unfoldable pub drive_entry : Agent → ℕ → Option StunEntry → ℕ → List ℕ → ℕ → Agent
  unfolding drive_pending drive_keepalive drive_relay
  drive_entry a n none now fresh random = a
  drive_entry a n (some e) now fresh random =
      if is_pending e.state && leb e.next_transmission now
      then drive_pending a n e now fresh
      else if is_keepalive e.state
      then drive_keepalive a n e now fresh random
      else drive_relay a n e

  -- `count` entries from n on, each with its random values.
  unfoldable pub drive_entries : Agent → ℕ → ℕ → ℕ → (ℕ → List ℕ) → (ℕ → ℕ) → Agent
  unfolding drive_entry
  drive_entries a n zero now fresh random = a
  drive_entries a n (suc count) now fresh random =
      drive_entries (drive_entry a n (get_elem? a.entries n) now (fresh n) (random n)) (suc n) count
        now fresh random

unfoldable pub acceptance_min_wait : Agent → CandidateType → ℕ
acceptance_min_wait a unknown = 2000
acceptance_min_wait a host = 0
acceptance_min_wait a server_reflexive = 500
acceptance_min_wait a peer_reflexive = 1000
acceptance_min_wait a relayed = if a.relay_only_mode then 0 else 2000

unfoldable pub is_nominatable : Agent → ℕ → CandidatePair → Bool
unfolding acceptance_min_wait
is_nominatable a now p =
    let elapsed = now - a.checking_start_time in
    leb (acceptance_min_wait a p.local_candidate.type) elapsed
    && leb (acceptance_min_wait a p.remote_candidate.type) elapsed

unfoldable pub is_aggressive : IceNominationMode → Bool
is_aggressive aggressive = true
is_aggressive regular = false
is_aggressive regular_stable_check = false

unfoldable pub is_stable_check : IceNominationMode → Bool
is_stable_check aggressive = false
is_stable_check regular = false
is_stable_check regular_stable_check = true

-- The window of `REGULAR_STABLE_CHECK` for a TCP relay.
unfoldable pub is_stable : Agent → ℕ → CandidatePair → Bool
is_stable a now p =
    let succ_time = p.consent_expiry - consent_timeout_ms in
    leb a.config.tcp_nomination_precheck (now - succ_time)
    || (not (a.last_app_data_at == 0) && leb succ_time a.last_app_data_at)

-- No check but that of the pair k is under way or waiting; the pair's entry is at `sel`.
unfoldable pub all_settled : Option ℕ → List StunEntry → ℕ → Bool
all_settled sel [] n = true
all_settled sel (e ∷ rest) n =
    let more = all_settled sel rest (suc n) in
    let other : Bool = elim sel [ none ↦ true | some m ↦ not (n == m) ] in
    if is_check e.type && (other && (is_pending e.state || is_idle e.state)) then false else more

abbrev pub entry_of : List StunEntry → ℕ → Option ℕ
entry_of entries k = elim (find_from (λ (e : StunEntry). is_pair e.pair k) entries 0) [
  | none ↦ none
  | some (n, e) ↦ some n
]

unfoldable pub should_nominate : Agent → ℕ → ℕ → CandidatePair → Bool
unfolding is_nominatable is_stable all_settled is_aggressive is_stable_check
should_nominate a now k p =
    let precheck_path = is_stable_check a.config.nomination_mode && pair_is_tcp_relay p in
    let first =
      if is_aggressive a.config.nomination_mode
      then is_nominatable a now p
      else if precheck_path
      then (if is_nominatable a now p then is_stable a now p else false)
      else is_nominatable a now p in
    if not first && not precheck_path then all_settled (entry_of a.entries k) a.entries 0 else first

unfoldable pub request_nomination : CandidatePair → CandidatePair
request_nomination p = record p { nomination_requested = true }

unfoldable pub rearm : Agent → Option ℕ → ℕ → Agent
unfolding arm_transmission
rearm a none now = a
rearm a (some n) now = record a {
  entries = modify a.entries n (λ (e : StunEntry). arm_transmission a.config a.pairs now e 0);
}

unfoldable pub nominate_pair : Agent → ℕ → ℕ → Option CandidatePair → Agent
unfolding should_nominate request_nomination rearm
nominate_pair a now k none = a
nominate_pair a now k (some p) =
    let b = record a { pairs = modify a.pairs k request_nomination } in
    if is_controlling a.mode && (not p.nominated && not p.nomination_requested)
    then (if should_nominate a now k p then rearm b (entry_of a.entries k) now else a)
    else a

unfoldable pub nominate_selected : Agent → ℕ → Option ℕ → Agent
unfolding nominate_pair
nominate_selected a now none = a
nominate_selected a now (some k) = nominate_pair a now k (get_elem? a.pairs k)

unfoldable pub is_waiting : PairState → Bool
is_waiting PairState.frozen = false
is_waiting PairState.pending = true
is_waiting PairState.succeeded = false
is_waiting PairState.failed = false

-- All pairs but the one at k, counted from n.
unfoldable pub freeze_others : ℕ → List CandidatePair → ℕ → List CandidatePair
unfolding is_waiting
freeze_others k [] n = []
freeze_others k (p ∷ rest) n =
    (if not (n == k) && is_waiting p.state then record p { state = PairState.frozen } else p)
    ∷ freeze_others k rest (suc n)

unfoldable pub freeze_pairs : Agent → Option ℕ → Agent
unfolding freeze_others
freeze_pairs a none = a
freeze_pairs a (some k) = record a { pairs = freeze_others k a.pairs 0 }

module _ (relays : Agent → Agent) (tick : ℕ → Agent → Agent) (bound : Bool) where
  unfoldable pub on_bookkeeping : Agent → ℕ → (ℕ → List ℕ) → (ℕ → ℕ) → Agent
  on_bookkeeping a now fresh random =
      let b = drive_entries relays tick bound a 0 (length a.entries) now fresh random in
      let c = nominate_selected b now b.selected_pair in
      update_state (freeze_pairs c c.nominated_pair) now
