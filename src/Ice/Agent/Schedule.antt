-- ===== src/Ice/Agent/Schedule.antt =====
-- `Agent::armNextFrozenPair` and what it calls: which pairs get a check, and when. `relays` stands
-- for `createDeferredTcpRelayAllocations`, which resolves names and opens TURN connections.
pub mod Bounds
pub mod Order
pub mod Arming
use stice.Base.{
  ℕ, zero, suc, ◌+◌, ◌-◌, Bool, true, false, not, ◌&&◌, ◌||◌, Option, none, some, List, [], ◌∷◌,
  ◌++◌, length, get_elem?, ltb, leb, ◌==◌, if◌then◌else◌,
}
use stice.Ice.Candidate.{is_udp}
use stice.Ice.Agent.{
  AgentMode, IceCheckScheduleMode, rfc8445_strict, serial, limited_concurrent, phased_udp_first,
  TcpRelayFallbackMode, disable, on_all_udp_fail, always_enable, StunEntryType, StunEntryState,
  IcePairingConfig, CandidatePair, StunEntry, Agent, is_frozen, is_failed, is_check, is_pending,
  max_stun_entries,
}
use stice.Ice.Agent.Pairs.{is_active, is_passive, is_relayed}

abbrev pub min_stun_retransmission_timeout_ms : ℕ
min_stun_retransmission_timeout_ms = 500

abbrev pub stun_tcp_timeout_ms : ℕ
stun_tcp_timeout_ms = 8000

abbrev pub stun_pacing_time_ms : ℕ
stun_pacing_time_ms = 50

unfoldable pub pair_is_tcp_relay : CandidatePair → Bool
pair_is_tcp_relay p = is_passive p.local_candidate.transport && is_relayed p.local_candidate.type

unfoldable pub pair_is_tcp : CandidatePair → Bool
pair_is_tcp p =
    not (is_udp p.local_candidate.transport) && not (is_udp p.remote_candidate.transport)

-- A test of a pair that an entry may have.
unfoldable pub test_pair : List CandidatePair → Option ℕ → (CandidatePair → Bool) → Bool
test_pair pairs none test = false
test_pair pairs (some i) test = elim (get_elem? pairs i) [ none ↦ false | some p ↦ test p ]

unfoldable pub arm_transmission :
    IcePairingConfig → List CandidatePair → ℕ → StunEntry → ℕ → StunEntry
unfolding pair_is_tcp test_pair
arm_transmission cfg pairs now e delay = record e {
  next_transmission = now + delay;
  retransmissions = 0;
  retransmission_timeout =
      if test_pair pairs e.pair pair_is_tcp
      then stun_tcp_timeout_ms
      else if ltb 0 cfg.rto_initial
      then cfg.rto_initial
      else min_stun_retransmission_timeout_ms;
  transaction_id_expired = true;
  state = StunEntryState.pending;
}

unfoldable pub is_in_progress : StunEntry → Bool
is_in_progress e = is_check e.type && is_pending e.state

unfoldable pub count_in_progress_checks : List StunEntry → ℕ
count_in_progress_checks [] = 0
count_in_progress_checks (e ∷ rest) =
    let more = count_in_progress_checks rest in if is_in_progress e then suc more else more

unfoldable pub is_phased : IceCheckScheduleMode → Bool
is_phased rfc8445_strict = false
is_phased serial = false
is_phased limited_concurrent = false
is_phased phased_udp_first = true

unfoldable pub is_serial : IceCheckScheduleMode → Bool
is_serial rfc8445_strict = false
is_serial serial = true
is_serial limited_concurrent = false
is_serial phased_udp_first = false

unfoldable pub is_disable : TcpRelayFallbackMode → Bool
is_disable disable = true
is_disable on_all_udp_fail = false
is_disable always_enable = false

unfoldable pub is_on_all_udp_fail : TcpRelayFallbackMode → Bool
is_on_all_udp_fail disable = false
is_on_all_udp_fail on_all_udp_fail = true
is_on_all_udp_fail always_enable = false

unfoldable pub any_udp_pair : List CandidatePair → Bool
any_udp_pair [] = false
any_udp_pair (p ∷ rest) =
    let more = any_udp_pair rest in if not (pair_is_tcp_relay p) then true else more

unfoldable pub all_udp_failed : List CandidatePair → Bool
all_udp_failed [] = true
all_udp_failed (p ∷ rest) =
    let more = all_udp_failed rest in
    if not (pair_is_tcp_relay p) && not (is_failed p.state) then false else more

unfoldable pub timeout_expired : IcePairingConfig → ℕ → Bool
timeout_expired cfg now =
    if ltb 0 cfg.udp_phase_timeout && not (cfg.udp_phase_start == 0)
    then leb cfg.udp_phase_timeout (now - cfg.udp_phase_start)
    else false

module _ (relays : Agent → Agent) where
  unfoldable pub maybe_enter_tcp_phase : Agent → ℕ → Agent
  maybe_enter_tcp_phase a now =
      if not (is_phased a.config.schedule_mode)
      then a
      else if a.config.tcp_phase_entered
      then a
      else if not (
          not (any_udp_pair a.pairs)
          || (timeout_expired a.config now || (all_udp_failed a.pairs && any_udp_pair a.pairs)))
      then a
      else let b = record a { config = record a.config { tcp_phase_entered = true } } in
        if is_on_all_udp_fail a.config.tcp_relay_fallback then relays b else b

-- The end of the early phase.
unfoldable pub refresh_early_phase : IcePairingConfig → ℕ → IcePairingConfig
refresh_early_phase cfg now =
    if cfg.early_phase_active
      && ((cfg.checking_start == 0) || leb cfg.early_phase_duration (now - cfg.checking_start))
    then record cfg { early_phase_active = false }
    else cfg

unfoldable pub cap : IcePairingConfig → ℕ
cap cfg =
    let base_cap =
      if ltb 0 cfg.max_concurrent_check then cfg.max_concurrent_check else max_stun_entries in
    if cfg.early_phase_active && ltb 0 cfg.early_phase_max_concurrent
    then if ltb base_cap cfg.early_phase_max_concurrent
      then cfg.early_phase_max_concurrent
      else base_cap
    else base_cap

unfoldable pub budget_for : IceCheckScheduleMode → IcePairingConfig → ℕ → ℕ
budget_for rfc8445_strict cfg in_prog = max_stun_entries
budget_for serial cfg in_prog = 1
budget_for limited_concurrent cfg in_prog = if ltb in_prog (cap cfg) then cap cfg - in_prog else 0
budget_for phased_udp_first cfg in_prog = if ltb in_prog (cap cfg) then cap cfg - in_prog else 0

-- The pairs that the loop does not skip.
unfoldable pub is_eligible : IcePairingConfig → CandidatePair → Bool
is_eligible cfg p =
    if not (is_frozen p.state)
    then false
    else if is_phased cfg.schedule_mode && (pair_is_tcp_relay p && not cfg.tcp_phase_entered)
    then false
    else if is_disable cfg.tcp_relay_fallback && pair_is_tcp_relay p
    then false
    else true

abbrev pub is_pair : Option ℕ → ℕ → Bool
is_pair none i = false
is_pair (some k) i = k == i

unfoldable pub has_entry : List StunEntry → ℕ → Bool
has_entry [] i = false
has_entry (e ∷ rest) i = let more = has_entry rest i in if is_pair e.pair i then true else more

abbrev pub check_entry : AgentMode → ℕ → CandidatePair → StunEntry
check_entry mode i p = record {
  type = StunEntryType.check;
  state = StunEntryState.pending;
  mode = mode;
  pair = some i;
  address = p.remote_candidate.resolved;
  transaction_id = 0 ∷ 0 ∷ 0 ∷ 0 ∷ 0 ∷ 0 ∷ 0 ∷ 0 ∷ 0 ∷ 0 ∷ 0 ∷ 0 ∷ [];
  next_transmission = 0;
  retransmission_timeout = min_stun_retransmission_timeout_ms;
  retransmissions = 0;
  transaction_id_expired = true;
}

module _ (cfg : IcePairingConfig) (pairs : List CandidatePair) (mode : AgentMode)
    (now budget : ℕ) where
  unfoldable pub armed_entry : ℕ → CandidatePair → StunEntry
  unfolding arm_transmission
  armed_entry i p = arm_transmission cfg pairs now (check_entry mode i p) stun_pacing_time_ms

  -- One round, for the pair i: the entries, how many are armed, and whether the loop ends.
  unfoldable pub arm_step :
      ℕ → Option CandidatePair → ℕ → List StunEntry → List StunEntry × ℕ × Bool
  arm_step i none armed entries = (entries, armed, false)
  arm_step i (some p) armed entries =
      if not (is_eligible cfg p)
      then (entries, armed, false)
      else if not (has_entry entries i) && ltb (length entries) max_stun_entries
      then (
        entries ++ (armed_entry i p ∷ []),
        suc armed,
        leb budget (suc armed) || is_serial cfg.schedule_mode,
      )
      else (entries, armed, is_serial cfg.schedule_mode)

  -- The loop over the ordered pairs.
  unfoldable pub arm_loop : List ℕ → ℕ → List StunEntry → List StunEntry
  arm_loop [] armed entries = entries
  arm_loop (i ∷ rest) armed entries =
      let (grown, count, ends) = arm_step i (get_elem? pairs i) armed entries in
      let more = arm_loop rest count grown in if ends then grown else more

-- The loop, unless the budget is 0.
unfoldable pub arm_pairs : Agent → ℕ → ℕ → Agent
unfolding arm_loop
arm_pairs a now budget = if budget == 0 then a else record a {
  entries = arm_loop a.config a.pairs a.mode now budget a.ordered_pairs 0 a.entries;
}

module _ (relays : Agent → Agent) where
  -- Up to the choice of the budget.
  unfoldable pub prepare_arming : Agent → ℕ → Agent
  unfolding maybe_enter_tcp_phase refresh_early_phase
  prepare_arming a now =
      let b = maybe_enter_tcp_phase relays a now in
      record b { config = refresh_early_phase b.config now }

  unfoldable pub arm_next_frozen_pair : Agent → ℕ → Agent
  unfolding arm_pairs
  arm_next_frozen_pair a now =
      let c = prepare_arming a now in
      arm_pairs c now
        (budget_for c.config.schedule_mode c.config (count_in_progress_checks c.entries))
