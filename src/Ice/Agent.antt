-- ===== src/Ice/Agent.antt =====
-- include/stice/ice/agent.hpp, candidatepair.hpp and pairing_strategy.hpp: the state of an ICE agent
-- as far as pairs, checks and roles use it. A pointer to a pair is its index in `pairs`, which only
-- grows; a pair holds its two candidates with their indices in the candidate lists, whose elements
-- do not change. Times are milliseconds, 0 for a time that is not set. Sockets, TURN clients and
-- the fields of the RFC 6062 connection are not part of this state.
pub mod Pairs
pub mod Schedule
pub mod Progress
pub mod Checks
pub mod Requests
pub mod Responses
pub mod Soundness
pub mod Descriptions
pub mod Gathering
pub mod Bookkeeping
pub mod Runs
mod Sample
mod Tests
use stice.Base.{ℕ, Bool, true, false, Option, none, some, List, [], ◌∷◌}
use stice.Base.Ints.{ℤ}
use stice.Net.Addr.{AddrRecord}
use stice.Ice.Candidate.{Candidate}

pub data AgentMode : Type 0 where
  unknown : AgentMode
  controlling : AgentMode
  controlled : AgentMode

pub data IceState : Type 0 where
  disconnected : IceState
  gathering : IceState
  connecting : IceState
  connected : IceState
  completed : IceState
  failed : IceState

pub data PairState : Type 0 where
  frozen : PairState
  pending : PairState
  succeeded : PairState
  failed : PairState

pub data StunEntryType : Type 0 where
  empty : StunEntryType
  server : StunEntryType
  relay : StunEntryType
  check : StunEntryType

pub data StunEntryState : Type 0 where
  pending : StunEntryState
  cancelled : StunEntryState
  failed : StunEntryState
  succeeded : StunEntryState
  succeeded_keepalive : StunEntryState
  idle : StunEntryState

pub data IceCheckScheduleMode : Type 0 where
  rfc8445_strict : IceCheckScheduleMode
  serial : IceCheckScheduleMode
  limited_concurrent : IceCheckScheduleMode
  phased_udp_first : IceCheckScheduleMode

pub data IceNominationMode : Type 0 where
  aggressive : IceNominationMode
  regular : IceNominationMode
  regular_stable_check : IceNominationMode

pub data TcpRelayFallbackMode : Type 0 where
  disable : TcpRelayFallbackMode
  on_all_udp_fail : TcpRelayFallbackMode
  always_enable : TcpRelayFallbackMode

pub data LinkReselectPolicy : Type 0 where
  rfc8445 : LinkReselectPolicy
  sticky_selected : LinkReselectPolicy

pub record IcePairingConfig : Type 0 where
  pub schedule_mode : IceCheckScheduleMode
  pub max_concurrent_check : ℕ
  pub udp_phase_timeout : ℕ
  pub nomination_mode : IceNominationMode
  pub tcp_nomination_precheck : ℕ
  pub tcp_relay_fallback : TcpRelayFallbackMode
  pub reselect_policy : LinkReselectPolicy
  pub rto_initial : ℕ
  pub max_check_retransmit : ℕ
  pub keepalive_udp : ℕ
  pub keepalive_tcp_relay : ℕ
  pub early_phase_max_concurrent : ℕ
  pub early_phase_duration : ℕ
  pub udp_phase_start : ℕ
  pub tcp_phase_entered : Bool
  pub checking_start : ℕ
  pub early_phase_active : Bool

pub record CandidatePair : Type 0 where
  pub local_index : ℕ
  pub remote_index : ℕ
  pub local_candidate : Candidate
  pub remote_candidate : Candidate
  pub priority : ℕ
  pub state : PairState
  pub nominated : Bool
  pub nomination_requested : Bool
  pub nomination_value : ℕ
  pub consent_expiry : ℕ

pub record StunEntry : Type 0 where
  pub type : StunEntryType
  pub state : StunEntryState
  pub mode : AgentMode
  pub pair : Option ℕ
  pub address : AddrRecord
  pub transaction_id : List ℕ
  pub next_transmission : ℕ
  pub retransmission_timeout : ℕ
  pub retransmissions : ℕ
  pub transaction_id_expired : Bool

-- `emitted` is what `emitState` has told the application, the last state first.
pub record Agent : Type 0 where
  pub state : IceState
  pub mode : AgentMode
  pub tiebreaker : ℕ
  pub config : IcePairingConfig
  pub local_candidates : List Candidate
  pub local_ufrag : List ℕ
  pub local_pwd : List ℕ
  pub remote_candidates : List Candidate
  pub remote_ufrag : List ℕ
  pub remote_pwd : List ℕ
  pub pairs : List CandidatePair
  pub ordered_pairs : List ℕ
  pub selected_pair : Option ℕ
  pub nominated_pair : Option ℕ
  pub nomination_value : ℕ
  pub entries : List StunEntry
  pub checking_start_time : ℕ
  pub relay_only_mode : Bool
  pub last_app_data_at : ℕ
  pub pac_deadline : ℕ
  pub emitted : List IceState
  pub gathering_done : Bool
  pub gather_started : ℕ
  pub pending_reflexive : ℤ
  pub pending_relay : ℤ

abbrev pub max_candidates : ℕ
max_candidates = 30

abbrev pub max_candidate_pairs : ℕ
max_candidate_pairs = 90

abbrev pub max_stun_entries : ℕ
max_stun_entries = 92

unfoldable pub is_controlling : AgentMode → Bool
is_controlling unknown = false
is_controlling controlling = true
is_controlling controlled = false

unfoldable pub is_controlled : AgentMode → Bool
is_controlled unknown = false
is_controlled controlling = false
is_controlled controlled = true

unfoldable pub is_frozen : PairState → Bool
is_frozen frozen = true
is_frozen pending = false
is_frozen succeeded = false
is_frozen failed = false

unfoldable pub is_succeeded : PairState → Bool
is_succeeded frozen = false
is_succeeded pending = false
is_succeeded succeeded = true
is_succeeded failed = false

unfoldable pub is_failed : PairState → Bool
is_failed frozen = false
is_failed pending = false
is_failed succeeded = false
is_failed failed = true

unfoldable pub is_check : StunEntryType → Bool
is_check empty = false
is_check server = false
is_check relay = false
is_check check = true

unfoldable pub is_pending : StunEntryState → Bool
is_pending pending = true
is_pending cancelled = false
is_pending failed = false
is_pending succeeded = false
is_pending succeeded_keepalive = false
is_pending idle = false
