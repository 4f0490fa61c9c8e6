-- ===== src/Ice/Agent/Sample.antt =====
-- Two agents on one network, for the tests.
use stice.Base.{ℕ, ◌+◌, false, none, some, List, [], ◌∷◌}
use stice.Base.Ints.{pos}
use stice.Net.Addr.{SockAddr, inet, AddrRecord, inet_size}
use stice.Ice.Candidate.{Candidate, host, udp}
use stice.Ice.Agent.{
  controlling, IceState, connecting, PairState, StunEntryType, StunEntryState, limited_concurrent,
  regular, TcpRelayFallbackMode, rfc8445, IcePairingConfig, CandidatePair, StunEntry, Agent,
}

abbrev pub config : IcePairingConfig
config = record {
  schedule_mode = limited_concurrent;
  max_concurrent_check = 4;
  udp_phase_timeout = 0;
  nomination_mode = regular;
  tcp_nomination_precheck = 0;
  tcp_relay_fallback = TcpRelayFallbackMode.disable;
  reselect_policy = rfc8445;
  rto_initial = 500;
  max_check_retransmit = 6;
  keepalive_udp = 0;
  keepalive_tcp_relay = 0;
  early_phase_max_concurrent = 0;
  early_phase_duration = 0;
  udp_phase_start = 0;
  tcp_phase_entered = false;
  checking_start = 0;
  early_phase_active = false;
}

abbrev pub at : ℕ → ℕ → AddrRecord
at last port = record {
  addr = inet (192 ∷ 168 ∷ 1 ∷ last ∷ []) port;
  len = inet_size;
  socktype = 2;
}

abbrev pub candidate : ℕ → Candidate
candidate last = record {
  type = host;
  transport = udp;
  priority = 2130706431;
  component = pos 1;
  foundation = b'1' ∷ [];
  hostname = [];
  service = [];
  resolved = at last 5000;
  related = none;
}

-- The agent "ab", whose peer is "cd".
abbrev pub agent : IceState → List Candidate → List Candidate → List CandidatePair → Agent
agent state locals remotes pairs = record {
  state = state;
  mode = controlling;
  tiebreaker = 7;
  config = config;
  local_candidates = locals;
  local_ufrag = b'a' ∷ b'b' ∷ [];
  local_pwd = b'p' ∷ [];
  remote_candidates = remotes;
  remote_ufrag = b'c' ∷ b'd' ∷ [];
  remote_pwd = b'q' ∷ [];
  pairs = pairs;
  ordered_pairs = [];
  selected_pair = none;
  nominated_pair = none;
  nomination_value = 1;
  entries = [];
  checking_start_time = 0;
  relay_only_mode = false;
  last_app_data_at = 0;
  pac_deadline = 0;
  emitted = [];
  gathering_done = false;
  gather_started = 0;
  pending_reflexive = pos 0;
  pending_relay = pos 0;
}

abbrev pub locals : List Candidate
locals = candidate 2 ∷ []

abbrev pub remotes : List Candidate
remotes = candidate 3 ∷ candidate 4 ∷ []

abbrev pub pair : PairState → ℕ → ℕ → CandidatePair
pair state j priority = record {
  local_index = 0;
  remote_index = j;
  local_candidate = candidate 2;
  remote_candidate = candidate (3 + j);
  priority = priority;
  state = state;
  nominated = false;
  nomination_requested = false;
  nomination_value = 0;
  consent_expiry = 0;
}

abbrev pub fresh : Agent
fresh = agent connecting [] [] []

abbrev pub names : SockAddr → List ℕ × List ℕ
names address = ([], [])

abbrev pub no_relays : Agent → Agent
no_relays a = a

abbrev pub no_tick : ℕ → Agent → Agent
no_tick n a = a

abbrev pub no_ids : ℕ → List ℕ
no_ids n = []

abbrev pub no_random : ℕ → ℕ
no_random n = 0

abbrev pub entry : StunEntry
entry = record {
  type = StunEntryType.check;
  state = StunEntryState.pending;
  mode = controlling;
  pair = some 1;
  address = at 4 5000;
  transaction_id = 1 ∷ 2 ∷ 3 ∷ 4 ∷ 5 ∷ 6 ∷ 7 ∷ 8 ∷ 9 ∷ 10 ∷ 11 ∷ 12 ∷ [];
  next_transmission = 1000;
  retransmission_timeout = 500;
  retransmissions = 0;
  transaction_id_expired = false;
}

abbrev pub two_pairs : List CandidatePair
two_pairs = pair PairState.frozen 0 10 ∷ pair PairState.frozen 1 20 ∷ []

abbrev pub waiting : Agent
waiting = agent connecting locals remotes two_pairs
