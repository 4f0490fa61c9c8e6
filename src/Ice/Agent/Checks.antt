-- ===== src/Ice/Agent/Checks.antt =====
-- `Agent::sendStunBinding` for requests, up to the route that the bytes take: the connectivity check
-- of an entry. `offset` is the TCP offset of priorities; the random transaction id is an argument.
pub mod Draft
pub mod Build
pub mod Accepted
pub mod Roles
mod Tests
use stice.Base.{
  ℕ, ◌+◌, Bool, true, false, not, ◌&&◌, Option, none, some, List, [], ◌∷◌, ◌++◌, get_elem?, ltb,
  if◌then◌else◌,
}
use stice.Base.Ints.{pos}
use stice.Stun.Message.{Message, Attribute, encode, username_type}
use stice.Stun.Attributes.{
  add_string, add_priority, add_ice_controlling, add_ice_controlled, add_use_candidate,
  add_nomination, add_tcp_type,
}
use stice.Ice.Candidate.{
  CandidateTransport, udp, tcp_active, tcp_passive, tcp_simultaneous_open, peer_reflexive,
  compute_priority, is_udp,
}
use stice.Ice.Agent.{CandidatePair, StunEntry, Agent, is_controlling}
use stice.Ice.Agent.Pairs.{ss_family}

unfoldable pub with_priority : ℕ → Option CandidatePair → Message → Message
with_priority offset none m = m
with_priority offset (some p) m = add_priority m (
    compute_priority offset peer_reflexive (ss_family p.local_candidate.resolved.addr) (pos 1)
      (pos 0) udp)

unfoldable pub with_role : Agent → Message → Message
with_role a m =
    if is_controlling a.mode
    then add_ice_controlling m a.tiebreaker
    else add_ice_controlled m a.tiebreaker

unfoldable pub with_nomination : Agent → Option CandidatePair → Message → Message
with_nomination a none m = m
with_nomination a (some p) m =
    let named = add_use_candidate m in
    if is_controlling a.mode && (p.nomination_requested && not p.nominated)
    then if ltb 1 a.nomination_value then add_nomination named a.nomination_value else named
    else m

-- The values of TCP-TYPE.
unfoldable pub tcp_type_value : CandidateTransport → ℕ
tcp_type_value udp = 6
tcp_type_value tcp_active = 6
tcp_type_value tcp_passive = 5
tcp_type_value tcp_simultaneous_open = 2

unfoldable pub with_tcp_type : Option CandidatePair → Message → Message
unfolding tcp_type_value
with_tcp_type none m = m
with_tcp_type (some p) m =
    if not (is_udp p.local_candidate.transport)
    then add_tcp_type m (tcp_type_value p.local_candidate.transport)
    else m

unfoldable pub build_check : ℕ → Agent → Option CandidatePair → List ℕ → Message
unfolding with_priority with_role with_nomination with_tcp_type
build_check offset a pair tid =
    let m : Message = record {
      method = 1;
      cls = 0;
      transaction_id = tid;
      attributes = [];
      raw = [];
    } in
    let named = add_string m username_type (a.remote_ufrag ++ (b':' ∷ a.local_ufrag)) in
    with_tcp_type pair (with_nomination a pair (with_role a (with_priority offset pair named)))

-- The text "stice".
abbrev pub software : List ℕ
software = b's' ∷ b't' ∷ b'i' ∷ b'c' ∷ b'e' ∷ []

-- The entry after the call: a fresh transaction id if the last one has expired, and the role.
unfoldable pub sent_entry : Agent → List ℕ → StunEntry → StunEntry
sent_entry a fresh e = record e {
  transaction_id = if e.transaction_id_expired then fresh else e.transaction_id;
  transaction_id_expired = false;
  mode = a.mode;
}

abbrev pub pair_of : Agent → Option ℕ → Option CandidatePair
pair_of a none = none
pair_of a (some k) = get_elem? a.pairs k

-- The message with its bytes, and the entry after the call.
unfoldable pub send_check : ℕ → Agent → List ℕ → StunEntry → Message × StunEntry
unfolding build_check sent_entry
send_check offset a fresh e =
    let sent = sent_entry a fresh e in
    (
      encode (build_check offset a (pair_of a e.pair) sent.transaction_id) (some a.remote_pwd) none
          (some software),
      sent,
    )
