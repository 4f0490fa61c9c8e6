-- ===== src/Ice/Agent/Pairs.antt =====
-- `Agent::formPairs`, `updateOrderedPairs` and `findOrCreatePair`. What `formPairs` asks of the
-- TURN clients at its end is not part of the state here. `getnameinfo` is a parameter: host and
-- service of an address.
pub mod Laws
pub mod Form
pub mod Allowed
pub mod Learn
use stice.Base.{
  ℕ, zero, suc, ◌+◌, Bool, true, false, not, ◌&&◌, Option, none, some, List, [], ◌∷◌, ◌++◌, length,
  get_elem?, find_from, ltb, leb, ◌==◌, if◌then◌else◌,
}
use stice.Base.Ints.{pos, same_int}
use stice.Net.Addr.{
  SockAddr, inet, inet6, other, AddrRecord, af_inet, af_inet6, addr_is_link_local, is_equal,
}
use stice.Ice.Candidate.{
  CandidateType, unknown, host, server_reflexive, peer_reflexive, relayed, CandidateTransport, udp,
  tcp_active, tcp_passive, tcp_simultaneous_open, Candidate, is_udp, compute_foundation,
}
use stice.Ice.CandidatePair.{updated_priority}
use stice.Ice.Agent.{
  AgentMode, PairState, CandidatePair, Agent, is_controlling, max_candidates, max_candidate_pairs,
}

unfoldable pub ss_family : SockAddr → ℕ
ss_family (inet ip port) = af_inet
ss_family (inet6 ip port flow scope) = af_inet6
ss_family (other family) = family

unfoldable pub is_active : CandidateTransport → Bool
is_active udp = false
is_active tcp_active = true
is_active tcp_passive = false
is_active tcp_simultaneous_open = false

unfoldable pub is_passive : CandidateTransport → Bool
is_passive udp = false
is_passive tcp_active = false
is_passive tcp_passive = true
is_passive tcp_simultaneous_open = false

unfoldable pub is_relayed : CandidateType → Bool
is_relayed unknown = false
is_relayed host = false
is_relayed server_reflexive = false
is_relayed peer_reflexive = false
is_relayed relayed = true

abbrev pub same_bool : Bool → Bool → Bool
same_bool true b = b
same_bool false b = not b

-- The two transports, of one class: the test of RFC 6544.
unfoldable pub transports_pair : Candidate → Candidate → Bool
transports_pair l r =
    let local_is_tcp = not (is_udp l.transport) in
    let remote_is_tcp = not (is_udp r.transport) in
    if not (same_bool local_is_tcp remote_is_tcp)
    then false
    else if not (local_is_tcp && remote_is_tcp)
    then true
    else if is_active l.transport && is_active r.transport
    then false
    else if is_passive l.transport
        && is_passive r.transport
        && not (is_relayed l.type && is_relayed r.type)
    then false
    else true

-- The tests of `formPairs` that skip a remote candidate.
unfoldable pub can_pair : Candidate → Candidate → Bool
can_pair l r =
    if not (same_int l.component r.component)
    then false
    else if not (ss_family l.resolved.addr == ss_family r.resolved.addr)
    then false
    else if addr_is_link_local (some r.resolved.addr)
    then false
    else transports_pair l r

-- The index of the pair of two candidates, from k on.
unfoldable pub find_pair : List CandidatePair → ℕ → ℕ → ℕ → Option ℕ
find_pair [] i j k = none
find_pair (p ∷ rest) i j k =
    let more = find_pair rest i j (suc k) in
    if (p.local_index == i) && (p.remote_index == j) then some k else more

unfoldable pub is_some {ℓ} : {A : Type ℓ} → Option A → Bool
is_some none = false
is_some (some x) = true

abbrev pub make_pair : AgentMode → ℕ → Candidate → ℕ → Candidate → CandidatePair
make_pair mode i l j r = record {
  local_index = i;
  remote_index = j;
  local_candidate = l;
  remote_candidate = r;
  priority = updated_priority (some l.priority) (some r.priority) (is_controlling mode);
  state = PairState.frozen;
  nominated = false;
  nomination_requested = false;
  nomination_value = 0;
  consent_expiry = 0;
}

-- The loop over the remote candidates, from index j; a full list ends it.
unfoldable pub form_remote :
    AgentMode → ℕ → Candidate → List CandidatePair → List Candidate → ℕ → List CandidatePair
form_remote mode i l pairs [] j = pairs
form_remote mode i l pairs (r ∷ rest) j =
    let skipped = form_remote mode i l pairs rest (suc j) in
    let added = form_remote mode i l (pairs ++ (make_pair mode i l j r ∷ [])) rest (suc j) in
    if not (can_pair l r)
    then skipped
    else if is_some (find_pair pairs i j 0)
    then skipped
    else if leb max_candidate_pairs (length pairs)
    then pairs
    else added

unfoldable pub form_local :
    AgentMode → List CandidatePair → List Candidate → ℕ → List Candidate → List CandidatePair
form_local mode pairs [] i remotes = pairs
form_local mode pairs (l ∷ rest) i remotes =
    form_local mode (form_remote mode i l pairs remotes 0) rest (suc i) remotes

unfoldable pub priority_at : List CandidatePair → ℕ → ℕ
priority_at pairs i = elim (get_elem? pairs i) [ none ↦ 0 | some p ↦ p.priority ]

-- A stable sort by falling priority: an index goes behind those of the same priority.
unfoldable pub insert_pair : List CandidatePair → ℕ → List ℕ → List ℕ
insert_pair pairs i [] = i ∷ []
insert_pair pairs i (k ∷ rest) =
    let more = insert_pair pairs i rest in
    if ltb (priority_at pairs k) (priority_at pairs i) then i ∷ (k ∷ rest) else k ∷ more

unfoldable pub sort_pairs : List CandidatePair → ℕ → List ℕ
sort_pairs pairs zero = []
sort_pairs pairs (suc n) = insert_pair pairs n (sort_pairs pairs n)

unfoldable pub update_ordered_pairs : Agent → Agent
update_ordered_pairs a = record a { ordered_pairs = sort_pairs a.pairs (length a.pairs) }

-- `formPairs` up to its call of `updateOrderedPairs`.
unfoldable pub form_pairs : Agent → Agent
unfolding update_ordered_pairs
form_pairs a =
    update_ordered_pairs
      (record a { pairs = form_local a.mode a.pairs a.local_candidates 0 a.remote_candidates })

unfoldable pub is_remote : AddrRecord → Bool → Candidate → Bool
is_remote src tcp c = is_equal c.resolved src true && same_bool (not (is_udp c.transport)) tcp

unfoldable pub is_local : ℕ → Bool → Candidate → Bool
is_local family tcp c =
    (ss_family c.resolved.addr == family) && same_bool (not (is_udp c.transport)) tcp

-- With what the search for the pair has found.
unfoldable pub pair_found : Agent → ℕ → Candidate → ℕ → Candidate → Option ℕ → Agent × Option ℕ
unfolding update_ordered_pairs
pair_found a i l j r (some k) = (a, some k)
pair_found a i l j r none = if leb max_candidate_pairs (length a.pairs) then (a, none) else (
  update_ordered_pairs (record a { pairs = a.pairs ++ (make_pair a.mode i l j r ∷ []) }),
  some (length a.pairs),
)

-- The pair of the remote candidate and the local one, if there is one.
unfoldable pub pair_for : Agent → ℕ × Candidate → Option (ℕ × Candidate) → Agent × Option ℕ
unfolding pair_found
pair_for a (j, r) none = (a, none)
pair_for a (j, r) (some (i, l)) = pair_found a i l j r (find_pair a.pairs i j 0)

unfoldable pub pair_learned :
    Agent → CandidateTransport → Option (Agent × (ℕ × Candidate)) → Agent × Option ℕ
unfolding pair_for
pair_learned a transport none = (a, none)
pair_learned a transport (some (b, remote)) = pair_for b remote (
    find_from (is_local (ss_family remote.1.resolved.addr) (not (is_udp transport)))
      b.local_candidates 0)

module _ (getnameinfo : SockAddr → List ℕ × List ℕ) where
  unfoldable pub reflexive_candidate : AddrRecord → ℕ → CandidateTransport → Candidate
  reflexive_candidate src priority transport =
      let name = getnameinfo src.addr in
      record {
        type = peer_reflexive;
        transport = transport;
        priority = priority;
        component = pos 1;
        foundation = compute_foundation peer_reflexive name.0 transport;
        hostname = name.0;
        service = name.1;
        resolved = src;
        related = none;
      }

  -- The remote candidate that stands for `src`, where need be a new one.
  unfoldable pub learn_remote :
      Agent
      → AddrRecord
      → ℕ
      → CandidateTransport
      → Option (ℕ × Candidate)
      → Option (Agent × (ℕ × Candidate))
  learn_remote a src priority transport (some found) = some (a, found)
  learn_remote a src priority transport none =
      if leb max_candidates (length a.remote_candidates)
      then none
      else some (
        record a {
          remote_candidates =
              a.remote_candidates ++ (reflexive_candidate src priority transport ∷ []);
        },
        (length a.remote_candidates, reflexive_candidate src priority transport),
      )

  unfoldable pub find_or_create_pair :
      Agent → AddrRecord → ℕ → CandidateTransport → Agent × Option ℕ
  unfolding pair_learned learn_remote
  find_or_create_pair a src priority transport =
      if addr_is_link_local (some src.addr)
      then (a, none)
      else pair_learned a transport (
          learn_remote a src priority transport
            (find_from (is_remote src (not (is_udp transport))) a.remote_candidates 0))
