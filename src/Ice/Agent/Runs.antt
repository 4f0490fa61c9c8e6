-- ===== src/Ice/Agent/Runs.antt =====
-- Runs of an agent, as sequences of its operations, and what all of them keep.
use stice.Base.{
  ℕ, ◌≡◌, refl, ◌⊎◌, inl, inr, Bool, true, false, if◌then◌else◌, some, List, [], ◌∷◌, ◌++◌, length,
  All, get_elem?, get_elem?-append, arith, append-nil, leb, if_cases, is_empty, Bool-cases, subst,
}
use stice.Net.Addr.{SockAddr, AddrRecord}
use stice.Stun.Message.{Message}
use stice.Ice.Candidate.{Candidate, CandidateTransport}
use stice.Ice.Agent.{
  IceState, disconnected, gathering, connecting, connected, completed, CandidatePair, StunEntry,
  Agent, max_candidates,
}
use stice.Ice.Agent.Pairs.{form_pairs}
use stice.Ice.Agent.Pairs.Laws.{IsPairOf, IsDistinct}
use stice.Ice.Agent.Schedule.{arm_next_frozen_pair}
use stice.Ice.Agent.Progress.{update_state, state_code}
use stice.Ice.Agent.Requests.{handle_binding_request}
use stice.Ice.Agent.Responses.{handle_binding_response}
use stice.Ice.Agent.Descriptions.{Description, push_local, push_remote, take_description}
use stice.Ice.Agent.Gathering.{sort_candidates, is_checking, add_local_candidate}
use stice.Ice.Agent.Bookkeeping.{on_bookkeeping}
use stice.Ice.Agent.Bookkeeping.Laws.{form_and_arm-IsSound, on_bookkeeping-IsSound}
use stice.Ice.Agent.Soundness.{IsSound, form_pairs-IsSound, update_state-IsSound, arm_next-IsSound}
use stice.Ice.Agent.Soundness.Requests.{handle_binding_request-IsSound}
use stice.Ice.Agent.Soundness.Responses.{handle_binding_response-IsSound}

module _ (getnameinfo : SockAddr → List ℕ × List ℕ) (relays : Agent → Agent)
    (tick : ℕ → Agent → Agent) where
  -- One operation, whatever its input: a new local candidate while checks run or before there are
  -- pairs, a new remote one, a remote description before there are pairs, the forming of pairs, a
  -- request, a response for an entry, the arming of checks, an update of the state, or the bookkeeping.
  pub data Step : Agent → Agent → Type 0 where
    local_candidate :
        (a : Agent) (c : Candidate) (now : ℕ)
        → (is_checking a.state ≡ true) ⊎ (a.pairs ≡ [])
        → Step a (add_local_candidate relays a c now)
    description : (a b : Agent) (d : Description) → take_description a d ≡ some b → Step a b
    remote_candidate : (a : Agent) (c : Candidate) → Step a (push_remote a c)
    pairs : (a : Agent) → Step a (form_pairs a)
    request :
        (a : Agent) (msg : Message) (src : AddrRecord) (transport : CandidateTransport) (now : ℕ)
        → Step a (handle_binding_request getnameinfo a msg src transport now).0
    response :
        (a : Agent) (msg : Message) (src : AddrRecord) (n : ℕ) (e : StunEntry) (now random : ℕ)
        → get_elem? a.entries n ≡ some e
        → Step a (handle_binding_response relays a msg src n e now random)
    arming : (a : Agent) (now : ℕ) → Step a (arm_next_frozen_pair relays a now)
    update : (a : Agent) (now : ℕ) → Step a (update_state a now)
    bookkeeping :
        (a : Agent) (bound : Bool) (now : ℕ) (fresh : ℕ → List ℕ) (random : ℕ → ℕ)
        → Step a (on_bookkeeping relays tick bound a now fresh random)

  pub data Reach (s : Agent) : Agent → Type 0 where
    here : Reach s s
    next : {t u : Agent} → Reach s t → Step t u → Reach s u

All-weaken {ℓ κ λ'} :
    {A : Type ℓ} {P : A → Type κ} {Q : A → Type λ'} (xs : List A)
    → ((x : A) → P x → Q x)
    → All P xs
    → All Q xs
All-weaken [] f p = tt
All-weaken (x ∷ xs) f p = (f x p.0, All-weaken xs f p.1)

more_candidates :
    (locals remotes more_locals more_remotes : List Candidate) (p : CandidatePair)
    → IsPairOf locals remotes p
    → IsPairOf (locals ++ more_locals) (remotes ++ more_remotes) p
more_candidates locals remotes more_locals more_remotes p h = record {
  local_there = get_elem?-append locals more_locals p.local_index _ h.local_there;
  remote_there = get_elem?-append remotes more_remotes p.remote_index _ h.remote_there;
  family = h.family;
  transports = h.transports;
  routable = h.routable;
}

some_eq {ℓ} : {A : Type ℓ} {x y : A} → some x ≡ some y → x ≡ y
some_eq h = cc

push_local-IsSound : (a : Agent) (c : Candidate) → IsSound a → IsSound (push_local a c)
unfolding push_local
push_local-IsSound a c s =
    if_cases IsSound (leb max_candidates (length a.local_candidates)) _ _ s (record {
      check_list = record {
        paired =
            All-weaken a.pairs
              (λ p h.
                rw⁻¹ (append-nil a.remote_candidates)
                  (more_candidates a.local_candidates a.remote_candidates (c ∷ []) [] p h))
              s.check_list.paired;
        distinct = s.check_list.distinct;
        bounded = s.check_list.bounded;
      };
      checks = s.checks;
    })

push_remote-IsSound : (a : Agent) (c : Candidate) → IsSound a → IsSound (push_remote a c)
unfolding push_remote
push_remote-IsSound a c s =
    if_cases IsSound (leb max_candidates (length a.remote_candidates)) _ _ s (record {
      check_list = record {
        paired =
            All-weaken a.pairs
              (λ p h.
                rw⁻¹ (append-nil a.local_candidates)
                  (more_candidates a.local_candidates a.remote_candidates [] (c ∷ []) p h))
              s.check_list.paired;
        distinct = s.check_list.distinct;
        bounded = s.check_list.bounded;
      };
      checks = s.checks;
    })

-- With no pairs any candidates will do.
unpaired-IsSound :
    (a : Agent) (b : Agent)
    → a.pairs ≡ []
    → b.pairs ≡ a.pairs
    → b.entries ≡ a.entries
    → IsSound a
    → IsSound b
unfolding IsDistinct
unpaired-IsSound a b none_yet same entries s = record {
  check_list = record {
    paired = rw (same, none_yet) tt;
    distinct = rw (same, none_yet) tt;
    bounded = rw (same, none_yet) (omega arith);
  };
  checks = rw entries s.checks;
}

no_pairs : (pairs : List CandidatePair) → is_empty pairs ≡ true → pairs ≡ []
no_pairs [] h = refl
no_pairs (p ∷ rest) h = cc

take_description-IsSound :
    (a b : Agent) (d : Description) → take_description a d ≡ some b → IsSound a → IsSound b
unfolding take_description
take_description-IsSound a b d h s = elim (Bool-cases (is_empty a.pairs)) [
  | inr e ↦ absurd (cc (rw e at h))
  | inl e ↦
      subst IsSound (some_eq (rw e at h)) (unpaired-IsSound a _ (no_pairs a.pairs e) refl refl s)
]

push_local-same :
    (a : Agent) (c : Candidate)
    → ((push_local a c).pairs ≡ a.pairs) × ((push_local a c).entries ≡ a.entries)
unfolding push_local
push_local-same a c =
    if_cases (λ (b : Agent). (b.pairs ≡ a.pairs) × (b.entries ≡ a.entries))
      (leb max_candidates (length a.local_candidates)) _ _ (refl, refl) (refl, refl)

early_only : (t : IceState) → is_checking t ≡ true → leb (state_code t) 1 ≡ false
unfolding is_checking state_code
early_only disconnected h = cc
early_only gathering h = cc
early_only connecting h = refl
early_only connected h = refl
early_only completed h = refl
early_only IceState.failed h = cc

module _ (getnameinfo : SockAddr → List ℕ × List ℕ) (relays : Agent → Agent)
    (tick : ℕ → Agent → Agent) (sound : (a : Agent) → IsSound a → IsSound (relays a))
    (ticks : (n : ℕ) (a : Agent) → IsSound a → IsSound (tick n a)) where
  add_local_candidate-IsSound :
      (a : Agent) (c : Candidate) (now : ℕ)
      → (is_checking a.state ≡ true) ⊎ (a.pairs ≡ [])
      → IsSound a
      → IsSound (add_local_candidate relays a c now)
  unfolding add_local_candidate
  add_local_candidate-IsSound a c now h s =
      if_cases IsSound (leb max_candidates (length a.local_candidates)) _ _ s (
        if_cases IsSound (is_checking a.state) _ _
          (form_and_arm-IsSound relays sound _ now (pushed h)) (pushed h))
    where
      b : Agent
      b = push_local a c

      sorted : Agent
      sorted = record b { local_candidates = sort_candidates b.local_candidates }

      pushed :
          (is_checking a.state ≡ true) ⊎ (a.pairs ≡ [])
          → IsSound (if leb (state_code a.state) 1 then sorted else b)
      pushed (inl e) = rw (early_only a.state e) (push_local-IsSound a c s)
      pushed (inr e) =
          if_cases IsSound (leb (state_code a.state) 1) sorted b
            (unpaired-IsSound a sorted e (push_local-same a c).0 (push_local-same a c).1 s)
            (push_local-IsSound a c s)

  Step-IsSound : {a b : Agent} → Step getnameinfo relays tick a b → IsSound a → IsSound b
  Step-IsSound (local_candidate a c now h) s = add_local_candidate-IsSound a c now h s
  Step-IsSound (description a b d h) s = take_description-IsSound a b d h s
  Step-IsSound (bookkeeping a bound now fresh random) s =
      on_bookkeeping-IsSound relays sound tick bound ticks a now fresh random s
  Step-IsSound (remote_candidate a c) s = push_remote-IsSound a c s
  Step-IsSound (pairs a) s = form_pairs-IsSound a s
  Step-IsSound (request a msg src transport now) s =
      handle_binding_request-IsSound getnameinfo a msg src transport now s
  Step-IsSound (response a msg src n e now random there) s =
      handle_binding_response-IsSound relays sound a msg src n e now random s
  Step-IsSound (arming a now) s = arm_next-IsSound relays sound a now s
  Step-IsSound (update a now) s = update_state-IsSound a now s

  -- Whatever requests and responses arrive, and in whatever order the operations run, every pair of an
  -- agent has its two candidates in the agent's lists, of one address family, both UDP or both TCP, and
  -- a remote one that is not link-local; no two pairs have the same candidates; there are at most 90
  -- pairs, and at most 92 entries. New local candidates come while checks run or before there are pairs, remote descriptions
  -- before there are pairs, and what the TURN clients do on the way keeps this too.
  pub Reach-IsSound : {a b : Agent} → Reach getnameinfo relays tick a b → IsSound a → IsSound b
  Reach-IsSound here s = s
  Reach-IsSound (next r step) s = Step-IsSound step (Reach-IsSound r s)
