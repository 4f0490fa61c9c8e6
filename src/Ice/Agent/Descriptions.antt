-- ===== src/Ice/Agent/Descriptions.antt =====
-- The candidates of the two sides: `Agent::addLocalCandidate` (its push), `addRemoteCandidate` (its
-- push) and the first part of `setRemoteDescription`, which takes over a parsed description.
use stice.Base.{
  ℕ, Bool, Option, none, some, is_empty, List, [], ◌∷◌, ◌++◌, length, leb, if◌then◌else◌,
}
use stice.Ice.Candidate.{Candidate}
use stice.Ice.Agent.{AgentMode, unknown, controlling, controlled, Agent, max_candidates}

pub record Description : Type 0 where
  pub ice_ufrag : List ℕ
  pub ice_pwd : List ℕ
  pub ice_lite : Bool
  pub candidates : List Candidate
  pub finished : Bool

unfoldable pub push_local : Agent → Candidate → Agent
push_local a c =
    if leb max_candidates (length a.local_candidates)
    then a
    else record a { local_candidates = a.local_candidates ++ (c ∷ []) }

unfoldable pub push_remote : Agent → Candidate → Agent
push_remote a c =
    if leb max_candidates (length a.remote_candidates)
    then a
    else record a { remote_candidates = a.remote_candidates ++ (c ∷ []) }

unfoldable pub or_controlled : AgentMode → AgentMode
or_controlled unknown = controlled
or_controlled controlling = controlling
or_controlled controlled = controlled

-- `remote_ = std::move(d)` and the mode: the old candidates are gone. A pair that there is already
-- keeps a pointer to one of them; `none` stands for that state, which has no meaning.
unfoldable pub take_description : Agent → Description → Option Agent
unfolding or_controlled
take_description a d =
    if is_empty a.pairs
    then some (record a {
      remote_ufrag = d.ice_ufrag;
      remote_pwd = d.ice_pwd;
      remote_candidates = d.candidates;
      mode = or_controlled a.mode;
    })
    else none
