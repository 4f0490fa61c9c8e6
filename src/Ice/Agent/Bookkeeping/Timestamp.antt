-- ===== src/Ice/Agent/Bookkeeping/Timestamp.antt =====
-- `Agent::nextTimestampMs`. `others` are the deadlines of TCP connects in progress and of the retries
-- of RFC 6062 connections.
use stice.Base.{
  ℕ, ◌+◌, max, Bool, not, ◌&&◌, ◌||◌, Option, none, some, List, [], ◌∷◌, get_elem?, ltb, ◌==◌,
  if◌then◌else◌,
}
use stice.Ice.Agent.{CandidatePair, StunEntry, Agent, is_controlling, is_pending}
use stice.Ice.Agent.Responses.{is_idle}
use stice.Ice.Agent.Bookkeeping.{is_relay, is_keepalive, acceptance_min_wait}

abbrev pub gather_timeout_ms : ℕ
gather_timeout_ms = 15000

unfoldable pub sooner : ℕ → Option ℕ → Option ℕ
sooner t none = some t
sooner t (some u) = if ltb t u then some t else some u

unfoldable pub is_timed : StunEntry → Bool
is_timed e = is_pending e.state || (is_keepalive e.state || (is_relay e.type && is_idle e.state))

unfoldable pub next_entry : List StunEntry → Option ℕ → Option ℕ
unfolding sooner is_timed
next_entry [] t = t
next_entry (e ∷ rest) t = next_entry rest (if is_timed e then sooner e.next_transmission t else t)

unfoldable pub next_pair : Agent → Option CandidatePair → Option ℕ → Option ℕ
unfolding sooner
next_pair a none t = t
next_pair a (some p) t =
    if is_controlling a.mode && (not p.nominated && not p.nomination_requested)
    then sooner
        (a.checking_start_time
          + max (acceptance_min_wait a p.local_candidate.type)
              (acceptance_min_wait a p.remote_candidate.type))
        t
    else t

abbrev pub selected : Agent → Option CandidatePair
selected a = elim a.selected_pair [ none ↦ none | some k ↦ get_elem? a.pairs k ]

unfoldable pub next_of : List ℕ → Option ℕ → Option ℕ
unfolding sooner
next_of [] t = t
next_of (d ∷ rest) t = next_of rest (sooner d t)

unfoldable pub next_gathering : Agent → Option ℕ → Option ℕ
unfolding sooner
next_gathering a t =
    if not a.gathering_done && not (a.gather_started == 0)
    then sooner (a.gather_started + gather_timeout_ms) t
    else t

unfoldable pub next_patience : Agent → Option ℕ → Option ℕ
unfolding sooner
next_patience a t = if not (a.pac_deadline == 0) then sooner a.pac_deadline t else t

unfoldable pub next_timestamp : Agent → List ℕ → ℕ
unfolding next_entry next_pair next_of next_gathering next_patience
next_timestamp a others =
    let t =
      next_patience a (
        next_gathering a (next_of others (next_pair a (selected a) (next_entry a.entries none)))) in
    elim t [ none ↦ 0 | some u ↦ u ]
