-- ===== src/Ice/Agent/Progress/Patience.antt =====
-- How long `updateState` waits for a pair: RFC 8863.
use stice.Base.{
  ℕ, suc, ◌+◌, ◌≤◌, ◌<◌, ◌≡◌, ◌≢◌, refl, ap, sym, ◌∙◌, subst, arith, Bool, true, false, none, List,
  [], ◌∷◌, is_empty, ltb, ge→ltb, lt→ltb, ltb→lt, ltb→ge, ◌==◌, ==_ne, if◌then◌else◌, Bool-cases,
  inl, inr,
}
use stice.Ice.Agent.{
  IceState, connecting, PairState, frozen, pending, succeeded, CandidatePair, Agent, is_succeeded,
  is_failed,
}
use stice.Ice.Agent.Progress.{
  state_code, start_checking, change_state, best_pair, succeeded_tcp, succeeded_udp, prefer, choose,
  all_failed, fail_now, without_pair, follow, update_state,
}

failed_not_succeeded : (s : PairState) → is_failed s ≡ true → is_succeeded s ≡ false
unfolding is_failed is_succeeded
failed_not_succeeded frozen h = refl
failed_not_succeeded pending h = refl
failed_not_succeeded succeeded h = cc
failed_not_succeeded PairState.failed h = refl

none_best :
    (test : CandidatePair → Bool) (pairs : List CandidatePair) (k : ℕ)
    → ((p : CandidatePair) → is_succeeded p.state ≡ false → test p ≡ false)
    → all_failed pairs ≡ true
    → best_pair test pairs k none ≡ none
unfolding best_pair all_failed
none_best test [] k stop h = refl
none_best test (p ∷ pairs) k stop h = elim (Bool-cases (is_failed p.state)) [
  | inl e ↦
      rw (stop p (failed_not_succeeded p.state e)) (none_best test pairs (suc k) stop (rw e at h))
  | inr e ↦ absurd (cc (rw e at h))
]

all_failed-choose : (a : Agent) → all_failed a.pairs ≡ true → choose a ≡ none
unfolding choose succeeded_tcp succeeded_udp prefer
all_failed-choose a h =
    rw
      (
        none_best succeeded_tcp a.pairs 0 (λ p e. rw e refl) h,
        none_best succeeded_udp a.pairs 0 (λ p e. rw e refl) h,
      )
      refl

-- An agent that is connecting, has pairs, and of these all have failed.
pub record IsStranded (a : Agent) : Type 0 where
  pub state : a.state ≡ connecting
  pub exhausted : all_failed a.pairs ≡ true
  pub pairs : is_empty a.pairs ≡ false

stranded : (a : Agent) (now : ℕ) → IsStranded a → update_state a now ≡ without_pair a now
unfolding update_state follow
stranded a now s = rw (all_failed-choose a s.exhausted) refl

code : (a : Agent) → IsStranded a → state_code a.state ≡ 2
unfolding state_code
code a s = rw s.state refl

starts :
    (a : Agent) (now : ℕ)
    → IsStranded a
    → a.pac_deadline ≡ 0
    → without_pair a now ≡ record a { pac_deadline = now + 39500 }
unfolding without_pair
starts a now s fresh = rw (s.exhausted, s.pairs, code a s, ap (λ (n : ℕ). n == 0) fresh) refl

waits :
    (a : Agent) (now : ℕ)
    → IsStranded a
    → a.pac_deadline ≢ 0
    → now < a.pac_deadline
    → without_pair a now ≡ a
unfolding without_pair
waits a now s some_time early =
    rw
      (
        s.exhausted,
        s.pairs,
        code a s,
        ==_ne a.pac_deadline 0 some_time,
        lt→ltb now a.pac_deadline early,
      )
      refl

gives_up :
    (a : Agent) (now : ℕ)
    → IsStranded a
    → a.pac_deadline ≢ 0
    → a.pac_deadline ≤ now
    → (without_pair a now).state ≡ IceState.failed
unfolding without_pair fail_now change_state start_checking state_code
gives_up a now s some_time late =
    rw
      (
        s.exhausted,
        s.pairs,
        s.state,
        ==_ne a.pac_deadline 0 some_time,
        ge→ltb now a.pac_deadline late,
      )
      refl

-- An agent whose pairs have all failed while it is connecting stays connecting until 39.5 seconds
-- after the first call of `updateState` that saw it, and any call from then on makes it fail.
pub update_state-patience :
    (a : Agent) (now later : ℕ)
    → IsStranded a
    → a.pac_deadline ≡ 0
    → ((update_state a now).state ≡ connecting)
      × ((update_state (update_state a now) later).state
          ≡ (if ltb later (now + 39500) then connecting else IceState.failed))
update_state-patience a now later s fresh =
    let b : Agent = record a { pac_deadline = now + 39500 } in
    let t : IsStranded b = record { state = s.state; exhausted = s.exhausted; pairs = s.pairs } in
    let first : update_state a now ≡ b = stranded a now s ∙ starts a now s fresh in
    let set : b.pac_deadline ≢ 0 = λ e. omega (arith, e) in
    subst
      (λ (c : Agent).
        (c.state ≡ connecting)
        × ((update_state c later).state
            ≡ (if ltb later (now + 39500) then connecting else IceState.failed)))
      (sym first)
      (
        s.state,
        elim (Bool-cases (ltb later (now + 39500))) [
          | inl e ↦ rw e (
              ap (λ (c : Agent). c.state)
                (stranded b later t ∙ waits b later t set (ltb→lt later (now + 39500) e))
              ∙ s.state)
          | inr e ↦ rw e (
              ap (λ (c : Agent). c.state) (stranded b later t)
              ∙ gives_up b later t set (ltb→ge later (now + 39500) e))
        ],
      )
