-- ===== src/Ice/Agent/Progress/Failure.antt =====
-- When `updateState` fails the agent.
use stice.Base.{
  ℕ, ◌≤◌, ◌≡◌, ◌≢◌, refl, sym, ◌∙◌, arith, true, false, Option, none, some, is_empty, ◌==◌,
  Bool-cases, inl, inr, ◌⊎◌,
}
use stice.Ice.Agent.{IceState, connecting, CandidatePair, Agent}
use stice.Ice.Agent.Progress.{
  state_code, start_checking, change_state, choose, select_best, all_failed, without_pair, follow,
  update_state,
}
use stice.Ice.Agent.Progress.Transitions.{Waited, waits, fails, without_pair-Waited, is_connecting}

select_best_never_fails :
    (a : Agent) (k : ℕ) (p : CandidatePair) (now : ℕ)
    → (select_best a k p now).state ≡ IceState.failed
    → a.state ≡ IceState.failed
unfolding select_best change_state start_checking
select_best_never_fails a k p now h = ground arith

connecting_code : (s : IceState) → s ≡ connecting → (state_code s == 2) ≡ true
unfolding state_code
connecting_code s h = rw h refl

-- `updateState` fails the agent only if there are pairs and all have failed, and while connecting
-- only once the time of patience, which must have been started before, is over.
pub update_state-failed :
    (a : Agent) (now : ℕ)
    → (update_state a now).state ≡ IceState.failed
    → a.state ≢ IceState.failed
    → (all_failed a.pairs ≡ true)
      × (is_empty a.pairs ≡ false)
      × ((a.state ≢ connecting) ⊎ ((a.pac_deadline ≢ 0) × (a.pac_deadline ≤ now)))
unfolding update_state follow
update_state-failed a now h alive = go (choose a) h
  where
    either :
        (a.state ≡ connecting → (a.pac_deadline ≢ 0) × (a.pac_deadline ≤ now))
        → (a.state ≢ connecting) ⊎ ((a.pac_deadline ≢ 0) × (a.pac_deadline ≤ now))
    either patience = elim (Bool-cases (state_code a.state == 2)) [
      | inl e ↦ inr (patience (is_connecting a.state e))
      | inr e ↦ inl (λ s. absurd (cc (e, connecting_code a.state s)))
    ]

    waited :
        (b : Agent)
        → Waited a now b
        → b.state ≡ IceState.failed
        → (all_failed a.pairs ≡ true)
          × (is_empty a.pairs ≡ false)
          × ((a.state ≢ connecting) ⊎ ((a.pac_deadline ≢ 0) × (a.pac_deadline ≤ now)))
    waited b (waits s l) h = absurd (alive (sym s ∙ h))
    waited b (fails c s l e all some_pair patience) h = (all, some_pair, either patience)

    go :
        (o : Option (ℕ × CandidatePair))
        → (follow a now o).state ≡ IceState.failed
        → (all_failed a.pairs ≡ true)
          × (is_empty a.pairs ≡ false)
          × ((a.state ≢ connecting) ⊎ ((a.pac_deadline ≢ 0) × (a.pac_deadline ≤ now)))
    go none h = waited (without_pair a now) (without_pair-Waited a now) h
    go (some (k, p)) h = absurd (alive (select_best_never_fails a k p now h))
