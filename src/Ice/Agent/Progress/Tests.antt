-- ===== src/Ice/Agent/Progress/Tests.antt =====
-- The theorems on the state of an agent at three agents.
use stice.Base.{
  ℕ, ◌+◌, ◌≤◌, ◌≡◌, ◌≢◌, refl, true, false, ◌&&◌, none, some, [], ◌∷◌, is_empty, All, ltb,
  if◌then◌else◌, ◌⊎◌,
}
use stice.Ice.Agent.{
  IceState, connecting, PairState, rfc8445, CandidatePair, Agent, is_succeeded, is_failed,
}
use stice.Ice.Agent.Schedule.{test_pair, pair_is_tcp_relay}
use stice.Ice.Agent.Progress.{
  update_state, is_sticky, all_failed, follow, without_pair, choose, fail_now, state_code,
}
use stice.Ice.Agent.Progress.Laws.{IsChosen, update_state-IsChosen}
use stice.Ice.Agent.Progress.Transitions
use stice.Ice.Agent.Progress.Transitions.{update_state-Reach}
use stice.Ice.Agent.Progress.Failure.{update_state-failed}
use stice.Ice.Agent.Progress.Patience.{IsStranded, update_state-patience}
use stice.Ice.Agent.Sample.{agent, locals, remotes, pair}

abbrev checked : Agent
checked =
    agent connecting locals remotes
      (pair PairState.succeeded 0 10 ∷ pair PairState.failed 1 20 ∷ [])

update_state-IsChosen_example :
    ((k : ℕ) × (p : CandidatePair) × ((update_state checked 1000).selected_pair ≡ some k)
      × IsChosen checked.pairs
          (is_sticky rfc8445 && test_pair checked.pairs none pair_is_tcp_relay)
          k
          p)
    ⊎ (All (λ (q : CandidatePair). is_succeeded q.state ≡ false) checked.pairs
        × ((update_state checked 1000).selected_pair ≡ none))
update_state-IsChosen_example = update_state-IsChosen checked 1000

update_state-Reach_example :
    Transitions.Reach connecting []
      (update_state checked 1000).state
      (update_state checked 1000).emitted
update_state-Reach_example = update_state-Reach checked 1000

-- All pairs have failed, and the time of patience ran out at 2000.
abbrev late : Agent
late = record (agent connecting locals remotes (pair PairState.failed 0 10 ∷ [])) {
  pac_deadline = 2000;
}

late_fails : (update_state late 2000).state ≡ IceState.failed
unfolding update_state follow choose is_succeeded without_pair all_failed is_failed state_code
    fail_now
late_fails = refl

update_state-failed_example :
    (all_failed late.pairs ≡ true)
    × (is_empty late.pairs ≡ false)
    × ((late.state ≢ connecting) ⊎ ((late.pac_deadline ≢ 0) × (late.pac_deadline ≤ 2000)))
update_state-failed_example = update_state-failed late 2000 late_fails (λ h. cc)

abbrev stranded : Agent
stranded = agent connecting locals remotes (pair PairState.failed 0 10 ∷ [])

stranded_failed : all_failed stranded.pairs ≡ true
unfolding all_failed is_failed
stranded_failed = refl

stranded-IsStranded : IsStranded stranded
stranded-IsStranded = record { state = refl; exhausted = stranded_failed; pairs = refl }

update_state-patience_example :
    ((update_state stranded 1000).state ≡ connecting)
    × ((update_state (update_state stranded 1000) 5000).state
        ≡ (if ltb 5000 (1000 + 39500) then connecting else IceState.failed))
update_state-patience_example = update_state-patience stranded 1000 5000 stranded-IsStranded refl
