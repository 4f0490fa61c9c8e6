-- ===== src/Ice/Agent/Progress/Transitions.antt =====
-- The state machine of `updateState`: its steps, and the states it passes through.
use stice.Base.{
  ℕ, ◌≤◌, ◌≡◌, ◌≢◌, refl, sym, subst, arith, true, false, Option, none, some, List, ◌∷◌, is_empty,
  ltb, ltb→ge, ◌==◌, Bool-cases, if_cases, inl, inr,
}
use stice.Ice.Agent.{
  IceState, disconnected, gathering, connecting, connected, completed, CandidatePair, Agent,
}
use stice.Ice.Agent.Progress.{
  state_code, start_checking, change_state, choose, select_best, all_failed, fail_now, without_pair,
  follow, update_state,
}

-- The steps of the state machine.
pub data Step : IceState → IceState → Type 0 where
  connect : Step connecting connected
  complete : Step connected completed
  fail_checking : Step connecting IceState.failed
  fail_connected : Step connected IceState.failed
  fail_completed : Step completed IceState.failed

-- What is reached from a state, with the states that the application is told of, the last first.
pub data Reach (s : IceState) (log : List IceState) : IceState → List IceState → Type 0 where
  here : Reach s log s log
  next :
      {t u : IceState} {told : List IceState}
      → Reach s log t told
      → Step t u
      → Reach s log u (u ∷ told)

Step-code : {s t : IceState} → Step s t → (state_code s == state_code t) ≡ false
unfolding state_code
Step-code connect = refl
Step-code complete = refl
Step-code fail_checking = refl
Step-code fail_connected = refl
Step-code fail_completed = refl

changed :
    (a : Agent) (s : IceState) (now : ℕ)
    → (state_code a.state == state_code s) ≡ false
    → ((change_state a s now).state ≡ s) × ((change_state a s now).emitted ≡ s ∷ a.emitted)
unfolding change_state start_checking
changed a s now h = rw h (
    if_cases (λ (b : Agent). (b.state ≡ s) × (b.emitted ≡ s ∷ a.emitted)) (state_code s == 2)
      (start_checking (record a { state = s; emitted = s ∷ a.emitted }) now)
      (record a { state = s; emitted = s ∷ a.emitted }) (refl, refl) (refl, refl))

change-Reach :
    {s : IceState} {log : List IceState} (a : Agent) (t : IceState) (now : ℕ)
    → Reach s log a.state a.emitted
    → Step a.state t
    → Reach s log (change_state a t now).state (change_state a t now).emitted
change-Reach a t now r st =
    let (state, told) = changed a t now (Step-code st) in rw (state, told) (next r st)

-- A state by its code.
pub is_connecting : (s : IceState) → (state_code s == 2) ≡ true → s ≡ connecting
unfolding state_code
is_connecting disconnected h = cc
is_connecting gathering h = cc
is_connecting connecting h = refl
is_connecting connected h = cc
is_connecting completed h = cc
is_connecting IceState.failed h = cc

is_connected : (s : IceState) → (state_code s == 3) ≡ true → s ≡ connected
unfolding state_code
is_connected disconnected h = cc
is_connected gathering h = cc
is_connected connecting h = cc
is_connected connected h = refl
is_connected completed h = cc
is_connected IceState.failed h = cc

is_completed : (s : IceState) → (state_code s == 4) ≡ true → s ≡ completed
unfolding state_code
is_completed disconnected h = cc
is_completed gathering h = cc
is_completed connecting h = cc
is_completed connected h = cc
is_completed completed h = refl
is_completed IceState.failed h = cc

step_from : {s t u : IceState} → s ≡ t → Step t u → Step s u
step_from {s} {t} {u} e st = subst (λ (x : IceState). Step x u) (sym e) st

select_best-Reach :
    (a : Agent) (k : ℕ) (p : CandidatePair) (now : ℕ)
    → Reach a.state a.emitted (select_best a k p now).state (select_best a k p now).emitted
unfolding select_best
select_best-Reach a k p now = elim (Bool-cases p.nominated) [
  | inl e ↦ elim (Bool-cases (state_code a.state == 2)) [
    | inl f ↦
        let c = record a { selected_pair = some k; nominated_pair = some k } in
        let first = is_connecting a.state f in
        let d = change_state c connected now in
        rw (e, f)
          (change-Reach d completed now
            (change-Reach c connected now here (step_from first connect))
            (step_from (changed c connected now (Step-code (step_from first connect))).0 complete))
    | inr f ↦ elim (Bool-cases (state_code a.state == 3)) [
      | inl g ↦
          rw (e, f, g)
            (change-Reach (record a { selected_pair = some k; nominated_pair = some k }) completed
              now here (step_from (is_connected a.state g) complete))
      | inr g ↦ rw (e, f, g) here
    ]
  ]
  | inr e ↦ elim (Bool-cases (state_code a.state == 2)) [
    | inl f ↦
        rw (e, f)
          (change-Reach (record a { selected_pair = some k }) connected now here
            (step_from (is_connecting a.state f) connect))
    | inr f ↦ rw (e, f) here
  ]
]

not_connecting : (s : IceState) → (state_code s == 2) ≡ false → s ≢ connecting
unfolding state_code
not_connecting s h e = clash (subst (λ (t : IceState). (state_code t == 2) ≡ false) e h)
  where
    clash : true ≡ false → ⊥
    clash h = cc

not_zero : (n : ℕ) → (n == 0) ≡ false → n ≢ 0
not_zero n h e = ground arith

fail_now-Reach :
    (a : Agent) (now : ℕ) → Reach a.state a.emitted (fail_now a now).state (fail_now a now).emitted
unfolding fail_now
fail_now-Reach a now = elim (Bool-cases (state_code a.state == 2)) [
  | inl e ↦
      rw e (
        change-Reach a IceState.failed now here (step_from (is_connecting a.state e) fail_checking))
  | inr e ↦ elim (Bool-cases (state_code a.state == 3)) [
    | inl f ↦
        rw (e, f)
          (change-Reach a IceState.failed now here
            (step_from (is_connected a.state f) fail_connected))
    | inr f ↦ elim (Bool-cases (state_code a.state == 4)) [
      | inl g ↦
          rw (e, f, g)
            (change-Reach a IceState.failed now here
              (step_from (is_completed a.state g) fail_completed))
      | inr g ↦ rw (e, f, g) here
    ]
  ]
]

-- What `updateState` may do without a pair that has succeeded: wait, or fail once every pair has
-- failed and, while connecting, the time of patience is over.
pub data Waited (a : Agent) (now : ℕ) (b : Agent) : Type 0 where
  waits : b.state ≡ a.state → b.emitted ≡ a.emitted → Waited a now b
  fails :
      (c : Agent)
      → c.state ≡ a.state
      → c.emitted ≡ a.emitted
      → b ≡ fail_now c now
      → all_failed a.pairs ≡ true
      → is_empty a.pairs ≡ false
      → (a.state ≡ connecting → (a.pac_deadline ≢ 0) × (a.pac_deadline ≤ now))
      → Waited a now b

pub without_pair-Waited : (a : Agent) (now : ℕ) → Waited a now (without_pair a now)
unfolding without_pair
without_pair-Waited a now = elim (Bool-cases (all_failed a.pairs)) [
  | inr e ↦ rw e (waits refl refl)
  | inl e ↦ elim (Bool-cases (is_empty a.pairs)) [
    | inl f ↦ rw (e, f) (waits refl refl)
    | inr f ↦ elim (Bool-cases (state_code a.state == 2)) [
      | inr g ↦ rw (e, f, g) (fails a refl refl refl e f (λ h. absurd (not_connecting a.state g h)))
      | inl g ↦ elim (Bool-cases (a.pac_deadline == 0)) [
        | inl h ↦ rw (e, f, g, h) (waits refl refl)
        | inr h ↦ elim (Bool-cases (ltb now a.pac_deadline)) [
          | inl early ↦ rw (e, f, g, h, early) (waits refl refl)
          | inr late ↦
              rw (e, f, g, h, late)
                (fails (record a { pac_deadline = 0 }) refl refl refl e f
                  (λ s. (not_zero a.pac_deadline h, ltb→ge now a.pac_deadline late)))
        ]
      ]
    ]
  ]
]

waited-Reach : (a b : Agent) (now : ℕ) → Waited a now b → Reach a.state a.emitted b.state b.emitted
waited-Reach a b now (waits s l) = rw (s, l) here
waited-Reach a b now (fails c s l e all some_pair patience) =
    subst (λ (t : IceState). Reach t a.emitted b.state b.emitted) s
      (subst (λ (l : List IceState). Reach c.state l b.state b.emitted) l
        (rw e (fail_now-Reach c now)))

follow-Reach :
    (a : Agent) (now : ℕ) (o : Option (ℕ × CandidatePair))
    → Reach a.state a.emitted (follow a now o).state (follow a now o).emitted
unfolding follow
follow-Reach a now none = waited-Reach a _ now (without_pair-Waited a now)
follow-Reach a now (some (k, p)) = select_best-Reach a k p now

-- Every call of `updateState` moves the agent by steps of the state machine only, and tells the
-- application of each state on the way.
pub update_state-Reach :
    (a : Agent) (now : ℕ)
    → Reach a.state a.emitted (update_state a now).state (update_state a now).emitted
unfolding update_state
update_state-Reach a now = follow-Reach a now (choose a)
