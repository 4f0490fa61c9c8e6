-- ===== src/Ice/Agent/Schedule/Bounds.antt =====
-- How many checks `armNextFrozenPair` arms, and which.
use stice.Base.{
  ℕ, zero, suc, ◌+◌, ◌-◌, ◌≤◌, ◌<◌, max, ==_ne, ◌≡◌, refl, ap, sym, ◌∙◌, subst, arith, Bool, true,
  false, not, ◌&&◌, ◌||◌, Option, none, some, List, [], ◌∷◌, ◌++◌, append-nil, append_assoc, length,
  length-append, All, All-append, get_elem?, ltb, leb, ltb→lt, leb→gt, if◌then◌else◌, Bool-cases,
  if_cases, inl, inr, ◌⊎◌,
}
use stice.Ice.Agent.{
  AgentMode, IceCheckScheduleMode, limited_concurrent, phased_udp_first, IcePairingConfig,
  CandidatePair, StunEntry, Agent, max_stun_entries,
}
use stice.Ice.Agent.Schedule.{
  is_in_progress, count_in_progress_checks, cap, budget_for, is_eligible, has_entry, armed_entry,
  arm_step, arm_loop, arm_pairs, prepare_arming, arm_next_frozen_pair, is_serial,
}

count-append :
    (xs ys : List StunEntry)
    → count_in_progress_checks (xs ++ ys)
      ≡ count_in_progress_checks xs + count_in_progress_checks ys
unfolding count_in_progress_checks
count-append [] ys = omega arith
count-append (e ∷ xs) ys =
    omega_if (is_in_progress e) (count_in_progress_checks xs) (count_in_progress_checks ys) _
      (count-append xs ys)
  where
    omega_if :
        (b : Bool) (m n k : ℕ) → k ≡ m + n → (if b then suc k else k) ≡ (if b then suc m else m) + n
    omega_if true m n k h = omega arith
    omega_if false m n k h = h

module _ (cfg : IcePairingConfig) (pairs : List CandidatePair) (mode : AgentMode)
    (now budget : ℕ) where
  -- An entry that a round has added.
  pub record IsArmed (e : StunEntry) : Type 0 where
    pub index : ℕ
    pub pair : CandidatePair
    pub there : get_elem? pairs index ≡ some pair
    pub eligible : is_eligible cfg pair ≡ true
    pub entry : e ≡ armed_entry cfg pairs mode now budget index pair

  -- What a round does: it adds entries, as many as it counts, and not beyond the limits.
  record IsRun (armed : ℕ) (before : List StunEntry) (count : ℕ) (ends : Bool)
      (after : List StunEntry) : Type 0 where
    added : List StunEntry
    appended : after ≡ before ++ added
    allowed : All IsArmed added
    counted : count ≡ armed + length added
    room : length before ≤ max_stun_entries → length after ≤ max_stun_entries
    limit : armed < budget → (count ≤ budget) × (ends ≡ false → count < budget)

  idle_round :
      (armed : ℕ) (entries : List StunEntry) (ends : Bool) → IsRun armed entries armed ends entries
  idle_round armed entries ends = record {
    added = [];
    appended = sym (append-nil entries);
    allowed = tt;
    counted = omega arith;
    room = λ h. h;
    limit = λ h. (omega arith, λ e. h);
  }

  step-IsRun :
      (i : ℕ) (o : Option CandidatePair) (armed : ℕ) (entries : List StunEntry)
      → get_elem? pairs i ≡ o
      → IsRun armed entries
          (arm_step cfg pairs mode now budget i o armed entries).1
          (arm_step cfg pairs mode now budget i o armed entries).2
          (arm_step cfg pairs mode now budget i o armed entries).0
  unfolding arm_step
  step-IsRun i none armed entries h = idle_round armed entries false
  step-IsRun i (some p) armed entries h = elim (Bool-cases (is_eligible cfg p)) [
    | inr e ↦ rw e (idle_round armed entries false)
    | inl e ↦
        elim (Bool-cases (not (has_entry entries i) && ltb (length entries) max_stun_entries)) [
          | inr f ↦ rw (e, f) (idle_round armed entries _)
          | inl f ↦
              rw (e, f)
                (record {
                  added = armed_entry cfg pairs mode now budget i p ∷ [];
                  appended = refl;
                  allowed =
                      (record { index = i; pair = p; there = h; eligible = e; entry = refl }, tt);
                  counted = omega arith;
                  room = λ small. omega (
                    arith,
                    length-append entries (armed_entry cfg pairs mode now budget i p ∷ []),
                    ltb→lt (length entries) max_stun_entries (
                        right (not (has_entry entries i)) (ltb (length entries) max_stun_entries)
                          f),
                  );
                  limit = λ h. (
                    omega arith,
                    λ more.
                        leb→gt budget (suc armed)
                          (left_false (leb budget (suc armed)) (is_serial cfg.schedule_mode) more),
                  );
                })
        ]
  ]
    where
      right : (x y : Bool) → (x && y) ≡ true → y ≡ true
      right true y h = h
      right false y h = cc

      left_false : (x y : Bool) → (x || y) ≡ false → x ≡ false
      left_false true y h = cc
      left_false false y h = refl

  pub record IsArming (before after : List StunEntry) (most : ℕ) : Type 0 where
    pub added : List StunEntry
    pub appended : after ≡ before ++ added
    pub allowed : All IsArmed added
    pub within : length added ≤ most
    pub room : length before ≤ max_stun_entries → length after ≤ max_stun_entries

  loop-IsArming :
      (ordered : List ℕ) (armed : ℕ) (entries : List StunEntry)
      → armed < budget
      → IsArming entries (arm_loop cfg pairs mode now budget ordered armed entries) (budget - armed)
  unfolding arm_loop
  loop-IsArming [] armed entries h = record {
    added = [];
    appended = sym (append-nil entries);
    allowed = tt;
    within = omega arith;
    room = λ small. small;
  }
  loop-IsArming (i ∷ rest) armed entries h =
      round (step-IsRun i (get_elem? pairs i) armed entries refl)
        (λ count es. loop-IsArming rest count es)
    where
      round :
          {count : ℕ} {ends : Bool} {es : List StunEntry}
          → IsRun armed entries count ends es
          → ((count : ℕ) (es : List StunEntry)
              → count < budget
              → IsArming es (arm_loop cfg pairs mode now budget rest count es) (budget - count))
          → IsArming entries
              (if ends then es else arm_loop cfg pairs mode now budget rest count es)
              (budget - armed)
      round {count} {ends} {es} run rec = elim (Bool-cases ends) [
        | inl e ↦ rw e (record {
          added = run.added;
          appended = run.appended;
          allowed = run.allowed;
          within = omega (arith, run.counted, (run.limit h).0);
          room = run.room;
        })
        | inr e ↦
            let more = rec count es ((run.limit h).1 e) in
            rw e (record {
              added = run.added ++ more.added;
              appended =
                  more.appended
                  ∙ ap (λ (xs : List StunEntry). xs ++ more.added) run.appended
                  ∙ append_assoc entries run.added more.added;
              allowed = All-append _ run.added more.added run.allowed more.allowed;
              within = omega (
                arith,
                length-append run.added more.added,
                run.counted,
                more.within,
                (run.limit h).1 e,
              );
              room = λ small. more.room (run.room small);
            })
      ]

count-le-length : (xs : List StunEntry) → count_in_progress_checks xs ≤ length xs
unfolding count_in_progress_checks
count-le-length [] = omega arith
count-le-length (e ∷ xs) =
    if_cases (λ (n : ℕ). n ≤ suc (length xs)) (is_in_progress e) _ _
      (omega (arith, count-le-length xs)) (omega (arith, count-le-length xs))

pub arm_pairs-IsArming :
    (a : Agent) (now budget : ℕ)
    → IsArming a.config a.pairs a.mode now budget a.entries (arm_pairs a now budget).entries budget
unfolding arm_pairs
arm_pairs-IsArming a now zero = record {
  added = [];
  appended = sym (append-nil a.entries);
  allowed = tt;
  within = omega arith;
  room = λ small. small;
}
arm_pairs-IsArming a now (suc n) = rw (==_ne (suc n) 0 (omega arith)) (
    subst
      (λ (k : ℕ).
        IsArming a.config a.pairs a.mode now (suc n) a.entries
          (arm_loop a.config a.pairs a.mode now (suc n) a.ordered_pairs 0 a.entries) k)
      (omega arith)
      (loop-IsArming a.config a.pairs a.mode now (suc n) a.ordered_pairs 0 a.entries (omega arith)))

-- The limit of the concurrent modes.
budget-cap :
    (mode : IceCheckScheduleMode) (cfg : IcePairingConfig) (n : ℕ)
    → (mode ≡ limited_concurrent) ⊎ (mode ≡ phased_udp_first)
    → n + budget_for mode cfg n ≤ max n (cap cfg)
unfolding budget_for
budget-cap mode cfg n (inl e) = rw e (ground arith)
budget-cap mode cfg n (inr e) = rw e (ground arith)

module _ (relays : Agent → Agent) where
  -- `armNextFrozenPair` adds checks and nothing else: each for a frozen pair that the mode lets pass,
  -- no more of them than the mode's budget, and no more than 92 entries in all.
  pub arm_next_frozen_pair-IsArming :
      (a : Agent) (now : ℕ)
      → let c = prepare_arming relays a now in
        let budget =
          budget_for c.config.schedule_mode c.config (count_in_progress_checks c.entries) in
        IsArming c.config c.pairs c.mode now budget c.entries
          (arm_next_frozen_pair relays a now).entries
          budget
  unfolding arm_next_frozen_pair
  arm_next_frozen_pair-IsArming a now =
      let c = prepare_arming relays a now in
      arm_pairs-IsArming c now
        (budget_for c.config.schedule_mode c.config (count_in_progress_checks c.entries))

  -- In the two concurrent modes no more checks are in progress after `armNextFrozenPair` than the
  -- limit, or than there were.
  pub arm_next_frozen_pair-cap :
      (a : Agent) (now : ℕ)
      → let c = prepare_arming relays a now in
        (c.config.schedule_mode ≡ limited_concurrent) ⊎ (c.config.schedule_mode ≡ phased_udp_first)
        → count_in_progress_checks (arm_next_frozen_pair relays a now).entries
          ≤ max (count_in_progress_checks c.entries) (cap c.config)
  arm_next_frozen_pair-cap a now mode =
      let c = prepare_arming relays a now in
      let n = count_in_progress_checks c.entries in
      let arming = arm_next_frozen_pair-IsArming a now in
      rw arming.appended (
        omega (
          arith,
          count-append c.entries arming.added,
          count-le-length arming.added,
          arming.within,
          budget-cap c.config.schedule_mode c.config n mode,
        ))
