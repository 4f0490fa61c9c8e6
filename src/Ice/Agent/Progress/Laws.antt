-- ===== src/Ice/Agent/Progress/Laws.antt =====
-- The selected pair is the best one.
use stice.Base.{
  ℕ, ◌≤◌, ◌≡◌, refl, arith, Bool, true, false, not, ◌&&◌, Option, none, some, List, [], ◌∷◌, All,
  get_elem?, ltb, ltb→lt, ltb→ge, Bool-cases, inl, inr, ◌⊎◌,
}
use stice.Ice.Agent.{IceState, CandidatePair, Agent, is_succeeded}
use stice.Ice.Agent.Schedule.{pair_is_tcp_relay, test_pair}
use stice.Ice.Agent.Progress.{
  succeeded_tcp, succeeded_udp, is_sticky, prefer, choose, select_best, follow, update_state,
  change_state, start_checking, without_pair, fail_now,
}
use stice.Ice.Agent.Progress.Best.{IsBest, first-IsBest, none_le}

-- What the selection promises of the pair at k. A sticky selection is one that stays on a TCP relay.
pub record IsChosen (pairs : List CandidatePair) (sticky : Bool) (k : ℕ) (p : CandidatePair)
    : Type 0 where
  pub there : get_elem? pairs k ≡ some p
  pub succeeded : is_succeeded p.state ≡ true
  pub best :
      sticky ≡ false
      → All (λ (q : CandidatePair). is_succeeded q.state ≡ true → q.priority ≤ p.priority) pairs
  pub stays :
      sticky ≡ true
      → ((pair_is_tcp_relay p ≡ true)
          × All (λ (q : CandidatePair). succeeded_tcp q ≡ true → q.priority ≤ p.priority) pairs)
        ⊎ (All (λ (q : CandidatePair). succeeded_tcp q ≡ false) pairs
            × All
                (λ (q : CandidatePair). is_succeeded q.state ≡ true → q.priority ≤ p.priority)
                pairs)

both : (x y : Bool) → (x && y) ≡ true → (x ≡ true) × (y ≡ true)
both true y h = (refl, h)
both false y h = cc

all_succeeded :
    (pairs : List CandidatePair) (a b c : ℕ)
    → a ≤ c
    → b ≤ c
    → All (λ (q : CandidatePair). succeeded_tcp q ≡ true → q.priority ≤ a) pairs
    → All (λ (q : CandidatePair). succeeded_udp q ≡ true → q.priority ≤ b) pairs
    → All (λ (q : CandidatePair). is_succeeded q.state ≡ true → q.priority ≤ c) pairs
unfolding succeeded_tcp succeeded_udp
all_succeeded [] a b c ha hb t u = tt
all_succeeded (q ∷ pairs) a b c ha hb t u = (
  λ s. elim (Bool-cases (pair_is_tcp_relay q)) [
    | inl e ↦ omega (arith, t.0 (rw (s, e) refl))
    | inr e ↦ omega (arith, u.0 (rw (s, e) refl))
  ],
  all_succeeded pairs a b c ha hb t.1 u.1,
)

none_succeeded :
    (pairs : List CandidatePair)
    → All (λ (q : CandidatePair). succeeded_tcp q ≡ false) pairs
    → All (λ (q : CandidatePair). succeeded_udp q ≡ false) pairs
    → All (λ (q : CandidatePair). is_succeeded q.state ≡ false) pairs
unfolding succeeded_tcp succeeded_udp
none_succeeded [] t u = tt
none_succeeded (q ∷ pairs) t u =
    (neither (is_succeeded q.state) (pair_is_tcp_relay q) t.0 u.0, none_succeeded pairs t.1 u.1)
  where
    neither : (s r : Bool) → (s && r) ≡ false → (s && not r) ≡ false → s ≡ false
    neither false r g h = refl
    neither true true g h = cc
    neither true false g h = cc

relay_of :
    (p : CandidatePair)
    → succeeded_tcp p ≡ true
    → (is_succeeded p.state ≡ true) × (pair_is_tcp_relay p ≡ true)
unfolding succeeded_tcp
relay_of p h = both _ _ h

succeeded_of :
    (p : CandidatePair)
    → succeeded_udp p ≡ true
    → (is_succeeded p.state ≡ true) × (not (pair_is_tcp_relay p) ≡ true)
unfolding succeeded_udp
succeeded_of p h = both _ _ h

-- What the choice of `prefer` is.
IsChoice : List CandidatePair → Bool → Option (ℕ × CandidatePair) → Type 0
IsChoice pairs sticky none = All (λ (q : CandidatePair). is_succeeded q.state ≡ false) pairs
IsChoice pairs sticky (some (k, p)) = IsChosen pairs sticky k p

prefer-IsChoice :
    (pairs : List CandidatePair) (sticky : Bool) (t u : Option (ℕ × CandidatePair))
    → IsBest succeeded_tcp pairs pairs t
    → IsBest succeeded_udp pairs pairs u
    → IsChoice pairs sticky (prefer sticky t u)
unfolding prefer IsBest IsChoice
prefer-IsChoice pairs sticky none none g h = none_succeeded pairs g h
prefer-IsChoice pairs sticky none (some (k, p)) g h =
    let all =
      all_succeeded pairs p.priority p.priority p.priority (omega arith) (omega arith)
        (none_le succeeded_tcp pairs p.priority g) h.2 in
    record {
      there = h.0;
      succeeded = (succeeded_of p h.1).0;
      best = λ e. all;
      stays = λ e. inr (g, all);
    }
prefer-IsChoice pairs sticky (some (k, p)) none g h =
    let all =
      all_succeeded pairs p.priority p.priority p.priority (omega arith) (omega arith) g.2
        (none_le succeeded_udp pairs p.priority h) in
    record {
      there = g.0;
      succeeded = (relay_of p g.1).0;
      best = λ e. all;
      stays = λ e. inl ((relay_of p g.1).1, g.2);
    }
prefer-IsChoice pairs true (some (k, p)) (some (j, q)) g h = record {
  there = g.0;
  succeeded = (relay_of p g.1).0;
  best = λ e. cc;
  stays = λ e. inl ((relay_of p g.1).1, g.2);
}
prefer-IsChoice pairs false (some (k, p)) (some (j, q)) g h =
    elim (Bool-cases (ltb q.priority p.priority)) [
      | inl e ↦ rw e (record {
        there = g.0;
        succeeded = (relay_of p g.1).0;
        best = λ f.
            all_succeeded pairs p.priority q.priority p.priority (omega arith)
              (omega (arith, ltb→lt q.priority p.priority e)) g.2 h.2;
        stays = λ f. cc;
      })
      | inr e ↦ rw e (record {
        there = h.0;
        succeeded = (succeeded_of q h.1).0;
        best = λ f.
            all_succeeded pairs p.priority q.priority q.priority (ltb→ge q.priority p.priority e)
              (omega arith) g.2 h.2;
        stays = λ f. cc;
      })
    ]

change_state-selected :
    (a : Agent) (s : IceState) (now : ℕ) → (change_state a s now).selected_pair ≡ a.selected_pair
unfolding change_state start_checking
change_state-selected a s now = ground arith

select_best-selected :
    (a : Agent) (k : ℕ) (p : CandidatePair) (now : ℕ)
    → (select_best a k p now).selected_pair ≡ some k
unfolding select_best
select_best-selected a k p now = grind (arith, change_state-selected)

without_pair-selected : (a : Agent) (now : ℕ) → (without_pair a now).selected_pair ≡ a.selected_pair
unfolding without_pair fail_now
without_pair-selected a now = grind (arith, change_state-selected)

abbrev Selection : Agent → Agent → Bool → Type 0
Selection a b sticky =
    ((k : ℕ) × (p : CandidatePair) × (b.selected_pair ≡ some k) × IsChosen a.pairs sticky k p)
    ⊎ (All (λ (q : CandidatePair). is_succeeded q.state ≡ false) a.pairs
        × (b.selected_pair ≡ a.selected_pair))

followed :
    (a : Agent) (now : ℕ) (sticky : Bool) (o : Option (ℕ × CandidatePair))
    → IsChoice a.pairs sticky o
    → Selection a (follow a now o) sticky
unfolding follow IsChoice
followed a now sticky none c = inr (c, without_pair-selected a now)
followed a now sticky (some (k, p)) c = inl (k, p, select_best-selected a k p now, c)

-- `updateState` selects a pair that has succeeded if there is one: the one of highest priority, or,
-- while the selected pair is a TCP relay under the sticky policy, the best TCP relay before all
-- others. With no such pair the selection stays.
pub update_state-IsChosen :
    (a : Agent) (now : ℕ)
    → ((k : ℕ) × (p : CandidatePair) × ((update_state a now).selected_pair ≡ some k)
        × IsChosen a.pairs
            (is_sticky a.config.reselect_policy
              && test_pair a.pairs a.selected_pair pair_is_tcp_relay)
            k
            p)
      ⊎ (All (λ (q : CandidatePair). is_succeeded q.state ≡ false) a.pairs
          × ((update_state a now).selected_pair ≡ a.selected_pair))
unfolding update_state choose
update_state-IsChosen a now =
    let sticky =
      is_sticky a.config.reselect_policy && test_pair a.pairs a.selected_pair pair_is_tcp_relay in
    followed a now sticky (choose a) (
      prefer-IsChoice a.pairs sticky _ _ (first-IsBest succeeded_tcp a.pairs)
        (first-IsBest succeeded_udp a.pairs))
