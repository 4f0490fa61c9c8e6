-- ===== src/Ice/Agent/Bookkeeping/Steps.antt =====
-- What the operations that `onBookkeeping` calls leave, one by one.
use stice.Base.{
  ℕ, ◌+◌, ◌≡◌, refl, arith, true, not, ◌&&◌, Option, none, some, get_elem?, get_elem?-append,
  modify, ltb, ◌==◌, if_cases, is_empty,
}
use stice.Base.Ints.{is_positive}
use stice.Ice.Agent.{
  IceState, connecting, connected, completed, CandidatePair, Agent, is_controlling,
}
use stice.Ice.Agent.Pairs.{form_pairs}
use stice.Ice.Agent.Schedule.{
  arm_pairs, prepare_arming, arm_next_frozen_pair, maybe_enter_tcp_phase, is_phased,
  is_on_all_udp_fail,
}
use stice.Ice.Agent.Schedule.Bounds.{arm_pairs-IsArming}
use stice.Ice.Agent.Progress.{
  state_code, start_checking, change_state, choose, select_best, fail_now, without_pair, all_failed,
  follow, update_state, ice_pac_timeout_ms,
}
use stice.Ice.Agent.Gathering.{form_and_arm, check_gathering_complete}
use stice.Ice.Agent.Bookkeeping.{
  should_nominate, request_nomination, rearm, nominate_pair, nominate_selected, entry_of,
  freeze_pairs,
}
use stice.Ice.Agent.Soundness.{change_state-IsAlike}
use stice.Ice.Agent.Bookkeeping.Wanes.{
  Fades, Wanes, Frame, Wanes-refl, Wanes-modify, Wanes-freeze, Frame-refl, Frame-trans, Frame-of,
  form_pairs-Frame,
}

change_state_entries :
    (a : Agent) (s : IceState) (now : ℕ) → (change_state a s now).entries ≡ a.entries
unfolding change_state start_checking
change_state_entries a s now = ground arith

change_state-Frame : (m : ℕ) (a : Agent) (s : IceState) (now : ℕ) → Frame m a (change_state a s now)
change_state-Frame m a s now =
    Frame-of m a _ (rw (change_state-IsAlike a s now).pairs (Wanes-refl a.pairs))
      (change_state_entries a s now)

quiet-Frame : (m : ℕ) (a b : Agent) → b.pairs ≡ a.pairs → b.entries ≡ a.entries → Frame m a b
quiet-Frame m a b same entries = Frame-of m a b (rw same (Wanes-refl a.pairs)) entries

select_best-Frame :
    (m : ℕ) (a : Agent) (k : ℕ) (p : CandidatePair) (now : ℕ) → Frame m a (select_best a k p now)
unfolding select_best
select_best-Frame m a k p now =
    let b : Agent = record a { selected_pair = some k } in
    let c : Agent = record b { nominated_pair = some k } in
    let P : Agent → Type 0 = Frame m a in
    let from : (x : Agent) (s : IceState) → Frame m a x → Frame m a (change_state x s now) =
      λ x s f. Frame-trans m a x _ f (change_state-Frame m x s now) in
    let fb : Frame m a b = quiet-Frame m a b refl refl in
    let fc : Frame m a c = quiet-Frame m a c refl refl in
    if_cases P p.nominated _ _
      (if_cases P (state_code c.state == 2) _ _ (from _ completed (from c connected fc))
        (if_cases P (state_code c.state == 3) _ _ (from c completed fc) fc))
      (if_cases P (state_code b.state == 2) _ _ (from b connected fb) fb)

fail_now-Frame : (m : ℕ) (a b : Agent) (now : ℕ) → Frame m a b → Frame m a (fail_now b now)
unfolding fail_now
fail_now-Frame m a b now f =
    let P : Agent → Type 0 = Frame m a in
    let g = Frame-trans m a b _ f (change_state-Frame m b IceState.failed now) in
    if_cases P (state_code b.state == 2) _ _ g
      (if_cases P (state_code b.state == 3) _ _ g (if_cases P (state_code b.state == 4) _ _ g f))

without_pair-Frame : (m : ℕ) (a : Agent) (now : ℕ) → Frame m a (without_pair a now)
unfolding without_pair
without_pair-Frame m a now =
    let P : Agent → Type 0 = Frame m a in
    let z : Frame m a (record a { pac_deadline = 0 }) = quiet-Frame m a _ refl refl in
    if_cases P (not (all_failed a.pairs)) _ _ z (
      if_cases P (is_empty a.pairs) _ _ z (
        if_cases P (state_code a.state == 2) _ _
          (if_cases P (a.pac_deadline == 0) _ _
            (quiet-Frame m a (record a { pac_deadline = now + ice_pac_timeout_ms }) refl refl)
            (if_cases P (ltb now a.pac_deadline) _ _ (Frame-refl m a) (fail_now-Frame m a _ now z)))
          (fail_now-Frame m a a now (Frame-refl m a))))

follow-Frame :
    (m : ℕ) (a : Agent) (now : ℕ) (o : Option (ℕ × CandidatePair)) → Frame m a (follow a now o)
unfolding follow
follow-Frame m a now none = without_pair-Frame m a now
follow-Frame m a now (some (k, p)) = select_best-Frame m a k p now

pub update_state-Frame : (m : ℕ) (a : Agent) (now : ℕ) → Frame m a (update_state a now)
unfolding update_state
update_state-Frame m a now = follow-Frame m a now (choose a)

request-Fades : (p : CandidatePair) → Fades p (request_nomination p)
unfolding request_nomination
request-Fades p = record { success = λ h. h; consent = refl }

rearm_pairs : (a : Agent) (o : Option ℕ) (now : ℕ) → (rearm a o now).pairs ≡ a.pairs
unfolding rearm
rearm_pairs a none now = refl
rearm_pairs a (some n) now = refl

nominate_pair-Wanes :
    (a : Agent) (now k : ℕ) (o : Option CandidatePair)
    → Wanes a.pairs (nominate_pair a now k o).pairs
unfolding nominate_pair
nominate_pair-Wanes a now k none = Wanes-refl a.pairs
nominate_pair-Wanes a now k (some p) =
    let P : Agent → Type 0 = λ b. Wanes a.pairs b.pairs in
    let b : Agent = record a { pairs = modify a.pairs k request_nomination } in
    if_cases P (is_controlling a.mode && (not p.nominated && not p.nomination_requested)) _ _
      (if_cases P (should_nominate a now k p) _ _
        (rw (rearm_pairs b (entry_of a.entries k) now)
          (Wanes-modify a.pairs k request_nomination request-Fades))
        (Wanes-refl a.pairs))
      (Wanes-refl a.pairs)

pub nominate_selected-Wanes :
    (a : Agent) (now : ℕ) (o : Option ℕ) → Wanes a.pairs (nominate_selected a now o).pairs
unfolding nominate_selected
nominate_selected-Wanes a now none = Wanes-refl a.pairs
nominate_selected-Wanes a now (some k) = nominate_pair-Wanes a now k (get_elem? a.pairs k)

pub freeze_pairs-Wanes : (a : Agent) (o : Option ℕ) → Wanes a.pairs (freeze_pairs a o).pairs
unfolding freeze_pairs
freeze_pairs-Wanes a none = Wanes-refl a.pairs
freeze_pairs-Wanes a (some k) = Wanes-freeze k a.pairs 0

arm_pairs_pairs : (a : Agent) (now budget : ℕ) → (arm_pairs a now budget).pairs ≡ a.pairs
unfolding arm_pairs
arm_pairs_pairs a now budget =
    if_cases (λ (b : Agent). b.pairs ≡ a.pairs) (budget == 0) _ _ refl refl

arm_pairs-Frame : (m : ℕ) (a : Agent) (now budget : ℕ) → Frame m a (arm_pairs a now budget)
arm_pairs-Frame m a now budget =
    let arming = arm_pairs-IsArming a now budget in
    record {
      pairs = rw (arm_pairs_pairs a now budget) (Wanes-refl a.pairs);
      entries = λ n e ne h. rw arming.appended (get_elem?-append a.entries arming.added n e h);
    }

module _ (relays : Agent → Agent) (leaves : (m : ℕ) (a : Agent) → Frame m a (relays a)) where
  prepare_arming-Frame : (m : ℕ) (a : Agent) (now : ℕ) → Frame m a (prepare_arming relays a now)
  unfolding prepare_arming maybe_enter_tcp_phase
  prepare_arming-Frame m a now =
      let P : Agent → Type 0 = Frame m a in
      let b : Agent = record a { config = record a.config { tcp_phase_entered = true } } in
      let fb : Frame m a b = quiet-Frame m a b refl refl in
      Frame-trans m a _ _
        (if_cases P (not (is_phased a.config.schedule_mode)) _ _ (Frame-refl m a) (
          if_cases P a.config.tcp_phase_entered _ _ (Frame-refl m a) (
            if_cases P _ _ _ (Frame-refl m a) (
              if_cases P (is_on_all_udp_fail a.config.tcp_relay_fallback) _ _
                (Frame-trans m a b _ fb (leaves m b)) fb))))
        (quiet-Frame m _ _ refl refl)

  pub arm_next-Frame : (m : ℕ) (a : Agent) (now : ℕ) → Frame m a (arm_next_frozen_pair relays a now)
  unfolding arm_next_frozen_pair
  arm_next-Frame m a now =
      Frame-trans m a (prepare_arming relays a now) _ (prepare_arming-Frame m a now)
        (arm_pairs-Frame m _ now _)

  pub check_gathering_complete-Frame :
      (m : ℕ) (a : Agent) (now : ℕ) → Frame m a (check_gathering_complete relays a now)
  unfolding check_gathering_complete form_and_arm
  check_gathering_complete-Frame m a now =
      let P : Agent → Type 0 = Frame m a in
      let b : Agent = record a { gathering_done = true } in
      let fb : Frame m a b = quiet-Frame m a b refl refl in
      if_cases P (is_positive a.pending_relay) _ _ (Frame-refl m a) (
        if_cases P (is_positive a.pending_reflexive) _ _ (Frame-refl m a) (
          if_cases P a.gathering_done _ _ (Frame-refl m a) (
            if_cases P
              (not (is_empty a.remote_ufrag)
                && (not (is_empty a.remote_pwd) && (state_code a.state == 1)))
              _ _
              (Frame-trans m a _ _
                (Frame-trans m a b _ fb (
                  Frame-trans m b (form_pairs b) _ (form_pairs-Frame m b)
                    (arm_next-Frame m (form_pairs b) now)))
                (change_state-Frame m _ connecting now))
              fb)))
