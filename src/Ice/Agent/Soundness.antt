-- ===== src/Ice/Agent/Soundness.antt =====
-- What every step of an agent keeps: its pairs are of its candidates, of one family and class of
-- transports, none twice, and both the pairs and the checks are bounded.
pub mod Requests
pub mod Responses
use stice.Base.{
  ℕ, zero, suc, ◌+◌, ◌≤◌, ◌<◌, ◌≡◌, refl, ap, sym, ◌∙◌, subst, arith, Bool, true, false, not, ◌&&◌,
  Option, none, some, List, [], ◌∷◌, ◌++◌, length, length-append, length-modify, All, All-modify,
  get_elem?, modify, find_from, ltb, ltb→lt, leb, ◌==◌, if◌then◌else◌, Bool-cases, if_cases, inl,
  inr, is_empty,
}
use stice.Net.Addr.{SockAddr, AddrRecord}
use stice.Stun.Message.{Message}
use stice.Stun.Attributes.{has_use_candidate, read_nomination, read_priority}
use stice.Ice.Candidate.{CandidateTransport, Candidate}
use stice.Ice.Agent.{
  IceState, connected, completed, IcePairingConfig, PairState, CandidatePair, StunEntry, Agent,
  max_stun_entries, max_candidate_pairs,
}
use stice.Ice.Agent.Pairs.{form_pairs, find_or_create_pair, update_ordered_pairs}
use stice.Ice.Agent.Pairs.Laws.{IsPairOf, IsDistinct, IsCheckList, same_candidates}
use stice.Ice.Agent.Pairs.Form.{form_pairs-IsCheckList}
use stice.Ice.Agent.Schedule.{
  arm_pairs, prepare_arming, arm_next_frozen_pair, maybe_enter_tcp_phase, refresh_early_phase,
  is_phased, is_on_all_udp_fail, count_in_progress_checks, budget_for,
}
use stice.Ice.Agent.Schedule.Bounds.{arm_pairs-IsArming}
use stice.Ice.Agent.Progress.{
  start_checking, change_state, choose, select_best, fail_now, without_pair, state_code, all_failed,
  ice_pac_timeout_ms, follow, update_state,
}
use stice.Ice.Agent.Pairs.Learn.{find_or_create_pair-IsCheckList}

-- A change of a pair that leaves its candidates.
abbrev pub KeepsCandidates : (CandidatePair → CandidatePair) → Type 0
KeepsCandidates f =
    (p : CandidatePair)
    → ((f p).local_index ≡ p.local_index)
      × ((f p).remote_index ≡ p.remote_index)
      × ((f p).local_candidate ≡ p.local_candidate)
      × ((f p).remote_candidate ≡ p.remote_candidate)

pub record IsSound (a : Agent) : Type 0 where
  pub check_list : IsCheckList a
  pub checks : length a.entries ≤ max_stun_entries

-- The parts of an agent that soundness reads.
pub record IsAlike (a b : Agent) : Type 0 where
  pub pairs : b.pairs ≡ a.pairs
  pub locals : b.local_candidates ≡ a.local_candidates
  pub remotes : b.remote_candidates ≡ a.remote_candidates
  pub size : length b.entries ≡ length a.entries

pub alike-IsSound : (a b : Agent) → IsAlike a b → IsSound a → IsSound b
alike-IsSound a b same s = record {
  check_list = record {
    paired = rw (same.pairs, same.locals, same.remotes) s.check_list.paired;
    distinct = rw same.pairs s.check_list.distinct;
    bounded = rw same.pairs s.check_list.bounded;
  };
  checks = rw same.size s.checks;
}

All-map {ℓ κ λ'} :
    {A : Type ℓ} {P : A → Type κ} {Q : A → Type λ'} (xs : List A)
    → ((x : A) → P x → Q x)
    → All P xs
    → All Q xs
All-map [] f p = tt
All-map (x ∷ xs) f p = (f x p.0, All-map xs f p.1)

module _ (f : CandidatePair → CandidatePair) (keeps : KeepsCandidates f) where
  moved :
      (p : CandidatePair) (q : CandidatePair)
      → (same_candidates (f p) q ≡ same_candidates p q)
        × (same_candidates q (f p) ≡ same_candidates q p)
  unfolding same_candidates
  moved p q = rw ((keeps p).0, (keeps p).1) (refl, refl)

  apart_modified :
      (p : CandidatePair) (pairs : List CandidatePair) (k : ℕ)
      → All (λ (q : CandidatePair). same_candidates p q ≡ false) pairs
      → All (λ (q : CandidatePair). same_candidates p q ≡ false) (modify pairs k f)
  apart_modified p pairs k h = All-modify _ pairs k f (λ q e. (moved q p).1 ∙ e) h

  modify-IsDistinct :
      (pairs : List CandidatePair) (k : ℕ) → IsDistinct pairs → IsDistinct (modify pairs k f)
  unfolding IsDistinct modify
  modify-IsDistinct [] k d = tt
  modify-IsDistinct (p ∷ pairs) zero d = (All-map pairs (λ q e. (moved p q).0 ∙ e) d.0, d.1)
  modify-IsDistinct (p ∷ pairs) (suc k) d =
      (apart_modified p pairs k d.0, modify-IsDistinct pairs k d.1)

  modify-IsPairOf :
      (locals remotes : List Candidate) (p : CandidatePair)
      → IsPairOf locals remotes p
      → IsPairOf locals remotes (f p)
  modify-IsPairOf locals remotes p h =
      let (i, j, l, r) = keeps p in
      record {
        local_there = rw (i, l) h.local_there;
        remote_there = rw (j, r) h.remote_there;
        family = rw (l, r) h.family;
        transports = rw (l, r) h.transports;
        routable = rw r h.routable;
      }

  pub modify-IsCheckList :
      (a : Agent) (k : ℕ) → IsCheckList a → IsCheckList (record a { pairs = modify a.pairs k f })
  modify-IsCheckList a k c = record {
    paired =
        All-modify _ a.pairs k f (modify-IsPairOf a.local_candidates a.remote_candidates) c.paired;
    distinct = modify-IsDistinct a.pairs k c.distinct;
    bounded = rw (length-modify a.pairs k f) c.bounded;
  }

pub form_pairs-IsSound : (a : Agent) → IsSound a → IsSound (form_pairs a)
unfolding form_pairs update_ordered_pairs
form_pairs-IsSound a s = record {
  check_list = form_pairs-IsCheckList a s.check_list;
  checks = s.checks;
}

pub change_state-IsAlike : (a : Agent) (t : IceState) (now : ℕ) → IsAlike a (change_state a t now)
unfolding change_state start_checking
change_state-IsAlike a t now = record {
  pairs = ground arith;
  locals = ground arith;
  remotes = ground arith;
  size = ground arith;
}

pub change_state-IsSound :
    (a : Agent) (t : IceState) (now : ℕ) → IsSound a → IsSound (change_state a t now)
change_state-IsSound a t now s =
    alike-IsSound a (change_state a t now) (change_state-IsAlike a t now) s

select_best-IsSound :
    (a : Agent) (k : ℕ) (p : CandidatePair) (now : ℕ) → IsSound a → IsSound (select_best a k p now)
unfolding select_best
select_best-IsSound a k p now s =
    let b : Agent = record a { selected_pair = some k } in
    let c : Agent = record b { nominated_pair = some k } in
    let sb : IsSound b =
      alike-IsSound a b (record { pairs = refl; locals = refl; remotes = refl; size = refl }) s in
    let sc : IsSound c =
      alike-IsSound a c (record { pairs = refl; locals = refl; remotes = refl; size = refl }) s in
    if_cases IsSound p.nominated _ _
      (if_cases IsSound (state_code c.state == 2) _ _
        (change_state-IsSound _ completed now (change_state-IsSound c connected now sc))
        (if_cases IsSound (state_code c.state == 3) _ _ (change_state-IsSound c completed now sc)
          sc))
      (if_cases IsSound (state_code b.state == 2) _ _ (change_state-IsSound b connected now sb) sb)

fail_now-IsSound : (a : Agent) (now : ℕ) → IsSound a → IsSound (fail_now a now)
unfolding fail_now
fail_now-IsSound a now s =
    let f = change_state-IsSound a IceState.failed now s in
    if_cases IsSound (state_code a.state == 2) _ _ f (
      if_cases IsSound (state_code a.state == 3) _ _ f
        (if_cases IsSound (state_code a.state == 4) _ _ f s))

pac-IsSound :
    (a : Agent) (deadline : ℕ) → IsSound a → IsSound (record a { pac_deadline = deadline })
pac-IsSound a deadline s =
    alike-IsSound a _ (record { pairs = refl; locals = refl; remotes = refl; size = refl }) s

without_pair-IsSound : (a : Agent) (now : ℕ) → IsSound a → IsSound (without_pair a now)
unfolding without_pair
without_pair-IsSound a now s =
    let z = pac-IsSound a 0 s in
    if_cases IsSound (not (all_failed a.pairs)) _ _ z (
      if_cases IsSound (is_empty a.pairs) _ _ z (
        if_cases IsSound (state_code a.state == 2) _ _
          (if_cases IsSound (a.pac_deadline == 0) _ _ (pac-IsSound a (now + ice_pac_timeout_ms) s)
            (if_cases IsSound (ltb now a.pac_deadline) _ _ s (fail_now-IsSound _ now z)))
          (fail_now-IsSound a now s)))

follow-IsSound :
    (a : Agent) (now : ℕ) (o : Option (ℕ × CandidatePair)) → IsSound a → IsSound (follow a now o)
unfolding follow
follow-IsSound a now none s = without_pair-IsSound a now s
follow-IsSound a now (some (k, p)) s = select_best-IsSound a k p now s

pub update_state-IsSound : (a : Agent) (now : ℕ) → IsSound a → IsSound (update_state a now)
unfolding update_state
update_state-IsSound a now s = follow-IsSound a now (choose a) s

armed_list : (a : Agent) (now budget : ℕ) → IsCheckList a → IsCheckList (arm_pairs a now budget)
unfolding arm_pairs
armed_list a now budget c =
    if_cases IsCheckList (budget == 0) _ _ c
      (record { paired = c.paired; distinct = c.distinct; bounded = c.bounded })

pub config-IsSound :
    (a : Agent) (cfg : IcePairingConfig) → IsSound a → IsSound (record a { config = cfg })
config-IsSound a cfg s =
    alike-IsSound a _ (record { pairs = refl; locals = refl; remotes = refl; size = refl }) s

module _ (relays : Agent → Agent) (sound : (a : Agent) → IsSound a → IsSound (relays a)) where
  prepare_arming-IsSound : (a : Agent) (now : ℕ) → IsSound a → IsSound (prepare_arming relays a now)
  unfolding prepare_arming maybe_enter_tcp_phase
  prepare_arming-IsSound a now s =
      let b : Agent = record a { config = record a.config { tcp_phase_entered = true } } in
      let sb : IsSound b =
        alike-IsSound a b (record { pairs = refl; locals = refl; remotes = refl; size = refl }) s in
      config-IsSound _ _ (
        if_cases IsSound (not (is_phased a.config.schedule_mode)) _ _ s (
          if_cases IsSound a.config.tcp_phase_entered _ _ s (
            if_cases IsSound _ _ _ s (
              if_cases IsSound (is_on_all_udp_fail a.config.tcp_relay_fallback) _ _ (sound b sb)
                sb))))

  arm_pairs-IsSound : (a : Agent) (now budget : ℕ) → IsSound a → IsSound (arm_pairs a now budget)
  arm_pairs-IsSound a now budget s = record {
    check_list = armed_list a now budget s.check_list;
    checks = (arm_pairs-IsArming a now budget).room s.checks;
  }

  pub arm_next-IsSound :
      (a : Agent) (now : ℕ) → IsSound a → IsSound (arm_next_frozen_pair relays a now)
  unfolding arm_next_frozen_pair
  arm_next-IsSound a now s =
      arm_pairs-IsSound (prepare_arming relays a now) now _ (prepare_arming-IsSound a now s)
