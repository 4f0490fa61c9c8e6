-- ===== src/Ice/Agent/Bookkeeping/Laws.antt =====
-- `onBookkeeping` and the gathering keep what every step of an agent keeps.
use stice.Base.{
  ℕ, zero, suc, ◌≡◌, refl, ap, Bool, true, false, not, ◌&&◌, Option, none, some, List, [], ◌∷◌,
  length, All, get_elem?, leb, ◌==◌, if◌then◌else◌, if_cases, is_empty,
}
use stice.Base.Ints.{is_positive}
use stice.Ice.Agent.{
  connecting, PairState, CandidatePair, StunEntry, Agent, is_controlling, is_check, is_pending,
}
use stice.Ice.Agent.Pairs.Laws.{IsPairOf, IsDistinct, same_candidates}
use stice.Ice.Agent.Schedule.{pair_is_tcp, pair_is_tcp_relay, test_pair, arm_transmission}
use stice.Ice.Agent.Progress.{state_code}
use stice.Ice.Agent.Responses.{fail_entry, arm_keepalive}
use stice.Ice.Agent.Checks.{sent_entry}
use stice.Ice.Agent.Gathering.{form_and_arm, check_gathering_complete}
use stice.Ice.Agent.Bookkeeping.{
  is_server, is_relay, is_cancelled, is_keepalive, max_retransmissions, retransmit, postpone,
  give_up_server, give_up, drive_relay, drive_pending, is_expired, drive_keepalive, drive_entry,
  drive_entries, should_nominate, request_nomination, rearm, nominate_pair, nominate_selected,
  entry_of, is_waiting, freeze_others, freeze_pairs, on_bookkeeping,
}
use stice.Ice.Agent.Soundness.{
  IsSound, KeepsCandidates, alike-IsSound, form_pairs-IsSound, change_state-IsSound,
  update_state-IsSound, arm_next-IsSound,
}
use stice.Ice.Agent.Soundness.Requests.{changed-IsSound}
use stice.Ice.Agent.Soundness.Responses.{entry-IsSound, set_pair-IsSound}

request_keeps : KeepsCandidates request_nomination
unfolding request_nomination
request_keeps p = (refl, refl, refl, refl)

freeze-All :
    (P : CandidatePair → Type 0) (k : ℕ) (pairs : List CandidatePair) (n : ℕ)
    → ((p : CandidatePair) → P p → P (record p { state = PairState.frozen }))
    → All P pairs
    → All P (freeze_others k pairs n)
unfolding freeze_others
freeze-All P k [] n f h = tt
freeze-All P k (p ∷ pairs) n f h = (
  if_cases P (not (n == k) && is_waiting p.state) _ _ (f p h.0) h.0,
  freeze-All P k pairs (suc n) f h.1,
)

length-freeze_others :
    (k : ℕ) (pairs : List CandidatePair) (n : ℕ) → length (freeze_others k pairs n) ≡ length pairs
unfolding freeze_others
length-freeze_others k [] n = refl
length-freeze_others k (p ∷ pairs) n = ap suc (length-freeze_others k pairs (suc n))

freeze-IsDistinct :
    (k : ℕ) (pairs : List CandidatePair) (n : ℕ)
    → IsDistinct pairs
    → IsDistinct (freeze_others k pairs n)
unfolding freeze_others IsDistinct same_candidates
freeze-IsDistinct k [] n d = tt
freeze-IsDistinct k (p ∷ pairs) n d = (
  freeze-All (λ (q : CandidatePair). same_candidates (head n) q ≡ false) k pairs (suc n)
      (λ q e. kept q e) (apart n d.0),
  freeze-IsDistinct k pairs (suc n) d.1,
)
  where
    head : ℕ → CandidatePair
    head n = if not (n == k) && is_waiting p.state then record p { state = PairState.frozen } else p

    kept :
        (q : CandidatePair)
        → same_candidates (head n) q ≡ false
        → same_candidates (head n) (record q { state = PairState.frozen }) ≡ false
    kept q e = e

    apart :
        (n : ℕ)
        → All (λ (q : CandidatePair). same_candidates p q ≡ false) pairs
        → All (λ (q : CandidatePair). same_candidates (head n) q ≡ false) pairs
    apart n h =
        if_cases
          (λ (x : CandidatePair). All (λ (q : CandidatePair). same_candidates x q ≡ false) pairs)
          (not (n == k) && is_waiting p.state) _ _ h h

freeze_pairs-IsSound : (a : Agent) (o : Option ℕ) → IsSound a → IsSound (freeze_pairs a o)
unfolding freeze_pairs
freeze_pairs-IsSound a none s = s
freeze_pairs-IsSound a (some k) s = record {
  check_list = record {
    paired =
        freeze-All (IsPairOf a.local_candidates a.remote_candidates) k a.pairs 0 frozen
          s.check_list.paired;
    distinct = freeze-IsDistinct k a.pairs 0 s.check_list.distinct;
    bounded = rw (length-freeze_others k a.pairs 0) s.check_list.bounded;
  };
  checks = s.checks;
}
  where
    frozen :
        (p : CandidatePair)
        → IsPairOf a.local_candidates a.remote_candidates p
        → IsPairOf a.local_candidates a.remote_candidates (record p { state = PairState.frozen })
    frozen p h = record {
      local_there = h.local_there;
      remote_there = h.remote_there;
      family = h.family;
      transports = h.transports;
      routable = h.routable;
    }

rearm-IsSound : (a : Agent) (o : Option ℕ) (now : ℕ) → IsSound a → IsSound (rearm a o now)
unfolding rearm
rearm-IsSound a none now s = s
rearm-IsSound a (some n) now s =
    entry-IsSound a n (λ (e : StunEntry). arm_transmission a.config a.pairs now e 0) s

nominate_pair-IsSound :
    (a : Agent) (now k : ℕ) (o : Option CandidatePair)
    → IsSound a
    → IsSound (nominate_pair a now k o)
unfolding nominate_pair
nominate_pair-IsSound a now k none s = s
nominate_pair-IsSound a now k (some p) s =
    if_cases IsSound (is_controlling a.mode && (not p.nominated && not p.nomination_requested)) _ _
      (if_cases IsSound (should_nominate a now k p) _ _
        (rearm-IsSound _ (entry_of a.entries k) now
          (changed-IsSound a k request_nomination request_keeps s))
        s)
      s

nominate_selected-IsSound :
    (a : Agent) (now : ℕ) (o : Option ℕ) → IsSound a → IsSound (nominate_selected a now o)
unfolding nominate_selected
nominate_selected-IsSound a now none s = s
nominate_selected-IsSound a now (some k) s = nominate_pair-IsSound a now k _ s

module _ (relays : Agent → Agent) (sound : (a : Agent) → IsSound a → IsSound (relays a)) where
  pub form_and_arm-IsSound : (a : Agent) (now : ℕ) → IsSound a → IsSound (form_and_arm relays a now)
  unfolding form_and_arm
  form_and_arm-IsSound a now s = arm_next-IsSound relays sound _ now (form_pairs-IsSound a s)

  pub check_gathering_complete-IsSound :
      (a : Agent) (now : ℕ) → IsSound a → IsSound (check_gathering_complete relays a now)
  unfolding check_gathering_complete
  check_gathering_complete-IsSound a now s =
      let b : Agent = record a { gathering_done = true } in
      let sb : IsSound b =
        alike-IsSound a b (record { pairs = refl; locals = refl; remotes = refl; size = refl }) s in
      if_cases IsSound (is_positive a.pending_relay) _ _ s (
        if_cases IsSound (is_positive a.pending_reflexive) _ _ s (
          if_cases IsSound a.gathering_done _ _ s (
            if_cases IsSound
              (not (is_empty a.remote_ufrag)
                && (not (is_empty a.remote_pwd) && (state_code a.state == 1)))
              _ _ (change_state-IsSound _ connecting now (form_and_arm-IsSound b now sb)) sb)))

  module _ (tick : ℕ → Agent → Agent) (bound : Bool)
      (ticks : (n : ℕ) (a : Agent) → IsSound a → IsSound (tick n a)) where
    give_up_server-IsSound :
        (a : Agent) (e : StunEntry) (now : ℕ)
        → IsSound a
        → IsSound (give_up_server relays tick bound a e now)
    unfolding give_up_server
    give_up_server-IsSound a e now s =
        if_cases IsSound (is_server e.type) _ _
          (check_gathering_complete-IsSound _ now (
            alike-IsSound a _ (record { pairs = refl; locals = refl; remotes = refl; size = refl })
              s))
          s

    give_up-IsSound :
        (a : Agent) (n : ℕ) (e : StunEntry) (now : ℕ)
        → IsSound a
        → IsSound (give_up relays tick bound a n e now)
    unfolding give_up
    give_up-IsSound a n e now s =
        let sc =
          set_pair-IsSound _ e.pair PairState.failed
            (give_up_server-IsSound _ e now (entry-IsSound a n fail_entry s)) in
        if_cases IsSound (is_check e.type) _ _ (arm_next-IsSound relays sound _ now sc) sc

    drive_relay-IsSound :
        (a : Agent) (n : ℕ) (e : StunEntry)
        → IsSound a
        → IsSound (drive_relay relays tick bound a n e)
    unfolding drive_relay
    drive_relay-IsSound a n e s =
        if_cases IsSound (is_relay e.type && not (is_cancelled e.state)) _ _ (ticks n a s) s

    drive_pending-IsSound :
        (a : Agent) (n : ℕ) (e : StunEntry) (now : ℕ) (fresh : List ℕ)
        → IsSound a
        → IsSound (drive_pending relays tick bound a n e now fresh)
    unfolding drive_pending
    drive_pending-IsSound a n e now fresh s =
        let is_tcp = test_pair a.pairs e.pair pair_is_tcp in
        let is_turn_tcp_relay = test_pair a.pairs e.pair pair_is_tcp_relay in
        if_cases IsSound (is_turn_tcp_relay && not bound) _ _ (entry-IsSound a n (postpone now) s) (
          if_cases IsSound
            (leb (max_retransmissions a.config is_turn_tcp_relay is_tcp) e.retransmissions) _ _
            (give_up-IsSound a n e now s)
            (drive_relay-IsSound _ n e (entry-IsSound a n (retransmit a is_tcp fresh now) s)))

    drive_keepalive-IsSound :
        (a : Agent) (n : ℕ) (e : StunEntry) (now : ℕ) (fresh : List ℕ) (random : ℕ)
        → IsSound a
        → IsSound (drive_keepalive relays tick bound a n e now fresh random)
    unfolding drive_keepalive
    drive_keepalive-IsSound a n e now fresh random s =
        if_cases IsSound (test_pair a.pairs e.pair (is_expired now)) _ _
          (set_pair-IsSound _ e.pair PairState.failed (entry-IsSound a n fail_entry s))
          (drive_relay-IsSound _ n e (
            if_cases IsSound (leb e.next_transmission now) _ _
              (entry-IsSound a n
                (λ (f : StunEntry). arm_keepalive a now random (sent_entry a fresh f)) s)
              s))

    drive_entry-IsSound :
        (a : Agent) (n : ℕ) (o : Option StunEntry) (now : ℕ) (fresh : List ℕ) (random : ℕ)
        → IsSound a
        → IsSound (drive_entry relays tick bound a n o now fresh random)
    unfolding drive_entry
    drive_entry-IsSound a n none now fresh random s = s
    drive_entry-IsSound a n (some e) now fresh random s =
        if_cases IsSound (is_pending e.state && leb e.next_transmission now) _ _
          (drive_pending-IsSound a n e now fresh s)
          (if_cases IsSound (is_keepalive e.state) _ _
            (drive_keepalive-IsSound a n e now fresh random s) (drive_relay-IsSound a n e s))

    drive_entries-IsSound :
        (a : Agent) (n count now : ℕ) (fresh : ℕ → List ℕ) (random : ℕ → ℕ)
        → IsSound a
        → IsSound (drive_entries relays tick bound a n count now fresh random)
    unfolding drive_entries
    drive_entries-IsSound a n zero now fresh random s = s
    drive_entries-IsSound a n (suc count) now fresh random s =
        drive_entries-IsSound
          (drive_entry relays tick bound a n (get_elem? a.entries n) now (fresh n) (random n))
          (suc n) count now fresh random (drive_entry-IsSound a n _ now (fresh n) (random n) s)

    pub on_bookkeeping-IsSound :
        (a : Agent) (now : ℕ) (fresh : ℕ → List ℕ) (random : ℕ → ℕ)
        → IsSound a
        → IsSound (on_bookkeeping relays tick bound a now fresh random)
    unfolding on_bookkeeping
    on_bookkeeping-IsSound a now fresh random s = update_state-IsSound _ now (
        freeze_pairs-IsSound _ _
          (nominate_selected-IsSound _ now _ (drive_entries-IsSound a 0 _ now fresh random s)))
