-- ===== src/Ice/Agent/Bookkeeping/Consent.antt =====
-- RFC 7675: a pair whose consent has run out does not stay in use.
use stice.Base.{
  ℕ, zero, suc, ◌+◌, ◌≤◌, ◌<◌, ◌≡◌, ◌≢◌, refl, ap, sym, ◌∙◌, subst, arith, Bool, true, false, not,
  ◌&&◌, Option, none, some, List, length, get_elem?, get_elem?_bound, get_elem?-modify, modify, leb,
  le→leb, ◌==◌, ==_iff, ==-refl, if_cases, Bool-cases, inl, inr,
}
use stice.Base.Ints.{pred}
use stice.Ice.Agent.{
  PairState, CandidatePair, StunEntry, StunEntryState, Agent, is_succeeded, is_check, is_pending,
}
use stice.Ice.Agent.Schedule.{pair_is_tcp, pair_is_tcp_relay, test_pair}
use stice.Ice.Agent.Requests.{set_state}
use stice.Ice.Agent.Responses.{set_pair, fail_entry, arm_keepalive}
use stice.Ice.Agent.Checks.{sent_entry}
use stice.Ice.Agent.Bookkeeping.{
  is_server, is_relay, is_cancelled, is_keepalive, max_retransmissions, retransmit, postpone,
  is_expired, give_up_server, give_up, drive_relay, drive_pending, drive_keepalive, drive_entry,
  drive_entries, nominate_selected, freeze_pairs, on_bookkeeping,
}
use stice.Ice.Agent.Bookkeeping.Wanes.{
  Wanes, Frame, Wanes-trans, Frame-refl, Frame-trans, Frame-of, Wanes-refl, entry-Frame,
  set_pair-Frame,
}
use stice.Ice.Agent.Bookkeeping.Steps.{
  update_state-Frame, nominate_selected-Wanes, freeze_pairs-Wanes, arm_next-Frame,
  check_gathering_complete-Frame,
}

-- The pair at k, if there is one, has not succeeded.
abbrev IsDown : ℕ → List CandidatePair → Type 0
IsDown k ps = (q : CandidatePair) → get_elem? ps k ≡ some q → is_succeeded q.state ≡ false

keepalive_only : (s : StunEntryState) → is_keepalive s ≡ true → is_pending s ≡ false
unfolding is_keepalive is_pending
keepalive_only StunEntryState.pending h = cc
keepalive_only StunEntryState.cancelled h = cc
keepalive_only StunEntryState.failed h = cc
keepalive_only StunEntryState.succeeded h = cc
keepalive_only StunEntryState.succeeded_keepalive h = refl
keepalive_only StunEntryState.idle h = cc

-- It stays so.
IsDown-stays :
    (k : ℕ) (ps qs : List CandidatePair) (p : CandidatePair)
    → get_elem? ps k ≡ some p
    → is_succeeded p.state ≡ false
    → Wanes ps qs
    → IsDown k qs
IsDown-stays k ps qs p there down w q found =
    let (r, hr, f) = w k p there in
    let same : r ≡ q = some_eq (sym hr ∙ found) in
    elim (Bool-cases (is_succeeded q.state)) [
      | inr e ↦ e
      | inl e ↦ absurd (cc (down, f.success (rw same e)))
    ]
  where
    some_eq : {x y : CandidatePair} → some x ≡ some y → x ≡ y
    some_eq h = cc

failed_down : (p : CandidatePair) → is_succeeded (set_state PairState.failed p).state ≡ false
unfolding set_state is_succeeded
failed_down p = refl

tested :
    (ps : List CandidatePair) (k : ℕ) (p : CandidatePair) (test : CandidatePair → Bool)
    → get_elem? ps k ≡ some p
    → test_pair ps (some k) test ≡ test p
unfolding test_pair
tested ps k p test h = rw (h, test_pair) refl

run_out : (now : ℕ) (p : CandidatePair) → p.consent_expiry ≤ now → is_expired now p ≡ true
unfolding is_expired
run_out now p h = le→leb p.consent_expiry now h

module _ (relays : Agent → Agent) (tick : ℕ → Agent → Agent) (bound : Bool)
    (leaves : (m : ℕ) (a : Agent) → Frame m a (relays a))
    (ticks : (m : ℕ) (a : Agent) → Frame m a (tick m a)) where
  give_up-Frame :
      (a : Agent) (n : ℕ) (e : StunEntry) (now : ℕ)
      → Frame n a (give_up relays tick bound a n e now)
  unfolding give_up give_up_server
  give_up-Frame a n e now =
      let P : Agent → Type 0 = Frame n a in
      let b : Agent = record a { entries = modify a.entries n fail_entry } in
      let c : Agent = record b { pending_reflexive = pred b.pending_reflexive } in
      let fb : Frame n a b = entry-Frame n a fail_entry in
      let served : Frame n a (give_up_server relays tick bound b e now) =
        if_cases P (is_server e.type) _ _
          (Frame-trans n a c _ (Frame-trans n a b c fb (Frame-of n b c (Wanes-refl b.pairs) refl))
            (check_gathering_complete-Frame relays leaves n c now))
          fb in
      let failed = Frame-trans n a _ _ served (set_pair-Frame n _ e.pair) in
      if_cases P (is_check e.type) _ _
        (Frame-trans n a _ _ failed (arm_next-Frame relays leaves n _ now)) failed

  drive_relay-Frame :
      (a b : Agent) (n : ℕ) (e : StunEntry)
      → Frame n a b
      → Frame n a (drive_relay relays tick bound b n e)
  unfolding drive_relay
  drive_relay-Frame a b n e f =
      if_cases (Frame n a) (is_relay e.type && not (is_cancelled e.state)) _ _
        (Frame-trans n a b _ f (ticks n b)) f

  drive_pending-Frame :
      (a : Agent) (n : ℕ) (e : StunEntry) (now : ℕ) (fresh : List ℕ)
      → Frame n a (drive_pending relays tick bound a n e now fresh)
  unfolding drive_pending
  drive_pending-Frame a n e now fresh =
      let P : Agent → Type 0 = Frame n a in
      let is_tcp = test_pair a.pairs e.pair pair_is_tcp in
      let is_turn_tcp_relay = test_pair a.pairs e.pair pair_is_tcp_relay in
      if_cases P (is_turn_tcp_relay && not bound) _ _ (entry-Frame n a (postpone now)) (
        if_cases P (leb (max_retransmissions a.config is_turn_tcp_relay is_tcp) e.retransmissions) _
          _ (give_up-Frame a n e now)
          (drive_relay-Frame a _ n e (entry-Frame n a (retransmit a is_tcp fresh now))))

  drive_keepalive-Frame :
      (a : Agent) (n : ℕ) (e : StunEntry) (now : ℕ) (fresh : List ℕ) (random : ℕ)
      → Frame n a (drive_keepalive relays tick bound a n e now fresh random)
  unfolding drive_keepalive
  drive_keepalive-Frame a n e now fresh random =
      let P : Agent → Type 0 = Frame n a in
      if_cases P (test_pair a.pairs e.pair (is_expired now)) _ _
        (Frame-trans n a _ _ (entry-Frame n a fail_entry) (set_pair-Frame n _ e.pair))
        (drive_relay-Frame a _ n e (
          if_cases P (leb e.next_transmission now) _ _
            (entry-Frame n a (λ (f : StunEntry). arm_keepalive a now random (sent_entry a fresh f)))
            (Frame-refl n a)))

  drive_entry-Frame :
      (a : Agent) (n : ℕ) (o : Option StunEntry) (now : ℕ) (fresh : List ℕ) (random : ℕ)
      → Frame n a (drive_entry relays tick bound a n o now fresh random)
  unfolding drive_entry
  drive_entry-Frame a n none now fresh random = Frame-refl n a
  drive_entry-Frame a n (some e) now fresh random =
      if_cases (Frame n a) (is_pending e.state && leb e.next_transmission now) _ _
        (drive_pending-Frame a n e now fresh)
        (if_cases (Frame n a) (is_keepalive e.state) _ _
          (drive_keepalive-Frame a n e now fresh random)
          (drive_relay-Frame a a n e (Frame-refl n a)))

  drive_entries-Wanes :
      (count : ℕ) (a : Agent) (n now : ℕ) (fresh : ℕ → List ℕ) (random : ℕ → ℕ)
      → Wanes a.pairs (drive_entries relays tick bound a n count now fresh random).pairs
  unfolding drive_entries
  drive_entries-Wanes zero a n now fresh random = Wanes-refl a.pairs
  drive_entries-Wanes (suc count) a n now fresh random =
      let b = drive_entry relays tick bound a n (get_elem? a.entries n) now (fresh n) (random n) in
      Wanes-trans a.pairs b.pairs _
        (drive_entry-Frame a n (get_elem? a.entries n) now (fresh n) (random n)).pairs
        (drive_entries-Wanes count b (suc n) now fresh random)

  -- The entry that keeps the pair k alive finds its consent run out.
  expired :
      (a : Agent) (n : ℕ) (e : StunEntry) (k : ℕ) (p : CandidatePair) (now : ℕ) (fresh : List ℕ)
      (random : ℕ)
      → is_keepalive e.state ≡ true
      → e.pair ≡ some k
      → get_elem? a.pairs k ≡ some p
      → p.consent_expiry ≤ now
      → get_elem? (drive_entry relays tick bound a n (some e) now fresh random).pairs k
        ≡ some (set_state PairState.failed p)
  unfolding drive_entry drive_keepalive set_pair
  expired a n e k p now fresh random alive paired there late =
      rw
        (
          keepalive_only e.state alive,
          alive,
          paired,
          tested a.pairs k p (is_expired now) there,
          run_out now p late,
        )
        (get_elem?-modify a.pairs k (set_state PairState.failed) p there)

  reached :
      (count : ℕ) (a : Agent) (m n : ℕ) (e : StunEntry) (k : ℕ) (p : CandidatePair) (now : ℕ)
      (fresh : ℕ → List ℕ) (random : ℕ → ℕ)
      → m ≤ n
      → n < m + count
      → get_elem? a.entries n ≡ some e
      → is_keepalive e.state ≡ true
      → e.pair ≡ some k
      → get_elem? a.pairs k ≡ some p
      → p.consent_expiry ≤ now
      → (q : CandidatePair) × (get_elem?
            (drive_entries relays tick bound a m count now fresh random).pairs
            k
          ≡ some q)
        × (is_succeeded q.state ≡ false)
  unfolding drive_entries
  reached zero a m n e k p now fresh random low high entry alive paired there late =
      absurd (omega (arith, low, high))
  reached (suc count) a m n e k p now fresh random low high entry alive paired there late =
      let b = drive_entry relays tick bound a m (get_elem? a.entries m) now (fresh m) (random m) in
      let frame : Frame m a b =
        drive_entry-Frame a m (get_elem? a.entries m) now (fresh m) (random m) in
      elim (Bool-cases (m == n)) [
        | inl same ↦
            let here : get_elem? b.pairs k ≡ some (set_state PairState.failed p) =
              subst
                (λ (o : Option StunEntry).
                  get_elem? (drive_entry relays tick bound a m o now (fresh m) (random m)).pairs k
                  ≡ some (set_state PairState.failed p))
                (sym (ap (get_elem? a.entries) ((==_iff m n).0 same) ∙ entry))
                (expired a m e k p now (fresh m) (random m) alive paired there late) in
            let (q, hq, f) =
              drive_entries-Wanes count b (suc m) now fresh random k (set_state PairState.failed p)
                here in
            (
              q,
              hq,
              IsDown-stays k b.pairs _ (set_state PairState.failed p) here (failed_down p)
                  (drive_entries-Wanes count b (suc m) now fresh random) q hq,
            )
        | inr other ↦
            let ne : n ≢ m = λ s. cc (other, ap (λ (x : ℕ). m == x) s, ==-refl m) in
            let (q, hq, f) = frame.pairs k p there in
            reached count b (suc m) n e k q now fresh random (omega (arith, low, ne))
              (omega (arith, high)) (frame.entries n e ne entry) alive paired hq
              (omega (arith, f.consent, late))
      ]

  -- Once `onBookkeeping` has run, a pair whose consent had run out, and which an entry was keeping
  -- alive, is not succeeded. What the TURN clients do on the way makes no pair succeed, moves no consent
  -- and leaves the other entries.
  pub on_bookkeeping-consent :
      (a : Agent) (now : ℕ) (fresh : ℕ → List ℕ) (random : ℕ → ℕ) (n : ℕ) (e : StunEntry) (k : ℕ)
      (p q : CandidatePair)
      → get_elem? a.entries n ≡ some e
      → is_keepalive e.state ≡ true
      → e.pair ≡ some k
      → get_elem? a.pairs k ≡ some p
      → p.consent_expiry ≤ now
      → get_elem? (on_bookkeeping relays tick bound a now fresh random).pairs k ≡ some q
      → is_succeeded q.state ≡ false
  unfolding on_bookkeeping
  on_bookkeeping-consent a now fresh random n e k p q entry alive paired there late found =
      let b = drive_entries relays tick bound a 0 (length a.entries) now fresh random in
      let (r, hr, down) =
        reached (length a.entries) a 0 n e k p now fresh random (omega arith)
          (omega (arith, get_elem?_bound a.entries n e entry)) entry alive paired there late in
      let c = nominate_selected b now b.selected_pair in
      let d = freeze_pairs c c.nominated_pair in
      IsDown-stays k b.pairs _ r hr down
        (Wanes-trans b.pairs c.pairs _ (nominate_selected-Wanes b now b.selected_pair) (
          Wanes-trans c.pairs d.pairs _ (freeze_pairs-Wanes c c.nominated_pair)
            (update_state-Frame 0 d now).pairs))
        q found
