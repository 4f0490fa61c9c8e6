-- ===== src/Ice/Agent/Bookkeeping/Deadlines.antt =====
-- `nextTimestampMs` asks for the earliest deadline.
use stice.Base.{
  ℕ, zero, suc, ◌+◌, max, ◌≤◌, ◌<◌, ◌≡◌, ◌≢◌, refl, ap, sym, arith, Bool, true, false, not, ◌&&◌,
  Option, none, some, List, [], ◌∷◌, get_elem?, ltb, ltb→lt, ltb→ge, ◌==◌, ==_ne, if◌then◌else◌,
  Bool-cases, inl, inr, ◌⊎◌,
}
use stice.Ice.Agent.{CandidatePair, StunEntry, Agent, is_controlling, is_pending}
use stice.Ice.Agent.Responses.{is_idle}
use stice.Ice.Agent.Bookkeeping.{is_relay, is_keepalive, acceptance_min_wait}
use stice.Ice.Agent.Bookkeeping.Timestamp.{
  gather_timeout_ms, sooner, is_timed, next_entry, next_pair, selected, next_of, next_gathering,
  next_patience, next_timestamp,
}

-- What an agent waits for: the next transmission of an entry that is pending, keeps a pair alive or
-- is an idle relay; the end of the acceptance wait of a selected pair that is to be nominated; the
-- deadlines of connections; the end of the gathering, and of the patience with failed pairs.
pub data IsDeadline (a : Agent) (others : List ℕ) (d : ℕ) : Type 0 where
  entry :
      (n : ℕ) (e : StunEntry)
      → get_elem? a.entries n ≡ some e
      → (is_pending e.state ≡ true)
        ⊎ ((is_keepalive e.state ≡ true) ⊎ ((is_relay e.type ≡ true) × (is_idle e.state ≡ true)))
      → d ≡ e.next_transmission
      → IsDeadline a others d
  acceptance :
      (k : ℕ) (p : CandidatePair)
      → a.selected_pair ≡ some k
      → get_elem? a.pairs k ≡ some p
      → is_controlling a.mode ≡ true
      → p.nominated ≡ false
      → p.nomination_requested ≡ false
      → d
        ≡ a.checking_start_time
          + max
              (acceptance_min_wait a p.local_candidate.type)
              (acceptance_min_wait a p.remote_candidate.type)
      → IsDeadline a others d
  other : (n : ℕ) → get_elem? others n ≡ some d → IsDeadline a others d
  gathered :
      a.gathering_done ≡ false
      → a.gather_started ≢ 0
      → d ≡ a.gather_started + gather_timeout_ms
      → IsDeadline a others d
  patience : a.pac_deadline ≢ 0 → d ≡ a.pac_deadline → IsDeadline a others d

-- The earliest of the times of a kind, or there is none.
Earliest : (ℕ → Type 0) → Option ℕ → Type 0
Earliest P none = (d : ℕ) → ¬ P d
Earliest P (some u) = P u × ((d : ℕ) → P d → u ≤ d)

change :
    (P Q : ℕ → Type 0) (o : Option ℕ)
    → ((d : ℕ) → P d → Q d)
    → ((d : ℕ) → Q d → P d)
    → Earliest P o
    → Earliest Q o
unfolding Earliest
change P Q none to from e = λ d q. e d (from d q)
change P Q (some u) to from e = (to u e.0, λ d q. e.1 d (from d q))

-- The times of P, and t.
abbrev Or : (ℕ → Type 0) → ℕ → ℕ → Type 0
Or P t d = P d ⊎ (d ≡ t)

sooner-Earliest :
    (P : ℕ → Type 0) (t : ℕ) (o : Option ℕ) → Earliest P o → Earliest (Or P t) (sooner t o)
unfolding Earliest sooner
sooner-Earliest P t none e = (inr refl, least)
  where
    least : (d : ℕ) → Or P t d → t ≤ d
    least d (inl p) = absurd (e d p)
    least d (inr q) = omega (arith, q)
sooner-Earliest P t (some u) e = elim (Bool-cases (ltb t u)) [
  | inl h ↦ rw h (inr refl, below (ltb→lt t u h))
  | inr h ↦ rw h (inl e.0, above (ltb→ge t u h))
]
  where
    below : t < u → (d : ℕ) → Or P t d → t ≤ d
    below h d (inl p) = omega (arith, h, e.1 d p)
    below h d (inr q) = omega (arith, q)

    above : u ≤ t → (d : ℕ) → Or P t d → u ≤ d
    above h d (inl p) = e.1 d p
    above h d (inr q) = omega (arith, h, q)

-- The times of P, and t under a condition.
abbrev OrIf : (ℕ → Type 0) → Bool → ℕ → ℕ → Type 0
OrIf P b t d = P d ⊎ ((b ≡ true) × (d ≡ t))

if-Earliest :
    (P : ℕ → Type 0) (b : Bool) (t : ℕ) (o : Option ℕ)
    → Earliest P o
    → Earliest (OrIf P b t) (if b then sooner t o else o)
if-Earliest P true t o e =
    change (Or P t) (OrIf P true t) (sooner t o) to from (sooner-Earliest P t o e)
  where
    to : (d : ℕ) → Or P t d → OrIf P true t d
    to d (inl p) = inl p
    to d (inr q) = inr (refl, q)

    from : (d : ℕ) → OrIf P true t d → Or P t d
    from d (inl p) = inl p
    from d (inr q) = inr q.1
if-Earliest P false t o e = change P (OrIf P false t) o (λ d p. inl p) from e
  where
    from : (d : ℕ) → OrIf P false t d → P d
    from d (inl p) = p
    from d (inr q) = absurd (cc (q.0))

some_eq {ℓ} : {A : Type ℓ} {x y : A} → some x ≡ some y → x ≡ y
some_eq h = cc

-- The times of entries, and of connections.
abbrev EntryTime : List StunEntry → ℕ → Type 0
EntryTime es d =
    (n : ℕ) × (e : StunEntry) × (get_elem? es n ≡ some e)
    × (is_timed e ≡ true)
    × (d ≡ e.next_transmission)

abbrev OtherTime : List ℕ → ℕ → Type 0
OtherTime ds d = (n : ℕ) × (get_elem? ds n ≡ some d)

next_entry-Earliest :
    (P : ℕ → Type 0) (es : List StunEntry) (o : Option ℕ)
    → Earliest P o
    → Earliest (λ (d : ℕ). P d ⊎ EntryTime es d) (next_entry es o)
unfolding next_entry get_elem?
next_entry-Earliest P [] o first = change P _ o (λ d p. inl p) from first
  where
    from : (d : ℕ) → P d ⊎ EntryTime [] d → P d
    from d (inl p) = p
    from d (inr (n, e, h, t, q)) = absurd (cc (h))
next_entry-Earliest P (e ∷ es) o first =
    change (λ (d : ℕ). OrIf P (is_timed e) e.next_transmission d ⊎ EntryTime es d)
      (λ (d : ℕ). P d ⊎ EntryTime (e ∷ es) d) _ to from
      (next_entry-Earliest (OrIf P (is_timed e) e.next_transmission) es _
        (if-Earliest P (is_timed e) e.next_transmission o first))
  where
    to :
        (d : ℕ)
        → OrIf P (is_timed e) e.next_transmission d ⊎ EntryTime es d
        → P d ⊎ EntryTime (e ∷ es) d
    to d (inl (inl p)) = inl p
    to d (inl (inr (t, q))) = inr (zero, e, refl, t, q)
    to d (inr (n, x, h, t, q)) = inr (suc n, x, h, t, q)

    from :
        (d : ℕ)
        → P d ⊎ EntryTime (e ∷ es) d
        → OrIf P (is_timed e) e.next_transmission d ⊎ EntryTime es d
    from d (inl p) = inl (inl p)
    from d (inr (zero, x, h, t, q)) =
        let same : e ≡ x = some_eq h in inl (inr (rw same t, rw same q))
    from d (inr (suc n, x, h, t, q)) = inr (n, x, h, t, q)

next_of-Earliest :
    (P : ℕ → Type 0) (ds : List ℕ) (o : Option ℕ)
    → Earliest P o
    → Earliest (λ (d : ℕ). P d ⊎ OtherTime ds d) (next_of ds o)
unfolding next_of get_elem?
next_of-Earliest P [] o first = change P _ o (λ d p. inl p) from first
  where
    from : (d : ℕ) → P d ⊎ OtherTime [] d → P d
    from d (inl p) = p
    from d (inr (n, h)) = absurd (cc (h))
next_of-Earliest P (t ∷ ds) o first =
    change (λ (d : ℕ). Or P t d ⊎ OtherTime ds d) (λ (d : ℕ). P d ⊎ OtherTime (t ∷ ds) d) _ to from
      (next_of-Earliest (Or P t) ds _ (sooner-Earliest P t o first))
  where
    to : (d : ℕ) → Or P t d ⊎ OtherTime ds d → P d ⊎ OtherTime (t ∷ ds) d
    to d (inl (inl p)) = inl p
    to d (inl (inr q)) = inr (zero, ap some (sym q))
    to d (inr (n, h)) = inr (suc n, h)

    from : (d : ℕ) → P d ⊎ OtherTime (t ∷ ds) d → Or P t d ⊎ OtherTime ds d
    from d (inl p) = inl (inl p)
    from d (inr (zero, h)) = inl (inr (sym (some_eq h)))
    from d (inr (suc n, h)) = inr (n, h)

abbrev wait_end : Agent → CandidatePair → ℕ
wait_end a p =
    a.checking_start_time
    + max (acceptance_min_wait a p.local_candidate.type)
        (acceptance_min_wait a p.remote_candidate.type)

abbrev is_due : Agent → CandidatePair → Bool
is_due a p = is_controlling a.mode && (not p.nominated && not p.nomination_requested)

abbrev PairTime : Agent → Option CandidatePair → ℕ → Type 0
PairTime a o d = (p : CandidatePair) × (o ≡ some p) × (is_due a p ≡ true) × (d ≡ wait_end a p)

next_pair-Earliest :
    (P : ℕ → Type 0) (a : Agent) (p : Option CandidatePair) (o : Option ℕ)
    → Earliest P o
    → Earliest (λ (d : ℕ). P d ⊎ PairTime a p d) (next_pair a p o)
unfolding next_pair
next_pair-Earliest P a none o first = change P _ o (λ d p. inl p) from first
  where
    from : (d : ℕ) → P d ⊎ PairTime a none d → P d
    from d (inl p) = p
    from d (inr (p, h, t, q)) = absurd (cc (h))
next_pair-Earliest P a (some p) o first =
    change (OrIf P (is_due a p) (wait_end a p)) (λ (d : ℕ). P d ⊎ PairTime a (some p) d) _ to from
      (if-Earliest P (is_due a p) (wait_end a p) o first)
  where
    to : (d : ℕ) → OrIf P (is_due a p) (wait_end a p) d → P d ⊎ PairTime a (some p) d
    to d (inl q) = inl q
    to d (inr (t, q)) = inr (p, refl, t, q)

    from : (d : ℕ) → P d ⊎ PairTime a (some p) d → OrIf P (is_due a p) (wait_end a p) d
    from d (inl q) = inl q
    from d (inr (x, h, t, q)) = let same : p ≡ x = some_eq h in inr (rw same t, rw same q)

-- The kinds of time together are the deadlines.
abbrev AnyTime : Agent → List ℕ → ℕ → Type 0
AnyTime a others d =
    OrIf
      (OrIf
        (λ (d : ℕ). ((⊥ ⊎ EntryTime a.entries d) ⊎ PairTime a (selected a) d) ⊎ OtherTime others d)
        (not a.gathering_done && not (a.gather_started == 0))
        (a.gather_started + gather_timeout_ms))
      (not (a.pac_deadline == 0)) a.pac_deadline d

both : (x y : Bool) → (x && y) ≡ true → (x ≡ true) × (y ≡ true)
both true y h = (refl, h)
both false y h = cc

timed :
    (e : StunEntry)
    → is_timed e ≡ true
    → (is_pending e.state ≡ true)
      ⊎ ((is_keepalive e.state ≡ true) ⊎ ((is_relay e.type ≡ true) × (is_idle e.state ≡ true)))
unfolding is_timed
timed e h = elim (Bool-cases (is_pending e.state)) [
  | inl p ↦ inl p
  | inr p ↦ elim (Bool-cases (is_keepalive e.state)) [
    | inl k ↦ inr (inl k)
    | inr k ↦ inr (inr (both _ _ (rw (p, k) at h)))
  ]
]

timed_by :
    (e : StunEntry)
    → (is_pending e.state ≡ true)
      ⊎ ((is_keepalive e.state ≡ true) ⊎ ((is_relay e.type ≡ true) × (is_idle e.state ≡ true)))
    → is_timed e ≡ true
unfolding is_timed
timed_by e (inl p) = rw p refl
timed_by e (inr (inl k)) = ground arith
timed_by e (inr (inr (r, i))) = ground arith

nonzero : (n : ℕ) → not (n == 0) ≡ true → n ≢ 0
nonzero n h = ground arith

nonzero_by : (n : ℕ) → n ≢ 0 → not (n == 0) ≡ true
nonzero_by n h = rw (==_ne n 0 h) refl

unset : (b : Bool) → not b ≡ true → b ≡ false
unset true h = cc
unset false h = refl

chosen :
    (a : Agent) (o : Option ℕ) (p : CandidatePair)
    → a.selected_pair ≡ o
    → (elim o as (λ x. Option CandidatePair) [ none ↦ none | some k ↦ get_elem? a.pairs k ])
      ≡ some p
    → (k : ℕ) × (a.selected_pair ≡ some k) × (get_elem? a.pairs k ≡ some p)
chosen a none p s h = cc
chosen a (some k) p s h = (k, s, h)

module _ (a : Agent) (others : List ℕ) where
  to_deadline : (d : ℕ) → AnyTime a others d → IsDeadline a others d
  to_deadline d (inl (inl (inl (inl (inl x))))) = absurd x
  to_deadline d (inl (inl (inl (inl (inr (n, e, there, t, q)))))) = entry n e there (timed e t) q
  to_deadline d (inl (inl (inl (inr (p, h, t, q))))) =
      let (k, s, there) = chosen a a.selected_pair p refl h in
      let (mode, open_) = both _ _ t in
      let (named, asked) = both _ _ open_ in
      acceptance k p s there mode (unset _ named) (unset _ asked) q
  to_deadline d (inl (inl (inr (n, h)))) = other n h
  to_deadline d (inl (inr (t, q))) =
      let (going, started) = both _ _ t in gathered (unset _ going) (nonzero _ started) q
  to_deadline d (inr (t, q)) = patience (nonzero _ t) q

  from_deadline : (d : ℕ) → IsDeadline a others d → AnyTime a others d
  from_deadline d (entry n e there t q) = inl (inl (inl (inl (inr (n, e, there, timed_by e t, q)))))
  from_deadline d (acceptance k p s there mode named asked q) =
      inl (inl (inl (inr (p, rw s there, rw (mode, named, asked) refl, q))))
  from_deadline d (other n h) = inl (inl (inr (n, h)))
  from_deadline d (gathered going started q) = inl (inr (rw (going, nonzero_by _ started) refl, q))
  from_deadline d (patience set q) = inr (nonzero_by _ set, q)

-- `nextTimestampMs` asks for the earliest of all deadlines of the agent; where there is none it answers
-- 0, which asks for no wake-up.
pub next_timestamp-earliest :
    (a : Agent) (others : List ℕ)
    → (((d : ℕ) → ¬ IsDeadline a others d) × (next_timestamp a others ≡ 0))
      ⊎ (IsDeadline a others (next_timestamp a others)
          × ((d : ℕ) → IsDeadline a others d → next_timestamp a others ≤ d))
unfolding next_timestamp next_gathering next_patience Earliest
next_timestamp-earliest a others = answer _ (
    change (AnyTime a others) (IsDeadline a others) _ (to_deadline a others)
      (from_deadline a others)
      (if-Earliest _ (not (a.pac_deadline == 0)) a.pac_deadline _ (
        if-Earliest _ (not a.gathering_done && not (a.gather_started == 0))
          (a.gather_started + gather_timeout_ms) _
          (next_of-Earliest _ others _ (
            next_pair-Earliest _ a (selected a) _
              (next_entry-Earliest (λ d. ⊥) a.entries none (λ d h. h)))))))
  where
    answer :
        (o : Option ℕ)
        → Earliest (IsDeadline a others) o
        → (((d : ℕ) → ¬ IsDeadline a others d)
            × ((elim o as (λ x. ℕ) [ none ↦ 0 | some u ↦ u ]) ≡ 0))
          ⊎ (IsDeadline a others (elim o as (λ x. ℕ) [ none ↦ 0 | some u ↦ u ])
              × ((d : ℕ)
                  → IsDeadline a others d
                  → (elim o as (λ x. ℕ) [ none ↦ 0 | some u ↦ u ]) ≤ d))
    answer none e = inl (e, refl)
    answer (some u) e = inr e
