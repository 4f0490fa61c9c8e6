-- ===== src/Ice/Agent/Schedule/Arming.antt =====
-- The loop over the ordered pairs arms the higher priorities first.
use stice.Base.{
  ℕ, ◌≤◌, ◌<◌, ◌≡◌, refl, ap, sym, ◌∙◌, subst, arith, Bool, true, false, not, ◌&&◌, ◌||◌, Option,
  none, some, List, [], ◌∷◌, ◌++◌, length, All, get_elem?, get_elem?_bound, ltb, ge→ltb, ltb→ge,
  ◌==◌, ==_iff, ==-refl, if◌then◌else◌, Bool-cases, if_cases, inl, inr, ◌⊎◌,
}
use stice.Ice.Agent.{AgentMode, IcePairingConfig, CandidatePair, StunEntry, Agent, max_stun_entries}
use stice.Ice.Agent.Pairs.{priority_at, sort_pairs, update_ordered_pairs}
use stice.Ice.Agent.Schedule.{
  arm_transmission, is_eligible, has_entry, armed_entry, arm_step, arm_loop, arm_pairs,
}
use stice.Ice.Agent.Schedule.Order.{
  IsFalling, Contains, sort_pairs-IsFalling, sort_pairs-Contains, or_true, has_entry-append,
}

module _ (cfg : IcePairingConfig) (pairs : List CandidatePair) (mode : AgentMode)
    (now budget : ℕ) where
  -- A round for the pair h: it arms it, or there is nothing to arm or no room.
  data Round (h : ℕ) (entries : List StunEntry) (after : List StunEntry) : Type 0 where
    arms :
        (p : CandidatePair)
        → after ≡ entries ++ (armed_entry cfg pairs mode now budget h p ∷ [])
        → Round h entries after
    waits :
        after ≡ entries
        → ((p : CandidatePair)
            → get_elem? pairs h ≡ some p
            → is_eligible cfg p ≡ true
            → (has_entry entries h ≡ true) ⊎ (max_stun_entries ≤ length entries))
        → Round h entries after

  round :
      (h : ℕ) (o : Option CandidatePair) (armed : ℕ) (entries : List StunEntry)
      → get_elem? pairs h ≡ o
      → Round h entries (arm_step cfg pairs mode now budget h o armed entries).0
  unfolding arm_step
  round h none armed entries e = waits refl (λ p there ok. cc)
  round h (some p) armed entries e = elim (Bool-cases (is_eligible cfg p)) [
    | inr f ↦ rw f (waits refl (λ q there ok. absurd (cc (e, there, ok, f))))
    | inl f ↦
        elim (Bool-cases (not (has_entry entries h) && ltb (length entries) max_stun_entries)) [
          | inl g ↦ rw (f, g) (arms p refl)
          | inr g ↦
              rw (f, g)
                (waits refl (λ q there ok. no_room (has_entry entries h) (length entries) g))
        ]
  ]
    where
      no_room :
          (b : Bool) (n : ℕ)
          → (not b && ltb n max_stun_entries) ≡ false
          → (b ≡ true) ⊎ (max_stun_entries ≤ n)
      no_room true n h = inl refl
      no_room false n h = inr (ltb→ge n max_stun_entries h)

  -- Later rounds take no entry away.
  loop_keeps :
      (ks : List ℕ) (armed : ℕ) (entries : List StunEntry) (k : ℕ)
      → has_entry entries k ≡ true
      → has_entry (arm_loop cfg pairs mode now budget ks armed entries) k ≡ true
  unfolding arm_loop
  loop_keeps [] armed entries k h = h
  loop_keeps (m ∷ ks) armed entries k h =
      let first = round_keeps m entries _ (round m (get_elem? pairs m) armed entries refl) k h in
      if_cases (λ (es : List StunEntry). has_entry es k ≡ true) _ _ _ first
        (loop_keeps ks _ _ k first)
    where
      round_keeps :
          (m : ℕ) (entries after : List StunEntry)
          → Round m entries after
          → (k : ℕ) → has_entry entries k ≡ true
          → has_entry after k ≡ true
      round_keeps m entries after (waits e w) k h = rw e h
      round_keeps m entries after (arms p e) k h =
          rw (e, has_entry-append entries (armed_entry cfg pairs mode now budget m p ∷ []) k, h)
            refl

  step_full :
      (o : Option CandidatePair) (m armed : ℕ) (entries : List StunEntry)
      → max_stun_entries ≤ length entries
      → (arm_step cfg pairs mode now budget m o armed entries).0 ≡ entries
  unfolding arm_step
  step_full none m armed entries h = refl
  step_full (some p) m armed entries h =
      let P = λ (t : List StunEntry × ℕ × Bool). t.0 ≡ entries in
      if_cases P (not (is_eligible cfg p)) _ _ refl
        (rw (ge→ltb (length entries) max_stun_entries h, none_of (has_entry entries m)) refl)
    where
      none_of : (b : Bool) → (not b && false) ≡ false
      none_of true = refl
      none_of false = refl

  loop_full :
      (ks : List ℕ) (armed : ℕ) (entries : List StunEntry)
      → max_stun_entries ≤ length entries
      → arm_loop cfg pairs mode now budget ks armed entries ≡ entries
  unfolding arm_loop
  loop_full [] armed entries h = refl
  loop_full (m ∷ ks) armed entries h =
      let same = step_full (get_elem? pairs m) m armed entries h in
      if_cases (λ (es : List StunEntry). es ≡ entries) _ _ _ same
        (loop_full ks _ _ (rw same h) ∙ same)

  entry_of :
      (h i : ℕ) (p : CandidatePair) (entries : List StunEntry)
      → has_entry (entries ++ (armed_entry cfg pairs mode now budget h p ∷ [])) i
        ≡ (has_entry entries i || (h == i))
  unfolding has_entry armed_entry arm_transmission
  entry_of h i p entries =
      has_entry-append entries (armed_entry cfg pairs mode now budget h p ∷ []) i
      ∙ ap (λ (b : Bool). has_entry entries i || b) (plain (h == i))
    where
      plain : (b : Bool) → (if b then true else false) ≡ b
      plain true = refl
      plain false = refl

  falling_le : (P : ℕ → Type 0) (ks : List ℕ) (k : ℕ) → All P ks → Contains ks k → P k
  unfolding Contains
  falling_le P [] k p c = absurd c
  falling_le P (m ∷ ks) k p (inl e) = subst P e p.0
  falling_le P (m ∷ ks) k p (inr c) = falling_le P ks k p.1 c

  armed_by :
      (ks : List ℕ) (armed : ℕ) (entries : List StunEntry) (i k : ℕ) (q : CandidatePair)
      → IsFalling pairs ks
      → Contains ks k
      → get_elem? pairs k ≡ some q
      → is_eligible cfg q ≡ true
      → priority_at pairs i < priority_at pairs k
      → has_entry entries i ≡ false
      → has_entry (arm_loop cfg pairs mode now budget ks armed entries) i ≡ true
      → has_entry (arm_loop cfg pairs mode now budget ks armed entries) k ≡ true
  unfolding IsFalling Contains arm_loop
  armed_by [] armed entries i k q f c there ok less fresh got = absurd c
  armed_by (h ∷ ks) armed entries i k q f c there ok less fresh got =
      go (arm_step cfg pairs mode now budget h (get_elem? pairs h) armed entries)
        (round h (get_elem? pairs h) armed entries refl)
        (λ n es c' fresh' got'. armed_by ks n es i k q f.1 c' there ok less fresh' got') got
    where
      go :
          (t : List StunEntry × ℕ × Bool)
          → Round h entries t.0
          → ((n : ℕ) (es : List StunEntry)
              → Contains ks k
              → has_entry es i ≡ false
              → has_entry (arm_loop cfg pairs mode now budget ks n es) i ≡ true
              → has_entry (arm_loop cfg pairs mode now budget ks n es) k ≡ true)
          → has_entry (if t.2 then t.0 else arm_loop cfg pairs mode now budget ks t.1 t.0) i ≡ true
          → has_entry (if t.2 then t.0 else arm_loop cfg pairs mode now budget ks t.1 t.0) k ≡ true
      go (es, n, true) (waits e w) rec got =
          absurd (cc (got, ap (λ (xs : List StunEntry). has_entry xs i) e, fresh))
      go (es, n, false) (waits e w) rec got = elim c [
        | inr c' ↦ rec n es c' (rw e fresh) got
        | inl e' ↦ elim (w q (rw e' there) ok) [
          | inl has ↦ loop_keeps ks n es k (rw (e, sym e') has)
          | inr full ↦ absurd (
              cc (
                got,
                ap (λ (xs : List StunEntry). has_entry xs i) (loop_full ks n es (rw e full) ∙ e),
                fresh,
              ))
        ]
      ]
      go (es, n, ends) (arms p e) rec got = elim (Bool-cases (h == i)) [
        | inl same ↦ absurd (higher ((==_iff h i).0 same))
        | inr other ↦ later ends got (rw (e, entry_of h i p entries, fresh, other) refl)
      ]
        where
          higher : h ≡ i → ⊥
          higher same = elim c [
            | inl e' ↦ omega (arith, less, ap (priority_at pairs) (sym same ∙ e'))
            | inr c' ↦ omega (
              arith,
              less,
              ap (priority_at pairs) same,
              falling_le (λ (m : ℕ). priority_at pairs m ≤ priority_at pairs h) ks k f.0 c',
            )
          ]

          later :
              (ends : Bool)
              → has_entry (if ends then es else arm_loop cfg pairs mode now budget ks n es) i ≡ true
              → has_entry es i ≡ false
              → has_entry (if ends then es else arm_loop cfg pairs mode now budget ks n es) k ≡ true
          later true got none_yet = absurd (cc (got, none_yet))
          later false got none_yet = elim c [
            | inr c' ↦ rec n es c' none_yet got
            | inl e' ↦
                loop_keeps ks n es k
                  (rw (e, entry_of h k p entries, e', ==-refl k) (or_true (has_entry entries k)))
          ]

-- Checks are armed by falling priority: where `armNextFrozenPair` arms a pair now, every pair of
-- higher priority that may be armed has its check too, if the ordered list is up to date.
pub arm_pairs-priority :
    (a : Agent) (now budget i k : ℕ) (q : CandidatePair)
    → a.ordered_pairs ≡ (update_ordered_pairs a).ordered_pairs
    → get_elem? a.pairs k ≡ some q
    → is_eligible a.config q ≡ true
    → priority_at a.pairs i < priority_at a.pairs k
    → has_entry a.entries i ≡ false
    → has_entry (arm_pairs a now budget).entries i ≡ true
    → has_entry (arm_pairs a now budget).entries k ≡ true
unfolding arm_pairs update_ordered_pairs
arm_pairs-priority a now budget i k q order there ok less fresh got =
    elim (Bool-cases (budget == 0)) [
      | inl e ↦ absurd (cc (fresh, rw e at got))
      | inr e ↦
          rw (e, order)
            (armed_by a.config a.pairs a.mode now budget (sort_pairs a.pairs (length a.pairs)) 0
              a.entries i k q (sort_pairs-IsFalling a.pairs (length a.pairs))
              (sort_pairs-Contains a.pairs (length a.pairs) k (get_elem?_bound a.pairs k q there))
              there ok less fresh (rw (e, order) at got))
    ]
