-- ===== src/Ice/Agent/Progress/Best.antt =====
-- `updateState`: the loop over the pairs keeps the best one.
use stice.Base.{
  ℕ, suc, ◌+◌, ◌≤◌, ◌≡◌, refl, subst, arith, ◌++◌, append-nil, append_assoc, All-append, Bool, true,
  false, ◌&&◌, Option, none, some, List, [], ◌∷◌, All, get_elem?, ltb, ltb→lt, ltb→ge,
  if◌then◌else◌, Bool-cases, inl, inr,
}
use stice.Ice.Agent.Pairs.Laws.{add_zero, add_suc, zero_add}
use stice.Ice.Agent.{CandidatePair}
use stice.Ice.Agent.Progress.{is_better, best_pair}

-- The best that passes the test among the pairs seen, by its index in all of them; or none passes.
unfoldable pub IsBest :
    (CandidatePair → Bool)
    → List CandidatePair
    → List CandidatePair
    → Option (ℕ × CandidatePair)
    → Type 0
IsBest test all seen none = All (λ (q : CandidatePair). test q ≡ false) seen
IsBest test all seen (some (k, p)) =
    (get_elem? all k ≡ some p)
    × (test p ≡ true)
    × All (λ (q : CandidatePair). test q ≡ true → q.priority ≤ p.priority) seen

seen_le :
    (test : CandidatePair → Bool) (seen : List CandidatePair) (a b : ℕ)
    → a ≤ b
    → All (λ (q : CandidatePair). test q ≡ true → q.priority ≤ a) seen
    → All (λ (q : CandidatePair). test q ≡ true → q.priority ≤ b) seen
seen_le test [] a b h p = tt
seen_le test (q ∷ seen) a b h p = (λ t. omega (arith, p.0 t), seen_le test seen a b h p.1)

pub none_le :
    (test : CandidatePair → Bool) (seen : List CandidatePair) (b : ℕ)
    → All (λ (q : CandidatePair). test q ≡ false) seen
    → All (λ (q : CandidatePair). test q ≡ true → q.priority ≤ b) seen
none_le test [] b p = tt
none_le test (q ∷ seen) b p = (λ t. absurd (cc (t, p.0)), none_le test seen b p.1)

round-IsBest :
    (test : CandidatePair → Bool) (all seen : List CandidatePair) (k : ℕ) (p : CandidatePair)
    (best : Option (ℕ × CandidatePair))
    → get_elem? all k ≡ some p
    → IsBest test all seen best
    → IsBest test all (seen ++ (p ∷ [])) (if test p && is_better p best then some (k, p) else best)
unfolding IsBest is_better
round-IsBest test all seen k p none there h = elim (Bool-cases (test p)) [
  | inl e ↦
      rw e (
        there,
        e,
        All-append _ seen (p ∷ []) (none_le test seen p.priority h) (λ t. omega arith, tt),
      )
  | inr e ↦ rw e (All-append _ seen (p ∷ []) h (e, tt))
]
round-IsBest test all seen k p (some (j, q)) there h = elim (Bool-cases (test p)) [
  | inr e ↦ rw e (h.0, h.1, All-append _ seen (p ∷ []) h.2 (λ t. absurd (cc (t, e)), tt))
  | inl e ↦ elim (Bool-cases (ltb q.priority p.priority)) [
    | inl f ↦
        rw (e, f)
          (
            there,
            e,
            All-append _ seen (p ∷ [])
                (seen_le test seen q.priority p.priority (omega (arith, ltb→lt _ _ f)) h.2)
                (λ t. omega arith, tt),
          )
    | inr f ↦
        rw (e, f)
          (h.0, h.1, All-append _ seen (p ∷ []) h.2 (λ t. ltb→ge q.priority p.priority f, tt))
  ]
]

best_pair-IsBest :
    (test : CandidatePair → Bool) (all seen rest : List CandidatePair) (k : ℕ)
    (best : Option (ℕ × CandidatePair))
    → ((n : ℕ) (p : CandidatePair) → get_elem? rest n ≡ some p → get_elem? all (k + n) ≡ some p)
    → IsBest test all seen best
    → IsBest test all (seen ++ rest) (best_pair test rest k best)
unfolding best_pair get_elem?
best_pair-IsBest test all seen [] k best there h = rw (append-nil seen) h
best_pair-IsBest test all seen (p ∷ rest) k best there h =
    subst (λ (xs : List CandidatePair). IsBest test all xs (best_pair test (p ∷ rest) k best))
      (append_assoc seen (p ∷ []) rest)
      (best_pair-IsBest test all (seen ++ (p ∷ [])) rest (suc k) _
        (λ n q e. subst (λ (i : ℕ). get_elem? all i ≡ some q) (add_suc k n) (there (suc n) q e))
        (round-IsBest test all seen k p best
          (subst (λ (i : ℕ). get_elem? all i ≡ some p) (add_zero k) (there 0 p refl)) h))

pub first-IsBest :
    (test : CandidatePair → Bool) (all : List CandidatePair)
    → IsBest test all all (best_pair test all 0 none)
unfolding IsBest
first-IsBest test all =
    best_pair-IsBest test all [] all 0 none
      (λ n p e. subst (λ (i : ℕ). get_elem? all i ≡ some p) (zero_add n) e) tt
