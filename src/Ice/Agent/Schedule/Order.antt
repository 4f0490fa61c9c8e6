-- ===== src/Ice/Agent/Schedule/Order.antt =====
-- Checks are armed by falling priority.
use stice.Base.{
  ℕ, zero, suc, ◌≤◌, ◌<◌, ◌≡◌, refl, arith, Bool, true, false, ◌||◌, List, [], ◌∷◌, ◌++◌, All, ltb,
  ltb→lt, ltb→ge, ◌==◌, ==_iff, Bool-cases, if_cases, inl, inr, ◌⊎◌,
}
use stice.Ice.Agent.{CandidatePair, StunEntry}
use stice.Ice.Agent.Pairs.{priority_at, insert_pair, sort_pairs}
use stice.Ice.Agent.Schedule.{is_pair, has_entry}

unfoldable pub IsFalling : List CandidatePair → List ℕ → Type 0
IsFalling pairs [] = Unit
IsFalling pairs (k ∷ rest) =
    All (λ (m : ℕ). priority_at pairs m ≤ priority_at pairs k) rest × IsFalling pairs rest

unfoldable pub Contains : List ℕ → ℕ → Type 0
Contains [] k = ⊥
Contains (m ∷ rest) k = (m ≡ k) ⊎ Contains rest k

inserted-All :
    (P : ℕ → Type 0) (pairs : List CandidatePair) (i : ℕ) (ks : List ℕ)
    → P i
    → All P ks
    → All P (insert_pair pairs i ks)
unfolding insert_pair
inserted-All P pairs i [] p q = (p, tt)
inserted-All P pairs i (k ∷ ks) p q =
    if_cases (All P) (ltb (priority_at pairs k) (priority_at pairs i)) _ _ (p, q)
      (q.0, inserted-All P pairs i ks p q.1)

below_all :
    (pairs : List CandidatePair) (a b : ℕ) (ks : List ℕ)
    → a ≤ b
    → All (λ (m : ℕ). priority_at pairs m ≤ a) ks
    → All (λ (m : ℕ). priority_at pairs m ≤ b) ks
below_all pairs a b [] h q = tt
below_all pairs a b (k ∷ ks) h q = (omega (arith, q.0), below_all pairs a b ks h q.1)

insert_pair-IsFalling :
    (pairs : List CandidatePair) (i : ℕ) (ks : List ℕ)
    → IsFalling pairs ks
    → IsFalling pairs (insert_pair pairs i ks)
unfolding IsFalling insert_pair
insert_pair-IsFalling pairs i [] f = (tt, tt)
insert_pair-IsFalling pairs i (k ∷ ks) f =
    let a = priority_at pairs i in
    let b = priority_at pairs k in
    elim (Bool-cases (ltb b a)) [
      | inl e ↦ rw e (
        (omega (arith, ltb→lt b a e), below_all pairs b a ks (omega (arith, ltb→lt b a e)) f.0),
        f,
      )
      | inr e ↦ rw e (
        inserted-All (λ (m : ℕ). priority_at pairs m ≤ b) pairs i ks (ltb→ge b a e) f.0,
        insert_pair-IsFalling pairs i ks f.1,
      )
    ]

pub sort_pairs-IsFalling :
    (pairs : List CandidatePair) (n : ℕ) → IsFalling pairs (sort_pairs pairs n)
unfolding IsFalling sort_pairs
sort_pairs-IsFalling pairs zero = tt
sort_pairs-IsFalling pairs (suc n) =
    insert_pair-IsFalling pairs n (sort_pairs pairs n) (sort_pairs-IsFalling pairs n)

inserted-Contains :
    (pairs : List CandidatePair) (i k : ℕ) (ks : List ℕ)
    → (i ≡ k) ⊎ Contains ks k
    → Contains (insert_pair pairs i ks) k
unfolding insert_pair Contains
inserted-Contains pairs i k [] h = h
inserted-Contains pairs i k (m ∷ ks) h =
    if_cases (λ (xs : List ℕ). Contains xs k) (ltb (priority_at pairs m) (priority_at pairs i)) _ _
      h
      (elim h [
        | inl e ↦ inr (inserted-Contains pairs i k ks (inl e))
        | inr (inl e) ↦ inl e
        | inr (inr c) ↦ inr (inserted-Contains pairs i k ks (inr c))
      ])

pub sort_pairs-Contains :
    (pairs : List CandidatePair) (n k : ℕ) → k < n → Contains (sort_pairs pairs n) k
unfolding sort_pairs
sort_pairs-Contains pairs zero k h = absurd (omega arith)
sort_pairs-Contains pairs (suc n) k h =
    inserted-Contains pairs n k (sort_pairs pairs n) (elim (Bool-cases (n == k)) [
      | inl e ↦ inl ((==_iff n k).0 e)
      | inr e ↦ inr (sort_pairs-Contains pairs n k (ground arith))
    ])

pub or_true : (b : Bool) → (b || true) ≡ true
or_true true = refl
or_true false = refl

pub has_entry-append :
    (xs ys : List StunEntry) (i : ℕ) → has_entry (xs ++ ys) i ≡ (has_entry xs i || has_entry ys i)
unfolding has_entry
has_entry-append [] ys i = refl
has_entry-append (e ∷ xs) ys i = elim (Bool-cases (is_pair e.pair i)) [
  | inl h ↦ rw h refl
  | inr h ↦ rw h (has_entry-append xs ys i)
]
