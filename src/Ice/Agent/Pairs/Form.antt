-- ===== src/Ice/Agent/Pairs/Form.antt =====
-- `formPairs` keeps the check list, and pairs all that can be paired while there is room.
use stice.Base.{
  ℕ, zero, suc, ◌+◌, ◌≤◌, ◌≡◌, refl, ap, sym, ◌∙◌, subst, arith, true, not, ◌&&◌, some, List, [],
  ◌∷◌, ◌++◌, length, length-append, All, All-append, get_elem?, leb, leb→le, ◌==◌, Bool-cases,
  if_cases, inl, inr, ◌⊎◌,
}
use stice.Ice.Candidate.{Candidate}
use stice.Ice.Agent.{AgentMode, CandidatePair, Agent, max_candidate_pairs}
use stice.Ice.Agent.Pairs.{
  can_pair, find_pair, is_some, make_pair, form_remote, form_local, form_pairs,
  update_ordered_pairs,
}
use stice.Ice.Agent.Pairs.Laws.{
  IsPairOf, IsDistinct, IsCheckList, IsNew, not_found, fresh-IsDistinct, can_pair-IsPairOf,
  form_remote-keeps, form_local-keeps, add_zero, add_suc, zero_add, tail_there,
}

-- The check list as a property of the pairs.
record IsListed (locals remotes : List Candidate) (pairs : List CandidatePair) : Type 0 where
  paired : All (IsPairOf locals remotes) pairs
  distinct : IsDistinct pairs
  bounded : length pairs ≤ max_candidate_pairs

new-IsListed :
    (locals remotes : List Candidate) (mode : AgentMode) (pairs : List CandidatePair) (i j : ℕ)
    (l r : Candidate)
    → IsNew pairs locals remotes (make_pair mode i l j r)
    → IsListed locals remotes pairs
    → IsListed locals remotes (pairs ++ (make_pair mode i l j r ∷ []))
new-IsListed locals remotes mode pairs i j l r new q =
    let p = make_pair mode i l j r in
    record {
      paired = All-append _ pairs (p ∷ []) q.paired (
        can_pair-IsPairOf locals remotes mode i j l r new.local_there new.remote_there new.allowed,
        tt,
      );
      distinct = fresh-IsDistinct pairs p q.distinct (not_found pairs p 0 new.missing);
      bounded = omega (arith, length-append pairs (p ∷ []), new.room);
    }

-- `formPairs` keeps the check list.
pub form_pairs-IsCheckList : (a : Agent) → IsCheckList a → IsCheckList (form_pairs a)
unfolding form_pairs update_ordered_pairs
form_pairs-IsCheckList a c =
    let q =
      form_local-keeps a.local_candidates a.remote_candidates a.mode
        (IsListed a.local_candidates a.remote_candidates)
        (new-IsListed a.local_candidates a.remote_candidates a.mode) a.pairs a.local_candidates 0
        (λ k l h. subst (λ (n : ℕ). get_elem? a.local_candidates n ≡ some l) (zero_add k) h)
        (record { paired = c.paired; distinct = c.distinct; bounded = c.bounded }) in
    record { paired = q.paired; distinct = q.distinct; bounded = q.bounded }

-- There is a pair of the two candidates, or there is no room.
unfoldable pub IsCovered : ℕ → ℕ → List CandidatePair → Type 0
IsCovered i j pairs =
    (is_some (find_pair pairs i j 0) ≡ true) ⊎ (max_candidate_pairs ≤ length pairs)

found-append :
    (xs ys : List CandidatePair) (i j k : ℕ)
    → is_some (find_pair xs i j k) ≡ true
    → is_some (find_pair (xs ++ ys) i j k) ≡ true
unfolding find_pair is_some
found-append [] ys i j k h = cc
found-append (x ∷ xs) ys i j k h =
    elim (Bool-cases ((x.local_index == i) && (x.remote_index == j))) [
      | inl e ↦ rw e refl
      | inr e ↦ rw e (found-append xs ys i j (suc k) (rw e at h))
    ]

found-last :
    (xs : List CandidatePair) (mode : AgentMode) (i j k : ℕ) (l r : Candidate)
    → is_some (find_pair (xs ++ (make_pair mode i l j r ∷ [])) i j k) ≡ true
unfolding find_pair is_some
found-last [] mode i j k l r = ground arith
found-last (x ∷ xs) mode i j k l r =
    elim (Bool-cases ((x.local_index == i) && (x.remote_index == j))) [
      | inl e ↦ rw e refl
      | inr e ↦ rw e (found-last xs mode i j (suc k) l r)
    ]

IsCovered-append :
    (i j : ℕ) (xs ys : List CandidatePair) → IsCovered i j xs → IsCovered i j (xs ++ ys)
unfolding IsCovered
IsCovered-append i j xs ys (inl e) = inl (found-append xs ys i j 0 e)
IsCovered-append i j xs ys (inr e) = inr (omega (arith, length-append xs ys))

some_eq {ℓ} : {A : Type ℓ} {x y : A} → some x ≡ some y → x ≡ y
some_eq h = cc

module _ (locals remotes : List Candidate) (mode : AgentMode) where
  stays-IsCovered :
      (i n : ℕ) (l : Candidate) (pairs : List CandidatePair) (rest : List Candidate) (j m : ℕ)
      → get_elem? locals m ≡ some l
      → ((k : ℕ) (r : Candidate) → get_elem? rest k ≡ some r → get_elem? remotes (j + k) ≡ some r)
      → IsCovered i n pairs
      → IsCovered i n (form_remote mode m l pairs rest j)
  stays-IsCovered i n l pairs rest j m here there c =
      form_remote-keeps locals remotes mode (IsCovered i n)
        (λ xs i' j' l' r' new c. IsCovered-append i n xs _ c) m l pairs rest j here there c

  form_remote-IsCovered :
      (i : ℕ) (l : Candidate) (pairs : List CandidatePair) (rest : List Candidate) (j : ℕ)
      → get_elem? locals i ≡ some l
      → ((k : ℕ) (r : Candidate) → get_elem? rest k ≡ some r → get_elem? remotes (j + k) ≡ some r)
      → (k : ℕ) (r : Candidate) → get_elem? rest k ≡ some r
      → can_pair l r ≡ true
      → IsCovered i (j + k) (form_remote mode i l pairs rest j)
  unfolding form_remote get_elem? IsCovered
  form_remote-IsCovered i l pairs [] j here there k r h e = cc
  form_remote-IsCovered i l pairs (q ∷ rest) j here there zero r h e =
      let stay = λ (xs : List CandidatePair) (c : IsCovered i j xs).
        stays-IsCovered i j l xs rest (suc j) i here (tail_there remotes q rest j there) c in
      rw (add_zero j, ap (can_pair l) (some_eq h) ∙ e)
        (elim (Bool-cases (is_some (find_pair pairs i j 0))) [
          | inl f ↦ rw f (stay pairs (inl f))
          | inr f ↦ elim (Bool-cases (leb max_candidate_pairs (length pairs))) [
            | inl full ↦ rw (f, full) (inr (leb→le max_candidate_pairs (length pairs) full))
            | inr space ↦
                rw (f, space)
                  (stay (pairs ++ (make_pair mode i l j q ∷ []))
                    (inl (found-last pairs mode i j 0 l q)))
          ]
        ])
  form_remote-IsCovered i l pairs (q ∷ rest) j here there (suc k) r h e =
      let rec = λ (xs : List CandidatePair).
        subst (λ (n : ℕ). IsCovered i n (form_remote mode i l xs rest (suc j))) (sym (add_suc j k))
          (form_remote-IsCovered i l xs rest (suc j) here (tail_there remotes q rest j there) k r h
            e) in
      if_cases (IsCovered i (j + suc k)) (not (can_pair l q)) _ _ (rec pairs) (
        if_cases (IsCovered i (j + suc k)) (is_some (find_pair pairs i j 0)) _ _ (rec pairs)
          (elim (Bool-cases (leb max_candidate_pairs (length pairs))) [
            | inl full ↦ rw full (inr (leb→le max_candidate_pairs (length pairs) full))
            | inr space ↦ rw space (rec (pairs ++ (make_pair mode i l j q ∷ [])))
          ]))

  form_local-IsCovered :
      (pairs : List CandidatePair) (rest : List Candidate) (i : ℕ)
      → ((k : ℕ) (l : Candidate) → get_elem? rest k ≡ some l → get_elem? locals (i + k) ≡ some l)
      → (k j : ℕ) (l r : Candidate) → get_elem? rest k ≡ some l
      → get_elem? remotes j ≡ some r
      → can_pair l r ≡ true
      → IsCovered (i + k) j (form_local mode pairs rest i remotes)
  unfolding form_local get_elem?
  form_local-IsCovered pairs [] i there k j l r hl hr e = cc
  form_local-IsCovered pairs (q ∷ rest) i there zero j l r hl hr e =
      let here = subst (λ (n : ℕ). get_elem? locals n ≡ some q) (add_zero i) (there 0 q refl) in
      let first =
        form_remote-IsCovered i q pairs remotes 0 here
          (λ k c h. subst (λ (n : ℕ). get_elem? remotes n ≡ some c) (zero_add k) h) j r hr
          (ap (λ (c : Candidate). can_pair c r) (some_eq hl) ∙ e) in
      rw (add_zero i) (
        form_local-keeps locals remotes mode (IsCovered i j)
          (λ xs i' j' l' r' new c. IsCovered-append i j xs _ c)
          (form_remote mode i q pairs remotes 0) rest (suc i) (tail_there locals q rest i there)
          (subst (λ (n : ℕ). IsCovered i n (form_remote mode i q pairs remotes 0))
            (sym (zero_add j)) first))
  form_local-IsCovered pairs (q ∷ rest) i there (suc k) j l r hl hr e =
      subst
        (λ (n : ℕ).
          IsCovered n j
            (form_local mode (form_remote mode i q pairs remotes 0) rest (suc i) remotes))
        (sym (add_suc i k))
        (form_local-IsCovered (form_remote mode i q pairs remotes 0) rest (suc i)
          (tail_there locals q rest i there) k j l r hl hr e)

-- After `formPairs` every local and remote candidate that can be paired have a pair, unless the
-- check list is full.
pub form_pairs-IsCovered :
    (a : Agent) (i j : ℕ) (l r : Candidate)
    → get_elem? a.local_candidates i ≡ some l
    → get_elem? a.remote_candidates j ≡ some r
    → can_pair l r ≡ true
    → IsCovered i j (form_pairs a).pairs
unfolding form_pairs update_ordered_pairs
form_pairs-IsCovered a i j l r hl hr e =
    subst
      (λ (n : ℕ).
        IsCovered n j (form_local a.mode a.pairs a.local_candidates 0 a.remote_candidates))
      (sym (zero_add i))
      (form_local-IsCovered a.local_candidates a.remote_candidates a.mode a.pairs a.local_candidates
        0 (λ k c h. subst (λ (n : ℕ). get_elem? a.local_candidates n ≡ some c) (zero_add k) h) i j l
        r hl hr e)
