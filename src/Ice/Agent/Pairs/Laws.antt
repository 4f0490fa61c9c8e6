-- ===== src/Ice/Agent/Pairs/Laws.antt =====
-- The check list: its pairs are of candidates of one family and class, no two are alike, and it is
-- bounded.
use stice.Base.{
  ℕ, suc, ◌+◌, ◌≤◌, ◌<◌, ◌≡◌, refl, subst, arith, Bool, true, false, not, ◌&&◌, some, List, [], ◌∷◌,
  ◌++◌, length, All, All-append, get_elem?, leb, leb→gt, ◌==◌, Bool-cases, inl, inr,
}
use stice.Net.Addr.{addr_is_link_local}
use stice.Ice.Candidate.{Candidate, is_udp}
use stice.Ice.Agent.{AgentMode, CandidatePair, Agent, max_candidate_pairs}
use stice.Ice.Agent.Pairs.{
  ss_family, same_bool, can_pair, transports_pair, find_pair, is_some, make_pair, form_remote,
  form_local,
}

-- A pair of candidates of the two lists, of one address family and one class of transports, whose
-- remote address is not link-local.
pub record IsPairOf (locals remotes : List Candidate) (p : CandidatePair) : Type 0 where
  pub local_there : get_elem? locals p.local_index ≡ some p.local_candidate
  pub remote_there : get_elem? remotes p.remote_index ≡ some p.remote_candidate
  pub family :
      ss_family p.local_candidate.resolved.addr ≡ ss_family p.remote_candidate.resolved.addr
  pub transports : is_udp p.local_candidate.transport ≡ is_udp p.remote_candidate.transport
  pub routable : addr_is_link_local (some p.remote_candidate.resolved.addr) ≡ false

unfoldable pub same_candidates : CandidatePair → CandidatePair → Bool
same_candidates p q = (p.local_index == q.local_index) && (p.remote_index == q.remote_index)

unfoldable pub IsDistinct : List CandidatePair → Type 0
IsDistinct [] = Unit
IsDistinct (p ∷ rest) =
    All (λ (q : CandidatePair). same_candidates p q ≡ false) rest × IsDistinct rest

-- The check list of an agent.
pub record IsCheckList (a : Agent) : Type 0 where
  pub paired : All (IsPairOf a.local_candidates a.remote_candidates) a.pairs
  pub distinct : IsDistinct a.pairs
  pub bounded : length a.pairs ≤ max_candidate_pairs

pub same_class : (x y : Bool) → same_bool (not x) (not y) ≡ true → x ≡ y
same_class true true h = refl
same_class true false h = cc
same_class false true h = cc
same_class false false h = refl

pub can_pair-IsPairOf :
    (locals remotes : List Candidate) (mode : AgentMode) (i j : ℕ) (l r : Candidate)
    → get_elem? locals i ≡ some l
    → get_elem? remotes j ≡ some r
    → can_pair l r ≡ true
    → IsPairOf locals remotes (make_pair mode i l j r)
unfolding can_pair transports_pair
can_pair-IsPairOf locals remotes mode i j l r hl hr h = record {
  local_there = hl;
  remote_there = hr;
  family = ground arith;
  transports = same_class _ _ (ground arith);
  routable = ground arith;
}

pub fresh-IsDistinct :
    (xs : List CandidatePair) (p : CandidatePair)
    → IsDistinct xs
    → All (λ (q : CandidatePair). same_candidates q p ≡ false) xs
    → IsDistinct (xs ++ (p ∷ []))
unfolding IsDistinct
fresh-IsDistinct [] p d f = (tt, tt)
fresh-IsDistinct (x ∷ xs) p d f =
    (All-append _ xs (p ∷ []) d.0 (f.0, tt), fresh-IsDistinct xs p d.1 f.1)

-- A pair that is not found is another pair than all.
pub not_found :
    (xs : List CandidatePair) (p : CandidatePair) (k : ℕ)
    → is_some (find_pair xs p.local_index p.remote_index k) ≡ false
    → All (λ (q : CandidatePair). same_candidates q p ≡ false) xs
unfolding find_pair is_some same_candidates
not_found [] p k h = tt
not_found (x ∷ xs) p k h = elim (Bool-cases (same_candidates x p)) [
  | inl e ↦ absurd (cc (h, e))
  | inr e ↦ (e, not_found xs p (suc k) (rw e at h))
]

pub add_zero : (j : ℕ) → j + 0 ≡ j
add_zero j = omega arith

pub add_suc : (j k : ℕ) → j + suc k ≡ suc j + k
add_suc j k = omega arith

pub zero_add : (k : ℕ) → k ≡ 0 + k
zero_add k = omega arith

pub tail_there :
    (all : List Candidate) (r : Candidate) (rest : List Candidate) (j : ℕ)
    → ((k : ℕ) (q : Candidate) → get_elem? (r ∷ rest) k ≡ some q → get_elem? all (j + k) ≡ some q)
    → (k : ℕ) (q : Candidate) → get_elem? rest k ≡ some q
    → get_elem? all (suc j + k) ≡ some q
unfolding get_elem?
tail_there all r rest j there k q h =
    subst (λ (n : ℕ). get_elem? all n ≡ some q) (add_suc j k) (there (suc k) q h)

-- What one more pair may be: of two candidates that can be paired, not there yet, and with room.
pub record IsNew (pairs : List CandidatePair) (locals remotes : List Candidate) (p : CandidatePair)
    : Type 0 where
  pub allowed : can_pair p.local_candidate p.remote_candidate ≡ true
  pub missing : is_some (find_pair pairs p.local_index p.remote_index 0) ≡ false
  pub room : length pairs < max_candidate_pairs
  pub local_there : get_elem? locals p.local_index ≡ some p.local_candidate
  pub remote_there : get_elem? remotes p.remote_index ≡ some p.remote_candidate

-- What every new pair keeps, the loops keep.
module _ (locals remotes : List Candidate) (mode : AgentMode) (Q : List CandidatePair → Type 0)
    (step : (pairs : List CandidatePair) (i j : ℕ) (l r : Candidate)
      → IsNew pairs locals remotes (make_pair mode i l j r)
      → Q pairs
      → Q (pairs ++ (make_pair mode i l j r ∷ []))) where
  pub form_remote-keeps :
      (i : ℕ) (l : Candidate) (pairs : List CandidatePair) (rest : List Candidate) (j : ℕ)
      → get_elem? locals i ≡ some l
      → ((k : ℕ) (r : Candidate) → get_elem? rest k ≡ some r → get_elem? remotes (j + k) ≡ some r)
      → Q pairs
      → Q (form_remote mode i l pairs rest j)
  unfolding form_remote get_elem?
  form_remote-keeps i l pairs [] j here there q = q
  form_remote-keeps i l pairs (r ∷ rest) j here there q =
      let skip =
        form_remote-keeps i l pairs rest (suc j) here (tail_there remotes r rest j there) q in
      let add = λ (new : IsNew pairs locals remotes (make_pair mode i l j r)).
        form_remote-keeps i l (pairs ++ (make_pair mode i l j r ∷ [])) rest (suc j) here
          (tail_there remotes r rest j there) (step pairs i j l r new q) in
      elim (Bool-cases (can_pair l r)) [
        | inr e ↦ rw e skip
        | inl e ↦ elim (Bool-cases (is_some (find_pair pairs i j 0))) [
          | inl f ↦ rw (e, f) skip
          | inr f ↦ elim (Bool-cases (leb max_candidate_pairs (length pairs))) [
            | inl full ↦ rw (e, f, full) q
            | inr space ↦
                rw (e, f, space)
                  (add (record {
                    allowed = e;
                    missing = f;
                    room = leb→gt max_candidate_pairs (length pairs) space;
                    local_there = here;
                    remote_there =
                        subst (λ (n : ℕ). get_elem? remotes n ≡ some r) (add_zero j)
                          (there 0 r refl);
                  }))
          ]
        ]
      ]

  pub form_local-keeps :
      (pairs : List CandidatePair) (rest : List Candidate) (i : ℕ)
      → ((k : ℕ) (l : Candidate) → get_elem? rest k ≡ some l → get_elem? locals (i + k) ≡ some l)
      → Q pairs
      → Q (form_local mode pairs rest i remotes)
  unfolding form_local get_elem?
  form_local-keeps pairs [] i there q = q
  form_local-keeps pairs (l ∷ rest) i there q =
      form_local-keeps (form_remote mode i l pairs remotes 0) rest (suc i)
        (tail_there locals l rest i there)
        (form_remote-keeps i l pairs remotes 0
          (subst (λ (n : ℕ). get_elem? locals n ≡ some l) (add_zero i) (there 0 l refl))
          (λ k r h. subst (λ (n : ℕ). get_elem? remotes n ≡ some r) (zero_add k) h) q)
