-- ===== src/Ice/Agent/Bookkeeping/Wanes.antt =====
-- What the operations of `onBookkeeping` do not do: they make no pair succeed, move no consent, and
-- leave the other entries.
use stice.Base.{
  ℕ, zero, suc, ◌≡◌, ◌≢◌, refl, ap, ◌∙◌, subst, true, not, ◌&&◌, Option, none, some, List, [], ◌∷◌,
  ◌++◌, get_elem?, get_elem?-append, get_elem?-modify, get_elem?-modify_other, modify, ◌==◌, ==_iff,
  ==-refl, if◌then◌else◌, if_cases, Bool-cases, inl, inr,
}
use stice.Ice.Agent.{PairState, CandidatePair, StunEntry, Agent, is_succeeded}
use stice.Ice.Agent.Pairs.{form_pairs, update_ordered_pairs, make_pair}
use stice.Ice.Agent.Pairs.Laws.{form_local-keeps, zero_add}
use stice.Ice.Agent.Requests.{set_state}
use stice.Ice.Agent.Responses.{set_pair}
use stice.Ice.Agent.Bookkeeping.{is_waiting, freeze_others}

-- What has become of a pair.
pub record Fades (p q : CandidatePair) : Type 0 where
  pub success : is_succeeded q.state ≡ true → is_succeeded p.state ≡ true
  pub consent : q.consent_expiry ≡ p.consent_expiry

abbrev pub Wanes : List CandidatePair → List CandidatePair → Type 0
Wanes ps qs =
    (k : ℕ) (p : CandidatePair)
    → get_elem? ps k ≡ some p
    → (q : CandidatePair) × (get_elem? qs k ≡ some q) × Fades p q

-- What an operation that acts on the entry m leaves.
pub record Frame (m : ℕ) (a b : Agent) : Type 0 where
  pub pairs : Wanes a.pairs b.pairs
  pub entries :
      (n : ℕ) (e : StunEntry)
      → n ≢ m
      → get_elem? a.entries n ≡ some e
      → get_elem? b.entries n ≡ some e

same-Fades : (p : CandidatePair) → Fades p p
same-Fades p = record { success = λ h. h; consent = refl }

pub Wanes-refl : (ps : List CandidatePair) → Wanes ps ps
Wanes-refl ps k p h = (p, h, same-Fades p)

pub Wanes-trans : (ps qs rs : List CandidatePair) → Wanes ps qs → Wanes qs rs → Wanes ps rs
Wanes-trans ps qs rs f g k p h =
    let (q, hq, fq) = f k p h in
    let (r, hr, fr) = g k q hq in
    (r, hr, record { success = λ t. fq.success (fr.success t); consent = fr.consent ∙ fq.consent })

Wanes-append : (ps qs : List CandidatePair) → Wanes ps (ps ++ qs)
Wanes-append ps qs k p h = (p, get_elem?-append ps qs k p h, same-Fades p)

pub Wanes-modify :
    (ps : List CandidatePair) (n : ℕ) (f : CandidatePair → CandidatePair)
    → ((p : CandidatePair) → Fades p (f p))
    → Wanes ps (modify ps n f)
Wanes-modify ps n f fades k p h = elim (Bool-cases (k == n)) [
  | inl e ↦
      let same = (==_iff k n).0 e in
      (
        f p,
        rw same (get_elem?-modify ps n f p (subst (λ (m : ℕ). get_elem? ps m ≡ some p) same h)),
        fades p,
      )
  | inr e ↦ (
    p,
    get_elem?-modify_other ps n k f (λ same. cc (e, ap (λ (m : ℕ). m == n) same, ==-refl n)) ∙ h,
    same-Fades p,
  )
]

pub failed-Fades : (p : CandidatePair) → Fades p (set_state PairState.failed p)
unfolding set_state is_succeeded
failed-Fades p = record { success = λ h. cc; consent = refl }

pub Wanes-freeze : (k : ℕ) (ps : List CandidatePair) (n : ℕ) → Wanes ps (freeze_others k ps n)
unfolding freeze_others get_elem? is_succeeded
Wanes-freeze k [] n m p h = cc
Wanes-freeze k (x ∷ ps) n zero p h = (
  if not (n == k) && is_waiting x.state then record x { state = PairState.frozen } else x,
  refl,
  subst
      (λ (y : CandidatePair).
        Fades y
          (if not (n == k) && is_waiting x.state then record x { state = PairState.frozen } else x))
      (same h)
      (if_cases (Fades x) (not (n == k) && is_waiting x.state) _ _
        (record { success = λ t. cc; consent = refl }) (same-Fades x)),
)
  where
    same : some x ≡ some p → x ≡ p
    same h = cc
Wanes-freeze k (x ∷ ps) n (suc m) p h = Wanes-freeze k ps (suc n) m p h

pub Frame-refl : (m : ℕ) (a : Agent) → Frame m a a
Frame-refl m a = record { pairs = Wanes-refl a.pairs; entries = λ n e ne h. h }

pub Frame-trans : (m : ℕ) (a b c : Agent) → Frame m a b → Frame m b c → Frame m a c
Frame-trans m a b c f g = record {
  pairs = Wanes-trans a.pairs b.pairs c.pairs f.pairs g.pairs;
  entries = λ n e ne h. g.entries n e ne (f.entries n e ne h);
}

-- By the pairs and the entries alone.
pub Frame-of : (m : ℕ) (a b : Agent) → Wanes a.pairs b.pairs → b.entries ≡ a.entries → Frame m a b
Frame-of m a b w same = record { pairs = w; entries = λ n e ne h. rw same h }

pub entry-Frame :
    (m : ℕ) (a : Agent) (f : StunEntry → StunEntry)
    → Frame m a (record a { entries = modify a.entries m f })
entry-Frame m a f = record {
  pairs = Wanes-refl a.pairs;
  entries = λ n e ne h. get_elem?-modify_other a.entries m n f ne ∙ h;
}

pub set_pair-Frame :
    (m : ℕ) (a : Agent) (o : Option ℕ) → Frame m a (set_pair a o (set_state PairState.failed))
unfolding set_pair
set_pair-Frame m a none = Frame-refl m a
set_pair-Frame m a (some k) =
    Frame-of m a _ (Wanes-modify a.pairs k (set_state PairState.failed) failed-Fades) refl

pub form_pairs-Frame : (m : ℕ) (a : Agent) → Frame m a (form_pairs a)
unfolding form_pairs update_ordered_pairs
form_pairs-Frame m a =
    let grown =
      form_local-keeps a.local_candidates a.remote_candidates a.mode (λ xs. Wanes a.pairs xs)
        (λ xs i j l r new w.
          Wanes-trans a.pairs xs _ w (Wanes-append xs (make_pair a.mode i l j r ∷ [])))
        a.pairs a.local_candidates 0
        (λ k l h. subst (λ (n : ℕ). get_elem? a.local_candidates n ≡ some l) (zero_add k) h)
        (Wanes-refl a.pairs) in
    Frame-of m a _ grown refl
