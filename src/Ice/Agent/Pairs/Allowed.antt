-- ===== src/Ice/Agent/Pairs/Allowed.antt =====
-- Which pairs `formPairs` adds to the check list.
use stice.Base.{
  ℕ, ◌≡◌, ◌≢◌, refl, ap, sym, ◌∙◌, subst, arith, Bool, true, false, ◌&&◌, some, List, [], ◌∷◌, ◌++◌,
  append-nil, append_assoc, All, All-append, get_elem?, Bool-cases, inl, inr,
}
use stice.Base.Ints.{ℤ, pos, negsuc, same_int}
use stice.Net.Addr.{addr_is_link_local}
use stice.Ice.Candidate.{
  CandidateType, unknown, host, server_reflexive, peer_reflexive, relayed, CandidateTransport, udp,
  tcp_active, tcp_passive, tcp_simultaneous_open, Candidate, is_udp,
}
use stice.Ice.Agent.{AgentMode, PairState, CandidatePair, Agent}
use stice.Ice.Agent.Pairs.{
  ss_family, is_active, is_passive, is_relayed, can_pair, transports_pair, make_pair, form_pairs,
  update_ordered_pairs,
}
use stice.Ice.Agent.Pairs.Laws.{IsNew, same_class, form_local-keeps, zero_add}

-- What a pair may be: of one component, one address family and one class of transports, not link-local at
-- the far end, not of two active TCP candidates, and of two passive ones only if both are relayed.
pub record IsAllowed (p : CandidatePair) : Type 0 where
  pub component : p.local_candidate.component ≡ p.remote_candidate.component
  pub family :
      ss_family p.local_candidate.resolved.addr ≡ ss_family p.remote_candidate.resolved.addr
  pub routable : addr_is_link_local (some p.remote_candidate.resolved.addr) ≡ false
  pub class : is_udp p.local_candidate.transport ≡ is_udp p.remote_candidate.transport
  pub actives : p.local_candidate.transport ≡ tcp_active → p.remote_candidate.transport ≢ tcp_active
  pub passives :
      p.local_candidate.transport ≡ tcp_passive
      → p.remote_candidate.transport ≡ tcp_passive
      → (p.local_candidate.type ≡ relayed) × (p.remote_candidate.type ≡ relayed)
  pub frozen : p.state ≡ PairState.frozen

same_int-eq : (x y : ℤ) → same_int x y ≡ true → x ≡ y
unfolding same_int
same_int-eq (pos m) (pos n) h = ap pos (ground arith)
same_int-eq (pos m) (negsuc n) h = cc
same_int-eq (negsuc m) (pos n) h = cc
same_int-eq (negsuc m) (negsuc n) h = ap negsuc (ground arith)

relayed_only : (t : CandidateType) → is_relayed t ≡ true → t ≡ relayed
unfolding is_relayed
relayed_only unknown h = cc
relayed_only host h = cc
relayed_only server_reflexive h = cc
relayed_only peer_reflexive h = cc
relayed_only relayed h = refl

both : (x y : Bool) → (x && y) ≡ true → (x ≡ true) × (y ≡ true)
both true y h = (refl, h)
both false y h = cc

-- What `transports_pair` lets pass, by the transports of the two.
passed :
    (l r : Candidate) (s t : CandidateTransport)
    → l.transport ≡ s
    → r.transport ≡ t
    → transports_pair l r ≡ true
    → (s ≡ tcp_active → t ≢ tcp_active)
      × (s ≡ tcp_passive → t ≡ tcp_passive → (is_relayed l.type && is_relayed r.type) ≡ true)
unfolding transports_pair is_udp is_active is_passive
passed l r udp t hl hr h = (λ e. cc, λ e. cc)
passed l r tcp_simultaneous_open t hl hr h = (λ e. cc, λ e. cc)
passed l r tcp_active udp hl hr h = (λ e f. cc, λ e. cc)
passed l r tcp_active tcp_passive hl hr h = (λ e f. cc, λ e. cc)
passed l r tcp_active tcp_simultaneous_open hl hr h = (λ e f. cc, λ e. cc)
passed l r tcp_active tcp_active hl hr h = absurd (cc (rw (hl, hr) at h))
passed l r tcp_passive udp hl hr h = (λ e. cc, λ e f. cc)
passed l r tcp_passive tcp_active hl hr h = (λ e. cc, λ e f. cc)
passed l r tcp_passive tcp_simultaneous_open hl hr h = (λ e. cc, λ e f. cc)
passed l r tcp_passive tcp_passive hl hr h = (
  λ e. cc,
  λ e f. elim (Bool-cases (is_relayed l.type && is_relayed r.type)) [
    | inl yes_ ↦ yes_
    | inr no_ ↦ absurd (cc (rw (hl, hr, no_) at h))
  ],
)

can_pair-IsAllowed :
    (mode : AgentMode) (i j : ℕ) (l r : Candidate)
    → can_pair l r ≡ true
    → IsAllowed (make_pair mode i l j r)
unfolding can_pair transports_pair
can_pair-IsAllowed mode i j l r h =
    let rules = passed l r l.transport r.transport refl refl (ground arith) in
    record {
      component = same_int-eq l.component r.component (ground arith);
      family = ground arith;
      routable = ground arith;
      class = same_class _ _ (ground arith);
      actives = rules.0;
      passives = λ e f. let (x, y) = both _ _ (rules.1 e f) in (relayed_only _ x, relayed_only _ y);
      frozen = refl;
    }

-- `formPairs` keeps the pairs that there are and adds frozen pairs behind them, all of which are
-- allowed.
pub form_pairs-IsAllowed :
    (a : Agent)
    → (added : List CandidatePair) × ((form_pairs a).pairs ≡ a.pairs ++ added) × All IsAllowed added
unfolding form_pairs update_ordered_pairs
form_pairs-IsAllowed a =
    form_local-keeps a.local_candidates a.remote_candidates a.mode Grown step a.pairs
      a.local_candidates 0
      (λ k l h. subst (λ (n : ℕ). get_elem? a.local_candidates n ≡ some l) (zero_add k) h)
      ([], sym (append-nil a.pairs), tt)
  where
    Grown : List CandidatePair → Type 0
    Grown pairs = (added : List CandidatePair) × (pairs ≡ a.pairs ++ added) × All IsAllowed added

    step :
        (pairs : List CandidatePair) (i j : ℕ) (l r : Candidate)
        → IsNew pairs a.local_candidates a.remote_candidates (make_pair a.mode i l j r)
        → Grown pairs
        → Grown (pairs ++ (make_pair a.mode i l j r ∷ []))
    step pairs i j l r new (added, same, all) =
        let p = make_pair a.mode i l j r in
        (
          added ++ (p ∷ []),
          ap (λ (xs : List CandidatePair). xs ++ (p ∷ [])) same
              ∙ append_assoc a.pairs added (p ∷ []),
          All-append IsAllowed added (p ∷ []) all
              (can_pair-IsAllowed a.mode i j l r new.allowed, tt),
        )
