-- ===== src/Ice/Agent/Pairs/Learn.antt =====
-- `findOrCreatePair` keeps the check list.
use stice.Base.{
  ℕ, ◌≡◌, refl, ap, ◌∙◌, subst, arith, Bool, true, false, not, ◌&&◌, Option, none, some, List, [],
  ◌∷◌, ◌++◌, length, length-append, All, All-append, get_elem?, get_elem?-append, get_elem?-last,
  find_from, find_from_found, leb, leb→gt, ◌==◌, ==_iff, Bool-cases, inl, inr,
}
use stice.Net.Addr.{SockAddr, AddrRecord, addr_is_link_local, is_equal}
use stice.Net.Addr.Scope.{is_equal-addr_is_link_local}
use stice.Ice.Candidate.{Candidate, CandidateTransport, is_udp}
use stice.Ice.Agent.{Agent, max_candidates, max_candidate_pairs}
use stice.Ice.Agent.Pairs.{
  ss_family, same_bool, find_pair, is_some, make_pair, pair_found, update_ordered_pairs, is_remote,
  is_local, pair_for, reflexive_candidate, learn_remote, pair_learned, find_or_create_pair,
}
use stice.Ice.Agent.Pairs.Laws.{IsPairOf, IsCheckList, not_found, fresh-IsDistinct, zero_add}

some_eq {ℓ} : {A : Type ℓ} {x y : A} → some x ≡ some y → x ≡ y
some_eq h = cc

-- What a learned remote candidate is.
record IsRemote (a : Agent) (src : AddrRecord) (tcp : Bool) (j : ℕ) (c : Candidate) : Type 0 where
  there : get_elem? a.remote_candidates j ≡ some c
  routable : addr_is_link_local (some c.resolved.addr) ≡ addr_is_link_local (some src.addr)
  class : same_bool (not (is_udp c.transport)) tcp ≡ true

same_class_comm : (x y z : Bool) → same_bool (not x) z ≡ true → same_bool (not y) z ≡ true → x ≡ y
same_class_comm true true z g h = refl
same_class_comm false false z g h = refl
same_class_comm true false true g h = cc
same_class_comm true false false g h = cc
same_class_comm false true true g h = cc
same_class_comm false true false g h = cc

both : (x y : Bool) → (x && y) ≡ true → (x ≡ true) × (y ≡ true)
both true y h = (refl, h)
both false y h = cc

All-map {ℓ κ λ'} :
    {A : Type ℓ} {P : A → Type κ} {Q : A → Type λ'} (xs : List A)
    → ((x : A) → P x → Q x)
    → All P xs
    → All Q xs
All-map [] f p = tt
All-map (x ∷ xs) f p = (f x p.0, All-map xs f p.1)

found-IsCheckList :
    (a : Agent) (i j : ℕ) (l r : Candidate) (o : Option ℕ)
    → find_pair a.pairs i j 0 ≡ o
    → IsPairOf a.local_candidates a.remote_candidates (make_pair a.mode i l j r)
    → IsCheckList a
    → IsCheckList (pair_found a i l j r o).0
unfolding pair_found is_some update_ordered_pairs
found-IsCheckList a i j l r (some k) h p c = c
found-IsCheckList a i j l r none h p c =
    elim (Bool-cases (leb max_candidate_pairs (length a.pairs))) [
      | inl full ↦ rw full c
      | inr room ↦
          let new = make_pair a.mode i l j r in
          rw room (record {
            paired = All-append _ a.pairs (new ∷ []) c.paired (p, tt);
            distinct =
                fresh-IsDistinct a.pairs new c.distinct (not_found a.pairs new 0 (ap is_some h));
            bounded = omega (
              arith,
              length-append a.pairs (new ∷ []),
              leb→gt max_candidate_pairs (length a.pairs) room,
            );
          })
    ]

-- A pair of an agent's candidates, wherever it comes from, keeps the check list.
pair_for-IsCheckList :
    (a : Agent) (src : AddrRecord) (tcp : Bool) (j : ℕ) (r : Candidate)
    → IsRemote a src tcp j r
    → addr_is_link_local (some src.addr) ≡ false
    → (o : Option (ℕ × Candidate))
    → find_from (is_local (ss_family r.resolved.addr) tcp) a.local_candidates 0 ≡ o
    → IsCheckList a
    → IsCheckList (pair_for a (j, r) o).0
unfolding pair_for is_local
pair_for-IsCheckList a src tcp j r remote away none h c = c
pair_for-IsCheckList a src tcp j r remote away (some (i, l)) h c =
    found-IsCheckList a i j l r (find_pair a.pairs i j 0) refl
      (record {
        local_there = found.0;
        remote_there = remote.there;
        family = (==_iff _ _).0 (tests.0);
        transports = same_class_comm _ _ tcp tests.1 remote.class;
        routable = remote.routable ∙ away;
      })
      c
  where
    found :
        (get_elem? a.local_candidates i ≡ some l)
        × (is_local (ss_family r.resolved.addr) tcp l ≡ true)
    found =
        find_from_found (is_local (ss_family r.resolved.addr) tcp) a.local_candidates
          a.local_candidates 0 i l
          (λ n c h. subst (λ (k : ℕ). get_elem? a.local_candidates k ≡ some c) (zero_add n) h) h

    tests :
        ((ss_family l.resolved.addr == ss_family r.resolved.addr) ≡ true)
        × (same_bool (not (is_udp l.transport)) tcp ≡ true)
    tests = both _ _ found.1

-- More remote candidates leave the check list what it is.
learned-IsCheckList :
    (a : Agent) (c : Candidate)
    → IsCheckList a
    → IsCheckList (record a { remote_candidates = a.remote_candidates ++ (c ∷ []) })
learned-IsCheckList a c list = record {
  paired =
      All-map a.pairs
        (λ p h. record {
          local_there = h.local_there;
          remote_there =
              get_elem?-append a.remote_candidates (c ∷ []) p.remote_index _ h.remote_there;
          family = h.family;
          transports = h.transports;
          routable = h.routable;
        })
        list.paired;
  distinct = list.distinct;
  bounded = list.bounded;
}

remote_tests :
    (src : AddrRecord) (tcp : Bool) (q : Candidate)
    → is_remote src tcp q ≡ true
    → (is_equal q.resolved src true ≡ true) × (same_bool (not (is_udp q.transport)) tcp ≡ true)
unfolding is_remote
remote_tests src tcp q h = both _ _ h

transfer :
    (a : Agent) (src : AddrRecord) (tcp : Bool) (k : ℕ) (q : Candidate) (b : Agent) (j : ℕ)
    (r : Candidate)
    → ◌≡◌ {A = Option (Agent × (ℕ × Candidate))} (some (a, (k, q))) (some (b, (j, r)))
    → IsRemote a src tcp k q × IsCheckList a
    → IsRemote b src tcp j r × IsCheckList b
transfer a src tcp k q b j r h p =
    subst (λ (t : Agent × (ℕ × Candidate)). IsRemote t.0 src tcp t.1.0 t.1.1 × IsCheckList t.0)
      (some_eq h) p

same_bool_refl : (x : Bool) → same_bool x x ≡ true
same_bool_refl true = refl
same_bool_refl false = refl

learned_keeps :
    (a : Agent) (src : AddrRecord) (transport : CandidateTransport)
    (o : Option (Agent × (ℕ × Candidate)))
    → ((b : Agent) (j : ℕ) (r : Candidate)
        → o ≡ some (b, (j, r))
        → IsRemote b src (not (is_udp transport)) j r × IsCheckList b)
    → addr_is_link_local (some src.addr) ≡ false
    → IsCheckList a
    → IsCheckList (pair_learned a transport o).0
unfolding pair_learned
learned_keeps a src transport none h away c = c
learned_keeps a src transport (some (b, (j, r))) h away c =
    let (remote, list) = h b j r refl in
    pair_for-IsCheckList b src (not (is_udp transport)) j r remote away _ refl list

module _ (getnameinfo : SockAddr → List ℕ × List ℕ) where
  learn_remote-IsRemote :
      (a : Agent) (src : AddrRecord) (priority : ℕ) (transport : CandidateTransport)
      (o : Option (ℕ × Candidate)) (b : Agent) (j : ℕ) (r : Candidate)
      → find_from (is_remote src (not (is_udp transport))) a.remote_candidates 0 ≡ o
      → learn_remote getnameinfo a src priority transport o ≡ some (b, (j, r))
      → IsCheckList a
      → IsRemote b src (not (is_udp transport)) j r × IsCheckList b
  unfolding learn_remote reflexive_candidate
  learn_remote-IsRemote a src priority transport (some (k, q)) b j r found h c =
      let (there, tests) =
        find_from_found (is_remote src (not (is_udp transport))) a.remote_candidates
          a.remote_candidates 0 k q
          (λ n x e. subst (λ (i : ℕ). get_elem? a.remote_candidates i ≡ some x) (zero_add n) e)
          found in
      let (equal, class) = remote_tests src (not (is_udp transport)) q tests in
      transfer a src (not (is_udp transport)) k q b j r h (
        record {
          there = there;
          routable = is_equal-addr_is_link_local q.resolved src true equal;
          class = class;
        },
        c,
      )
  learn_remote-IsRemote a src priority transport none b j r found h c =
      elim (Bool-cases (leb max_candidates (length a.remote_candidates))) [
        | inl full ↦ absurd (cc (rw full at h))
        | inr room ↦
            let new = reflexive_candidate getnameinfo src priority transport in
            transfer (record a { remote_candidates = a.remote_candidates ++ (new ∷ []) }) src
              (not (is_udp transport)) (length a.remote_candidates) new b j r (rw room at h)
              (
                record {
                  there = get_elem?-last a.remote_candidates new;
                  routable = refl;
                  class = same_bool_refl (not (is_udp transport));
                },
                learned-IsCheckList a new c,
              )
      ]

  -- A pair learned from a request, with a remote candidate learned from it, keeps the check list.
  pub find_or_create_pair-IsCheckList :
      (a : Agent) (src : AddrRecord) (priority : ℕ) (transport : CandidateTransport)
      → IsCheckList a
      → IsCheckList (find_or_create_pair getnameinfo a src priority transport).0
  unfolding find_or_create_pair
  find_or_create_pair-IsCheckList a src priority transport c =
      elim (Bool-cases (addr_is_link_local (some src.addr))) [
        | inl e ↦ rw e c
        | inr e ↦ rw e (
            learned_keeps a src transport _
              (λ b j r h. learn_remote-IsRemote a src priority transport _ b j r refl h c) e c)
      ]
