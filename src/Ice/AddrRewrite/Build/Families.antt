-- ===== src/Ice/AddrRewrite/Build/Families.antt =====
-- What `build` keeps of the rules' addresses.
use stice.Base.{
  ℕ, ◌≡◌, ◌≢◌, refl, Bool, true, false, Option, none, some, List, [], ◌∷◌, ◌++◌, is_empty, All,
  All-append, if◌then◌else◌, if_cases, Bool-cases, inl, inr, list_eq, list_eq→eq,
}
use stice.Ice.Candidate.{CandidateType, unknown, host, server_reflexive, peer_reflexive, relayed}
use stice.Ice.AddrRewrite.{RewriteRule, CompiledRule, Mapper, same_type}
use stice.Ice.AddrRewrite.Text.{validate_ip, trim}
use stice.Ice.AddrRewrite.Build.{
  target_type, add_address, complete_rule, insert_rule, add_validated, add_compiled, add_external,
  empty_compiled, compile_rule, add_rule, build, same_family, target_family, push_mapping,
  local_address,
}
use mathlib.Core.List.{foldl}

some_eq {ℓ} : {A : Type ℓ} {x y : A} → some x ≡ some y → x ≡ y
some_eq h = cc

same_family-eq : (x y : Bool) → same_family x y ≡ true → x ≡ y
unfolding same_family
same_family-eq true true h = refl
same_family-eq true false h = cc
same_family-eq false true h = cc
same_family-eq false false h = refl

module _ (inet_pton : ℕ → List ℕ → Option (List ℕ)) where
  -- The text was accepted by `inet_pton` as an address of the family.
  abbrev pub IsOf : Bool → List ℕ → Type 0
  IsOf is_v4 ip = validate_ip inet_pton ip ≡ some is_v4

  -- A local address and its external ones, all of one family.
  abbrev pub IsMapping : List ℕ × List (List ℕ) → Type 0
  IsMapping entry = (is_v4 : Bool) × IsOf is_v4 entry.0 × All (IsOf is_v4) entry.1

  -- Every catch-all address is one of the family that it is listed for, and the external addresses
  -- of a local one are of its family.
  pub record IsSorted (r : CompiledRule) : Type 0 where
    pub v4 : All (IsOf true) r.external_v4
    pub v6 : All (IsOf false) r.external_v6
    pub mapped : All IsMapping r.local_map

  -- A type that `build` publishes rules for, and its rules.
  abbrev pub IsEntry : CandidateType × List CompiledRule → Type 0
  IsEntry entry =
      (entry.0 ≢ unknown)
      × (entry.0 ≢ peer_reflexive)
      × (is_empty entry.1 ≡ false)
      × All IsSorted entry.1

  -- The local address of a rule is valid and of the family noted with it.
  IsKnown : Option (List ℕ × Bool) → Type 0
  IsKnown none = Unit
  IsKnown (some (key, is_v4)) = IsOf is_v4 key

  push_mapping-IsMapping :
      (entries : List (List ℕ × List (List ℕ))) (key ip : List ℕ) (is_v4 : Bool)
      → IsOf is_v4 key
      → IsOf is_v4 ip
      → All IsMapping entries
      → All IsMapping (push_mapping entries key ip)
  unfolding push_mapping
  push_mapping-IsMapping [] key ip is_v4 k v h = ((is_v4, k, (v, tt)), tt)
  push_mapping-IsMapping ((l, ips) ∷ rest) key ip is_v4 k v ((w, e, all), more) =
      elim (Bool-cases (list_eq l key)) [
        | inl same ↦
            let one : w ≡ is_v4 = some_eq (cc (e, k, list_eq→eq l key same)) in
            rw same ((w, e, All-append (IsOf w) ips (ip ∷ []) all (rw one v, tt)), more)
        | inr apart ↦ rw apart ((w, e, all), push_mapping-IsMapping rest key ip is_v4 k v more)
      ]

  add_address-IsSorted :
      (state : CompiledRule × Bool) (local : Option (List ℕ × Bool)) (target_v4 : Bool)
      (ip : List ℕ)
      → IsKnown local
      → ((key : List ℕ) (is_v4 : Bool) → local ≡ some (key, is_v4) → target_v4 ≡ is_v4)
      → IsOf target_v4 ip
      → IsSorted (state.0)
      → IsSorted ((add_address state local target_v4 ip).0)
  unfolding add_address IsKnown
  add_address-IsSorted (cr, added) (some (key, is_v4)) target_v4 ip k same v h = record {
    v4 = h.v4;
    v6 = h.v6;
    mapped =
        push_mapping-IsMapping cr.local_map key ip is_v4 k (rw (same key is_v4 refl) at v) h.mapped;
  }
  add_address-IsSorted (cr, added) none true ip k same v h = record {
    v4 = All-append _ cr.external_v4 (ip ∷ []) h.v4 (v, tt);
    v6 = h.v6;
    mapped = h.mapped;
  }
  add_address-IsSorted (cr, added) none false ip k same v h = record {
    v4 = h.v4;
    v6 = All-append _ cr.external_v6 (ip ∷ []) h.v6 (v, tt);
    mapped = h.mapped;
  }

  target-local :
      (local : Option (List ℕ × Bool)) (cidr : List ℕ) (is_v4 : Bool) (key : List ℕ) (f : Bool)
      → local ≡ some (key, f)
      → target_family inet_pton local cidr is_v4 ≡ f
  unfolding target_family
  target-local none cidr is_v4 key f e = cc
  target-local (some (k, g)) cidr is_v4 key f e = cc

  add_validated-IsSorted :
      (local : Option (List ℕ × Bool)) (state : CompiledRule × Bool) (ip : List ℕ) (v : Option Bool)
      → IsKnown local
      → validate_ip inet_pton ip ≡ v
      → IsSorted (state.0)
      → IsSorted ((add_validated inet_pton local state ip v).0)
  unfolding add_validated
  add_validated-IsSorted local state ip none k e h = h
  add_validated-IsSorted local state ip (some is_v4) k e h =
      let target = target_family inet_pton local (state.0).cidr is_v4 in
      elim (Bool-cases (same_family target is_v4)) [
        | inr apart ↦ rw apart h
        | inl same ↦ rw same (
            add_address-IsSorted state local target ip k
              (λ key f l. target-local local (state.0).cidr is_v4 key f l)
              (rw (same_family-eq target is_v4 same) e) h)
      ]

  add_external-IsSorted :
      (local : Option (List ℕ × Bool)) (state : CompiledRule × Bool) (raw : List ℕ)
      → IsKnown local
      → IsSorted (state.0)
      → IsSorted ((add_external inet_pton local state raw).0)
  unfolding add_external
  add_external-IsSorted local state raw k h =
      if_cases (λ (s : CompiledRule × Bool). IsSorted (s.0)) (is_empty (trim raw)) _ _ h
        (add_validated-IsSorted local state (trim raw) _ k refl h)

  externals-IsSorted :
      (local : Option (List ℕ × Bool)) (external : List (List ℕ)) (state : CompiledRule × Bool)
      → IsKnown local
      → IsSorted (state.0)
      → IsSorted ((foldl (add_external inet_pton local) state external).0)
  externals-IsSorted local [] state k h = h
  externals-IsSorted local (raw ∷ rest) state k h =
      externals-IsSorted local rest _ k (add_external-IsSorted local state raw k h)

  complete_rule-IsSorted :
      (state : CompiledRule × Bool) (local : Option (List ℕ × Bool))
      → IsKnown local
      → IsSorted (state.0)
      → IsSorted (complete_rule state local)
  unfolding complete_rule IsKnown
  complete_rule-IsSorted (cr, true) local k h = h
  complete_rule-IsSorted (cr, false) (some (key, is_v4)) k h = record {
    v4 = h.v4;
    v6 = h.v6;
    mapped = All-append _ cr.local_map ((key, []) ∷ []) h.mapped ((is_v4, k, tt), tt);
  }
  complete_rule-IsSorted (cr, false) none k h = record { v4 = h.v4; v6 = h.v6; mapped = h.mapped }

  compile_rule-IsSorted :
      (rule : RewriteRule) (ct : CandidateType) (local : Option (List ℕ × Bool))
      → IsKnown local
      → IsSorted (compile_rule inet_pton rule ct local)
  unfolding compile_rule
  compile_rule-IsSorted rule ct local k = complete_rule-IsSorted _ local k (
      externals-IsSorted local rule.external (empty_compiled inet_pton rule ct, false) k
        (record { v4 = tt; v6 = tt; mapped = tt }))

  -- What `local_address` yields is known.
  IsChecked : Option (Option (List ℕ × Bool)) → Type 0
  IsChecked none = Unit
  IsChecked (some local) = IsKnown local

  local_address-IsChecked : (text : List ℕ) → IsChecked (local_address inet_pton text)
  unfolding local_address IsChecked IsKnown
  local_address-IsChecked text =
      if_cases IsChecked (is_empty (trim text)) _ _ tt
        (checked (validate_ip inet_pton (trim text)) refl)
    where
      checked :
          (v : Option Bool)
          → validate_ip inet_pton (trim text) ≡ v
          → IsChecked (elim v [ none ↦ none | some is_v4 ↦ some (some (trim text, is_v4)) ])
      checked none e = tt
      checked (some is_v4) e = e

  append_some :
      (rules : List CompiledRule) (cr : CompiledRule) → is_empty (rules ++ (cr ∷ [])) ≡ false
  append_some [] cr = refl
  append_some (r ∷ rules) cr = refl

  insert_rule-IsEntry :
      (mapper : Mapper) (ct : CandidateType) (cr : CompiledRule)
      → ct ≢ unknown
      → ct ≢ peer_reflexive
      → IsSorted cr
      → All IsEntry mapper
      → All IsEntry (insert_rule mapper ct cr)
  unfolding insert_rule
  insert_rule-IsEntry [] ct cr known direct s h = ((known, direct, refl, (s, tt)), tt)
  insert_rule-IsEntry ((type, rules) ∷ rest) ct cr known direct s h =
      let (k, d, e, all) = h.0 in
      if_cases (All IsEntry) (same_type type ct) _ _
        ((k, d, append_some rules cr, All-append IsSorted rules (cr ∷ []) all (s, tt)), h.1)
        (h.0, insert_rule-IsEntry rest ct cr known direct s h.1)

  add_compiled-IsEntry :
      (mapper : Mapper) (rule : RewriteRule) (ct : CandidateType)
      (local : Option (Option (List ℕ × Bool)))
      → IsChecked local
      → ct ≢ unknown
      → ct ≢ peer_reflexive
      → All IsEntry mapper
      → All IsEntry (add_compiled inet_pton mapper rule ct local)
  unfolding add_compiled IsChecked
  add_compiled-IsEntry mapper rule ct none k known direct h = h
  add_compiled-IsEntry mapper rule ct (some local) k known direct h =
      insert_rule-IsEntry mapper ct _ known direct (compile_rule-IsSorted rule ct local k) h

  add_supported :
      (mapper : Mapper) (rule : RewriteRule) (ct : CandidateType)
      (local : Option (Option (List ℕ × Bool)))
      → IsChecked local
      → All IsEntry mapper
      → All IsEntry (
          if same_type (target_type ct) peer_reflexive
          then mapper
          else add_compiled inet_pton mapper rule (target_type ct) local)
  unfolding target_type same_type
  add_supported mapper rule unknown local k h =
      add_compiled-IsEntry mapper rule host local k (λ e. cc) (λ e. cc) h
  add_supported mapper rule host local k h =
      add_compiled-IsEntry mapper rule host local k (λ e. cc) (λ e. cc) h
  add_supported mapper rule server_reflexive local k h =
      add_compiled-IsEntry mapper rule server_reflexive local k (λ e. cc) (λ e. cc) h
  add_supported mapper rule peer_reflexive local k h = h
  add_supported mapper rule relayed local k h =
      add_compiled-IsEntry mapper rule relayed local k (λ e. cc) (λ e. cc) h

  add_rule-IsEntry :
      (mapper : Mapper) (rule : RewriteRule)
      → All IsEntry mapper
      → All IsEntry (add_rule inet_pton mapper rule)
  unfolding add_rule
  add_rule-IsEntry mapper rule h =
      add_supported mapper rule rule.as_candidate_type _ (local_address-IsChecked rule.local) h

  added-IsEntry :
      (rules : List RewriteRule) (mapper : Mapper)
      → All IsEntry mapper
      → All IsEntry (foldl (add_rule inet_pton) mapper rules)
  added-IsEntry [] mapper h = h
  added-IsEntry (rule ∷ rest) mapper h = added-IsEntry rest _ (add_rule-IsEntry mapper rule h)

  -- `build` publishes rules for no unknown and no peer-reflexive type, and none of its lists of rules
  -- is empty. Every catch-all address it keeps is valid and of the family that it is listed for, and
  -- every local address is valid, with external addresses of its own family alone.
  pub build-IsEntry : (rules : List RewriteRule) → All IsEntry (build inet_pton rules).1
  unfolding build
  build-IsEntry rules = added-IsEntry rules [] tt
