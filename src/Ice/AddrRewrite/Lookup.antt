-- ===== src/Ice/AddrRewrite/Lookup.antt =====
-- `findExternalIPs`: which rule decides.
use stice.Base.{
  ℕ, ◌≤◌, ◌≡◌, ◌⊎◌, inl, inr, refl, ap, sym, subst, ◌∙◌, arith, Bool, true, false, ◌&&◌, Option,
  none, some, List, [], ◌∷◌, ◌++◌, All, ltb, ltb→ge, if◌then◌else◌, Bool-cases,
}
use stice.Ice.AddrRewrite.{
  CompiledRule, CatchAll, mapped_ips, specificity, better, keep_best, finish_lookup, applies,
  lookup_loop,
}

-- A best catch-all that is at least as specific as n.
abbrev Reaches : Option CatchAll → ℕ → Type 0
Reaches none n = ⊥
Reaches (some b) n = n ≤ b.spec

Reaches-if :
    (t : Bool) (x y : Option CatchAll) (n : ℕ)
    → (t ≡ true → Reaches x n)
    → (t ≡ false → Reaches y n)
    → Reaches (if t then x else y) n
Reaches-if true x y n p q = p refl
Reaches-if false x y n p q = q refl

after_and : (s t : Bool) → (s && t) ≡ true → (a b n : ℕ) → t ≡ ltb a b → n ≤ a → n ≤ b
after_and s t both a b n e h = ground arith

chosen : (o : Option CatchAll) (n : ℕ) → Reaches o n → (b : CatchAll) × (o ≡ some b) × (n ≤ b.spec)
chosen none n h = absurd h
chosen (some b) n h = (b, refl, h)

module _ (inet_pton : ℕ → List ℕ → Option (List ℕ)) (local_is_v4 : Bool)
    (local_ip iface : List ℕ) where
  -- A rule that names no addresses for this one: it is filtered out, or has no entry for it.
  abbrev pub NoEntry : CompiledRule → Type 0
  NoEntry r =
      (applies inet_pton r local_ip iface ≡ false) ⊎ (mapped_ips r.local_map local_ip ≡ none)

  -- What the loop does with a rule that has no entry.
  step_best : CompiledRule → Option CatchAll → Option CatchAll
  step_best r best =
      if applies inet_pton r local_ip iface then keep_best local_is_v4 r best else best

  lookup-NoEntry :
      (r : CompiledRule) (rest : List CompiledRule) (best : Option CatchAll)
      → NoEntry r
      → lookup_loop inet_pton local_is_v4 local_ip iface (r ∷ rest) best
        ≡ lookup_loop inet_pton local_is_v4 local_ip iface rest (step_best r best)
  unfolding lookup_loop step_best
  lookup-NoEntry r rest best (inl e) = rw e refl
  lookup-NoEntry r rest best (inr e) = elim (Bool-cases (applies inet_pton r local_ip iface)) [
    | inl passes ↦ rw (passes, e) refl
    | inr fails ↦ rw fails refl
  ]

  lookup_entry :
      (r : CompiledRule) (rest : List CompiledRule) (best : Option CatchAll) (ips : List (List ℕ))
      → applies inet_pton r local_ip iface ≡ true
      → mapped_ips r.local_map local_ip ≡ some ips
      → lookup_loop inet_pton local_is_v4 local_ip iface (r ∷ rest) best
        ≡ record { external_ips = ips; matched = true; mode = r.mode }
  unfolding lookup_loop
  lookup_entry r rest best ips passes e = rw (passes, e) refl

  -- The first rule that passes the filters and has an entry for the address decides, whatever
  -- catch-all rules stand before or behind it.
  pub lookup_loop-first :
      (before after : List CompiledRule) (r : CompiledRule) (best : Option CatchAll)
      (ips : List (List ℕ))
      → All NoEntry before
      → applies inet_pton r local_ip iface ≡ true
      → mapped_ips r.local_map local_ip ≡ some ips
      → lookup_loop inet_pton local_is_v4 local_ip iface (before ++ (r ∷ after)) best
        ≡ record { external_ips = ips; matched = true; mode = r.mode }
  lookup_loop-first [] after r best ips none_before passes e =
      lookup_entry r after best ips passes e
  lookup_loop-first (q ∷ before) after r best ips none_before passes e =
      lookup-NoEntry q (before ++ (r ∷ after)) best none_before.0
      ∙ lookup_loop-first before after r (step_best q best) ips none_before.1 passes e

  -- The best catch-all after all rules.
  best_of : List CompiledRule → Option CatchAll → Option CatchAll
  best_of [] best = best
  best_of (r ∷ rest) best = best_of rest (step_best r best)

  lookup_catch_all :
      (rules : List CompiledRule) (best : Option CatchAll)
      → All NoEntry rules
      → lookup_loop inet_pton local_is_v4 local_ip iface rules best
        ≡ finish_lookup (best_of rules best)
  unfolding lookup_loop best_of
  lookup_catch_all [] best h = refl
  lookup_catch_all (r ∷ rest) best h =
      lookup-NoEntry r rest best h.0 ∙ lookup_catch_all rest (step_best r best) h.1

  keeps-Reaches :
      (r : CompiledRule) (best : Option CatchAll) (n : ℕ)
      → Reaches best n
      → Reaches (step_best r best) n
  unfolding step_best keep_best better
  keeps-Reaches r none n h = absurd h
  keeps-Reaches r (some b) n h =
      Reaches-if (applies inet_pton r local_ip iface) _ _ n
        (λ passes.
          Reaches-if (r.catch_all_set && ltb b.spec (specificity r)) _ _ n
            (λ more.
              after_and r.catch_all_set (ltb b.spec (specificity r)) more b.spec (specificity r) n
                refl h)
            (λ less. h))
        (λ fails. h)

  takes-Reaches :
      (r : CompiledRule) (best : Option CatchAll)
      → applies inet_pton r local_ip iface ≡ true
      → r.catch_all_set ≡ true
      → Reaches (step_best r best) (specificity r)
  unfolding step_best keep_best better
  takes-Reaches r none passes set = rw (passes, set) (omega arith)
  takes-Reaches r (some b) passes set =
      rw (passes, set)
        (Reaches-if (ltb b.spec (specificity r)) _ _ (specificity r) (λ more. omega arith)
          (λ less. ltb→ge b.spec (specificity r) less))

  best_of-Reaches :
      (rules : List CompiledRule) (best : Option CatchAll) (n : ℕ)
      → Reaches best n
      → Reaches (best_of rules best) n
  unfolding best_of
  best_of-Reaches [] best n h = h
  best_of-Reaches (r ∷ rest) best n h =
      best_of-Reaches rest (step_best r best) n (keeps-Reaches r best n h)

  best_of-append :
      (before after : List CompiledRule) (best : Option CatchAll)
      → best_of (before ++ after) best ≡ best_of after (best_of before best)
  unfolding best_of
  best_of-append [] after best = refl
  best_of-append (r ∷ before) after best = best_of-append before after (step_best r best)

  -- If no rule has an entry for the address, each catch-all rule that passes the filters has a
  -- chosen one that is at least as specific: the answer is a match, with that rule's addresses.
  pub lookup_loop-catch_all :
      (before after : List CompiledRule) (r : CompiledRule)
      → All NoEntry (before ++ (r ∷ after))
      → applies inet_pton r local_ip iface ≡ true
      → r.catch_all_set ≡ true
      → (b : CatchAll) × (lookup_loop inet_pton local_is_v4 local_ip iface
            (before ++ (r ∷ after))
            none
          ≡ record { external_ips = b.ips; matched = true; mode = b.mode })
        × (specificity r ≤ b.spec)
  unfolding finish_lookup best_of
  lookup_loop-catch_all before after r h passes set =
      let found = chosen (best_of (before ++ (r ∷ after)) none) (specificity r) (
        subst (λ (o : Option CatchAll). Reaches o (specificity r))
          (sym (best_of-append before (r ∷ after) none))
          (best_of-Reaches after _ (specificity r)
            (takes-Reaches r (best_of before none) passes set))) in
      (found.0, lookup_catch_all (before ++ (r ∷ after)) none h ∙ ap finish_lookup found.1, found.2)
