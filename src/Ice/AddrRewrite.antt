-- ===== src/Ice/AddrRewrite.antt =====
-- include/stice/ice/addr_rewrite.hpp and src/ice/addr_rewrite.cpp: the rules that replace or extend
-- the addresses of candidates. `inet_pton` is a parameter: a family and a text to the address's bytes.
pub mod Text
pub mod Cidr
pub mod Lookup
pub mod Build
use stice.Base.{
  ℕ, ◌+◌, Bool, true, false, not, ◌&&◌, Option, none, some, List, [], ◌∷◌, ◌++◌, is_empty, ltb,
  if◌then◌else◌, list_eq,
}
use stice.Ice.Candidate.{CandidateType, unknown, host, server_reflexive, peer_reflexive, relayed}
use stice.Ice.AddrRewrite.Text.{validate_ip, cidr_contains, before_slash, trim}
use mathlib.Core.List.{foldl}

pub data RewriteMode : Type 0 where
  unspecified : RewriteMode
  replace : RewriteMode
  append : RewriteMode

pub record RewriteRule : Type 0 where
  pub external : List (List ℕ)
  pub local : List ℕ
  pub iface : List ℕ
  pub cidr : List ℕ
  pub as_candidate_type : CandidateType
  pub mode : RewriteMode

pub record RewriteResult : Type 0 where
  pub external_ips : List (List ℕ)
  pub matched : Bool
  pub mode : RewriteMode

pub record CompiledRule : Type 0 where
  pub rule : RewriteRule
  pub mode : RewriteMode
  pub external_v4 : List (List ℕ)
  pub external_v6 : List (List ℕ)
  pub catch_all_set : Bool
  pub local_map : List (List ℕ × List (List ℕ))
  pub cidr : List ℕ

-- The rules of each candidate type, in the order in which the types came up.
abbrev pub Mapper : Type 0
Mapper = List (CandidateType × List CompiledRule)

unfoldable pub same_type : CandidateType → CandidateType → Bool
same_type unknown unknown = true
same_type host host = true
same_type server_reflexive server_reflexive = true
same_type peer_reflexive peer_reflexive = true
same_type relayed relayed = true
same_type a b = false

unfoldable pub default_rewrite_mode : CandidateType → RewriteMode
default_rewrite_mode unknown = replace
default_rewrite_mode host = replace
default_rewrite_mode server_reflexive = append
default_rewrite_mode peer_reflexive = replace
default_rewrite_mode relayed = append

unfoldable pub rules_for : Mapper → CandidateType → Option (List CompiledRule)
rules_for [] ct = none
rules_for ((type, rules) ∷ rest) ct = if same_type type ct then some rules else rules_for rest ct

unfoldable pub is_replace : RewriteMode → Bool
is_replace unspecified = false
is_replace replace = true
is_replace append = false

unfoldable pub any_replaces : List CompiledRule → Bool
any_replaces [] = false
any_replaces (r ∷ rest) = if is_replace r.mode then true else any_replaces rest

unfoldable pub should_replace : Mapper → CandidateType → Bool
should_replace mapper ct = elim (rules_for mapper ct) [
  | none ↦ false
  | some rules ↦ any_replaces rules
]

unfoldable pub has_candidate_type : Mapper → CandidateType → Bool
has_candidate_type mapper ct = elim (rules_for mapper ct) [
  | none ↦ false
  | some rules ↦ not (is_empty rules)
]

-- The entry of a local address in `localMap`.
unfoldable pub mapped_ips : List (List ℕ × List (List ℕ)) → List ℕ → Option (List (List ℕ))
mapped_ips [] ip = none
mapped_ips ((key, ips) ∷ rest) ip = if list_eq key ip then some ips else mapped_ips rest ip

-- The specificity of a catch-all rule.
unfoldable pub specificity : CompiledRule → ℕ
specificity r =
    if not (is_empty r.rule.iface)
    then 2 + (if not (is_empty r.cidr) then 1 else 0)
    else if not (is_empty r.cidr)
    then 1
    else 0

-- The best catch-all so far, with its specificity; `none` is `hasCatchAll == false`.
pub record CatchAll : Type 0 where
  pub ips : List (List ℕ)
  pub mode : RewriteMode
  pub spec : ℕ

unfoldable pub better : Option CatchAll → ℕ → Bool
better none spec = true
better (some best) spec = ltb best.spec spec

unfoldable pub keep_best : Bool → CompiledRule → Option CatchAll → Option CatchAll
unfolding better specificity
keep_best local_is_v4 r best =
    if r.catch_all_set && better best (specificity r)
    then some (record {
      ips = if local_is_v4 then r.external_v4 else r.external_v6;
      mode = r.mode;
      spec = specificity r;
    })
    else best

unfoldable pub finish_lookup : Option CatchAll → RewriteResult
finish_lookup none = record { external_ips = []; matched = false; mode = unspecified }
finish_lookup (some best) = record { external_ips = best.ips; matched = true; mode = best.mode }

module _ (inet_pton : ℕ → List ℕ → Option (List ℕ)) where
  -- The interface and the CIDR filter.
  unfoldable pub applies : CompiledRule → List ℕ → List ℕ → Bool
  applies r local_ip iface =
      if not (is_empty r.rule.iface) && not (list_eq r.rule.iface iface)
      then false
      else not (not (is_empty r.cidr) && not (cidr_contains inet_pton r.cidr local_ip))

  unfoldable pub lookup_loop :
      Bool → List ℕ → List ℕ → List CompiledRule → Option CatchAll → RewriteResult
  unfolding applies keep_best finish_lookup mapped_ips
  lookup_loop local_is_v4 local_ip iface [] best = finish_lookup best
  lookup_loop local_is_v4 local_ip iface (r ∷ rest) best =
      let skip = lookup_loop local_is_v4 local_ip iface rest best in
      let go_on = lookup_loop local_is_v4 local_ip iface rest (keep_best local_is_v4 r best) in
      if applies r local_ip iface
      then elim (mapped_ips r.local_map local_ip) [
        | some ips ↦ record { external_ips = ips; matched = true; mode = r.mode }
        | none ↦ go_on
      ]
      else skip

  unfoldable pub find_external_ips : Mapper → CandidateType → List ℕ → List ℕ → RewriteResult
  find_external_ips mapper ct local_ip iface = elim (rules_for mapper ct) [
    | none ↦ finish_lookup none
    | some rules ↦ elim (validate_ip inet_pton local_ip) [
      | none ↦ finish_lookup none
      | some local_is_v4 ↦ lookup_loop local_is_v4 local_ip iface rules none
    ]
  ]
