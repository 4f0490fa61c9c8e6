-- ===== src/Ice/AddrRewrite/Build.antt =====
-- `AddressRewriteMapper::build`: rules are checked, trimmed and sorted by candidate type.
pub mod Families
use stice.Base.{
  ℕ, Bool, true, false, not, ◌&&◌, Option, none, some, List, [], ◌∷◌, ◌++◌, is_empty, if◌then◌else◌,
  list_eq,
}
use stice.Ice.Candidate.{CandidateType, unknown, host, server_reflexive, peer_reflexive, relayed}
use stice.Ice.AddrRewrite.{
  RewriteMode, unspecified, replace, append, RewriteRule, CompiledRule, Mapper, same_type,
  default_rewrite_mode,
}
use stice.Ice.AddrRewrite.Text.{validate_ip, before_slash, trim}
use mathlib.Core.List.{foldl}

unfoldable pub target_type : CandidateType → CandidateType
target_type unknown = host
target_type host = host
target_type server_reflexive = server_reflexive
target_type peer_reflexive = peer_reflexive
target_type relayed = relayed

unfoldable pub chosen_mode : RewriteMode → CandidateType → RewriteMode
chosen_mode unspecified ct = default_rewrite_mode ct
chosen_mode replace ct = replace
chosen_mode append ct = append

unfoldable pub push_mapping :
    List (List ℕ × List (List ℕ)) → List ℕ → List ℕ → List (List ℕ × List (List ℕ))
push_mapping [] key ip = (key, ip ∷ []) ∷ []
push_mapping ((k, ips) ∷ rest) key ip =
    let more = push_mapping rest key ip in
    if list_eq k key then ((k, ips ++ (ip ∷ [])) ∷ rest) else ((k, ips) ∷ more)

-- Adds an address under the target family; the flag is `added`.
unfoldable pub add_address :
    CompiledRule × Bool → Option (List ℕ × Bool) → Bool → List ℕ → CompiledRule × Bool
add_address (cr, added) (some (key, key_is_v4)) target_v4 ip =
    (record cr { local_map = push_mapping cr.local_map key ip }, true)
add_address (cr, added) none true ip =
    (record cr { external_v4 = cr.external_v4 ++ (ip ∷ []); catch_all_set = true }, true)
add_address (cr, added) none false ip =
    (record cr { external_v6 = cr.external_v6 ++ (ip ∷ []); catch_all_set = true }, true)

-- `if (!added)`.
unfoldable pub complete_rule : CompiledRule × Bool → Option (List ℕ × Bool) → CompiledRule
complete_rule (cr, true) local = cr
complete_rule (cr, false) (some (key, key_is_v4)) = record cr {
  local_map = cr.local_map ++ ((key, []) ∷ []);
}
complete_rule (cr, false) none = record cr { catch_all_set = true }

unfoldable pub same_family : Bool → Bool → Bool
same_family true b = b
same_family false b = not b

-- Find or create the vector of the type.
unfoldable pub insert_rule : Mapper → CandidateType → CompiledRule → Mapper
insert_rule [] ct cr = (ct, cr ∷ []) ∷ []
insert_rule ((type, rules) ∷ rest) ct cr =
    let more = insert_rule rest ct cr in
    if same_type type ct then ((type, rules ++ (cr ∷ [])) ∷ rest) else ((type, rules) ∷ more)

module _ (inet_pton : ℕ → List ℕ → Option (List ℕ)) where
  -- The family that an external address must have.
  unfoldable pub target_family : Option (List ℕ × Bool) → List ℕ → Bool → Bool
  target_family (some (key, key_is_v4)) cidr is_v4 = key_is_v4
  target_family none cidr is_v4 =
      if not (is_empty cidr)
      then elim (validate_ip inet_pton (before_slash cidr)) [ none ↦ is_v4 | some c ↦ c ]
      else is_v4

  -- One round of the loop over `rule.external`, by the family of the trimmed address.
  unfoldable pub add_validated :
      Option (List ℕ × Bool) → CompiledRule × Bool → List ℕ → Option Bool → CompiledRule × Bool
  unfolding same_family
  add_validated local state ip none = state
  add_validated local state ip (some is_v4) =
      let target_v4 = target_family local (state.0).cidr is_v4 in
      if same_family target_v4 is_v4 then add_address state local target_v4 ip else state

  unfoldable pub add_external :
      Option (List ℕ × Bool) → CompiledRule × Bool → List ℕ → CompiledRule × Bool
  unfolding add_validated
  add_external local state raw =
      if is_empty (trim raw)
      then state
      else add_validated local state (trim raw) (validate_ip inet_pton (trim raw))

  abbrev pub empty_compiled : RewriteRule → CandidateType → CompiledRule
  empty_compiled rule ct = record {
    rule = rule;
    mode = chosen_mode rule.mode ct;
    external_v4 = [];
    external_v6 = [];
    catch_all_set = false;
    local_map = [];
    cidr = rule.cidr;
  }

  unfoldable pub compile_rule : RewriteRule → CandidateType → Option (List ℕ × Bool) → CompiledRule
  compile_rule rule ct local =
      complete_rule (foldl (add_external local) (empty_compiled rule ct, false) rule.external) local

  -- The trimmed local address with its family: outer `none` for an invalid one.
  unfoldable pub local_address : List ℕ → Option (Option (List ℕ × Bool))
  local_address text =
      if is_empty (trim text) then some none else elim (validate_ip inet_pton (trim text)) [
        | none ↦ none
        | some is_v4 ↦ some (some (trim text, is_v4))
      ]

  unfoldable pub is_peer_reflexive : CandidateType → Bool
  is_peer_reflexive ct = same_type ct peer_reflexive

  -- One round of the loop over the rules; a rule that is not supported or not valid is skipped.
  unfoldable pub add_compiled :
      Mapper → RewriteRule → CandidateType → Option (Option (List ℕ × Bool)) → Mapper
  add_compiled mapper rule ct none = mapper
  add_compiled mapper rule ct (some local) = insert_rule mapper ct (compile_rule rule ct local)

  unfoldable pub add_rule : Mapper → RewriteRule → Mapper
  unfolding target_type is_peer_reflexive add_compiled
  add_rule mapper rule =
      let ct = target_type rule.as_candidate_type in
      if is_peer_reflexive ct
      then mapper
      else add_compiled mapper rule ct (local_address rule.local)

  -- The result and the mapper after the call.
  unfoldable pub build : List RewriteRule → Bool × Mapper
  build rules = let mapper = foldl add_rule [] rules in (not (is_empty mapper), mapper)
