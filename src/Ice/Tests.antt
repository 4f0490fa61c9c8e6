-- ===== src/Ice/Tests.antt =====
-- The theorems on candidates, pairs and address rules at concrete inputs.
use stice.Base.{
  ℕ, ◌≤◌, ◌<◌, ◌≡◌, ◌↔◌, refl, arith, true, false, Option, none, some, List, [], ◌∷◌, All,
  list_eq_refl, inr, ◌==◌, if◌then◌else◌,
}
use stice.Base.Ints.{pos, negsuc}
use stice.Net.Addr.{af_inet}
use stice.Ice.Candidate.{
  host, server_reflexive, udp, tcp_active, is_udp, type_preference, compute_priority,
}
use stice.Ice.Candidate.Priority.{compute_priority-bound}
use stice.Ice.CandidatePair.{pair_formula}
use stice.Ice.CandidatePair.Order.{rfc_priority, pair_formula-order}
use stice.Ice.AddrRewrite.{
  append, replace, RewriteRule, CompiledRule, applies, mapped_ips, lookup_loop,
}
use stice.Ice.AddrRewrite.Lookup.{NoEntry, lookup_loop-first}
use stice.Ice.AddrRewrite.Build.{build}
use stice.Ice.AddrRewrite.Build.Families.{IsEntry, build-IsEntry}

compute_priority-bound_example : compute_priority 27 host 2 (pos 1) (negsuc 3) udp ≤ 0x7effffff
compute_priority-bound_example = compute_priority-bound 27 host 2 (pos 1) (negsuc 3) udp

host_preferred : type_preference server_reflexive < type_preference host
unfolding type_preference
host_preferred = omega arith

active-tcp : is_udp tcp_active ≡ false
unfolding is_udp
active-tcp = refl

pair_formula-order_example :
    (pair_formula 100 200 < pair_formula 200 100) ↔ (rfc_priority 100 200 < rfc_priority 200 100)
pair_formula-order_example =
    pair_formula-order 100 200 200 100 (omega arith) (omega arith) (omega arith) (omega arith)

-- `inet_pton` that knows one-letter addresses: lower case for IPv4.
abbrev letters : ℕ → List ℕ → Option (List ℕ)
letters family text = if family == af_inet then some text else none

abbrev some_rule : RewriteRule
some_rule = record {
  external = (b'x' ∷ []) ∷ [];
  local = [];
  iface = [];
  cidr = [];
  as_candidate_type = host;
  mode = replace;
}

abbrev catch_all : CompiledRule
catch_all = record {
  rule = some_rule;
  mode = replace;
  external_v4 = (b'x' ∷ []) ∷ [];
  external_v6 = [];
  catch_all_set = true;
  local_map = [];
  cidr = [];
}

abbrev pinned : CompiledRule
pinned = record catch_all { local_map = (b'p' ∷ [], (b'q' ∷ []) ∷ []) ∷ []; mode = append }

catch_all-applies : applies letters catch_all (b'p' ∷ []) [] ≡ true
unfolding applies
catch_all-applies = refl

pinned-applies : applies letters pinned (b'p' ∷ []) [] ≡ true
unfolding applies
pinned-applies = refl

catch_all-NoEntry : NoEntry letters true (b'p' ∷ []) [] catch_all
unfolding mapped_ips
catch_all-NoEntry = inr refl

pinned-mapped : mapped_ips pinned.local_map (b'p' ∷ []) ≡ some ((b'q' ∷ []) ∷ [])
unfolding mapped_ips
pinned-mapped = rw (list_eq_refl (b'p' ∷ [])) refl

lookup_loop-first_example :
    lookup_loop letters true (b'p' ∷ []) [] (catch_all ∷ pinned ∷ []) none
    ≡ record { external_ips = (b'q' ∷ []) ∷ []; matched = true; mode = append }
lookup_loop-first_example =
    lookup_loop-first letters true (b'p' ∷ []) [] (catch_all ∷ []) [] pinned none ((b'q' ∷ []) ∷ [])
      (catch_all-NoEntry, tt) pinned-applies pinned-mapped

-- A rule for one local address.
abbrev local_rule : RewriteRule
local_rule = record some_rule { external = (b'q' ∷ []) ∷ []; local = b'p' ∷ [] }

build-IsEntry_example : All (IsEntry letters) (build letters (some_rule ∷ local_rule ∷ [])).1
build-IsEntry_example = build-IsEntry letters (some_rule ∷ local_rule ∷ [])
