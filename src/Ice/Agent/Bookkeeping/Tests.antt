-- ===== src/Ice/Agent/Bookkeeping/Tests.antt =====
-- The theorems on the bookkeeping at a pair whose consent has run out.
use stice.Base.{
  ℕ, ◌⊎◌, ◌≤◌, ◌≡◌, refl, arith, true, false, some, [], ◌∷◌, get_elem?, modify, find_from,
}
use stice.Ice.Agent.{
  connected, PairState, StunEntryState, is_pending, is_failed, CandidatePair, StunEntry, Agent,
  is_succeeded, is_controlling,
}
use stice.Ice.Agent.Progress.{update_state, follow, choose, without_pair, all_failed}
use stice.Ice.Agent.Requests.{set_state}
use stice.Ice.Agent.Responses.{fail_entry}
use stice.Ice.Agent.Bookkeeping.{
  freeze_pairs, drive_entries, is_keepalive, nominate_selected, on_bookkeeping,
}
use stice.Ice.Agent.Bookkeeping.Wanes.{Frame-refl}
use stice.Ice.Agent.Bookkeeping.Consent.{on_bookkeeping-consent}
use stice.Ice.Agent.Bookkeeping.Timestamp.{next_timestamp}
use stice.Ice.Agent.Bookkeeping.Deadlines.{IsDeadline, next_timestamp-earliest}
use stice.Ice.Agent.Sample.{
  agent, locals, remotes, pair, no_relays, no_tick, no_ids, no_random, entry,
}

abbrev alive : CandidatePair
alive = record (pair PairState.succeeded 1 20) { nominated = true; consent_expiry = 31000 }

abbrev keeper : StunEntry
keeper = record entry {
  state = StunEntryState.succeeded_keepalive;
  pair = some 1;
  next_transmission = 40000;
}

-- Connected over the pair 1, whose consent runs out at 31000.
abbrev idle : Agent
idle = record (agent connected locals remotes (pair PairState.frozen 0 10 ∷ alive ∷ [])) {
  entries = keeper ∷ [];
  selected_pair = some 1;
}

keeper-is_keepalive : is_keepalive keeper.state ≡ true
unfolding is_keepalive
keeper-is_keepalive = refl

keeper_there : get_elem? idle.entries 0 ≡ some keeper
unfolding get_elem?
keeper_there = refl

alive_there : get_elem? idle.pairs 1 ≡ some alive
unfolding get_elem?
alive_there = refl

abbrev gone : CandidatePair
gone = record alive { state = PairState.failed }

gone_there :
    get_elem? (on_bookkeeping no_relays no_tick false idle 31000 no_ids no_random).pairs 1
    ≡ some gone
unfolding get_elem? on_bookkeeping update_state follow choose freeze_pairs nominate_selected
    drive_entries is_pending is_keepalive modify is_controlling set_state find_from fail_entry
    is_succeeded without_pair all_failed is_failed
gone_there = refl

on_bookkeeping-consent_example : is_succeeded gone.state ≡ false
on_bookkeeping-consent_example =
    on_bookkeeping-consent no_relays no_tick false (λ m a. Frame-refl m a) (λ m a. Frame-refl m a)
      idle 31000 no_ids no_random 0 keeper 1 alive gone keeper_there keeper-is_keepalive refl
      alive_there (omega arith) gone_there

next_timestamp-earliest_example :
    (((d : ℕ) → ¬ IsDeadline idle (50000 ∷ []) d) × (next_timestamp idle (50000 ∷ []) ≡ 0))
    ⊎ (IsDeadline idle (50000 ∷ []) (next_timestamp idle (50000 ∷ []))
        × ((d : ℕ) → IsDeadline idle (50000 ∷ []) d → next_timestamp idle (50000 ∷ []) ≤ d))
next_timestamp-earliest_example = next_timestamp-earliest idle (50000 ∷ [])
