-- ===== src/Ice/Agent/Tests.antt =====
-- The theorems on agents at the runs of two agents on one network.
use stice.Base.{
  All, ◌++◌, List, max, ◌≤◌, ◌<◌, ◌≡◌, refl, arith, true, false, some, [], get_elem?, inl, inr,
}
use stice.Base.Ints.{same_int}
use stice.Net.Addr.{addr_is_link_local}
use stice.Ice.Candidate.{is_udp}
use stice.Ice.Agent.{CandidatePair, connecting, PairState, limited_concurrent, Agent, is_frozen}
use stice.Ice.Agent.Pairs.{
  can_pair, form_pairs, priority_at, update_ordered_pairs, insert_pair, ss_family, transports_pair,
  sort_pairs, is_passive,
}
use stice.Ice.Agent.Pairs.Laws.{IsDistinct}
use stice.Ice.Agent.Pairs.Allowed.{IsAllowed, form_pairs-IsAllowed}
use stice.Ice.Agent.Pairs.Form.{IsCovered, form_pairs-IsCovered}
use stice.Ice.Agent.Schedule.{
  prepare_arming, arm_next_frozen_pair, arm_pairs, budget_for, count_in_progress_checks, cap,
  is_eligible, has_entry, pair_is_tcp_relay, is_serial, arm_step, is_disable, armed_entry,
  is_phased,
}
use stice.Ice.Agent.Schedule.Bounds.{
  IsArming, arm_next_frozen_pair-IsArming, arm_next_frozen_pair-cap,
}
use stice.Ice.Agent.Schedule.Arming.{arm_pairs-priority}
use stice.Ice.Agent.Soundness.{IsSound}
use stice.Ice.Agent.Descriptions.{push_remote}
use stice.Ice.Agent.Gathering.{add_local_candidate}
use stice.Ice.Agent.Bookkeeping.{on_bookkeeping}
use stice.Ice.Agent.Runs.{Step, Reach, Reach-IsSound}
use stice.Bytes.{read_u32_be}
use stice.Ice.Agent.Sample.{
  waiting, candidate, agent, locals, remotes, pair, fresh, names, no_relays, no_tick, no_ids,
  no_random,
}

fresh-IsSound : IsSound fresh
unfolding IsDistinct
fresh-IsSound = record {
  check_list = record { paired = tt; distinct = tt; bounded = omega arith };
  checks = omega arith;
}

-- From no candidates to a check under way.
abbrev paired : Agent
paired =
    form_pairs (push_remote (add_local_candidate no_relays fresh (candidate 2) 900) (candidate 3))

abbrev checking : Agent
checking =
    on_bookkeeping no_relays no_tick false (arm_next_frozen_pair no_relays paired 1000) 2000 no_ids
      no_random

run : Reach names no_relays no_tick fresh checking
run =
    Reach.next
      (Reach.next
        (Reach.next
          (Reach.next (Reach.next Reach.here (Step.local_candidate _ (candidate 2) 900 (inr refl)))
            (Step.remote_candidate _ (candidate 3)))
          (Step.pairs _))
        (Step.arming _ 1000))
      (Step.bookkeeping _ false 2000 no_ids no_random)

Reach-IsSound_example : IsSound checking
Reach-IsSound_example =
    Reach-IsSound names no_relays no_tick (λ a s. s) (λ n a s. s) run fresh-IsSound

candidates_pair : can_pair (candidate 2) (candidate 4) ≡ true
unfolding can_pair addr_is_link_local same_int ss_family read_u32_be transports_pair is_udp
candidates_pair = refl

form_pairs-IsCovered_example : IsCovered 0 1 (form_pairs (agent connecting locals remotes [])).pairs
unfolding get_elem?
form_pairs-IsCovered_example =
    form_pairs-IsCovered (agent connecting locals remotes []) 0 1 (candidate 2) (candidate 4) refl
      refl candidates_pair

form_pairs-IsAllowed_example :
    (added : List CandidatePair) × ((form_pairs (agent connecting locals remotes [])).pairs
      ≡ [] ++ added)
    × All IsAllowed added
form_pairs-IsAllowed_example = form_pairs-IsAllowed (agent connecting locals remotes [])

arm_next_frozen_pair-IsArming_example :
    let c = prepare_arming no_relays waiting 1000 in
    let budget = budget_for c.config.schedule_mode c.config (count_in_progress_checks c.entries) in
    IsArming c.config c.pairs c.mode 1000 budget c.entries
      (arm_next_frozen_pair no_relays waiting 1000).entries
      budget
arm_next_frozen_pair-IsArming_example = arm_next_frozen_pair-IsArming no_relays waiting 1000

-- The same, in order.
eligible_ordered :
    is_eligible (update_ordered_pairs waiting).config (pair PairState.frozen 1 20) ≡ true
unfolding is_eligible is_frozen is_phased update_ordered_pairs is_disable pair_is_tcp_relay
    is_passive
eligible_ordered = refl

lower_ordered :
    priority_at (update_ordered_pairs waiting).pairs 0
    < priority_at (update_ordered_pairs waiting).pairs 1
unfolding priority_at update_ordered_pairs get_elem?
lower_ordered = omega arith

no_entry_ordered : has_entry (update_ordered_pairs waiting).entries 0 ≡ false
unfolding has_entry update_ordered_pairs
no_entry_ordered = refl

armed_below : has_entry (arm_pairs (update_ordered_pairs waiting) 1000 2).entries 0 ≡ true
unfolding has_entry arm_pairs update_ordered_pairs sort_pairs insert_pair priority_at get_elem?
    arm_step is_eligible is_frozen is_phased is_disable pair_is_tcp_relay is_passive is_serial
    armed_entry
armed_below = refl

concurrent : (prepare_arming no_relays waiting 1000).config.schedule_mode ≡ limited_concurrent
unfolding prepare_arming is_phased
concurrent = refl

ordered_again :
    (update_ordered_pairs waiting).ordered_pairs
    ≡ (update_ordered_pairs (update_ordered_pairs waiting)).ordered_pairs
unfolding update_ordered_pairs
ordered_again = refl

ordered_pair : get_elem? (update_ordered_pairs waiting).pairs 1 ≡ some (pair PairState.frozen 1 20)
unfolding update_ordered_pairs get_elem?
ordered_pair = refl

arm_pairs-priority_example :
    has_entry (arm_pairs (update_ordered_pairs waiting) 1000 2).entries 1 ≡ true
arm_pairs-priority_example =
    arm_pairs-priority (update_ordered_pairs waiting) 1000 2 0 1 (pair PairState.frozen 1 20)
      ordered_again ordered_pair eligible_ordered lower_ordered no_entry_ordered armed_below

arm_next_frozen_pair-cap_example :
    count_in_progress_checks (arm_next_frozen_pair no_relays waiting 1000).entries
    ≤ max
        (count_in_progress_checks (prepare_arming no_relays waiting 1000).entries)
        (cap (prepare_arming no_relays waiting 1000).config)
arm_next_frozen_pair-cap_example = arm_next_frozen_pair-cap no_relays waiting 1000 (inl concurrent)
