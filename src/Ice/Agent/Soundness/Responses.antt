-- ===== src/Ice/Agent/Soundness/Responses.antt =====
-- The handling of responses keeps soundness.
use stice.Base.{
  ℕ, refl, true, not, Option, none, some, length-modify, modify, ◌==◌, if◌then◌else◌, if_cases,
}
use stice.Net.Addr.{AddrRecord, is_equal}
use stice.Stun.Message.{Message}
use stice.Stun.Attributes.{read_error_code}
use stice.Ice.Agent.{
  controlling, controlled, PairState, CandidatePair, StunEntry, Agent, is_succeeded, is_controlling,
  is_check,
}
use stice.Ice.Agent.Pairs.{update_ordered_pairs}
use stice.Ice.Agent.Progress.{best_pair}
use stice.Ice.Agent.Requests.{set_state}
use stice.Ice.Agent.Responses.{
  mode_code, is_idle, switch_role, set_pair, fail_entry, succeed, select, reselect, handle_success,
  succeed_pair, code_of, handle_failure, handle_result, handle_binding_response,
}
use stice.Ice.Agent.Soundness.{IsSound, alike-IsSound, update_state-IsSound, arm_next-IsSound}
use stice.Ice.Agent.Soundness.Requests.{
  set_state_keeps, succeed_keeps, changed-IsSound, armed-IsSound, reordered-IsSound,
}

pub entry-IsSound :
    (a : Agent) (n : ℕ) (f : StunEntry → StunEntry)
    → IsSound a
    → IsSound (record a { entries = modify a.entries n f })
entry-IsSound a n f s =
    armed-IsSound a (modify a.entries n f) (rw (length-modify a.entries n f) s.checks) s

switch_role-IsSound :
    (a : Agent) (n : ℕ) (e : StunEntry) (now : ℕ) → IsSound a → IsSound (switch_role a n e now)
unfolding switch_role
switch_role-IsSound a n e now s =
    let mode = if is_controlling a.mode then controlled else controlling in
    let sb = reordered-IsSound a mode s in
    if_cases IsSound (mode_code e.mode == mode_code a.mode) _ _
      (if_cases IsSound (not (is_idle e.state)) _ _
        (entry-IsSound (update_ordered_pairs (record a { mode = mode })) n _ sb) sb)
      s

selected-IsSound : (a : Agent) (k : ℕ) → IsSound a → IsSound (select a k)
unfolding select
selected-IsSound a k s =
    alike-IsSound a _ (record { pairs = refl; locals = refl; remotes = refl; size = refl }) s

reselect-IsSound :
    (a : Agent) (best : Option (ℕ × CandidatePair)) (o : Option ℕ)
    → IsSound a
    → IsSound (reselect a best o)
unfolding reselect
reselect-IsSound a none o s = s
reselect-IsSound a (some (k, p)) none s = selected-IsSound a k s
reselect-IsSound a (some (k, p)) (some j) s = if_cases IsSound _ _ _ (selected-IsSound a k s) s

nominated-IsSound :
    (a : Agent) (o : Option ℕ) → IsSound a → IsSound (record a { nominated_pair = o })
nominated-IsSound a o s =
    alike-IsSound a _ (record { pairs = refl; locals = refl; remotes = refl; size = refl }) s

handle_success-IsSound :
    (a : Agent) (n k now random : ℕ) → IsSound a → IsSound (handle_success a n k now random)
unfolding handle_success
handle_success-IsSound a n k now random s =
    let sb = changed-IsSound a k (succeed now) (succeed_keeps now) s in
    let sc =
      if_cases IsSound (is_controlling a.mode) _ _
        (reselect-IsSound _
          (best_pair (λ (p : CandidatePair). is_succeeded p.state) (modify a.pairs k (succeed now))
            0 none)
          a.selected_pair sb)
        sb in
    entry-IsSound _ n _ (if_cases IsSound _ _ _ (nominated-IsSound _ (some k) sc) sc)

succeed_pair-IsSound :
    (a : Agent) (n : ℕ) (o : Option ℕ) (now random : ℕ)
    → IsSound a
    → IsSound (succeed_pair a n o now random)
unfolding succeed_pair
succeed_pair-IsSound a n none now random s = s
succeed_pair-IsSound a n (some k) now random s = handle_success-IsSound a n k now random s

pub set_pair-IsSound :
    (a : Agent) (o : Option ℕ) (t : PairState) → IsSound a → IsSound (set_pair a o (set_state t))
unfolding set_pair
set_pair-IsSound a none t s = s
set_pair-IsSound a (some k) t s = changed-IsSound a k (set_state t) (set_state_keeps t) s

module _ (relays : Agent → Agent) (sound : (a : Agent) → IsSound a → IsSound (relays a)) where
  handle_failure-IsSound :
      (a : Agent) (n : ℕ) (e : StunEntry) (now : ℕ)
      → IsSound a
      → IsSound (handle_failure relays a n e now)
  unfolding handle_failure
  handle_failure-IsSound a n e now s =
      let sb = set_pair-IsSound _ e.pair PairState.failed (entry-IsSound a n fail_entry s) in
      update_state-IsSound _ now
        (if_cases IsSound (is_check e.type) _ _ (arm_next-IsSound relays sound _ now sb) sb)

  pub handle_binding_response-IsSound :
      (a : Agent) (msg : Message) (src : AddrRecord) (n : ℕ) (e : StunEntry) (now random : ℕ)
      → IsSound a
      → IsSound (handle_binding_response relays a msg src n e now random)
  unfolding handle_binding_response handle_result
  handle_binding_response-IsSound a msg src n e now random s =
      if_cases IsSound (not (is_equal e.address src true)) _ _ s (
        if_cases IsSound (msg.cls == 3) _ _
          (if_cases IsSound (code_of (read_error_code msg) == 487) _ _
            (switch_role-IsSound a n e now s) (handle_failure-IsSound a n e now s))
          (if_cases IsSound _ _ _ s (succeed_pair-IsSound a n e.pair now random s)))
