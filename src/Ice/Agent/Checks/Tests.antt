-- ===== src/Ice/Agent/Checks/Tests.antt =====
-- The theorems on checks at the check that one agent sends to its peer.
use stice.Base.{◌≡◌, refl, arith, true, [], ◌∷◌, inr}
use stice.Stun.Message.{Message}
use stice.Ice.Agent.{connecting, Agent}
use stice.Ice.Agent.Requests.{verify_binding_request, resolve_role}
use stice.Ice.Agent.Responses.{switch_role}
use stice.Ice.Agent.Checks.{sent_entry, send_check}
use stice.Ice.Agent.Checks.Accepted.{
  IsNamed, received, decode-send_check, verify_binding_request-send_check,
}
use stice.Ice.Agent.Checks.Roles.{Settles, resolve_role-send_check}
use stice.Ice.Agent.Sample.{waiting, agent, entry}

-- The peer, in the same role, with the larger tie-breaker.
abbrev peer : Agent
peer = record (agent connecting [] [] []) {
  tiebreaker = 9;
  local_ufrag = b'c' ∷ b'd' ∷ [];
  local_pwd = b'q' ∷ [];
  remote_ufrag = b'a' ∷ b'b' ∷ [];
  remote_pwd = b'p' ∷ [];
}

entry-IsNamed : IsNamed waiting (sent_entry waiting [] entry).transaction_id
unfolding sent_entry
entry-IsNamed = record {
  id_size = refl;
  id_bytes = omega arith;
  remote_short = omega arith;
  local_short = omega arith;
  remote_bytes = omega arith;
  local_bytes = omega arith;
}

abbrev blank : Message
blank = record { method = 0; cls = 0; transaction_id = []; attributes = []; raw = [] }

abbrev delivered : Message
delivered = received 8191 waiting [] entry entry-IsNamed []

verify_binding_request-send_check_example : verify_binding_request peer delivered ≡ true
verify_binding_request-send_check_example =
    verify_binding_request-send_check 8191 waiting [] entry entry-IsNamed peer blank delivered []
      (decode-send_check 8191 waiting [] entry entry-IsNamed blank []) (omega arith) refl refl
      (inr refl)

resolve_role-send_check_example :
    Settles waiting peer
      (resolve_role peer delivered)
      (switch_role waiting 0 (send_check 8191 waiting [] entry).1 2000)
resolve_role-send_check_example =
    resolve_role-send_check 8191 waiting [] entry peer blank delivered [] 0 2000 entry-IsNamed
      (decode-send_check 8191 waiting [] entry entry-IsNamed blank []) (omega arith) (λ h. cc)
