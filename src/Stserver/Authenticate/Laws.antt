-- ===== src/Stserver/Authenticate/Laws.antt =====
-- What a successful authentication means, and when the nonce is replaced.
use stice.Base.{
  ℕ, ◌≤◌, ◌<◌, ◌≡◌, ◌≢◌, ◌⊎◌, inl, inr, refl, ap, sym, ◌∙◌, arith, Bool, true, false, not, Option,
  none, some, List, leb, if◌then◌else◌, list_eq, list_eq→eq, Bool-cases, if_cases, leb→le, leb→gt,
}
use stice.Crypto.Hmac.{long_term_key}
use stice.Stun.Attributes.{get_string}
use stice.Stun.Message.{
  Attribute, Message, find, check_integrity, integrity_type, username_type, realm_type, nonce_type,
}
use stice.Stserver.Authenticate.{
  AuthState, AuthResult, refresh_nonce, password_of, refuse, check_user, check_nonce, authenticate,
}

-- All that the server has verified of a request.
pub record IsVerified (s : AuthState) (now : ℕ) (msg : Message) (result : AuthResult) : Type 0 where
  pub signed : find msg integrity_type ≢ none
  pub in_time : now < s.nonce_expiry_ms
  pub same_nonce : get_string msg nonce_type ≡ s.nonce
  pub password : List ℕ
  pub known : password_of s.users (get_string msg username_type) ≡ some password
  pub authentic :
      check_integrity msg
        (long_term_key (get_string msg username_type) (get_string msg realm_type) password)
        false
      ≡ true
  pub named : result.username ≡ some (get_string msg username_type)
  pub unchanged : result.state ≡ s

-- Past a test that would have refused.
past_test :
    (b : Bool) (x y : AuthResult)
    → x.code ≢ 0
    → (if b then x else y).code ≡ 0
    → (b ≡ false) × ((if b then x else y) ≡ y)
past_test true x y refused h = absurd (refused h)
past_test false x y refused h = (refl, refl)

not-false : (b : Bool) → not b ≡ false → b ≡ true
not-false true h = refl
not-false false h = cc

user_verified :
    (s : AuthState) (msg : Message) (o : Option (List ℕ))
    → (check_user s msg o).code ≡ 0
    → (password : List ℕ) × (o ≡ some password)
      × (check_integrity msg
            (long_term_key (get_string msg username_type) (get_string msg realm_type) password)
            false
          ≡ true)
      × ((check_user s msg o).username ≡ some (get_string msg username_type))
      × ((check_user s msg o).state ≡ s)
unfolding check_user
user_verified s msg none h = absurd (omega (arith, h))
user_verified s msg (some password) h =
    let (accepted, same) = past_test (not signature) (refuse 401 s) success (omega arith) h in
    (
      password,
      refl,
      not-false signature accepted,
      ap (λ (r : AuthResult). r.username) same,
      ap (λ (r : AuthResult). r.state) same,
    )
  where
    signature : Bool
    signature =
        check_integrity msg
          (long_term_key (get_string msg username_type) (get_string msg realm_type) password) false

    success : AuthResult
    success = record { code = 0; username = some (get_string msg username_type); state = s }

check_nonce-IsVerified :
    (s : AuthState) (now : ℕ) (fresh : List ℕ) (msg : Message) (o : Option Attribute)
    → find msg integrity_type ≡ o
    → (check_nonce s now fresh msg o).code ≡ 0
    → IsVerified s now msg (check_nonce s now fresh msg o)
unfolding check_nonce
check_nonce-IsVerified s now fresh msg none e h = absurd (omega (arith, h))
check_nonce-IsVerified s now fresh msg (some mi) e h =
    let users = password_of s.users (get_string msg username_type) in
    let second =
      if not (list_eq (get_string msg nonce_type) s.nonce)
      then refuse 438 s
      else check_user s msg users in
    let (young, one) =
      past_test (leb s.nonce_expiry_ms now) (refuse 438 (refresh_nonce s now fresh)) second
        (omega arith) h in
    let (equal, two) =
      past_test (not (list_eq (get_string msg nonce_type) s.nonce)) (refuse 438 s)
        (check_user s msg users) (omega arith) (ap (λ (r : AuthResult). r.code) (sym one) ∙ h) in
    let both = one ∙ two in
    let (password, known, authentic, named, unchanged) =
      user_verified s msg users (ap (λ (r : AuthResult). r.code) (sym both) ∙ h) in
    record {
      signed = λ missing. cc;
      in_time = leb→gt s.nonce_expiry_ms now young;
      same_nonce = list_eq→eq _ _ (not-false _ equal);
      password = password;
      known = known;
      authentic = authentic;
      named = ap (λ (r : AuthResult). r.username) both ∙ named;
      unchanged = ap (λ (r : AuthResult). r.state) both ∙ unchanged;
    }

user_state : (s : AuthState) (msg : Message) (o : Option (List ℕ)) → (check_user s msg o).state ≡ s
unfolding check_user
user_state s msg none = refl
user_state s msg (some password) = if_cases (λ (r : AuthResult). r.state ≡ s) _ _ _ refl refl

nonce_state :
    (s : AuthState) (now : ℕ) (fresh : List ℕ) (msg : Message) (o : Option Attribute)
    → ((check_nonce s now fresh msg o).state ≡ s)
      ⊎ ((s.nonce_expiry_ms ≤ now)
          × ((check_nonce s now fresh msg o).code ≡ 438)
          × ((check_nonce s now fresh msg o).state ≡ refresh_nonce s now fresh))
unfolding check_nonce
nonce_state s now fresh msg none = inl refl
nonce_state s now fresh msg (some mi) = elim (Bool-cases (leb s.nonce_expiry_ms now)) [
  | inl old ↦ inr (rw old (leb→le s.nonce_expiry_ms now old, refl, refl))
  | inr young ↦
      inl (rw young (if_cases (λ (r : AuthResult). r.state ≡ s) _ _ _ refl (user_state s msg _)))
]

-- A request is accepted only if it is signed with the key of a known user, under the nonce of the
-- server, before that expires; the user named is the one of the request, and nothing is changed.
pub authenticate-IsVerified :
    (s : AuthState) (now : ℕ) (fresh : List ℕ) (msg : Message)
    → (authenticate s now fresh msg).code ≡ 0
    → IsVerified s now msg (authenticate s now fresh msg)
unfolding authenticate
authenticate-IsVerified s now fresh msg h =
    check_nonce-IsVerified s now fresh msg (find msg integrity_type) refl h

-- The nonce is replaced only once it has expired, and then the answer is 438; in all other cases
-- the state stays as it was, whatever the request is.
pub authenticate-state :
    (s : AuthState) (now : ℕ) (fresh : List ℕ) (msg : Message)
    → ((authenticate s now fresh msg).state ≡ s)
      ⊎ ((s.nonce_expiry_ms ≤ now)
          × ((authenticate s now fresh msg).code ≡ 438)
          × ((authenticate s now fresh msg).state ≡ refresh_nonce s now fresh))
unfolding authenticate
authenticate-state s now fresh msg = nonce_state s now fresh msg (find msg integrity_type)
