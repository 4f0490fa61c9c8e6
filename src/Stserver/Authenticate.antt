-- ===== src/Stserver/Authenticate.antt =====
-- `TurnServer::authenticate` and `refreshNonce`: long-term credentials and the server's nonce. The
-- clock and the random nonce of a rotation are arguments.
pub mod Laws
pub mod Client
use stice.Base.{
  ℕ, ◌+◌, Bool, true, false, not, Option, none, some, List, [], ◌∷◌, leb, ◌==◌, if◌then◌else◌,
  list_eq,
}
use stice.Crypto.Hmac.{long_term_key}
use stice.Stun.Attributes.{get_string}
use stice.Stun.Message.{
  Message, Attribute, find, check_integrity, integrity_type, username_type, realm_type, nonce_type,
}

pub record AuthState : Type 0 where
  pub nonce : List ℕ
  pub nonce_expiry_ms : ℕ
  pub nonce_lifetime_ms : ℕ
  pub users : List (List ℕ × List ℕ)

unfoldable pub refresh_nonce : AuthState → ℕ → List ℕ → AuthState
refresh_nonce s now fresh = record s { nonce = fresh; nonce_expiry_ms = now + s.nonce_lifetime_ms }

unfoldable pub password_of : List (List ℕ × List ℕ) → List ℕ → Option (List ℕ)
password_of [] username = none
password_of ((user, password) ∷ rest) username =
    if list_eq user username then some password else password_of rest username

-- The code, 0 for success, with `outUsername` where it is written.
pub record AuthResult : Type 0 where
  pub code : ℕ
  pub username : Option (List ℕ)
  pub state : AuthState

abbrev pub refuse : ℕ → AuthState → AuthResult
refuse code s = record { code = code; username = none; state = s }

-- From the look-up of the user on.
unfoldable pub check_user : AuthState → Message → Option (List ℕ) → AuthResult
check_user s msg none = refuse 401 s
check_user s msg (some password) =
    let username = get_string msg username_type in
    let key = long_term_key username (get_string msg realm_type) password in
    if not (check_integrity msg key false)
    then refuse 401 s
    else record { code = 0; username = some username; state = s }

-- With what `find` returned for MESSAGE-INTEGRITY.
unfoldable pub check_nonce : AuthState → ℕ → List ℕ → Message → Option Attribute → AuthResult
unfolding refresh_nonce
check_nonce s now fresh msg none = refuse 401 s
check_nonce s now fresh msg (some mi) =
    if leb s.nonce_expiry_ms now
    then refuse 438 (refresh_nonce s now fresh)
    else if not (list_eq (get_string msg nonce_type) s.nonce)
    then refuse 438 s
    else check_user s msg (password_of s.users (get_string msg username_type))

unfoldable pub authenticate : AuthState → ℕ → List ℕ → Message → AuthResult
unfolding check_nonce
authenticate s now fresh msg = check_nonce s now fresh msg (find msg integrity_type)
