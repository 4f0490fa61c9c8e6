-- ===== src/Stserver/Authenticate/Client.antt =====
-- A request that a client with the right password encodes is accepted by the server.
use stice.Base.{
  ℕ, ◌^◌, ◌<◌, ◌≡◌, ◌≢◌, refl, ap, sym, ◌∙◌, arith, true, false, Option, none, some, List, [], ◌∷◌,
  ◌++◌, is_empty, length, All, ==_ne, ==-refl, gt→leb, list_eq_refl,
}
use stice.Bytes.{IsByte}
use stice.Crypto.Md5.{md5, md5_final}
use stice.Crypto.Hmac.{long_term_key}
use stice.Stun.Attributes.{get_string}
use stice.Stun.Attributes.Lookup.{find_in-append, find_in-append_found}
use stice.Stun.Message.{
  Attribute, Credentials, Message, find, find_in, encode, check_integrity, integrity_key,
  integrity_type, username_type, realm_type, nonce_type, indication,
}
use stice.Stun.Message.Packet.{
  IsWire, tlvs, text_attribute, credential_attributes, sent_attributes, body_attributes,
  authenticated_attributes, mac_attribute,
}
use stice.Stun.Message.Decode.{IsSendable}
use stice.Stun.Message.RoundTrip.{IsText?, AreTexts}
use stice.Stun.Message.Checks.Encoded.{check_integrity-encode, no_integrity_body}
use stice.Stserver.Authenticate.{AuthState, password_of, check_user, check_nonce, authenticate}

long_term_key_nonempty :
    (username realm password : List ℕ) → is_empty (long_term_key username realm password) ≡ false
unfolding long_term_key md5 md5_final
long_term_key_nonempty username realm password = refl

text_found :
    (type : ℕ) (text : List ℕ)
    → is_empty text ≡ false
    → find_in (text_attribute type text) type ≡ some (record { type = type; value = text })
unfolding find_in
text_found type [] h = cc
text_found type (x ∷ xs) h = rw (==-refl type) refl

text_missing :
    (type other : ℕ) (text : List ℕ)
    → other ≢ type
    → find_in (text_attribute other text) type ≡ none
unfolding find_in
text_missing type other [] h = refl
text_missing type other (x ∷ xs) h = rw (==_ne other type h) refl

not_found :
    (xs : List Attribute) (type : ℕ)
    → All (λ (a : Attribute). a.type ≢ type) xs
    → find_in xs type ≡ none
unfolding find_in
not_found [] type h = refl
not_found (a ∷ xs) type h = rw (==_ne a.type type h.0) (not_found xs type h.1)

-- The server's view of the request: what `decode` makes of the client's message (its attributes are
-- those sent), with any bytes behind it.
module _ (m : Message) (p : List ℕ) (c : Credentials) (software : Option (List ℕ))
    (sendable : IsSendable m) (b : All IsByte m.transaction_id) (w : All IsWire m.attributes)
    (t : AreTexts (some c)) (u : IsText? software)
    (fits : length (tlvs (sent_attributes m (some p) (some c) software)) < 2 ^ 16)
    (request : m.cls ≢ indication)
    (no_mac : All (λ (a : Attribute). a.type ≢ integrity_type) m.attributes)
    (has_username : is_empty c.username ≡ false) (has_realm : is_empty c.realm ≡ false)
    (has_nonce : is_empty c.nonce ≡ false) (r : Message) (post : List ℕ)
    (sent : r.attributes ≡ sent_attributes m (some p) (some c) software)
    (raw : r.raw ≡ (encode m (some p) (some c) software).raw ++ post) where
  named :
      credential_attributes m.cls (some p) (some c)
      ≡ text_attribute username_type c.username
        ++ (text_attribute realm_type c.realm ++ text_attribute nonce_type c.nonce)
  named = rw (==_ne m.cls indication request) refl

  credential_found :
      (type : ℕ) (a : Attribute)
      → find_in (credential_attributes m.cls (some p) (some c)) type ≡ some a
      → find r type ≡ some a
  unfolding find
  credential_found type a h = rw sent (
      find_in-append_found (authenticated_attributes m (some p) (some c) software) _ type a (
        find_in-append_found (body_attributes m (some p) (some c) software) _ type a
          (find_in-append_found (credential_attributes m.cls (some p) (some c)) _ type a h)))

  username_read : get_string r username_type ≡ c.username
  unfolding get_string
  username_read =
      rw
        (
          credential_found username_type _ (
              ap (λ (xs : List Attribute). find_in xs username_type) named
              ∙ find_in-append_found (text_attribute username_type c.username) _ username_type _
                  (text_found username_type c.username has_username)),
          get_string,
        )
        refl

  realm_read : get_string r realm_type ≡ c.realm
  unfolding get_string
  realm_read =
      rw
        (
          credential_found realm_type _ (
              ap (λ (xs : List Attribute). find_in xs realm_type) named
              ∙ find_in-append (text_attribute username_type c.username) _ realm_type
                  (text_missing realm_type username_type c.username (omega arith))
              ∙ find_in-append_found (text_attribute realm_type c.realm) _ realm_type _
                  (text_found realm_type c.realm has_realm)),
          get_string,
        )
        refl

  nonce_read : get_string r nonce_type ≡ c.nonce
  unfolding get_string
  nonce_read =
      rw
        (
          credential_found nonce_type _ (
              ap (λ (xs : List Attribute). find_in xs nonce_type) named
              ∙ find_in-append (text_attribute username_type c.username) _ nonce_type
                  (text_missing nonce_type username_type c.username (omega arith))
              ∙ find_in-append (text_attribute realm_type c.realm) _ nonce_type
                  (text_missing nonce_type realm_type c.realm (omega arith))
              ∙ text_found nonce_type c.nonce has_nonce),
          get_string,
        )
        refl

  mac_found :
      find r integrity_type
      ≡ some (mac_attribute m p (some c) (body_attributes m (some p) (some c) software))
  unfolding find find_in
  mac_found = rw sent (
      find_in-append_found (authenticated_attributes m (some p) (some c) software) _ integrity_type
        _
        (find_in-append (body_attributes m (some p) (some c) software) _ integrity_type (
            not_found (body_attributes m (some p) (some c) software) integrity_type
              (no_integrity_body m (some p) (some c) software no_mac))
          ∙ rw (==_ne m.cls indication request) refl))

  key_used :
      (password : List ℕ)
      → c.key ≡ long_term_key c.username c.realm password
      → integrity_key p (some c) ≡ long_term_key c.username c.realm password
  unfolding integrity_key
  key_used password key = rw (key, long_term_key_nonempty c.username c.realm password) refl

  -- The steps of the server, from the last.
  user_accepted :
      (s : AuthState) (password : List ℕ)
      → c.key ≡ long_term_key c.username c.realm password
      → check_user s r (some password) ≡ record { code = 0; username = some c.username; state = s }
  unfolding check_user
  user_accepted s password key = rw (username_read, realm_read, accepted) refl
    where
      accepted : check_integrity r (long_term_key c.username c.realm password) false ≡ true
      accepted =
          ap (λ (k : List ℕ). check_integrity r k false) (sym (key_used password key))
          ∙ check_integrity-encode m (some p) (some c) software sendable b w t u fits p refl request
              no_mac r post false raw

  nonce_accepted :
      (s : AuthState) (now : ℕ) (fresh password : List ℕ) (mi : Attribute)
      → c.nonce ≡ s.nonce
      → now < s.nonce_expiry_ms
      → password_of s.users c.username ≡ some password
      → check_nonce s now fresh r (some mi) ≡ check_user s r (some password)
  unfolding check_nonce
  nonce_accepted s now fresh password mi same young known =
      rw
        (
          gt→leb s.nonce_expiry_ms now young,
          nonce_read,
          same,
          list_eq_refl s.nonce,
          username_read,
          known,
        )
        refl

  -- A client that knows a user's password is let in: its request, encoded with the user's name, a
  -- realm, the server's nonce and the long-term key of the three, is accepted until the nonce expires,
  -- under the user's name, and the server's state stays as it was.
  pub authenticate-encode :
      (s : AuthState) (now : ℕ) (fresh password : List ℕ)
      → c.nonce ≡ s.nonce
      → now < s.nonce_expiry_ms
      → password_of s.users c.username ≡ some password
      → c.key ≡ long_term_key c.username c.realm password
      → authenticate s now fresh r ≡ record { code = 0; username = some c.username; state = s }
  unfolding authenticate
  authenticate-encode s now fresh password same young known key =
      ap (check_nonce s now fresh r) mac_found
      ∙ nonce_accepted s now fresh password
          (mac_attribute m p (some c) (body_attributes m (some p) (some c) software)) same young
          known
      ∙ user_accepted s password key
