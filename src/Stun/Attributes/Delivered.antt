-- ===== src/Stun/Attributes/Delivered.antt =====
-- What a receiver reads from an attribute that the sender added before `encode`.
use stice.Base.{
  ℕ, ◌^◌, ◌<◌, ◌≡◌, ◌≢◌, refl, ap, sym, ◌∙◌, arith, Bool, true, Option, none, some, List, [], ◌∷◌,
  ◌++◌, length, All, ◌==◌, Bool-cases, Option-cases, inl, inr,
}
use stice.Stun.Message.{
  Attribute, Credentials, Message, username_type, realm_type, nonce_type, indication, find, find_in,
  encode, decode,
}
use stice.Stun.Message.Packet.{
  IsWire, tlvs, text_attribute, credential_attributes, sent_attributes, body_attributes,
  authenticated_attributes, software_attribute,
}
use stice.Stun.Message.Decode.{IsSendable}
use stice.Stun.Message.RoundTrip.{IsText?, AreTexts, decode-encode}
use stice.Stun.Attributes.{read_xor_address}
use stice.Stun.Attributes.Lookup.{find_in-append, find_in-append_found}

-- A type that the codec does not put in front of the caller's attributes.
pub record IsFree (type : ℕ) : Type 0 where
  pub not_username : type ≢ username_type
  pub not_realm : type ≢ realm_type
  pub not_nonce : type ≢ nonce_type

not_in_text :
    (type other : ℕ) (text : List ℕ)
    → type ≢ other
    → find_in (text_attribute other text) type ≡ none
unfolding find_in
not_in_text type other [] h = refl
not_in_text type other (x ∷ xs) h = ground arith

not_in_credentials :
    (type cls : ℕ) (password : Option (List ℕ)) (creds : Option Credentials)
    → IsFree type
    → find_in (credential_attributes cls password creds) type ≡ none
unfolding find_in
not_in_credentials type cls none creds f = refl
not_in_credentials type cls (some p) none f = refl
not_in_credentials type cls (some p) (some c) f = elim (Bool-cases (cls == indication)) [
  | inl same ↦ rw same refl
  | inr other ↦ rw other (
      find_in-append (text_attribute username_type c.username) _ type
        (not_in_text type username_type c.username f.not_username)
      ∙ find_in-append (text_attribute realm_type c.realm) _ type
          (not_in_text type realm_type c.realm f.not_realm)
      ∙ not_in_text type nonce_type c.nonce f.not_nonce)
]

module _ (m : Message) (password : Option (List ℕ)) (creds : Option Credentials)
    (software : Option (List ℕ)) (w : All IsWire m.attributes) (t : AreTexts creds)
    (u : IsText? software) (s : IsSendable m)
    (fits : length (tlvs (sent_attributes m password creds software)) < 2 ^ 16) where
  found_in_sent :
      (type : ℕ) (a : Attribute)
      → IsFree type
      → find m type ≡ some a
      → find_in (sent_attributes m password creds software) type ≡ some a
  unfolding find
  found_in_sent type a f h =
      find_in-append_found (authenticated_attributes m password creds software) _ type a (
        find_in-append_found (body_attributes m password creds software) _ type a (
          find_in-append (credential_attributes m.cls password creds) _ type
            (not_in_credentials type m.cls password creds f)
          ∙ find_in-append_found m.attributes (software_attribute software) type a h))

  pub decoded :
      (old r : Message) (post : List ℕ)
      → decode old ((encode m password creds software).raw ++ post) ≡ some (true, r)
      → r ≡ record {
        method = m.method;
        cls = m.cls;
        transaction_id = m.transaction_id;
        attributes = sent_attributes m password creds software;
        raw = (encode m password creds software).raw ++ post;
      }
  decoded old r post e =
      ap (λ (x : Bool × Message). x.1)
        (same (sym (decode-encode m password creds software w t u s fits old post) ∙ e))
    where
      same : {x y : Bool × Message} → some x ≡ some y → y ≡ x
      same e = cc

  -- An attribute that the caller added, of any type but the three credential types, is what the
  -- receiver finds under that type after `decode`, with any bytes behind the message.
  pub find-decode :
      (type : ℕ) (a : Attribute)
      → IsFree type
      → find m type ≡ some a
      → (old r : Message) (post : List ℕ)
      → decode old ((encode m password creds software).raw ++ post) ≡ some (true, r)
      → find r type ≡ some a
  unfolding find
  find-decode type a f h old r post e = rw (decoded old r post e) (found_in_sent type a f h)

  -- The reader of an XOR address gives the receiver, under the transaction id that it decoded, what
  -- the same reader gives the sender under its own.
  pub read_xor_address-decode :
      (type : ℕ)
      → IsFree type
      → find m type ≢ none
      → (old r : Message) (post : List ℕ)
      → decode old ((encode m password creds software).raw ++ post) ≡ some (true, r)
      → read_xor_address r type r.transaction_id ≡ read_xor_address m type m.transaction_id
  unfolding read_xor_address
  read_xor_address-decode type f present old r post e = elim (Option-cases (find m type)) [
    | inl missing ↦ absurd (present missing)
    | inr (a, h) ↦
        ap (λ (tid : List ℕ). read_xor_address r type tid)
          (ap (λ (x : Message). x.transaction_id) (decoded old r post e))
        ∙ rw (find-decode type a f h old r post e, h, read_xor_address) refl
  ]
