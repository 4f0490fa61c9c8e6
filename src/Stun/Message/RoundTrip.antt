-- ===== src/Stun/Message/RoundTrip.antt =====
-- What one side encodes, the other side decodes.
use stice.Base.{
  ℕ, ◌^◌, ◌<◌, ◌≡◌, arith, true, Option, none, some, List, [], ◌∷◌, ◌++◌, length, All, All-append,
  Bool-cases, inl, inr, ◌==◌,
}
use stice.Bytes.{IsByte}
use stice.Bytes.Laws.{write_u32_be-bytes, length-write_u32_be}
use stice.Crypto.Hmac.Laws.{length-hmac_sha1, hmac_sha1-bytes}
use stice.Stun.Message.{Attribute, Credentials, Message, indication, encode, decode}
use stice.Stun.Message.Packet.{
  IsWire, tlvs, text_attribute, credential_attributes, software_attribute, body_attributes,
  integrity_attribute, mac_attribute, fingerprint_attribute, authenticated_attributes,
  sent_attributes,
}
use stice.Stun.Message.Encode.{encode-packet}
use stice.Stun.Message.Decode.{IsSendable, decode-packet}
use native.Mathlib.Nat.{mod-eq_of_lt}

-- A text of bytes that the 16-bit length of an attribute can count.
abbrev pub IsText : List ℕ → Type 0
IsText t = (length t < 2 ^ 16) × All IsByte t

abbrev pub IsText? : Option (List ℕ) → Type 0
IsText? none = Unit {0}
IsText? (some t) = IsText t

abbrev pub AreTexts : Option Credentials → Type 0
AreTexts none = Unit {0}
AreTexts (some c) = IsText c.username × IsText c.realm × IsText c.nonce

text_attribute-IsWire :
    (type : ℕ) (text : List ℕ) → type < 2 ^ 16 → IsText text → All IsWire (text_attribute type text)
text_attribute-IsWire type [] h t = tt
text_attribute-IsWire type (x ∷ xs) h t =
    (record { type_fits = h; value_fits = t.0; bytes = t.1 }, tt)

credential_attributes-IsWire :
    (cls : ℕ) (password : Option (List ℕ)) (creds : Option Credentials)
    → AreTexts creds
    → All IsWire (credential_attributes cls password creds)
credential_attributes-IsWire cls none creds t = tt
credential_attributes-IsWire cls (some p) none t = tt
credential_attributes-IsWire cls (some p) (some c) t = elim (Bool-cases (cls == indication)) [
  | inl same ↦ rw same tt
  | inr other ↦ rw other (
      All-append IsWire (text_attribute 0x0006 c.username) _
        (text_attribute-IsWire 0x0006 c.username (omega arith) t.0)
        (All-append IsWire (text_attribute 0x0014 c.realm) (text_attribute 0x0015 c.nonce)
          (text_attribute-IsWire 0x0014 c.realm (omega arith) t.1)
          (text_attribute-IsWire 0x0015 c.nonce (omega arith) t.2)))
]

software_attribute-IsWire :
    (software : Option (List ℕ)) → IsText? software → All IsWire (software_attribute software)
software_attribute-IsWire none t = tt
software_attribute-IsWire (some s) t = text_attribute-IsWire 0x8022 s (omega arith) t

pub mac-IsWire :
    (m : Message) (p : List ℕ) (creds : Option Credentials) (body : List Attribute)
    → IsWire (mac_attribute m p creds body)
mac-IsWire m p creds body = record {
  type_fits = omega arith;
  value_fits = omega (arith, length-hmac_sha1);
  bytes = hmac_sha1-bytes _ _;
}

pub fingerprint-IsWire :
    (m : Message) (before : List Attribute) → IsWire (fingerprint_attribute m before)
fingerprint-IsWire m before = record {
  type_fits = omega arith;
  value_fits = omega (arith, length-write_u32_be);
  bytes = write_u32_be-bytes _;
}

integrity_attribute-IsWire :
    (m : Message) (password : Option (List ℕ)) (creds : Option Credentials) (body : List Attribute)
    → All IsWire (integrity_attribute m password creds body)
integrity_attribute-IsWire m none creds body = tt
integrity_attribute-IsWire m (some p) creds body = elim (Bool-cases (m.cls == indication)) [
  | inl same ↦ rw same tt
  | inr other ↦ rw other (mac-IsWire m p creds body, tt)
]

module _ (m : Message) (password : Option (List ℕ)) (creds : Option Credentials)
    (software : Option (List ℕ)) (w : All IsWire m.attributes) (t : AreTexts creds)
    (u : IsText? software) where
  pub body_attributes-IsWire : All IsWire (body_attributes m password creds software)
  body_attributes-IsWire =
      All-append IsWire (credential_attributes m.cls password creds) _
        (credential_attributes-IsWire m.cls password creds t)
        (All-append IsWire m.attributes (software_attribute software) w
          (software_attribute-IsWire software u))

  pub authenticated_attributes-IsWire :
      All IsWire (authenticated_attributes m password creds software)
  authenticated_attributes-IsWire =
      All-append IsWire (body_attributes m password creds software) _ body_attributes-IsWire
        (integrity_attribute-IsWire m password creds _)

  pub sent_attributes-IsWire : All IsWire (sent_attributes m password creds software)
  sent_attributes-IsWire =
      All-append IsWire (authenticated_attributes m password creds software) _
        authenticated_attributes-IsWire
        (fingerprint-IsWire m (authenticated_attributes m password creds software), tt)

  -- Decoding what `encode` wrote, with any bytes behind it, gives back the method, the class and the
  -- transaction id, and the caller's attributes between the credentials and SOFTWARE, followed by
  -- the integrity and the fingerprint; whatever the message object held before.
  pub decode-encode :
      (s : IsSendable m)
      → length (tlvs (sent_attributes m password creds software)) < 2 ^ 16
      → (old : Message) (post : List ℕ)
      → let wire = (encode m password creds software).raw ++ post in
        decode old wire
        ≡ some (
          true,
          record {
            method = m.method;
            cls = m.cls;
            transaction_id = m.transaction_id;
            attributes = sent_attributes m password creds software;
            raw = wire;
          },
        )
  decode-encode s fits old post =
      rw (encode-packet m s.id_size password creds software, mod-eq_of_lt fits)
        (decode-packet m (sent_attributes m password creds software) post s sent_attributes-IsWire
          fits old)
