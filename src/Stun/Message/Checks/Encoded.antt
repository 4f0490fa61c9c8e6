-- ===== src/Stun/Message/Checks/Encoded.antt =====
-- The receiver's checks accept what `encode` wrote.
use stice.Base.{
  ==_ne, ℕ, ◌+◌, ◌^◌, ◌<◌, ◌≡◌, ◌≢◌, refl, ap, sym, ◌∙◌, arith, Bool, true, Option, none, some,
  List, [], ◌∷◌, ◌++◌, append_assoc, append-nil, length, length-append, All, All-append, ◌==◌,
  Bool-cases, inl, inr,
}
use stice.Bytes.{IsByte}
use stice.Stun.Message.{
  Attribute, Credentials, Message, integrity_type, indication, check_fingerprint, check_integrity,
  integrity_key, encode,
}
use stice.Stun.Message.Packet.{
  IsWire, tlv, tlvs, packet, packet-append, tlvs-append, fingerprint_attribute, mac_attribute,
  body_attributes, authenticated_attributes, sent_attributes, credential_attributes,
  software_attribute, text_attribute,
}
use stice.Stun.Message.Encode.{encode-packet}
use stice.Stun.Message.Decode.{IsSendable}
use stice.Stun.Message.RoundTrip.{IsText?, AreTexts, authenticated_attributes-IsWire}
use stice.Stun.Message.Checks.Accept.{packet_with, check_fingerprint-packet, check_integrity-packet}
use stice.Stun.Message.RoundTrip.{fingerprint-IsWire, mac-IsWire, body_attributes-IsWire}
use native.Mathlib.Nat.{mod-eq_of_lt}

no_integrity_text :
    (type : ℕ) (text : List ℕ)
    → type ≢ integrity_type
    → All (λ (a : Attribute). a.type ≢ integrity_type) (text_attribute type text)
no_integrity_text type [] ne = tt
no_integrity_text type (x ∷ xs) ne = (ne, tt)

packet_split :
    (m : Message) (n : ℕ) (xs : List Attribute) (a : Attribute) (post : List ℕ)
    → packet m n (xs ++ (a ∷ [])) ++ post ≡ packet_with m n xs a post
packet_split m n xs a post =
    ap (λ (t : List ℕ). t ++ post) (sym (packet-append m n xs (a ∷ [])))
    ∙ append_assoc (packet m n xs) (tlvs (a ∷ [])) post
    ∙ ap (λ (t : List ℕ). packet m n xs ++ (t ++ post)) (append-nil (tlv a))

size_split :
    (xs : List Attribute) (a : Attribute)
    → length (tlvs (xs ++ (a ∷ []))) ≡ length (tlvs xs) + length (tlv a)
size_split xs a = omega (
  arith,
  ap length (tlvs-append xs (a ∷ [])),
  length-append (tlvs xs) (tlvs (a ∷ [])),
  ap length (append-nil (tlv a)),
)

-- The codec adds no integrity of its own before step 4.
pub no_integrity_body :
    (m : Message) (password : Option (List ℕ)) (creds : Option Credentials)
    (software : Option (List ℕ))
    → All (λ (a : Attribute). a.type ≢ integrity_type) m.attributes
    → All (λ (a : Attribute). a.type ≢ integrity_type) (body_attributes m password creds software)
no_integrity_body m password creds software ne =
    All-append _ (credential_attributes m.cls password creds) _ (named password creds)
      (All-append _ m.attributes (software_attribute software) ne (soft software))
  where
    named :
        (password : Option (List ℕ)) (creds : Option Credentials)
        → All
            (λ (a : Attribute). a.type ≢ integrity_type)
            (credential_attributes m.cls password creds)
    named none creds = tt
    named (some p) none = tt
    named (some p) (some c) = elim (Bool-cases (m.cls == indication)) [
      | inl same ↦ rw same tt
      | inr other ↦ rw other (
          All-append _ (text_attribute 0x0006 c.username) _
            (no_integrity_text 0x0006 c.username (omega arith))
            (All-append _ (text_attribute 0x0014 c.realm) (text_attribute 0x0015 c.nonce)
              (no_integrity_text 0x0014 c.realm (omega arith))
              (no_integrity_text 0x0015 c.nonce (omega arith))))
    ]

    soft :
        (software : Option (List ℕ))
        → All (λ (a : Attribute). a.type ≢ integrity_type) (software_attribute software)
    soft none = tt
    soft (some t) = no_integrity_text 0x8022 t (omega arith)

module _ (m : Message) (password : Option (List ℕ)) (creds : Option Credentials)
    (software : Option (List ℕ)) (s : IsSendable m) (b : All IsByte m.transaction_id)
    (w : All IsWire m.attributes) (t : AreTexts creds) (u : IsText? software)
    (fits : length (tlvs (sent_attributes m password creds software)) < 2 ^ 16) where
  abbrev before_fp : List Attribute
  before_fp = authenticated_attributes m password creds software

  abbrev sent_size : ℕ
  sent_size = length (tlvs (sent_attributes m password creds software))

  sent_packet :
      (encode m password creds software).raw
      ≡ packet m sent_size (sent_attributes m password creds software)
  sent_packet =
      encode-packet m s.id_size password creds software
      ∙ ap (λ (n : ℕ). packet m n (sent_attributes m password creds software)) (mod-eq_of_lt fits)

  -- The FINGERPRINT that `encode` puts at the end is the one that the receiver finds and accepts,
  -- with any bytes behind the message, and also where the caller added attributes of that type.
  pub check_fingerprint-encode :
      (r : Message) (post : List ℕ) (allow : Bool)
      → r.raw ≡ (encode m password creds software).raw ++ post
      → check_fingerprint r allow ≡ true
  check_fingerprint-encode r post allow raw =
      check_fingerprint-packet m before_fp post s
        (authenticated_attributes-IsWire m password creds software w t u) b sent_size fits
        (fingerprint-IsWire m before_fp) (size_split before_fp (fingerprint_attribute m before_fp))
        r allow
        (raw
          ∙ ap (λ (bytes : List ℕ). bytes ++ post) sent_packet
          ∙ packet_split m sent_size before_fp (fingerprint_attribute m before_fp) post)

  -- A message that is not an indication, encoded with a password and with no MESSAGE-INTEGRITY among
  -- the caller's attributes, passes `checkIntegrity` under the key that the sender used, with any
  -- bytes behind the message.
  pub check_integrity-encode :
      (p : List ℕ)
      → password ≡ some p
      → m.cls ≢ indication
      → All (λ (a : Attribute). a.type ≢ integrity_type) m.attributes
      → (r : Message) (post : List ℕ) (allow : Bool)
      → r.raw ≡ (encode m password creds software).raw ++ post
      → check_integrity r (integrity_key p creds) allow ≡ true
  check_integrity-encode p e request ne r post allow raw =
      check_integrity-packet m body (tlv fp ++ post) s
        (body_attributes-IsWire m password creds software w t u) p creds sent_size fits
        (mac-IsWire m p creds body) (no_integrity_body m password creds software ne)
        (omega (arith, size_split before_fp fp, sealed_size)) r allow
        (raw
          ∙ ap (λ (bytes : List ℕ). bytes ++ post) sent_packet
          ∙ packet_split m sent_size before_fp fp post
          ∙ ap (λ (xs : List Attribute). packet m sent_size xs ++ (tlv fp ++ post)) sealed
          ∙ packet_split m sent_size body mac (tlv fp ++ post))
    where
      body : List Attribute
      body = body_attributes m password creds software

      fp : Attribute
      fp = fingerprint_attribute m before_fp

      mac : Attribute
      mac = mac_attribute m p creds body

      sealed : before_fp ≡ body ++ (mac ∷ [])
      sealed = rw (e, ==_ne m.cls indication request) refl

      sealed_size : length (tlvs before_fp) ≡ length (tlvs body) + length (tlv mac)
      sealed_size = ap (λ (xs : List Attribute). length (tlvs xs)) sealed ∙ size_split body mac
