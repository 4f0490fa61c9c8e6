-- ===== src/Stun/Message/Encode.antt =====
-- `Message::encode` builds the packet of the specification.
use stice.Base.{
  ℕ, ◌+◌, ◌-◌, ◌%◌, ◌^◌, ◌≡◌, refl, ap, sym, ◌∙◌, arith, Option, none, some, List, [], ◌∷◌, ◌++◌,
  append_assoc, append-nil, length, Bool-cases, inl, inr, ◌==◌,
}
use stice.Bytes.{padded_size, write_u16_be, write_u32_be}
use stice.Bytes.Laws.{length-write_u32_be}
use stice.Crypto.Hmac.{hmac_sha1}
use stice.Stun.TypeField.{encode_type}
use stice.Crypto.Hmac.Laws.{length-hmac_sha1}
use stice.Stun.Message.{
  Attribute, Credentials, Message, magic_cookie, indication, header, append_attr, append_text,
  append_credentials, append_attributes, append_software, integrity_key, patch_length,
  append_integrity, append_fingerprint, encode, username_type, realm_type, nonce_type,
  software_type, integrity_type,
}
use stice.Stun.Message.Packet.{
  tlv, tlvs, packet, text_attribute, credential_attributes, software_attribute, body_attributes,
  integrity_attribute, mac_attribute, fingerprint_attribute, authenticated_attributes,
  sent_attributes, packet-append, length-packet, overwrite-packet,
}

-- An attribute whose value fills whole words has no padding.
aligned_tlv :
    (a : Attribute) (k : ℕ)
    → length a.value ≡ k
    → padded_size k - k ≡ 0
    → tlv a ≡ write_u16_be a.type ++ (write_u16_be k ++ a.value)
aligned_tlv a k e z =
    rw e (
      rw z (ap (λ (t : List ℕ). write_u16_be a.type ++ (write_u16_be k ++ t)) (append-nil a.value)))

header-packet : (m : Message) → header m ≡ packet m 0 []
unfolding header write_u16_be write_u32_be
header-packet m =
    ap
      (λ (t : List ℕ).
        write_u16_be (encode_type m.method m.cls)
        ++ (write_u16_be 0 ++ (write_u32_be magic_cookie ++ t)))
      (sym (append-nil m.transaction_id))

append_text-tlvs :
    (raw : List ℕ) (type : ℕ) (text : List ℕ)
    → append_text raw type text ≡ raw ++ tlvs (text_attribute type text)
unfolding append_text append_attr
append_text-tlvs raw type [] = sym (append-nil raw)
append_text-tlvs raw type (c ∷ cs) = ap (◌++◌ raw) (sym (append-nil _))

module _ (m : Message) (n : ℕ) where
  text_packet :
      (xs : List Attribute) (type : ℕ) (text : List ℕ)
      → append_text (packet m n xs) type text ≡ packet m n (xs ++ text_attribute type text)
  text_packet xs type text =
      append_text-tlvs (packet m n xs) type text ∙ packet-append m n xs (text_attribute type text)

  three :
      (c : Credentials)
      → append_text
          (append_text (append_text (packet m n []) username_type c.username) realm_type c.realm)
          nonce_type
          c.nonce
        ≡ packet m n (
            text_attribute username_type c.username
            ++ (text_attribute realm_type c.realm ++ text_attribute nonce_type c.nonce))
  three c = rw (text_packet [] username_type c.username) (
      rw (text_packet (text_attribute username_type c.username) realm_type c.realm) (
        text_packet _ nonce_type c.nonce
        ∙ ap (packet m n) (
            append_assoc (text_attribute username_type c.username)
              (text_attribute realm_type c.realm) (text_attribute nonce_type c.nonce))))

  credentials_packet :
      (cls : ℕ) (password : Option (List ℕ)) (creds : Option Credentials)
      → append_credentials (packet m n []) cls password creds
        ≡ packet m n (credential_attributes cls password creds)
  unfolding append_credentials
  credentials_packet cls none creds = refl
  credentials_packet cls (some p) none = refl
  credentials_packet cls (some p) (some c) = elim (Bool-cases (cls == indication)) [
    | inl yes' ↦ rw yes' refl
    | inr no' ↦ rw no' (three c)
  ]

  attr_packet :
      (xs : List Attribute) (y : Attribute)
      → append_attr (packet m n xs) y.type y.value ≡ packet m n (xs ++ (y ∷ []))
  unfolding append_attr
  attr_packet xs y =
      ap (◌++◌ (packet m n xs)) (sym (append-nil (tlv y))) ∙ packet-append m n xs (y ∷ [])

  attributes_packet :
      (xs ys : List Attribute) → append_attributes (packet m n xs) ys ≡ packet m n (xs ++ ys)
  unfolding append_attributes
  attributes_packet xs [] = ap (packet m n) (sym (append-nil xs))
  attributes_packet xs (y ∷ ys) =
      ap (λ (t : List ℕ). append_attributes t ys) (attr_packet xs y)
      ∙ attributes_packet (xs ++ (y ∷ [])) ys
      ∙ ap (packet m n) (append_assoc xs (y ∷ []) ys)

  software_packet :
      (xs : List Attribute) (software : Option (List ℕ))
      → append_software (packet m n xs) software ≡ packet m n (xs ++ software_attribute software)
  unfolding append_software
  software_packet xs none = ap (packet m n) (sym (append-nil xs))
  software_packet xs (some s) = text_packet xs software_type s

module _ (m : Message) (twelve : length m.transaction_id ≡ 12) where
  pub patch_packet :
      (n k : ℕ) (xs : List Attribute) → patch_length (packet m n xs) k ≡ packet m (k % 2 ^ 16) xs
  unfolding patch_length
  patch_packet n k xs = overwrite-packet m n (k % 2 ^ 16) xs

  -- The length field that the code writes before a TLV of `more` bytes.
  counted :
      (n more : ℕ) (xs : List Attribute)
      → patch_length (packet m n xs) (length (packet m n xs) - 20 + 4 + more)
        ≡ packet m ((length (tlvs xs) + (4 + more)) % 2 ^ 16) xs
  counted n more xs =
      patch_packet n _ xs
      ∙ ap (λ (k : ℕ). packet m (k % 2 ^ 16) xs) (omega (arith, length-packet m n xs twelve))

  sealed :
      (n : ℕ) (xs : List Attribute) (p : List ℕ) (creds : Option Credentials)
      → patch_length (packet m n xs) (length (packet m n xs) - 20 + 4 + 20)
          ++ (write_u16_be integrity_type
              ++ (write_u16_be 20
                  ++ hmac_sha1
                      (integrity_key p creds)
                      (patch_length (packet m n xs) (length (packet m n xs) - 20 + 4 + 20))))
        ≡ packet m ((length (tlvs xs) + 24) % 2 ^ 16) (xs ++ (mac_attribute m p creds xs ∷ []))
  sealed n xs p creds = rw (counted n 20 xs) (
      ap (◌++◌ (packet m ((length (tlvs xs) + 24) % 2 ^ 16) xs)) (
        sym (
          aligned_tlv (mac_attribute m p creds xs) 20 (length-hmac_sha1 _ _)
            (unfold padded_size in refl))
        ∙ sym (append-nil (tlv (mac_attribute m p creds xs))))
      ∙ packet-append m ((length (tlvs xs) + 24) % 2 ^ 16) xs (mac_attribute m p creds xs ∷ []))

  fingerprint_packet :
      (n : ℕ) (xs : List Attribute)
      → append_fingerprint (packet m n xs)
        ≡ packet m ((length (tlvs xs) + 8) % 2 ^ 16) (xs ++ (fingerprint_attribute m xs ∷ []))
  unfolding append_fingerprint
  fingerprint_packet n xs = rw (counted n 4 xs) (
      ap (◌++◌ (packet m ((length (tlvs xs) + 8) % 2 ^ 16) xs)) (
        sym (
          aligned_tlv (fingerprint_attribute m xs) 4 (length-write_u32_be _)
            (unfold padded_size in refl))
        ∙ sym (append-nil (tlv (fingerprint_attribute m xs))))
      ∙ packet-append m ((length (tlvs xs) + 8) % 2 ^ 16) xs (fingerprint_attribute m xs ∷ []))

  integrity_packet :
      (n : ℕ) (xs : List Attribute) (password : Option (List ℕ)) (creds : Option Credentials)
      → (k : ℕ) × (append_integrity (packet m n xs) m.cls password creds
          ≡ packet m k (xs ++ integrity_attribute m password creds xs))
  unfolding append_integrity
  integrity_packet n xs none creds = (n, ap (packet m n) (sym (append-nil xs)))
  integrity_packet n xs (some p) creds = elim (Bool-cases (m.cls == indication)) [
    | inl yes' ↦ (n, rw yes' (ap (packet m n) (sym (append-nil xs))))
    | inr no' ↦ ((length (tlvs xs) + 24) % 2 ^ 16, rw no' (sealed n xs p creds))
  ]

  module _ (password : Option (List ℕ)) (creds : Option Credentials)
      (software : Option (List ℕ)) where
    body_packet :
        append_software
          (append_attributes (append_credentials (header m) m.cls password creds) m.attributes)
          software
        ≡ packet m 0 (body_attributes m password creds software)
    body_packet = rw (header-packet m) (
        rw (credentials_packet m 0 m.cls password creds) (
          rw (attributes_packet m 0 (credential_attributes m.cls password creds) m.attributes) (
            software_packet m 0 _ software
            ∙ ap (packet m 0) (
                append_assoc (credential_attributes m.cls password creds) m.attributes
                  (software_attribute software)))))

    sealed_packet :
        append_fingerprint (
          append_integrity
            (append_software
              (append_attributes (append_credentials (header m) m.cls password creds) m.attributes)
              software)
            m.cls
            password
            creds)
        ≡ packet m
            ((length (tlvs (authenticated_attributes m password creds software)) + 8) % 2 ^ 16)
            (sent_attributes m password creds software)
    sealed_packet =
        let (k, e) =
          integrity_packet 0 (body_attributes m password creds software) password creds in
        ap append_fingerprint
          (ap (λ (t : List ℕ). append_integrity t m.cls password creds) body_packet ∙ e)
        ∙ fingerprint_packet k (authenticated_attributes m password creds software)

  -- `Message::encode` writes the header and the TLVs of the specification: the caller's attributes
  -- between the credentials and SOFTWARE, then the integrity and the fingerprint over all before
  -- each, and a length field that counts everything behind the header.
  pub encode-packet :
      (password : Option (List ℕ)) (creds : Option Credentials) (software : Option (List ℕ))
      → (encode m password creds software).raw
        ≡ packet m
            (length (tlvs (sent_attributes m password creds software)) % 2 ^ 16)
            (sent_attributes m password creds software)
  unfolding encode
  encode-packet password creds software =
      ap (λ (t : List ℕ). patch_length t (length t - 20)) (sealed_packet password creds software)
      ∙ patch_packet _ _ (sent_attributes m password creds software)
      ∙ ap (λ (k : ℕ). packet m (k % 2 ^ 16) (sent_attributes m password creds software))
          (omega (
            arith,
            length-packet m
                ((length (tlvs (authenticated_attributes m password creds software)) + 8) % 2 ^ 16)
                (sent_attributes m password creds software) twelve,
          ))
