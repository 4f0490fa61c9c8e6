-- ===== src/Stun/Message/Packet.antt =====
-- The wire format of RFC 8489 as a specification: a header and a sequence of padded TLVs. It names
-- neither offsets nor buffers, which is how src/stun/message.cpp builds it.
use Prim.Native.Nat.{bit_xor}
use stice.Base.{
  ℕ, zero, suc, ◌+◌, ◌-◌, ◌*◌, ◌%◌, ◌^◌, ◌≤◌, ◌<◌, ◌≡◌, refl, ap, sym, ◌∙◌, arith, Option, none,
  some, List, [], ◌∷◌, ◌++◌, append_assoc, length, is_empty, length-append, length-replicate,
  replicate, All, All-append, ◌==◌, if◌then◌else◌,
}
use stice.Bytes.{IsByte, padded_size, write_u16_be, write_u32_be, overwrite}
use stice.Bytes.Laws.{
  padded_size-least, length-write_u16_be, write_u16_be-bytes, write_u32_be-bytes,
}
use stice.Crypto.Crc32.{crc32}
use stice.Crypto.Hmac.{hmac_sha1}
use stice.Stun.TypeField.{encode_type}
use stice.Stun.Message.{
  Attribute, Credentials, Message, magic_cookie, fingerprint_xor, indication, username_type,
  realm_type, nonce_type, software_type, integrity_type, fingerprint_type, integrity_key,
}

-- An attribute that the wire format can carry.
pub record IsWire (a : Attribute) : Type 0 where
  pub type_fits : a.type < 2 ^ 16
  pub value_fits : length a.value < 2 ^ 16
  pub bytes : All IsByte a.value

abbrev pub padding : List ℕ → List ℕ
padding value = replicate (padded_size (length value) - length value) 0

abbrev pub tlv : Attribute → List ℕ
tlv a = write_u16_be a.type ++ (write_u16_be (length a.value) ++ (a.value ++ padding a.value))

abbrev pub tlvs : List Attribute → List ℕ
tlvs [] = []
tlvs (a ∷ rest) = tlv a ++ tlvs rest

-- A message whose length field says n.
abbrev pub packet : Message → ℕ → List Attribute → List ℕ
packet m n attributes =
    write_u16_be (encode_type m.method m.cls)
    ++ (write_u16_be n ++ (write_u32_be magic_cookie ++ (m.transaction_id ++ tlvs attributes)))

abbrev pub text_attribute : ℕ → List ℕ → List Attribute
text_attribute type text = if is_empty text then [] else (record { type = type; value = text } ∷ [])

abbrev pub credential_attributes : ℕ → Option (List ℕ) → Option Credentials → List Attribute
credential_attributes cls none creds = []
credential_attributes cls (some password) none = []
credential_attributes cls (some password) (some c) =
    if cls == indication
    then []
    else (text_attribute username_type c.username
        ++ (text_attribute realm_type c.realm ++ text_attribute nonce_type c.nonce))

abbrev pub software_attribute : Option (List ℕ) → List Attribute
software_attribute none = []
software_attribute (some software) = text_attribute software_type software

-- What a message carries before its integrity and its fingerprint.
abbrev pub body_attributes :
    Message → Option (List ℕ) → Option Credentials → Option (List ℕ) → List Attribute
body_attributes m password creds software =
    credential_attributes m.cls password creds ++ (m.attributes ++ software_attribute software)

-- MESSAGE-INTEGRITY: the HMAC of the message up to it, with a length field that counts it.
abbrev pub mac_attribute : Message → List ℕ → Option Credentials → List Attribute → Attribute
mac_attribute m password creds body = record {
  type = integrity_type;
  value =
      hmac_sha1 (integrity_key password creds) (packet m ((length (tlvs body) + 24) % 2 ^ 16) body);
}

abbrev pub integrity_attribute :
    Message → Option (List ℕ) → Option Credentials → List Attribute → List Attribute
integrity_attribute m none creds body = []
integrity_attribute m (some password) creds body =
    if m.cls == indication then [] else (mac_attribute m password creds body ∷ [])

-- FINGERPRINT: the CRC of the message up to it, with a length field that counts it.
abbrev pub fingerprint_attribute : Message → List Attribute → Attribute
fingerprint_attribute m before = record {
  type = fingerprint_type;
  value =
      write_u32_be
        (bit_xor (crc32 (packet m ((length (tlvs before) + 8) % 2 ^ 16) before)) fingerprint_xor);
}

-- All attributes that a message is sent with, in order.
abbrev pub authenticated_attributes :
    Message → Option (List ℕ) → Option Credentials → Option (List ℕ) → List Attribute
authenticated_attributes m password creds software =
    body_attributes m password creds software
    ++ integrity_attribute m password creds (body_attributes m password creds software)

abbrev pub sent_attributes :
    Message → Option (List ℕ) → Option Credentials → Option (List ℕ) → List Attribute
sent_attributes m password creds software =
    authenticated_attributes m password creds software
    ++ (fingerprint_attribute m (authenticated_attributes m password creds software) ∷ [])

pub tlvs-append : (xs ys : List Attribute) → tlvs (xs ++ ys) ≡ tlvs xs ++ tlvs ys
tlvs-append [] ys = refl
tlvs-append (x ∷ xs) ys =
    ap (◌++◌ (tlv x)) (tlvs-append xs ys) ∙ sym (append_assoc (tlv x) (tlvs xs) (tlvs ys))

pub length-tlv :
    (a : Attribute) → length a.value < 2 ^ 16 → length (tlv a) ≡ 4 + padded_size (length a.value)
length-tlv a h = omega (
  arith,
  length-append (write_u16_be a.type)
      (write_u16_be (length a.value) ++ (a.value ++ padding a.value)),
  length-append (write_u16_be (length a.value)) (a.value ++ padding a.value),
  length-append a.value (padding a.value),
  length-write_u16_be a.type,
  length-write_u16_be (length a.value),
  length-replicate {A = ℕ} (padded_size (length a.value) - length a.value) 0,
  padded_size-least (length a.value) (omega arith),
)

pub packet-append :
    (m : Message) (n : ℕ) (xs ys : List Attribute)
    → packet m n xs ++ tlvs ys ≡ packet m n (xs ++ ys)
unfolding write_u16_be write_u32_be
packet-append m n xs ys =
    ap
      (λ (t : List ℕ).
        write_u16_be (encode_type m.method m.cls)
        ++ (write_u16_be n ++ (write_u32_be magic_cookie ++ t)))
      (append_assoc m.transaction_id (tlvs xs) (tlvs ys)
        ∙ ap (◌++◌ m.transaction_id) (sym (tlvs-append xs ys)))

pub length-packet :
    (m : Message) (n : ℕ) (xs : List Attribute)
    → length m.transaction_id ≡ 12
    → length (packet m n xs) ≡ 20 + length (tlvs xs)
unfolding write_u16_be write_u32_be
length-packet m n xs h = omega (arith, length-append m.transaction_id (tlvs xs))

pub overwrite-packet :
    (m : Message) (n k : ℕ) (xs : List Attribute)
    → overwrite (packet m n xs) 2 (write_u16_be k) ≡ packet m k xs
unfolding overwrite write_u16_be write_u32_be
overwrite-packet m n k xs = refl

tlv-bytes : (a : Attribute) → IsWire a → All IsByte (tlv a)
tlv-bytes a w = All-append IsByte (write_u16_be a.type) _ (write_u16_be-bytes a.type) (
    All-append IsByte (write_u16_be (length a.value)) _ (write_u16_be-bytes (length a.value)) (
      All-append IsByte a.value _ w.bytes
        (zeros-bytes (padded_size (length a.value) - length a.value))))
  where
    zeros-bytes : (n : ℕ) → All IsByte (replicate n 0)
    zeros-bytes zero = tt
    zeros-bytes (suc n) = (omega arith, zeros-bytes n)

tlvs-bytes : (xs : List Attribute) → All IsWire xs → All IsByte (tlvs xs)
tlvs-bytes [] w = tt
tlvs-bytes (a ∷ xs) w = All-append IsByte (tlv a) (tlvs xs) (tlv-bytes a w.0) (tlvs-bytes xs w.1)

pub packet-bytes :
    (m : Message) (n : ℕ) (xs : List Attribute)
    → All IsByte m.transaction_id
    → All IsWire xs
    → All IsByte (packet m n xs)
packet-bytes m n xs t w =
    All-append IsByte (write_u16_be (encode_type m.method m.cls)) _ (write_u16_be-bytes _) (
      All-append IsByte (write_u16_be n) _ (write_u16_be-bytes n) (
        All-append IsByte (write_u32_be magic_cookie) _ (write_u32_be-bytes magic_cookie)
          (All-append IsByte m.transaction_id _ t (tlvs-bytes xs w))))

-- Attributes with short values.
pub tlvs_small :
    (xs : List Attribute)
    → All (λ (a : Attribute). length a.value ≤ 64) xs
    → length (tlvs xs) ≤ 72 * length xs
tlvs_small [] h = omega arith
tlvs_small (a ∷ xs) h = omega (
  arith,
  tlvs_small xs h.1,
  length-append (tlv a) (tlvs xs),
  length-tlv a,
  padded_size-least (length a.value),
  h.0,
)
