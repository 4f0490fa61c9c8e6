-- ===== src/Stun/Message.antt =====
-- include/stice/stun/message.hpp and src/stun/message.cpp: the message and its wire form.
-- A text argument is an optional list of bytes (`none` for a null pointer), without its final NUL.
pub mod Packet
pub mod Encode
pub mod Decode
pub mod AnyInput
pub mod RoundTrip
pub mod Checks
use Prim.Native.Nat.{bit_and, bit_xor}
use stice.Base.{
  ℕ, zero, suc, ◌+◌, ◌-◌, ◌*◌, ◌/◌, ◌%◌, ◌^◌, Bool, true, false, not, ◌&&◌, Option, none, some,
  List, [], ◌∷◌, ◌++◌, length, is_empty, take, drop, replicate, ltb, leb, ◌==◌, if◌then◌else◌,
  list_eq,
}
use stice.Bytes.{
  padded_size, byte_at, read_u16_be, read_u32_be, write_u16_be, write_u32_be, overwrite,
}
use stice.Crypto.Crc32.{crc32}
use stice.Crypto.Hmac.{hmac_sha1}
use stice.Stun.TypeField.{encode_type, decode_type}
use mathlib.Core.List.{foldl}

abbrev pub magic_cookie : ℕ
magic_cookie = 0x2112a442

abbrev pub fingerprint_xor : ℕ
fingerprint_xor = 0x5354554e

-- `Class::Indication`.
abbrev pub indication : ℕ
indication = 1

-- The attribute types that this file names.
abbrev pub username_type : ℕ
username_type = 0x0006

abbrev pub integrity_type : ℕ
integrity_type = 0x0008

abbrev pub realm_type : ℕ
realm_type = 0x0014

abbrev pub nonce_type : ℕ
nonce_type = 0x0015

abbrev pub software_type : ℕ
software_type = 0x8022

abbrev pub fingerprint_type : ℕ
fingerprint_type = 0x8028

pub record Attribute : Type 0 where
  pub type : ℕ
  pub value : List ℕ

pub record Credentials : Type 0 where
  pub username : List ℕ
  pub realm : List ℕ
  pub nonce : List ℕ
  pub key : List ℕ

pub record Message : Type 0 where
  pub method : ℕ
  pub cls : ℕ
  pub transaction_id : List ℕ
  pub attributes : List Attribute
  pub raw : List ℕ

unfoldable pub add_attribute : Message → ℕ → List ℕ → Message
add_attribute m type value = record m {
  attributes = m.attributes ++ (record { type = type; value = value } ∷ []);
}

-- The first attribute of the type.
unfoldable pub find_in : List Attribute → ℕ → Option Attribute
find_in [] type = none
find_in (a ∷ rest) type = if a.type == type then some a else find_in rest type

unfoldable pub find : Message → ℕ → Option Attribute
unfolding find_in
find m type = find_in m.attributes type

-- `raw.resize(MessageHeaderSize)` and the writes into it; the length is a placeholder.
unfoldable pub header : Message → List ℕ
header m =
    write_u16_be (encode_type m.method m.cls)
    ++ (write_u16_be 0 ++ (write_u32_be magic_cookie ++ m.transaction_id))

-- `appendAttr`: type, length, value, and zeros up to the padded size.
unfoldable pub append_attr : List ℕ → ℕ → List ℕ → List ℕ
append_attr raw type value =
    raw
    ++ (write_u16_be type
        ++ (write_u16_be (length value)
            ++ (value ++ replicate (padded_size (length value) - length value) 0)))

unfoldable pub append_text : List ℕ → ℕ → List ℕ → List ℕ
append_text raw type text = if is_empty text then raw else append_attr raw type text

-- Step 1: USERNAME, REALM and NONCE of a message that is not an indication.
unfoldable pub append_credentials : List ℕ → ℕ → Option (List ℕ) → Option Credentials → List ℕ
append_credentials raw cls none creds = raw
append_credentials raw cls (some password) none = raw
append_credentials raw cls (some password) (some c) =
    if cls == indication
    then raw
    else append_text (append_text (append_text raw username_type c.username) realm_type c.realm)
        nonce_type c.nonce

-- Step 2: the caller's attributes.
unfoldable pub append_attributes : List ℕ → List Attribute → List ℕ
append_attributes raw attributes =
    foldl (λ bytes a. append_attr bytes a.type a.value) raw attributes

-- Step 3: SOFTWARE.
unfoldable pub append_software : List ℕ → Option (List ℕ) → List ℕ
append_software raw none = raw
append_software raw (some software) = append_text raw software_type software

-- The key of the HMAC: the long-term key if there is one, else the password.
unfoldable pub integrity_key : List ℕ → Option Credentials → List ℕ
integrity_key password none = password
integrity_key password (some c) = if is_empty c.key then password else c.key

-- The length field, set to n: `writeU16Be(raw.data() + 2, static_cast<uint16_t>(n))`.
unfoldable pub patch_length : List ℕ → ℕ → List ℕ
unfolding overwrite
patch_length raw n = overwrite raw 2 (write_u16_be (n % 2 ^ 16))

-- Step 4: the length is patched as if MESSAGE-INTEGRITY stood there, and the HMAC of all before it
-- is appended.
unfoldable pub append_integrity : List ℕ → ℕ → Option (List ℕ) → Option Credentials → List ℕ
append_integrity raw cls none creds = raw
append_integrity raw cls (some password) creds =
    let patched = patch_length raw (length raw - 20 + 4 + 20) in
    if cls == indication
    then raw
    else patched
      ++ (write_u16_be integrity_type
          ++ (write_u16_be 20 ++ hmac_sha1 (integrity_key password creds) patched))

-- Step 5: the same for FINGERPRINT, with the CRC.
unfoldable pub append_fingerprint : List ℕ → List ℕ
append_fingerprint raw =
    let patched = patch_length raw (length raw - 20 + 4 + 4) in
    patched
    ++ (write_u16_be fingerprint_type
        ++ (write_u16_be 4 ++ write_u32_be (bit_xor (crc32 patched) fingerprint_xor)))

-- `encode` always returns true; the result is the message with its `raw`.
unfoldable pub encode : Message → Option (List ℕ) → Option Credentials → Option (List ℕ) → Message
encode m password creds software =
    let named = append_credentials (header m) m.cls password creds in
    let body = append_software (append_attributes named m.attributes) software in
    let sealed = append_fingerprint (append_integrity body m.cls password creds) in
    record m { raw = patch_length sealed (length sealed - 20) }

-- The strict demultiplexer.
unfoldable pub is_message : List ℕ → Bool
is_message bytes =
    if ltb (length bytes) 20
    then false
    else if not (bit_and (byte_at bytes 0) 0xc0 == 0)
    then false
    else if not (read_u32_be (drop 4 bytes) == magic_cookie)
    then false
    else if not (bit_and (read_u16_be (drop 2 bytes)) 0x03 == 0)
    then false
    else not (ltb (length bytes) (20 + read_u16_be (drop 2 bytes)))

-- The loop over the attributes, from `offset` to `end`; `none` means that the fuel ran out.
unfoldable pub decode_loop : ℕ → List ℕ → ℕ → ℕ → List Attribute → Option (Bool × List Attribute)
decode_loop zero bytes offset end attributes =
    if leb (offset + 4) end then none else some (true, attributes)
decode_loop (suc fuel) bytes offset end attributes =
    let vlen = read_u16_be (drop (offset + 2) bytes) in
    let a : Attribute = record {
      type = read_u16_be (drop offset bytes);
      value = take vlen (drop (offset + 4) bytes);
    } in
    let rest =
      decode_loop fuel bytes (offset + 4 + padded_size vlen) end (attributes ++ (a ∷ [])) in
    if leb (offset + 4) end
    then (if ltb end (offset + 4 + vlen) then some (false, attributes) else rest)
    else some (true, attributes)

unfoldable pub decode_body : Message → List ℕ → Option (Bool × Message)
decode_body m bytes =
    let end = 20 + read_u16_be (drop 2 bytes) in
    if ltb (length bytes) end
    then some (false, m)
    else elim (decode_loop (length bytes) bytes 20 end []) [
      | none ↦ none
      | some (result, attributes) ↦ some (result, record m { attributes = attributes })
    ]

-- `decode` on a message object: the result and the object after the call.
unfoldable pub decode : Message → List ℕ → Option (Bool × Message)
unfolding decode_body
decode m bytes =
    let fields = decode_type (read_u16_be bytes) in
    let started : Message = record {
      method = fields.0;
      cls = fields.1;
      transaction_id = take 12 (drop 8 bytes);
      attributes = [];
      raw = bytes;
    } in
    if ltb (length bytes) 20
    then some (false, m)
    else if not (is_message bytes)
    then some (false, m)
    else decode_body started bytes

-- The loop of `findIntegrityOffset`: the offset of the first MESSAGE-INTEGRITY header.
unfoldable pub integrity_loop : ℕ → List ℕ → ℕ → ℕ → Option ℕ
integrity_loop zero raw offset end = none
integrity_loop (suc fuel) raw offset end =
    let vlen = read_u16_be (drop (offset + 2) raw) in
    let rest = integrity_loop fuel raw (offset + 4 + padded_size vlen) end in
    if leb (offset + 4) end
    then (if read_u16_be (drop offset raw) == integrity_type then some offset else rest)
    else none

-- The attribute's start; its value begins 4 bytes later, and the code's 0 is `none` here.
unfoldable pub find_integrity_offset : Message → Option ℕ
find_integrity_offset m = integrity_loop (length m.raw) m.raw 20 (20 + read_u16_be (drop 2 m.raw))

-- The HMAC of all before `start`, against the value of the attribute there.
unfoldable pub matches_integrity : Message → List ℕ → ℕ → Bool
matches_integrity m key start =
    if ltb (length m.raw) (start + 4 + 20)
    then false
    else list_eq (hmac_sha1 key (patch_length (take start m.raw) (start - 20 + 4 + 20)))
        (take 20 (drop (start + 4) m.raw))

unfoldable pub check_integrity : Message → List ℕ → Bool → Bool
check_integrity m key allow_missing = elim (find_integrity_offset m) [
  | none ↦ allow_missing
  | some start ↦ matches_integrity m key start
]

-- The loop of `checkFingerprint`: the offset of the last FINGERPRINT header, 0 if there is none.
unfoldable pub fingerprint_loop : ℕ → List ℕ → ℕ → ℕ → ℕ → ℕ
fingerprint_loop zero raw offset end start = start
fingerprint_loop (suc fuel) raw offset end start =
    let vlen = read_u16_be (drop (offset + 2) raw) in
    let found = if read_u16_be (drop offset raw) == fingerprint_type then offset else start in
    let rest = fingerprint_loop fuel raw (offset + 4 + padded_size vlen) end found in
    if leb (offset + 4) end then rest else start

unfoldable pub check_fingerprint : Message → Bool → Bool
check_fingerprint m allow_missing =
    let start = fingerprint_loop (length m.raw) m.raw 20 (20 + read_u16_be (drop 2 m.raw)) 0 in
    if start == 0
    then allow_missing
    else if ltb (length m.raw) (start + 4 + 4)
    then false
    else crc32 (patch_length (take start m.raw) (start - 20 + 4 + 4))
      == bit_xor (read_u32_be (drop (start + 4) m.raw)) fingerprint_xor
