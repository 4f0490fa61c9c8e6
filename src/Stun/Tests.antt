-- ===== src/Stun/Tests.antt =====
-- Runs of the codec's theorems on an authenticated Binding request.
use stice.Base.{
  drop, ℕ, ◌+◌, ◌%◌, ◌^◌, ◌≤◌, ◌<◌, ◌≡◌, ◌≢◌, refl, arith, true, false, none, some, List, [], ◌∷◌,
  ◌++◌, length, All,
}
use stice.Bytes.{padded_size, read_u16_be, read_u32_be}
use stice.Bytes.Laws.{length-write_u32_be}
use stice.Crypto.Hmac.Laws.{length-hmac_sha1}
use stice.Stun.TypeField.{decode_type}
use stice.Stun.Message.{
  Attribute, Credentials, Message, encode, decode, is_message, decode_loop, check_integrity,
  check_fingerprint, integrity_key,
}
use stice.Stun.Message.Packet.{
  IsWire, tlvs, packet, tlvs_small, sent_attributes, mac_attribute, fingerprint_attribute,
  body_attributes, authenticated_attributes,
}
use stice.Stun.Message.Encode.{encode-packet}
use stice.Stun.Message.Decode.{IsSendable}
use stice.Stun.Message.AnyInput.{decode_returns, decode_within, IsLaidOut}
use stice.Stun.Message.RoundTrip.{AreTexts, decode-encode}
use stice.Stun.Message.Checks.Encoded.{check_integrity-encode, check_fingerprint-encode}

abbrev request : Message
request = record {
  method = 1;
  cls = 0;
  transaction_id = 1 ∷ 2 ∷ 3 ∷ 4 ∷ 5 ∷ 6 ∷ 7 ∷ 8 ∷ 9 ∷ 10 ∷ 11 ∷ 12 ∷ [];
  attributes = record { type = 0x24; value = 1 ∷ 2 ∷ 3 ∷ 4 ∷ [] } ∷ [];
  raw = [];
}

abbrev secret : List ℕ
secret = 115 ∷ 101 ∷ 99 ∷ []

abbrev user : Credentials
user = record { username = 97 ∷ 58 ∷ 98 ∷ []; realm = []; nonce = []; key = [] }

request-IsSendable : IsSendable request
request-IsSendable = record { method_fits = omega arith; class_fits = omega arith; id_size = refl }

request-IsWire : All IsWire request.attributes
request-IsWire =
    (record { type_fits = omega arith; value_fits = omega arith; bytes = omega arith }, tt)

request-texts : AreTexts (some user)
request-texts = omega arith

abbrev sent : List Attribute
sent = sent_attributes request (some secret) (some user) none

request-fits : length (tlvs sent) < 2 ^ 16
request-fits = omega (arith, tlvs_small sent small)
  where
    body : List Attribute
    body = body_attributes request (some secret) (some user) none

    before : List Attribute
    before = authenticated_attributes request (some secret) (some user) none

    mac : length (mac_attribute request secret (some user) body).value ≤ 64
    mac = omega (arith, length-hmac_sha1)

    fp : length (fingerprint_attribute request before).value ≤ 64
    fp = omega (arith, length-write_u32_be)

    small : All (λ (a : Attribute). length a.value ≤ 64) sent
    small = (omega arith, (omega arith, (mac, (fp, tt))))

abbrev wire : List ℕ
wire = (encode request (some secret) (some user) none).raw

abbrev received : Message
received = record {
  method = 1;
  cls = 0;
  transaction_id = request.transaction_id;
  attributes = sent;
  raw = wire ++ (7 ∷ []);
}

decode-encode_example : decode request (wire ++ (7 ∷ [])) ≡ some (true, received)
decode-encode_example =
    decode-encode request (some secret) (some user) none request-IsWire request-texts tt
      request-IsSendable request-fits request (7 ∷ [])

check_fingerprint-encode_example : check_fingerprint received false ≡ true
check_fingerprint-encode_example =
    check_fingerprint-encode request (some secret) (some user) none request-IsSendable (omega arith)
      request-IsWire request-texts tt request-fits received (7 ∷ []) false refl

check_integrity-encode_example :
    check_integrity received (integrity_key secret (some user)) false ≡ true
check_integrity-encode_example =
    check_integrity-encode request (some secret) (some user) none request-IsSendable (omega arith)
      request-IsWire request-texts tt request-fits secret refl (omega arith) (omega arith, tt)
      received (7 ∷ []) false refl

encode-packet_example : wire ≡ packet request (length (tlvs sent) % 2 ^ 16) sent
encode-packet_example =
    encode-packet request request-IsSendable.id_size (some secret) (some user) none

decode_returns_example : decode request (1 ∷ 2 ∷ 3 ∷ []) ≢ none
decode_returns_example = decode_returns request (1 ∷ 2 ∷ 3 ∷ [])

abbrev bare : List ℕ
bare =
    0 ∷ 1 ∷ 0 ∷ 8 ∷ 0x21 ∷ 0x12 ∷ 0xa4 ∷ 0x42 ∷ 1 ∷ 2 ∷ 3 ∷ 4 ∷ 5 ∷ 6 ∷ 7 ∷ 8 ∷ 9 ∷ 10 ∷ 11 ∷ 12 ∷ 0
    ∷ 0x24 ∷ 0 ∷ 4 ∷ 1 ∷ 2 ∷ 3 ∷ 4 ∷ []

abbrev bare_request : Message
bare_request = record request { raw = bare }

bare-decoded : decode request bare ≡ some (true, bare_request)
unfolding decode decode_type is_message decode_loop read_u16_be read_u32_be padded_size
bare-decoded = refl

decode_within_example :
    (20 + read_u16_be (drop 2 bare) ≤ length bare)
    × IsLaidOut bare 20 (20 + read_u16_be (drop 2 bare)) bare_request.attributes
decode_within_example = decode_within request bare_request bare (omega arith) bare-decoded
