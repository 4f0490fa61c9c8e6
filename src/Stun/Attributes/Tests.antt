-- ===== src/Stun/Attributes/Tests.antt =====
-- The typed attributes, on the reply to a Binding request.
use stice.Base.{
  ℕ, ◌^◌, ◌≤◌, ◌<◌, ◌≡◌, ◌≢◌, refl, arith, true, none, some, [], ◌∷◌, ◌++◌, length, All,
}
use stice.Bytes.Laws.{length-write_u32_be}
use stice.Net.Addr.{inet, AddrRecord}
use stice.Stun.Message.{Message, encode, decode, find, find_in}
use stice.Stun.Message.Packet.{
  IsWire, tlvs, tlvs_small, sent_attributes, fingerprint_attribute, authenticated_attributes,
}
use stice.Stun.Message.Decode.{IsSendable}
use stice.Stun.Message.RoundTrip.{decode-encode}
use stice.Stun.Attributes.{
  read_xor_address, write_xor_address, read_mapped_address, write_mapped_address,
}
use stice.Stun.Attributes.Address.{
  received, read_xor_address-write_xor_address, read_mapped_address-write_mapped_address,
}
use stice.Stun.Attributes.Delivered.{IsFree}

abbrev empty_reply : Message
empty_reply = record {
  method = 1;
  cls = 2;
  transaction_id = 1 ∷ 2 ∷ 3 ∷ 4 ∷ 5 ∷ 6 ∷ 7 ∷ 8 ∷ 9 ∷ 10 ∷ 11 ∷ 12 ∷ [];
  attributes = [];
  raw = [];
}

nothing_there : (type : ℕ) → find empty_reply type ≡ none
unfolding find find_in
nothing_there type = refl

abbrev client : AddrRecord
client = record { addr = inet (192 ∷ 0 ∷ 2 ∷ 1 ∷ []) 32853; len = 16; socktype = 2 }

read_xor_address-write_xor_address_example :
    ((write_xor_address empty_reply 0x20 client empty_reply.transaction_id).0 ≡ true)
    × (read_xor_address
          (write_xor_address empty_reply 0x20 client empty_reply.transaction_id).1
          0x20
          empty_reply.transaction_id
        ≡ some (received client.addr))
read_xor_address-write_xor_address_example =
    read_xor_address-write_xor_address empty_reply 0x20 client empty_reply.transaction_id
      (nothing_there 0x20) refl (omega arith)

read_mapped_address-write_mapped_address_example :
    ((write_mapped_address empty_reply client).0 ≡ true)
    × (read_mapped_address (write_mapped_address empty_reply client).1
        ≡ some (received client.addr))
read_mapped_address-write_mapped_address_example =
    read_mapped_address-write_mapped_address empty_reply client (nothing_there 1) refl (omega arith)

-- The reply with XOR-MAPPED-ADDRESS, sent with no password.
abbrev reply : Message
reply = record empty_reply {
  attributes =
      record { type = 0x20; value = 0 ∷ 1 ∷ 0xa1 ∷ 0x47 ∷ 0xe1 ∷ 0x12 ∷ 0xa6 ∷ 0x43 ∷ [] } ∷ [];
}

reply-IsSendable : IsSendable reply
reply-IsSendable = record { method_fits = omega arith; class_fits = omega arith; id_size = refl }

reply-IsWire : All IsWire reply.attributes
reply-IsWire =
    (record { type_fits = omega arith; value_fits = omega arith; bytes = omega arith }, tt)

reply-IsFree : IsFree 0x20
reply-IsFree = record {
  not_username = omega arith;
  not_realm = omega arith;
  not_nonce = omega arith;
}

reply-found :
    find reply 0x20
    ≡ some (record { type = 0x20; value = 0 ∷ 1 ∷ 0xa1 ∷ 0x47 ∷ 0xe1 ∷ 0x12 ∷ 0xa6 ∷ 0x43 ∷ [] })
unfolding find find_in
reply-found = refl

reply-present : find reply 0x20 ≢ none
reply-present = rw reply-found (λ e. cc)

reply-fits : length (tlvs (sent_attributes reply none none none)) < 2 ^ 16
reply-fits =
    omega (arith, tlvs_small (sent_attributes reply none none none) (omega arith, (small, tt)))
  where
    small :
        length (fingerprint_attribute reply (authenticated_attributes reply none none none)).value
        ≤ 64
    small = omega (arith, length-write_u32_be)

abbrev delivered : Message
delivered = record reply {
  attributes = sent_attributes reply none none none;
  raw = (encode reply none none none).raw ++ [];
}

delivered-decoded :
    decode empty_reply ((encode reply none none none).raw ++ []) ≡ some (true, delivered)
delivered-decoded =
    decode-encode reply none none none reply-IsWire tt tt reply-IsSendable reply-fits empty_reply []
