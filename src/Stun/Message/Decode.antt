-- ===== src/Stun/Message/Decode.antt =====
-- `Message::decode` on any input, and as the inverse of `Message::encode`.
use Prim.Native.Nat.{bit_and}
use stice.Base.{
  ℕ, zero, suc, ◌+◌, ◌/◌, ◌%◌, ◌^◌, ◌≤◌, ◌<◌, ◌≡◌, refl, ap, sym, ◌∙◌, arith, true, false, some,
  List, [], ◌∷◌, ◌++◌, append_assoc, append-nil, length, length-append, take, drop, drop-drop,
  take-length_append, drop-length_append, All, leb, le→leb, ge→ltb,
}
use stice.Base.Bits.{and_low, field_mask}
use stice.Bytes.{padded_size, byte_at, read_u16_be, read_u32_be, write_u16_be, write_u32_be}
use stice.Bytes.Laws.{padded_size-least, read-write_u16}
use stice.Stun.TypeField.{encode_type}
use stice.Stun.TypeField.Laws.{encode_type-sum, decode_type-encode_type}
use stice.Stun.Message.{Attribute, Message, magic_cookie, is_message, decode_loop, decode}
use stice.Stun.Message.Packet.{IsWire, tlv, tlvs, padding, packet, length-tlv, length-packet}

-- A message whose header the wire format can carry.
pub record IsSendable (m : Message) : Type 0 where
  pub method_fits : m.method < 2 ^ 12
  pub class_fits : m.cls < 4
  pub id_size : length m.transaction_id ≡ 12

-- What the code reads at the start of a TLV.
module _ (a : Attribute) (post : List ℕ) (w : IsWire a) where
  abbrev rest_of : List ℕ
  rest_of = a.value ++ padding a.value

  tlv_split :
      tlv a ++ post ≡ write_u16_be a.type ++ (write_u16_be (length a.value) ++ (rest_of ++ post))
  unfolding write_u16_be
  tlv_split = refl

  read_type : read_u16_be (tlv a ++ post) ≡ a.type
  read_type = rw tlv_split (read-write_u16 a.type _ w.type_fits)

  read_length : read_u16_be (drop 2 (tlv a ++ post)) ≡ length a.value
  read_length =
      ap (λ (t : List ℕ). read_u16_be (drop 2 t)) tlv_split
      ∙ two (read-write_u16 (length a.value) (rest_of ++ post) w.value_fits)
    where
      two :
          read_u16_be (write_u16_be (length a.value) ++ (rest_of ++ post)) ≡ length a.value
          → read_u16_be
              (drop 2 (write_u16_be a.type ++ (write_u16_be (length a.value) ++ (rest_of ++ post))))
            ≡ length a.value
      two e = unfold write_u16_be in e

  read_value : take (length a.value) (drop 4 (tlv a ++ post)) ≡ a.value
  unfolding write_u16_be
  read_value =
      ap (take (length a.value)) (append_assoc a.value (padding a.value) post)
      ∙ take-length_append (length a.value) a.value (padding a.value ++ post) refl

  skip_tlv : drop (4 + padded_size (length a.value)) (tlv a ++ post) ≡ post
  skip_tlv =
      drop-length_append (4 + padded_size (length a.value)) (tlv a) post
        (omega (arith, length-tlv a w.value_fits))

-- At an offset where a TLV stands: what each read of the loops gives.
module _ (bytes : List ℕ) (offset : ℕ) (a : Attribute) (post : List ℕ) (w : IsWire a)
    (at : drop offset bytes ≡ tlv a ++ post) where
  pub type_at : read_u16_be (drop offset bytes) ≡ a.type
  type_at = ap read_u16_be at ∙ read_type a post w

  pub length_at : read_u16_be (drop (offset + 2) bytes) ≡ length a.value
  length_at = ap read_u16_be (drop-drop offset 2 bytes ∙ ap (drop 2) at) ∙ read_length a post w

  pub value_at : take (length a.value) (drop (offset + 4) bytes) ≡ a.value
  value_at =
      ap (take (length a.value)) (drop-drop offset 4 bytes ∙ ap (drop 4) at) ∙ read_value a post w

  pub next_at : drop (offset + 4 + padded_size (length a.value)) bytes ≡ post
  next_at =
      ap (λ (k : ℕ). drop k bytes) (omega arith)
      ∙ drop-drop offset (4 + padded_size (length a.value)) bytes
      ∙ ap (drop (4 + padded_size (length a.value))) at
      ∙ skip_tlv a post w

  -- The loop at a TLV that the wire format carries.
  loop_step :
      (fuel end : ℕ) (attributes : List Attribute)
      → offset + length (tlv a) ≤ end
      → decode_loop (suc fuel) bytes offset end attributes
        ≡ decode_loop fuel bytes
            (offset + 4 + padded_size (length a.value))
            end
            (attributes ++ (a ∷ []))
  unfolding decode_loop
  loop_step fuel end attributes le = rw length_at (
      rw
        (
          value_at,
          type_at,
          le→leb (offset + 4) end (omega (arith, length-tlv a w.value_fits)),
          ge→ltb end (offset + 4 + length a.value)
              (omega (arith, length-tlv a w.value_fits, padded_size-least (length a.value))),
        )
        refl)

-- The loop over a sequence of TLVs takes them all, whatever follows them.
decode_loop-tlvs :
    (xs : List Attribute) (fuel : ℕ) (bytes : List ℕ) (offset end : ℕ) (attributes : List Attribute)
    (post : List ℕ)
    → All IsWire xs
    → length xs ≤ fuel
    → drop offset bytes ≡ tlvs xs ++ post
    → offset + length (tlvs xs) ≡ end
    → decode_loop fuel bytes offset end attributes ≡ some (true, attributes ++ xs)
decode_loop-tlvs [] fuel bytes offset end attributes post w le at e =
    decode_loop-end fuel ∙ ap (λ (t : List Attribute). some (true, t)) (sym (append-nil attributes))
  where
    past : leb (offset + 4) end ≡ false
    past = ground arith

    decode_loop-end : (n : ℕ) → decode_loop n bytes offset end attributes ≡ some (true, attributes)
    decode_loop-end zero = unfold decode_loop in rw past refl
    decode_loop-end (suc n) = unfold decode_loop in rw past refl
decode_loop-tlvs (a ∷ xs) zero bytes offset end attributes post w le at e = absurd (omega arith)
decode_loop-tlvs (a ∷ xs) (suc fuel) bytes offset end attributes post w le at e =
    loop_step bytes offset a (tlvs xs ++ post) w.0 here fuel end attributes
      (omega (arith, length-append (tlv a) (tlvs xs)))
    ∙ decode_loop-tlvs xs fuel bytes _ end (attributes ++ (a ∷ [])) post w.1 (omega arith)
        (next_at bytes offset a (tlvs xs ++ post) w.0 here)
        (omega (arith, length-append (tlv a) (tlvs xs), length-tlv a w.0.value_fits))
    ∙ ap (λ (t : List Attribute). some (true, t)) (append_assoc attributes (a ∷ []) xs)
  where
    here : drop offset bytes ≡ tlv a ++ (tlvs xs ++ post)
    here = at ∙ append_assoc (tlv a) (tlvs xs) post

-- The header of a packet, with what follows the packet.
module _ (m : Message) (n : ℕ) (xs : List Attribute) (post : List ℕ) (s : IsSendable m) where
  packet_type : read_u16_be (packet m n xs ++ post) ≡ encode_type m.method m.cls
  unfolding write_u16_be
  packet_type =
      read-write_u16 (encode_type m.method m.cls) _
        (omega (arith, encode_type-sum m.method m.cls s.method_fits s.class_fits))

  pub packet_length : n < 2 ^ 16 → read_u16_be (drop 2 (packet m n xs ++ post)) ≡ n
  unfolding write_u16_be
  packet_length h = read-write_u16 n _ h

  packet_cookie : read_u32_be (drop 4 (packet m n xs ++ post)) ≡ magic_cookie
  unfolding write_u16_be write_u32_be read_u32_be
  packet_cookie = refl

  packet_id : take 12 (drop 8 (packet m n xs ++ post)) ≡ m.transaction_id
  unfolding write_u16_be write_u32_be
  packet_id =
      ap (take 12) (append_assoc m.transaction_id (tlvs xs) post)
      ∙ take-length_append 12 m.transaction_id (tlvs xs ++ post) (sym s.id_size)

  pub packet_body : drop 20 (packet m n xs ++ post) ≡ tlvs xs ++ post
  unfolding write_u16_be write_u32_be
  packet_body =
      ap (drop 12) (append_assoc m.transaction_id (tlvs xs) post)
      ∙ drop-length_append 12 m.transaction_id (tlvs xs ++ post) (sym s.id_size)

  first_byte : bit_and (byte_at (packet m n xs ++ post) 0) 0xc0 ≡ 0
  unfolding write_u16_be
  first_byte = omega (
    arith,
    field_mask 6 2 (encode_type m.method m.cls / 2 ^ 8 % 256),
    encode_type-sum m.method m.cls s.method_fits s.class_fits,
  )

-- A sequence of TLVs takes a whole number of words.
length-tlvs_mod : (xs : List Attribute) → All IsWire xs → length (tlvs xs) % 4 ≡ 0
length-tlvs_mod [] w = omega arith
length-tlvs_mod (a ∷ xs) w = omega (
  arith,
  length-append (tlv a) (tlvs xs),
  length-tlv a w.0.value_fits,
  padded_size-least (length a.value),
  w.0.value_fits,
  length-tlvs_mod xs w.1,
)

pub length-tlvs_ge : (xs : List Attribute) → All IsWire xs → length xs ≤ length (tlvs xs)
length-tlvs_ge [] w = omega arith
length-tlvs_ge (a ∷ xs) w =
    omega
      (arith, length-append (tlv a) (tlvs xs), length-tlv a w.0.value_fits, length-tlvs_ge xs w.1)

module _ (m : Message) (xs : List Attribute) (post : List ℕ) (s : IsSendable m) (w : All IsWire xs)
    (fits : length (tlvs xs) < 2 ^ 16) where
  abbrev wire : List ℕ
  wire = packet m (length (tlvs xs)) xs ++ post

  length-wire : length wire ≡ 20 + length (tlvs xs) + length post
  length-wire = omega (
    arith,
    length-append (packet m (length (tlvs xs)) xs) post,
    length-packet m (length (tlvs xs)) xs s.id_size,
  )

  -- A packet is taken for a STUN message, with any bytes behind it.
  pub is_message-packet : is_message wire ≡ true
  unfolding is_message
  is_message-packet =
      rw
        (
          ge→ltb (length wire) 20 (omega (arith, length-wire)),
          first_byte m (length (tlvs xs)) xs post s,
          packet_cookie m (length (tlvs xs)) xs post s,
        )
        (rw
          (
            packet_length m (length (tlvs xs)) xs post s fits,
            and_low 2 (length (tlvs xs)),
            length-tlvs_mod xs w,
            ge→ltb (length wire) (20 + length (tlvs xs)) (omega (arith, length-wire)),
          )
          refl)

  -- `Message::decode` of a packet of well-formed attributes, with any bytes behind it: it succeeds
  -- on any message object, and gives back the method, the class, the transaction id and the
  -- attributes in order.
  pub decode-packet :
      (old : Message)
      → decode old wire
        ≡ some (
          true,
          record {
            method = m.method;
            cls = m.cls;
            transaction_id = m.transaction_id;
            attributes = xs;
            raw = wire;
          },
        )
  unfolding decode
  decode-packet old =
      rw
        (
          ge→ltb (length wire) 20 (omega (arith, length-wire)),
          is_message-packet,
          packet_length m (length (tlvs xs)) xs post s fits,
          ge→ltb (length wire) (20 + length (tlvs xs)) (omega (arith, length-wire)),
        )
        (rw
          (decode_loop-tlvs xs (length wire) wire 20 (20 + length (tlvs xs)) [] post w
            (omega (arith, length-wire, length-tlvs_ge xs w))
            (packet_body m (length (tlvs xs)) xs post s) refl)
          (rw (packet_type m (length (tlvs xs)) xs post s, packet_id m (length (tlvs xs)) xs post s)
            (rw (decode_type-encode_type m.method m.cls s.method_fits s.class_fits) refl)))
