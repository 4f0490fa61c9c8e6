-- ===== src/Stun/Message/AnyInput.antt =====
-- `Message::decode` on arbitrary bytes: the loop ends, and no value reaches behind the message.
use stice.Base.{
  ℕ, zero, suc, ◌+◌, ◌*◌, ◌≤◌, ◌<◌, ◌≡◌, ◌≢◌, arith, Bool, true, false, none, some, List, [], ◌∷◌,
  ◌++◌, length, length-take, length-drop, take, drop, leb, ltb, ltb→ge, All, All-drop, Option, sym,
  ◌∙◌, append-nil, append_assoc, Bool-cases, inl, inr, refl, ◌/◌,
}
use stice.Bytes.{IsByte, padded_size, read_u16_be}
use stice.Bytes.Laws.{padded_size-div, read_u16_be-lt}
use stice.Stun.TypeField.{decode_type}
use stice.Stun.Message.{Attribute, Message, decode_loop, decode_body, is_message, decode}

leb→gt : (a b : ℕ) → leb a b ≡ false → b < a
leb→gt a b h = ground arith

-- Every round moves on by a header at least.
decode_loop_ends :
    (fuel : ℕ) (bytes : List ℕ) (offset end : ℕ) (attributes : List Attribute)
    → end ≤ offset + 4 * fuel + 3
    → decode_loop fuel bytes offset end attributes ≢ none
unfolding decode_loop
decode_loop_ends zero bytes offset end attributes h = ground arith
decode_loop_ends (suc fuel) bytes offset end attributes h = ground (
  arith,
  decode_loop_ends fuel bytes (offset + 4 + padded_size (read_u16_be (drop (offset + 2) bytes))) end
      (attributes
        ++ (record {
          type = read_u16_be (drop offset bytes);
          value = take (read_u16_be (drop (offset + 2) bytes)) (drop (offset + 4) bytes);
        }
            ∷ [])),
)

-- `Message::decode` returns on every input: its loop never runs out of the fuel that the size gives.
pub decode_returns : (old : Message) (bytes : List ℕ) → decode old bytes ≢ none
unfolding decode
decode_returns old bytes =
    ground (arith, decode_loop_ends (length bytes) bytes 20 (20 + read_u16_be (drop 2 bytes)) [])

-- The attributes are the ones that stand in the bytes from `offset` to `end`: each with the type and
-- the length of its header and the bytes behind it, the next one at the next multiple of 4, and no
-- room for another header behind the last.
unfoldable pub IsLaidOut : List ℕ → ℕ → ℕ → List Attribute → Type 0
IsLaidOut bytes offset end [] = end < offset + 4
IsLaidOut bytes offset end (a ∷ rest) =
    (a.type ≡ read_u16_be (drop offset bytes))
    × (length a.value ≡ read_u16_be (drop (offset + 2) bytes))
    × (a.value ≡ take (length a.value) (drop (offset + 4) bytes))
    × (offset + 4 + length a.value ≤ end)
    × IsLaidOut bytes (offset + 4 + (length a.value + 3) / 4 * 4) end rest

-- What the loop has read when it succeeds.
Reads : List ℕ → ℕ → ℕ → List Attribute → List Attribute → Type 0
Reads bytes offset end attributes out =
    (found : List Attribute) × (out ≡ attributes ++ found) × IsLaidOut bytes offset end found

whole_value :
    (bytes : List ℕ) (offset end vlen : ℕ)
    → end ≤ length bytes
    → offset + vlen ≤ end
    → length (take vlen (drop offset bytes)) ≡ vlen
whole_value bytes offset end vlen h fits =
    omega (arith, length-take vlen (drop offset bytes), length-drop offset bytes)

out_eq :
    {b c : Bool} {xs ys : List Attribute}
    → ◌≡◌ {A = Option (Bool × List Attribute)} (some (b, xs)) (some (c, ys))
    → xs ≡ ys
out_eq h = cc

failed_eq :
    {xs ys : List Attribute}
    → ◌≢◌ {A = Option (Bool × List Attribute)} (some (false, xs)) (some (true, ys))
failed_eq h = cc

ended :
    (bytes : List ℕ) (offset end : ℕ) (attributes out : List Attribute)
    → leb (offset + 4) end ≡ false
    → ◌≡◌ {A = Option (Bool × List Attribute)} (some (true, attributes)) (some (true, out))
    → Reads bytes offset end attributes out
unfolding Reads IsLaidOut
ended bytes offset end attributes out e h =
    ([], sym (out_eq h) ∙ sym (append-nil attributes), leb→gt (offset + 4) end e)

decode_loop-Reads :
    (fuel : ℕ) (bytes : List ℕ) (offset end : ℕ) (attributes out : List Attribute)
    → All IsByte bytes
    → end ≤ length bytes
    → decode_loop fuel bytes offset end attributes ≡ some (true, out)
    → Reads bytes offset end attributes out
unfolding decode_loop Reads IsLaidOut
decode_loop-Reads zero bytes offset end attributes out b within h =
    elim (Bool-cases (leb (offset + 4) end)) [
      | inl e ↦ absurd (cc (rw e at h))
      | inr e ↦ ended bytes offset end attributes out e (rw e at h)
    ]
decode_loop-Reads (suc fuel) bytes offset end attributes out b within h =
    let vlen = read_u16_be (drop (offset + 2) bytes) in
    elim (Bool-cases (leb (offset + 4) end)) [
      | inr e ↦ ended bytes offset end attributes out e (rw e at h)
      | inl e ↦ elim (Bool-cases (ltb end (offset + 4 + vlen))) [
        | inl long ↦ absurd (failed_eq (rw (e, long) at h))
        | inr fits ↦
            let value = take vlen (drop (offset + 4) bytes) in
            let a : Attribute = record { type = read_u16_be (drop offset bytes); value = value } in
            let (found, same, laid) =
              decode_loop-Reads fuel bytes (offset + 4 + padded_size vlen) end
                (attributes ++ (a ∷ [])) out b within (rw (e, fits) at h) in
            let size =
              whole_value bytes (offset + 4) end vlen within
                (ltb→ge end (offset + 4 + vlen) fits) in
            let padding : padded_size vlen ≡ (vlen + 3) / 4 * 4 = padded_size-div vlen (
              omega (
                arith,
                read_u16_be-lt (drop (offset + 2) bytes) (All-drop IsByte (offset + 2) bytes b),
              )) in
            (
              a ∷ found,
              same ∙ append_assoc attributes (a ∷ []) found,
              (
                refl,
                size,
                rw size refl,
                rw size (ltb→ge end (offset + 4 + vlen) fits),
                rw size (rw padding at laid),
              ),
            )
      ]
    ]

not_success : (m n : Message) → ◌≢◌ {A = Option (Bool × Message)} (some (false, m)) (some (true, n))
not_success m n h = cc

success :
    (s m : Message) (o : Option (Bool × List Attribute))
    → (elim o as (λ x. Option (Bool × Message)) [
      | none ↦ none
      | some (result, attributes) ↦ some (result, record s { attributes = attributes })
    ])
      ≡ some (true, m)
    → o ≡ some (true, m.attributes)
success s m none h = cc
success s m (some (result, attributes)) h = ground arith

-- A successful `decode` yields exactly the attributes that stand in the message, up to the length in
-- its header: every value has the length that its header says, and lies within the message, and the
-- message within the buffer.
pub decode_within :
    (old m : Message) (bytes : List ℕ)
    → All IsByte bytes
    → decode old bytes ≡ some (true, m)
    → (20 + read_u16_be (drop 2 bytes) ≤ length bytes)
      × IsLaidOut bytes 20 (20 + read_u16_be (drop 2 bytes)) m.attributes
unfolding decode decode_body Reads
decode_within old m bytes b h = elim (Bool-cases (ltb (length bytes) 20)) [
  | inl e ↦ absurd (not_success _ _ (rw e at h))
  | inr e ↦ elim (Bool-cases (is_message bytes)) [
    | inr f ↦ absurd (not_success _ _ (rw (e, f) at h))
    | inl f ↦ elim (Bool-cases (ltb (length bytes) (20 + read_u16_be (drop 2 bytes)))) [
      | inl g ↦ absurd (not_success _ _ (rw (e, f, g) at h))
      | inr g ↦
          let fits = ltb→ge (length bytes) (20 + read_u16_be (drop 2 bytes)) g in
          let started : Message = record {
            method = (decode_type (read_u16_be bytes)).0;
            cls = (decode_type (read_u16_be bytes)).1;
            transaction_id = take 12 (drop 8 bytes);
            attributes = [];
            raw = bytes;
          } in
          let (found, same, laid) =
            decode_loop-Reads (length bytes) bytes 20 (20 + read_u16_be (drop 2 bytes)) []
              m.attributes b fits (success started m _ (rw (e, f, g) at h)) in
          (fits, rw same laid)
    ]
  ]
]
