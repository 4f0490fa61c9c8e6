-- ===== src/Stun/TypeField/Laws.antt =====
-- The type field of include/stice/stun/message.hpp in plain arithmetic, and as a round trip.
use Prim.Native.Nat.{bit_or}
use stice.Base.{ℕ, ◌+◌, ◌*◌, ◌/◌, ◌%◌, ◌^◌, ◌<◌, ◌≡◌, ◌∙◌, arith, leb}
use stice.Base.Bits.{and_low, field_mask, or_disjoint, or_comm}
use stice.Stun.TypeField.{encode_type, decode_type, is_response_type}
use mathlib.Core.Path.{ap₂}

-- The type field as the sum of its parts: three runs of method bits with a class bit between them.
pub encode_type-sum :
    (m c : ℕ)
    → m < 2 ^ 12
    → c < 4
    → encode_type m c
      ≡ m % 16 + m / 16 % 8 * 2 ^ 5 + m / 2 ^ 7 % 32 * 2 ^ 9 + c % 2 * 2 ^ 4 + c / 2 * 2 ^ 8
unfolding encode_type
encode_type-sum m c hm hc =
    omega (arith, and_low 4 m, field_mask 4 3 m, field_mask 7 5 m, and_low 1 c, field_mask 1 1 c)

or_up : (k q r : ℕ) → r < 2 ^ k → bit_or r (q * 2 ^ k) ≡ q * 2 ^ k + r
or_up k q r h = or_comm r (q * 2 ^ k) ∙ or_disjoint k q r h

pub decode_type-method :
    (t : ℕ) → (decode_type t).0 ≡ t % 16 + t / 2 ^ 5 % 8 * 16 + t / 2 ^ 9 % 32 * 2 ^ 7
unfolding decode_type
decode_type-method t =
    ap₂ bit_or
      (ap₂ bit_or (and_low 4 t) (field_mask 4 3 (t / 2 ^ 1))
        ∙ or_up 4 (t / 2 ^ 1 / 2 ^ 4 % 8) (t % 16) (omega arith))
      (field_mask 7 5 (t / 2 ^ 2))
    ∙ or_up 7 (t / 2 ^ 2 / 2 ^ 7 % 32) (t / 2 ^ 1 / 2 ^ 4 % 8 * 2 ^ 4 + t % 16) (omega arith)
    ∙ omega arith

pub decode_type-class : (t : ℕ) → (decode_type t).1 ≡ t / 2 ^ 4 % 2 + t / 2 ^ 8 % 2 * 2
unfolding decode_type
decode_type-class t =
    ap₂ bit_or (and_low 1 (t / 2 ^ 4)) (field_mask 1 1 (t / 2 ^ 7))
    ∙ or_up 1 (t / 2 ^ 7 / 2 ^ 1 % 2) (t / 2 ^ 4 % 2) (omega arith)
    ∙ omega arith

-- Decoding a type field that was encoded from a 12-bit method and a 2-bit class gives both back.
pub decode_type-encode_type :
    (m c : ℕ) → m < 2 ^ 12 → c < 4 → decode_type (encode_type m c) ≡ (m, c)
decode_type-encode_type m c hm hc = ap₂ (λ (x y : ℕ). (x, y)) method_back class_back
  where
    method_back : (decode_type (encode_type m c)).0 ≡ m
    method_back =
        decode_type-method (encode_type m c) ∙ rw (encode_type-sum m c hm hc) (omega arith)

    class_back : (decode_type (encode_type m c)).1 ≡ c
    class_back = decode_type-class (encode_type m c) ∙ rw (encode_type-sum m c hm hc) (omega arith)

-- The other way: a field whose top two bits are clear, as `isMessage` wants them, is what its
-- method and class encode to.
pub encode_type-decode_type :
    (t : ℕ) → t < 2 ^ 14 → encode_type (decode_type t).0 (decode_type t).1 ≡ t
encode_type-decode_type t h =
    encode_type-sum (decode_type t).0 (decode_type t).1 (omega (arith, decode_type-method t))
      (omega (arith, decode_type-class t))
    ∙ omega (arith, decode_type-method t, decode_type-class t)

-- The response classes are the upper half of the four.
pub is_response_type-class : (c : ℕ) → c < 4 → is_response_type c ≡ leb 2 c
unfolding is_response_type
is_response_type-class c h = ground (arith, field_mask 1 1 c)
