-- ===== src/Stun/TypeField.antt =====
-- include/stice/stun/message.hpp: methods, classes and the 16-bit type field that packs the two.
-- An `enum class : uint16_t` value may be any 16-bit number (`decodeType` casts), so it is a number.
pub mod Laws
use Prim.Native.Nat.{bit_and, bit_or}
use stice.Base.{ℕ, ◌+◌, ◌*◌, ◌/◌, ◌%◌, ◌^◌, Bool, not, ◌==◌}

-- `a + (b << 1) + (d << 2)` with the class bits c0 and c1 between the fields of the method.
unfoldable pub encode_type : ℕ → ℕ → ℕ
encode_type method cls =
    let a = bit_and method 0x000f in
    let b = bit_and method 0x0070 in
    let d = bit_and method 0x0f80 in
    let msg_bits = (a + b * 2 ^ 1 + d * 2 ^ 2) % 2 ^ 16 in
    let c0 = bit_and cls 0x0001 * 2 ^ 4 % 2 ^ 16 in
    let c1 = bit_and cls 0x0002 * 2 ^ 7 % 2 ^ 16 in (msg_bits + c0 + c1) % 2 ^ 16

-- The method and the class.
unfoldable pub decode_type : ℕ → ℕ × ℕ
decode_type type_field =
    let c0 = bit_and (type_field / 2 ^ 4) 0x0001 in
    let c1 = bit_and (type_field / 2 ^ 7) 0x0002 in
    let a = bit_and type_field 0x000f in
    let b = bit_and (type_field / 2 ^ 1) 0x0070 in
    let d = bit_and (type_field / 2 ^ 2) 0x0f80 in (bit_or (bit_or a b) d, bit_or c0 c1)

unfoldable pub is_response_type : ℕ → Bool
is_response_type cls = not (bit_and cls 0x02 == 0)
