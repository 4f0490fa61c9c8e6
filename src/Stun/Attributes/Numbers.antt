-- ===== src/Stun/Attributes/Numbers.antt =====
-- The attributes that carry one number, a code or a text: each reader returns what was added.
use Prim.Native.Nat.{bit_and, bit_or}
use stice.Base.{
  ℕ, ◌+◌, ◌*◌, ◌/◌, ◌%◌, ◌^◌, ◌<◌, ◌≤◌, ◌≡◌, refl, ap, sym, ◌∙◌, arith, none, some, List, [], ◌∷◌,
  ◌++◌, append-nil, length, is_empty, ge→ltb, ==-refl, if◌then◌else◌,
}
use stice.Base.Bits.{or_disjoint, and_low}
use stice.Bytes.{read_u32_be, write_u32_be}
use stice.Bytes.Laws.{read-write_u32, length-write_u32_be, read_u16_be-sum}
use stice.Stun.ErrorReason.{error_reason}
use stice.Stun.Message.{Message, add_attribute, find}
use stice.Stun.Attributes.{
  sized_value, long_value, push_byte, write_u64_be, priority, lifetime, nomination, connection_id,
  tcp_type, channel_number, ice_controlling, ice_controlled, error_code, add_priority,
  read_priority, add_lifetime, read_lifetime, add_nomination, read_nomination, add_connection_id,
  read_connection_id, add_tcp_type, read_tcp_type, add_channel_number, read_channel_number,
  add_ice_controlling, read_ice_controlling, add_ice_controlled, read_ice_controlled,
  add_error_code, read_error_code,
}
use stice.Stun.Attributes.Lookup.{find-add_attribute}
use mathlib.Core.List.{foldl}
use mathlib.Core.Option.{map as map_option}

sized_value-add_attribute :
    (m : Message) (type n : ℕ) (value : List ℕ)
    → find m type ≡ none
    → length value ≡ n
    → sized_value (add_attribute m type value) type n ≡ some value
unfolding sized_value
sized_value-add_attribute m type n value h e =
    rw (find-add_attribute m type value h, sized_value, e, ==-refl n) refl

long_value-add_attribute :
    (m : Message) (type n : ℕ) (value : List ℕ)
    → find m type ≡ none
    → n ≤ length value
    → long_value (add_attribute m type value) type n ≡ some value
unfolding long_value
long_value-add_attribute m type n value h e =
    rw (find-add_attribute m type value h, long_value, ge→ltb (length value) n e) refl

-- A 32-bit number is read back from its four bytes.
read_word : (v : ℕ) → v < 2 ^ 32 → read_u32_be (write_u32_be v) ≡ v
read_word v h = ap read_u32_be (sym (append-nil (write_u32_be v))) ∙ read-write_u32 v [] h

sized_word :
    (m : Message) (type v : ℕ)
    → find m type ≡ none
    → v < 2 ^ 32
    → map_option read_u32_be (sized_value (add_attribute m type (write_u32_be v)) type 4) ≡ some v
sized_word m type v h lt =
    rw (sized_value-add_attribute m type 4 (write_u32_be v) h (length-write_u32_be v))
      (ap some (read_word v lt))

long_word :
    (m : Message) (type v : ℕ)
    → find m type ≡ none
    → v < 2 ^ 32
    → map_option read_u32_be (long_value (add_attribute m type (write_u32_be v)) type 4) ≡ some v
long_word m type v h lt =
    rw (long_value-add_attribute m type 4 (write_u32_be v) h (omega (arith, length-write_u32_be v)))
      (ap some (read_word v lt))

-- Each of the five attributes that hold a 32-bit number, added to a message that has none, reads
-- back as that number.
pub words_read_back :
    (m : Message) (v : ℕ)
    → v < 2 ^ 32
    → (find m priority ≡ none → read_priority (add_priority m v) ≡ some v)
      × (find m lifetime ≡ none → read_lifetime (add_lifetime m v) ≡ some v)
      × (find m nomination ≡ none → read_nomination (add_nomination m v) ≡ some v)
      × (find m connection_id ≡ none → read_connection_id (add_connection_id m v) ≡ some v)
      × (find m tcp_type ≡ none → read_tcp_type (add_tcp_type m v) ≡ some v)
unfolding add_priority read_priority add_lifetime read_lifetime add_nomination read_nomination
    add_connection_id read_connection_id add_tcp_type read_tcp_type
words_read_back m v lt = (
  λ h. sized_word m priority v h lt,
  λ h. sized_word m lifetime v h lt,
  λ h. long_word m nomination v h lt,
  λ h. long_word m connection_id v h lt,
  λ h. sized_word m tcp_type v h lt,
)

push_byte-sum : (acc b : ℕ) → acc < 2 ^ 56 → b < 256 → push_byte acc b ≡ acc * 256 + b
unfolding push_byte
push_byte-sum acc b h k = ap (λ (t : ℕ). bit_or t b) step ∙ or_disjoint 8 acc b k
  where
    step : acc * 2 ^ 8 % 2 ^ 64 ≡ acc * 2 ^ 8
    step = omega arith

-- One step of the reader, at the prefix x of the number.
push_at : (x acc b : ℕ) → x < 2 ^ 64 → acc ≡ x / 256 → b ≡ x % 256 → push_byte acc b ≡ x
push_at x acc b h e f =
    ap (λ (t : ℕ). push_byte t b) e
    ∙ push_byte-sum (x / 256) b (omega arith) (omega arith)
    ∙ omega arith

-- Four bytes in the middle of the number.
push_word :
    (x acc w : ℕ)
    → x < 2 ^ 64
    → acc ≡ x / 2 ^ 32
    → w % 2 ^ 32 ≡ x % 2 ^ 32
    → foldl push_byte acc (write_u32_be w) ≡ x
unfolding write_u32_be
push_word x acc w h e f =
    push_at x _ (bit_and w 0xff % 256) h (p3 ∙ omega arith) (omega (arith, and_low 8 w))
  where
    p1 : push_byte acc (w / 2 ^ 24 % 256) ≡ x / 2 ^ 24
    p1 = push_at (x / 2 ^ 24) acc (w / 2 ^ 24 % 256) (omega arith) (omega arith) (omega arith)

    p2 : push_byte (push_byte acc (w / 2 ^ 24 % 256)) (w / 2 ^ 16 % 256) ≡ x / 2 ^ 16
    p2 = push_at (x / 2 ^ 16) _ (w / 2 ^ 16 % 256) (omega arith) (p1 ∙ omega arith) (omega arith)

    p3 :
        push_byte
          (push_byte (push_byte acc (w / 2 ^ 24 % 256)) (w / 2 ^ 16 % 256))
          (w / 2 ^ 8 % 256)
        ≡ x / 2 ^ 8
    p3 = push_at (x / 2 ^ 8) _ (w / 2 ^ 8 % 256) (omega arith) (p2 ∙ omega arith) (omega arith)

foldl-append :
    (acc : ℕ) (xs ys : List ℕ)
    → foldl push_byte acc (xs ++ ys) ≡ foldl push_byte (foldl push_byte acc xs) ys
foldl-append acc [] ys = refl
foldl-append acc (x ∷ xs) ys = foldl-append (push_byte acc x) xs ys

-- Eight bytes, read one after the other, give the number back.
pub read_u64 : (v : ℕ) → v < 2 ^ 64 → foldl push_byte 0 (write_u64_be v) ≡ v
unfolding write_u64_be
read_u64 v h =
    foldl-append 0 (write_u32_be (v / 2 ^ 32)) (write_u32_be v)
    ∙ push_word v _ v h (push_word (v / 2 ^ 32) 0 (v / 2 ^ 32) (omega arith) (omega arith) refl)
        refl

pub length-write_u64 : (v : ℕ) → length (write_u64_be v) ≡ 8
unfolding write_u64_be write_u32_be
length-write_u64 v = refl

-- The tie-breakers, 64-bit numbers, read back from both of the role attributes.
pub tiebreakers_read_back :
    (m : Message) (v : ℕ)
    → v < 2 ^ 64
    → (find m ice_controlling ≡ none → read_ice_controlling (add_ice_controlling m v) ≡ some v)
      × (find m ice_controlled ≡ none → read_ice_controlled (add_ice_controlled m v) ≡ some v)
unfolding add_ice_controlling read_ice_controlling add_ice_controlled read_ice_controlled
tiebreakers_read_back m v lt = (
  λ h.
      rw (sized_value-add_attribute m ice_controlling 8 (write_u64_be v) h (length-write_u64 v))
        (ap some (read_u64 v lt)),
  λ h.
      rw (sized_value-add_attribute m ice_controlled 8 (write_u64_be v) h (length-write_u64 v))
        (ap some (read_u64 v lt)),
)

-- A channel number reads back from its two bytes.
pub read_channel_number-add_channel_number :
    (m : Message) (channel : ℕ)
    → find m channel_number ≡ none
    → channel < 2 ^ 16
    → read_channel_number (add_channel_number m channel) ≡ some channel
unfolding add_channel_number read_channel_number
read_channel_number-add_channel_number m channel h lt =
    rw (sized_value-add_attribute m channel_number 4 _ h refl) (
      ap some (
        omega (
          arith,
          and_low 8 channel,
          read_u16_be-sum (channel / 2 ^ 8 % 256) (bit_and channel 0xff) (0 ∷ 0 ∷ []),
        )))

-- An error code below 800 reads back, with the caller's reason, or with the standard phrase of the
-- code where the caller gave none.
pub read_error_code-add_error_code :
    (m : Message) (code : ℕ) (reason : List ℕ)
    → find m error_code ≡ none
    → code < 800
    → read_error_code (add_error_code m code reason)
      ≡ some (code, if is_empty reason then error_reason code else reason)
unfolding add_error_code read_error_code
read_error_code-add_error_code m code reason h lt =
    rw
      (long_value-add_attribute m error_code 4
        (0 ∷ 0 ∷ bit_and (code / 100) 0x07 ∷ code % 100 ∷ phrase) h (omega arith))
      (ap (λ (n : ℕ). some (n, phrase)) value)
  where
    phrase : List ℕ
    phrase = if is_empty reason then error_reason code else reason

    value : bit_and (bit_and (code / 100) 0x07) 0x07 * 100 + code % 100 ≡ code
    value = omega (arith, and_low 3 (code / 100), and_low 3 (bit_and (code / 100) 0x07))
