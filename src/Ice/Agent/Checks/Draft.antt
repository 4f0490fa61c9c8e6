-- ===== src/Ice/Agent/Checks/Draft.antt =====
-- The attributes of a check, step by step as `sendStunBinding` adds them: they can be sent, and the
-- later ones hide none of the earlier.
use stice.Base.{
  ℕ, ◌+◌, ◌/◌, ◌^◌, ◌≤◌, ◌<◌, ◌≡◌, ◌≢◌, ap, sym, ◌∙◌, arith, List, [], ◌∷◌, append-nil, length,
  length-append, All, All-append, ==_ne, Option-cases, inl, inr,
}
use stice.Bytes.{IsByte, write_u32_be}
use stice.Bytes.Laws.{write_u32_be-bytes, length-write_u32_be, padded_size-least}
use stice.Stun.Message.{Message, Attribute, add_attribute, find, find_in, integrity_type}
use stice.Stun.Message.Packet.{IsWire, tlv, tlvs, tlvs-append, length-tlv}
use stice.Stun.Attributes.{write_u64_be}
use stice.Stun.Attributes.Lookup.{find_in-append, find_in-append_found}

-- A Binding request under way, with attributes of n bytes at most, none of them an integrity.
pub record IsDraft (tid : List ℕ) (n : ℕ) (m : Message) : Type 0 where
  pub method : m.method ≡ 1
  pub cls : m.cls ≡ 0
  pub id : m.transaction_id ≡ tid
  pub wire : All IsWire m.attributes
  pub plain : All (λ (a : Attribute). a.type ≢ integrity_type) m.attributes
  pub size : length (tlvs m.attributes) ≤ n

-- What `find` gives for another type stays.
pub find-add_other :
    (m : Message) (type other : ℕ) (value : List ℕ)
    → type ≢ other
    → find (add_attribute m type value) other ≡ find m other
unfolding find add_attribute
find-add_other m type other value ne = elim (Option-cases (find_in m.attributes other)) [
  | inl e ↦ find_in-append m.attributes _ other e ∙ rw (==_ne type other ne, find_in) (sym e)
  | inr (a, e) ↦ find_in-append_found m.attributes _ other a e ∙ sym e
]

abbrev pub one : ℕ → List ℕ → List Attribute
one type value = record { type = type; value = value } ∷ []

size-one :
    (type : ℕ) (value : List ℕ)
    → length value ≤ 600
    → length (tlvs (one type value)) ≤ length value + 7
size-one type value h = omega (
  arith,
  ap length (append-nil (tlv (record { type = type; value = value }))),
  length-tlv (record { type = type; value = value }),
  padded_size-least (length value) (omega arith),
)

pub add-IsDraft :
    (tid : List ℕ) (n k : ℕ) (m : Message) (type : ℕ) (value : List ℕ)
    → IsDraft tid n m
    → type ≢ integrity_type
    → type < 2 ^ 16
    → length value + 7 ≤ k
    → k ≤ 600
    → All IsByte value
    → IsDraft tid (n + k) (add_attribute m type value)
unfolding add_attribute
add-IsDraft tid n k m type value d ne small short bound bytes = record {
  method = d.method;
  cls = d.cls;
  id = d.id;
  wire =
      All-append IsWire m.attributes (one type value) d.wire
        (record { type_fits = small; value_fits = omega arith; bytes = bytes }, tt);
  plain =
      All-append (λ (a : Attribute). a.type ≢ integrity_type) m.attributes (one type value) d.plain
        (ne, tt);
  size = omega (
    arith,
    ap length (tlvs-append m.attributes (one type value)),
    length-append (tlvs m.attributes) (tlvs (one type value)),
    size-one type value (omega arith),
    d.size,
  );
}

pub more-IsDraft : (tid : List ℕ) (n k : ℕ) (m : Message) → IsDraft tid n m → IsDraft tid (n + k) m
more-IsDraft tid n k m d = record {
  method = d.method;
  cls = d.cls;
  id = d.id;
  wire = d.wire;
  plain = d.plain;
  size = omega (arith, d.size);
}

pub word-IsDraft :
    (tid : List ℕ) (n : ℕ) (m : Message) (type v : ℕ)
    → IsDraft tid n m
    → type ≢ integrity_type
    → type < 2 ^ 16
    → IsDraft tid (n + 15) (add_attribute m type (write_u32_be v))
word-IsDraft tid n m type v d ne small =
    add-IsDraft tid n 15 m type (write_u32_be v) d ne small (omega (arith, length-write_u32_be v))
      (omega arith) (write_u32_be-bytes v)

pub long-IsDraft :
    (tid : List ℕ) (n : ℕ) (m : Message) (type v : ℕ)
    → IsDraft tid n m
    → type ≢ integrity_type
    → type < 2 ^ 16
    → IsDraft tid (n + 15) (add_attribute m type (write_u64_be v))
unfolding write_u64_be
long-IsDraft tid n m type v d ne small =
    add-IsDraft tid n 15 m type (write_u64_be v) d ne small
      (omega (
        arith,
        length-append (write_u32_be (v / 2 ^ 32)) (write_u32_be v),
        length-write_u32_be v,
        length-write_u32_be (v / 2 ^ 32),
      ))
      (omega arith)
      (All-append IsByte (write_u32_be (v / 2 ^ 32)) (write_u32_be v)
        (write_u32_be-bytes (v / 2 ^ 32)) (write_u32_be-bytes v))
