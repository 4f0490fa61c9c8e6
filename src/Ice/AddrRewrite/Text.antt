-- ===== src/Ice/AddrRewrite/Text.antt =====
-- src/ice/addr_rewrite.cpp: the texts of rules. `atoi`, `find` and `substr` are those of the C++
-- library; `atoi` is modelled without a bound on its int.
use Prim.Native.Nat.{bit_and}
use stice.Base.{
  ℕ, ◌+◌, ◌-◌, ◌*◌, ◌/◌, ◌%◌, ◌^◌, Bool, true, false, not, ◌&&◌, ◌||◌, Option, none, some, List, [],
  ◌∷◌, is_empty, take, ltb, leb, ◌==◌, if◌then◌else◌, list_eq,
}
use stice.Base.Ints.{ℤ, pos, negsuc}
use stice.Bytes.{byte_at, read_u32_be}
use stice.Net.Addr.{af_inet, af_inet6}

-- `validateIPString`: whether the text is IPv4, `none` if it is no address.
unfoldable pub validate_ip : (ℕ → List ℕ → Option (List ℕ)) → List ℕ → Option Bool
validate_ip inet_pton s = if is_empty s then none else elim (inet_pton af_inet s) [
  | some ip ↦ some true
  | none ↦ elim (inet_pton af_inet6 s) [ some ip ↦ some false | none ↦ none ]
]

-- `find('/')` and the two substrings.
unfoldable pub split_slash : List ℕ → Option (List ℕ × List ℕ)
split_slash [] = none
split_slash (c ∷ rest) = elim (split_slash rest) as (λ o. Option (List ℕ × List ℕ)) [
  | none ↦ if c == b'/' then some ([], rest) else none
  | some (front, back) ↦ if c == b'/' then some ([], rest) else some (c ∷ front, back)
]

-- `substr(0, find('/'))`: all of the text if there is no slash.
unfoldable pub before_slash : List ℕ → List ℕ
before_slash s = elim (split_slash s) [ none ↦ s | some (front, back) ↦ front ]

unfoldable pub is_space : ℕ → Bool
is_space c = (c == b' ') || (c == 9) || (c == 13) || (c == 10)

-- The digits at the start, after `acc`.
unfoldable pub digits : ℕ → List ℕ → ℕ
digits acc [] = acc
digits acc (c ∷ rest) =
    let more = digits (acc * 10 + (c - b'0')) rest in if leb b'0' c && leb c b'9' then more else acc

unfoldable pub signed : List ℕ → ℤ
signed [] = pos 0
signed (c ∷ rest) =
    if c == b'-'
    then (let n = digits 0 rest in if n == 0 then pos 0 else negsuc (n - 1))
    else if c == b'+'
    then pos (digits 0 rest)
    else pos (digits 0 (c ∷ rest))

-- The blanks that `isspace` knows: those of `trim`, vertical tab and form feed.
unfoldable pub atoi : List ℕ → ℤ
atoi [] = pos 0
atoi (c ∷ rest) =
    let more = atoi rest in if is_space c || (c == 11) || (c == 12) then more else signed (c ∷ rest)

-- `htonl(~((1u << (32 - prefix)) - 1))` on the host-order word, and the comparison
-- `(net.s_addr & mask) == (addr.s_addr & mask)`.
unfoldable pub mask_v4 : ℕ → ℕ
mask_v4 p = if p == 0 then 0 else 2 ^ 32 - 2 ^ (32 - p)

unfoldable pub same_prefix_v4 : List ℕ → List ℕ → ℕ → Bool
same_prefix_v4 net addr prefix =
    let p = if ltb 32 prefix then 32 else prefix in
    bit_and (read_u32_be net) (mask_v4 p) == bit_and (read_u32_be addr) (mask_v4 p)

unfoldable pub same_prefix_v6 : List ℕ → List ℕ → ℕ → Bool
same_prefix_v6 net addr prefix =
    let full = prefix / 8 in
    let remainder = prefix % 8 in
    let mask = 2 ^ 8 - 2 ^ (8 - remainder) in
    if not (list_eq (take full net) (take full addr))
    then false
    else if ltb 0 remainder && ltb full 16
    then bit_and (byte_at net full) mask == bit_and (byte_at addr full) mask
    else true

unfoldable pub parsed_prefix : ℤ → Option ℕ
parsed_prefix (pos n) = if ltb 128 n then none else some n
parsed_prefix (negsuc n) = none

unfoldable pub same_bits :
    (ℕ → List ℕ → Option (List ℕ)) → ℕ → List ℕ → List ℕ → (List ℕ → List ℕ → Bool) → Bool
same_bits inet_pton family cidr_ip local_ip test = elim (inet_pton family cidr_ip) [
  | none ↦ false
  | some net ↦ elim (inet_pton family local_ip) [ none ↦ false | some addr ↦ test net addr ]
]

-- The families must agree.
unfoldable pub family_test :
    (ℕ → List ℕ → Option (List ℕ)) → Option Bool → Option Bool → List ℕ → List ℕ → ℕ → Bool
family_test inet_pton (some true) (some true) cidr_ip local_ip prefix =
    same_bits inet_pton af_inet cidr_ip local_ip (λ net addr. same_prefix_v4 net addr prefix)
family_test inet_pton (some false) (some false) cidr_ip local_ip prefix =
    same_bits inet_pton af_inet6 cidr_ip local_ip (λ net addr. same_prefix_v6 net addr prefix)
family_test inet_pton a b cidr_ip local_ip prefix = false

unfoldable pub cidr_contains : (ℕ → List ℕ → Option (List ℕ)) → List ℕ → List ℕ → Bool
cidr_contains inet_pton cidr local_ip = if is_empty cidr then true else elim (split_slash cidr) [
  | none ↦ false
  | some (cidr_ip, tail) ↦ elim (parsed_prefix (atoi tail)) [
    | none ↦ false
    | some prefix ↦
        family_test inet_pton (validate_ip inet_pton cidr_ip) (validate_ip inet_pton local_ip)
          cidr_ip local_ip prefix
  ]
]

unfoldable pub trim_left : List ℕ → List ℕ
trim_left [] = []
trim_left (c ∷ rest) = let more = trim_left rest in if is_space c then more else (c ∷ rest)

-- All blanks at the end go.
unfoldable pub trim_right : List ℕ → List ℕ
trim_right [] = []
trim_right (c ∷ rest) =
    let more = trim_right rest in if is_space c && is_empty more then [] else (c ∷ more)

unfoldable pub trim : List ℕ → List ℕ
trim s = trim_right (trim_left s)
