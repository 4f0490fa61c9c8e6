-- ===== src/Crypto/Crc32/Bitwise.antt =====
-- The table of `crc32` does eight rounds of the bit-by-bit division at once.
use Prim.Native.Nat.{bit_and, bit_xor, differ}
use stice.Base.{
  ℕ, zero, suc, ◌+◌, ◌*◌, ◌/◌, ◌%◌, ◌^◌, ◌<◌, ◌≡◌, refl, ap, sym, ◌∙◌, ◌⊎◌, inl, inr, List, [], ◌∷◌,
  arith, All, get_or,
}
use stice.Base.Bits.{and_low, xor-lt}
use stice.Base.Bits.Xor.{
  xor-half, xor-parity, xor_comm, xor_assoc, xor-zero, zero-xor, xor-div, xor_disjoint,
}
use stice.Bytes.{IsByte}
use stice.Crypto.Crc32.{crc_step, crc_steps, crc_entries, crc_table, crc_loop, crc32}
use mathlib.Core.Path.{ap₂}
use native.Mathlib.Nat.{pow-suc}

-- The CRC with no table: a byte is mixed in, and the register is divided bit by bit.
abbrev pub crc_bitwise : ℕ → List ℕ → ℕ
crc_bitwise crc [] = crc
crc_bitwise crc (b ∷ bytes) = crc_bitwise (crc_steps 8 (bit_xor crc b)) bytes

-- What a step adds, by the lowest bit.
abbrev fed : ℕ → ℕ
fed zero = 0
fed (suc n) = 0xedb88320

bit_cases : (n : ℕ) → n < 2 → (n ≡ 0) ⊎ (n ≡ 1)
bit_cases zero h = inl refl
bit_cases (suc zero) h = inr refl
bit_cases (suc (suc n)) h = absurd (omega arith)

crc_step-fed : (c : ℕ) → crc_step c ≡ bit_xor (fed (c % 2)) (c / 2)
unfolding crc_step
crc_step-fed c = elim (bit_cases (c % 2) (omega arith)) [
  | inl even ↦ rw (and_low 1 c, even) (sym (zero-xor (c / 2)))
  | inr odd ↦ rw (and_low 1 c, odd) refl
]

fed-differ : (x y : ℕ) → x < 2 → y < 2 → fed (differ x y) ≡ bit_xor (fed x) (fed y)
fed-differ zero y p q = sym (zero-xor (fed y))
fed-differ (suc zero) zero p q = refl
fed-differ (suc zero) (suc zero) p q = refl
fed-differ (suc zero) (suc (suc y)) p q = absurd (omega arith)
fed-differ (suc (suc x)) y p q = absurd (omega arith)

xor_interchange :
    (a b c d : ℕ) → bit_xor (bit_xor a b) (bit_xor c d) ≡ bit_xor (bit_xor a c) (bit_xor b d)
xor_interchange a b c d =
    xor_assoc a b (bit_xor c d)
    ∙ ap (bit_xor a)
        (sym (xor_assoc b c d) ∙ ap (λ (t : ℕ). bit_xor t d) (xor_comm b c) ∙ xor_assoc c b d)
    ∙ sym (xor_assoc a c (bit_xor b d))

crc_step-xor : (a b : ℕ) → crc_step (bit_xor a b) ≡ bit_xor (crc_step a) (crc_step b)
crc_step-xor a b =
    crc_step-fed (bit_xor a b)
    ∙ ap₂ bit_xor (ap fed (xor-parity a b) ∙ fed-differ (a % 2) (b % 2) (omega arith) (omega arith))
        (xor-half a b)
    ∙ xor_interchange (fed (a % 2)) (fed (b % 2)) (a / 2) (b / 2)
    ∙ ap₂ bit_xor (sym (crc_step-fed a)) (sym (crc_step-fed b))

crc_steps-xor : (k a b : ℕ) → crc_steps k (bit_xor a b) ≡ bit_xor (crc_steps k a) (crc_steps k b)
crc_steps-xor zero a b = unfold crc_steps in refl
crc_steps-xor (suc k) a b =
    suc_step k (bit_xor a b)
    ∙ ap (crc_steps k) (crc_step-xor a b)
    ∙ crc_steps-xor k (crc_step a) (crc_step b)
    ∙ ap₂ bit_xor (sym (suc_step k a)) (sym (suc_step k b))
  where
    suc_step : (n c : ℕ) → crc_steps (suc n) c ≡ crc_steps n (crc_step c)
    suc_step n c = unfold crc_steps in refl

-- k rounds on a number with k low zeros shift them out.
crc_steps-shift : (k q : ℕ) → crc_steps k (q * 2 ^ k) ≡ q
unfolding crc_steps
crc_steps-shift zero q = omega arith
crc_steps-shift (suc k) q = ap (crc_steps k) one ∙ crc_steps-shift k q
  where
    twice : q * 2 ^ suc k ≡ q * 2 ^ k * 2
    twice = omega (arith, ap (λ (t : ℕ). q * t) (pow-suc 2 k))

    even : q * 2 ^ suc k % 2 ≡ 0
    even = omega (arith, twice)

    half : q * 2 ^ suc k / 2 ≡ q * 2 ^ k
    half = omega (arith, twice)

    one : crc_step (q * 2 ^ suc k) ≡ q * 2 ^ k
    one =
        crc_step-fed (q * 2 ^ suc k)
        ∙ ap₂ (λ (x y : ℕ). bit_xor (fed x) y) even half
        ∙ zero-xor (q * 2 ^ k)

get_or-crc_entries : (n i j : ℕ) → j < n → get_or (crc_entries n i) j 0 ≡ crc_steps 8 (i + j)
unfolding crc_entries
get_or-crc_entries zero i j h = absurd (omega arith)
get_or-crc_entries (suc n) i zero h = ap (crc_steps 8) (omega arith)
get_or-crc_entries (suc n) i (suc j) h =
    get_or-crc_entries n (i + 1) j (omega arith) ∙ ap (crc_steps 8) (omega arith)

table_entry : (j : ℕ) → j < 256 → get_or crc_table j 0 ≡ crc_steps 8 j
unfolding crc_table
table_entry j h = get_or-crc_entries 256 0 j h ∙ ap (crc_steps 8) (omega arith)

table_step :
    (crc b : ℕ)
    → b < 256
    → bit_xor (get_or crc_table (bit_and (bit_xor crc b) 0xff) 0) (crc / 2 ^ 8)
      ≡ crc_steps 8 (bit_xor crc b)
table_step crc b h =
    ap₂ bit_xor entry high
    ∙ xor_comm (crc_steps 8 low) (x / 2 ^ 8)
    ∙ ap (λ (t : ℕ). bit_xor t (crc_steps 8 low)) (sym (crc_steps-shift 8 (x / 2 ^ 8)))
    ∙ sym (crc_steps-xor 8 (x / 2 ^ 8 * 2 ^ 8) low)
    ∙ ap (crc_steps 8) (xor_disjoint 8 (x / 2 ^ 8) low (omega arith) ∙ omega arith)
  where
    x : ℕ
    x = bit_xor crc b

    low : ℕ
    low = x % 2 ^ 8

    entry : get_or crc_table (bit_and x 0xff) 0 ≡ crc_steps 8 low
    entry = ap (λ (t : ℕ). get_or crc_table t 0) (and_low 8 x) ∙ table_entry low (omega arith)

    high : crc / 2 ^ 8 ≡ x / 2 ^ 8
    high = sym (
        xor-div 8 crc b
        ∙ ap (λ (t : ℕ). bit_xor (crc / 2 ^ 8) t) (omega arith)
        ∙ xor-zero (crc / 2 ^ 8))

-- `crc32`'s table-driven loop computes the bit-by-bit CRC, on every list of bytes.
pub crc_loop-bitwise :
    (crc : ℕ) (bytes : List ℕ) → All IsByte bytes → crc_loop crc bytes ≡ crc_bitwise crc bytes
unfolding crc_loop
crc_loop-bitwise crc [] h = refl
crc_loop-bitwise crc (b ∷ bytes) h =
    rw (table_step crc b h.0) (crc_loop-bitwise (crc_steps 8 (bit_xor crc b)) bytes h.1)

crc_step-lt : (c : ℕ) → c < 2 ^ 32 → crc_step c < 2 ^ 32
crc_step-lt c h =
    rw (crc_step-fed c) (xor-lt 32 (fed (c % 2)) (c / 2) (fed-lt (c % 2)) (omega arith))
  where
    fed-lt : (n : ℕ) → fed n < 2 ^ 32
    fed-lt zero = omega arith
    fed-lt (suc n) = omega arith

crc_steps-lt : (k c : ℕ) → c < 2 ^ 32 → crc_steps k c < 2 ^ 32
unfolding crc_steps
crc_steps-lt zero c h = h
crc_steps-lt (suc k) c h = crc_steps-lt k (crc_step c) (crc_step-lt c h)

crc_bitwise-lt :
    (crc : ℕ) (bytes : List ℕ) → crc < 2 ^ 32 → All IsByte bytes → crc_bitwise crc bytes < 2 ^ 32
crc_bitwise-lt crc [] h a = h
crc_bitwise-lt crc (b ∷ bytes) h a =
    crc_bitwise-lt (crc_steps 8 (bit_xor crc b)) bytes
      (crc_steps-lt 8 (bit_xor crc b) (xor-lt 32 crc b h (omega (arith, a.0)))) a.1

-- The CRC of bytes fits 32 bits.
pub crc32-lt : (bytes : List ℕ) → All IsByte bytes → crc32 bytes < 2 ^ 32
unfolding crc32
crc32-lt bytes a = rw (crc_loop-bitwise 0xffff_ffff bytes a) (
    xor-lt 32 (crc_bitwise 0xffff_ffff bytes) 0xffff_ffff
      (crc_bitwise-lt 0xffff_ffff bytes (omega arith) a) (omega arith))
