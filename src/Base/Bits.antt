-- ===== src/Base/Bits.antt =====
-- The bit operations as arithmetic: laws at every width for the operations that the code uses.
mod Peel
pub mod Xor
use Peel.{bit_and-peel, bit_or-peel}
use Xor.{xor_assoc, xor_self, xor-zero, xor-half, xor-parity}
use Prim.Native.Nat.{bit_and, bit_or, bit_xor}
use Prim.Native.Nat.{ℕ, zero, suc, ◌+◌, ◌-◌, ◌*◌, ◌/◌, ◌%◌, ◌^◌, ◌≤◌, ◌<◌, max, min}
use mathlib.Core.Path.{◌≡◌, refl, ap, ◌∙◌}
use native.Mathlib.Nat.{pow-suc, one-le-pow, div-div-eq-div-mul}
use native.Mathlib.Omega.{arith}

-- A mask that is applied twice is gone.
pub xor-xor : (a b : ℕ) → bit_xor (bit_xor a b) b ≡ a
xor-xor a b = xor_assoc a b b ∙ ap (λ (t : ℕ). bit_xor a t) (xor_self b) ∙ xor-zero a

pub xor-lt : (k a b : ℕ) → a < 2 ^ k → b < 2 ^ k → bit_xor a b < 2 ^ k
xor-lt zero zero zero p q = omega arith
xor-lt zero zero (suc b) p q = absurd (omega arith)
xor-lt zero (suc a) b p q = absurd (omega arith)
xor-lt (suc k) a b p q = omega (
  arith,
  pow-suc 2 k,
  xor-parity a b,
  xor-half a b,
  xor-lt k (a / 2) (b / 2) (omega (arith, pow-suc 2 k)) (omega (arith, pow-suc 2 k)),
)

double_pow : (q k : ℕ) → q * 2 ^ suc k ≡ q * 2 ^ k * 2
double_pow q k = omega (arith, ap (λ (t : ℕ). q * t) (pow-suc 2 k))

or_nothing : (n a : ℕ) → a ≤ n → bit_or a 0 ≡ a
or_nothing n zero h = refl
or_nothing zero (suc a) h = absurd (omega arith)
or_nothing (suc n) (suc a) h =
    omega (arith, bit_or-peel (suc a) 0, or_nothing n (suc a / 2) (omega arith))

and_nothing : (n a : ℕ) → a ≤ n → bit_and a 0 ≡ 0
and_nothing n zero h = refl
and_nothing zero (suc a) h = absurd (omega arith)
and_nothing (suc n) (suc a) h =
    omega (arith, bit_and-peel (suc a) 0, and_nothing n (suc a / 2) (omega arith))

-- `x << k | r` is a sum where `r` fits the k low bits.
pub or_disjoint : (k q r : ℕ) → r < 2 ^ k → bit_or (q * 2 ^ k) r ≡ q * 2 ^ k + r
or_disjoint zero q zero h = omega (arith, or_nothing (q * 1) (q * 1) (omega arith))
or_disjoint zero q (suc r) h = absurd (omega arith)
or_disjoint (suc k) q r h = omega (
  arith,
  double_pow q k,
  bit_or-peel (q * 2 ^ suc k) r,
  ap (λ (t : ℕ). bit_or t (r / 2)) half,
  or_disjoint k q (r / 2) (omega (arith, pow-suc 2 k)),
)
  where
    half : q * 2 ^ suc k / 2 ≡ q * 2 ^ k
    half = omega (arith, double_pow q k)

-- A mask of the k low bits, `x & (2^k - 1)`, is a remainder.
and_split : (k q r : ℕ) → r < 2 ^ k → bit_and (q * 2 ^ k + r) (2 ^ k - 1) ≡ r
and_split zero q zero h = and_nothing (q * 1 + 0) (q * 1 + 0) (omega arith)
and_split zero q (suc r) h = absurd (omega arith)
and_split (suc k) q r h = omega (
  arith,
  bit_and-peel (q * 2 ^ suc k + r) (2 ^ suc k - 1),
  ap (λ (t : ℕ). bit_and t ((2 ^ suc k - 1) / 2)) half,
  ap (λ (t : ℕ). bit_and (q * 2 ^ k + r / 2) t) mask,
  and_split k q (r / 2) (omega (arith, pow-suc 2 k)),
  double_pow q k,
  pow-suc 2 k,
  one-le-pow k 2,
)
  where
    half : (q * 2 ^ suc k + r) / 2 ≡ q * 2 ^ k + r / 2
    half = omega (arith, double_pow q k)

    mask : (2 ^ suc k - 1) / 2 ≡ 2 ^ k - 1
    mask = omega (arith, pow-suc 2 k, one-le-pow k 2)

pub and_low : (k a : ℕ) → bit_and a (2 ^ k - 1) ≡ a % 2 ^ k
and_low k a = omega (
  arith,
  ap (λ (t : ℕ). bit_and t (2 ^ k - 1)) whole,
  and_split k (a / 2 ^ k) (a % 2 ^ k) (omega (arith, one-le-pow k 2)),
)
  where
    whole : a ≡ a / 2 ^ k * 2 ^ k + a % 2 ^ k
    whole = omega (arith, one-le-pow k 2)

-- A mask of a field of bits that starts at bit k.
pub and_shifted : (k a q : ℕ) → bit_and a (q * 2 ^ k) ≡ bit_and (a / 2 ^ k) q * 2 ^ k
and_shifted zero a q =
    omega (arith, ap (λ (t : ℕ). bit_and a t) one, ap (λ (t : ℕ). bit_and t q) same)
  where
    one : q * 1 ≡ q
    one = omega arith

    same : a / 1 ≡ a
    same = omega arith
and_shifted (suc k) a q = omega (
  arith,
  double_pow q k,
  bit_and-peel a (q * 2 ^ suc k),
  ap (λ (t : ℕ). bit_and (a / 2) t) half,
  ap (λ (t : ℕ). bit_and t q * 2 ^ suc k) quotient,
  and_shifted k (a / 2) q,
  double_pow (bit_and (a / 2 / 2 ^ k) q) k,
)
  where
    half : q * 2 ^ suc k / 2 ≡ q * 2 ^ k
    half = omega (arith, double_pow q k)

    quotient : a / 2 / 2 ^ k ≡ a / 2 ^ suc k
    quotient = div-div-eq-div-mul a 2 (2 ^ k) ∙ ap (λ (t : ℕ). a / t) (omega (arith, pow-suc 2 k))

or_swap : (n a b : ℕ) → a ≤ n → b ≤ n → bit_or a b ≡ bit_or b a
or_swap zero zero zero h k = refl
or_swap zero zero (suc b) h k = absurd (omega arith)
or_swap zero (suc a) b h k = absurd (omega arith)
or_swap (suc n) a b h k =
    omega (
      arith,
      bit_or-peel a b,
      bit_or-peel b a,
      or_swap n (a / 2) (b / 2) (omega arith) (omega arith),
    )

pub or_comm : (a b : ℕ) → bit_or a b ≡ bit_or b a
or_comm a b = or_swap (a + b) a b (omega arith) (omega arith)

-- A field of w bits at bit k.
pub field_mask : (k w a : ℕ) → bit_and a ((2 ^ w - 1) * 2 ^ k) ≡ a / 2 ^ k % 2 ^ w * 2 ^ k
field_mask k w a = and_shifted k a (2 ^ w - 1) ∙ ap (λ (t : ℕ). t * 2 ^ k) (and_low w (a / 2 ^ k))
