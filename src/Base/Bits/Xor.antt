-- ===== src/Base/Bits/Xor.antt =====
-- Exclusive or as a group operation, and digit by digit.
use stice.Base.Bits.Peel.{bit_xor-peel}
use Prim.Native.Nat.{bit_xor, differ, bit_xor-bitwise}
use Prim.Native.Nat.{ℕ, zero, suc, ◌+◌, ◌*◌, ◌/◌, ◌%◌, ◌^◌, ◌≤◌, ◌<◌}
use mathlib.Core.Path.{◌≡◌, refl, sym, ap, ap₂, ◌∙◌}
use native.Mathlib.Nat.{pow-suc, div-div-eq-div-mul}
use native.Mathlib.Omega.{arith}

differ_lt : (x y : ℕ) → x < 2 → y < 2 → differ x y < 2
differ_lt zero y p q = q
differ_lt (suc zero) zero p q = omega arith
differ_lt (suc zero) (suc zero) p q = omega arith
differ_lt (suc zero) (suc (suc y)) p q = absurd (omega arith)
differ_lt (suc (suc x)) y p q = absurd (omega arith)

differ_comm : (x y : ℕ) → differ x y ≡ differ y x
differ_comm zero zero = refl
differ_comm zero (suc y) = refl
differ_comm (suc x) zero = refl
differ_comm (suc x) (suc y) = differ_comm x y

differ_assoc : (x y z : ℕ) → x < 2 → y < 2 → z < 2 → differ (differ x y) z ≡ differ x (differ y z)
differ_assoc zero y z p q r = refl
differ_assoc (suc zero) zero z p q r = refl
differ_assoc (suc zero) (suc zero) zero p q r = refl
differ_assoc (suc zero) (suc zero) (suc zero) p q r = refl
differ_assoc (suc zero) (suc zero) (suc (suc z)) p q r = absurd (omega arith)
differ_assoc (suc zero) (suc (suc y)) z p q r = absurd (omega arith)
differ_assoc (suc (suc x)) y z p q r = absurd (omega arith)

pub xor-half : (a b : ℕ) → bit_xor a b / 2 ≡ bit_xor (a / 2) (b / 2)
xor-half a b =
    omega (arith, bit_xor-peel a b, differ_lt (a % 2) (b % 2) (omega arith) (omega arith))

pub xor-parity : (a b : ℕ) → bit_xor a b % 2 ≡ differ (a % 2) (b % 2)
xor-parity a b =
    omega (arith, bit_xor-peel a b, differ_lt (a % 2) (b % 2) (omega arith) (omega arith))

xor_swap : (n a b : ℕ) → a ≤ n → b ≤ n → bit_xor a b ≡ bit_xor b a
xor_swap zero zero zero h k = refl
xor_swap zero zero (suc b) h k = absurd (omega arith)
xor_swap zero (suc a) b h k = absurd (omega arith)
xor_swap (suc n) a b h k = omega (
  arith,
  bit_xor-peel a b,
  bit_xor-peel b a,
  differ_comm (a % 2) (b % 2),
  xor_swap n (a / 2) (b / 2) (omega arith) (omega arith),
)

pub xor_comm : (a b : ℕ) → bit_xor a b ≡ bit_xor b a
xor_comm a b = xor_swap (a + b) a b (omega arith) (omega arith)

pub zero-xor : (b : ℕ) → bit_xor 0 b ≡ b
zero-xor b = bit_xor-bitwise 0 b

pub xor-zero : (a : ℕ) → bit_xor a 0 ≡ a
xor-zero a = xor_comm a 0 ∙ zero-xor a

pub xor_self : (a : ℕ) → bit_xor a a ≡ 0
xor_self a = go a a (omega arith)
  where
    differ_self : (x : ℕ) → differ x x ≡ 0
    differ_self zero = refl
    differ_self (suc x) = differ_self x

    go : (n a : ℕ) → a ≤ n → bit_xor a a ≡ 0
    go n zero h = refl
    go zero (suc a) h = absurd (omega arith)
    go (suc n) (suc a) h = omega (
      arith,
      bit_xor-peel (suc a) (suc a),
      differ_self (suc a % 2),
      go n (suc a / 2) (omega arith),
    )

xor_regroup :
    (n a b c : ℕ) → a ≤ n → b ≤ n → c ≤ n → bit_xor (bit_xor a b) c ≡ bit_xor a (bit_xor b c)
xor_regroup zero zero b c h k l =
    ap (λ (t : ℕ). bit_xor t c) (zero-xor b) ∙ sym (zero-xor (bit_xor b c))
xor_regroup zero (suc a) b c h k l = absurd (omega arith)
xor_regroup (suc n) a b c h k l = omega (
  arith,
  bit_xor-peel (bit_xor a b) c,
  bit_xor-peel a (bit_xor b c),
  ap (λ (t : ℕ). bit_xor t (c / 2)) (xor-half a b),
  ap (λ (t : ℕ). bit_xor (a / 2) t) (xor-half b c),
  ap (λ (t : ℕ). differ t (c % 2)) (xor-parity a b),
  ap (λ (t : ℕ). differ (a % 2) t) (xor-parity b c),
  differ_assoc (a % 2) (b % 2) (c % 2) (omega arith) (omega arith) (omega arith),
  xor_regroup n (a / 2) (b / 2) (c / 2) (omega arith) (omega arith) (omega arith),
)

pub xor_assoc : (a b c : ℕ) → bit_xor (bit_xor a b) c ≡ bit_xor a (bit_xor b c)
xor_assoc a b c = xor_regroup (a + b + c) a b c (omega arith) (omega arith) (omega arith)

pub xor-div : (k a b : ℕ) → bit_xor a b / 2 ^ k ≡ bit_xor (a / 2 ^ k) (b / 2 ^ k)
xor-div zero a b = omega (arith, ap₂ bit_xor (whole a) (whole b))
  where
    whole : (x : ℕ) → x / 1 ≡ x
    whole x = omega arith
xor-div (suc k) a b =
    deeper (bit_xor a b)
    ∙ ap (λ (t : ℕ). t / 2 ^ k) (xor-half a b)
    ∙ xor-div k (a / 2) (b / 2)
    ∙ ap₂ bit_xor (shallower a) (shallower b)
  where
    shallower : (x : ℕ) → x / 2 / 2 ^ k ≡ x / 2 ^ suc k
    shallower x =
        div-div-eq-div-mul x 2 (2 ^ k) ∙ ap (λ (t : ℕ). x / t) (omega (arith, pow-suc 2 k))

    deeper : (x : ℕ) → x / 2 ^ suc k ≡ x / 2 / 2 ^ k
    deeper x = omega (arith, shallower x)

-- Two numbers whose bits do not meet.
pub xor_disjoint : (k q r : ℕ) → r < 2 ^ k → bit_xor (q * 2 ^ k) r ≡ q * 2 ^ k + r
xor_disjoint zero q zero h = omega (arith, xor-zero (q * 1))
xor_disjoint zero q (suc r) h = absurd (omega arith)
xor_disjoint (suc k) q r h = omega (
  arith,
  twice,
  bit_xor-peel (q * 2 ^ suc k) r,
  ap (λ (t : ℕ). bit_xor t (r / 2)) half,
  ap (λ (t : ℕ). differ t (r % 2)) even,
  xor_disjoint k q (r / 2) (omega (arith, pow-suc 2 k)),
)
  where
    twice : q * 2 ^ suc k ≡ q * 2 ^ k * 2
    twice = omega (arith, ap (λ (t : ℕ). q * t) (pow-suc 2 k))

    half : q * 2 ^ suc k / 2 ≡ q * 2 ^ k
    half = omega (arith, twice)

    even : q * 2 ^ suc k % 2 ≡ 0
    even = omega (arith, twice)
