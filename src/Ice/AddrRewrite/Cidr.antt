-- ===== src/Ice/AddrRewrite/Cidr.antt =====
-- The CIDR test compares the leading bits of two addresses.
use Prim.Native.Nat.{bit_and}
use stice.Base.{
  ℕ, zero, suc, ◌+◌, ◌-◌, ◌*◌, ◌/◌, ◌^◌, ◌≤◌, ◌<◌, ◌≡◌, ◌↔◌, refl, ap, sym, ◌∙◌, arith, true, List,
  ge→ltb, ==_iff,
}
use stice.Base.Bits.{field_mask}
use stice.Bytes.{read_u32_be}
use stice.Ice.AddrRewrite.Text.{mask_v4, same_prefix_v4}
use native.Mathlib.Nat.{pow-suc, mod-eq_of_lt, div-lt_iff_lt-mul, one-le-pow, mul-div_cancel}

pow-split : (p k : ℕ) → 2 ^ p * 2 ^ k ≡ 2 ^ (p + k)
pow-split zero k = grind arith
pow-split (suc p) k = grind (arith, pow-suc 2 p, pow-suc 2 (p + k), pow-split p k)

-- The mask of the code is p ones in front of 32 - p zeros.
mask_v4-lem : (p : ℕ) → p ≤ 32 → mask_v4 p ≡ (2 ^ p - 1) * 2 ^ (32 - p)
unfolding mask_v4
mask_v4-lem zero h = refl
mask_v4-lem (suc p) h = grind (arith, pow-split (suc p) (32 - suc p))

masked : (a p : ℕ) → p ≤ 32 → a < 2 ^ 32 → bit_and a (mask_v4 p) ≡ a / 2 ^ (32 - p) * 2 ^ (32 - p)
masked a p h lt =
    ap (bit_and a) (mask_v4-lem p h)
    ∙ field_mask (32 - p) p a
    ∙ ap (λ (t : ℕ). t * 2 ^ (32 - p)) (mod-eq_of_lt small)
  where
    room : a < 2 ^ p * 2 ^ (32 - p)
    room = omega (arith, pow-split p (32 - p), ap (λ (t : ℕ). 2 ^ t) whole)
      where
        whole : p + (32 - p) ≡ 32
        whole = omega arith

    small : a / 2 ^ (32 - p) < 2 ^ p
    small = (div-lt_iff_lt-mul (one-le-pow (32 - p) 2 (omega arith))).1 room

-- For IPv4 the test says that the two words agree in their first p bits, for p up to 32.
pub same_prefix_v4_iff :
    (net addr : List ℕ) (p : ℕ)
    → p ≤ 32
    → read_u32_be net < 2 ^ 32
    → read_u32_be addr < 2 ^ 32
    → (same_prefix_v4 net addr p ≡ true)
      ↔ (read_u32_be net / 2 ^ (32 - p) ≡ read_u32_be addr / 2 ^ (32 - p))
unfolding same_prefix_v4
same_prefix_v4_iff net addr p h hn ha =
    rw (ge→ltb 32 p h, masked (read_u32_be net) p h hn, masked (read_u32_be addr) p h ha)
      (
        λ same.
            sym (mul-div_cancel (read_u32_be net / 2 ^ (32 - p)) positive)
            ∙ ap (λ (t : ℕ). t / 2 ^ (32 - p)) ((==_iff _ _).0 same)
            ∙ mul-div_cancel (read_u32_be addr / 2 ^ (32 - p)) positive,
        λ same. (==_iff _ _).1 (ap (λ (t : ℕ). t * 2 ^ (32 - p)) same),
      )
  where
    positive : 0 < 2 ^ (32 - p)
    positive = one-le-pow (32 - p) 2 (omega arith)
