-- ===== src/Crypto/Digest/Absorb.antt =====
-- The block loop: it leaves less than a block, and hashing a list is hashing its parts in turn.
use stice.Base.{
  ℕ, zero, suc, ◌+◌, ◌≤◌, ◌<◌, ◌≡◌, refl, ◌∙◌, inl, inr, List, ◌++◌, arith, length, take, drop,
  length-drop, length-append, drop-append, take-append, leb, leb→le, le→leb, Bool-cases, false,
}
use stice.Crypto.Digest.{absorb}

leb-false : (a b : ℕ) → leb a b ≡ false → b < a
leb-false a b h = ground arith

module _ {H : Type 0} (block : H → List ℕ → H) where
  -- Any fuel that covers the bytes gives the same result.
  pub absorb_fuel :
      (n m : ℕ) (h : H) (xs : List ℕ)
      → length xs ≤ n
      → length xs ≤ m
      → absorb block n h xs ≡ absorb block m h xs
  unfolding absorb
  absorb_fuel zero zero h xs p q = refl
  absorb_fuel zero (suc m) h xs p q = ground arith
  absorb_fuel (suc n) zero h xs p q = ground arith
  absorb_fuel (suc n) (suc m) h xs p q = elim (Bool-cases (leb 64 (length xs))) [
    | inl more ↦ rw more (
        absorb_fuel n m (block h (take 64 xs)) (drop 64 xs)
          (omega (arith, length-drop 64 xs, leb→le 64 (length xs) more))
          (omega (arith, length-drop 64 xs, leb→le 64 (length xs) more)))
    | inr less ↦ rw less
  ]

  -- With enough fuel less than a block is left.
  pub absorb_rest :
      (n : ℕ) (h : H) (xs : List ℕ) → length xs ≤ n → length (absorb block n h xs).1 < 64
  unfolding absorb
  absorb_rest zero h xs p = omega arith
  absorb_rest (suc n) h xs p = elim (Bool-cases (leb 64 (length xs))) [
    | inl more ↦ rw more (
        absorb_rest n (block h (take 64 xs)) (drop 64 xs)
          (omega (arith, length-drop 64 xs, leb→le 64 (length xs) more)))
    | inr less ↦ rw less (leb-false 64 (length xs) less)
  ]

  pub absorb_shrinks : (n : ℕ) (h : H) (xs : List ℕ) → length (absorb block n h xs).1 ≤ length xs
  unfolding absorb
  absorb_shrinks zero h xs = omega arith
  absorb_shrinks (suc n) h xs = elim (Bool-cases (leb 64 (length xs))) [
    | inl more ↦
        let shorter = absorb_shrinks n (block h (take 64 xs)) (drop 64 xs) in
        rw more (omega (arith, shorter, length-drop 64 xs))
    | inr less ↦ rw less (omega arith)
  ]

  -- Less than a block is left alone.
  pub absorb_short : (n : ℕ) (h : H) (xs : List ℕ) → length xs < 64 → absorb block n h xs ≡ (h, xs)
  unfolding absorb
  absorb_short zero h xs p = refl
  absorb_short (suc n) h xs p = ground arith

  pub absorb_step :
      (n : ℕ) (h : H) (xs : List ℕ)
      → 64 ≤ length xs
      → absorb block (suc n) h xs ≡ absorb block n (block h (take 64 xs)) (drop 64 xs)
  unfolding absorb
  absorb_step n h xs p = rw (le→leb 64 (length xs) p)

  absorb_block :
      (m : ℕ) (h : H) (xs ys : List ℕ)
      → 64 ≤ length xs
      → length xs + length ys ≤ m
      → absorb block m h (xs ++ ys) ≡ absorb block m (block h (take 64 xs)) (drop 64 xs ++ ys)
  absorb_block m h xs ys le q =
      absorb_fuel m (suc m) h (xs ++ ys) (omega (arith, length-append xs ys))
        (omega (arith, length-append xs ys))
      ∙ absorb_step m h (xs ++ ys) (omega (arith, length-append xs ys))
      ∙ rw (take-append 64 xs ys le, drop-append 64 xs ys le)

  -- The bytes of `xs` first, and then what they leave together with `ys`.
  pub absorb-append :
      (n m : ℕ) (h : H) (xs ys : List ℕ)
      → length xs ≤ n
      → length xs + length ys ≤ m
      → absorb block m h (xs ++ ys)
        ≡ absorb block m (absorb block n h xs).0 ((absorb block n h xs).1 ++ ys)
  absorb-append zero m h xs ys p q = unfold absorb in refl
  absorb-append (suc n) m h xs ys p q = elim (Bool-cases (leb 64 (length xs))) [
    | inl more ↦
        let le = leb→le 64 (length xs) more in
        rw (absorb_step n h xs le) (
          absorb_block m h xs ys le q
          ∙ absorb-append n m (block h (take 64 xs)) (drop 64 xs) ys
              (omega (arith, length-drop 64 xs)) (omega (arith, length-drop 64 xs)))
    | inr less ↦ rw (absorb_short (suc n) h xs (leb-false 64 (length xs) less))
  ]
