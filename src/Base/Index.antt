-- ===== src/Base/Index.antt =====
-- Elements of a list by their index.
use Prim.Native.Nat.{ℕ, zero, suc, ◌+◌, ◌<◌}
use mathlib.Core.Path.{◌≡◌, refl, ap, subst}
use mathlib.Core.Logic.{◌≢◌, inl, inr}
use mathlib.Core.Bool.{Bool, true}
use mathlib.Core.Option.{Option, none, some}
use mathlib.Core.List.{List, [], ◌∷◌, ◌++◌}
use native.Mathlib.Omega.{arith}
use stice.Base.Tests.{if◌then◌else◌, Bool-cases}
use stice.Base.Lists.{length, All}

add_zero : (j : ℕ) → j + 0 ≡ j
add_zero j = omega arith

add_suc : (j k : ℕ) → j + suc k ≡ suc j + k
add_suc j k = omega arith

module _ {ℓ} {A : Type ℓ} where
  unfoldable pub get_elem? : List A → ℕ → Option A
  get_elem? [] i = none
  get_elem? (x ∷ xs) zero = some x
  get_elem? (x ∷ xs) (suc i) = get_elem? xs i

  -- The list with f applied to the element at i, if there is one.
  unfoldable pub modify : List A → ℕ → (A → A) → List A
  modify [] i f = []
  modify (x ∷ xs) zero f = f x ∷ xs
  modify (x ∷ xs) (suc i) f = x ∷ modify xs i f

  -- The first element that passes the test, with its index, counted from k.
  unfoldable pub find_from : (A → Bool) → List A → ℕ → Option (ℕ × A)
  find_from test [] k = none
  find_from test (x ∷ xs) k =
      let more = find_from test xs (suc k) in if test x then some (k, x) else more

  pub get_elem?-some : (xs : List A) (i : ℕ) → i < length xs → (x : A) × (get_elem? xs i ≡ some x)
  unfolding get_elem?
  get_elem?-some [] i h = absurd (omega arith)
  get_elem?-some (x ∷ xs) zero h = (x, refl)
  get_elem?-some (x ∷ xs) (suc i) h = get_elem?-some xs i (omega arith)

  pub get_elem?_bound : (xs : List A) (i : ℕ) (x : A) → get_elem? xs i ≡ some x → i < length xs
  unfolding get_elem?
  get_elem?_bound [] i x h = cc
  get_elem?_bound (y ∷ xs) zero x h = omega arith
  get_elem?_bound (y ∷ xs) (suc i) x h = omega (arith, get_elem?_bound xs i x h)

  pub get_elem?-append :
      (xs ys : List A) (i : ℕ) (x : A) → get_elem? xs i ≡ some x → get_elem? (xs ++ ys) i ≡ some x
  unfolding get_elem?
  get_elem?-append [] ys i x h = cc
  get_elem?-append (y ∷ xs) ys zero x h = h
  get_elem?-append (y ∷ xs) ys (suc i) x h = get_elem?-append xs ys i x h

  pub get_elem?-last : (xs : List A) (x : A) → get_elem? (xs ++ (x ∷ [])) (length xs) ≡ some x
  unfolding get_elem?
  get_elem?-last [] x = refl
  get_elem?-last (y ∷ xs) x = get_elem?-last xs x

  pub get_elem?-All {κ} :
      (P : A → Type κ) (xs : List A) (i : ℕ) (x : A) → All P xs → get_elem? xs i ≡ some x → P x
  unfolding get_elem?
  get_elem?-All P [] i x p h = cc
  get_elem?-All P (y ∷ xs) zero x p h = subst P (same h) p.0
    where
      same : some y ≡ some x → y ≡ x
      same h = cc
  get_elem?-All P (y ∷ xs) (suc i) x p h = get_elem?-All P xs i x p.1 h

  pub length-modify : (xs : List A) (i : ℕ) (f : A → A) → length (modify xs i f) ≡ length xs
  unfolding modify
  length-modify [] i f = refl
  length-modify (x ∷ xs) zero f = refl
  length-modify (x ∷ xs) (suc i) f = ap (λ (n : ℕ). suc n) (length-modify xs i f)

  pub get_elem?-modify :
      (xs : List A) (i : ℕ) (f : A → A) (x : A)
      → get_elem? xs i ≡ some x
      → get_elem? (modify xs i f) i ≡ some (f x)
  unfolding get_elem? modify
  get_elem?-modify [] i f x h = cc
  get_elem?-modify (y ∷ xs) zero f x h = cc
  get_elem?-modify (y ∷ xs) (suc i) f x h = get_elem?-modify xs i f x h

  pub get_elem?-modify_other :
      (xs : List A) (i j : ℕ) (f : A → A) → j ≢ i → get_elem? (modify xs i f) j ≡ get_elem? xs j
  unfolding get_elem? modify
  get_elem?-modify_other [] i j f h = refl
  get_elem?-modify_other (x ∷ xs) zero zero f h = absurd (h refl)
  get_elem?-modify_other (x ∷ xs) zero (suc j) f h = refl
  get_elem?-modify_other (x ∷ xs) (suc i) zero f h = refl
  get_elem?-modify_other (x ∷ xs) (suc i) (suc j) f h =
      get_elem?-modify_other xs i j f (λ e. h (ap (λ (n : ℕ). suc n) e))

  pub All-modify {κ} :
      (P : A → Type κ) (xs : List A) (i : ℕ) (f : A → A)
      → ((x : A) → P x → P (f x))
      → All P xs
      → All P (modify xs i f)
  unfolding modify
  All-modify P [] i f keep p = tt
  All-modify P (x ∷ xs) zero f keep p = (keep x p.0, p.1)
  All-modify P (x ∷ xs) (suc i) f keep p = (p.0, All-modify P xs i f keep p.1)

  pub find_from_found :
      (test : A → Bool) (all rest : List A) (k j : ℕ) (x : A)
      → ((n : ℕ) (y : A) → get_elem? rest n ≡ some y → get_elem? all (k + n) ≡ some y)
      → find_from test rest k ≡ some (j, x)
      → (get_elem? all j ≡ some x) × (test x ≡ true)
  unfolding find_from get_elem?
  find_from_found test all [] k j x there h = cc
  find_from_found test all (y ∷ rest) k j x there h = elim (Bool-cases (test y)) [
    | inr e ↦ find_from_found test all rest (suc k) j x later (rw e at h)
    | inl e ↦
        let same = pair_eq (rw e at h) in
        rw⁻¹ (same.0, same.1)
          (subst (λ (n : ℕ). get_elem? all n ≡ some y) (add_zero k) (there 0 y refl), e)
  ]
    where
      later : (n : ℕ) (z : A) → get_elem? rest n ≡ some z → get_elem? all (suc k + n) ≡ some z
      later n z h = subst (λ (i : ℕ). get_elem? all i ≡ some z) (add_suc k n) (there (suc n) z h)

      pair_eq : ◌≡◌ {A = Option (ℕ × A)} (some (k, y)) (some (j, x)) → (k ≡ j) × (y ≡ x)
      pair_eq h = (cc, cc)
