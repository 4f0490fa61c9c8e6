-- ===== src/Crypto/Digest/Chunks.antt =====
-- The update functions: what they keep, and that the result does not depend on how the input is cut.
use stice.Base.{
  ℕ, zero, suc, ◌+◌, ◌-◌, ◌%◌, ◌^◌, ◌≤◌, ◌<◌, ◌≡◌, refl, ap, sym, ◌∙◌, inl, inr, List, [], ◌∷◌,
  ◌++◌, arith, length, take, drop, length-take, length-append, take-length_append,
  drop-length_append, take-append-drop, append_assoc, ◌==◌, Bool-cases, min, if◌then◌else◌, true,
  false,
}
use mathlib.Core.Path.{ap₂}
use stice.Crypto.Digest.{Ctx, absorb, absorb_all, refill, update}
use stice.Crypto.Digest.Absorb.{
  absorb_rest, absorb_short, absorb_step, absorb_fuel, absorb-append, absorb_shrinks,
}

==_true : (a b : ℕ) → (a == b) ≡ true → a ≡ b
==_true a b h = ground arith

==_false : (a b : ℕ) → (a == b) ≡ false → a ≡ b → ⊥
==_false a b h e = ground arith

nothing_left : (xs : List ℕ) → length xs ≡ 0 → xs ≡ []
nothing_left [] e = refl
nothing_left (x ∷ xs) e = absurd (omega arith)

keep_rest : (xs : List ℕ) → (if length xs == 0 then [] else xs) ≡ xs
keep_rest [] = refl
keep_rest (x ∷ xs) = ground arith

take-all : (n : ℕ) (xs : List ℕ) → length xs ≤ n → take n xs ≡ xs
take-all zero [] h = refl
take-all zero (x ∷ xs) h = absurd (omega arith)
take-all (suc n) [] h = refl
take-all (suc n) (x ∷ xs) h = ap (◌∷◌ x) (take-all n xs (omega arith))

drop-all : (n : ℕ) (xs : List ℕ) → length xs ≤ n → drop n xs ≡ []
drop-all zero [] h = refl
drop-all zero (x ∷ xs) h = absurd (omega arith)
drop-all (suc n) [] h = refl
drop-all (suc n) (x ∷ xs) h = drop-all n xs (omega arith)

module _ {H : Type 0} (block : H → List ℕ → H) where
  -- The state that has hashed the whole blocks of `bytes` and buffers the rest.
  abbrev pub absorbed : H → ℕ → List ℕ → Ctx H
  absorbed h total bytes = record {
    h = (absorb block (length bytes) h bytes).0;
    len = total;
    buf = (absorb block (length bytes) h bytes).1;
  }

  absorb_all_lem :
      (h : H) (total : ℕ) (bytes : List ℕ)
      → absorb_all block h total [] bytes ≡ absorbed h total bytes
  unfolding absorb_all
  absorb_all_lem h total bytes =
      ap
        (λ (b : List ℕ). record {
          h = (absorb block (length bytes) h bytes).0;
          len = total;
          buf = b;
        })
        (keep_rest (absorb block (length bytes) h bytes).1)

  refill_full :
      (h : H) (total : ℕ) (full more : List ℕ)
      → length full ≡ 64
      → absorbed (block h full) total more ≡ absorbed h total (full ++ more)
  refill_full h total full more e = rw one refl
    where
      k : ℕ
      k = length (full ++ more)

      one :
          absorb block (length (full ++ more)) h (full ++ more)
          ≡ absorb block (length more) (block h full) more
      one =
          absorb_fuel block k (suc k) h (full ++ more) (omega arith) (omega arith)
          ∙ absorb_step block k h (full ++ more) (omega (arith, length-append full more))
          ∙ rw
              (
                take-length_append 64 full more (omega arith),
                drop-length_append 64 full more (omega arith),
              )
              (absorb_fuel block k (length more) (block h full) more
                (omega (arith, length-append full more)) (omega arith))

  absorb_nothing :
      (h : H) (total : ℕ) (buf : List ℕ)
      → length buf < 64
      → absorb_all block h total buf [] ≡ absorbed h total buf
  unfolding absorb_all absorb
  absorb_nothing h total buf lt = rw (absorb_short block (length buf) h buf lt)

  module _ (h : H) (total : ℕ) (buf bytes : List ℕ) (lt : length buf < 64) where
    abbrev cut : ℕ
    cut = min (64 - length buf) (length bytes)

    length-full : length (buf ++ take cut bytes) ≡ length buf + cut
    length-full = omega (arith, length-append buf (take cut bytes), length-take cut bytes)

    refill_block :
        length (buf ++ take cut bytes) ≡ 64
        → absorb_all block (block h (buf ++ take cut bytes)) total [] (drop cut bytes)
          ≡ absorbed h total (buf ++ bytes)
    refill_block e =
        absorb_all_lem _ total (drop cut bytes)
        ∙ refill_full h total (buf ++ take cut bytes) (drop cut bytes) e
        ∙ ap (absorbed h total) (
            append_assoc buf (take cut bytes) (drop cut bytes)
            ∙ ap (◌++◌ buf) (take-append-drop cut bytes))

    refill_part :
        (length (buf ++ take cut bytes) ≡ 64 → ⊥)
        → absorb_all block h total (buf ++ take cut bytes) (drop cut bytes)
          ≡ absorbed h total (buf ++ bytes)
    refill_part ne =
        rw
          (
            take-all cut bytes (omega (arith, length-full)),
            drop-all cut bytes (omega (arith, length-full)),
          )
          (absorb_nothing h total (buf ++ bytes)
            (omega (arith, length-full, length-append buf bytes)))

    refill_lem : refill block h total buf bytes ≡ absorbed h total (buf ++ bytes)
    unfolding refill
    refill_lem = elim (Bool-cases (length (buf ++ take cut bytes) == 64)) [
      | inl full ↦ rw full (refill_block (==_true _ _ full))
      | inr part ↦ rw part (refill_part (==_false _ _ part))
    ]

  -- An update hashes the whole blocks of what was buffered with what is new, and buffers the rest.
  pub update_lem :
      (c : Ctx H) (bytes : List ℕ)
      → length c.buf < 64
      → update block c bytes ≡ absorbed c.h ((c.len + length bytes) % 2 ^ 64) (c.buf ++ bytes)
  unfolding update
  update_lem c bytes lt = elim (Bool-cases (length c.buf == 0)) [
    | inl empty ↦ rw (empty, nothing_left c.buf (==_true _ _ empty)) (absorb_all_lem c.h _ bytes)
    | inr more ↦ rw more (refill_lem c.h _ c.buf bytes lt)
  ]

  -- A buffer that holds less than a block does so after every update.
  pub update_buffers :
      (c : Ctx H) (bytes : List ℕ) → length c.buf < 64 → length (update block c bytes).buf < 64
  update_buffers c bytes lt =
      rw (update_lem c bytes lt)
        (absorb_rest block (length (c.buf ++ bytes)) c.h (c.buf ++ bytes) (omega arith))

  absorbed-append :
      (h : H) (t u : ℕ) (xs ys : List ℕ)
      → absorbed (absorbed h t xs).h u ((absorbed h t xs).buf ++ ys) ≡ absorbed h u (xs ++ ys)
  absorbed-append h t u xs ys =
      ap (λ (p : H × List ℕ). record { h = p.0; len = u; buf = p.1 }) (sym again)
    where
      rest : List ℕ
      rest = (absorb block (length xs) h xs).1

      again :
          absorb block (length (xs ++ ys)) h (xs ++ ys)
          ≡ absorb block (length (rest ++ ys)) (absorb block (length xs) h xs).0 (rest ++ ys)
      again =
          absorb-append block (length xs) (length (xs ++ ys)) h xs ys (omega arith)
            (omega (arith, length-append xs ys))
          ∙ absorb_fuel block (length (xs ++ ys)) (length (rest ++ ys)) _ (rest ++ ys)
              (omega (
                arith,
                length-append xs ys,
                length-append rest ys,
                absorb_shrinks block (length xs) h xs,
              ))
              (omega arith)

  -- Two updates are one with the two inputs in a row: how a caller cuts its input changes nothing.
  pub update-update :
      (c : Ctx H) (xs ys : List ℕ)
      → length c.buf < 64
      → update block (update block c xs) ys ≡ update block c (xs ++ ys)
  update-update c xs ys lt =
      update_lem (update block c xs) ys (update_buffers c xs lt)
      ∙ rw (update_lem c xs lt, update_lem c (xs ++ ys) lt)
          (absorbed-append c.h 0 _ (c.buf ++ xs) ys
            ∙ ap₂ (absorbed c.h) total (append_assoc c.buf xs ys))
    where
      total :
          ((c.len + length xs) % 2 ^ 64 + length ys) % 2 ^ 64 ≡ (c.len + length (xs ++ ys)) % 2 ^ 64
      total = omega (arith, length-append xs ys)
