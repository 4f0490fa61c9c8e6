-- ===== src/Crypto/Digest/Padding.antt =====
-- The final functions: the padding loop ends, and the digest is that of the padded message.
use stice.Base.{
  ℕ, zero, suc, ◌+◌, ◌-◌, ◌*◌, ◌/◌, ◌%◌, ◌^◌, ◌≤◌, ◌<◌, ◌≡◌, ap, sym, ◌∙◌, inl, inr, List, [], ◌∷◌,
  ◌++◌, arith, length, take, drop, length-drop, length-append, length-replicate, append-nil, ◌==◌,
  leb, leb→le, Bool-cases, replicate, true, false,
}
use mathlib.Core.List.{foldl}
use stice.Crypto.Digest.{Ctx, absorb, update, pad_zeros, finish}
use stice.Crypto.Digest.Absorb.{absorb_short, absorb_step}
use stice.Crypto.Digest.Chunks.{absorbed, update_lem, update_buffers, update-update}

-- The zeros between the byte 0x80 and the length, for a message of n bytes.
abbrev pub pad_count : ℕ → ℕ
pad_count n = (119 - n % 64) % 64

-- The message with its padding, as RFC 1321 and FIPS 180-4 define it.
abbrev pub padded : (ℕ → List ℕ) → List ℕ → List ℕ
padded length_bytes message =
    message
    ++ (0x80
        ∷ (replicate (pad_count (length message)) 0 ++ length_bytes (length message * 8 % 2 ^ 64)))

-- The first k blocks of 64 bytes.
abbrev pub blocks : ℕ → List ℕ → List (List ℕ)
blocks zero bytes = []
blocks (suc k) bytes = take 64 bytes ∷ blocks k (drop 64 bytes)

module _ {H : Type 0} (block : H → List ℕ → H) where
  absorb_rest_mod :
      (n : ℕ) (h : H) (xs : List ℕ)
      → length xs ≤ n
      → length (absorb block n h xs).1 ≡ length xs % 64
  unfolding absorb
  absorb_rest_mod zero h xs p = omega arith
  absorb_rest_mod (suc n) h xs p = elim (Bool-cases (leb 64 (length xs))) [
    | inl more ↦
        let le = leb→le 64 (length xs) more in
        let fewer = length-drop 64 xs in
        let rest =
          absorb_rest_mod n (block h (take 64 xs)) (drop 64 xs) (omega (arith, fewer, le)) in
        rw more (omega (arith, rest, fewer, le))
    | inr less ↦ rw less (ground arith)
  ]

  -- A whole number of blocks is hashed block by block, with nothing left.
  absorb-blocks :
      (n k : ℕ) (h : H) (xs : List ℕ)
      → 64 * k ≡ length xs
      → length xs ≤ n
      → absorb block n h xs ≡ (foldl block h (blocks k xs), [])
  absorb-blocks n zero h [] e le = absorb_short block n h [] (omega arith)
  absorb-blocks n zero h (x ∷ xs) e le = absurd (omega arith)
  absorb-blocks zero (suc k) h xs e le = absurd (omega arith)
  absorb-blocks (suc n) (suc k) h xs e le =
      absorb_step block n h xs (omega arith)
      ∙ absorb-blocks n k (block h (take 64 xs)) (drop 64 xs) (omega (arith, length-drop 64 xs))
          (omega (arith, length-drop 64 xs))

  update_mod :
      (c : Ctx H) (xs : List ℕ)
      → length c.buf < 64
      → length (update block c xs).buf ≡ (length c.buf + length xs) % 64
  update_mod c xs lt = rw (update_lem block c xs lt) (
      omega (
        arith,
        absorb_rest_mod (length (c.buf ++ xs)) c.h (c.buf ++ xs) (omega arith),
        length-append c.buf xs,
      ))

  update_nothing : (c : Ctx H) → length c.buf < 64 → c.len < 2 ^ 64 → update block c [] ≡ c
  update_nothing c lt small =
      update_lem block c [] lt
      ∙ rw (append-nil c.buf, absorb_short block (length c.buf) c.h c.buf lt)
          (ap (λ (n : ℕ). record { h = c.h; len = n; buf = c.buf }) (omega arith))

  update_len : (c : Ctx H) (xs : List ℕ) → length c.buf < 64 → (update block c xs).len < 2 ^ 64
  update_len c xs lt = rw (update_lem block c xs lt) (omega arith)

  -- The loop feeds exactly the zeros that bring the buffer to 56 bytes.
  pad_zeros_lem :
      (fuel k : ℕ) (c : Ctx H)
      → k < fuel
      → k < 64
      → length c.buf < 64
      → c.len < 2 ^ 64
      → (length c.buf + k) % 64 ≡ 56
      → pad_zeros block fuel c ≡ update block c (replicate k 0)
  unfolding pad_zeros
  pad_zeros_lem zero k c kf k64 lt small e = absurd (omega arith)
  pad_zeros_lem (suc fuel) zero c kf k64 lt small e =
      let full : (length c.buf == 56) ≡ true = ground arith in
      rw full (sym (update_nothing c lt small))
  pad_zeros_lem (suc fuel) (suc k) c kf k64 lt small e =
      let part : (length c.buf == 56) ≡ false = ground arith in
      rw part (
        pad_zeros_lem fuel k (update block c (0 ∷ [])) (omega arith) (omega arith)
          (update_buffers block c (0 ∷ []) lt) (update_len c (0 ∷ []) lt)
          (omega (arith, update_mod c (0 ∷ []) lt))
        ∙ update-update block c (0 ∷ []) (replicate k 0) lt)

  -- The padding loop ends within its 64 rounds, with the buffer at 56 bytes.
  pub pad_zeros_ends :
      (c : Ctx H) → length c.buf < 64 → c.len < 2 ^ 64 → length (pad_zeros block 64 c).buf ≡ 56
  pad_zeros_ends c lt small =
      let k = (120 - length c.buf) % 64 in
      rw (pad_zeros_lem 64 k c (omega arith) (omega arith) lt small (omega arith))
        (omega (arith, update_mod c (replicate k 0) lt, length-replicate {A = ℕ} k 0))

  module _ (length_bytes : ℕ → List ℕ) (init : Ctx H) (fresh : init.buf ≡ [])
      (new : init.len ≡ 0) where
    started : length init.buf < 64
    started = omega (arith, ap length fresh)

    module _ (message : List ℕ) where
      abbrev zeros : List ℕ
      zeros = replicate (pad_count (length message)) 0

      abbrev marked : Ctx H
      marked = update block (update block init message) (0x80 ∷ [])

      hashed-small : length (update block init message).buf < 64
      hashed-small = update_buffers block init message started

      total_bits : (update block init message).len * 8 % 2 ^ 64 ≡ length message * 8 % 2 ^ 64
      total_bits = rw (update_lem block init message started, new) (omega arith)

      marked-zeros : pad_zeros block 64 marked ≡ update block marked zeros
      marked-zeros =
          pad_zeros_lem 64 (pad_count (length message)) marked (omega arith) (omega arith)
            (update_buffers block (update block init message) (0x80 ∷ []) hashed-small)
            (update_len (update block init message) (0x80 ∷ []) hashed-small)
            (omega (
              arith,
              update_mod (update block init message) (0x80 ∷ []) hashed-small,
              update_mod init message started,
              ap length fresh,
            ))

      one_update :
          (tail : List ℕ)
          → update block (update block marked zeros) tail
            ≡ update block init (message ++ (0x80 ∷ (zeros ++ tail)))
      one_update tail =
          update-update block marked zeros tail
            (update_buffers block (update block init message) (0x80 ∷ []) hashed-small)
          ∙ update-update block (update block init message) (0x80 ∷ []) (zeros ++ tail) hashed-small
          ∙ update-update block init message (0x80 ∷ (zeros ++ tail)) started

      -- The digest of a message: the state is the block function run over the padded message from
      -- the initial words.
      pub finish-update :
          finish block length_bytes (update block init message)
          ≡ absorbed block init.h
              (length (padded length_bytes message) % 2 ^ 64)
              (padded length_bytes message)
      unfolding finish
      finish-update =
          rw (marked-zeros, total_bits)
            (one_update (length_bytes (length message * 8 % 2 ^ 64))
              ∙ update_lem block init (padded length_bytes message) started
              ∙ rw (fresh, new)
                  (ap (λ (n : ℕ). absorbed block init.h (n % 2 ^ 64) (padded length_bytes message))
                    (omega arith)))

      length-padded :
          ((n : ℕ) → length (length_bytes n) ≡ 8)
          → 64 * (length (padded length_bytes message) / 64) ≡ length (padded length_bytes message)
      length-padded eight = omega (
        arith,
        length-append message (0x80 ∷ (zeros ++ length_bytes (length message * 8 % 2 ^ 64))),
        length-append zeros (length_bytes (length message * 8 % 2 ^ 64)),
        length-replicate {A = ℕ} (pad_count (length message)) 0,
        eight (length message * 8 % 2 ^ 64),
      )

      -- Hashing a message and finishing runs the block function over the 64-byte blocks of the
      -- padded message, in order, from the initial words.
      pub finish-blocks :
          ((n : ℕ) → length (length_bytes n) ≡ 8)
          → (finish block length_bytes (update block init message)).h
            ≡ foldl block init.h
                (blocks (length (padded length_bytes message) / 64) (padded length_bytes message))
      finish-blocks eight = rw finish-update (
          ap (λ (p : H × List ℕ). p.0)
            (absorb-blocks _ _ init.h (padded length_bytes message) (length-padded eight)
              (omega arith)))
