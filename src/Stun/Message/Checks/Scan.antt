-- ===== src/Stun/Message/Checks/Scan.antt =====
-- The loops that look for FINGERPRINT and MESSAGE-INTEGRITY, over a sequence of TLVs.
use stice.Base.{
  ==_ne, ℕ, zero, suc, ◌+◌, ◌≤◌, ◌<◌, ◌≡◌, ◌≢◌, refl, ap, ◌∙◌, arith, true, false, some, List, [],
  ◌∷◌, ◌++◌, append_assoc, length, length-append, drop, All, ◌==◌, leb, le→leb, if◌then◌else◌,
}
use stice.Bytes.{padded_size}
use stice.Stun.Message.{
  Attribute, fingerprint_type, integrity_type, fingerprint_loop, integrity_loop,
}
use stice.Stun.Message.Packet.{IsWire, tlv, tlvs, length-tlv}
use stice.Stun.Message.Decode.{type_at, length_at, next_at}

past_end : (a b : ℕ) → b < a → leb a b ≡ false
past_end a b h = ground arith

module _ (raw : List ℕ) (offset end : ℕ) (a : Attribute) (post : List ℕ) (w : IsWire a)
    (at : drop offset raw ≡ tlv a ++ post) (le : offset + length (tlv a) ≤ end) where
  inside : leb (offset + 4) end ≡ true
  inside = le→leb (offset + 4) end (omega (arith, length-tlv a w.value_fits))

  pub fingerprint_step :
      (fuel start : ℕ)
      → fingerprint_loop (suc fuel) raw offset end start
        ≡ fingerprint_loop fuel raw
            (offset + 4 + padded_size (length a.value))
            end
            (if a.type == fingerprint_type then offset else start)
  unfolding fingerprint_loop
  fingerprint_step fuel start =
      rw (length_at raw offset a post w at, type_at raw offset a post w at, inside) refl

  pub integrity_hit :
      (fuel : ℕ) → a.type ≡ integrity_type → integrity_loop (suc fuel) raw offset end ≡ some offset
  unfolding integrity_loop
  integrity_hit fuel e = rw (type_at raw offset a post w at, inside, e) refl

  pub integrity_miss :
      (fuel : ℕ)
      → a.type ≢ integrity_type
      → integrity_loop (suc fuel) raw offset end
        ≡ integrity_loop fuel raw (offset + 4 + padded_size (length a.value)) end
  unfolding integrity_loop
  integrity_miss fuel ne =
      rw
        (
          length_at raw offset a post w at,
          type_at raw offset a post w at,
          inside,
          ==_ne a.type integrity_type ne,
        )
        refl

  pub step_end : offset + 4 + padded_size (length a.value) ≡ offset + length (tlv a)
  step_end = omega (arith, length-tlv a w.value_fits)

-- At the end the loop keeps what it has found.
fingerprint_end :
    (fuel : ℕ) (raw : List ℕ) (offset end start : ℕ)
    → end < offset + 4
    → fingerprint_loop fuel raw offset end start ≡ start
unfolding fingerprint_loop
fingerprint_end zero raw offset end start h = refl
fingerprint_end (suc fuel) raw offset end start h = rw (past_end (offset + 4) end h) refl

-- A FINGERPRINT behind other attributes, the last one, is the one that is found.
pub fingerprint_loop-last :
    (xs : List Attribute) (fp : Attribute) (fuel : ℕ) (raw : List ℕ) (offset end start : ℕ)
    (post : List ℕ)
    → All IsWire xs
    → IsWire fp
    → fp.type ≡ fingerprint_type
    → length xs < fuel
    → drop offset raw ≡ tlvs xs ++ (tlv fp ++ post)
    → offset + length (tlvs xs) + length (tlv fp) ≡ end
    → fingerprint_loop fuel raw offset end start ≡ offset + length (tlvs xs)
fingerprint_loop-last xs fp zero raw offset end start post w wf e h at le = absurd (omega arith)
fingerprint_loop-last [] fp (suc fuel) raw offset end start post w wf e h at le =
    fingerprint_step raw offset end fp post wf at (omega arith) fuel start
    ∙ fingerprint_end fuel raw _ end _ (omega (arith, length-tlv fp wf.value_fits))
    ∙ rw e (omega arith)
fingerprint_loop-last (a ∷ xs) fp (suc fuel) raw offset end start post w wf e h at le =
    fingerprint_step raw offset end a (tlvs xs ++ (tlv fp ++ post)) w.0 here
      (omega (arith, length-append (tlv a) (tlvs xs))) fuel start
    ∙ fingerprint_loop-last xs fp fuel raw _ end _ post w.1 wf e (omega arith)
        (next_at raw offset a (tlvs xs ++ (tlv fp ++ post)) w.0 here)
        (omega (arith, length-append (tlv a) (tlvs xs), length-tlv a w.0.value_fits))
    ∙ omega (arith, length-append (tlv a) (tlvs xs), length-tlv a w.0.value_fits)
  where
    here : drop offset raw ≡ tlv a ++ (tlvs xs ++ (tlv fp ++ post))
    here = at ∙ append_assoc (tlv a) (tlvs xs) (tlv fp ++ post)

-- The first MESSAGE-INTEGRITY is the one that is found, whatever stands behind it.
pub integrity_loop-first :
    (xs : List Attribute) (mac : Attribute) (fuel : ℕ) (raw : List ℕ) (offset end : ℕ)
    (post : List ℕ)
    → All IsWire xs
    → All (λ (a : Attribute). a.type ≢ integrity_type) xs
    → IsWire mac
    → mac.type ≡ integrity_type
    → length xs < fuel
    → drop offset raw ≡ tlvs xs ++ (tlv mac ++ post)
    → offset + length (tlvs xs) + length (tlv mac) ≤ end
    → integrity_loop fuel raw offset end ≡ some (offset + length (tlvs xs))
integrity_loop-first xs mac zero raw offset end post w ne wm e h at le = absurd (omega arith)
integrity_loop-first [] mac (suc fuel) raw offset end post w ne wm e h at le =
    integrity_hit raw offset end mac post wm at (omega arith) fuel e ∙ ap some (omega arith)
integrity_loop-first (a ∷ xs) mac (suc fuel) raw offset end post w ne wm e h at le =
    integrity_miss raw offset end a (tlvs xs ++ (tlv mac ++ post)) w.0 here
      (omega (arith, length-append (tlv a) (tlvs xs))) fuel ne.0
    ∙ integrity_loop-first xs mac fuel raw _ end post w.1 ne.1 wm e (omega arith)
        (next_at raw offset a (tlvs xs ++ (tlv mac ++ post)) w.0 here)
        (omega (arith, length-append (tlv a) (tlvs xs), length-tlv a w.0.value_fits))
    ∙ ap some (omega (arith, length-append (tlv a) (tlvs xs), length-tlv a w.0.value_fits))
  where
    here : drop offset raw ≡ tlv a ++ (tlvs xs ++ (tlv mac ++ post))
    here = at ∙ append_assoc (tlv a) (tlvs xs) (tlv mac ++ post)
