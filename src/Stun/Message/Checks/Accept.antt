-- ===== src/Stun/Message/Checks/Accept.antt =====
-- The receiver's checks on a packet that is cut at the attribute that they look for.
use Prim.Native.Nat.{bit_xor}
use stice.Base.{
  ℕ, ◌+◌, ◌-◌, ◌%◌, ◌^◌, ◌≤◌, ◌<◌, ◌≡◌, ◌≢◌, refl, ap, sym, ◌∙◌, arith, Bool, true, false, Option,
  some, List, ◌++◌, append_assoc, length, length-append, take, drop, take-length_append, drop-drop,
  drop-length_append, All, ◌==◌, ge→ltb, ==-refl, list_eq_refl,
}
use stice.Base.Bits.{xor-xor, xor-lt}
use stice.Bytes.{IsByte, read_u32_be, write_u16_be, write_u32_be}
use stice.Bytes.Laws.{padded_size-least, read-write_u32, length-write_u32_be}
use stice.Crypto.Crc32.{crc32}
use stice.Crypto.Crc32.Bitwise.{crc32-lt}
use stice.Crypto.Hmac.Laws.{length-hmac_sha1}
use stice.Stun.Message.{
  Attribute, Credentials, Message, fingerprint_xor, integrity_type, check_fingerprint,
  check_integrity, find_integrity_offset, matches_integrity, integrity_key, patch_length,
}
use stice.Stun.Message.Packet.{
  IsWire, tlv, tlvs, padding, packet, packet-bytes, length-packet, length-tlv,
  fingerprint_attribute, mac_attribute,
}
use stice.Stun.Message.Encode.{patch_packet}
use stice.Stun.Message.Decode.{IsSendable, packet_length, packet_body, length-tlvs_ge}
use stice.Stun.Message.Checks.Scan.{fingerprint_loop-last, integrity_loop-first}

not_zero : (k : ℕ) → (20 + k == 0) ≡ false
not_zero k = ground arith

-- A packet that is cut at one of its attributes.
abbrev cut : List Attribute → ℕ
cut xs = 20 + length (tlvs xs)

abbrev pub packet_with : Message → ℕ → List Attribute → Attribute → List ℕ → List ℕ
packet_with m n xs a post = packet m n xs ++ (tlv a ++ post)

module _ (m : Message) (n : ℕ) (xs : List Attribute) (a : Attribute) (post : List ℕ)
    (s : IsSendable m) where
  abbrev cut_at : ℕ
  cut_at = cut xs

  abbrev whole : List ℕ
  whole = packet_with m n xs a post

  cut_front : take cut_at whole ≡ packet m n xs
  cut_front =
      take-length_append cut_at (packet m n xs) (tlv a ++ post)
        (omega (arith, length-packet m n xs s.id_size))

  cut_back : drop cut_at whole ≡ tlv a ++ post
  cut_back =
      drop-length_append cut_at (packet m n xs) (tlv a ++ post)
        (omega (arith, length-packet m n xs s.id_size))

  cut_body : drop 20 whole ≡ tlvs xs ++ (tlv a ++ post)
  cut_body = packet_body m n xs (tlv a ++ post) s

  length-whole : length whole ≡ 20 + length (tlvs xs) + length (tlv a) + length post
  length-whole = omega (
    arith,
    length-packet m n xs s.id_size,
    length-append (packet m n xs) (tlv a ++ post),
    length-append (tlv a) post,
  )

  value_bytes : drop (cut_at + 4) whole ≡ a.value ++ (padding a.value ++ post)
  unfolding write_u16_be
  value_bytes =
      drop-drop cut_at 4 whole ∙ ap (drop 4) cut_back ∙ append_assoc a.value (padding a.value) post

  front_patched :
      (k : ℕ)
      → patch_length (take cut_at whole) (cut_at - 20 + 4 + k)
        ≡ packet m ((length (tlvs xs) + (4 + k)) % 2 ^ 16) xs
  front_patched k =
      ap (λ (t : List ℕ). patch_length t (cut_at - 20 + 4 + k)) cut_front
      ∙ patch_packet m s.id_size n (cut_at - 20 + 4 + k) xs
      ∙ ap (λ (j : ℕ). packet m (j % 2 ^ 16) xs) (omega arith)

module _ (m : Message) (xs : List Attribute) (post : List ℕ) (s : IsSendable m)
    (wx : All IsWire xs) where
  -- FINGERPRINT behind the attributes xs, at the end of the message.
  module _ (bytes : All IsByte m.transaction_id) (n : ℕ) (size : n < 2 ^ 16) where
    abbrev fp : Attribute
    fp = fingerprint_attribute m xs

    abbrev crc : ℕ
    crc = crc32 (packet m ((length (tlvs xs) + 8) % 2 ^ 16) xs)

    crc-lt : crc < 2 ^ 32
    crc-lt = crc32-lt (packet m _ xs) (packet-bytes m _ xs bytes wx)

    stored :
        read_u32_be (write_u32_be (bit_xor crc fingerprint_xor) ++ (padding fp.value ++ post))
        ≡ bit_xor crc fingerprint_xor
    stored =
        read-write_u32 (bit_xor crc fingerprint_xor) _
          (xor-lt 32 crc fingerprint_xor crc-lt (omega arith))

    pub check_fingerprint-packet :
        IsWire fp
        → n ≡ length (tlvs xs) + length (tlv fp)
        → (r : Message) (allow : Bool) → r.raw ≡ packet_with m n xs fp post
        → check_fingerprint r allow ≡ true
    unfolding check_fingerprint
    check_fingerprint-packet wf e r allow raw = rw raw (
        rw (packet_length m n xs (tlv fp ++ post) s size) (
          rw
            (fingerprint_loop-last xs fp (length (packet_with m n xs fp post))
              (packet_with m n xs fp post) 20 (20 + n) 0 post wx wf refl
              (omega (arith, length-whole m n xs fp post s, length-tlvs_ge xs wx))
              (cut_body m n xs fp post s) (omega arith))
            (rw
              (
                not_zero (length (tlvs xs)),
                ge→ltb (length (packet_with m n xs fp post)) (cut xs + 4 + 4) (
                    omega (
                      arith,
                      length-whole m n xs fp post s,
                      length-tlv fp wf.value_fits,
                      length-write_u32_be (bit_xor crc fingerprint_xor),
                      padded_size-least (length fp.value),
                    )),
                front_patched m n xs fp post s 4,
                value_bytes m n xs fp post s,
                stored,
                xor-xor,
              )
              (==-refl crc))))

  -- MESSAGE-INTEGRITY behind the attributes xs, which hold no other; anything may follow.
  module _ (p : List ℕ) (creds : Option Credentials) (n : ℕ) (size : n < 2 ^ 16) where
    abbrev mac : Attribute
    mac = mac_attribute m p creds xs

    module _ (wm : IsWire mac) (ne : All (λ (a : Attribute). a.type ≢ integrity_type) xs)
        (le : length (tlvs xs) + length (tlv mac) ≤ n) where
      twenty : length mac.value ≡ 20
      twenty = length-hmac_sha1 _ _

      -- The offset that is found is the attribute's.
      found :
          (r : Message)
          → r.raw ≡ packet_with m n xs mac post
          → find_integrity_offset r ≡ some (cut xs)
      unfolding find_integrity_offset
      found r raw = rw raw (
          rw (packet_length m n xs (tlv mac ++ post) s size) (
            integrity_loop-first xs mac (length (packet_with m n xs mac post))
              (packet_with m n xs mac post) 20 (20 + n) post wx ne wm refl
              (omega (
                arith,
                length-whole m n xs mac post s,
                length-tlvs_ge xs wx,
                length-tlv mac wm.value_fits,
              ))
              (cut_body m n xs mac post s) (omega arith)))

      matched :
          (r : Message)
          → r.raw ≡ packet_with m n xs mac post
          → matches_integrity r (integrity_key p creds) (cut xs) ≡ true
      unfolding matches_integrity
      matched r raw = rw raw (
          rw
            (
              ge→ltb (length (packet_with m n xs mac post)) (cut xs + 4 + 20) (
                  omega (
                    arith,
                    length-whole m n xs mac post s,
                    length-tlv mac wm.value_fits,
                    twenty,
                    padded_size-least (length mac.value),
                  )),
              front_patched m n xs mac post s 20,
              value_bytes m n xs mac post s,
              take-length_append 20 mac.value (padding mac.value ++ post) (sym twenty),
            )
            (list_eq_refl mac.value))

      pub check_integrity-packet :
          (r : Message) (allow : Bool)
          → r.raw ≡ packet_with m n xs mac post
          → check_integrity r (integrity_key p creds) allow ≡ true
      unfolding check_integrity
      check_integrity-packet r allow raw = rw (found r raw, check_integrity) (matched r raw)
