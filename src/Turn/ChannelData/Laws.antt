-- ===== src/Turn/ChannelData/Laws.antt =====
-- ChannelData: what is wrapped is unwrapped, and is never taken for a STUN message.
use Prim.Native.Nat.{bit_and}
use stice.Base.{
  ℕ, ◌+◌, ◌-◌, ◌/◌, ◌%◌, ◌^◌, min, append_assoc, ge→ltb, ◌≤◌, ◌<◌, ◌≡◌, refl, ap, ◌∙◌, arith, true,
  false, some, List, ◌∷◌, ◌++◌, length, length-append, length-replicate, take, drop, replicate,
  take-length_append,
}
use stice.Base.Bits.{and_low, or_disjoint, field_mask}
use stice.Bytes.{padded_size, byte_at, read_u16_be}
use stice.Bytes.Laws.{read_u16_be-sum, padded_size-least}
use stice.Stun.Message.{is_message}
use stice.Turn.ChannelData.{
  channel_valid, is_channel_data, wrap_channel_data, Unwrapped, unwrap_channel_data,
  random_channel_number,
}

-- The frame that `wrapChannelData` writes.
abbrev pub wrapped : ℕ → List ℕ → List ℕ
wrapped channel bytes =
    channel / 2 ^ 8 % 256
    ∷ bit_and channel 0xff
    ∷ length bytes / 2 ^ 8 % 256
    ∷ bit_and (length bytes) 0xff
    ∷ (bytes ++ replicate (padded_size (length bytes) - length bytes) 0)

pub wrap-wrapped :
    (channel : ℕ) (bytes : List ℕ)
    → channel_valid channel ≡ true
    → length bytes < 2 ^ 16
    → wrap_channel_data channel bytes ≡ some (wrapped channel bytes)
unfolding wrap_channel_data
wrap-wrapped channel bytes valid fits = ground arith

word :
    (v : ℕ) (rest : List ℕ) → v < 2 ^ 16 → read_u16_be (v / 2 ^ 8 % 256 ∷ bit_and v 0xff ∷ rest) ≡ v
word v rest h = omega (arith, and_low 8 v, read_u16_be-sum (v / 2 ^ 8 % 256) (bit_and v 0xff) rest)

valid_range : (c : ℕ) → channel_valid c ≡ true → (0x4000 ≤ c) × (c < 0x8000)
unfolding channel_valid
valid_range c h = ground arith

pub length-wrapped :
    (channel : ℕ) (bytes : List ℕ)
    → length bytes < 2 ^ 16
    → length (wrapped channel bytes) ≡ 4 + padded_size (length bytes)
length-wrapped channel bytes fits = omega (
  arith,
  length-append bytes (replicate (padded_size (length bytes) - length bytes) 0),
  length-replicate {A = ℕ} (padded_size (length bytes) - length bytes) 0,
  padded_size-least (length bytes),
)

module _ (channel : ℕ) (bytes rest : List ℕ) where
  pub wrapped-channel :
      channel_valid channel ≡ true → read_u16_be (wrapped channel bytes ++ rest) ≡ channel
  wrapped-channel valid = word channel _ (omega (arith, valid_range channel valid))

  pub wrapped-length :
      length bytes < 2 ^ 16 → read_u16_be (drop 2 (wrapped channel bytes ++ rest)) ≡ length bytes
  wrapped-length fits = word (length bytes) _ fits

  wrapped_size :
      length bytes < 2 ^ 16
      → length (wrapped channel bytes ++ rest) ≡ 4 + padded_size (length bytes) + length rest
  wrapped_size fits =
      omega (arith, length-append (wrapped channel bytes) rest, length-wrapped channel bytes fits)

-- What `unwrapChannelData` answers once its tests are passed.
accepted :
    (buf : List ℕ) (outs : Unwrapped) (channel len : ℕ)
    → read_u16_be buf ≡ channel
    → read_u16_be (drop 2 buf) ≡ len
    → channel_valid channel ≡ true
    → 4 + len ≤ length buf
    → unwrap_channel_data buf outs ≡ (
      len,
      record {
        channel = channel;
        out_data = drop 4 buf;
        frame_size = 4 + min (padded_size len) (length buf - 4);
      },
    )
unfolding unwrap_channel_data
accepted buf outs channel len c l valid size =
    rw (c, l, valid, ge→ltb (length buf) 4 (omega arith), ge→ltb (length buf - 4) len (omega arith))
      refl

-- A wrapped frame unwraps to its channel, the size of its data, a pointer whose first bytes are the
-- data, and the size of the whole frame; this also with further bytes behind it.
pub unwrap-wrap :
    (channel : ℕ) (bytes rest : List ℕ) (outs : Unwrapped)
    → channel_valid channel ≡ true
    → length bytes < 2 ^ 16
    → let result = unwrap_channel_data (wrapped channel bytes ++ rest) outs in
      (wrap_channel_data channel bytes ≡ some (wrapped channel bytes))
      × (result.0 ≡ length bytes)
      × (result.1.channel ≡ channel)
      × (take (length bytes) result.1.out_data ≡ bytes)
      × (result.1.frame_size ≡ length (wrapped channel bytes))
unwrap-wrap channel bytes rest outs valid fits =
    rw
      (accepted (wrapped channel bytes ++ rest) outs channel (length bytes)
        (wrapped-channel channel bytes rest valid) (wrapped-length channel bytes rest fits) valid
        (omega (arith, wrapped_size channel bytes rest fits, padded_size-least (length bytes))))
      (
        wrap-wrapped channel bytes valid fits,
        refl,
        refl,
        ap (take (length bytes)) (append_assoc bytes _ rest)
            ∙ take-length_append (length bytes) bytes _ refl,
        omega (arith, length-wrapped channel bytes fits, wrapped_size channel bytes rest fits),
      )

-- The first byte separates the two: nothing is both a ChannelData frame and a STUN message.
pub is_channel_data-is_message :
    (bytes : List ℕ)
    → byte_at bytes 0 < 256
    → is_channel_data bytes ≡ true
    → is_message bytes ≡ false
unfolding is_channel_data is_message
is_channel_data-is_message bytes byte h = ground (arith, field_mask 6 2 (byte_at bytes 0))

-- A wrapped frame is recognised as ChannelData, with any bytes behind it.
pub is_channel_data-wrapped :
    (channel : ℕ) (bytes rest : List ℕ)
    → channel_valid channel ≡ true
    → length bytes < 2 ^ 16
    → is_channel_data (wrapped channel bytes ++ rest) ≡ true
unfolding is_channel_data
is_channel_data-wrapped channel bytes rest valid fits = ground (
  arith,
  valid_range channel valid,
  wrapped-length channel bytes rest fits,
  wrapped_size channel bytes rest fits,
  padded_size-least (length bytes),
)

-- A random channel number is in the range that the protocol allows, for every random word.
pub random_channel_number-channel_valid : (r : ℕ) → channel_valid (random_channel_number r) ≡ true
unfolding channel_valid random_channel_number
random_channel_number-channel_valid r =
    ground (arith, and_low 14 r, or_disjoint 14 1 (bit_and r 0x3fff))
