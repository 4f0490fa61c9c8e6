-- ===== src/Turn/ChannelData.antt =====
-- include/stice/turn/channeldata.hpp and src/turn/channeldata.cpp: ChannelData frames.
pub mod Laws
use Prim.Native.Nat.{bit_and, bit_or}
use stice.Base.{
  ℕ, ◌+◌, ◌-◌, ◌*◌, ◌/◌, ◌%◌, ◌^◌, min, Bool, true, false, not, ◌&&◌, ◌||◌, Option, none, some,
  List, [], ◌∷◌, ◌++◌, length, drop, replicate, ltb, leb, if◌then◌else◌,
}
use stice.Bytes.{padded_size, byte_at, read_u16_be}

abbrev pub channel_min : ℕ
channel_min = 0x4000

abbrev pub channel_max : ℕ
channel_max = 0x7fff

unfoldable pub channel_valid : ℕ → Bool
channel_valid c = leb channel_min c && leb c channel_max

unfoldable pub is_channel_data : List ℕ → Bool
is_channel_data bytes =
    if ltb (length bytes) 4
    then false
    else if ltb (byte_at bytes 0) 0x40 || ltb 0x7f (byte_at bytes 0)
    then false
    else leb (read_u16_be (drop 2 bytes) + 4) (length bytes)

-- `out` after the call, whose size is the result; `none` is the result 0, with `out` as it was.
unfoldable pub wrap_channel_data : ℕ → List ℕ → Option (List ℕ)
wrap_channel_data channel bytes =
    let size = length bytes in
    if not (channel_valid channel)
    then none
    else if ltb 0xffff size
    then none
    else some (
        channel / 2 ^ 8 % 256
        ∷ bit_and channel 0xff
        ∷ size / 2 ^ 8 % 256
        ∷ bit_and size 0xff
        ∷ (bytes ++ replicate (padded_size size - size) 0))

-- The out parameters of `unwrapChannelData`; the pointer is the suffix that it points at.
pub record Unwrapped : Type 0 where
  pub channel : ℕ
  pub out_data : List ℕ
  pub frame_size : ℕ

-- The result and the out parameters after the call.
unfoldable pub unwrap_channel_data : List ℕ → Unwrapped → ℕ × Unwrapped
unwrap_channel_data buf outs =
    let seen : Unwrapped = record outs { channel = read_u16_be buf } in
    let len = read_u16_be (drop 2 buf) in
    if ltb (length buf) 4
    then (0, outs)
    else if not (channel_valid (read_u16_be buf))
    then (0, seen)
    else if ltb (length buf - 4) len
    then (0, seen)
    else (
      len,
      record seen {
        out_data = drop 4 buf;
        frame_size = 4 + min (padded_size len) (length buf - 4);
      },
    )

-- `randomU32` is the argument.
unfoldable pub random_channel_number : ℕ → ℕ
random_channel_number r = bit_or channel_min (bit_and r 0x3fff) % 2 ^ 16
