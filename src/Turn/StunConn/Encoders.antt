-- ===== src/Turn/StunConn/Encoders.antt =====
-- What `Message::encode` and `wrapChannelData` write is one frame of the stream parser.
use stice.Base.{
  ℕ, ◌+◌, ◌^◌, ◌≤◌, ◌<◌, ◌≡◌, ap, sym, ◌∙◌, arith, true, Option, List, [], ◌++◌, append-nil, length,
  drop, All,
}
use stice.Base.Bits.{field_mask}
use stice.Bytes.{padded_size, byte_at, read_u16_be, write_u16_be}
use stice.Bytes.Laws.{padded_size-div}
use stice.Stun.Message.{Attribute, Credentials, Message, is_message, encode}
use stice.Stun.Message.Packet.{IsWire, packet, tlvs, length-packet, sent_attributes}
use stice.Stun.Message.Encode.{encode-packet}
use stice.Stun.Message.Decode.{IsSendable, packet_length, is_message-packet}
use stice.Stun.Message.RoundTrip.{IsText?, AreTexts, sent_attributes-IsWire}
use stice.Turn.ChannelData.{channel_valid}
use stice.Turn.ChannelData.Laws.{wrapped, wrapped-channel, wrapped-length, length-wrapped}
use stice.Turn.StunConn.{complete, consume_frame, framed, align4}
use stice.Turn.StunConn.Frames.{IsFrame}
use native.Mathlib.Nat.{mod-eq_of_lt}

align4-padded : (n : ℕ) → n + 3 < 2 ^ 64 → align4 (4 + n) ≡ 4 + padded_size n
unfolding align4
align4-padded n h = ground (arith, padded_size-div n h)

-- Every message that the demultiplexer of datagrams accepts is a complete frame of the stream: its
-- length field decides where it ends.
pub consume_frame-is_message :
    (bytes : List ℕ)
    → byte_at bytes 0 < 256
    → is_message bytes ≡ true
    → consume_frame bytes ≡ complete (20 + read_u16_be (drop 2 bytes))
unfolding is_message consume_frame framed
consume_frame-is_message bytes byte h = ground (arith, field_mask 6 2 (byte_at bytes 0))

wrapped_head :
    (channel : ℕ) (bytes : List ℕ)
    → channel_valid channel ≡ true
    → 0x40 ≤ byte_at (wrapped channel bytes) 0
unfolding channel_valid
wrapped_head channel bytes valid = ground arith

channel_frame :
    (buf : List ℕ) (channel len : ℕ)
    → 0x40 ≤ byte_at buf 0
    → read_u16_be buf ≡ channel
    → read_u16_be (drop 2 buf) ≡ len
    → channel_valid channel ≡ true
    → align4 (4 + len) ≡ length buf
    → 4 ≤ length buf
    → consume_frame buf ≡ complete (length buf)
unfolding consume_frame framed channel_valid
channel_frame buf channel len first c l valid size four = rw (c, l) (ground arith)

-- A wrapped ChannelData frame is one frame of the stream, its padding included.
pub wrapped-IsFrame :
    (channel : ℕ) (bytes : List ℕ)
    → channel_valid channel ≡ true
    → length bytes < 2 ^ 16
    → IsFrame (wrapped channel bytes)
wrapped-IsFrame channel bytes valid fits =
    channel_frame (wrapped channel bytes) channel (length bytes) (wrapped_head channel bytes valid)
      (ap read_u16_be (sym nothing_behind) ∙ wrapped-channel channel bytes [] valid)
      (ap (λ (t : List ℕ). read_u16_be (drop 2 t)) (sym nothing_behind)
        ∙ wrapped-length channel bytes [] fits)
      valid (align4-padded (length bytes) (omega arith) ∙ sym (length-wrapped channel bytes fits))
      (omega (arith, length-wrapped channel bytes fits))
  where
    nothing_behind : wrapped channel bytes ++ [] ≡ wrapped channel bytes
    nothing_behind = append-nil (wrapped channel bytes)

packet-first : (m : Message) (n : ℕ) (xs : List Attribute) → byte_at (packet m n xs) 0 < 256
unfolding write_u16_be
packet-first m n xs = omega arith

packet-IsFrame :
    (m : Message) (xs : List Attribute)
    → IsSendable m
    → All IsWire xs
    → length (tlvs xs) < 2 ^ 16
    → IsFrame (packet m (length (tlvs xs)) xs)
packet-IsFrame m xs s w fits =
    consume_frame-is_message wire (packet-first m (length (tlvs xs)) xs)
      (ap is_message (sym nothing_behind) ∙ is_message-packet m xs [] s w fits)
    ∙ ap complete (
        ap (λ (t : List ℕ). 20 + read_u16_be (drop 2 t)) (sym nothing_behind)
        ∙ ap (λ (t : ℕ). 20 + t) (packet_length m (length (tlvs xs)) xs [] s fits)
        ∙ sym (length-packet m (length (tlvs xs)) xs s.id_size))
  where
    wire : List ℕ
    wire = packet m (length (tlvs xs)) xs

    nothing_behind : wire ++ [] ≡ wire
    nothing_behind = append-nil wire

-- An encoded message is one frame of the stream.
pub encode-IsFrame :
    (m : Message) (password : Option (List ℕ)) (creds : Option Credentials)
    (software : Option (List ℕ))
    → All IsWire m.attributes
    → AreTexts creds
    → IsText? software
    → IsSendable m
    → length (tlvs (sent_attributes m password creds software)) < 2 ^ 16
    → IsFrame (encode m password creds software).raw
encode-IsFrame m password creds software w t u s fits =
    rw (encode-packet m s.id_size password creds software, mod-eq_of_lt fits)
      (packet-IsFrame m (sent_attributes m password creds software) s
        (sent_attributes-IsWire m password creds software w t u) fits)
