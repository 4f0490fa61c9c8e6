-- ===== src/Turn/StunConn.antt =====
-- include/stice/turn/stunconn.hpp and src/turn/stunconn.cpp: the parser of the byte stream that TURN
-- uses over TCP, where each STUN message and each ChannelData frame gives its own length.
pub mod Framing
pub mod Buffer
pub mod Stream
pub mod Frames
pub mod Encoders
use stice.Base.{
  ℕ, ◌+◌, ◌-◌, ◌/◌, ◌%◌, Bool, true, false, not, ◌&&◌, List, [], ◌∷◌, ◌++◌, length, is_empty, take,
  drop, ltb, leb, ◌==◌, if◌then◌else◌,
}
use stice.Bytes.{byte_at, read_u16_be, read_u32_be}

-- The result of `consumeSingleTurnFrame`: 0, SIZE_MAX, or the size of the frame.
pub data Found : Type 0 where
  incomplete : Found
  invalid : Found
  complete : (size : ℕ) → Found

-- `size < frameSize` is an incomplete frame.
unfoldable pub framed : ℕ → ℕ → Found
framed size frame_size = if ltb size frame_size then incomplete else complete frame_size

unfoldable pub align4 : ℕ → ℕ
align4 n = if not (n % 4 == 0) then n + (4 - n % 4) else n

unfoldable pub consume_frame : List ℕ → Found
unfolding framed
consume_frame buf =
    let size = length buf in
    if ltb size 4
    then incomplete
    else if ltb (byte_at buf 0) 0x40
    then (if ltb size 8
        then incomplete
        else if not (read_u32_be (drop 4 buf) == 0x2112a442)
        then invalid
        else framed size (20 + read_u16_be (drop 2 buf)))
    else if leb 0x4000 (read_u16_be buf) && leb (read_u16_be buf) 0x7fff
    then framed size (align4 (4 + read_u16_be (drop 2 buf)))
    else invalid

pub record StunConn : Type 0 where
  pub buf : List ℕ
  pub consumed : ℕ

-- Once half of the buffer is consumed, the consumed prefix is erased.
unfoldable pub compact : StunConn → StunConn
compact c =
    if ltb 0 c.consumed && leb (length c.buf / 2) c.consumed
    then record { buf = drop c.consumed c.buf; consumed = 0 }
    else c

unfoldable pub feed : StunConn → List ℕ → StunConn
unfolding compact
feed c bytes = if is_empty bytes then c else record (compact c) { buf = (compact c).buf ++ bytes }

-- What `readFrame` returns: 0, SIZE_MAX, or a frame, given by its bytes.
pub data Read : Type 0 where
  nothing : Read
  broken : Read
  frame : (bytes : List ℕ) → Read

-- The result for what stands at the head of the buffer.
unfoldable pub deliver : StunConn → Found → Read × StunConn
deliver c incomplete = (nothing, c)
deliver c invalid = (broken, record c { consumed = c.consumed + 1 })
deliver c (complete size) =
    (frame (take size (drop c.consumed c.buf)), record c { consumed = c.consumed + size })

unfoldable pub read_frame : StunConn → Read × StunConn
unfolding deliver
read_frame c =
    if leb (length c.buf) c.consumed
    then (nothing, c)
    else deliver c (consume_frame (drop c.consumed c.buf))

unfoldable pub buffered : StunConn → ℕ
buffered c = length c.buf - c.consumed

unfoldable pub take_buffered : StunConn → List ℕ × StunConn
take_buffered c = (
  if ltb c.consumed (length c.buf) then drop c.consumed c.buf else [],
  record { buf = []; consumed = 0 },
)
