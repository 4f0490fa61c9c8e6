-- ===== src/Turn/Tests.antt =====
-- The framing theorems on a stream of two ChannelData frames that arrives in two pieces.
use stice.Base.{ℕ, ◌≡◌, refl, arith, true, List, [], ◌∷◌, ◌++◌, map, All}
use stice.Bytes.{read_u16_be, read_u32_be}
use stice.Stun.Message.{is_message}
use stice.Turn.ChannelData.{channel_valid, Unwrapped}
use stice.Turn.StunConn.{
  incomplete, consume_frame, framed, align4, StunConn, feed, compact, read_frame, deliver, frame,
}
use stice.Turn.StunConn.Buffer.{IsConn, pending, feed-queue}
use stice.Turn.StunConn.Stream.{Event, arrive, poll, run, run-same_stream}
use stice.Turn.StunConn.Frames.{IsFrame, run-frames}

abbrev new_conn : StunConn
new_conn = record { buf = []; consumed = 0 }

abbrev first_frame : List ℕ
first_frame = 0x40 ∷ 0 ∷ 0 ∷ 1 ∷ 9 ∷ 0 ∷ 0 ∷ 0 ∷ []

abbrev second_frame : List ℕ
second_frame = 0x40 ∷ 1 ∷ 0 ∷ 0 ∷ []

abbrev pieces : List Event
pieces =
    arrive (0x40 ∷ 0 ∷ 0 ∷ [])
    ∷ poll
    ∷ arrive (1 ∷ 9 ∷ 0 ∷ 0 ∷ 0 ∷ 0x40 ∷ 1 ∷ 0 ∷ 0 ∷ 0x40 ∷ [])
    ∷ poll
    ∷ poll
    ∷ []

abbrev at_once : List Event
at_once = arrive (first_frame ++ (second_frame ++ (0x40 ∷ []))) ∷ poll ∷ poll ∷ poll ∷ []

frames-IsFrame : All IsFrame (first_frame ∷ second_frame ∷ [])
unfolding consume_frame framed align4 read_u16_be
frames-IsFrame = (refl, (refl, tt))

partial-incomplete : consume_frame (0x40 ∷ []) ≡ incomplete
unfolding consume_frame
partial-incomplete = refl

pieces-settled : consume_frame (pending (run new_conn pieces).1) ≡ incomplete
unfolding run feed compact read_frame deliver consume_frame framed align4 read_u16_be
pieces-settled = refl

at_once-settled : consume_frame (pending (run new_conn at_once).1) ≡ incomplete
unfolding run feed compact read_frame deliver consume_frame framed align4 read_u16_be
at_once-settled = refl

run-frames_example : (run new_conn pieces).0 ≡ map frame (first_frame ∷ second_frame ∷ [])
run-frames_example =
    run-frames new_conn pieces (first_frame ∷ second_frame ∷ []) (0x40 ∷ []) (omega arith)
      frames-IsFrame refl partial-incomplete pieces-settled

run-same_stream_example : (run new_conn pieces).0 ≡ (run new_conn at_once).0
run-same_stream_example =
    run-same_stream new_conn new_conn pieces at_once (omega arith) (omega arith) refl pieces-settled
      at_once-settled

feed-queue_example :
    (pending (feed new_conn first_frame) ≡ pending new_conn ++ first_frame)
    × IsConn (feed new_conn first_frame)
feed-queue_example = feed-queue new_conn first_frame (omega arith)

abbrev loaded : StunConn
loaded = record { buf = 7 ∷ first_frame; consumed = 1 }

abbrev outs : Unwrapped
outs = record { channel = 0; out_data = []; frame_size = 0 }

channel-valid : channel_valid 0x4001 ≡ true
unfolding channel_valid
channel-valid = refl

abbrev bare : List ℕ
bare =
    0 ∷ 1 ∷ 0 ∷ 0 ∷ 0x21 ∷ 0x12 ∷ 0xa4 ∷ 0x42 ∷ 1 ∷ 2 ∷ 3 ∷ 4 ∷ 5 ∷ 6 ∷ 7 ∷ 8 ∷ 9 ∷ 10 ∷ 11 ∷ 12
    ∷ []

bare-message : is_message bare ≡ true
unfolding is_message read_u16_be read_u32_be
bare-message = refl
