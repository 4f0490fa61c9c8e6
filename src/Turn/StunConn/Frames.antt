-- ===== src/Turn/StunConn/Frames.antt =====
-- A stream of whole frames: what the encoders write, and what the connection delivers of it.
use stice.Base.{
  ℕ, zero, suc, ◌≤◌, ◌≡◌, refl, ap, sym, ◌∙◌, arith, List, [], ◌∷◌, ◌++◌, append_assoc, length,
  length-append, map, take-length_append, drop-length_append, All,
}
use stice.Turn.StunConn.{incomplete, complete, consume_frame, StunConn, frame}
use stice.Turn.StunConn.Framing.{consume_frame-bounds, consume_frame-append}
use stice.Turn.StunConn.Buffer.{IsConn, pending}
use stice.Turn.StunConn.Stream.{Event, run, arrived, parse, parse-incomplete, run-settled}

-- One whole frame, and nothing else.
abbrev pub IsFrame : List ℕ → Type 0
IsFrame xs = consume_frame xs ≡ complete (length xs)

abbrev pub joined : List (List ℕ) → List ℕ
joined [] = []
joined (x ∷ xs) = x ++ joined xs

parse-frames :
    (k : ℕ) (frames : List (List ℕ)) (partial : List ℕ)
    → All IsFrame frames
    → consume_frame partial ≡ incomplete
    → length (joined frames ++ partial) ≤ k
    → parse k (joined frames ++ partial) ≡ map frame frames
parse-frames k [] partial w e enough = parse-incomplete k partial e
parse-frames zero (f ∷ fs) partial w e enough = absurd (
    omega (
      arith,
      consume_frame-bounds f (length f) w.0,
      length-append f (joined fs),
      length-append (f ++ joined fs) partial,
    ))
parse-frames (suc k) (f ∷ fs) partial w e enough =
    ap (parse (suc k)) (append_assoc f (joined fs) partial)
    ∙ rw
        (
          consume_frame-append f (joined fs ++ partial) (length f) w.0,
          take-length_append (length f) f (joined fs ++ partial) refl,
          drop-length_append (length f) f (joined fs ++ partial) refl,
        )
        (ap (λ t. frame f ∷ t)
          (parse-frames k fs partial w.1 e (
            omega (
              arith,
              consume_frame-bounds f (length f) w.0,
              length-append f (joined fs),
              length-append (f ++ joined fs) partial,
              length-append (joined fs) partial,
            ))))

-- A sequence of frames, cut into pieces anywhere, with the beginning of another behind it, is
-- delivered frame by frame, in order, with nothing lost and nothing made up.
pub run-frames :
    (c : StunConn) (events : List Event) (frames : List (List ℕ)) (partial : List ℕ)
    → IsConn c
    → All IsFrame frames
    → pending c ++ arrived events ≡ joined frames ++ partial
    → consume_frame partial ≡ incomplete
    → consume_frame (pending (run c events).1) ≡ incomplete
    → (run c events).0 ≡ map frame frames
run-frames c events frames partial h w stream e done =
    sym (run-settled _ c events h done (omega arith))
    ∙ ap (parse (length (pending c ++ arrived events))) stream
    ∙ parse-frames _ frames partial w e (omega (arith, ap length stream))
