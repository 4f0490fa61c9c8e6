-- ===== src/Turn/StunConn/Framing.antt =====
-- `consumeSingleTurnFrame`: its answer does not depend on what comes later in the stream.
use stice.Base.{
  ℕ, ◌+◌, ◌≤◌, ◌≡◌, refl, ap, ◌∙◌, arith, List, [], ◌∷◌, ◌++◌, length, length-append, length-take,
  length-drop, take, drop, take-append-drop, drop-append,
}
use stice.Bytes.{byte_at, read_u16_be, read_u32_be}
use stice.Turn.StunConn.{invalid, complete, framed, align4, consume_frame}

byte_at-append : (xs ys : List ℕ) → 1 ≤ length xs → byte_at (xs ++ ys) 0 ≡ byte_at xs 0
byte_at-append [] ys h = absurd (omega arith)
byte_at-append (x ∷ xs) ys h = refl

read_u16_be-append : (xs ys : List ℕ) → 2 ≤ length xs → read_u16_be (xs ++ ys) ≡ read_u16_be xs
unfolding read_u16_be
read_u16_be-append [] ys h = absurd (omega arith)
read_u16_be-append (a ∷ []) ys h = absurd (omega arith)
read_u16_be-append (a ∷ b ∷ xs) ys h = refl

read_u32_be-append : (xs ys : List ℕ) → 4 ≤ length xs → read_u32_be (xs ++ ys) ≡ read_u32_be xs
unfolding read_u32_be
read_u32_be-append [] ys h = absurd (omega arith)
read_u32_be-append (a ∷ []) ys h = absurd (omega arith)
read_u32_be-append (a ∷ b ∷ []) ys h = absurd (omega arith)
read_u32_be-append (a ∷ b ∷ c ∷ []) ys h = absurd (omega arith)
read_u32_be-append (a ∷ b ∷ c ∷ d ∷ xs) ys h = refl

align4-ge : (n : ℕ) → n ≤ align4 n
unfolding align4
align4-ge n = ground arith

-- A complete frame has at least four bytes, and is within the buffer.
pub consume_frame-bounds :
    (xs : List ℕ) (n : ℕ) → consume_frame xs ≡ complete n → (4 ≤ n) × (n ≤ length xs)
unfolding consume_frame framed
consume_frame-bounds xs n h = ground (arith, align4-ge (4 + read_u16_be (drop 2 xs)))

at_drop2 :
    (xs ys : List ℕ) → 4 ≤ length xs → read_u16_be (drop 2 (xs ++ ys)) ≡ read_u16_be (drop 2 xs)
at_drop2 xs ys h =
    ap read_u16_be (drop-append 2 xs ys (omega arith))
    ∙ read_u16_be-append (drop 2 xs) ys (omega (arith, length-drop 2 xs))

at_drop4 :
    (xs ys : List ℕ) → 8 ≤ length xs → read_u32_be (drop 4 (xs ++ ys)) ≡ read_u32_be (drop 4 xs)
at_drop4 xs ys h =
    ap read_u32_be (drop-append 4 xs ys (omega arith))
    ∙ read_u32_be-append (drop 4 xs) ys (omega (arith, length-drop 4 xs))

-- Bytes behind a complete frame do not change it.
pub consume_frame-append :
    (xs ys : List ℕ) (n : ℕ) → consume_frame xs ≡ complete n → consume_frame (xs ++ ys) ≡ complete n
unfolding consume_frame framed
consume_frame-append xs ys n h = ground (
  arith,
  length-append xs ys,
  byte_at-append xs ys,
  read_u16_be-append xs ys,
  at_drop2 xs ys,
  at_drop4 xs ys,
)

-- Nor do they mend bytes that are no frame.
pub consume_frame-append_invalid :
    (xs ys : List ℕ) → consume_frame xs ≡ invalid → consume_frame (xs ++ ys) ≡ invalid
unfolding consume_frame framed
consume_frame-append_invalid xs ys h = ground (
  arith,
  length-append xs ys,
  byte_at-append xs ys,
  read_u16_be-append xs ys,
  at_drop2 xs ys,
  at_drop4 xs ys,
)

-- A frame is complete without the bytes behind it.
pub consume_frame-cut :
    (xs ys : List ℕ) (n : ℕ)
    → consume_frame (xs ++ ys) ≡ complete n
    → n ≤ length xs
    → consume_frame xs ≡ complete n
unfolding consume_frame framed
consume_frame-cut xs ys n h le = ground (
  arith,
  length-append xs ys,
  byte_at-append xs ys,
  read_u16_be-append xs ys,
  at_drop2 xs ys,
  at_drop4 xs ys,
  consume_frame-bounds (xs ++ ys) n h,
  align4-ge (4 + read_u16_be (drop 2 (xs ++ ys))),
)

-- The bytes that are delivered as a frame are themselves one frame, of exactly their length.
pub consume_frame-take :
    (xs : List ℕ) (n : ℕ) → consume_frame xs ≡ complete n → consume_frame (take n xs) ≡ complete n
consume_frame-take xs n h =
    consume_frame-cut (take n xs) (drop n xs) n (ap consume_frame (take-append-drop n xs) ∙ h)
      (omega (arith, length-take n xs, consume_frame-bounds xs n h))
