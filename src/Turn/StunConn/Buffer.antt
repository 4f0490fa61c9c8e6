-- ===== src/Turn/StunConn/Buffer.antt =====
-- The buffer of a `StunConn` as a queue of the bytes that are not yet consumed.
use stice.Base.{
  ℕ, zero, suc, ◌+◌, ◌-◌, ◌*◌, ◌/◌, ◌≤◌, ◌≡◌, refl, ap, sym, ◌∙◌, arith, false, ◌&&◌, List, [], ◌∷◌,
  ◌++◌, append-nil, is_empty, length, length-append, length-drop, take, drop, drop-append,
  drop-drop, ltb, leb, leb→le, ltb→ge, Bool-cases, inl, inr, ◌⊎◌,
}
use stice.Turn.StunConn.{
  Found, incomplete, invalid, complete, consume_frame, StunConn, compact, feed, Read, nothing,
  broken, frame, deliver, read_frame, buffered, take_buffered,
}
use stice.Turn.StunConn.Framing.{consume_frame-bounds}

abbrev pub IsConn : StunConn → Type 0
IsConn c = c.consumed ≤ length c.buf

abbrev pub pending : StunConn → List ℕ
pending c = drop c.consumed c.buf

-- What one read does to a queue of bytes.
abbrev pub take_found : List ℕ → Found → Read × List ℕ
take_found xs incomplete = (nothing, xs)
take_found xs invalid = (broken, drop 1 xs)
take_found xs (complete n) = (frame (take n xs), drop n xs)

abbrev pub read_queue : List ℕ → Read × List ℕ
read_queue xs = take_found xs (consume_frame xs)

drop-all : (n : ℕ) (xs : List ℕ) → length xs ≤ n → drop n xs ≡ []
drop-all zero [] h = refl
drop-all zero (x ∷ xs) h = absurd (omega arith)
drop-all (suc n) [] h = refl
drop-all (suc n) (x ∷ xs) h = drop-all n xs (omega arith)

compacted :
    (c : StunConn) → (compact c ≡ record { buf = pending c; consumed = 0 }) ⊎ (compact c ≡ c)
unfolding compact
compacted c = elim (Bool-cases (ltb 0 c.consumed && leb (length c.buf / 2) c.consumed)) [
  | inl e ↦ inl (rw e refl)
  | inr e ↦ inr (rw e refl)
]

compact-queue : (c : StunConn) → IsConn c → (pending (compact c) ≡ pending c) × IsConn (compact c)
compact-queue c h = elim (compacted c) [ inl e ↦ rw e (refl, omega arith) | inr e ↦ rw e (refl, h) ]

compact-bounded :
    (c : StunConn) → IsConn c → length (compact c).buf ≤ 2 * (length c.buf - c.consumed)
unfolding compact
compact-bounded c h = elim (Bool-cases (ltb 0 c.consumed && leb (length c.buf / 2) c.consumed)) [
  | inl e ↦ rw e (omega (arith, length-drop c.consumed c.buf))
  | inr e ↦ rw e (ground arith)
]

-- `feed` appends to the queue, whether or not it moves the buffer, and keeps the offset inside.
pub feed-queue :
    (c : StunConn) (bytes : List ℕ)
    → IsConn c
    → (pending (feed c bytes) ≡ pending c ++ bytes) × IsConn (feed c bytes)
unfolding feed
feed-queue c [] h = (sym (append-nil (pending c)), h)
feed-queue c (x ∷ xs) h =
    let (same, inside) = compact-queue c h in
    (
      drop-append (compact c).consumed (compact c).buf (x ∷ xs) inside
          ∙ ap (λ (t : List ℕ). t ++ (x ∷ xs)) same,
      omega (arith, length-append (compact c).buf (x ∷ xs)),
    )

-- The memory that the buffer takes is bounded by what is not yet read: at most twice that, with the
-- new bytes.
pub feed-bounded :
    (c : StunConn) (bytes : List ℕ)
    → IsConn c
    → is_empty bytes ≡ false
    → length (feed c bytes).buf ≤ 2 * buffered c + length bytes
unfolding feed buffered compact
feed-bounded c [] h some_byte = cc
feed-bounded c (x ∷ xs) h some_byte =
    omega (arith, length-append (compact c).buf (x ∷ xs), compact-bounded c h)

deliver-queue :
    (c : StunConn) (found : Found)
    → IsConn c
    → ((n : ℕ) → found ≡ complete n → n ≤ length (pending c))
    → (found ≡ invalid → 1 ≤ length (pending c))
    → ((deliver c found).0 ≡ (take_found (pending c) found).0)
      × (pending (deliver c found).1 ≡ (take_found (pending c) found).1)
      × IsConn (deliver c found).1
unfolding deliver
deliver-queue c incomplete h bound some_byte = (refl, refl, h)
deliver-queue c invalid h bound some_byte = (
  refl,
  drop-drop c.consumed 1 c.buf,
  omega (arith, some_byte refl, length-drop c.consumed c.buf),
)
deliver-queue c (complete n) h bound some_byte =
    (refl, drop-drop c.consumed n c.buf, omega (arith, bound n refl, length-drop c.consumed c.buf))

pub invalid_byte : (xs : List ℕ) → consume_frame xs ≡ invalid → 1 ≤ length xs
unfolding consume_frame
invalid_byte xs h = ground arith

pub empty_frame : consume_frame [] ≡ incomplete
unfolding consume_frame
empty_frame = refl

-- `readFrame` reads from the queue: the same result, the same bytes left, the offset inside.
pub read_frame-queue :
    (c : StunConn)
    → IsConn c
    → ((read_frame c).0 ≡ (read_queue (pending c)).0)
      × (pending (read_frame c).1 ≡ (read_queue (pending c)).1)
      × IsConn (read_frame c).1
unfolding read_frame
read_frame-queue c h = elim (Bool-cases (leb (length c.buf) c.consumed)) [
  | inl e ↦ rw e (
      rw (drop-all c.consumed c.buf (leb→le (length c.buf) c.consumed e), empty_frame)
        (refl, refl, h))
  | inr e ↦ rw e (
      deliver-queue c (consume_frame (pending c)) h
        (λ n k. (consume_frame-bounds (pending c) n k).1) (invalid_byte (pending c)))
]

-- `takeBuffered` hands over the whole queue and leaves an empty one.
pub take_buffered-queue :
    (c : StunConn)
    → ((take_buffered c).0 ≡ pending c)
      × (pending (take_buffered c).1 ≡ [])
      × IsConn (take_buffered c).1
      × (buffered c ≡ length (take_buffered c).0)
unfolding take_buffered buffered
take_buffered-queue c = elim (Bool-cases (ltb c.consumed (length c.buf))) [
  | inl e ↦ rw e (refl, refl, omega arith, sym (length-drop c.consumed c.buf))
  | inr e ↦ rw e (
    sym (drop-all c.consumed c.buf (ltb→ge c.consumed (length c.buf) e)),
    refl,
    omega arith,
    ground arith,
  )
]
