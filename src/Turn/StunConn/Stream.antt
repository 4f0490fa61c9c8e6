-- ===== src/Turn/StunConn/Stream.antt =====
-- Feeding and reading in any order: what is delivered depends on the bytes of the stream alone.
use stice.Base.{
  ℕ, zero, suc, ◌≤◌, ◌≡◌, refl, ap, sym, ◌∙◌, subst, arith, List, [], ◌∷◌, ◌++◌, append-nil,
  append_assoc, length, length-append, length-drop, take, drop, take-append, drop-append, ◌⊎◌, inl,
  inr,
}
use stice.Turn.StunConn.{
  Found, incomplete, invalid, complete, consume_frame, StunConn, feed, Read, nothing, broken, frame,
  read_frame,
}
use stice.Turn.StunConn.Framing.{
  consume_frame-bounds, consume_frame-append, consume_frame-append_invalid,
}
use stice.Turn.StunConn.Buffer.{
  IsConn, pending, take_found, read_queue, feed-queue, read_frame-queue, invalid_byte, empty_frame,
}

-- What the caller does with a connection.
pub data Event : Type 0 where
  arrive : (bytes : List ℕ) → Event
  poll : Event

-- A read that returns nothing is not recorded.
abbrev pub record_read : Read → List Read → List Read
record_read nothing rest = rest
record_read broken rest = broken ∷ rest
record_read (frame bytes) rest = frame bytes ∷ rest

-- The reads that returned something, and the connection at the end.
unfoldable pub run : StunConn → List Event → List Read × StunConn
run c [] = ([], c)
run c (arrive bytes ∷ events) = run (feed c bytes) events
run c (poll ∷ events) =
    let rest = run (read_frame c).1 events in (record_read (read_frame c).0 rest.0, rest.1)

abbrev pub arrived : List Event → List ℕ
arrived [] = []
arrived (arrive bytes ∷ events) = bytes ++ arrived events
arrived (poll ∷ events) = arrived events

-- The stream as a whole: frames and single bytes that are no frame, until what is left is not yet
-- a frame. Each takes at least one byte, so the length of the stream is enough fuel.
abbrev pub parse : ℕ → List ℕ → List Read
parse zero xs = []
parse (suc fuel) xs = record_read (read_queue xs).0 (parse fuel (read_queue xs).1)

-- What stands at the head of a stream, whatever follows it.
record Piece (xs : List ℕ) : Type 0 where
  result : Read
  size : ℕ
  positive : 1 ≤ size
  within : size ≤ length xs
  reads : (ys : List ℕ) → read_queue (xs ++ ys) ≡ (result, drop size (xs ++ ys))
  counts : (rest : List Read) → record_read result rest ≡ result ∷ rest

found-Piece :
    (xs : List ℕ) (found : Found)
    → consume_frame xs ≡ found
    → (consume_frame xs ≡ incomplete) ⊎ Piece xs
found-Piece xs incomplete e = inl e
found-Piece xs invalid e = inr (record {
  result = broken;
  size = 1;
  positive = omega arith;
  within = invalid_byte xs e;
  reads = λ ys. rw (consume_frame-append_invalid xs ys e) refl;
  counts = λ rest. refl;
})
found-Piece xs (complete n) e =
    let (four, inside) = consume_frame-bounds xs n e in
    inr (record {
      result = frame (take n xs);
      size = n;
      positive = omega arith;
      within = inside;
      reads = λ ys. rw (consume_frame-append xs ys n e, take-append n xs ys inside) refl;
      counts = λ rest. refl;
    })

piece : (xs : List ℕ) → (consume_frame xs ≡ incomplete) ⊎ Piece xs
piece xs = found-Piece xs (consume_frame xs) refl

pub parse-incomplete : (k : ℕ) (xs : List ℕ) → consume_frame xs ≡ incomplete → parse k xs ≡ []
parse-incomplete zero xs e = refl
parse-incomplete (suc k) xs e = rw e (parse-incomplete k xs e)

parse-Piece :
    (k : ℕ) (xs ys : List ℕ) (p : Piece xs)
    → parse (suc k) (xs ++ ys) ≡ p.result ∷ parse k (drop p.size xs ++ ys)
parse-Piece k xs ys p =
    rw (p.reads ys, p.counts (parse k (drop p.size (xs ++ ys))), drop-append p.size xs ys p.within)
      refl

-- More fuel than bytes changes nothing.
parse-fuel : (k : ℕ) (xs : List ℕ) → length xs ≤ k → parse (suc k) xs ≡ parse k xs
parse-fuel zero [] h = rw empty_frame refl
parse-fuel zero (x ∷ xs) h = absurd (omega arith)
parse-fuel (suc k) xs h = elim (piece xs) [
  | inl e ↦ parse-incomplete (suc (suc k)) xs e ∙ sym (parse-incomplete (suc k) xs e)
  | inr p ↦
      let shorter : length (drop p.size xs) ≤ k =
        omega (arith, length-drop p.size xs, p.positive, p.within) in
      rw (sym (append-nil xs)) (
        parse-Piece (suc k) xs [] p
        ∙ ap (λ t. p.result ∷ t)
            (rw (append-nil (drop p.size xs)) (parse-fuel k (drop p.size xs) shorter))
        ∙ sym (parse-Piece k xs [] p))
]

head-Piece : (xs : List ℕ) (p : Piece xs) → read_queue xs ≡ (p.result, drop p.size xs)
head-Piece xs p = ap read_queue (sym (append-nil xs)) ∙ p.reads [] ∙ rw (append-nil xs) refl

-- A read never leaves more than there was.
read-shortens : (c : StunConn) → IsConn c → length (pending (read_frame c).1) ≤ length (pending c)
read-shortens c h = rw ((read_frame-queue c h).1) (elim (piece (pending c)) [
  | inl e ↦ rw e (omega arith)
  | inr p ↦ rw (head-Piece (pending c) p) (omega (arith, length-drop p.size (pending c)))
])

-- The piece that is read from a queue is the one at the head of all that is still to come.
poll-parse :
    (k : ℕ) (c : StunConn) (later : List ℕ) (delivered : List Read) (end : List ℕ)
    → IsConn c
    → length (pending c ++ later) ≤ k
    → delivered ++ parse k end ≡ parse k (pending (read_frame c).1 ++ later)
    → record_read (read_frame c).0 delivered ++ parse k end ≡ parse k (pending c ++ later)
poll-parse k c later delivered end h enough ih =
    let (same, left, inside) = read_frame-queue c h in
    elim (piece (pending c)) [
      | inl e ↦
          rw (same, e)
            (ih ∙ ap (λ t. parse k (t ++ later)) (left ∙ ap (λ f. (take_found (pending c) f).1) e))
      | inr p ↦
          rw (same, head-Piece (pending c) p, p.counts delivered)
            (ap (λ t. p.result ∷ t)
                (ih
                  ∙ ap (λ t. parse k (t ++ later))
                      (left ∙ ap (λ f. f.1) (head-Piece (pending c) p)))
              ∙ spend k p enough)
    ]
  where
    spend :
        (k : ℕ) (p : Piece (pending c))
        → length (pending c ++ later) ≤ k
        → p.result ∷ parse k (drop p.size (pending c) ++ later) ≡ parse k (pending c ++ later)
    spend zero p enough =
        absurd (omega (arith, p.positive, p.within, length-append (pending c) later))
    spend (suc k) p enough =
        ap (λ t. p.result ∷ t)
          (parse-fuel k (drop p.size (pending c) ++ later) (
            omega (
              arith,
              p.positive,
              p.within,
              length-append (pending c) later,
              length-append (drop p.size (pending c)) later,
              length-drop p.size (pending c),
            )))
        ∙ sym (parse-Piece k (pending c) later p)

-- What any sequence of arrivals and polls delivers, followed by the pieces of what is left in the
-- buffer, are the pieces of the whole stream.
pub run-parse :
    (k : ℕ) (c : StunConn) (events : List Event)
    → IsConn c
    → length (pending c ++ arrived events) ≤ k
    → (run c events).0 ++ parse k (pending (run c events).1) ≡ parse k (pending c ++ arrived events)
unfolding run
run-parse k c [] h enough = sym (ap (parse k) (append-nil (pending c)))
run-parse k c (arrive bytes ∷ events) h enough =
    let (same, inside) = feed-queue c bytes h in
    let joined : pending (feed c bytes) ++ arrived events ≡ pending c ++ (bytes ++ arrived events) =
      ap (λ t. t ++ arrived events) same ∙ append_assoc (pending c) bytes (arrived events) in
    run-parse k (feed c bytes) events inside (subst (λ t. length t ≤ k) (sym joined) enough)
    ∙ ap (parse k) joined
run-parse k c (poll ∷ events) h enough =
    poll-parse k c (arrived events) (run (read_frame c).1 events).0
      (pending (run (read_frame c).1 events).1) h enough
      (run-parse k (read_frame c).1 events (read_frame-queue c h).2 (
        omega (
          arith,
          read-shortens c h,
          length-append (pending c) (arrived events),
          length-append (pending (read_frame c).1) (arrived events),
        )))

-- Once nothing complete is left in the buffer, all pieces of the stream have been delivered.
pub run-settled :
    (k : ℕ) (c : StunConn) (events : List Event)
    → IsConn c
    → consume_frame (pending (run c events).1) ≡ incomplete
    → length (pending c ++ arrived events) ≤ k
    → parse k (pending c ++ arrived events) ≡ (run c events).0
run-settled k c events h done enough =
    sym (run-parse k c events h enough)
    ∙ ap (◌++◌ (run c events).0) (parse-incomplete k (pending (run c events).1) done)
    ∙ append-nil (run c events).0

-- However the same bytes were cut and whenever they were polled for: once nothing complete is left
-- in either buffer, both connections have delivered the same frames and reported the same errors.
pub run-same_stream :
    (c d : StunConn) (events others : List Event)
    → IsConn c
    → IsConn d
    → pending c ++ arrived events ≡ pending d ++ arrived others
    → consume_frame (pending (run c events).1) ≡ incomplete
    → consume_frame (pending (run d others).1) ≡ incomplete
    → (run c events).0 ≡ (run d others).0
run-same_stream c d events others hc hd same done finished =
    sym (run-settled _ c events hc done (omega arith))
    ∙ ap (parse (length (pending c ++ arrived events))) same
    ∙ run-settled _ d others hd finished (omega (arith, ap length same))
