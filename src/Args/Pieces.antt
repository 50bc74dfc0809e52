-- ===== src/Args/Pieces.antt =====
-- The parser on a stream that comes in pieces (crates/core/src/incremental_json.rs).
use mathlib.Core.List.{flatten}
use rust_agent_framework.Common.{
  ℕ, zero, suc, ◌+◌, ◌-◌, ◌≤◌, ◌<◌, ◌≡◌, refl, sym, ◌∙◌, ap, String, Option-cases, Option, none,
  some, List, [], ◌∷◌, ◌++◌, length, get_elem?, arith, inl, inr, append-nil, append_assoc, take,
  drop, length-append,
}
use rust_agent_framework.Args.{
  Json, State, expect_key, in_key, expect_colon, expect_value, in_string, in_number, in_literal,
  in_object, in_array, expect_comma, Parser, transition_after, new_parser, push_bytes, ArgsEvent,
  slice,
}
use rust_agent_framework.Args.Scan.{emit_progress, scan_state, scan_byte, poll_loop, poll, Scanned}
use rust_agent_framework.Args.Bounds.{
  get_elem?-none, get_elem?-some, IsWithin, scan_byte-Moves, poll-IsRead,
}

take-append_le {ℓ} :
    {A : Type ℓ} (n : ℕ) (xs ys : List A) → n ≤ length xs → take n (xs ++ ys) ≡ take n xs
take-append_le zero xs ys h = refl
take-append_le (suc n) [] ys h = absurd (omega arith)
take-append_le (suc n) (x ∷ xs) ys h =
    ap (λ (l : List _). x ∷ l) (take-append_le n xs ys (omega arith))

get_elem?-append {ℓ} :
    {A : Type ℓ} (xs ys : List A) (i : ℕ) → i < length xs → get_elem? (xs ++ ys) i ≡ get_elem? xs i
get_elem?-append [] ys i h = absurd (omega arith)
get_elem?-append (x ∷ xs) ys zero h = refl
get_elem?-append (x ∷ xs) ys (suc i) h = get_elem?-append xs ys i (omega arith)

slice-append :
    (start end : ℕ) (xs ys : List ℕ)
    → end ≤ length xs
    → slice start end (xs ++ ys) ≡ slice start end xs
unfolding slice
slice-append start end xs ys h = ap (drop start) (take-append_le end xs ys h)

module _ (json : Json) (id : String) where
  -- What a round does with more bytes behind the one that it reads.
  abbrev grown : List ℕ → Scanned json id → Scanned json id
  grown more (q, events) = (push_bytes more q, events)

  emit_progress-append :
      (key : Option String) (emitted : List String) (start pos last : ℕ) (buffer more : List ℕ)
      → pos ≤ length buffer
      → emit_progress json id (buffer ++ more) key emitted start pos last
        ≡ emit_progress json id buffer key emitted start pos last
  unfolding emit_progress
  emit_progress-append none emitted start pos last buffer more h = refl
  emit_progress-append (some k) emitted start pos last buffer more h =
      rw (slice-append start pos buffer more h)

  scan_state-push_bytes :
      (s : State) (ch : ℕ) (more : List ℕ) (p : Parser)
      → p.scan_pos < length p.buffer
      → scan_state json id s ch (push_bytes more p) ≡ grown more (scan_state json id s ch p)
  unfolding scan_state push_bytes transition_after
  scan_state-push_bytes expect_key ch more p h = ground arith
  scan_state-push_bytes in_key ch more p h =
      ground (arith, slice-append p.value_start p.scan_pos p.buffer more)
  scan_state-push_bytes expect_colon ch more p h = ground arith
  scan_state-push_bytes expect_value ch more p h = ground arith
  scan_state-push_bytes in_string ch more p h = ground (
    arith,
    slice-append p.value_start p.scan_pos p.buffer more,
    emit_progress-append p.current_key p.emitted_keys p.value_start (p.scan_pos + 1)
        p.last_progress_received p.buffer more,
  )
  scan_state-push_bytes in_number ch more p h =
      ground (arith, slice-append p.value_start p.scan_pos p.buffer more)
  scan_state-push_bytes in_literal ch more p h =
      ground (arith, slice-append p.value_start p.scan_pos p.buffer more)
  scan_state-push_bytes in_object ch more p h =
      ground (arith, slice-append p.value_start (p.scan_pos + 1) p.buffer more)
  scan_state-push_bytes in_array ch more p h =
      ground (arith, slice-append p.value_start (p.scan_pos + 1) p.buffer more)
  scan_state-push_bytes expect_comma ch more p h = ground arith

  scan_byte-push_bytes :
      (ch : ℕ) (more : List ℕ) (p : Parser)
      → p.scan_pos < length p.buffer
      → scan_byte json id ch (push_bytes more p) ≡ grown more (scan_byte json id ch p)
  unfolding scan_byte push_bytes
  scan_byte-push_bytes ch more p h = ground (arith, scan_state-push_bytes p.state ch more p h)

  abbrev Events : Type 0
  Events = List (ArgsEvent json.Value)

  pub poll_loop-some :
      (fuel : ℕ) (p : Parser) (events : Events) {ch : ℕ}
      → get_elem? p.buffer p.scan_pos ≡ some ch
      → poll_loop json id (suc fuel) p events
        ≡ poll_loop json id fuel (scan_byte json id ch p).0 (events ++ (scan_byte json id ch p).1)
  unfolding poll_loop
  poll_loop-some fuel p events e = rw (e, poll_loop) refl

  poll_loop-none :
      (fuel : ℕ) (p : Parser) (events : Events)
      → get_elem? p.buffer p.scan_pos ≡ none
      → poll_loop json id fuel p events ≡ (p, events)
  unfolding poll_loop
  poll_loop-none zero p events e = refl
  poll_loop-none (suc fuel) p events e = rw (e, poll_loop) refl

  get-push_bytes :
      (more : List ℕ) (p : Parser) {ch : ℕ}
      → get_elem? p.buffer p.scan_pos ≡ some ch
      → get_elem? (push_bytes more p).buffer (push_bytes more p).scan_pos ≡ some ch
  unfolding push_bytes
  get-push_bytes more p e =
      get_elem?-append p.buffer more p.scan_pos (get_elem?-some p.buffer p.scan_pos e) ∙ e

  poll_loop-zero : (p : Parser) → poll_loop json id 0 p [] ≡ (p, [])
  unfolding poll_loop
  poll_loop-zero p = refl

  poll_loop-push_bytes :
      (fuel : ℕ) (more : List ℕ) (p : Parser) (events : Events)
      → p.scan_pos + fuel ≤ length p.buffer
      → poll_loop json id fuel (push_bytes more p) events
        ≡ grown more (poll_loop json id fuel p events)
  unfolding poll_loop
  poll_loop-push_bytes zero more p events h = refl
  poll_loop-push_bytes (suc fuel) more p events h =
      elim (Option-cases (get_elem? p.buffer p.scan_pos)) [
        | inl e ↦ absurd (omega (arith, get_elem?-none p.buffer p.scan_pos e))
        | inr (ch, e) ↦
            let lt = get_elem?-some p.buffer p.scan_pos e in
            let q = scan_byte json id ch p in
            let m = scan_byte-Moves json id ch p in
            let e' : get_elem? (push_bytes more p).buffer (push_bytes more p).scan_pos ≡ some ch =
              get-push_bytes more p e in
            rw (poll_loop-some fuel (push_bytes more p) events e', poll_loop-some fuel p events e)
              (rw (scan_byte-push_bytes ch more p lt) (
                poll_loop-push_bytes fuel more q.0 (events ++ q.1)
                  (rw (m.same, m.next) (omega arith))))
      ]

  poll_loop-add :
      (n f g : ℕ) (p : Parser) (events : Events)
      → n ≡ f + g
      → poll_loop json id n p events
        ≡ poll_loop json id g (poll_loop json id f p events).0 (poll_loop json id f p events).1
  unfolding poll_loop
  poll_loop-add n zero g p events e = ap (λ k. poll_loop json id k p events) (omega arith)
  poll_loop-add zero (suc f) g p events e = absurd (omega arith)
  poll_loop-add (suc n) (suc f) g p events e = elim (Option-cases (get_elem? p.buffer p.scan_pos)) [
    | inl end ↦
        rw (poll_loop-none (suc f) p events end, poll_loop-none (suc n) p events end)
          (sym (poll_loop-none g p events end))
    | inr (ch, more) ↦
        rw (poll_loop-some f p events more, poll_loop-some n p events more)
          (poll_loop-add n f g (scan_byte json id ch p).0 (events ++ (scan_byte json id ch p).1)
            (omega arith))
  ]

  poll_loop-events :
      (fuel : ℕ) (p : Parser) (events : Events)
      → poll_loop json id fuel p events
        ≡ ((poll_loop json id fuel p []).0, events ++ (poll_loop json id fuel p []).1)
  unfolding poll_loop
  poll_loop-events zero p events = rw (append-nil events) refl
  poll_loop-events (suc fuel) p events = elim (Option-cases (get_elem? p.buffer p.scan_pos)) [
    | inl e ↦
        rw (poll_loop-none (suc fuel) p events e, poll_loop-none (suc fuel) p [] e)
          (rw (append-nil events) refl)
    | inr (ch, e) ↦
        let q = (scan_byte json id ch p).0 in
        let new = (scan_byte json id ch p).1 in
        rw (poll_loop-some fuel p events e, poll_loop-some fuel p [] e)
          (rw (poll_loop-events fuel q (events ++ new), poll_loop-events fuel q new)
            (rw (append_assoc events new (poll_loop json id fuel q []).1) refl))
  ]

  -- A client that pushes each piece and polls after it.
  abbrev pub feed : Parser → List (List ℕ) → Scanned json id
  feed p [] = (p, [])
  feed p (piece ∷ pieces) =
      let (q, events) = poll json id (push_bytes piece p) in
      let (r, later) = feed q pieces in (r, events ++ later)

  -- More bytes behind what a call of `poll` reads are left for the next call.
  poll-push_bytes :
      (more : List ℕ) (p : Parser)
      → IsWithin p
      → poll json id (push_bytes more p) ≡ (
        (poll json id (push_bytes more (poll json id p).0)).0,
        (poll json id p).1 ++ (poll json id (push_bytes more (poll json id p).0)).1,
      )
  unfolding poll push_bytes
  poll-push_bytes more p w =
      let f = length p.buffer - p.scan_pos in
      let q = (poll json id p).0 in
      let r = poll-IsRead json id p w in
      let g = length (push_bytes more q).buffer - (push_bytes more q).scan_pos in
      poll_loop-add (length (p.buffer ++ more) - p.scan_pos) f g (push_bytes more p) [] (
        rw (length-append p.buffer more, length-append q.buffer more, r.whole, r.same)
          (omega (arith, w.read)))
      ∙ (rw (poll_loop-push_bytes f more p [] (omega (arith, w.read)))
          (poll_loop-events g (push_bytes more q) (poll json id p).1))

  push_bytes-append :
      (a b : List ℕ) (p : Parser) → push_bytes b (push_bytes a p) ≡ push_bytes (a ++ b) p
  unfolding push_bytes
  push_bytes-append a b p = rw (append_assoc p.buffer a b) refl

  push_bytes-IsWithin : (a : List ℕ) (p : Parser) → IsWithin p → IsWithin (push_bytes a p)
  unfolding push_bytes
  push_bytes-IsWithin a p w = record {
    read = omega (arith, w.read, length-append p.buffer a);
    start = w.start;
  }

  poll-end : (p : Parser) → p.scan_pos ≡ length p.buffer → poll json id (push_bytes [] p) ≡ (p, [])
  unfolding poll push_bytes
  poll-end p end =
      let nothing_left : length p.buffer - p.scan_pos ≡ 0 = omega (arith, end) in
      rw (append-nil p.buffer) (ap (λ k. poll_loop json id k p []) nothing_left ∙ poll_loop-zero p)

  feed-poll_from :
      (p : Parser) (pieces : List (List ℕ))
      → IsWithin p
      → p.scan_pos ≡ length p.buffer
      → feed p pieces ≡ poll json id (push_bytes (flatten pieces) p)
  unfolding flatten
  feed-poll_from p [] w end = sym (poll-end p end)
  feed-poll_from p (piece ∷ pieces) w end =
      let w' = push_bytes-IsWithin piece p w in
      let q = (poll json id (push_bytes piece p)).0 in
      let r = poll-IsRead json id (push_bytes piece p) w' in
      rw (← push_bytes-append piece (flatten pieces) p) (
        rw (poll-push_bytes (flatten pieces) (push_bytes piece p) w')
          (rw (feed-poll_from q pieces r.within (r.whole ∙ ap length (sym r.same))) refl))

  -- However a stream is cut into pieces, a parser that is polled after each of them ends in the
  -- same state and gives the same events, in the same order, as one that gets it all at once.
  pub feed-poll :
      (pieces : List (List ℕ))
      → feed new_parser pieces ≡ poll json id (push_bytes (flatten pieces) new_parser)
  feed-poll pieces = feed-poll_from new_parser pieces (omega arith) refl
