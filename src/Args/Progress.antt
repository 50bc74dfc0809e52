-- ===== src/Args/Progress.antt =====
-- What the parser reports of a text that is still arriving (crates/core/src/incremental_json.rs).
use rust_agent_framework.Common.{
  ℕ, zero, suc, ◌+◌, ◌-◌, ◌*◌, ◌≤◌, ◌<◌, ◌≡◌, subst, not, ◌&&◌, lt→leb_false, refl, sym, ◌∙◌, ap,
  String, false, Option-cases, Option, some, List, [], ◌∷◌, ◌++◌, if◌then◌else◌, length, get_elem?,
  arith, inl, inr, append-nil, append_assoc, drop, length-append, mem, All, nat_eq,
}
use rust_agent_framework.Args.{
  Json, in_string, Parser, push_bytes, ArgsEvent, parsed, progress, slice,
}
use rust_agent_framework.Args.{advance, is_in_string, is_ascii_whitespace}
use rust_agent_framework.Args.Scan.{
  emit_progress, scan_in_string, scan_state, scan_byte, poll_loop, poll,
}
use rust_agent_framework.Args.Pieces.{poll_loop-some}
use native.Mathlib.Numerals.{add-one}
use rust_agent_framework.Args.Bounds.{get_elem?-none, IsWithin}

All-drop {ℓ κ} :
    {A : Type ℓ} (P : A → Type κ) (xs : List A) (i : ℕ) {a : A}
    → get_elem? xs i ≡ some a
    → All P (drop i xs)
    → P a × All P (drop (suc i) xs)
All-drop P [] i e h = cc
All-drop P (x ∷ xs) zero {a} e h = (subst P (cc) h.0, h.1)
All-drop P (x ∷ xs) (suc i) e h = All-drop P xs i e h

held_step :
    (n d rest : ℕ)
    → rest * 2 ≡ n * (n + 1 + 2 * (d + 1))
    → (d + 1 + rest) * 2 ≡ suc n * (suc n + 1 + 2 * d)
held_step n d rest h = grind arith

drop-append {ℓ} : {A : Type ℓ} (xs ys : List A) → drop (length xs) (xs ++ ys) ≡ ys
drop-append [] ys = refl
drop-append (x ∷ xs) ys = drop-append xs ys

module _ (json : Json) (id : String) where
  -- The reports of the next bytes of a text: each holds all that came since its start.
  abbrev pub reports : String → List ℕ → ℕ → ℕ → ℕ → List (ArgsEvent json.Value)
  reports k buffer start pos zero = []
  reports k buffer start pos (suc n) =
      progress id k (pos + 1 - start)
        (json.text (json.from_utf8_lossy (slice start (pos + 1) buffer)))
      ∷ reports k buffer start (pos + 1) n

  -- Bytes that neither end a text nor escape.
  abbrev pub IsPlain : ℕ → Type 0
  IsPlain ch = (nat_eq ch b'"' ≡ false) × (nat_eq ch b'\\' ≡ false)

  -- A parser within the text of a key that is not done.
  pub record IsReading (k : String) (p : Parser) : Type 0 where
    pub reading : p.state ≡ in_string
    pub key : p.current_key ≡ some k
    pub fresh : mem k p.emitted_keys ≡ false
    pub within : IsWithin p
    pub reported : p.last_progress_received ≤ p.scan_pos - p.value_start

  abbrev next : Parser → Parser
  next p =
      advance (record p { escape = false; last_progress_received = p.scan_pos + 1 - p.value_start })

  scan_byte-in_string :
      (ch : ℕ) (p : Parser)
      → p.state ≡ in_string
      → scan_byte json id ch p ≡ scan_in_string json id ch p
  unfolding scan_byte scan_state
  scan_byte-in_string ch p e =
      subst
        (λ s.
          (if not (is_in_string s) && is_ascii_whitespace ch
            then (advance p, [])
            else scan_state json id s ch p)
          ≡ scan_in_string json id ch p)
        (sym e) refl

  emit_progress-news :
      (k : String) (buffer : List ℕ) (key : Option String) (emitted : List String)
      (start pos last : ℕ)
      → key ≡ some k
      → mem k emitted ≡ false
      → last < pos - start
      → emit_progress json id buffer key emitted start pos last ≡ (
        pos - start,
        progress id k (pos - start) (json.text (json.from_utf8_lossy (slice start pos buffer)))
            ∷ [],
      )
  unfolding emit_progress
  emit_progress-news k buffer key emitted start pos last e fresh lt =
      rw (e, fresh, lt→leb_false _ _ lt) refl

  scan_byte_plain :
      (k : String) (ch : ℕ) (p : Parser)
      → IsPlain ch
      → IsReading k p
      → scan_byte json id ch p ≡ (next p, reports k p.buffer p.value_start p.scan_pos 1)
  unfolding scan_in_string
  scan_byte_plain k ch p plain r =
      scan_byte-in_string ch p r.reading
      ∙ rw (plain.1, plain.0)
          (rw
            (emit_progress-news k p.buffer p.current_key p.emitted_keys p.value_start
              (p.scan_pos + 1) p.last_progress_received r.key r.fresh
              (omega (arith, r.reported, r.within.start)))
            refl)

  next-IsReading :
      (k : String) (p : Parser)
      → IsReading k p
      → p.scan_pos < length p.buffer
      → IsReading k (next p)
  next-IsReading k p r lt = record {
    reading = r.reading;
    key = r.key;
    fresh = r.fresh;
    within = record { read = omega arith; start = omega (arith, r.within.start) };
    reported = omega arith;
  }

  poll_loop-reports :
      (k : String) (fuel : ℕ) (p : Parser) (events : List (ArgsEvent json.Value))
      → IsReading k p
      → length p.buffer ≡ p.scan_pos + fuel
      → All IsPlain (drop p.scan_pos p.buffer)
      → (poll_loop json id fuel p events).1
        ≡ events ++ reports k p.buffer p.value_start p.scan_pos fuel
  unfolding poll_loop
  poll_loop-reports k zero p events r h plain = sym (append-nil events)
  poll_loop-reports k (suc fuel) p events r h plain =
      elim (Option-cases (get_elem? p.buffer p.scan_pos)) [
        | inl e ↦ absurd (omega (arith, get_elem?-none p.buffer p.scan_pos e))
        | inr (ch, e) ↦
            let (here, later) = All-drop IsPlain p.buffer p.scan_pos e plain in
            rw (poll_loop-some json id fuel p events e) (
              rw (scan_byte_plain k ch p here r) (
                poll_loop-reports k fuel (next p)
                  (events ++ reports k p.buffer p.value_start p.scan_pos 1)
                  (next-IsReading k p r (omega (arith, h))) (omega (arith, h)) (rw add-one later)
                ∙ append_assoc events (reports k p.buffer p.value_start p.scan_pos 1)
                    (reports k p.buffer p.value_start (p.scan_pos + 1) fuel)))
      ]

  -- The bytes of a text that events hold.
  abbrev pub held : List (ArgsEvent json.Value) → ℕ
  held [] = 0
  held (parsed _ _ _ ∷ events) = held events
  held (progress _ _ n _ ∷ events) = n + held events

  held-reports :
      (k : String) (buffer : List ℕ) (start pos n d : ℕ)
      → pos ≡ start + d
      → held (reports k buffer start pos n) * 2 ≡ n * (n + 1 + 2 * d)
  held-reports k buffer start pos zero d h = omega arith
  held-reports k buffer start pos (suc n) d h =
      let more : pos + 1 - start ≡ d + 1 = omega (arith, h) in
      rw more (
        held_step n d (held (reports k buffer start (pos + 1) n))
          (held-reports k buffer start (pos + 1) n (d + 1) (omega (arith, h))))

  push_bytes-IsReading :
      (k : String) (bytes : List ℕ) (p : Parser) → IsReading k p → IsReading k (push_bytes bytes p)
  unfolding push_bytes
  push_bytes-IsReading k bytes p r = record {
    reading = r.reading;
    key = r.key;
    fresh = r.fresh;
    within = record {
      read = omega (arith, r.within.read, length-append p.buffer bytes);
      start = r.within.start;
    };
    reported = r.reported;
  }

  -- At the start of a text, `n` bytes that neither end it nor escape make `n` events, each of which
  -- holds all the bytes so far, `n * (n + 1) / 2` together.
  pub poll-held :
      (k : String) (bytes : List ℕ) (p : Parser)
      → IsReading k p
      → p.value_start ≡ p.scan_pos
      → p.scan_pos ≡ length p.buffer
      → All IsPlain bytes
      → ((poll json id (push_bytes bytes p)).1
          ≡ reports k (p.buffer ++ bytes) p.value_start p.scan_pos (length bytes))
        × (held (poll json id (push_bytes bytes p)).1 * 2 ≡ length bytes * (length bytes + 1))
  unfolding poll push_bytes
  poll-held k bytes p r start end plain =
      let n : length (p.buffer ++ bytes) - p.scan_pos ≡ length bytes =
        omega (arith, length-append p.buffer bytes) in
      let told =
        poll_loop-reports k (length (p.buffer ++ bytes) - p.scan_pos) (push_bytes bytes p) []
          (push_bytes-IsReading k bytes p r) (omega (arith, length-append p.buffer bytes))
          (rw (end, drop-append p.buffer bytes) plain) in
      let told' = told ∙ ap (reports k (p.buffer ++ bytes) p.value_start p.scan_pos) n in
      (
        told',
        ap (λ e. held e * 2) told'
            ∙ held-reports k (p.buffer ++ bytes) p.value_start p.scan_pos (length bytes) 0
                (omega (arith, start))
            ∙ omega arith,
      )
