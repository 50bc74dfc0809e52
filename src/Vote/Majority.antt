-- ===== src/Vote/Majority.antt =====
-- Who wins a majority vote (vote.rs of crates/workflow/src/orchestrations).
use native.Mathlib.Decide.{dec_le}
use rust_agent_framework.Common.{
  ℕ, suc, ◌+◌, ◌≤◌, String, Option, none, some, List, [], ◌∷◌, if◌then◌else◌, ltb, ◌==◌, Elem, here,
  there, Map, get, insert, update_entry, or_default, get-insert, get-update_entry, Result, ok, ◌≡◌,
  refl, ap, ◌∙◌, subst, eq_iff, eq_refl, Bool-cases, Option-cases, inl, inr, ◌⊎◌, length, ltb→lt,
  arith, ◌↔◌,
}
use rust_agent_framework.Vote.{
  count_votes, better, max_from, max_by_count, winner_or_panic, majority,
}

-- How often a text was voted for.
abbrev pub votes_for : String → List String → ℕ
votes_for x [] = 0
votes_for x (v ∷ votes) = let rest = votes_for x votes in if v == x then suc rest else rest

-- The keys of a table are different.
abbrev IsKeyed : Map ℕ → Type 0
IsKeyed [] = Unit
IsKeyed ((k, c) ∷ m) = (get m k ≡ none) × IsKeyed m

insert-IsKeyed : (k : String) (c : ℕ) (m : Map ℕ) → IsKeyed m → IsKeyed (insert k c m)
unfolding get insert
insert-IsKeyed k c [] u = (refl, tt)
insert-IsKeyed k c ((j, d) ∷ m) u = elim (Bool-cases (j == k)) [
  | inl same ↦ rw same u
  | inr other ↦
      rw other
        (ground (arith, get-insert k j c m, eq_iff k j, eq_iff j k, u.0), insert-IsKeyed k c m u.1)
]

Elem→get : {k : String} {c : ℕ} (m : Map ℕ) → IsKeyed m → Elem (k, c) m → get m k ≡ some c
unfolding get
Elem→get [] u e = elim e [ ]
Elem→get {k} {c} ((j, d) ∷ m) u (here e) =
    ground (arith, ap (λ (p : String × ℕ). p.0) e, ap (λ (p : String × ℕ). p.1) e, eq_iff j k)
Elem→get {k} ((j, d) ∷ m) u (there e) = ground (arith, Elem→get m u.1 e, u.0, eq_iff j k)

get→Elem : (k : String) {c : ℕ} (m : Map ℕ) → get m k ≡ some c → Elem (k, c) m
unfolding get
get→Elem k [] e = cc
get→Elem k ((j, d) ∷ m) e = elim (Bool-cases (j == k)) [
  | inl same ↦ here (cc ((eq_iff j k).0 same, rw same at e))
  | inr other ↦ there (get→Elem k m (rw other at e))
]

count_votes-IsKeyed : (votes : List String) (m : Map ℕ) → IsKeyed m → IsKeyed (count_votes votes m)
unfolding count_votes update_entry
count_votes-IsKeyed [] m u = u
count_votes-IsKeyed (v ∷ votes) m u =
    count_votes-IsKeyed votes (update_entry v 0 (λ c. c + 1) m) (insert-IsKeyed v _ m u)

get-count_votes :
    (votes : List String) (m : Map ℕ) (x : String)
    → or_default 0 (get (count_votes votes m) x) ≡ or_default 0 (get m x) + votes_for x votes
unfolding count_votes
get-count_votes [] m x = omega arith
get-count_votes (v ∷ votes) m x =
    let rest = get-count_votes votes (update_entry v 0 (λ c. c + 1) m) x in
    rw (rest, get-update_entry v x 0 (λ c. c + 1) m) (ground (arith, eq_iff v x))

better-of : (p q : String × ℕ) → (better p q ≡ p) ⊎ (better p q ≡ q)
better-of (k, c) (k', c') = elim (Bool-cases (ltb c' c)) [
  | inl h ↦ inl (rw h refl)
  | inr h ↦ inr (rw h refl)
]

better-le : (p q : String × ℕ) → (p.1 ≤ (better p q).1) × (q.1 ≤ (better p q).1)
better-le (k, c) (k', c') = elim (Bool-cases (ltb c' c)) [
  | inl h ↦ rw h (omega arith, omega (arith, ltb→lt c' c h))
  | inr h ↦ rw h (ground arith, omega arith)
]

max_from-le :
    (best : String × ℕ) (counts : Map ℕ) (k : String) (c : ℕ)
    → Elem (k, c) (best ∷ counts)
    → c ≤ (max_from best counts).1
unfolding max_from
max_from-le best [] k c (here e) = omega (arith, ap (λ (p : String × ℕ). p.1) e)
max_from-le best [] k c (there e) = elim e [ ]
max_from-le best (q ∷ counts) k c (here e) = omega (
  arith,
  ap (λ (p : String × ℕ). p.1) e,
  better-le best q,
  max_from-le (better best q) counts (better best q).0 (better best q).1 (here refl),
)
max_from-le best (q ∷ counts) k c (there (here e)) = omega (
  arith,
  ap (λ (p : String × ℕ). p.1) e,
  better-le best q,
  max_from-le (better best q) counts (better best q).0 (better best q).1 (here refl),
)
max_from-le best (q ∷ counts) k c (there (there e)) =
    max_from-le (better best q) counts k c (there e)

Elem-max_from : (best : String × ℕ) (counts : Map ℕ) → Elem (max_from best counts) (best ∷ counts)
unfolding max_from
Elem-max_from best [] = here refl
Elem-max_from best (q ∷ counts) = later (Elem-max_from (better best q) counts)
  where
    later : {r : String × ℕ} → Elem r (better best q ∷ counts) → Elem r (best ∷ q ∷ counts)
    later (here e) = elim (better-of best q) [
      | inl first ↦ here (e ∙ first)
      | inr second ↦ there (here (e ∙ second))
    ]
    later (there e) = there (there e)

-- A winner got a vote, and none got more.
pub record IsWinner (votes : List String) (result : Option (Result String)) : Type 0 where
  pub winner : String
  pub is_result : result ≡ some (ok winner)
  pub is_voted : 1 ≤ votes_for winner votes
  pub is_most : (x : String) → votes_for x votes ≤ votes_for winner votes

module _ (walk : Map ℕ → Map ℕ) where
  -- The walk through a table shows its entries, in any order.
  abbrev pub Shows : Type 0
  Shows = (m : Map ℕ) (e : String × ℕ) → Elem e (walk m) ↔ Elem e m

  counted :
      (votes : List String) (x : String)
      → or_default 0 (get (count_votes votes []) x) ≡ votes_for x votes
  unfolding get
  counted votes x = omega (arith, get-count_votes votes [] x)

  entry_of :
      (votes : List String) (x : String)
      → 1 ≤ votes_for x votes
      → Elem (x, votes_for x votes) (count_votes votes [])
  entry_of votes x some_vote = elim (Option-cases (get (count_votes votes []) x)) [
    | inl e ↦ absurd (omega (arith, some_vote, rw e at (counted votes x)))
    | inr (c, e) ↦
        get→Elem x (count_votes votes []) (e ∙ ap (λ (n : ℕ). some n) (rw e at (counted votes x)))
  ]

  count_of_entry :
      (votes : List String) (k : String) (c : ℕ)
      → Elem (k, c) (count_votes votes [])
      → c ≡ votes_for k votes
  count_of_entry votes k c e =
      let at = Elem→get (count_votes votes []) (count_votes-IsKeyed votes [] tt) e in
      rw at at (counted votes k)

  shown-IsWinner :
      (votes : List String) (voted : String) (shown : Map ℕ)
      → 1 ≤ votes_for voted votes
      → ((e : String × ℕ) → Elem e shown ↔ Elem e (count_votes votes []))
      → IsWinner votes (winner_or_panic (max_by_count shown))
  shown-IsWinner votes voted [] h same =
      elim ((same (voted, votes_for voted votes)).1 (entry_of votes voted h)) [ ]
  shown-IsWinner votes voted (q ∷ shown) h same =
      let best = max_from q shown in
      let exact = count_of_entry votes best.0 best.1 ((same best).0 (Elem-max_from q shown)) in
      let most : (x : String) → votes_for x votes ≤ votes_for best.0 votes = λ x.
        elim (dec_le 1 (votes_for x votes)) [
          | yes voted' ↦
              subst (λ (n : ℕ). votes_for x votes ≤ n) exact
                (max_from-le q shown x (votes_for x votes)
                  ((same (x, votes_for x votes)).1 (entry_of votes x voted')))
          | no none' ↦ omega arith
        ] in
      record {
        winner = best.0;
        is_result = refl;
        is_voted = omega (arith, most voted, h);
        is_most = most;
      }

  -- A majority vote of one vote at least never panics, in whatever order the walk shows the
  -- entries of the table: the winner was voted for, and no text was voted for more often.
  pub majority-IsWinner :
      (votes : List String) → Shows → 1 ≤ length votes → IsWinner votes (majority walk votes)
  unfolding majority
  majority-IsWinner [] shows some_vote = absurd (omega (arith, some_vote))
  majority-IsWinner (v ∷ votes) shows some_vote =
      shown-IsWinner (v ∷ votes) v (walk (count_votes (v ∷ votes) []))
        (rw (eq_refl v) (omega arith)) (shows (count_votes (v ∷ votes) []))
