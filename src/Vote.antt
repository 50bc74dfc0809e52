-- ===== src/Vote.antt =====
-- How votes are counted: the aggregators of crates/workflow/src/orchestrations/vote.rs. A hash
-- table is an association list; the order in which it is walked decides among equals.
pub mod Majority
mod Samples
use rust_agent_framework.Common.{
  ℕ, ◌+◌, String, Bool, true, false, not, ◌||◌, Option, none, some, List, [], ◌∷◌, if◌then◌else◌,
  ltb, nat_eq, ◌==◌, length, all, Map, update_entry, workflow_error, Result, ok, err,
}

-- `*counts.entry(v).or_default() += 1`
unfoldable pub count_votes : List String → Map ℕ → Map ℕ
unfolding update_entry
count_votes [] counts = counts
count_votes (v ∷ votes) counts = count_votes votes (update_entry v 0 (λ c. c + 1) counts)

-- `max_by_key`: of two entries the later stays, unless its count is less.
abbrev pub better : String × ℕ → String × ℕ → String × ℕ
better (k, c) (k', c') = if ltb c' c then (k, c) else (k', c')

unfoldable pub max_from : String × ℕ → Map ℕ → String × ℕ
max_from best [] = best
max_from best (e ∷ counts) = max_from (better best e) counts

abbrev pub max_by_count : Map ℕ → Option (String × ℕ)
max_by_count [] = none
max_by_count (e ∷ counts) = some (max_from e counts)

-- `.map(|(k, _)| *k).unwrap()`
abbrev pub winner_or_panic : {A : Type 0} → Option (String × A) → Option (Result String)
winner_or_panic none = none
winner_or_panic (some (k, a)) = some (ok k)

-- `MajorityAggregator::aggregate`; `walk` is the order of the table. `none` is the panic of the
-- `unwrap`.
unfoldable pub majority : (Map ℕ → Map ℕ) → List String → Option (Result String)
unfolding count_votes max_from
majority walk [] = some (err (workflow_error "No votes to aggregate"))
majority walk (v ∷ votes) = winner_or_panic (max_by_count (walk (count_votes (v ∷ votes) [])))

-- `UnanimousAggregator::aggregate`
unfoldable pub unanimous : List String → Result String
unanimous [] = err (workflow_error "No votes")
unanimous (first ∷ votes) =
    if all (λ v. v == first) (first ∷ votes)
    then ok first
    else err (workflow_error "Votes are not unanimous")

-- The sum of each vote's weights; the weights are floats.
module _ {F : Type 0} (zero_weight : F) (add : F → F → F) where
  unfoldable pub weigh_votes : List String → List F → Map F → Map F
  unfolding update_entry
  weigh_votes [] weights weighted = weighted
  weigh_votes (v ∷ votes) [] weighted = weighted
  weigh_votes (v ∷ votes) (w ∷ weights) weighted =
      weigh_votes votes weights (update_entry v zero_weight (λ sum. add sum w) weighted)

  -- `max_by` with `partial_cmp`: the later of two entries stays, unless it is less.
  abbrev pub heavier : (F → F → Bool) → String × F → String × F → String × F
  heavier less (k, w) (k', w') = if less w' w then (k, w) else (k', w')

  unfoldable pub heaviest_from : (F → F → Bool) → String × F → Map F → String × F
  heaviest_from less best [] = best
  heaviest_from less best (e ∷ weighted) = heaviest_from less (heavier less best e) weighted

  abbrev pub max_by_weight : (F → F → Bool) → Map F → Option (String × F)
  max_by_weight less [] = none
  max_by_weight less (e ∷ weighted) = some (heaviest_from less e weighted)

  -- `WeightedAggregator::aggregate`
  unfoldable pub weighted_vote :
      (F → F → Bool) → (Map F → Map F) → List F → List String → Option (Result String)
  unfolding weigh_votes heaviest_from
  weighted_vote less walk weights votes =
      if nat_eq (length votes) 0 || not (nat_eq (length votes) (length weights))
      then some (err (workflow_error "Vote count must match weight count"))
      else winner_or_panic (max_by_weight less (walk (weigh_votes votes weights [])))
