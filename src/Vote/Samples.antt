-- ===== src/Vote/Samples.antt =====
-- Three votes, walked in two orders.
use rust_agent_framework.Common.{
  ℕ, String, some, List, [], ◌∷◌, ok, err, workflow_error, Map, ◌≡◌, refl, arith,
}
use rust_agent_framework.Vote.{majority, unanimous}
use rust_agent_framework.Vote.Majority.{IsWinner, majority-IsWinner}

abbrev ballots : List String
ballots = "yes" ∷ "no" ∷ "yes" ∷ []

abbrev as_it_is : Map ℕ → Map ℕ
as_it_is m = m

wins : majority as_it_is ballots ≡ some (ok "yes")
unfolding majority
wins = refl

-- Of equals the table's order decides.
last_of_equals : majority as_it_is ("a" ∷ "b" ∷ []) ≡ some (ok "b")
unfolding majority
last_of_equals = refl

split_vote : unanimous ballots ≡ err (workflow_error "Votes are not unanimous")
unfolding unanimous
split_vote = refl

majority-IsWinner_example : IsWinner ballots (majority as_it_is ballots)
majority-IsWinner_example =
    majority-IsWinner as_it_is ballots (λ m e. (λ h. h, λ h. h)) (omega arith)
