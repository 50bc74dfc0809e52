-- ===== src/Trigger/Cron/Next.antt =====
-- When a cron expression fires next (crates/workflow/src/engine/cron.rs).
use native.Mathlib.Decide.{ℕ_discrete}
use native.Mathlib.Omega.{div_any}
use native.Mathlib.Nat.{mul-mod_left, mul_comm}
use rust_agent_framework.Common.{
  ℕ, zero, suc, ◌+◌, ◌*◌, ◌/◌, ◌%◌, ◌≤◌, ◌<◌, String, Option, true, none, some, List, [], ◌∷◌, any,
  Elem, here, there, nat_eq, Result, ok, err, ◌≡◌, ◌↔◌, inl, inr, refl, ap, subst, Bool-cases,
  or_iff, arith, AgentError,
}
use rust_agent_framework.Trigger.Cron.{
  CronField, any_value, specific, interval, Fields, Moment, field_matches, cron_weekday, all_match,
  search_from, parse_expression, next_delay, never, delay_or_never, seconds_ahead, nanos_per_second,
}

-- What a field allows.
abbrev pub Allows : CronField → ℕ → Type 0
Allows any_value value = Unit
Allows (specific vals) value = Elem value vals
Allows (interval n) value = (q : ℕ) × (value ≡ q * n)

-- Each part of a moment is allowed by its field.
pub record IsAllowed (f : Fields) (m : Moment) : Type 0 where
  pub second : Allows f.sec m.second
  pub minute : Allows f.min m.minute
  pub hour : Allows f.hour m.hour
  pub day : Allows f.day m.day
  pub month : Allows f.month m.month
  pub weekday : Allows f.weekday (cron_weekday m.weekday)

nat_eq→≡ : (a b : ℕ) → nat_eq a b ≡ true → a ≡ b
nat_eq→≡ a b h = ground arith

any→Elem : (value : ℕ) (vals : List ℕ) → any (λ v. nat_eq v value) vals ≡ true → Elem value vals
any→Elem value [] h = cc
any→Elem value (v ∷ vals) h = elim ((or_iff (nat_eq v value) _).0 h) [
  | inl same ↦ here (ground arith)
  | inr later ↦ there (any→Elem value vals later)
]

Elem→any : {value : ℕ} {vals : List ℕ} → Elem value vals → any (λ v. nat_eq v value) vals ≡ true
Elem→any {value} (here {x = v} e) = (or_iff (nat_eq v value) _).1 (inl (ground arith))
Elem→any {value} (there {x = v} m) = (or_iff (nat_eq v value) _).1 (inr (Elem→any m))

field_matches_iff : (f : CronField) (value : ℕ) → (field_matches f value ≡ true) ↔ Allows f value
unfolding field_matches
field_matches_iff any_value value = (λ h. tt, λ h. refl)
field_matches_iff (specific vals) value = (any→Elem value vals, Elem→any)
field_matches_iff (interval n) value = (
  λ h.
      (value / n, omega (arith, div_any value n, mul_comm n (value / n), nat_eq→≡ (value % n) 0 h)),
  λ h. ground (arith, ap (λ (v : ℕ). v % n) h.1, mul-mod_left h.0 n),
)

all_match_iff : (f : Fields) (m : Moment) → (all_match f m ≡ true) ↔ IsAllowed f m
unfolding all_match
all_match_iff f m =
    let sec = field_matches_iff f.sec m.second in
    let min = field_matches_iff f.min m.minute in
    let hour = field_matches_iff f.hour m.hour in
    let day = field_matches_iff f.day m.day in
    let month = field_matches_iff f.month m.month in
    let weekday = field_matches_iff f.weekday (cron_weekday m.weekday) in
    (
      λ h. record {
        second = sec.0 (ground arith);
        minute = min.0 (ground arith);
        hour = hour.0 (ground arith);
        day = day.0 (ground arith);
        month = month.0 (ground arith);
        weekday = weekday.0 (ground arith);
      },
      λ a. ground (
        arith,
        sec.1 a.second,
        min.1 a.minute,
        hour.1 a.hour,
        day.1 a.day,
        month.1 a.month,
        weekday.1 a.weekday,
      ),
    )

-- The first of `left` candidates, from the `k`-th on, that is allowed, if one is.
pub data IsFirst (f : Fields) (moment : ℕ → Moment) (k end : ℕ) : Option ℕ → Type 0 where
  found :
      (at : ℕ)
      → k ≤ at
      → at < end
      → IsAllowed f (moment at)
      → ((j : ℕ) → k ≤ j → j < at → IsAllowed f (moment j) → ⊥)
      → IsFirst f moment k end (some at)
  not_found : ((j : ℕ) → k ≤ j → j < end → IsAllowed f (moment j) → ⊥) → IsFirst f moment k end none

one_later :
    (f : Fields) (moment : ℕ → Moment) (k left : ℕ) {result : Option ℕ}
    → (IsAllowed f (moment k) → ⊥)
    → IsFirst f moment (k + 1) (k + 1 + left) result
    → IsFirst f moment k (k + suc left) result
one_later f moment k left refused (found at lo hi allowed earlier) =
    found at (omega arith) (omega arith) allowed (λ j from to a. elim (ℕ_discrete j k) [
      | yes e ↦ refused (subst (λ (n : ℕ). IsAllowed f (moment n)) e a)
      | no ne ↦ earlier j (omega arith) to a
    ])
one_later f moment k left refused (not_found none_at) = not_found (λ j from to a.
    elim (ℕ_discrete j k) [
      | yes e ↦ refused (subst (λ (n : ℕ). IsAllowed f (moment n)) e a)
      | no ne ↦ none_at j (omega arith) (omega arith) a
    ])

search_from-IsFirst :
    (f : Fields) (moment : ℕ → Moment) (left k : ℕ)
    → IsFirst f moment k (k + left) (search_from f moment left k)
unfolding search_from
search_from-IsFirst f moment zero k = not_found (λ j lo hi a. omega arith)
search_from-IsFirst f moment (suc left) k = elim (Bool-cases (all_match f (moment k))) [
  | inl h ↦
      rw (search_from, h)
        (found k (omega arith) (omega arith) ((all_match_iff f (moment k)).0 h)
          (λ j from to a. omega arith))
  | inr h ↦
      rw (search_from, h)
        (one_later f moment k left (λ a. cc ((all_match_iff f (moment k)).1 a))
          (search_from-IsFirst f moment left (k + 1)))
]

-- What `next_delay` returns for an expression that can be read: the time to the first whole second
-- after the present moment that every field allows, or an error if none within 366 days is.
pub data IsNext (expr : String) (f : Fields) (moment : ℕ → Moment) : Result ℕ → Type 0 where
  at_second :
      (k : ℕ)
      → 1 ≤ k
      → k ≤ seconds_ahead
      → IsAllowed f (moment k)
      → ((j : ℕ) → 1 ≤ j → j < k → IsAllowed f (moment j) → ⊥)
      → IsNext expr f moment (ok (k * nanos_per_second))
  never_soon :
      ((j : ℕ) → 1 ≤ j → j ≤ seconds_ahead → IsAllowed f (moment j) → ⊥)
      → IsNext expr f moment (err (never expr))

first-IsNext :
    (expr : String) (f : Fields) (moment : ℕ → Moment) {end : ℕ} {result : Option ℕ}
    → end ≡ seconds_ahead + 1
    → IsFirst f moment 1 end result
    → IsNext expr f moment (delay_or_never expr result)
first-IsNext expr f moment last (found at lo hi allowed earlier) =
    at_second at lo (omega arith) allowed earlier
first-IsNext expr f moment last (not_found none_at) =
    never_soon (λ j from to a. none_at j from (omega arith) a)

-- For an expression that can be read, the search for the next firing ends with the first whole
-- second after the present one whose parts the six fields all allow, within 366 days, and with an
-- error where there is none; an expression that cannot be read gives the error of its reading.
pub next_delay-IsNext :
    (expr : String) (moment : ℕ → Moment)
    → ((f : Fields) → parse_expression expr ≡ ok f → IsNext expr f moment (next_delay expr moment))
      × ((e : AgentError) → parse_expression expr ≡ err e → next_delay expr moment ≡ err e)
unfolding next_delay
next_delay-IsNext expr moment = (
  λ f read.
      rw (next_delay, read)
        (first-IsNext expr f moment (omega arith) (search_from-IsFirst f moment seconds_ahead 1)),
  λ e unread. rw (next_delay, unread) refl,
)
