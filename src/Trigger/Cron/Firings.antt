-- ===== src/Trigger/Cron/Firings.antt =====
-- What a cron trigger passes on over its firings (crates/workflow/src/engine/cron.rs).
use native.Mathlib.Nat.{mod-eq_of_lt}
use rust_agent_framework.Common.{
  ℕ, zero, suc, ◌+◌, ◌-◌, ◌%◌, ◌^◌, ◌<◌, Bool, true, false, ◌&&◌, List, [], ◌∷◌, ◌++◌, take, length,
  if◌then◌else◌, ltb, leb, nat_eq, Result, ok, err, ◌≡◌, inl, inr, refl, ap, ◌∙◌, Bool-cases, arith,
  eq_refl,
}
use rust_agent_framework.Engine.{HandlerResult, messages, Work}
use rust_agent_framework.Engine.Context.{schedule_timer}
use rust_agent_framework.Trigger.{Cell, set_world}
use rust_agent_framework.Trigger.Catch.{sent_by}
use rust_agent_framework.Trigger.Cron.{
  Moment, CronTrigger, CronState, next_delay, note_cron, handle_cron, schedule_result,
}

module _ {W : Type 0} (moment : W → ℕ → Moment) (t : CronTrigger) where
  -- The calendar always knows a next firing.
  abbrev pub AlwaysNext : Type 0
  AlwaysNext = (w : W) → (delay : ℕ) × (next_delay t.expression (moment w) ≡ ok delay)

-- Whether the count has come to the number of iterations.
abbrev pub is_last : CronTrigger → ℕ → Bool
is_last t count = ltb 0 t.max_iterations && leb t.max_iterations count

take-zero : {C : Type 0} (n : ℕ) (xs : List C) → n ≡ 0 → take n xs ≡ []
take-zero zero xs e = refl
take-zero (suc n) xs e = absurd (omega (arith, e))

take-nil : {C : Type 0} (n : ℕ) → take {A = C} n [] ≡ []
take-nil zero = refl
take-nil (suc n) = refl

take-suc :
    {C : Type 0} (n : ℕ) (x : C) (xs : List C) → 0 < n → take n (x ∷ xs) ≡ x ∷ take (n - 1) xs
take-suc zero x xs h = absurd (omega (arith, h))
take-suc (suc n) x xs h = ap (λ (m : ℕ). x ∷ take m xs) (omega arith)

-- One firing more, and one message less that is left.
take-step :
    {C : Type 0} (t : CronTrigger) (count : ℕ) (x : C) (xs : List C)
    → (if is_last t (count + 1) then [] else x ∷ [])
        ++ (if nat_eq t.max_iterations 0 then xs else take (t.max_iterations - 1 - (count + 1)) xs)
      ≡ (if nat_eq t.max_iterations 0 then x ∷ xs else take (t.max_iterations - 1 - count) (x ∷ xs))
take-step t count x xs =
    let left = t.max_iterations - 1 - count in
    let same : left - 1 ≡ t.max_iterations - 1 - (count + 1) = omega arith in
    elim (Bool-cases (is_last t (count + 1))) [
      | inl h ↦
          ground (arith, take-zero (t.max_iterations - 1 - (count + 1)) xs, take-zero left (x ∷ xs))
      | inr h ↦ ground (arith, take-suc left x xs, same)
    ]

module _ {C V W : Type 0} (cell : Cell W CronState) (now : W → ℕ) (moment : W → ℕ → Moment)
    (t : CronTrigger) where
  -- The timer fires, and then the node gets a message: what one turn sends.
  abbrev pub turn : C → Work C V W → Result (HandlerResult C) × Work C V W
  turn msg ctx =
      handle_cron cell now moment t msg
        (set_world (note_cron cell t t.timer_name ctx.shared.world) ctx)

  abbrev pub turns : List C → Work C V W → List C
  turns [] ctx = []
  turns (msg ∷ msgs) ctx = sent_by (turn msg ctx).0 ++ turns msgs (turn msg ctx).1

  sent-schedule_result :
      (result : HandlerResult C) (ctx : Work C V W) (r : Result ℕ) {delay : ℕ}
      → r ≡ ok delay
      → (sent_by (schedule_result cell now moment t result ctx r).0 ≡ sent_by (ok result))
        × ((schedule_result cell now moment t result ctx r).1.shared.world ≡ ctx.shared.world)
  unfolding schedule_timer
  sent-schedule_result result ctx (ok d) e = (refl, refl)
  sent-schedule_result result ctx (err x) e = cc

  -- What a call does when its timer has fired.
  abbrev Turned : C → ℕ → Result (HandlerResult C) × Work C V W → Type 0
  Turned msg count r =
      (sent_by r.0 ≡ (if is_last t count then [] else msg ∷ []))
      × ((cell.read r.1.shared.world).iteration ≡ count)

  handle-fired :
      (msg : C) (ctx : Work C V W) (i : ℕ)
      → AlwaysNext moment t
      → cell.read ctx.shared.world ≡ record { is_fired = true; iteration = i }
      → i + 1 < 2 ^ 64
      → Turned msg (i + 1) (handle_cron cell now moment t msg ctx)
  unfolding handle_cron
  handle-fired msg ctx i always at small =
      let count : (i + 1) % 2 ^ 64 ≡ i + 1 = mod-eq_of_lt small in
      let w' = cell.write (record { is_fired = false; iteration = i + 1 }) ctx.shared.world in
      let back =
        cell.read-write (record { is_fired = false; iteration = i + 1 }) ctx.shared.world in
      let (delay, next) = always w' in
      let done =
        sent-schedule_result (messages (msg ∷ [])) (set_world w' ctx)
          (next_delay t.expression (moment w')) next in
      rw (handle_cron, at, count)
        (elim (Bool-cases (is_last t (i + 1))) [
          | inl h ↦ rw h (refl, ap (λ (s : CronState). s.iteration) back)
          | inr h ↦ rw h (
            done.0,
            ap (λ (w : W). (cell.read w).iteration) done.1
                ∙ ap (λ (s : CronState). s.iteration) back,
          )
        ])

  -- The trigger's count of firings so far.
  abbrev pub count_at : Work C V W → ℕ
  count_at ctx = (cell.read ctx.shared.world).iteration

  turn-Turned :
      (msg : C) (ctx : Work C V W)
      → AlwaysNext moment t
      → count_at ctx + 1 < 2 ^ 64
      → Turned msg (count_at ctx + 1) (turn msg ctx)
  unfolding note_cron
  turn-Turned msg ctx always small =
      let world = ctx.shared.world in
      let fired : CronState = record (cell.read world) { is_fired = true } in
      rw (note_cron, eq_refl t.timer_name)
        (handle-fired msg (set_world (cell.write fired world) ctx) (count_at ctx) always
          (cell.read-write fired world) small)

  -- Where the calendar always knows a next firing, and the count of firings fits 64 bits, the
  -- messages that a cron trigger is shown as its timer fires are passed on: all of them with
  -- `max_iterations` 0, and else the first ones, one less than that number, less what it had fired
  -- before.
  pub turns-take :
      (msgs : List C) (ctx : Work C V W)
      → AlwaysNext moment t
      → count_at ctx + length msgs < 2 ^ 64
      → turns msgs ctx ≡ (
          if nat_eq t.max_iterations 0
          then msgs
          else take (t.max_iterations - 1 - count_at ctx) msgs)
  turns-take [] ctx always small =
      ground (arith, take-nil {C = C} (t.max_iterations - 1 - count_at ctx))
  turns-take (msg ∷ msgs) ctx always small =
      let (sent, counted) = turn-Turned msg ctx always (omega arith) in
      let rest = turns-take msgs (turn msg ctx).1 always (omega (arith, counted)) in
      rw (sent, rest, counted) (take-step t (count_at ctx) msg msgs)
