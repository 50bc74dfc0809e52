-- ===== src/Engine/Prepare/Rounds.antt =====
-- The rounds of a loop node (`LoopOptions` in `execute_loop` of
-- crates/workflow/src/engine/engine.rs).
use rust_agent_framework.Common.{
  ℕ, zero, suc, ◌+◌, ◌-◌, ◌%◌, ◌^◌, ◌≤◌, ◌<◌, min, String, some, [], ◌∷◌, ◌++◌, length,
  length-append, ltb, leb, Bool-cases, Map, insert, get-insert, eq_refl, ◌≡◌, ◌&&◌, ◌⊎◌, inl, inr,
  ap, arith,
}
use mathlib.Core.Option
use rust_agent_framework.Graph.{LoopOptions}
use rust_agent_framework.Engine.{Task, Outside}
use rust_agent_framework.Engine.Prepare.{
  Prep, i32_mod, as_i32, ge_i32, loop_var, iteration, loop_exhausted, enter_node,
}

-- On numbers that are not negative, the order of bit patterns is the order of numbers.
ge_i32-leb : (a b : ℕ) → a < 2 ^ 31 → b < 2 ^ 31 → ge_i32 a b ≡ leb b a
ge_i32-leb a b ha hb = ground arith

module _ {C V W : Type 0} (outside : Outside C V W)
    (reads_back : (w : ℕ)
      → w < i32_mod
      → (b : ℕ) × (outside.as_i64 (outside.of_i32 w) ≡ some b) × (b % i32_mod ≡ w)) where
  iteration-insert :
      (var : String) (w : ℕ) (state : Map V)
      → w < i32_mod
      → iteration outside var (insert var (outside.of_i32 w) state) ≡ w
  unfolding iteration Option.bind
  iteration-insert var w state h =
      let (b, e, same) = reads_back w h in
      rw (get-insert var var (outside.of_i32 w) state, eq_refl var) (rw e same)

  exhausted-leb :
      (cfg : LoopOptions) (c : ℕ)
      → cfg.max_iterations < 2 ^ 31
      → c ≤ cfg.max_iterations
      → loop_exhausted outside cfg c ≡ (ltb 0 cfg.max_iterations && leb cfg.max_iterations c)
  exhausted-leb cfg c small le =
      let same : as_i32 cfg.max_iterations ≡ cfg.max_iterations = omega arith in
      rw (same, ge_i32-leb c cfg.max_iterations (omega arith) small)

  -- One more visit to a loop node: the next round, or none.
  pub enter_node_round :
      (task : Task C V W) (cfg : LoopOptions) (p : Prep C V W)
      → 0 < cfg.max_iterations
      → cfg.max_iterations < 2 ^ 31
      → iteration outside (loop_var task.node_id cfg) p.state_map ≤ cfg.max_iterations
      → ((iteration outside (loop_var task.node_id cfg) p.state_map ≡ cfg.max_iterations)
          × (enter_node outside task (some cfg) p ≡ p))
        ⊎ ((iteration outside (loop_var task.node_id cfg) p.state_map < cfg.max_iterations)
            × (iteration outside
                  (loop_var task.node_id cfg)
                  (enter_node outside task (some cfg) p).state_map
                ≡ iteration outside (loop_var task.node_id cfg) p.state_map + 1)
            × ((enter_node outside task (some cfg) p).tasks ≡ p.tasks ++ task ∷ []))
  unfolding enter_node
  enter_node_round task cfg p pos small le =
      let c = iteration outside (loop_var task.node_id cfg) p.state_map in
      let more = iteration-insert (loop_var task.node_id cfg) (c + 1) p.state_map (omega arith) in
      elim (Bool-cases (loop_exhausted outside cfg c)) [
        | inl full ↦ inl (ground (arith, exhausted-leb cfg c small le), rw full)
        | inr room ↦
            let below : c < cfg.max_iterations = ground (arith, exhausted-leb cfg c small le) in
            let fits : as_i32 (c + 1) ≡ c + 1 = omega arith in
            inr (below, rw (room, fits) more, rw room)
      ]

  abbrev pub visits : ℕ → Task C V W → LoopOptions → Prep C V W → Prep C V W
  visits zero task cfg p = p
  visits (suc n) task cfg p = visits n task cfg (enter_node outside task (some cfg) p)

  -- However often messages bring a loop node into a step, it runs for the rounds that its counter
  -- has left and no more: `n` visits in a row start the lesser of `n` and `max_iterations` less the
  -- counter. The maximum is positive and fits an `i32`, and the counter has not passed it.
  pub visits_bound :
      (n : ℕ) (task : Task C V W) (cfg : LoopOptions) (p : Prep C V W)
      → 0 < cfg.max_iterations
      → cfg.max_iterations < 2 ^ 31
      → iteration outside (loop_var task.node_id cfg) p.state_map ≤ cfg.max_iterations
      → length (visits n task cfg p).tasks
        ≡ length p.tasks
          + min n (cfg.max_iterations - iteration outside (loop_var task.node_id cfg) p.state_map)
  visits_bound zero task cfg p pos small le = omega arith
  visits_bound (suc n) task cfg p pos small le = elim (enter_node_round task cfg p pos small le) [
    | inl (full, same) ↦ omega (
      arith,
      ap (λ q. length (visits n task cfg q).tasks) same,
      visits_bound n task cfg p pos small le,
      full,
    )
    | inr (below, more, pushed) ↦ omega (
      arith,
      visits_bound n task cfg (enter_node outside task (some cfg) p) pos small (omega arith),
      more,
      ap length pushed,
      length-append p.tasks (task ∷ []),
    )
  ]
