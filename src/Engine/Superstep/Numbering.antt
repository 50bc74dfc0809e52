-- ===== src/Engine/Superstep/Numbering.antt =====
-- What a superstep leaves behind (`execute_loop` of crates/workflow/src/engine/engine.rs): the
-- step numbers, the checkpoint, and on a failure the compensation in their place.
use rust_agent_framework.Common.{
  ◌+◌, ◌%◌, ◌^◌, String, Option, none, some, List, [], ◌∷◌, ◌++◌, Map, ◌≡◌, refl, ap, ◌∙◌,
  AgentError, ok, err,
}
use rust_agent_framework.Graph.{Node}
use rust_agent_framework.Engine.Route.Starved.{route_all}
use rust_agent_framework.Engine.Superstep.Routed.{sent, route_joined-sent}
use rust_agent_framework.Step.{new_step, all_messages}
use rust_agent_framework.Step.Restore.{step_number-enqueue_batch}
use rust_agent_framework.Engine.{
  Shared, Executor, WorkflowConfig, Joined, returned, panicked, Outside,
}
use rust_agent_framework.Engine.Prepare.{Prep}
use rust_agent_framework.Engine.Route.{
  Routing, key_prefix, chase_matching, make_envelope, route_message, route_messages, route_joined,
}
use rust_agent_framework.Engine.Superstep.{LoopState, Saved, conclude, first_routing, settle}
use rust_agent_framework.Engine.Superstep.Failure.{
  first_error, error-route_joined, Undone, run_compensations-Undone,
}

module _ {C V W : Type 0} (outside : Outside C V W) (nodes : Map (Node (Executor C V W))) where
  route_message-step_number :
      (source : String) (msg : C) (r : Routing C V)
      → (route_message outside nodes source msg r).next_ctx.step_number ≡ r.next_ctx.step_number
  unfolding route_message
  route_message-step_number source msg r =
      step_number-enqueue_batch
        (chase_matching nodes (key_prefix source) (make_envelope outside source msg r) r.runners).1
        r.next_ctx

  route_messages-step_number :
      (source : String) (msgs : List C) (r : Routing C V)
      → (route_messages outside nodes source msgs r).next_ctx.step_number ≡ r.next_ctx.step_number
  unfolding route_messages
  route_messages-step_number source [] r = refl
  route_messages-step_number source (msg ∷ msgs) r =
      route_messages-step_number source msgs (route_message outside nodes source msg r)
      ∙ route_message-step_number source msg r

  route_joined-step_number :
      (joined : List (Joined C)) (r : Routing C V)
      → (route_joined outside nodes joined r).1.next_ctx.step_number ≡ r.next_ctx.step_number
  unfolding route_joined
  route_joined-step_number [] r = refl
  route_joined-step_number (returned (ok run) ∷ rest) r =
      route_joined-step_number rest (route_messages outside nodes run.source run.produced r)
      ∙ route_messages-step_number run.source run.produced r
  route_joined-step_number (returned (err e) ∷ rest) r = refl
  route_joined-step_number (panicked reason ∷ rest) r = refl

module _ {C V W : Type 0} (outside : Outside C V W) (config : WorkflowConfig)
    (nodes : Map (Node (Executor C V W))) where
  -- What the messages that were sent have become, one after the other, from a new step on.
  abbrev pub routed : LoopState C V W → List (String × C) → Routing C V
  routed st sends = route_all outside nodes sends (record {
    runners = st.runners;
    next_ctx = record {
      queued_messages = [];
      step_number = (st.step_ctx.step_number + 1) % 2 ^ 32;
    };
    routed_total = 0;
    made = st.made;
  })

  -- What holds after a superstep in which no task failed.
  pub record IsCompleted (st after : LoopState C V W) (left : Shared C V W)
      (sends : List (String × C)) (failure : Option AgentError) : Type 0 where
    pub no_failure : failure ≡ none
    pub next_number : after.step_ctx.step_number ≡ (st.step_ctx.step_number + 1) % 2 ^ 32
    pub counted : after.total_steps ≡ (st.total_steps + 1) % 2 ^ 32
    pub kept : after.shared ≡ left
    pub next_step : after.step_ctx ≡ (routed st sends).next_ctx
    pub next_runners : after.runners ≡ (routed st sends).runners
    pub next_made : after.made ≡ (routed st sends).made
    pub checkpoint : Saved C V
    pub saved_one : after.saved ≡ st.saved ++ checkpoint ∷ []
    pub numbered : checkpoint.step_number ≡ st.step_ctx.step_number
    pub state_saved : checkpoint.state ≡ left.state_map
    pub runners_saved : checkpoint.runners ≡ after.runners
    pub messages_saved : checkpoint.waiting ≡ all_messages after.step_ctx.queued_messages

  -- What holds after a superstep in which a task failed.
  pub record IsFailed (p : Prep C V W) (st after : LoopState C V W) (left : Shared C V W)
      (sends : List (String × C)) (failure : Option AgentError) (e : AgentError) : Type 0 where
    pub failed_with : failure ≡ some e
    pub failed_counted : after.total_steps ≡ (st.total_steps + 1) % 2 ^ 32
    pub nothing_saved : after.saved ≡ st.saved
    pub failed_runners : after.runners ≡ (routed st sends).runners
    pub failed_made : after.made ≡ (routed st sends).made
    pub compensated : Undone outside nodes p.execution_log left after.shared

  abbrev pub Settled :
      Prep C V W
      → LoopState C V W
      → Shared C V W
      → List (String × C)
      → LoopState C V W × Option AgentError
      → Option AgentError
      → Type 0
  Settled p st left sends result none = IsCompleted st result.0 left sends result.1
  Settled p st left sends result (some e) = IsFailed p st result.0 left sends result.1 e

  conclude-Settled :
      (p : Prep C V W) (st : LoopState C V W) (left : Shared C V W) (sends : List (String × C))
      (r : Option AgentError × Routing C V)
      → r.1.next_ctx.step_number ≡ (st.step_ctx.step_number + 1) % 2 ^ 32
      → r.1 ≡ routed st sends
      → Settled p st left sends (conclude outside config nodes p st left r) r.0
  unfolding conclude
  conclude-Settled p st left sends (some e, r) numbered same = record {
    failed_with = refl;
    failed_counted = refl;
    nothing_saved = refl;
    failed_runners = ap (λ x. x.runners) same;
    failed_made = ap (λ x. x.made) same;
    compensated = run_compensations-Undone outside nodes p.execution_log left;
  }
  conclude-Settled p st left sends (none, r) numbered same = record {
    no_failure = refl;
    next_number = numbered;
    counted = refl;
    kept = refl;
    next_step = ap (λ x. x.next_ctx) same;
    next_runners = ap (λ x. x.runners) same;
    next_made = ap (λ x. x.made) same;
    checkpoint = _;
    saved_one = refl;
    numbered = refl;
    state_saved = refl;
    runners_saved = refl;
    messages_saved = refl;
  }

  -- Whatever the tasks returned: the count of steps grows by one (mod 2^32). Without a failure the
  -- step number does too, and exactly one checkpoint is written, under the number of the step, with
  -- the state that the tasks left, the runners and the messages of the next step; these are what
  -- routing each message sent, in the order in which the tasks were started, makes of an empty
  -- step. Otherwise the error is that of the first failed task in that order, only what the tasks
  -- before it sent has gone to the runners, no checkpoint is written, and every entry of the log is
  -- compensated on what the tasks left, the later ones first.
  pub settle-Settled :
      (p : Prep C V W) (st : LoopState C V W) (joined : List (Joined C)) (left : Shared C V W)
      → Settled p st left
          (sent joined)
          (settle outside config nodes p st (joined, left))
          (first_error outside nodes joined)
  unfolding settle new_step
  settle-Settled p st joined left =
      let start = first_routing outside config nodes st in
      rw (← error-route_joined outside nodes joined start) (
        conclude-Settled p st left (sent joined) (route_joined outside nodes joined start)
          (route_joined-step_number outside nodes joined start)
          (route_joined-sent outside nodes joined start))
