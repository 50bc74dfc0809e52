-- ===== src/Engine/Samples.antt =====
-- A workflow of two nodes on which the engine runs, and small inputs for what is proved of it.
use Prim.Native.Char.{Char, code}
use Prim.Native.String.{◌++◌ as text_append}
use rust_agent_framework.Common.{
  ℕ, String, false, Option, none, some, List, [], ◌∷◌, length, nat_eq, ◌≢◌, ap, ◌≡◌, refl, Map, get,
  arith, tool_error, Result, ok, err,
}
use mathlib.Core.Option
use rust_agent_framework.Envelope.{new_envelope, with_target, type_tag}
use rust_agent_framework.Retry.{NodeRun}
use rust_agent_framework.Graph.{Node, new_node, LoopOptions}
use rust_agent_framework.Graph.Edges.{Edge, fan_in, direct}
use rust_agent_framework.Step.{new_step}
use rust_agent_framework.Engine.{
  messages, output, Shared, Executor, Graph, WorkflowConfig, Task, Joined, returned, Outside,
}
use rust_agent_framework.Engine.Prepare.{Prep, iteration}
use rust_agent_framework.Engine.Prepare.Rounds.{visits, visits_bound}
use rust_agent_framework.Engine.Route.{edge_runners, Routing}
use rust_agent_framework.Engine.Route.Keys.{colon}
use rust_agent_framework.Engine.Route.Starved.{route_all, without_joins, fan_in_starves}
use rust_agent_framework.Engine.Superstep.{LoopState, settle}
use rust_agent_framework.Engine.Superstep.Numbering.{Settled, settle-Settled}
use rust_agent_framework.Engine.Loop.{run}

-- The tasks one after the other, none of which panics.
abbrev in_turn :
    (Task String ℕ (List String)
      → Shared String ℕ (List String)
      → Result (NodeRun String) × Shared String ℕ (List String))
    → List (Task String ℕ (List String))
    → Shared String ℕ (List String)
    → List (Joined String) × Shared String ℕ (List String)
in_turn run [] s = ([], s)
in_turn run (task ∷ tasks) s =
    let (result, s') = run task s in
    let (rest, after) = in_turn run tasks s' in (returned result ∷ rest, after)

abbrev pub sample : Outside String ℕ (List String)
sample = record {
  of_text = λ s. s;
  type_name = λ s. "String";
  as_i64 = λ n. some n;
  of_i32 = λ n. n;
  uuid = λ n. "id";
  clock = λ n. n;
  pass_clock = λ steps n. n;
  join_all = in_turn;
}

abbrev pub limits : WorkflowConfig
limits = record { default_node_timeout = none; max_parallel_nodes = 4 }

-- Hands its message on with an ending, and notes in the world that it was compensated.
abbrev worker : String → Executor String ℕ (List String)
worker ending = record {
  is_output = false;
  handle = λ timeout msg w. (ok (messages (text_append msg ending ∷ [])), w);
  on_delivery_start = λ w. w;
  on_delivery_end = λ w. w;
  on_timer = λ name w. w;
  compensate = λ (state, world). (state, ending ∷ world);
}

abbrev printer : Executor String ℕ (List String)
printer = record (worker "!") { handle = λ timeout msg w. (ok (output msg), w) }

abbrev pub line : Graph String ℕ (List String)
line = record {
  nodes = ("draft", new_node "draft" (worker "...")) ∷ ("print", new_node "print" printer) ∷ [];
  edges =
      (
        "draft",
        direct (record {
          edge_id = "edge_0";
          source_id = "draft";
          sink_id = "print";
          label = none;
          condition = none;
          is_loopback = false;
        })
            ∷ [],
      )
      ∷ [];
  ports = [];
  output_node_ids = "print" ∷ [];
  start_node_id = "draft";
}

abbrev the_outputs :
    Option (Result (Unit {0}) × LoopState String ℕ (List String)) → List (String × String)
the_outputs none = []
the_outputs (some (result, st)) = st.shared.outputs

-- Ten passes are enough: the text goes through the first node, and the second puts it out.
line_runs : the_outputs (run sample limits 10 none line "once" []) ≡ ("once...", "print") ∷ []
unfolding run new_envelope with_target type_tag new_node
line_runs = refl

ne_colon : (c : Char) → nat_eq (code c) 58 ≡ false → c ≢ colon
ne_colon c h e = ground (arith, ap code e)

abbrev ready : Prep String ℕ (List String)
ready = record {
  step_ctx = new_step 0;
  state_map = ("__loop_draft", 1) ∷ [];
  execution_log = [];
  total_nodes = 0;
  tasks = [];
}

abbrev again : Task String ℕ (List String)
again = record { node_id = "draft"; node = new_node "draft" (worker "..."); inbox = [] }

abbrev thrice : LoopOptions
thrice = record { max_iterations = 3; loop_variable = none }

-- One round is over, so five visits start two tasks.
visits_bound_example :
    length (visits sample (λ w h. (w, refl, omega arith)) 5 again thrice ready).tasks ≡ 2
unfolding iteration get Option.bind
visits_bound_example =
    visits_bound sample (λ w h. (w, refl, omega arith)) 5 again thrice ready (omega arith)
      (omega arith) (omega arith)

abbrev id_a : String
id_a = "a"

abbrev id_b : String
id_b = "b"

abbrev joining : Map (List (Edge String ℕ))
joining =
    let edge =
      fan_in
        (record { edge_id = "edge_0"; source_ids = "a" ∷ "b" ∷ []; sink_id = "c"; label = none }) in
    ("a", edge ∷ []) ∷ ("b", edge ∷ []) ∷ []

abbrev three : Map (Node (Executor String ℕ (List String)))
three =
    ("a", new_node "a" (worker "a"))
    ∷ ("b", new_node "b" (worker "b"))
    ∷ ("c", new_node "c" printer)
    ∷ []

abbrev before : Routing String ℕ
before = record {
  runners = edge_runners joining [];
  next_ctx = new_step 1;
  routed_total = 0;
  made = 1;
}

-- Both sources have sent, and still nothing waits for the sink.
fan_in_starves_example :
    (route_all sample three (("a", "one") ∷ ("b", "two") ∷ []) before).next_ctx
    ≡ (route_all sample three
        (("a", "one") ∷ ("b", "two") ∷ [])
        (without_joins sample three before)).next_ctx
fan_in_starves_example =
    fan_in_starves sample three joining (("a", "one") ∷ ("b", "two") ∷ []) before
      ((ne_colon "a" refl, tt), ((ne_colon "b" refl, tt), tt))
      ((ne_colon "a" refl, tt), ((ne_colon "b" refl, tt), tt)) refl

abbrev blank : Shared String ℕ (List String)
blank = record { state_map = []; halt_flag = false; timers = []; outputs = []; world = [] }

abbrev at_step : LoopState String ℕ (List String)
at_step = record {
  step_ctx = new_step 3;
  shared = blank;
  runners = [];
  execution_log = [];
  halt_announced = false;
  total_steps = 3;
  total_nodes = 4;
  made = 9;
  saved = [];
}

-- The first task sent a draft, and the second failed.
abbrev half_done : List (Joined String)
half_done =
    returned (ok (record { source = "draft"; produced = "text" ∷ []; any_output = false }))
    ∷ returned (err (tool_error "offline"))
    ∷ []

settle-Settled_example :
    Settled sample limits line.nodes
      (record ready { execution_log = "draft" ∷ "print" ∷ [] })
      at_step
      blank
      (("draft", "text") ∷ [])
      (settle sample limits line.nodes
        (record ready { execution_log = "draft" ∷ "print" ∷ [] })
        at_step
        (half_done, blank))
      (some (tool_error "offline"))
settle-Settled_example =
    settle-Settled sample limits line.nodes
      (record ready { execution_log = "draft" ∷ "print" ∷ [] }) at_step half_done blank
