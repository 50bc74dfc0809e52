-- ===== src/Trigger/Samples.antt =====
-- A timer that a workflow starts with, a signal that is caught, and cron expressions.
use rust_agent_framework.Common.{
  ℕ, ◌+◌, ◌/◌, ◌%◌, String, Bool, false, none, some, List, [], ◌∷◌, ◌++◌, ◌≡◌, refl, arith, Result,
  ok, err, get, AgentError,
}
use rust_agent_framework.Retry.{NodeRun}
use rust_agent_framework.Engine.{
  Shared, Work, Graph, WorkflowConfig, Task, Joined, returned, Outside,
}
use rust_agent_framework.Engine.Loop.{execute_loop}
use rust_agent_framework.Trigger.{
  Cell, handle_event, TimerTrigger, new_timer, signal, catch, IntermediateEvent,
}
use rust_agent_framework.Trigger.Waiting.{waiting_node}
use rust_agent_framework.Trigger.Stranded.{stranded, execute_loop-stranded}
use rust_agent_framework.Trigger.Catch.{begin, handled, sent_by, context, caught-never_sends}
use rust_agent_framework.Trigger.Text.{failure, parse_u32}
use rust_agent_framework.Trigger.Cron.{
  any_value, specific, interval, Fields, Moment, parse_field, parse_expression, next_delay,
  CronTrigger, CronState, new_cron, with_max_iterations, zero_interval,
}
use rust_agent_framework.Trigger.Cron.Next.{IsNext, next_delay-IsNext}
use rust_agent_framework.Trigger.Cron.Firings.{turns, turns-take}

abbrev flag : Cell Bool Bool
flag = record { read = λ w. w; write = λ a w. a; read-write = λ a w. refl }

abbrev one_by_one :
    (Task String ℕ Bool → Shared String ℕ Bool → Result (NodeRun String) × Shared String ℕ Bool)
    → List (Task String ℕ Bool)
    → Shared String ℕ Bool
    → List (Joined String) × Shared String ℕ Bool
one_by_one run [] s = ([], s)
one_by_one run (task ∷ tasks) s =
    let (rest, after) = one_by_one run tasks (run task s).1 in
    (returned (run task s).0 ∷ rest, after)

abbrev outside : Outside String ℕ Bool
outside = record {
  of_text = λ s. s;
  type_name = λ s. "String";
  as_i64 = λ n. some n;
  of_i32 = λ n. n;
  uuid = λ n. "id";
  clock = λ n. n;
  pass_clock = λ steps n. n;
  join_all = one_by_one;
}

abbrev config : WorkflowConfig
config = record { default_node_timeout = none; max_parallel_nodes = 4 }

abbrev at_noon : Bool → ℕ
at_noon w = 12

abbrev later : TimerTrigger
later = new_timer "later" 5

abbrev delayed : Graph String ℕ Bool
delayed = record {
  nodes = ("later", waiting_node flag at_noon later none none false) ∷ [];
  edges = [];
  ports = [];
  output_node_ids = [];
  start_node_id = "later";
}

execute_loop-stranded_example :
    execute_loop outside config 2 none [] delayed "hello" false
    ≡ some (ok tt, stranded outside config flag at_noon later [] "later" false)
unfolding get
execute_loop-stranded_example =
    execute_loop-stranded outside config flag at_noon later 0 none [] delayed "hello" false none
      none false (λ run task s. refl) refl refl (omega arith)

abbrev awaited : IntermediateEvent
awaited = record { node_id = "paid"; event_def = signal "payment"; kind = catch }

abbrev idle : Shared String ℕ Bool
idle = record { state_map = []; halt_flag = false; timers = []; outputs = []; world = false }

caught-never_sends_example :
    []
      ++ sent_by
          (handle_event flag at_noon awaited "payment" (context flag at_noon "paid" awaited idle)).0
    ≡ []
caught-never_sends_example =
    caught-never_sends flag at_noon "paid" awaited _ _ refl (λ h. h)
      (handled idle [] "payment" (begin idle refl (λ t own. elim own.0 [ ])))

-- Every tenth second of each minute; a Sunday is 7 for chrono and 0 in an expression.
abbrev clock_at : ℕ → Moment
clock_at k = record {
  second = (53 + k) % 60;
  minute = (59 + (53 + k) / 60) % 60;
  hour = 23;
  day = 1;
  month = 3;
  weekday = 7;
}

reads_wildcard : parse_field "*" ≡ ok any_value
unfolding parse_field
reads_wildcard = refl

reads_interval : parse_field "*/5" ≡ ok (interval 5)
unfolding parse_field
reads_interval = refl

reads_values : parse_field "1, 15,+30" ≡ ok (specific (1 ∷ 15 ∷ 30 ∷ []))
unfolding parse_field
reads_values = refl

refuses_zero : parse_field "*/0" ≡ err zero_interval
unfolding parse_field
refuses_zero = refl

overflows : parse_u32 "4294967296" ≡ failure "number too large to fit in target type"
unfolding parse_u32
overflows = refl

-- A day that no month has is read without complaint.
reads_out_of_range : parse_field "99" ≡ ok (specific (99 ∷ []))
unfolding parse_field
reads_out_of_range = refl

abbrev sundays : Fields
sundays = record {
  sec = interval 10;
  min = any_value;
  hour = any_value;
  day = any_value;
  month = any_value;
  weekday = specific (0 ∷ []);
}

reads_sundays : parse_expression "*/10 * * * * 0" ≡ ok sundays
unfolding parse_expression
reads_sundays = refl

fires_soon : next_delay "*/10 * * * * 0" clock_at ≡ ok 7000000000
unfolding next_delay
fires_soon = refl

next_delay-IsNext_example :
    ((f : Fields)
      → parse_expression "*/10 * * * * 0" ≡ ok f
      → IsNext "*/10 * * * * 0" f clock_at (next_delay "*/10 * * * * 0" clock_at))
    × ((e : AgentError)
        → parse_expression "*/10 * * * * 0" ≡ err e
        → next_delay "*/10 * * * * 0" clock_at ≡ err e)
next_delay-IsNext_example = next_delay-IsNext "*/10 * * * * 0" clock_at

abbrev state_cell : Cell CronState CronState
state_cell = record { read = λ w. w; write = λ a w. a; read-write = λ a w. refl }

abbrev tick : CronTrigger
tick = with_max_iterations 2 (new_cron "tick" "*/10 * * * * 0")

abbrev fresh : Work String ℕ CronState
fresh = record {
  node_id = "tick";
  shared = record {
    state_map = [];
    halt_flag = false;
    timers = [];
    outputs = [];
    world = record { is_fired = false; iteration = 0 };
  };
  queued_messages = [];
}

-- Two iterations pass one message on.
turns-take_example :
    turns state_cell (λ w. 12) (λ w. clock_at) tick ("a" ∷ "b" ∷ "c" ∷ []) fresh ≡ "a" ∷ []
turns-take_example =
    turns-take state_cell (λ w. 12) (λ w. clock_at) tick ("a" ∷ "b" ∷ "c" ∷ []) fresh
      (λ w. (7000000000, fires_soon)) (omega arith)
