-- ===== src/Lib.antt =====
-- The workflow engine of rust-agent-framework (crates/workflow) and what works with it, modelled
-- and verified.
--
-- A workflow is a graph of nodes, each with an executor, joined by direct, fan-out and fan-in
-- edges. A builder collects nodes and edges and freezes them into a graph, which is validated. The
-- engine makes a runner for each edge and works in supersteps: it takes the messages that wait for
-- a node, runs the nodes side by side, shows what they sent to the runners of the sender's edges,
-- and puts what these deliver into the queues of the next step. Between steps it writes a
-- checkpoint, fires timers, and pauses and resumes. The checkpoint manager chains checkpoints and
-- restores a session from them. A saga (crates/workflow-pro) runs executors in a row and undoes the
-- completed ones when one fails.
--
-- Edges have conditions: on variables, on metadata, on correlation and on boundary events. Some
-- executors wait: for a timer, for a cron expression, for an event. A process definition
-- (crates/workflow-pro) compiles to a graph by the builder, and a process instance is an automaton.
-- A group chat lets agents speak in turn outside the engine, and votes are counted. Beside the
-- engine stand the compression of histories (crates/framework) and the parser of streamed tool
-- arguments (crates/core).
--
-- Which file models what:
--   Common            lists, maps, tests and results over the native numbers; AgentError of
--                     crates/core/src/error.rs
--   Envelope          MessageEnvelope (crates/workflow/src/engine/message_envelope.rs) and TypeTag
--                     (executor/base.rs of that crate)
--   Retry             engine/retry.rs and the retry loop of engine/engine.rs
--     Retry/Delay, Retry/Attempts: the wait, and the runs of the loop
--   Graph             graph/node.rs, graph/port.rs and graph/workflow_graph.rs
--     Graph/Edges: graph/edge.rs; Graph/Parts: constructors and setters
--     Graph/Walks, Graph/Reachable, Graph/Cycles, Graph/Acyclic, Graph/Verdict,
--     Graph/Registered: `validate`
--   Builder           builder/workflow_builder.rs
--     Builder/Links: the methods that add an edge; Builder/Gateways: the gateways
--     Builder/Build: `build`; its children Registered, Refused, Index, Ports and Outcome: what it
--     checks, its errors, the index of edges, the table of ports, and what it returns;
--     Builder/Gateways/Exclusive: exclusive gateways
--   Codec             checkpoint/message_envelope.rs
--     Codec/RoundTrip: what an envelope keeps
--   Step              engine/step_context.rs
--     Step/Queues, Step/Restore: the queues, and the queues through a checkpoint
--   Runner            engine/edge_runner.rs
--     Runner/Barrier, Runner/Opening, Runner/Routes: fan-in barriers, what one message does to one,
--     and where deliveries go
--   Engine            engine/engine.rs, with executor/base.rs, engine/config.rs and the commands of
--                     engine/runtime.rs
--     Engine/Context: EngineWorkContext; Engine/Run: a task; Engine/Prepare: picking the tasks of a
--     step and counting loops (Rounds: how often a loop node runs); Engine/Route: routing and
--     compensation (Keys: which runners a source selects; Own, Starved: fan-in edges);
--     Engine/Superstep: one step (Failure, Routed, Numbering: how it ends, what it routes);
--     Engine/Loop: the loop (Steps, Numbers, Counting, Completion, Fuel: whole runs)
--   Checkpoint        checkpoint/checkpoint.rs and checkpoint/manager.rs of the same crate, on a
--                     store that is an interface
--     Checkpoint/Store: the in-memory store of checkpoint/store.rs; Checkpoint/Load: reading back
--     and cleaning up; Checkpoint/Chain, Scope, Order, Commit: the chain of parents, scope keys, the
--     order of steps, the counters
--   Saga              crates/workflow-pro/src/compensation/saga.rs (Saga/Recovery: how it ends)
--   Condition         graph/condition.rs; Condition/Gateway: graph/gateway.rs; Condition/Correlation:
--                     engine/correlation.rs; Condition/Boundary: the kinds and the condition of
--                     engine/boundary_event.rs
--     Condition/Agreement, Matching, Dead: two conditions compared, correlation keys, and conditions
--     in the engine's runs
--   Trigger           engine/timer.rs and the executor of engine/boundary_event.rs; Trigger/Cron:
--                     engine/cron.rs; Trigger/Text: what Rust's str and u32 do with its fields
--     Trigger/Waiting, Stranded: a timer's task and the engine's loop; Trigger/Catch: caught events;
--     Trigger/Cron/Next, Firings: the next moment, and what is passed on
--   Chat              orchestrations/group_chat.rs (Chat/Rounds, Chat/Silence: whole chats)
--   Vote              the aggregators of orchestrations/vote.rs (Vote/Majority: who wins)
--   Process           crates/workflow-pro/src/process/instance.rs (Process/Lifecycle: its automaton)
--     Process/Definition: definition.rs beside it; Process/Definition/Compile and its children
--     Registered, Linked and Outcome: `compile`, and what it gives
--   Compression       crates/framework/src/compression (Compression/Folding, Truncation, Budget: the
--                     token budget; Compression/System: what all strategies keep) and ChatMessage of
--                     crates/core/src/message.rs
--   Args              crates/core/src/incremental_json.rs; Args/Scan: the scan of one byte
--     Args/Bounds, Pieces, Once, Progress: where it stands, how a stream may be cut, what is reported
-- A file called Samples holds small inputs, runs on them and applications of the theorems.
--
-- How the code is read:
--   * A HashMap is an association list and a HashSet a list, walked in the order of the list. The
--     theorems hold for every list, so for every order in which the table may be walked.
--   * `Arc<dyn Any>` is a type parameter, in Codec a sum of the three types that the code asks for,
--     JSON, and all others. A trait object (a condition, an assigner, an executor) is a record of
--     functions or a function.
--   * A Duration is a number of nanoseconds. u64, u32 and i32 arithmetic is written with its
--     wrap-around (as a release build computes it), an i32 as its bit pattern. Counts of
--     things in memory (usize) have no bound.
--   * What tasks share is one record of state, handed from call to call. How tokio interleaves the
--     tasks of a step is the parameter `join_all`: any function of the tasks and the shared state.
--     Tasks are picked, with their messages and loop counters, before any of them runs.
--   * serde_json, uuid, the clock and the names of types are parameters too (`Serde`, `Outside`).
--     The clock is any function: for envelopes of how many were made before, and for the timers of
--     a pass of the steps taken too.
--     Of them it is assumed that a JSON text gives back its text and, for loop counters, that a
--     written i32 is read back.
--   * The two walks of `validate`, the climb along a chain of checkpoints and the engine's loop are
--     recursion on fuel. For the walks the fuel is always enough, and for a chain its length is. A
--     workflow may run for ever, so the loop is modelled with any fuel.
--   * Parameters of the same kind are what conditions ask of a JSON value and the order of its
--     floats (`JsonView`), serde_json and the reading of bytes for streamed arguments (`Json`), the
--     counter of tokens, chrono's calendar, Unicode's lower case, the float weights of votes, and
--     the order in which the tables of a compilation are walked (`Tables`).
--   * A Mutex field of an executor is a cell of the world (`Cell`); what else the world holds is open.
--   * `evict_tool_results` and the walk through the seconds of a year are recursion on as many rounds
--     as there can be. A chat may go on for ever, so its loop is modelled with any fuel.
--
-- What is not modelled: events and logs, which report and change nothing; the bound of the output
-- channel; token counts and streams of the engine; the global timeout, which cuts a run; tasks that
-- still run after another task's failure has ended the step; the sending half of the command
-- channel; a receiver that leaves a chat early. The file store, a commit with the interval 0, the
-- bus of external events, the selector of speakers that asks a model, the builders of the
-- orchestrations, the rest of workflow-pro and the other crates are not modelled; the clients,
-- servers, sandboxes and searches among them are input and output.
pub mod Trigger
pub mod Compression
pub mod Chat
pub mod Vote
pub mod Common
pub mod Envelope
pub mod Retry
pub mod Graph
pub mod Builder
pub mod Codec
pub mod Step
pub mod Runner
pub mod Engine
pub mod Checkpoint
pub mod Saga
pub mod Condition
pub mod Process
pub mod Args
