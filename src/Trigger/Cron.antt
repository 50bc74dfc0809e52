-- ===== src/Trigger/Cron.antt =====
-- CronTrigger of crates/workflow/src/engine/cron.rs. chrono's calendar is a parameter: the fields
-- of the moment some seconds after the present one.
pub mod Next
pub mod Firings
use Prim.Native.String.{◌++◌ as text_append, slice, len}
use text.Mathlib.Text.{starts_with}
use rust_agent_framework.Common.{
  ℕ, zero, suc, ◌+◌, ◌*◌, ◌%◌, ◌^◌, String, Bool, true, false, ◌&&◌, Option, none, some, List, [],
  ◌∷◌, any, length, if◌then◌else◌, ltb, leb, nat_eq, ◌==◌, Result, ok, err, AgentError,
  workflow_error, ◌>>=◌,
}
use rust_agent_framework.Builder.{decimal}
use rust_agent_framework.Engine.{HandlerResult, messages, nothing, Work, Executor}
use rust_agent_framework.Engine.Context.{schedule_timer}
use rust_agent_framework.Trigger.{Cell, executor_with, set_world}
use rust_agent_framework.Trigger.Text.{
  split_whitespace, split_commas, trim, Parsed, number, failure, parse_u32,
}

pub data CronField : Type 0 where
  any_value : CronField
  specific : List ℕ → CronField
  interval : ℕ → CronField

-- The texts of the errors.
abbrev pub invalid_interval : String → String → AgentError
invalid_interval s e =
    workflow_error (text_append (text_append (text_append "无效的 cron 间隔 '" s) "': ") e)

abbrev pub zero_interval : AgentError
zero_interval = workflow_error "cron 间隔必须 > 0"

abbrev pub invalid_value : String → String → AgentError
invalid_value v e =
    workflow_error (text_append (text_append (text_append "无效的 cron 值 '" v) "': ") e)

abbrev pub wrong_count : ℕ → String → AgentError
wrong_count n expr = workflow_error (
    text_append
      (text_append (text_append (text_append "Cron 表达式需要 6 个字段，实际收到 " (decimal n)) " 个: '") expr)
      "'")

abbrev pub never : String → AgentError
never expr = workflow_error (text_append (text_append "在 1 年内未找到 cron 表达式 '" expr) "' 的下一次触发时间")

-- `parse::<u32>().map_err(..)`
abbrev pub or_invalid : (String → AgentError) → Parsed → Result ℕ
or_invalid invalid (number n) = ok n
or_invalid invalid (failure e) = err (invalid e)

-- The `collect` of a list of results: the first error wins.
unfoldable pub parse_values : List String → Result (List ℕ)
unfolding parse_u32
parse_values [] = ok []
parse_values (v ∷ vs) =
    let rest = parse_values vs in
    or_invalid (invalid_value v) (parse_u32 (trim v)) >>= λ n. rest >>= λ ns. ok (n ∷ ns)

abbrev pub checked_interval : ℕ → Result CronField
checked_interval n = if nat_eq n 0 then err zero_interval else ok (interval n)

unfoldable pub parse_field : String → Result CronField
unfolding parse_u32 parse_values split_commas
parse_field s =
    if s == "*"
    then ok any_value
    else if starts_with s "*/"
    then or_invalid (invalid_interval s) (parse_u32 (slice s 2 (len s))) >>= checked_interval
    else parse_values (split_commas s) >>= λ values. ok (specific values)

-- `[CronField; 6]`
pub record Fields : Type 0 where
  pub sec : CronField
  pub min : CronField
  pub hour : CronField
  pub day : CronField
  pub month : CronField
  pub weekday : CronField

abbrev pub parse_parts : AgentError → List String → Result Fields
parse_parts wrong (a ∷ b ∷ c ∷ d ∷ e ∷ f ∷ []) = parse_field a >>= λ sec. parse_field b >>= λ min.
    parse_field c >>= λ hour. parse_field d >>= λ day. parse_field e >>= λ month.
    parse_field f >>= λ weekday.
    ok (record { sec = sec; min = min; hour = hour; day = day; month = month; weekday = weekday })
parse_parts wrong _ = err wrong

unfoldable pub parse_expression : String → Result Fields
unfolding parse_field split_whitespace
parse_expression expr =
    let parts = split_whitespace expr in parse_parts (wrong_count (length parts) expr) parts

-- `second()`, `minute()`, .. of a moment; `weekday` is 1 to 7, from Monday.
pub record Moment : Type 0 where
  pub second : ℕ
  pub minute : ℕ
  pub hour : ℕ
  pub day : ℕ
  pub month : ℕ
  pub weekday : ℕ

unfoldable pub field_matches : CronField → ℕ → Bool
field_matches any_value value = true
field_matches (specific vals) value = any (λ v. nat_eq v value) vals
field_matches (interval n) value = nat_eq (value % n) 0

-- Sunday is 0 in an expression.
abbrev pub cron_weekday : ℕ → ℕ
cron_weekday n = if nat_eq n 7 then 0 else n

unfoldable pub all_match : Fields → Moment → Bool
unfolding field_matches
all_match f m =
    field_matches f.sec m.second
    && field_matches f.min m.minute
    && field_matches f.hour m.hour
    && field_matches f.day m.day
    && field_matches f.month m.month
    && field_matches f.weekday (cron_weekday m.weekday)

-- The loop over the candidates, second by second, from `k` seconds after the present moment on.
unfoldable pub search_from : Fields → (ℕ → Moment) → (left k : ℕ) → Option ℕ
unfolding all_match
search_from f moment zero k = none
search_from f moment (suc left) k = elim (all_match f (moment k)) [
  | true ↦ some k
  | false ↦ search_from f moment left (k + 1)
]

abbrev pub seconds_ahead : ℕ
seconds_ahead = 366 * 86400

abbrev pub nanos_per_second : ℕ
nanos_per_second = 1000000000

abbrev pub delay_or_never : String → Option ℕ → Result ℕ
delay_or_never expr none = err (never expr)
delay_or_never expr (some k) = ok (k * nanos_per_second)

unfoldable pub next_delay : String → (ℕ → Moment) → Result ℕ
unfolding parse_expression search_from
next_delay expr moment = parse_expression expr >>= λ fields.
    delay_or_never expr (search_from fields moment seconds_ahead 1)

pub record CronTrigger : Type 0 where
  pub node_id : String
  pub expression : String
  pub timer_name : String
  pub max_iterations : ℕ  -- u64

abbrev pub new_cron : String → String → CronTrigger
new_cron id expression = record {
  node_id = id;
  expression = expression;
  timer_name = text_append "cron_" id;
  max_iterations = 0;
}

abbrev pub with_max_iterations : ℕ → CronTrigger → CronTrigger
with_max_iterations max t = record t { max_iterations = max }

abbrev pub with_timer_name : String → CronTrigger → CronTrigger
with_timer_name name t = record t { timer_name = name }

-- The fields behind a `Mutex`; nothing but the trigger's own calls changes them.
pub record CronState : Type 0 where
  pub is_fired : Bool
  pub iteration : ℕ  -- u64

module _ {W : Type 0} (cell : Cell W CronState) where
  unfoldable pub note_cron : CronTrigger → String → W → W
  note_cron t timer_name w =
      if timer_name == t.timer_name
      then cell.write (record (cell.read w) { is_fired = true }) w
      else w

module _ {C V W : Type 0} (cell : Cell W CronState) (now : W → ℕ) (moment : W → ℕ → Moment) where
  -- The `match` on a delay, or the `?` after it.
  abbrev pub schedule_result :
      CronTrigger → HandlerResult C → Work C V W → Result ℕ → Result (HandlerResult C) × Work C V W
  schedule_result t result ctx (ok delay) =
      (ok result, schedule_timer t.timer_name (now ctx.shared.world) delay ctx)
  schedule_result t result ctx (err e) = (err e, ctx)

  abbrev pub schedule_next :
      CronTrigger → HandlerResult C → Work C V W → Result (HandlerResult C) × Work C V W
  schedule_next t result ctx =
      schedule_result t result ctx (next_delay t.expression (moment ctx.shared.world))

  -- `CronTrigger::handle`
  unfoldable pub handle_cron : CronTrigger → C → Work C V W → Result (HandlerResult C) × Work C V W
  handle_cron t msg ctx =
      let s = cell.read ctx.shared.world in
      let count = (s.iteration + 1) % 2 ^ 64 in
      let fired =
        set_world (cell.write (record { is_fired = false; iteration = count }) ctx.shared.world)
          ctx in
      if s.is_fired
      then (if ltb 0 t.max_iterations && leb t.max_iterations count
          then (ok nothing, fired)
          else schedule_next t (messages (msg ∷ [])) fired)
      else schedule_next t nothing ctx

  abbrev pub cron_executor : CronTrigger → Executor C V W
  cron_executor t = executor_with (handle_cron t) (note_cron cell t)
