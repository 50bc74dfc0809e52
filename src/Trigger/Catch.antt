-- ===== src/Trigger/Catch.antt =====
-- What becomes of an event that is caught (IntermediateEvent of
-- crates/workflow/src/engine/boundary_event.rs, as engine.rs calls it).
use rust_agent_framework.Common.{
  ℕ, String, Bool, false, none, some, List, [], ◌∷◌, ◌++◌, ◌≡◌, refl, ap, ◌∙◌, subst, Elem, Result,
  ok, err, append-nil,
}
use rust_agent_framework.Engine.{HandlerResult, messages, output, nothing, TimerEntry, Shared, Work}
use rust_agent_framework.Engine.Context.{request_halt}
use rust_agent_framework.Trigger.{
  Cell, EventDefinition, timer, signal, message, error, escalation, compensation, link, catch,
  IntermediateEvent, note_timer, wait_for, handle_event,
}

abbrev pub IsTimed : EventDefinition → Type 0
IsTimed (timer (some delay)) = Unit
IsTimed _ = ⊥

-- The messages that a result sends on, or yields.
abbrev pub sent_by : {C : Type 0} → Result (HandlerResult C) → List C
sent_by (ok (messages msgs)) = msgs
sent_by (ok (output out)) = out ∷ []
sent_by (ok nothing) = []
sent_by (err x) = []

module _ {C V W : Type 0} (fired : Cell W Bool) (now : W → ℕ) (id : String)
    (e : IntermediateEvent) where
  abbrev pub context : Shared C V W → Work C V W
  context s = record { node_id = id; shared = s; queued_messages = [] }

  -- The timer is one that the node scheduled.
  abbrev pub IsOwn : Shared C V W → TimerEntry → Type 0
  IsOwn s t = Elem t s.timers × (t.node_id ≡ id)

  -- What the shared state can become while a node `id` runs the event, and what the node has sent
  -- by then. The engine shows it a message, or a timer that it scheduled; all else leaves its cell
  -- alone and schedules no timer for it.
  pub data IsReached : Shared C V W → List C → Type 0 where
    begin :
        (s : Shared C V W)
        → fired.read s.world ≡ false
        → ((t : TimerEntry) → IsOwn s t → ⊥)
        → IsReached s []
    handled :
        (s : Shared C V W) (sent : List C) (msg : C)
        → IsReached s sent
        → IsReached
            (handle_event fired now e msg (context s)).1.shared
            (sent ++ sent_by (handle_event fired now e msg (context s)).0)
    elapsed :
        (s : Shared C V W) (sent : List C) (t : TimerEntry)
        → IsReached s sent
        → IsOwn s t
        → IsReached (record s { world = note_timer fired e.node_id t.timer_name s.world }) sent
    others :
        (s s' : Shared C V W) (sent : List C)
        → IsReached s sent
        → fired.read s'.world ≡ fired.read s.world
        → ((t : TimerEntry) → IsOwn s' t → IsOwn s t)
        → IsReached s' sent

  -- Nothing has fired, and nothing will.
  record IsSilent (s : Shared C V W) (sent : List C) : Type 0 where
    unfired : fired.read s.world ≡ false
    untimed : (t : TimerEntry) → IsOwn s t → ⊥
    nothing_sent : sent ≡ []

  wait_for-timers :
      (d : EventDefinition) (s : Shared C V W)
      → e.event_def ≡ d
      → (IsTimed d → ⊥)
      → ((wait_for fired now e (context s)).shared.timers ≡ s.timers)
        × ((wait_for fired now e (context s)).shared.world ≡ s.world)
  unfolding wait_for request_halt
  wait_for-timers (timer none) s is untimed = rw (wait_for, is) (refl, refl)
  wait_for-timers (timer (some delay)) s is untimed = absurd (untimed tt)
  wait_for-timers (signal name) s is untimed = rw (wait_for, is) (refl, refl)
  wait_for-timers (message name) s is untimed = rw (wait_for, is) (refl, refl)
  wait_for-timers (error code) s is untimed = rw (wait_for, is) (refl, refl)
  wait_for-timers (escalation code) s is untimed = rw (wait_for, is) (refl, refl)
  wait_for-timers (compensation activity) s is untimed = rw (wait_for, is) (refl, refl)
  wait_for-timers (link name) s is untimed = rw (wait_for, is) (refl, refl)

  handle_event-waits :
      (msg : C) (s : Shared C V W)
      → e.kind ≡ catch
      → fired.read s.world ≡ false
      → handle_event fired now e msg (context s) ≡ (ok nothing, wait_for fired now e (context s))
  unfolding handle_event
  handle_event-waits msg s is unfired = rw (handle_event, is, unfired) refl

  reached-IsSilent :
      {s : Shared C V W} {sent : List C}
      → e.kind ≡ catch
      → (IsTimed e.event_def → ⊥)
      → IsReached s sent
      → IsSilent s sent
  reached-IsSilent is untimed (begin s unfired none_own) = record {
    unfired = unfired;
    untimed = none_own;
    nothing_sent = refl;
  }
  reached-IsSilent is untimed (handled s sent msg r) =
      let before = reached-IsSilent is untimed r in
      let step = handle_event-waits msg s is before.unfired in
      let kept = wait_for-timers e.event_def s refl untimed in
      rw step record {
        unfired = ap fired.read kept.1 ∙ before.unfired;
        untimed = λ t own.
            before.untimed t (subst (λ (ts : List TimerEntry). Elem t ts) kept.0 own.0, own.1);
        nothing_sent = append-nil sent ∙ before.nothing_sent;
      }
  reached-IsSilent is untimed (elapsed s sent t r own) =
      absurd ((reached-IsSilent is untimed r).untimed t own)
  reached-IsSilent is untimed (others s s' sent r same fewer) =
      let before = reached-IsSilent is untimed r in
      record {
        unfired = same ∙ before.unfired;
        untimed = λ t own. before.untimed t (fewer t own);
        nothing_sent = before.nothing_sent;
      }

  -- An event that is to be caught, and is not a timer with a duration, passes no message on, ever:
  -- whatever the node is sent, and whatever the rest of a run does that leaves the node's own flag
  -- and its timers to it.
  pub caught-never_sends :
      (s : Shared C V W) (sent : List C)
      → e.kind ≡ catch
      → (IsTimed e.event_def → ⊥)
      → IsReached s sent
      → sent ≡ []
  caught-never_sends s sent is untimed r = (reached-IsSilent is untimed r).nothing_sent
