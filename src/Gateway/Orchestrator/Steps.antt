-- ===== src/Gateway/Orchestrator/Steps.antt =====
-- All that can happen to a session that a connection drives (exam_orchestrator.py, as ws_exam.py
-- calls it): triggers, pieces of tasks, time, and a new connection. A trigger that raises keeps
-- what it wrote.
use session_replica_ielt.Prelude.{ℕ, ◌+◌, Bool}
use mathlib.Core.List.{Memᴰ}
use session_replica_ielt.Gateway.Settings.{Settings}
use session_replica_ielt.Gateway.Orchestrator.State.{State, Task}
use session_replica_ielt.Gateway.Orchestrator.Triggers.{
  on_activity_end, on_gemini_turn_complete, on_cue_card_ack, on_turn_flush_started,
  on_turn_flush_complete,
}
use session_replica_ielt.Gateway.Orchestrator.Watchdogs.{run_task}
use session_replica_ielt.Gateway.Orchestrator.Lifecycle.{
  new_connection, start, close, dispatch_directive,
}

pub data Step (cfg : Settings) : State → State → Type 0 where
  activity_end : (w : State) → Step cfg w (on_activity_end cfg w).1
  gemini_turn_complete : (w : State) → Step cfg w (on_gemini_turn_complete cfg w).1
  cue_card_ack : (w : State) → Step cfg w (on_cue_card_ack cfg w).1
  flush_started : (i : ℕ) (w : State) → Step cfg w (on_turn_flush_started i w).1
  flush_complete : (i : ℕ) (w : State) → Step cfg w (on_turn_flush_complete i w).1
  task : (t : Task) (w : State) → Memᴰ t w.tasks → Step cfg w (run_task cfg t w).1
  directive : (timed_out : Bool) (w : State) → Step cfg w (dispatch_directive timed_out w).1
  tick : (ms : ℕ) (w : State) → Step cfg w (record w { now = w.now + ms })
  broker : (up : Bool) (w : State) → Step cfg w (record w { broker_up = up })
  disconnect : (w : State) → Step cfg w (close w).1
  reconnect : (w : State) → Step cfg w (start cfg (new_connection w)).1

pub data Reach (cfg : Settings) (w : State) : State → Type 0 where
  here : Reach cfg w w
  next : {u v : State} → Reach cfg w u → Step cfg u v → Reach cfg w v
