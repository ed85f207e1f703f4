-- ===== src/Gateway/Orchestrator/Agreement/Sessions.antt =====
-- The driver's phase and the log's, along the steps of a session (exam_orchestrator.py).
use session_replica_ielt.Prelude.{◌≡◌, refl, Bool, true, List, [], ◌∷◌, arith, ap}
use session_replica_ielt.Fsm
use session_replica_ielt.Fsm.{ExamPhase, ExamEvent}
use session_replica_ielt.Gateway.Exceptions.{ok}
use session_replica_ielt.Gateway.Settings.{Settings}
use session_replica_ielt.Gateway.Bridge.{Directive, reanchor, inject_directive}
use session_replica_ielt.Gateway.Orchestrator.State.{State, queue_directive, ◌>>◌}
use session_replica_ielt.Gateway.Orchestrator.Advance.{advance}
use session_replica_ielt.Gateway.Orchestrator.Triggers.{
  on_turn_flush_started, on_turn_flush_complete,
}
use session_replica_ielt.Gateway.Orchestrator.Lifecycle.{
  new_connection, start, start_in, load_phase, resume_phase, bootstrap_fresh_session, close,
  dispatch_directive, dispatch_next, set_loaded, start_with,
}
use session_replica_ielt.Gateway.Orchestrator.Coherence.{
  Coherent, SameLog, Coherent-SameLog, Keeps, >>-Keeps, advance-Keeps,
}
use session_replica_ielt.Gateway.Orchestrator.Steps.{
  Step, activity_end, gemini_turn_complete, cue_card_ack, flush_started, flush_complete, task,
  directive, tick, broker, disconnect, reconnect, Reach, here, next,
}
use session_replica_ielt.Gateway.Orchestrator.Agreement.{
  on_activity_end-Keeps, on_gemini_turn_complete-Keeps, on_cue_card_ack-Keeps, run_task-Keeps,
}

resume_phase-SameLog : (p : ExamPhase) (w : State) → SameLog w (resume_phase p w).1
unfolding resume_phase
resume_phase-SameLog p w = ground arith

resumed-Keeps : (p : ExamPhase) → Keeps (queue_directive reanchor >> resume_phase p)
resumed-Keeps p w c =
    Coherent-SameLog {w = (queue_directive reanchor w).1}
      (record { ordered = c.ordered; cached = c.cached })
      (resume_phase-SameLog p (queue_directive reanchor w).1)

start_in-Keeps : (cfg : Settings) (p : ExamPhase) → Keeps (start_in cfg p)
unfolding start_in bootstrap_fresh_session
start_in-Keeps cfg Fsm.init_device_check w c =
    >>-Keeps (advance cfg Fsm.device_check_confirmed "auto_pass_no_device_check_ui" true)
      (advance cfg Fsm.id_verified "auto_pass_no_id_verification_ui" true)
      (advance-Keeps cfg Fsm.device_check_confirmed "auto_pass_no_device_check_ui" true)
      (advance-Keeps cfg Fsm.id_verified "auto_pass_no_id_verification_ui" true) w c
start_in-Keeps cfg p w c = resumed-Keeps p w c

-- What `start` reads first, on a new connection to a session whose driver agreed with its log.
pub load_phase-new_connection :
    (w : State)
    → Coherent w
    → load_phase (new_connection w) ≡ (ok w.phase, record (new_connection w) { phase = w.phase })
unfolding load_phase set_loaded new_connection
load_phase-new_connection w c = ap (λ r. set_loaded r (new_connection w)) c.cached

-- `start` then goes on from the phase of the log.
pub start-new_connection :
    (cfg : Settings) (w : State)
    → Coherent w
    → start cfg (new_connection w)
      ≡ start_in cfg w.phase (record (new_connection w) { phase = w.phase })
unfolding start start_with
start-new_connection cfg w c = ap (start_with cfg) (load_phase-new_connection w c)

reconnect-Coherent :
    (cfg : Settings) (w : State) → Coherent w → Coherent (start cfg (new_connection w)).1
unfolding new_connection
reconnect-Coherent cfg w c = rw (start-new_connection cfg w c) (
    start_in-Keeps cfg w.phase (record (new_connection w) { phase = w.phase })
      (record { ordered = c.ordered; cached = c.cached }))

dispatch_next-SameLog :
    (timed_out : Bool) (ds : List Directive) (w : State)
    → SameLog w (dispatch_next timed_out ds w).1
unfolding dispatch_next inject_directive
dispatch_next-SameLog timed_out [] w = record { events = refl; session = refl; phase = refl }
dispatch_next-SameLog timed_out (d ∷ ds) w = ground arith

pub Step-Coherent : (cfg : Settings) {u v : State} → Step cfg u v → Coherent u → Coherent v
unfolding on_turn_flush_started on_turn_flush_complete close dispatch_directive
Step-Coherent cfg (activity_end w) c = on_activity_end-Keeps cfg w c
Step-Coherent cfg (gemini_turn_complete w) c = on_gemini_turn_complete-Keeps cfg w c
Step-Coherent cfg (cue_card_ack w) c = on_cue_card_ack-Keeps cfg w c
Step-Coherent cfg (flush_started i w) c = record { ordered = c.ordered; cached = c.cached }
Step-Coherent cfg (flush_complete i w) c = record { ordered = c.ordered; cached = c.cached }
Step-Coherent cfg (task t w m) c = run_task-Keeps cfg t w c
Step-Coherent cfg (directive timed_out w) c =
    Coherent-SameLog c (dispatch_next-SameLog timed_out w.directive_queue w)
Step-Coherent cfg (tick ms w) c = record { ordered = c.ordered; cached = c.cached }
Step-Coherent cfg (broker up w) c = record { ordered = c.ordered; cached = c.cached }
Step-Coherent cfg (disconnect w) c = record { ordered = c.ordered; cached = c.cached }
Step-Coherent cfg (reconnect w) c = reconnect-Coherent cfg w c

-- However the connection's triggers, tasks, failures and reconnections follow on one another, the
-- phase that the driver holds is the phase to which the event log replays, and the log stays
-- numbered upwards.
pub Reach-Coherent : (cfg : Settings) {u v : State} → Reach cfg u v → Coherent u → Coherent v
Reach-Coherent cfg here c = c
Reach-Coherent cfg (next r s) c = Step-Coherent cfg s (Reach-Coherent cfg r c)
