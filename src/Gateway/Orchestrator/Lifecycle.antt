-- ===== src/Gateway/Orchestrator/Lifecycle.antt =====
-- The connection's beginning and end, and the directive dispatcher, of exam_orchestrator.py.
use session_replica_ielt.Prelude.{
  ℕ, Bool, true, false, not, ◌||◌, Option, none, some, List, [], ◌∷◌, ◌==◌, if◌then◌else◌, select,
}
use session_replica_ielt.Fsm
use session_replica_ielt.Fsm.{ExamPhase}
use session_replica_ielt.Gateway.Exceptions.{Result, ok, err}
use session_replica_ielt.Gateway.Engine
use session_replica_ielt.Gateway.Settings.{Settings}
use session_replica_ielt.Gateway.Timers
use session_replica_ielt.Gateway.Timers.{TimerName}
use session_replica_ielt.Gateway.Bridge.{Directive, reanchor, inject_directive, force_mute_input}
use session_replica_ielt.Gateway.Orchestrator.State.{
  part1, prep, long_turn, part3, State, Action, ⊤, pure, ◌>>◌, modify, queue_directive,
}
use session_replica_ielt.Gateway.Orchestrator.Advance.{advance, push_timer_deadline, start_watchdog}

-- `ExamOrchestrator(session_id=..., bridge=..., outbox=...)`: a new connection's fields over the
-- same tables and Redis. The bridge starts unmuted; no task of this connection runs, and tasks that
-- an earlier connection left running belong to its own driver and are not followed further.
unfoldable pub new_connection : State → State
new_connection w = record w {
  bridge = record { connected = true; input_muted = false; sent = [] };
  outbox = [];
  phase = Fsm.init_device_check;
  turns_in_phase = 0;
  turns_since_reanchor = 0;
  part1_start_ts = none;
  topic_sets = [];
  bound_card = none;
  watchdog_task = none;
  finalizing_watchdog_task = none;
  pending_flush_turn_ids = [];
  gemini_idle = true;
  directive_queue = [];
  tasks = [];
}

-- `_repush_live_deadline`
unfoldable pub repush_live_deadline : TimerName → Action ⊤
unfolding push_timer_deadline
repush_live_deadline name w = elim (Timers.get_deadline w.now w.session_id name w.redis) [
  | none ↦ pure tt w
  | some deadline ↦ push_timer_deadline name deadline w
]

-- `_bootstrap_fresh_session`
unfoldable pub bootstrap_fresh_session : Settings → Action ⊤
bootstrap_fresh_session cfg = do
  advance cfg Fsm.device_check_confirmed "auto_pass_no_device_check_ui" true
  advance cfg Fsm.id_verified "auto_pass_no_id_verification_ui" true

-- Part 1 is resumed with its start read back from Redis.
unfoldable pub resume_part1 : Action ⊤
unfolding repush_live_deadline start_watchdog
resume_part1 = do
  modify (λ w. record w {
    part1_start_ts = Timers.get_phase_start w.now w.session_id Timers.part1_start w.redis;
  })
  repush_live_deadline Timers.part1_max
  start_watchdog part1

-- What `start` does for a session that is under way, after the `reanchor` directive.
unfoldable pub resume_phase : ExamPhase → Action ⊤
unfolding resume_part1
resume_phase Fsm.part1_topic_a = resume_part1
resume_phase Fsm.part1_topic_b = resume_part1
resume_phase Fsm.part1_topic_c = resume_part1
resume_phase Fsm.part2_prep = do
  modify (λ w. record w { bridge = force_mute_input w.bridge })
  repush_live_deadline Timers.part2_prep
  start_watchdog prep
resume_phase Fsm.part2_long_turn =
    repush_live_deadline Timers.part2_long_turn >> start_watchdog long_turn
resume_phase Fsm.part3_discussion =
    repush_live_deadline Timers.part3_discussion >> start_watchdog part3
resume_phase _ = pure tt

unfoldable pub start_in : Settings → ExamPhase → Action ⊤
unfolding bootstrap_fresh_session resume_phase
start_in cfg Fsm.init_device_check = bootstrap_fresh_session cfg
start_in cfg p = queue_directive reanchor >> resume_phase p

-- `self._phase = await fsm_engine.get_current_phase(...)`
unfoldable pub set_loaded : Result ExamPhase → Action ExamPhase
set_loaded (ok p) w = (ok p, record w { phase = p })
set_loaded (err e) w = (err e, w)

unfoldable pub load_phase : Action ExamPhase
unfolding set_loaded
load_phase w = set_loaded (Engine.get_current_phase w.db w.session_id) w

-- `start`, with the phase that it loaded.
unfoldable pub start_with : Settings → Result ExamPhase × State → Result ⊤ × State
unfolding start_in
start_with cfg (ok p, w) = start_in cfg p w
start_with cfg (err e, w) = (err e, w)

-- `start`
unfoldable pub start : Settings → Action ⊤
unfolding load_phase start_with
start cfg w = start_with cfg (load_phase w)

abbrev pub is_handle : Option ℕ → ℕ → Bool
is_handle none i = false
is_handle (some h) i = h == i

-- `close`: the tasks whose handles the driver still has are cancelled.
unfoldable pub close : Action ⊤
close = modify (λ w. record w {
  tasks =
      select
        (λ t. not (is_handle w.watchdog_task t.id || is_handle w.finalizing_watchdog_task t.id))
        w.tasks;
})

-- A round of `_dispatch_directives`: the next directive is sent once Gemini's turn is complete or
-- the wait for it has timed out; sending it puts a turn in flight.
unfoldable pub dispatch_next : Bool → List Directive → Action ⊤
dispatch_next timed_out [] w = (ok tt, w)
dispatch_next timed_out (d ∷ ds) w =
    if w.gemini_idle || timed_out
    then (let (r, b) = inject_directive d w.bridge in
        (r, record w { directive_queue = ds; gemini_idle = false; bridge = b }))
    else (ok tt, w)

unfoldable pub dispatch_directive : Bool → Action ⊤
unfolding dispatch_next
dispatch_directive timed_out w = dispatch_next timed_out w.directive_queue w
