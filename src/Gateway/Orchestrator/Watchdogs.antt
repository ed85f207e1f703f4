-- ===== src/Gateway/Orchestrator/Watchdogs.antt =====
-- The watchdogs and the dispatcher of exam_orchestrator.py, a piece at a time: a task runs from one
-- wait to the next, and other tasks and triggers run in between. The end of a wait and what
-- follows it are two pieces, since the code awaits Redis and the database there.
use session_replica_ielt.Prelude.{
  ℕ, zero, suc, ◌+◌, Bool, true, false, not, ◌&&◌, ◌||◌, Option, none, some, List, [], ◌∷◌, ◌==◌,
  ltb, if◌then◌else◌, select,
}
use session_replica_ielt.Fsm
use session_replica_ielt.Fsm.{ExamPhase, ExamEvent}
use session_replica_ielt.Gateway.Exceptions.{Result, ok, err, out_of_fuel}
use session_replica_ielt.Gateway.Exceptions
use session_replica_ielt.Gateway.Engine
use session_replica_ielt.Gateway.Settings.{Settings}
use session_replica_ielt.Gateway.Timers
use session_replica_ielt.Gateway.Timers.{TimerName, Poll, is_part2_prep, poll_group}
use session_replica_ielt.Gateway.Bridge.{
  Bridge, part1_wrap_up, part3_wrap_up, part2_hard_stop, inject_directive, force_mute_input,
}
use session_replica_ielt.Gateway.LongTurn
use session_replica_ielt.Gateway.LongTurn.{poll_long_turn, inject_warning}
use session_replica_ielt.Gateway.Orchestrator.State.{
  Watchdog, part1, prep, long_turn, part3, finalizing, Stage, begun, waiting, expired, Task,
  scripted_audio, State, Action, ⊤, pure, raise, gets, ◌>>=◌, ◌>>◌, modify, put, queue_directive,
}
use session_replica_ielt.Gateway.Orchestrator.Advance.{advance, is_empty}
use session_replica_ielt.Gateway.Orchestrator.Triggers.{is_part1_topic_c}

-- `_PART1_COMPLETION_EVENT.get(phase)`
unfoldable pub part1_completion_event : ExamPhase → Option ExamEvent
part1_completion_event Fsm.part1_topic_a = some Fsm.topic_a_complete
part1_completion_event Fsm.part1_topic_b = some Fsm.topic_b_complete
part1_completion_event Fsm.part1_topic_c = some Fsm.topic_c_complete
part1_completion_event _ = none

-- `PART1_PHASES`
abbrev pub is_part1 : ExamPhase → Bool
is_part1 Fsm.part1_topic_a = true
is_part1 Fsm.part1_topic_b = true
is_part1 Fsm.part1_topic_c = true
is_part1 _ = false

abbrev pub is_part3_discussion : ExamPhase → Bool
is_part3_discussion Fsm.part3_discussion = true
is_part3_discussion _ = false

abbrev pub is_finalizing : ExamPhase → Bool
is_finalizing Fsm.finalizing = true
is_finalizing _ = false

-- `while self._phase in _PART1_COMPLETION_EVENT`, for at most so many rounds.
unfoldable pub skip_part1 : ℕ → Settings → Action ⊤
unfolding part1_completion_event
skip_part1 zero cfg w = elim (part1_completion_event w.phase) [
  | none ↦ pure tt w
  | some event ↦ raise out_of_fuel w
]
skip_part1 (suc rounds) cfg w = elim (part1_completion_event w.phase) [
  | none ↦ pure tt w
  | some event ↦
      (advance cfg event "part1_max_watchdog" (is_part1_topic_c w.phase) >> skip_part1 rounds cfg) w
]

unfoldable pub clear_deadline : TimerName → Action ⊤
clear_deadline name =
    modify (λ w. record w { redis = Timers.clear_deadline w.session_id name w.redis })

-- `_run_part1_watchdog`, once its wait has expired.
unfoldable pub part1_expired : Settings → Action ⊤
unfolding clear_deadline skip_part1
part1_expired cfg = do
  clear_deadline Timers.part1_max
  queue_directive part1_wrap_up
  skip_part1 3 cfg

-- `_run_part3_watchdog`, once its wait has expired.
unfoldable pub part3_expired : Settings → Action ⊤
unfolding clear_deadline
part3_expired cfg = do
  clear_deadline Timers.part3_discussion
  queue_directive part3_wrap_up
  advance cfg Fsm.discussion_complete "part3_dynamic_timer_expired" true

-- `_run_prep_watchdog`, once its wait has expired.
unfoldable pub prep_expired : Settings → Action ⊤
unfolding clear_deadline
prep_expired cfg = do
  put (scripted_audio "please_begin_speaking_now.wav")
  clear_deadline Timers.part2_prep
  advance cfg Fsm.prep_timer_expired "prep_timer_expired" true

-- `_run_long_turn_watchdog`, once the hard cutoff was made.
unfoldable pub long_turn_expired : Settings → Action ⊤
unfolding clear_deadline
long_turn_expired cfg = do
  clear_deadline Timers.part2_long_turn
  modify (λ w. record w { gemini_idle = false })
  advance cfg Fsm.long_turn_ended "hard_cutoff" true

-- `_run_finalizing_watchdog`, after its loop.
unfoldable pub finalizing_expired : Settings → Action ⊤
finalizing_expired cfg w =
    if is_finalizing w.phase
    then advance cfg Fsm.finalize_complete
        (if is_empty w.pending_flush_turn_ids
          then "media_flush_drained"
          else "finalizing_watchdog_timeout")
        true w
    else pure tt w

-- What a piece of a task ends with.
pub data Next : Type 0 where
  stay : Stage → Next
  finished : Next

-- The first piece: `get_deadline`, and a warning in the log if there is none.
abbrev pub from_deadline : Option ℕ → Next
from_deadline none = finished
from_deadline (some deadline) = stay (waiting deadline false)

unfoldable pub read_deadline : TimerName → Action Next
read_deadline name = gets (λ w. from_deadline (Timers.get_deadline w.now w.session_id name w.redis))

-- A round's `get_current_phase`, with the time of its test.
unfoldable pub poll : Action Poll
poll w = (
  Exceptions.◌>>=◌ (Engine.get_current_phase w.db w.session_id)
      (λ p. ok (record { now = w.now; phase = p })),
  w,
)

abbrev pub after_poll : ℕ → Timers.Waiting → Next
after_poll deadline Timers.keep_waiting = stay (waiting deadline false)
after_poll deadline (Timers.done true) = stay expired
after_poll deadline (Timers.done false) = finished

unfoldable pub poll_phases : ℕ → (ExamPhase → Bool) → Action Next
unfolding poll
poll_phases deadline phases = do p ← poll; pure (after_poll deadline (poll_group deadline phases p))

-- `await bridge.inject_directive(...)` within a task.
unfoldable pub on_bridge : (Bridge → Result ⊤ × Bridge) → Action ⊤
on_bridge f w = let (r, b) = f w.bridge in (r, record w { bridge = b })

unfoldable pub long_turn_round : ℕ → Bool → LongTurn.Round → Action Next
unfolding on_bridge
long_turn_round deadline warned LongTurn.left = pure finished
long_turn_round deadline warned (LongTurn.go_on warn) = do
  on_bridge (inject_warning warn)
  pure (stay (waiting deadline (warned || warn)))
long_turn_round deadline warned (LongTurn.cut_off warn) = do
  on_bridge (inject_warning warn)
  modify (λ w. record w { bridge = force_mute_input w.bridge })
  on_bridge (inject_directive part2_hard_stop)
  pure (stay expired)

unfoldable pub poll_cutoff : Settings → ℕ → Bool → Action Next
unfolding poll long_turn_round
poll_cutoff cfg deadline warned = do
  p ← poll
  long_turn_round deadline warned
      (poll_long_turn deadline cfg.part2_long_turn_warn_at_ms cfg.part2_long_turn_ms warned p)

-- A round of the loop of `_run_finalizing_watchdog`.
unfoldable pub poll_flushes : Settings → ℕ → Action Next
poll_flushes cfg deadline w =
    if not (is_empty w.pending_flush_turn_ids) && ltb w.now deadline
    then (ok (stay (waiting deadline false)), w)
    else (finalizing_expired cfg >> pure finished) w

-- The next piece of a watchdog.
unfoldable pub piece : Settings → Watchdog → Stage → Action Next
unfolding read_deadline poll_phases poll_cutoff poll_flushes
piece cfg part1 begun = read_deadline Timers.part1_max
piece cfg prep begun = read_deadline Timers.part2_prep
piece cfg long_turn begun = read_deadline Timers.part2_long_turn
piece cfg part3 begun = read_deadline Timers.part3_discussion
piece cfg finalizing begun = gets (λ w. stay (waiting (w.now + cfg.finalizing_watchdog_ms) false))
piece cfg part1 (waiting d warned) = poll_phases d is_part1
piece cfg prep (waiting d warned) = poll_phases d is_part2_prep
piece cfg long_turn (waiting d warned) = poll_cutoff cfg d warned
piece cfg part3 (waiting d warned) = poll_phases d is_part3_discussion
piece cfg finalizing (waiting d warned) = poll_flushes cfg d
piece cfg part1 expired = part1_expired cfg >> pure finished
piece cfg prep expired = prep_expired cfg >> pure finished
piece cfg long_turn expired = long_turn_expired cfg >> pure finished
piece cfg part3 expired = part3_expired cfg >> pure finished
piece cfg finalizing expired = pure finished

unfoldable pub set_stage : ℕ → Stage → List Task → List Task
set_stage i stage [] = []
set_stage i stage (t ∷ ts) =
    if t.id == i then record t { stage = stage } ∷ ts else t ∷ set_stage i stage ts

-- A task that returns or raises is over.
unfoldable pub settle : ℕ → Result Next × State → Result ⊤ × State
unfolding set_stage
settle i (ok (stay stage), w) = (ok tt, record w { tasks = set_stage i stage w.tasks })
settle i (ok finished, w) = (ok tt, record w { tasks = select (λ t. not (t.id == i)) w.tasks })
settle i (err e, w) = (err e, record w { tasks = select (λ t. not (t.id == i)) w.tasks })

unfoldable pub run_task : Settings → Task → Action ⊤
unfolding piece settle
run_task cfg t w = settle t.id (piece cfg t.watchdog t.stage w)
