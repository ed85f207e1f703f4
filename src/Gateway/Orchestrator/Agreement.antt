-- ===== src/Gateway/Orchestrator/Agreement.antt =====
-- The driver's phase and the log's, across the triggers and the pieces of the tasks
-- (exam_orchestrator.py).
pub mod Sessions
use session_replica_ielt.Prelude.{
  ℕ, zero, suc, ◌≡◌, refl, inl, inr, Bool, true, false, Option, none, some, List, [], ◌∷◌, arith,
  Option-cases, ap,
}
use session_replica_ielt.Fsm
use session_replica_ielt.Fsm.{ExamPhase, ExamEvent}
use session_replica_ielt.Gateway.Exceptions.{Result, ok, err}
use session_replica_ielt.Gateway.Settings.{Settings}
use session_replica_ielt.Gateway.Timers
use session_replica_ielt.Gateway.Timers.{TimerName}
use session_replica_ielt.Gateway.Bridge.{Directive, reanchor, inject_directive}
use session_replica_ielt.Gateway.LongTurn
use session_replica_ielt.Gateway.LongTurn.{is_part2_long_turn}
use session_replica_ielt.Gateway.Orchestrator.State.{
  Watchdog, Stage, part1, prep, long_turn, part3, finalizing, begun, waiting, expired, State, Task,
  Action, ⊤, pure, queue_directive, ◌>>◌,
}
use session_replica_ielt.Gateway.Orchestrator.Advance.{advance}
use session_replica_ielt.Gateway.Orchestrator.Triggers.{
  on_activity_end, on_counted_turn, after_counted_turn, candidate_turn_budget_for_phase,
  on_gemini_turn_complete, on_cue_card_ack, on_turn_flush_started, on_turn_flush_complete,
  is_part1_topic_c, count_turn,
}
use session_replica_ielt.Gateway.Orchestrator.Watchdogs.{
  skip_part1, part1_completion_event, piece, run_task, settle, Next, stay, finished, is_part1,
  is_part3_discussion, poll, read_deadline, poll_phases, poll_cutoff, poll_flushes, long_turn_round,
  part1_expired, prep_expired, long_turn_expired, part3_expired, finalizing_expired,
}
use session_replica_ielt.Gateway.Orchestrator.Lifecycle.{
  new_connection, start, start_in, load_phase, resume_phase, bootstrap_fresh_session, close,
  dispatch_directive, dispatch_next, set_loaded, start_with,
}
use session_replica_ielt.Gateway.Orchestrator.Coherence.{
  Coherent, SameLog, Coherent-SameLog, Keeps, >>=-Keeps, >>-Keeps, advance-Keeps,
}
use session_replica_ielt.Gateway.Orchestrator.Steps.{
  Step, activity_end, gemini_turn_complete, cue_card_ack, flush_started, flush_complete, task,
  directive, tick, broker, disconnect, reconnect, Reach, here, next,
}

-- Actions that write neither the log nor the phase.
same-Keeps : {A : Type 0} (m : Action A) → ((w : State) → SameLog w (m w).1) → Keeps m
same-Keeps m h w c = Coherent-SameLog c (h w)

after_counted_turn-Keeps :
    (cfg : Settings) (event : ExamEvent) (budget : ℕ) → Keeps (after_counted_turn cfg event budget)
unfolding after_counted_turn
after_counted_turn-Keeps cfg event budget w c =
    ground (arith, advance-Keeps cfg event "turn_budget_reached" true w c)

on_counted_turn-Keeps :
    (cfg : Settings) (entry : Option (ExamEvent × ℕ)) → Keeps (on_counted_turn cfg entry)
unfolding on_counted_turn
on_counted_turn-Keeps cfg none w c = c
on_counted_turn-Keeps cfg (some (event, budget)) w c =
    after_counted_turn-Keeps cfg event budget (count_turn w).1
      (record { ordered = c.ordered; cached = c.cached })

pub on_activity_end-Keeps : (cfg : Settings) → Keeps (on_activity_end cfg)
unfolding on_activity_end
on_activity_end-Keeps cfg w c =
    let v : State = record w { gemini_idle = false } in
    let d : Coherent v = record { ordered = c.ordered; cached = c.cached } in
    ground (
      arith,
      advance-Keeps cfg Fsm.long_turn_ended "candidate_released_ptt" true v d,
      on_counted_turn-Keeps cfg (candidate_turn_budget_for_phase cfg w.phase) v d,
    )

pub on_gemini_turn_complete-Keeps : (cfg : Settings) → Keeps (on_gemini_turn_complete cfg)
unfolding on_gemini_turn_complete
on_gemini_turn_complete-Keeps cfg w c =
    let v : State = record w { gemini_idle = true } in
    let d : Coherent v = record { ordered = c.ordered; cached = c.cached } in
    ground (arith, advance-Keeps cfg Fsm.close_delivered "close_delivered" true v d)

pub on_cue_card_ack-Keeps : (cfg : Settings) → Keeps (on_cue_card_ack cfg)
unfolding on_cue_card_ack
on_cue_card_ack-Keeps cfg w c =
    ground (arith, advance-Keeps cfg Fsm.cue_card_acked "cue_card_acked" true w c)

skip_part1-Keeps : (rounds : ℕ) (cfg : Settings) → Keeps (skip_part1 rounds cfg)
unfolding skip_part1
skip_part1-Keeps zero cfg w c = ground arith
skip_part1-Keeps (suc rounds) cfg w c = elim (Option-cases (part1_completion_event w.phase)) [
  | inl out ↦ rw (out, skip_part1) c
  | inr (event, inside) ↦
      rw (inside, skip_part1)
        (>>-Keeps (advance cfg event "part1_max_watchdog" (is_part1_topic_c w.phase))
          (skip_part1 rounds cfg)
          (advance-Keeps cfg event "part1_max_watchdog" (is_part1_topic_c w.phase))
          (skip_part1-Keeps rounds cfg) w c)
]

part1_expired-Keeps : (cfg : Settings) → Keeps (part1_expired cfg)
unfolding part1_expired
part1_expired-Keeps cfg w c =
    skip_part1-Keeps 3 cfg _ (record { ordered = c.ordered; cached = c.cached })

prep_expired-Keeps : (cfg : Settings) → Keeps (prep_expired cfg)
unfolding prep_expired
prep_expired-Keeps cfg w c =
    advance-Keeps cfg Fsm.prep_timer_expired "prep_timer_expired" true _
      (record { ordered = c.ordered; cached = c.cached })

long_turn_expired-Keeps : (cfg : Settings) → Keeps (long_turn_expired cfg)
unfolding long_turn_expired
long_turn_expired-Keeps cfg w c =
    advance-Keeps cfg Fsm.long_turn_ended "hard_cutoff" true _
      (record { ordered = c.ordered; cached = c.cached })

part3_expired-Keeps : (cfg : Settings) → Keeps (part3_expired cfg)
unfolding part3_expired
part3_expired-Keeps cfg w c =
    advance-Keeps cfg Fsm.discussion_complete "part3_dynamic_timer_expired" true _
      (record { ordered = c.ordered; cached = c.cached })

finalizing_expired-Keeps : (cfg : Settings) → Keeps (finalizing_expired cfg)
unfolding finalizing_expired
finalizing_expired-Keeps cfg w c = ground (
  arith,
  advance-Keeps cfg Fsm.finalize_complete "media_flush_drained" true w c,
  advance-Keeps cfg Fsm.finalize_complete "finalizing_watchdog_timeout" true w c,
)

-- A piece that ends its task.
last-Keeps : (m : Action ⊤) → Keeps m → Keeps (m >> pure finished)
last-Keeps m k = >>-Keeps m (pure finished) k (λ w c. c)

read_deadline-Keeps : (name : TimerName) → Keeps (read_deadline name)
unfolding read_deadline
read_deadline-Keeps name w c = c

poll-Keeps : Keeps poll
unfolding poll
poll-Keeps w c = c

poll_phases-Keeps : (deadline : ℕ) (phases : ExamPhase → Bool) → Keeps (poll_phases deadline phases)
unfolding poll_phases
poll_phases-Keeps deadline phases w c = ground arith

long_turn_round-Keeps :
    (deadline : ℕ) (warned : Bool) (r : LongTurn.Round) → Keeps (long_turn_round deadline warned r)
unfolding long_turn_round
long_turn_round-Keeps deadline warned LongTurn.left w c = c
long_turn_round-Keeps deadline warned (LongTurn.go_on warn) w c = ground arith
long_turn_round-Keeps deadline warned (LongTurn.cut_off warn) w c = ground arith

poll_cutoff-Keeps : (cfg : Settings) (d : ℕ) (warned : Bool) → Keeps (poll_cutoff cfg d warned)
unfolding poll_cutoff
poll_cutoff-Keeps cfg d warned =
    >>=-Keeps poll
      (λ p.
        long_turn_round d warned (
          LongTurn.poll_long_turn d cfg.part2_long_turn_warn_at_ms cfg.part2_long_turn_ms warned p))
      poll-Keeps
      (λ p.
        long_turn_round-Keeps d warned (
          LongTurn.poll_long_turn d cfg.part2_long_turn_warn_at_ms cfg.part2_long_turn_ms warned p))

poll_flushes-Keeps : (cfg : Settings) (d : ℕ) → Keeps (poll_flushes cfg d)
unfolding poll_flushes
poll_flushes-Keeps cfg d w c =
    ground (arith, last-Keeps (finalizing_expired cfg) (finalizing_expired-Keeps cfg) w c)

piece-Keeps : (cfg : Settings) (k : Watchdog) (s : Stage) → Keeps (piece cfg k s)
unfolding piece
piece-Keeps cfg part1 begun = read_deadline-Keeps Timers.part1_max
piece-Keeps cfg prep begun = read_deadline-Keeps Timers.part2_prep
piece-Keeps cfg long_turn begun = read_deadline-Keeps Timers.part2_long_turn
piece-Keeps cfg part3 begun = read_deadline-Keeps Timers.part3_discussion
piece-Keeps cfg finalizing begun = λ w c. c
piece-Keeps cfg part1 (waiting d warned) = poll_phases-Keeps d is_part1
piece-Keeps cfg prep (waiting d warned) = poll_phases-Keeps d Timers.is_part2_prep
piece-Keeps cfg long_turn (waiting d warned) = poll_cutoff-Keeps cfg d warned
piece-Keeps cfg part3 (waiting d warned) = poll_phases-Keeps d is_part3_discussion
piece-Keeps cfg finalizing (waiting d warned) = poll_flushes-Keeps cfg d
piece-Keeps cfg part1 expired = last-Keeps (part1_expired cfg) (part1_expired-Keeps cfg)
piece-Keeps cfg prep expired = last-Keeps (prep_expired cfg) (prep_expired-Keeps cfg)
piece-Keeps cfg long_turn expired = last-Keeps (long_turn_expired cfg) (long_turn_expired-Keeps cfg)
piece-Keeps cfg part3 expired = last-Keeps (part3_expired cfg) (part3_expired-Keeps cfg)
piece-Keeps cfg finalizing expired = λ w c. c

settle-Coherent : (i : ℕ) (r : Result Next × State) → Coherent r.1 → Coherent (settle i r).1
unfolding settle
settle-Coherent i (ok (stay s), w) c = record { ordered = c.ordered; cached = c.cached }
settle-Coherent i (ok finished, w) c = record { ordered = c.ordered; cached = c.cached }
settle-Coherent i (err e, w) c = record { ordered = c.ordered; cached = c.cached }

pub run_task-Keeps : (cfg : Settings) (t : Task) → Keeps (run_task cfg t)
unfolding run_task
run_task-Keeps cfg t w c =
    settle-Coherent t.id (piece cfg t.watchdog t.stage w) (piece-Keeps cfg t.watchdog t.stage w c)
