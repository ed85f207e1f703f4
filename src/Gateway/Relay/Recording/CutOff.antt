-- ===== src/Gateway/Relay/Recording/CutOff.antt =====
-- A turn into which a watchdog's move falls (apps/api-gateway/app/routers/ws_exam.py, with
-- `_run_long_turn_watchdog` and `_run_part3_watchdog` of exam_orchestrator.py).
use mathlib.Core.List.{Memᴰ}
use session_replica_ielt.Prelude.{false, none, ℕ, ◌≡◌, refl, ap, ◌∙◌, List, [], ◌∷◌, ◌++◌}
use session_replica_ielt.Fsm
use session_replica_ielt.Fsm.{ExamPhase, reached}
use session_replica_ielt.Gateway.Exceptions.{Result, ok, err}
use session_replica_ielt.Gateway.Settings.{Settings}
use session_replica_ielt.Gateway.Timers
use session_replica_ielt.Gateway.Bridge.{part3_wrap_up}
use session_replica_ielt.Worker.Utterances.{phase_bucket}
use session_replica_ielt.Gateway.Orchestrator.State.{
  State, Action, ⊤, pure, ◌>>◌, Task, Watchdog, long_turn, part3, expired,
}
use session_replica_ielt.Gateway.Orchestrator.Steps.{task}
use session_replica_ielt.Gateway.Orchestrator.Coherence.{Coherent}
use session_replica_ielt.Gateway.Orchestrator.Moves.{advance_settles}
use session_replica_ielt.Gateway.Orchestrator.Watchdogs.{
  run_task, piece, settle, Next, stay, finished, long_turn_expired, part3_expired, clear_deadline,
}
use session_replica_ielt.Gateway.Relay.{Relay, activity_end, end_activity, on_client_message}
use session_replica_ielt.Gateway.Relay.Recording.{During, driver, turn_recorded}

settle-phase : (i : ℕ) (r : Result Next × State) → (settle i r).1.phase ≡ r.1.phase
unfolding settle
settle-phase i (ok (stay stage), w) = refl
settle-phase i (ok finished, w) = refl
settle-phase i (err e, w) = refl

then_pure-phase :
    {A : Type 0} (m : Action ⊤) (a : A) (w : State) → ((m >> pure a) w).1.phase ≡ (m w).1.phase
then_pure-phase m a w = continued (m w)
  where
    continued : (r : Result ⊤ × State) → (((λ w. r) >> pure a) w).1.phase ≡ r.1.phase
    continued (ok u, v) = refl
    continued (err e, v) = refl

-- The watchdogs move the driver, whoever is speaking.
module _ (cfg : Settings) (i : ℕ) (w : State) (c : Coherent w) where
  long_turn_expired-phase :
      w.phase ≡ Fsm.part2_long_turn
      → (run_task cfg (record { id = i; watchdog = long_turn; stage = expired }) w).1.phase
        ≡ Fsm.part2_roundoff
  unfolding run_task piece long_turn_expired clear_deadline Fsm.transition Fsm.transitions
  long_turn_expired-phase at =
      let v : State = record w {
        redis = Timers.clear_deadline w.session_id Timers.part2_long_turn w.redis;
        gemini_idle = false;
      } in
      let legal : Fsm.transition w.phase Fsm.long_turn_ended ≡ reached Fsm.part2_roundoff =
        rw at refl in
      settle-phase i ((long_turn_expired cfg >> pure finished) w)
      ∙ then_pure-phase (long_turn_expired cfg) finished w
      ∙ advance_settles cfg Fsm.long_turn_ended "hard_cutoff" v
          (record { ordered = c.ordered; cached = c.cached }) legal

  part3_expired-phase :
      w.phase ≡ Fsm.part3_discussion
      → (run_task cfg (record { id = i; watchdog = part3; stage = expired }) w).1.phase ≡ Fsm.close
  unfolding run_task piece part3_expired clear_deadline Fsm.transition Fsm.transitions
  part3_expired-phase at =
      let v : State = record w {
        redis = Timers.clear_deadline w.session_id Timers.part3_discussion w.redis;
        directive_queue = w.directive_queue ++ part3_wrap_up ∷ [];
      } in
      let legal : Fsm.transition w.phase Fsm.discussion_complete ≡ reached Fsm.close = rw at refl in
      settle-phase i ((part3_expired cfg >> pure finished) w)
      ∙ then_pure-phase (part3_expired cfg) finished w
      ∙ advance_settles cfg Fsm.discussion_complete "part3_dynamic_timer_expired" v
          (record { ordered = c.ordered; cached = c.cached }) legal

abbrev past_wait : ℕ → Watchdog → Task
past_wait i k = record { id = i; watchdog = k; stage = expired }

-- The relay after that piece of the watchdog.
abbrev fired : Settings → ℕ → Watchdog → Relay → Relay
fired cfg i k q = record q { orchestrator = (run_task cfg (past_wait i k) q.orchestrator).1 }

module _ (cfg : Settings) (p : Relay) {bytes : List ℕ} {q : Relay} {phase : ExamPhase} {w : State}
    (i : ℕ) (during : During cfg p bytes q) (c : Coherent q.orchestrator) where
  -- If the hard cutoff falls within a turn of the long turn and the turn then ends without an
  -- error, what was spoken in the long turn is recorded under the round-off questions.
  cut_off_turn_recorded :
      q.orchestrator.phase ≡ Fsm.part2_long_turn
      → Memᴰ (past_wait i long_turn) q.orchestrator.tasks
      → end_activity cfg p.fresh (fired cfg i long_turn q).orchestrator ≡ (ok phase, w)
      → (on_client_message cfg activity_end (fired cfg i long_turn q)).1.flushes
        ≡ p.flushes
          ++ record { turn_id = p.fresh; pcm_bytes = bytes; exam_phase = Fsm.part2_roundoff } ∷ []
  cut_off_turn_recorded at member ended =
      (turn_recorded cfg p (driver during (task (past_wait i long_turn) q.orchestrator member))
        ended).0
      ∙ ap (λ x. p.flushes ++ record { turn_id = p.fresh; pcm_bytes = bytes; exam_phase = x } ∷ [])
          (long_turn_expired-phase cfg i q.orchestrator c at)

  -- If Part 3's timer expires within a turn of the discussion and the turn then ends without an
  -- error, the turn is recorded under CLOSE, which belongs to no part of the features.
  part3_turn_in_no_part :
      q.orchestrator.phase ≡ Fsm.part3_discussion
      → Memᴰ (past_wait i part3) q.orchestrator.tasks
      → end_activity cfg p.fresh (fired cfg i part3 q).orchestrator ≡ (ok phase, w)
      → ((on_client_message cfg activity_end (fired cfg i part3 q)).1.flushes
          ≡ p.flushes
            ++ record { turn_id = p.fresh; pcm_bytes = bytes; exam_phase = Fsm.close } ∷ [])
        × (phase_bucket Fsm.close ≡ none)
  unfolding phase_bucket
  part3_turn_in_no_part at member ended = (
    (turn_recorded cfg p (driver during (task (past_wait i part3) q.orchestrator member)) ended).0
        ∙ ap
            (λ x. p.flushes ++ record { turn_id = p.fresh; pcm_bytes = bytes; exam_phase = x } ∷ [])
            (part3_expired-phase cfg i q.orchestrator c at),
    refl,
  )
