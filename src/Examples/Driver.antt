-- ===== src/Examples/Driver.antt =====
-- The driver of an exam, tried on concrete sessions.
use session_replica_ielt.Prelude.{
  ◌≡◌, refl, sym, ap, ◌∙◌, true, some, [], ◌∷◌, ◌++◌, arith, if◌then◌else◌,
}
use session_replica_ielt.Fsm
use session_replica_ielt.Fsm.{ExamPhase, ExamEvent, reached}
use session_replica_ielt.Gateway.Exceptions.{ok, err, key_error, invalid_transition}
use session_replica_ielt.Gateway.Tables.{completed, find_session}
use session_replica_ielt.Gateway.Settings.{default_settings}
use session_replica_ielt.Gateway.Bridge.{send_audio_frame}
use session_replica_ielt.Gateway.Orchestrator.State.{State}
use session_replica_ielt.Gateway.Orchestrator.Advance.{advance}
use session_replica_ielt.Gateway.Orchestrator.Triggers.{on_cue_card_ack}
use session_replica_ielt.Gateway.Orchestrator.Watchdogs.{part1_expired, long_turn_expired, is_part1}
use session_replica_ielt.Gateway.Orchestrator.Lifecycle.{start, new_connection}
use session_replica_ielt.Gateway.Orchestrator.Coherence.{Coherent, moved_to}
use session_replica_ielt.Gateway.Orchestrator.Steps.{here, next, reconnect, cue_card_ack}
use session_replica_ielt.Gateway.Orchestrator.Silence.Sessions.{prep_is_silent}
use session_replica_ielt.Gateway.Orchestrator.Agreement.Sessions.{Reach-Coherent}
use session_replica_ielt.Gateway.Orchestrator.Moves.{settled, advance_settles}
use session_replica_ielt.Gateway.Orchestrator.Resume.{
  resumed_finalizing_stuck, resumed_part1_loses_topics,
}
use session_replica_ielt.Gateway.Orchestrator.Timeouts.{
  part1_expired_reaches_part2, long_turn_expired_late, finalize_completes,
}
use session_replica_ielt.Gateway.Orchestrator.Lapsed.{resumed_prep_stuck}
use session_replica_ielt.Gateway.Timers
use session_replica_ielt.Gateway.Orchestrator.State.{State}
use session_replica_ielt.Examples.{
  empty_redis, fresh, fresh-Coherent, state_at, state_at-Coherent, state_at-phase, legal_at, row_at,
}

Reach-Coherent_example : Coherent (start default_settings (new_connection fresh)).1
Reach-Coherent_example =
    Reach-Coherent default_settings (next here (reconnect fresh)) fresh-Coherent

cue_card_acked :
    Fsm.transition Fsm.part2_cuecard_present Fsm.cue_card_acked ≡ reached Fsm.part2_prep
unfolding Fsm.transition Fsm.transitions
cue_card_acked = refl

not_in_prep :
    (w : State)
    → w.phase ≡ Fsm.part2_cuecard_present
    → w.phase ≡ Fsm.part2_prep
    → w.bridge.input_muted ≡ true
not_in_prep w at there = absurd (ground (arith, sym at ∙ there))

-- The cue card is on the candidate's screen.
abbrev acknowledged : State
acknowledged = (on_cue_card_ack default_settings (state_at Fsm.part2_cuecard_present)).1

acknowledging :
    (w : State)
    → w.phase ≡ Fsm.part2_cuecard_present
    → on_cue_card_ack default_settings w
      ≡ advance default_settings Fsm.cue_card_acked "cue_card_acked" true w
unfolding on_cue_card_ack
acknowledging w at = ground (arith, at)

acknowledged-phase : acknowledged.phase ≡ Fsm.part2_prep
acknowledged-phase =
    ap (λ r. r.1.phase)
      (acknowledging (state_at Fsm.part2_cuecard_present)
        (state_at-phase Fsm.part2_cuecard_present))
    ∙ advance_settles default_settings Fsm.cue_card_acked "cue_card_acked"
        (state_at Fsm.part2_cuecard_present) (state_at-Coherent Fsm.part2_cuecard_present)
        (legal_at Fsm.part2_cuecard_present Fsm.cue_card_acked cue_card_acked)

prep_is_silent_example :
    send_audio_frame (1 ∷ 2 ∷ []) acknowledged.bridge ≡ (ok tt, acknowledged.bridge)
prep_is_silent_example =
    prep_is_silent default_settings (state_at-Coherent Fsm.part2_cuecard_present)
      (not_in_prep (state_at Fsm.part2_cuecard_present) (state_at-phase Fsm.part2_cuecard_present))
      (next here (cue_card_ack (state_at Fsm.part2_cuecard_present))) acknowledged-phase
      (1 ∷ 2 ∷ [])

close_delivered : Fsm.transition Fsm.close Fsm.close_delivered ≡ reached Fsm.finalizing
unfolding Fsm.transition Fsm.transitions
close_delivered = refl

advance_settles_example :
    (advance default_settings Fsm.close_delivered "close_delivered" true
      (state_at Fsm.close)).1.phase
    ≡ settled Fsm.finalizing (state_at Fsm.close).pending_flush_turn_ids
advance_settles_example =
    advance_settles default_settings Fsm.close_delivered "close_delivered" (state_at Fsm.close)
      (state_at-Coherent Fsm.close) (legal_at Fsm.close Fsm.close_delivered close_delivered)

resumed_finalizing_stuck_example :
    let v = (start default_settings (new_connection (state_at Fsm.finalizing))).1 in
    v.phase ≡ Fsm.finalizing
    × v.tasks ≡ []
    × v.grading_queue ≡ (state_at Fsm.finalizing).grading_queue
resumed_finalizing_stuck_example =
    resumed_finalizing_stuck default_settings (state_at Fsm.finalizing)
      (state_at-Coherent Fsm.finalizing) (state_at-phase Fsm.finalizing)
      (start default_settings (new_connection (state_at Fsm.finalizing))).1 here

resumed_part1_loses_topics_example :
    let v = (start default_settings (new_connection (state_at Fsm.part1_topic_a))).1 in
    advance default_settings Fsm.topic_a_complete "turn_budget_reached" true v
    ≡ (err key_error, moved_to Fsm.topic_a_complete "turn_budget_reached" Fsm.part1_topic_b v)
resumed_part1_loses_topics_example =
    resumed_part1_loses_topics default_settings "turn_budget_reached" (state_at Fsm.part1_topic_a)
      (state_at-Coherent Fsm.part1_topic_a) (state_at-phase Fsm.part1_topic_a)

inside_part1 : is_part1 (state_at Fsm.part1_topic_b).phase ≡ true
inside_part1 = rw (state_at-phase Fsm.part1_topic_b) refl

part1_expired_reaches_part2_example :
    (part1_expired default_settings (state_at Fsm.part1_topic_b)).1.phase
    ≡ Fsm.part2_cuecard_present
part1_expired_reaches_part2_example =
    part1_expired_reaches_part2 default_settings (state_at Fsm.part1_topic_b)
      (state_at-Coherent Fsm.part1_topic_b) inside_part1

long_turn_expired_late_example :
    let (r, v) = long_turn_expired default_settings (state_at Fsm.part2_roundoff) in
    (r
      ≡ err
          (invalid_transition (record { phase = Fsm.part2_roundoff; event = Fsm.long_turn_ended })))
    × (v.db ≡ (state_at Fsm.part2_roundoff).db)
    × (v.phase ≡ (state_at Fsm.part2_roundoff).phase)
long_turn_expired_late_example =
    long_turn_expired_late default_settings (state_at Fsm.part2_roundoff)
      (state_at-Coherent Fsm.part2_roundoff) (state_at-phase Fsm.part2_roundoff)

finalize_completes_example :
    let w = state_at Fsm.finalizing in
    let (r, v) = advance default_settings Fsm.finalize_complete "media_flush_drained" true w in
    (r ≡ ok tt)
    × (v.phase ≡ Fsm.complete)
    × (find_session w.session_id v.db.sessions
        ≡ some (record (row_at Fsm.finalizing).0 {
          current_phase = some "COMPLETE";
          status = completed;
        }))
    × (v.grading_queue
        ≡ (if w.broker_up then w.grading_queue ++ w.session_id ∷ [] else w.grading_queue))
finalize_completes_example =
    finalize_completes default_settings "media_flush_drained" (state_at Fsm.finalizing)
      (row_at Fsm.finalizing).0 (state_at-Coherent Fsm.finalizing) (state_at-phase Fsm.finalizing)
      (row_at Fsm.finalizing).1

-- A minute of preparation that ended half a minute ago.
abbrev lapsed : State
lapsed = record (state_at Fsm.part2_prep) {
  now = 91000;
  redis =
      (Timers.set_deadline 1000 (state_at Fsm.part2_prep).session_id Timers.part2_prep 60000
        empty_redis).1;
}

resumed_prep_stuck_example :
    (start default_settings (new_connection lapsed)).1.phase ≡ Fsm.part2_prep
resumed_prep_stuck_example =
    resumed_prep_stuck default_settings lapsed 1000 60000 empty_redis
      (record {
        ordered = (state_at-Coherent Fsm.part2_prep).ordered;
        cached = (state_at-Coherent Fsm.part2_prep).cached;
      })
      (state_at-phase Fsm.part2_prep) refl (omega arith)
      (start default_settings (new_connection lapsed)).1 here
