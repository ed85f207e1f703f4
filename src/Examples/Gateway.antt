-- ===== src/Examples/Gateway.antt =====
-- The state machine, the event log, the timers and the content, tried on concrete inputs.
use session_replica_ielt.Prelude.{ℕ, ◌≡◌, refl, true, false, some, [], ◌∷◌, ◌++◌, take, arith}
use session_replica_ielt.Prelude.Dict.{insert, Dict}
use session_replica_ielt.Fsm
use session_replica_ielt.Fsm.{ExamPhase, ExamEvent, reached, invalid}
use session_replica_ielt.Fsm.Path.{exam_path, fold-take_iff}
use session_replica_ielt.Gateway.Exceptions.{ok, err, integrity_error, invalid_transition}
use session_replica_ielt.Gateway.Tables.{TopicSet}
use session_replica_ielt.Gateway.Engine
use session_replica_ielt.Gateway.Engine.{
  phase_events, transition, get_current_phase, load_phase_events, transition_after_read,
}
use session_replica_ielt.Gateway.Engine.Log.{log, IsOrdered}
use session_replica_ielt.Gateway.Engine.Transitions.{
  transition_moves, phase_events_path, transition_stale,
}
use session_replica_ielt.Gateway.Timers.{Poll, wait_from, is_part2_prep}
use session_replica_ielt.Gateway.Timers.Expiry.{wait_from-Ends}
use session_replica_ielt.Gateway.Bridge.{client_content, part2_warn, part2_hard_stop}
use session_replica_ielt.Gateway.LongTurn.{cutoff_from}
use session_replica_ielt.Gateway.LongTurn.Cutoff.{cutoff_from-reached}
use session_replica_ielt.Gateway.Content
use session_replica_ielt.Gateway.Content.{assign_topic_sets}
use session_replica_ielt.Gateway.Content.Choices.{Fits, assign_topic_sets-Fits}
use session_replica_ielt.Gateway.Orchestrator.Coherence.{no_extra}
use session_replica_ielt.Examples.{topic, anna, topics, fresh_db, fresh-Coherent, open_bridge}

fold-take_iff_example : Fsm.fold (take 3 exam_path) ≡ reached Fsm.part1_topic_a
fold-take_iff_example = (fold-take_iff (take 3 exam_path) Fsm.part1_topic_a).1 refl

confirmed :
    Fsm.transition Fsm.init_device_check Fsm.device_check_confirmed ≡ reached Fsm.id_verification
unfolding Fsm.transition Fsm.transitions
confirmed = refl

transition_moves_example :
    let (r, db') = transition fresh_db 1 Fsm.device_check_confirmed "ok" [] in
    (r ≡ ok Fsm.id_verification)
    × (get_current_phase db' 1 ≡ ok Fsm.id_verification)
    × IsOrdered db' 1
transition_moves_example =
    transition_moves fresh_db 1 fresh-Coherent.ordered fresh-Coherent.cached
      Fsm.device_check_confirmed "ok" [] confirmed no_extra

phase_events_path_example : phase_events (log fresh_db 1) ≡ ok []
phase_events_path_example =
    phase_events_path fresh_db 1 fresh-Coherent.ordered fresh-Coherent.cached

transition_stale_example :
    let db' = (transition fresh_db 1 Fsm.device_check_confirmed "ok" []).1 in
    transition_after_read (load_phase_events fresh_db 1) db' 1 Fsm.device_check_confirmed "again" []
    ≡ (err integrity_error, db')
transition_stale_example =
    transition_stale fresh_db 1 fresh-Coherent.ordered fresh-Coherent.cached
      Fsm.device_check_confirmed "ok" [] confirmed no_extra Fsm.device_check_confirmed "again" []
      confirmed

refused :
    (transition fresh_db 1 Fsm.close_delivered "early" []).0
    ≡ err
        (invalid_transition (record { phase = Fsm.init_device_check; event = Fsm.close_delivered }))
unfolding transition Engine.transition_after_read Engine.commit_planned Engine.planned
    Engine.fold_phase Engine.phase_events Engine.load_phase_events Engine.order_by_seq Fsm.fold
    Fsm.fold_from Fsm.transition Fsm.transitions
refused = refl

abbrev poll_at : ℕ → ExamPhase → Poll
poll_at now phase = record { now = now; phase = phase }

wait_from-Ends_example :
    wait_from 100 is_part2_prep (poll_at 50 Fsm.part2_prep ∷ [] ++ poll_at 100 Fsm.part2_prep ∷ [])
    ≡ some true
wait_from-Ends_example =
    wait_from-Ends 100 is_part2_prep (poll_at 50 Fsm.part2_prep ∷ []) (poll_at 100 Fsm.part2_prep)
      [] true ((omega arith, refl), tt) (omega arith)

cutoff_from-reached_example :
    cutoff_from 100 115 120 false
      (poll_at 50 Fsm.part2_long_turn ∷ [] ++ poll_at 100 Fsm.part2_long_turn ∷ [])
      open_bridge
    ≡ some (
      ok true,
      record open_bridge {
        input_muted = true;
        sent = client_content part2_warn ∷ client_content part2_hard_stop ∷ [];
      },
    )
cutoff_from-reached_example =
    cutoff_from-reached 100 115 120 false (poll_at 50 Fsm.part2_long_turn ∷ [])
      (poll_at 100 Fsm.part2_long_turn) [] open_bridge refl ((omega arith, refl), tt) (omega arith)
      refl

abbrev assigned : Dict TopicSet
assigned = ("A", topic 12 "A") ∷ ("B", topic 13 "B") ∷ ("C", topic 14 "C") ∷ []

assigned_to_anna :
    assign_topic_sets (λ i. 0) 0 anna topics
    ≡ ok (assigned, record anna { previous_topic_sets = 11 ∷ 12 ∷ 13 ∷ 14 ∷ [] })
unfolding assign_topic_sets Content.assign_from Content.choose_topic_set Content.choice insert
assigned_to_anna = refl

assign_topic_sets-Fits_example :
    (a : TopicSet) × (b : TopicSet) × (e : TopicSet) × (assigned
      ≡ ("A", a) ∷ ("B", b) ∷ ("C", e) ∷ [])
    × Fits (11 ∷ []) topics "A" a
    × Fits (11 ∷ []) topics "B" b
    × Fits (11 ∷ []) topics "C" e
    × (record anna { previous_topic_sets = 11 ∷ 12 ∷ 13 ∷ 14 ∷ [] }
        ≡ record anna { previous_topic_sets = 11 ∷ [] ++ a.id ∷ b.id ∷ e.id ∷ [] })
assign_topic_sets-Fits_example = assign_topic_sets-Fits (λ i. 0) 0 anna topics assigned_to_anna
