-- ===== src/Gateway/Orchestrator/Moves.antt =====
-- Where `_advance` of exam_orchestrator.py leaves the driver.
use session_replica_ielt.Prelude.{
  ℕ, String, ◌≡◌, refl, ◌∙◌, Bool, true, false, none, List, [], arith,
}
use session_replica_ielt.Prelude.Dict.{lookup}
use session_replica_ielt.Fsm
use session_replica_ielt.Fsm.{ExamPhase, ExamEvent, reached, invalid}
use session_replica_ielt.Gateway.Exceptions.{ok, err, invalid_transition, key_error}
use session_replica_ielt.Gateway.Settings.{Settings}
use session_replica_ielt.Gateway.Orchestrator.State.{State, ◌>>◌}
use session_replica_ielt.Gateway.Orchestrator.Advance.{
  advance, advance_within, after_transition, on_enter_phase, enter_finalizing, enter_topic,
  start_finalizing_watchdog, open_part1,
}
use session_replica_ielt.Gateway.Orchestrator.Coherence.{
  Coherent, moved_to, moved_to-Coherent, commit_legal, commit_illegal, enter_intro-SameLog,
  enter_topic-SameLog, open_part1-SameLog, enter_cuecard_present-SameLog, enter_prep-SameLog,
  enter_long_turn-SameLog, enter_roundoff-SameLog, enter_discussion-SameLog, enter_complete-SameLog,
}

-- The phase in which the driver is after a move to a phase: COMPLETE follows FINALIZING at once
-- when no recorded turn is being flushed.
abbrev pub settled : ExamPhase → List ℕ → ExamPhase
settled Fsm.finalizing [] = Fsm.complete
settled q pending = q

open_topic_a-phase :
    (cfg : Settings) (w : State) → ((open_part1 cfg >> enter_topic "A") w).1.phase ≡ w.phase
unfolding open_part1
open_topic_a-phase cfg w =
    (enter_topic-SameLog "A" (open_part1 cfg w).1).phase ∙ (open_part1-SameLog cfg w).phase

pub at_finalizing :
    {p : ExamPhase}
    → p ≡ Fsm.finalizing
    → Fsm.transition p Fsm.finalize_complete ≡ reached Fsm.complete
unfolding Fsm.transition Fsm.transitions
at_finalizing e = rw e refl

-- `_advance` from FINALIZING, once more.
finalized-phase :
    (cfg : Settings) (w : State)
    → Coherent w
    → w.phase ≡ Fsm.finalizing
    → (advance_within 1 cfg Fsm.finalize_complete "no_pending_media" true w).1.phase ≡ Fsm.complete
unfolding advance_within after_transition on_enter_phase
finalized-phase cfg w c at =
    let legal : Fsm.transition w.phase Fsm.finalize_complete ≡ reached Fsm.complete =
      at_finalizing at in
    rw (commit_legal w c Fsm.finalize_complete "no_pending_media" legal)
      (enter_complete-SameLog
        (moved_to Fsm.finalize_complete "no_pending_media" Fsm.complete w)).phase

enter_finalizing-phase :
    (cfg : Settings) (w : State)
    → Coherent w
    → w.phase ≡ Fsm.finalizing
    → (enter_finalizing
        (advance_within 1 cfg Fsm.finalize_complete "no_pending_media" true)
        w).1.phase
      ≡ settled Fsm.finalizing w.pending_flush_turn_ids
unfolding enter_finalizing start_finalizing_watchdog
enter_finalizing-phase cfg w c at = ground (arith, finalized-phase cfg w c at)

on_enter_phase-phase :
    (cfg : Settings) (q : ExamPhase) (w : State)
    → Coherent w
    → w.phase ≡ q
    → (on_enter_phase cfg
        (advance_within 1 cfg Fsm.finalize_complete "no_pending_media" true)
        q
        w).1.phase
      ≡ settled q w.pending_flush_turn_ids
unfolding on_enter_phase
on_enter_phase-phase cfg Fsm.intro w c at = (enter_intro-SameLog cfg w).phase ∙ at
on_enter_phase-phase cfg Fsm.part1_topic_a w c at = open_topic_a-phase cfg w ∙ at
on_enter_phase-phase cfg Fsm.part1_topic_b w c at = (enter_topic-SameLog "B" w).phase ∙ at
on_enter_phase-phase cfg Fsm.part1_topic_c w c at = (enter_topic-SameLog "C" w).phase ∙ at
on_enter_phase-phase cfg Fsm.part2_cuecard_present w c at =
    (enter_cuecard_present-SameLog w).phase ∙ at
on_enter_phase-phase cfg Fsm.part2_prep w c at = (enter_prep-SameLog cfg w).phase ∙ at
on_enter_phase-phase cfg Fsm.part2_long_turn w c at = (enter_long_turn-SameLog cfg w).phase ∙ at
on_enter_phase-phase cfg Fsm.part2_roundoff w c at = (enter_roundoff-SameLog w).phase ∙ at
on_enter_phase-phase cfg Fsm.part3_discussion w c at = (enter_discussion-SameLog cfg w).phase ∙ at
on_enter_phase-phase cfg Fsm.finalizing w c at = enter_finalizing-phase cfg w c at
on_enter_phase-phase cfg Fsm.complete w c at = (enter_complete-SameLog w).phase ∙ at
on_enter_phase-phase cfg Fsm.close w c at = at
on_enter_phase-phase cfg Fsm.init_device_check w c at = at
on_enter_phase-phase cfg Fsm.id_verification w c at = at

-- In a coherent state `_advance` with a legal event leaves the driver in the phase that the table
-- gives, and from FINALIZING in COMPLETE if no turn is being flushed. This holds also when the work
-- of the new phase raises.
pub advance_settles :
    (cfg : Settings) (event : ExamEvent) (reason : String) (w : State)
    → Coherent w
    → {q : ExamPhase} → Fsm.transition w.phase event ≡ reached q
    → (advance cfg event reason true w).1.phase ≡ settled q w.pending_flush_turn_ids
unfolding advance advance_within after_transition
advance_settles cfg event reason w c {q} legal = rw (commit_legal w c event reason legal) (
    on_enter_phase-phase cfg q (moved_to event reason q w)
      (moved_to-Coherent w c event reason legal) refl)

-- In a coherent state `_advance` with an event that the phase does not have raises the error of the
-- table and changes nothing.
pub advance_illegal :
    (cfg : Settings) (event : ExamEvent) (reason : String) (announce : Bool) (w : State)
    → Coherent w
    → {x : Fsm.InvalidTransitionError} → Fsm.transition w.phase event ≡ invalid x
    → advance cfg event reason announce w ≡ (err (invalid_transition x), w)
unfolding advance advance_within after_transition
advance_illegal cfg event reason announce w c illegal =
    rw (commit_illegal w c event reason illegal) refl

-- `_advance` without announcing only commits and sets the fields.
pub advance_silent :
    (cfg : Settings) (event : ExamEvent) (reason : String) (w : State)
    → Coherent w
    → {q : ExamPhase} → Fsm.transition w.phase event ≡ reached q
    → advance cfg event reason false w ≡ (ok tt, moved_to event reason q w)
unfolding advance advance_within after_transition
advance_silent cfg event reason w c legal = rw (commit_legal w c event reason legal) refl

-- Without a topic set for the slot (a resumed session has none), `_advance` commits the move to
-- Part 1's topic B or C, or counts the turn to it, and then raises KeyError.
pub advance_no_topic :
    (cfg : Settings) (event : ExamEvent) (reason : String) (w : State)
    → Coherent w
    → lookup "B" w.topic_sets ≡ none
    → Fsm.transition w.phase event ≡ reached Fsm.part1_topic_b
    → advance cfg event reason true w ≡ (err key_error, moved_to event reason Fsm.part1_topic_b w)
unfolding advance advance_within after_transition on_enter_phase enter_topic
advance_no_topic cfg event reason w c missing legal =
    rw (commit_legal w c event reason legal) (rw missing refl)
