-- ===== src/Fsm/Defs.antt =====
-- packages/exam-fsm/exam_fsm: the phases of states.py, and the events, table, `transition` and
-- `fold` of transitions.py.
use session_replica_ielt.Prelude.{Option, none, some, List, [], ◌∷◌}

-- `class ExamPhase`, in exam order.
pub data ExamPhase : Type 0 where
  init_device_check id_verification intro part1_topic_a part1_topic_b part1_topic_c : ExamPhase
  part2_cuecard_present part2_prep part2_long_turn part2_roundoff : ExamPhase
  part3_discussion close finalizing complete : ExamPhase

-- `class ExamEvent`.
pub data ExamEvent : Type 0 where
  device_check_confirmed id_verified intro_complete : ExamEvent
  topic_a_complete topic_b_complete topic_c_complete : ExamEvent
  cue_card_acked prep_timer_expired long_turn_ended roundoff_complete : ExamEvent
  discussion_complete close_delivered finalize_complete : ExamEvent

pub ExamPhase-discrete : Discrete ExamPhase
ExamPhase-discrete = hlevel

abbrev pub initial_phase : ExamPhase
initial_phase = init_device_check

-- `TRANSITIONS.get((phase, event))`: the dict as a function of its keys.
unfoldable pub transitions : ExamPhase → ExamEvent → Option ExamPhase
transitions init_device_check device_check_confirmed = some id_verification
transitions id_verification id_verified = some intro
transitions intro intro_complete = some part1_topic_a
transitions part1_topic_a topic_a_complete = some part1_topic_b
transitions part1_topic_b topic_b_complete = some part1_topic_c
transitions part1_topic_c topic_c_complete = some part2_cuecard_present
transitions part2_cuecard_present cue_card_acked = some part2_prep
transitions part2_prep prep_timer_expired = some part2_long_turn
transitions part2_long_turn long_turn_ended = some part2_roundoff
transitions part2_roundoff roundoff_complete = some part3_discussion
transitions part3_discussion discussion_complete = some close
transitions close close_delivered = some finalizing
transitions finalizing finalize_complete = some complete
transitions _ _ = none

-- `InvalidTransitionError(phase, event)`.
pub record InvalidTransitionError : Type 0 where
  pub phase : ExamPhase
  pub event : ExamEvent

pub data Outcome : Type 0 where
  reached : ExamPhase → Outcome
  invalid : InvalidTransitionError → Outcome

-- The `try`/`except KeyError` of `transition`.
abbrev looked_up : ExamPhase → ExamEvent → Option ExamPhase → Outcome
looked_up current event none = invalid (record { phase = current; event = event })
looked_up current event (some next) = reached next

unfoldable pub transition : ExamPhase → ExamEvent → Outcome
unfolding transitions
transition current event = looked_up current event (transitions current event)

-- The loop of `fold`, from the phase reached so far.
unfoldable pub fold_from : ExamPhase → List ExamEvent → Outcome
fold_from phase [] = reached phase
fold_from phase (event ∷ events) = elim (transition phase event) [
  | reached next ↦ fold_from next events
  | invalid e ↦ invalid e
]

unfoldable pub fold : List ExamEvent → Outcome
unfolding fold_from
fold events = fold_from initial_phase events
