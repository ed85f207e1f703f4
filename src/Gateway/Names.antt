-- ===== src/Gateway/Names.antt =====
-- The texts under which phases and events are stored (`ExamPhase(str, Enum)`, `ExamEvent(str,
-- Enum)` in packages/exam-fsm/exam_fsm), and `ExamEvent(text)`.
use session_replica_ielt.Prelude.{
  String, ◌≡◌, refl, Option, none, some, List, [], ◌∷◌, str_eq, if◌then◌else◌,
}
use session_replica_ielt.Fsm.{
  ExamPhase, init_device_check, id_verification, intro, part1_topic_a, part1_topic_b, part1_topic_c,
  part2_cuecard_present, part2_prep, part2_long_turn, part2_roundoff, part3_discussion, close,
  finalizing, complete, ExamEvent, device_check_confirmed, id_verified, intro_complete,
  topic_a_complete, topic_b_complete, topic_c_complete, cue_card_acked, prep_timer_expired,
  long_turn_ended, roundoff_complete, discussion_complete, close_delivered, finalize_complete,
}

-- `phase.value`
unfoldable pub phase_value : ExamPhase → String
phase_value init_device_check = "INIT_DEVICE_CHECK"
phase_value id_verification = "ID_VERIFICATION"
phase_value intro = "INTRO"
phase_value part1_topic_a = "PART1_TOPIC_A"
phase_value part1_topic_b = "PART1_TOPIC_B"
phase_value part1_topic_c = "PART1_TOPIC_C"
phase_value part2_cuecard_present = "PART2_CUECARD_PRESENT"
phase_value part2_prep = "PART2_PREP"
phase_value part2_long_turn = "PART2_LONG_TURN"
phase_value part2_roundoff = "PART2_ROUNDOFF"
phase_value part3_discussion = "PART3_DISCUSSION"
phase_value close = "CLOSE"
phase_value finalizing = "FINALIZING"
phase_value complete = "COMPLETE"

-- `event.value`
unfoldable pub event_value : ExamEvent → String
event_value device_check_confirmed = "DEVICE_CHECK_CONFIRMED"
event_value id_verified = "ID_VERIFIED"
event_value intro_complete = "INTRO_COMPLETE"
event_value topic_a_complete = "TOPIC_A_COMPLETE"
event_value topic_b_complete = "TOPIC_B_COMPLETE"
event_value topic_c_complete = "TOPIC_C_COMPLETE"
event_value cue_card_acked = "CUE_CARD_ACKED"
event_value prep_timer_expired = "PREP_TIMER_EXPIRED"
event_value long_turn_ended = "LONG_TURN_ENDED"
event_value roundoff_complete = "ROUNDOFF_COMPLETE"
event_value discussion_complete = "DISCUSSION_COMPLETE"
event_value close_delivered = "CLOSE_DELIVERED"
event_value finalize_complete = "FINALIZE_COMPLETE"

-- The members of `ExamEvent`, in the order of the class.
abbrev all_events : List ExamEvent
all_events =
    device_check_confirmed ∷ id_verified ∷ intro_complete ∷ topic_a_complete ∷ topic_b_complete
    ∷ topic_c_complete ∷ cue_card_acked ∷ prep_timer_expired ∷ long_turn_ended ∷ roundoff_complete
    ∷ discussion_complete ∷ close_delivered ∷ finalize_complete ∷ []

-- The member that has the given value.
member_of : List ExamEvent → String → Option ExamEvent
member_of [] text = none
member_of (e ∷ es) text = if str_eq (event_value e) text then some e else member_of es text

-- `ExamEvent(text)`; `none` is its ValueError.
pub parse_event : String → Option ExamEvent
unfolding member_of event_value
parse_event text = member_of all_events text

pub parse_event-event_value : (e : ExamEvent) → parse_event (event_value e) ≡ some e
unfolding parse_event
parse_event-event_value device_check_confirmed = refl
parse_event-event_value _ = refl
