-- ===== src/Examples/Turns.antt =====
-- The turns of a session, the dispatcher and the relay, tried on concrete sessions.
use session_replica_ielt.Prelude.{◌≡◌, ◌≢◌, refl, some, none, [], ◌∷◌, arith}
use mathlib.Core.List.{Memᴰ}
use session_replica_ielt.Fsm
use session_replica_ielt.Fsm.{ExamPhase, ExamEvent, reached}
use session_replica_ielt.Gateway.Exceptions.{ok, err, key_error}
use session_replica_ielt.Gateway.Settings.{default_settings}
use session_replica_ielt.Gateway.Timers
use session_replica_ielt.Gateway.Bridge.{
  send, send_audio_frame, send_activity_start, send_activity_end,
}
use session_replica_ielt.Gateway.Orchestrator.State.{State, Task, part1, begun}
use session_replica_ielt.Gateway.Orchestrator.Steps.{task}
use session_replica_ielt.Gateway.Orchestrator.Triggers.{
  on_activity_end, candidate_turn_budget_for_phase, on_counted_turn, after_counted_turn,
  on_turn_flush_started,
}
use session_replica_ielt.Gateway.Orchestrator.Watchdogs.{
  on_bridge, run_task, piece, settle, read_deadline,
}
use session_replica_ielt.Gateway.Orchestrator.Coherence.{Coherent}
use session_replica_ielt.Gateway.Orchestrator.Moves.{settled}
use session_replica_ielt.Gateway.Orchestrator.Turns.{
  part1_floor, budget_reached, below_budget_silent,
}
use session_replica_ielt.Gateway.Relay.{
  Relay, activity_start, activity_end, audio_frame, transcript_text, start_activity, end_activity,
  on_client_message, on_gemini_event, take_frame,
}
use session_replica_ielt.Gateway.Relay.Recording.{
  During, started, frame, gemini, driver, turn_recorded,
}
use session_replica_ielt.Gateway.Relay.Lost.{resumed_turn_lost}
use session_replica_ielt.Examples.{legal_at, fresh, state_at, state_at-Coherent, state_at-phase}

-- Topic C, two minutes after the start of Part 1.
abbrev early : State
early = record fresh {
  phase = Fsm.part1_topic_c;
  part1_start_ts = some 1000;
  now = 121000;
  turns_in_phase = 8;
}

part1_floor_example :
    (on_activity_end default_settings early).1.phase ≡ Fsm.part1_topic_c
    × (on_activity_end default_settings early).1.db ≡ early.db
part1_floor_example = part1_floor default_settings early 1000 refl refl (omega arith)

-- Three turns of topic A are taken.
abbrev three_turns : State
three_turns = record (state_at Fsm.part1_topic_a) { turns_in_phase = 3; turns_since_reanchor = 3 }

three_turns-Coherent : Coherent three_turns
three_turns-Coherent = record {
  ordered = (state_at-Coherent Fsm.part1_topic_a).ordered;
  cached = (state_at-Coherent Fsm.part1_topic_a).cached;
}

topic_a_budget :
    candidate_turn_budget_for_phase default_settings (state_at Fsm.part1_topic_a).phase
    ≡ some (Fsm.topic_a_complete, 4)
unfolding candidate_turn_budget_for_phase
topic_a_budget = rw (state_at-phase Fsm.part1_topic_a) refl

topic_a_completed :
    Fsm.transition Fsm.part1_topic_a Fsm.topic_a_complete ≡ reached Fsm.part1_topic_b
unfolding Fsm.transition Fsm.transitions
topic_a_completed = refl

not_topic_c : three_turns.phase ≢ Fsm.part1_topic_c
not_topic_c same = ground (arith, state_at-phase Fsm.part1_topic_a, same)

budget_reached_example :
    (on_activity_end default_settings three_turns).1.phase
    ≡ settled Fsm.part1_topic_b three_turns.pending_flush_turn_ids
budget_reached_example =
    budget_reached default_settings three_turns three_turns-Coherent Fsm.topic_a_complete 4
      topic_a_budget not_topic_c (omega arith)
      (legal_at Fsm.part1_topic_a Fsm.topic_a_complete topic_a_completed)

abbrev one_turn : State
one_turn = record (state_at Fsm.part1_topic_a) { turns_in_phase = 1; turns_since_reanchor = 1 }

below_budget_silent_example :
    (on_activity_end default_settings one_turn).1.directive_queue ≡ one_turn.directive_queue
    × (on_activity_end default_settings one_turn).1.phase ≡ one_turn.phase
below_budget_silent_example =
    below_budget_silent default_settings one_turn Fsm.topic_a_complete 4 topic_a_budget
      (omega arith) (omega arith) (omega arith)

-- Topic B, before a turn; the watchdog of Part 1 has not begun.
abbrev watchdog : Task
watchdog = record { id = 9; watchdog = part1; stage = begun }

abbrev listening : Relay
listening = record {
  turn_id = none;
  buffer = [];
  fresh = 5;
  flushes = [];
  segments = [];
  orchestrator = record fresh { phase = Fsm.part1_topic_b; tasks = watchdog ∷ [] };
}

abbrev half_spoken : Relay
half_spoken =
    (on_client_message default_settings (audio_frame (1 ∷ 2 ∷ []))
      (on_client_message default_settings activity_start listening).1).1

-- Between the two frames the watchdog runs, and a transcript comes from Gemini.
abbrev watched : Relay
watched = record half_spoken {
  orchestrator = (run_task default_settings watchdog half_spoken.orchestrator).1;
}

abbrev transcribed : Relay
transcribed = record watched {
  orchestrator = (on_gemini_event default_settings (transcript_text "yes") watched.orchestrator).1;
}

abbrev spoken : Relay
spoken = (on_client_message default_settings (audio_frame (3 ∷ [])) transcribed).1

waits : Memᴰ watchdog half_spoken.orchestrator.tasks
unfolding on_client_message start_activity take_frame on_bridge send_activity_start send_audio_frame
    send
waits = Memᴰ.head refl

spoken-During : During default_settings listening (1 ∷ 2 ∷ 3 ∷ []) spoken
spoken-During =
    frame
      (gemini (driver (frame started (1 ∷ 2 ∷ [])) (task watchdog half_spoken.orchestrator waits))
        (transcript_text "yes"))
      (3 ∷ [])

ended_well :
    end_activity default_settings 5 spoken.orchestrator
    ≡ (ok Fsm.part1_topic_b, (end_activity default_settings 5 spoken.orchestrator).1)
unfolding end_activity on_client_message start_activity take_frame on_bridge send_activity_start
    send_audio_frame send_activity_end send on_turn_flush_started on_activity_end on_counted_turn
    candidate_turn_budget_for_phase after_counted_turn run_task settle piece read_deadline
    on_gemini_event Timers.get_deadline
ended_well = refl

turn_recorded_example :
    let r = (on_client_message default_settings activity_end spoken).1 in
    (r.flushes
      ≡ record { turn_id = 5; pcm_bytes = 1 ∷ 2 ∷ 3 ∷ []; exam_phase = spoken.orchestrator.phase }
        ∷ [])
    × (r.turn_id ≡ none)
turn_recorded_example = turn_recorded default_settings listening spoken-During ended_well

-- The fourth turn of topic A on a resumed session, without topic sets.
abbrev resumed_turn : Relay
resumed_turn = record listening {
  turn_id = some 5;
  orchestrator = record three_turns { topic_sets = []; bridge = fresh.bridge };
}

resumed_turn_lost_example :
    ((on_client_message default_settings activity_end resumed_turn).0 ≡ err key_error)
    × ((on_client_message default_settings activity_end resumed_turn).1.flushes ≡ [])
resumed_turn_lost_example =
    resumed_turn_lost default_settings 5 resumed_turn refl refl
      (record { ordered = three_turns-Coherent.ordered; cached = three_turns-Coherent.cached })
      (state_at-phase Fsm.part1_topic_a) refl (omega arith)
