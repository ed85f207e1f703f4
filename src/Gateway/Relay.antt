-- ===== src/Gateway/Relay.antt =====
-- apps/api-gateway/app/routers/ws_exam.py: the relay between the browser and Gemini.
-- The writer task, the shutdown and the latency measurements are left out.
pub mod Recording
pub mod Lost
pub mod Connection
use session_replica_ielt.Prelude.{
  ℕ, suc, ◌+◌, String, Bool, true, false, not, ◌&&◌, Option, none, some, List, [], ◌∷◌, ◌++◌, ◌==◌,
  any, if◌then◌else◌, length,
}
use session_replica_ielt.Fsm.{ExamPhase}
use session_replica_ielt.Gateway.Exceptions.{Result, ok, err}
use session_replica_ielt.Gateway.Settings.{Settings}
use session_replica_ielt.Gateway.Bridge.{
  Bridge, send_activity_start, send_activity_end, send_audio_frame,
}
use session_replica_ielt.Gateway.Orchestrator.State.{
  State, Action, ⊤, pure, gets, modify, ◌>>=◌, ◌>>◌, put, gemini_turn_complete, activity_start_ack,
  turn_complete, pong, pcm, transcript_delta, interrupted, server_going_away,
}
use session_replica_ielt.Gateway.Tables.{update_session}
use session_replica_ielt.Gateway.Orchestrator.Triggers.{
  on_activity_end, on_cue_card_ack, on_gemini_turn_complete, on_turn_flush_started,
  on_turn_flush_complete,
}
use session_replica_ielt.Gateway.Orchestrator.Watchdogs.{on_bridge}

-- A control message or a frame of the browser.
pub data ClientMessage : Type 0 where
  activity_start activity_end cue_card_ack rtt_report other_control : ClientMessage
  client_ping : (client_ts : ℕ) → ClientMessage
  audio_frame : List ℕ → ClientMessage

-- An event of `bridge.receive_events()`.
pub data GeminiEvent : Type 0 where
  audio_delta : List ℕ → GeminiEvent
  transcript_text : String → GeminiEvent
  turn_completed turn_interrupted : GeminiEvent
  resumption_update : (resumable : Bool) → (handle : String) → GeminiEvent
  go_away : (time_left_ms : ℕ) → GeminiEvent

-- A `_flush_turn_in_background` task that has not ended.
pub record Flush : Type 0 where
  pub turn_id : ℕ
  pub pcm_bytes : List ℕ
  pub exam_phase : ExamPhase

-- A row of `audio_segments`, unique by its session, turn and seq; the seq is always 1.
pub record AudioSegment : Type 0 where
  pub session_id : ℕ
  pub turn_id : ℕ
  pub pcm_bytes : List ℕ
  pub exam_phase : ExamPhase

-- The variables of the connection's handler; `fresh` is the next `uuid4()`.
pub record Relay : Type 0 where
  pub turn_id : Option ℕ
  pub buffer : List ℕ
  pub fresh : ℕ
  pub flushes : List Flush
  pub segments : List AudioSegment
  pub orchestrator : State

-- A call into the driver, whose exception ends the handler.
abbrev pub within : {A : Type 0} → Relay → Result A × State → Result ⊤ × Relay
within p (ok a, w) = (ok tt, record p { orchestrator = w })
within p (err e, w) = (err e, record p { orchestrator = w })

unfoldable pub start_activity : ℕ → Action ⊤
start_activity turn_id = do on_bridge send_activity_start; put (activity_start_ack turn_id)

-- `activity_end` up to the flush's task: the turn's phase is read before the driver may leave it.
unfoldable pub end_activity : Settings → ℕ → Action ExamPhase
end_activity cfg turn_id = do
  on_bridge send_activity_end
  phase ← on_turn_flush_started turn_id
  on_activity_end cfg
  pure phase

-- The rest of `activity_end`: the flush is started with the buffer, and the turn is over.
unfoldable pub start_flush : ℕ → Relay → Result ExamPhase × State → Result ⊤ × Relay
start_flush turn_id p (ok phase, w) = (
  ok tt,
  record p {
    orchestrator = w;
    flushes =
        p.flushes ++ record { turn_id = turn_id; pcm_bytes = p.buffer; exam_phase = phase } ∷ [];
    turn_id = none;
    buffer = [];
  },
)
start_flush turn_id p (err e, w) = (err e, record p { orchestrator = w })

unfoldable pub finish_turn : Settings → Option ℕ → Relay → Result ⊤ × Relay
unfolding end_activity start_flush
finish_turn cfg none p = (ok tt, p)
finish_turn cfg (some turn_id) p = start_flush turn_id p (end_activity cfg turn_id p.orchestrator)

-- A frame outside a turn is dropped.
unfoldable pub take_frame : List ℕ → Option ℕ → Relay → Result ⊤ × Relay
take_frame bytes none p = (ok tt, p)
take_frame bytes (some turn_id) p =
    within (record p { buffer = p.buffer ++ bytes })
      (on_bridge (send_audio_frame bytes) p.orchestrator)

-- A round of `pump_client_to_gemini`.
unfoldable pub on_client_message : Settings → ClientMessage → Relay → Result ⊤ × Relay
unfolding start_activity finish_turn take_frame
on_client_message cfg activity_start p =
    within (record p { turn_id = some p.fresh; buffer = []; fresh = suc p.fresh })
      (start_activity p.fresh p.orchestrator)
on_client_message cfg activity_end p = finish_turn cfg p.turn_id p
on_client_message cfg cue_card_ack p = within p (on_cue_card_ack cfg p.orchestrator)
on_client_message cfg (client_ping ts) p = within p (put (pong ts) p.orchestrator)
on_client_message cfg (audio_frame bytes) p = take_frame bytes p.turn_id p
on_client_message cfg rtt_report p = (ok tt, p)
on_client_message cfg other_control p = (ok tt, p)

-- `insert ... on_conflict_do_nothing`
abbrev pub same_segment : ℕ → ℕ → AudioSegment → Bool
same_segment session_id turn_id s = (s.session_id == session_id) && (s.turn_id == turn_id)

unfoldable pub insert_segment : AudioSegment → List AudioSegment → List AudioSegment
insert_segment s segments =
    if any (same_segment s.session_id s.turn_id) segments then segments else segments ++ s ∷ []

-- The end of `_flush_turn_in_background`: stored, with the number of bytes, or failed. Both report
-- to the driver.
unfoldable pub end_flush : Option ℕ → Flush → Relay → Relay
unfolding insert_segment
end_flush (some byte_size) f p = record p {
  segments =
      insert_segment
        (record {
          session_id = p.orchestrator.session_id;
          turn_id = f.turn_id;
          pcm_bytes = f.pcm_bytes;
          exam_phase = f.exam_phase;
        })
        p.segments;
  orchestrator =
      ((put (turn_complete f.turn_id byte_size) >> on_turn_flush_complete f.turn_id)
        p.orchestrator).1;
}
end_flush none f p = record p { orchestrator = (on_turn_flush_complete f.turn_id p.orchestrator).1 }

-- `_persist_resumption_handle`
unfoldable pub persist_resumption_handle : String → Action ⊤
persist_resumption_handle handle = modify (λ w. record w {
  db = record w.db {
    sessions =
        update_session w.session_id (λ s. record s { gemini_resumption_handle = some handle })
          w.db.sessions;
  };
})

-- A round of `pump_gemini_to_client`.
unfoldable pub on_gemini_event : Settings → GeminiEvent → Action ⊤
unfolding persist_resumption_handle
on_gemini_event cfg (audio_delta bytes) = put (pcm bytes)
on_gemini_event cfg (transcript_text text) = put (transcript_delta text)
on_gemini_event cfg turn_completed = put gemini_turn_complete >> on_gemini_turn_complete cfg
on_gemini_event cfg turn_interrupted = put interrupted
on_gemini_event cfg (resumption_update true handle) = persist_resumption_handle handle
on_gemini_event cfg (resumption_update false handle) = pure tt
on_gemini_event cfg (go_away time_left_ms) = put server_going_away
