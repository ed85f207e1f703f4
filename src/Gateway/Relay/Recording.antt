-- ===== src/Gateway/Relay/Recording.antt =====
-- What is recorded of a candidate's turn (apps/api-gateway/app/routers/ws_exam.py).
pub mod CutOff
use session_replica_ielt.Prelude.{
  ℕ, suc, ◌≡◌, refl, ap, sym, none, some, Option, List, [], ◌∷◌, ◌++◌, arith, subst, Bool, true,
  false,
}
use session_replica_ielt.Fsm.{ExamPhase}
use session_replica_ielt.Gateway.Exceptions.{Result, ok, err}
use session_replica_ielt.Gateway.Settings.{Settings}
use session_replica_ielt.Gateway.Bridge.{send_audio_frame, send_activity_end, send}
use session_replica_ielt.Gateway.Orchestrator.State.{State, ⊤, put, pong}
use session_replica_ielt.Gateway.Orchestrator.Steps.{Step}
use session_replica_ielt.Gateway.Orchestrator.Triggers.{on_turn_flush_started, on_cue_card_ack}
use session_replica_ielt.Gateway.Orchestrator.Watchdogs.{on_bridge}
use session_replica_ielt.Gateway.Relay.{
  ClientMessage, GeminiEvent, Flush, within, activity_start, activity_end, cue_card_ack, rtt_report,
  other_control, client_ping, audio_frame, Relay, start_activity, end_activity, start_flush,
  finish_turn, take_frame, on_client_message, end_flush, on_gemini_event,
}

-- The control messages that neither begin nor end a turn.
abbrev pub is_aside : ClientMessage → Bool
is_aside cue_card_ack = true
is_aside rtt_report = true
is_aside other_control = true
is_aside (client_ping ts) = true
is_aside _ = false

-- A turn that `activity_start` begins at `p`, with the bytes that it has so far: between its
-- frames come the connection's other messages, Gemini's events, the ends of earlier flushes, and
-- whatever happens to the driver, the pieces of its watchdogs and the passing of time included.
pub data During (cfg : Settings) (p : Relay) : List ℕ → Relay → Type 0 where
  started : During cfg p [] (on_client_message cfg activity_start p).1
  frame :
      {bytes : List ℕ} {q : Relay}
      → During cfg p bytes q
      → (b : List ℕ) → During cfg p (bytes ++ b) (on_client_message cfg (audio_frame b) q).1
  aside :
      {bytes : List ℕ} {q : Relay}
      → During cfg p bytes q
      → (m : ClientMessage) → is_aside m ≡ true
      → During cfg p bytes (on_client_message cfg m q).1
  gemini :
      {bytes : List ℕ} {q : Relay}
      → During cfg p bytes q
      → (e : GeminiEvent)
      → During cfg p bytes (record q { orchestrator = (on_gemini_event cfg e q.orchestrator).1 })
  flushed :
      {bytes : List ℕ} {q : Relay}
      → During cfg p bytes q
      → (byte_size : Option ℕ) (f : Flush) → During cfg p bytes (end_flush byte_size f q)
  driver :
      {bytes : List ℕ} {q : Relay} {w : State}
      → During cfg p bytes q
      → Step cfg q.orchestrator w
      → During cfg p bytes (record q { orchestrator = w })

-- What a turn's messages leave of the handler's variables.
record Open (t : ℕ) (bytes : List ℕ) (fs : List Flush) (q : Relay) : Type 0 where
  active : q.turn_id ≡ some t
  buffer : q.buffer ≡ bytes
  flushes : q.flushes ≡ fs

module _ {t : ℕ} {fs : List Flush} where
  within-Open :
      {bytes : List ℕ} {q : Relay} (r : Result ⊤ × State)
      → Open t bytes fs q
      → Open t bytes fs (within q r).1
  within-Open (ok a, w) o = record { active = o.active; buffer = o.buffer; flushes = o.flushes }
  within-Open (err e, w) o = record { active = o.active; buffer = o.buffer; flushes = o.flushes }

  -- Also the frames that come while Gemini's input is muted.
  frame-Open :
      {bytes : List ℕ} (cfg : Settings) (b : List ℕ) (q : Relay)
      → Open t bytes fs q
      → Open t (bytes ++ b) fs (on_client_message cfg (audio_frame b) q).1
  unfolding on_client_message take_frame
  frame-Open {bytes = bytes} cfg b q o =
      subst (λ i. Open t (bytes ++ b) fs (take_frame b i q).1) (sym o.active)
        (within-Open {q = record q { buffer = q.buffer ++ b }}
          (on_bridge (send_audio_frame b) q.orchestrator)
          (record { active = o.active; buffer = ap (λ l. l ++ b) o.buffer; flushes = o.flushes }))

  aside-Open :
      {bytes : List ℕ} (cfg : Settings) (m : ClientMessage) (q : Relay)
      → is_aside m ≡ true
      → Open t bytes fs q
      → Open t bytes fs (on_client_message cfg m q).1
  unfolding on_client_message
  aside-Open cfg activity_start q h o = absurd (cc)
  aside-Open cfg activity_end q h o = absurd (cc)
  aside-Open cfg (audio_frame b) q h o = absurd (cc)
  aside-Open cfg cue_card_ack q h o = within-Open (on_cue_card_ack cfg q.orchestrator) o
  aside-Open cfg (client_ping ts) q h o = within-Open (put (pong ts) q.orchestrator) o
  aside-Open cfg rtt_report q h o = o
  aside-Open cfg other_control q h o = o

  flushed-Open :
      {bytes : List ℕ} (byte_size : Option ℕ) (f : Flush) (q : Relay)
      → Open t bytes fs q
      → Open t bytes fs (end_flush byte_size f q)
  unfolding end_flush
  flushed-Open none f q o = record { active = o.active; buffer = o.buffer; flushes = o.flushes }
  flushed-Open (some n) f q o = record { active = o.active; buffer = o.buffer; flushes = o.flushes }

During-Open :
    (cfg : Settings) (p : Relay) {bytes : List ℕ} {q : Relay}
    → During cfg p bytes q
    → Open p.fresh bytes p.flushes q
unfolding on_client_message
During-Open cfg p started =
    within-Open {q = record p { turn_id = some p.fresh; buffer = []; fresh = suc p.fresh }}
      (start_activity p.fresh p.orchestrator)
      (record { active = refl; buffer = refl; flushes = refl })
During-Open cfg p (frame d b) = frame-Open cfg b _ (During-Open cfg p d)
During-Open cfg p (aside d m h) = aside-Open cfg m _ h (During-Open cfg p d)
During-Open cfg p (gemini d e) =
    let o = During-Open cfg p d in
    record { active = o.active; buffer = o.buffer; flushes = o.flushes }
During-Open cfg p (flushed d n f) = flushed-Open n f _ (During-Open cfg p d)
During-Open cfg p (driver d s) =
    let o = During-Open cfg p d in
    record { active = o.active; buffer = o.buffer; flushes = o.flushes }

-- The phase that `activity_end` records is the driver's at the turn's end.
phase-end_activity :
    (cfg : Settings) (t : ℕ) (w : State) {p : ExamPhase} {w' : State}
    → end_activity cfg t w ≡ (ok p, w')
    → p ≡ w.phase
unfolding end_activity on_bridge send_activity_end send on_turn_flush_started
phase-end_activity cfg t w h = ground (arith, h)

-- Whatever comes between its frames (messages that neither start nor end a turn, Gemini's events,
-- watchdogs, timeouts), a turn, if its end raises no error, is flushed once, with all its frames in
-- order and with the phase in which the driver is as the turn ends, before `on_activity_end` may
-- leave it; no turn is then open.
pub turn_recorded :
    (cfg : Settings) (p : Relay) {bytes : List ℕ} {q : Relay} {phase : ExamPhase} {w : State}
    → During cfg p bytes q
    → end_activity cfg p.fresh q.orchestrator ≡ (ok phase, w)
    → let r = (on_client_message cfg activity_end q).1 in
      (r.flushes
        ≡ p.flushes
          ++ record { turn_id = p.fresh; pcm_bytes = bytes; exam_phase = q.orchestrator.phase }
            ∷ [])
      × (r.turn_id ≡ none)
unfolding on_client_message finish_turn start_flush
turn_recorded cfg p {q = q} during ended =
    let o = During-Open cfg p during in
    rw (o.active, finish_turn, ended)
      (rw (o.flushes, o.buffer, phase-end_activity cfg p.fresh q.orchestrator ended) refl, refl)
