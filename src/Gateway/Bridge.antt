-- ===== src/Gateway/Bridge.antt =====
-- apps/api-gateway/app/services/gemini_bridge.py: what the bridge sends to the Live API, and when.
-- The wire format (JSON, base64) is left out: a message is its meaning.
use session_replica_ielt.Prelude.{ℕ, String, Bool, true, false, List, [], ◌∷◌, ◌++◌, if◌then◌else◌}
use session_replica_ielt.Gateway.Exceptions.{Result, ok, err, bridge_error}

-- The text of a directive template with its arguments.
pub data Directive : Type 0 where
  intro : (candidate_name : String) → Directive
  part1_topic : (title : String) → (questions : List String) → Directive
  part2_cuecard_present : (topic : String) → (bullets : List String) → Directive
  part3_discussion : (themes : List String) → Directive
  part1_extend part1_wrap_up part2_warn part2_hard_stop : Directive
  part2_roundoff part3_wrap_up close reanchor : Directive

pub data WireMessage : Type 0 where
  activity_start activity_end : WireMessage
  audio : (pcm_bytes : List ℕ) → WireMessage
  client_content : Directive → WireMessage

-- `_ws is not None`, `_input_muted`, and what was sent so far.
pub record Bridge : Type 0 where
  pub connected : Bool
  pub input_muted : Bool
  pub sent : List WireMessage

-- `_send`
unfoldable pub send : WireMessage → Bridge → Result (Unit {0}) × Bridge
send m b =
    if b.connected then (ok tt, record b { sent = b.sent ++ m ∷ [] }) else (err bridge_error, b)

unfoldable pub send_activity_start : Bridge → Result (Unit {0}) × Bridge
unfolding send
send_activity_start b = send activity_start b

unfoldable pub send_activity_end : Bridge → Result (Unit {0}) × Bridge
unfolding send
send_activity_end b = send activity_end b

unfoldable pub send_audio_frame : List ℕ → Bridge → Result (Unit {0}) × Bridge
unfolding send
send_audio_frame pcm_bytes b = if b.input_muted then (ok tt, b) else send (audio pcm_bytes) b

unfoldable pub inject_directive : Directive → Bridge → Result (Unit {0}) × Bridge
unfolding send
inject_directive d b = send (client_content d) b

unfoldable pub force_mute_input : Bridge → Bridge
force_mute_input b = record b { input_muted = true }

unfoldable pub unmute_input : Bridge → Bridge
unmute_input b = record b { input_muted = false }

unfoldable pub close_bridge : Bridge → Bridge
close_bridge b = record b { connected = false }
