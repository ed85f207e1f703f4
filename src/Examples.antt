-- ===== src/Examples.antt =====
-- Concrete sessions, on which the theorems are tried.
pub mod Gateway
pub mod Driver
pub mod Accounts
pub mod Turns
pub mod Grading
pub mod Features
pub mod Calibration
use session_replica_ielt.Prelude.{
  ℕ, String, true, false, refl, none, some, List, [], ◌∷◌, take, ◌≡◌, ap, ◌∙◌, arith,
}
use session_replica_ielt.Fsm
use session_replica_ielt.Gateway.Engine
use session_replica_ielt.Fsm.{ExamPhase, ExamEvent, initial_phase, reached}
use session_replica_ielt.Fsm.Path.{rank, exam_path, fold_from-cons, fold-take_iff}
use session_replica_ielt.Gateway.Tables.{
  ExamSession, active, Candidate, CueCard, TopicSet, Db, find_session,
}
use session_replica_ielt.Gateway.Engine.Transitions.{transition_snapshot}
use session_replica_ielt.Gateway.Settings.{default_settings}
use session_replica_ielt.Gateway.Timers.{Redis}
use session_replica_ielt.Gateway.Bridge.{Bridge}
use session_replica_ielt.Gateway.Orchestrator.State.{State}
use session_replica_ielt.Gateway.Orchestrator.Advance.{advance}
use session_replica_ielt.Gateway.Orchestrator.Coherence.{
  Coherent, advance-Keeps, moved_to, moved_to-Coherent, no_extra,
}
use session_replica_ielt.Gateway.Orchestrator.Moves.{advance_silent}

abbrev pub topic : ℕ → String → TopicSet
topic id slot = record {
  id = id;
  slot = slot;
  title = "Work";
  questions = "Do you work?" ∷ [];
  active = true;
}

abbrev pub card : CueCard
card = record {
  id = 7;
  topic = "A journey";
  bullets = "where" ∷ "when" ∷ [];
  linked_part3_themes = "travel" ∷ [];
  active = true;
}

abbrev pub anna : Candidate
anna = record {
  id = 3;
  email = "anna@example.org";
  full_name = "Anna";
  previous_topic_sets = 11 ∷ [];
}

abbrev pub row : ExamSession
row = record {
  id = 1;
  candidate_id = 3;
  status = active;
  current_phase = none;
  resume_token = 0;
  gemini_resumption_handle = none;
  cue_card_id = none;
  topic_set_ids = none;
}

abbrev pub topics : List TopicSet
topics = topic 11 "A" ∷ topic 12 "A" ∷ topic 13 "B" ∷ topic 14 "C" ∷ []

abbrev pub fresh_db : Db
fresh_db = record {
  sessions = row ∷ [];
  events = [];
  candidates = anna ∷ [];
  cue_cards = card ∷ [];
  topic_sets = topics;
}

abbrev pub empty_redis : Redis
empty_redis session_id name = none

abbrev pub open_bridge : Bridge
open_bridge = record { connected = true; input_muted = false; sent = [] }

abbrev pub fresh : State
fresh = record {
  session_id = 1;
  bridge = open_bridge;
  outbox = [];
  phase = initial_phase;
  turns_in_phase = 0;
  turns_since_reanchor = 0;
  part1_start_ts = none;
  topic_sets = [];
  bound_card = none;
  watchdog_task = none;
  finalizing_watchdog_task = none;
  pending_flush_turn_ids = [];
  gemini_idle = true;
  directive_queue = [];
  db = fresh_db;
  redis = empty_redis;
  now = 1000;
  random = λ i. 0;
  drawn = 0;
  tasks = [];
  next_task = 0;
  broker_up = true;
  grading_queue = [];
}

-- The session after some events, committed without their announcements.
abbrev pub driven : List ExamEvent → State → State
driven [] w = w
driven (e ∷ es) w = driven es (advance default_settings e "example" false w).1

pub driven-Coherent : (es : List ExamEvent) (w : State) → Coherent w → Coherent (driven es w)
driven-Coherent [] w c = c
driven-Coherent (e ∷ es) w c =
    driven-Coherent es (advance default_settings e "example" false w).1
      (advance-Keeps default_settings e "example" false w c)

abbrev pub state_at : ExamPhase → State
state_at p = driven (take (rank p) exam_path) fresh

pub fresh-Coherent : Coherent fresh
unfolding Engine.get_current_phase Engine.load_phase_events Engine.order_by_seq Engine.fold_phase
    Engine.phase_events Fsm.fold Fsm.fold_from
fresh-Coherent = record { ordered = tt; cached = refl }

pub state_at-Coherent : (p : ExamPhase) → Coherent (state_at p)
state_at-Coherent p = driven-Coherent (take (rank p) exam_path) fresh fresh-Coherent

driven-phase :
    (es : List ExamEvent) (w : State) {q : ExamPhase}
    → Coherent w
    → Fsm.fold_from w.phase es ≡ reached q
    → (driven es w).phase ≡ q
unfolding Fsm.fold_from
driven-phase [] w c h = ground (arith, h)
driven-phase (e ∷ es) w c h =
    let (r, step, rest) = fold_from-cons w.phase e es h in
    ap (λ m. (driven es m.1).phase) (advance_silent default_settings e "example" w c step)
    ∙ (driven-phase es (moved_to e "example" r w) (moved_to-Coherent w c e "example" step) rest)

pub state_at-phase : (p : ExamPhase) → (state_at p).phase ≡ p
unfolding Fsm.fold
state_at-phase p =
    driven-phase (take (rank p) exam_path) fresh fresh-Coherent
      ((fold-take_iff (take (rank p) exam_path) p).1 refl)

driven-row :
    (es : List ExamEvent) (w : State) {q : ExamPhase} {r : ExamSession}
    → Coherent w
    → Fsm.fold_from w.phase es ≡ reached q
    → find_session w.session_id w.db.sessions ≡ some r
    → (r' : ExamSession) × (find_session (driven es w).session_id (driven es w).db.sessions
        ≡ some r')
unfolding Fsm.fold_from
driven-row [] w {q} {r} c h found = (r, found)
driven-row (e ∷ es) w {q} {r} c h found =
    let (p, step, rest) = fold_from-cons w.phase e es h in
    let v : State = moved_to e "example" p w in
    let found' =
      (transition_snapshot w.db w.session_id c.ordered c.cached e "example" [] step no_extra
        found).0 in
    let (r', there) = driven-row es v (moved_to-Coherent w c e "example" step) rest found' in
    (
      r',
      ap (λ m. find_session (driven es m.1).session_id (driven es m.1).db.sessions)
            (advance_silent default_settings e "example" w c step)
          ∙ there,
    )

pub row_at :
    (p : ExamPhase)
    → (r : ExamSession) × (find_session (state_at p).session_id (state_at p).db.sessions ≡ some r)
unfolding Fsm.fold find_session
row_at p =
    driven-row (take (rank p) exam_path) fresh fresh-Coherent
      ((fold-take_iff (take (rank p) exam_path) p).1 refl) refl

-- What the table says of a state's phase.
pub legal_at :
    (p : ExamPhase) (e : ExamEvent) {q : ExamPhase}
    → Fsm.transition p e ≡ reached q
    → Fsm.transition (state_at p).phase e ≡ reached q
legal_at p e h = rw (state_at-phase p) h
