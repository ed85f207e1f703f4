-- ===== src/Gateway/Orchestrator/Advance.antt =====
-- `_advance`, `_on_enter_phase` and the timer messages of exam_orchestrator.py.
use session_replica_ielt.Prelude.{
  ℕ, zero, suc, ◌+◌, ◌-◌, min, max, String, Bool, true, false, Option, none, some, List, [], ◌∷◌,
  ◌++◌, if◌then◌else◌,
}
use session_replica_ielt.Prelude.Dict.{lookup}
use session_replica_ielt.Fsm
use session_replica_ielt.Fsm.{ExamPhase, ExamEvent}
use session_replica_ielt.Gateway.Exceptions.{
  Result, ok, err, key_error, attribute_error, out_of_fuel,
}
use session_replica_ielt.Gateway.Tables.{
  completed, CueCard, find_session, update_session, find_candidate, update_candidate,
}
use session_replica_ielt.Gateway.Engine
use session_replica_ielt.Gateway.Settings.{Settings}
use session_replica_ielt.Gateway.Timers
use session_replica_ielt.Gateway.Timers.{TimerName}
use session_replica_ielt.Gateway.Bridge
use session_replica_ielt.Gateway.Bridge.{Directive, force_mute_input, unmute_input}
use session_replica_ielt.Gateway.Content.{select_cue_card, assign_topic_sets, topic_set_ids_payload}
use session_replica_ielt.Gateway.Orchestrator.State.{
  Watchdog, part1, prep, long_turn, part3, finalizing, timer_deadline, cue_card, scripted_audio,
  State, Action, ⊤, pure, raise, gets, or_raise, from_result, ◌>>=◌, ◌>>◌, modify, put,
  queue_directive, create_task,
}

-- `fsm_engine.transition(db, self.session_id, event, reason=reason)`
unfoldable pub commit_transition : ExamEvent → String → Action ExamPhase
commit_transition event reason w =
    let (r, db) = Engine.transition w.db w.session_id event reason [] in (r, record w { db = db })

-- The write of an assigned deadline, its message and its watchdog.
unfoldable pub set_deadline : TimerName → ℕ → Action ℕ
set_deadline name duration w =
    let (deadline, redis) = Timers.set_deadline w.now w.session_id name duration w.redis in
    (ok deadline, record w { redis = redis })

unfoldable pub mark_phase_start : TimerName → ℕ → Action ℕ
mark_phase_start name ttl w =
    let (start, redis) = Timers.mark_phase_start w.now w.session_id name ttl w.redis in
    (ok start, record w { redis = redis })

-- `_push_timer_deadline`
unfoldable pub push_timer_deadline : TimerName → ℕ → Action ⊤
push_timer_deadline name deadline = put (timer_deadline name deadline)

unfoldable pub start_watchdog : Watchdog → Action ⊤
start_watchdog k = create_task k >>= λ i. modify (λ w. record w { watchdog_task = some i })

-- A deadline, its message and its watchdog, as four phases have them.
unfoldable pub watch : TimerName → ℕ → Watchdog → Action ⊤
unfolding set_deadline push_timer_deadline start_watchdog
watch name duration k = do
  deadline ← set_deadline name duration
  push_timer_deadline name deadline
  start_watchdog k

-- `ExamPhase.INTRO`: topic sets for the session, the start of the exam, the directive.
unfoldable pub enter_intro : Settings → Action ⊤
unfolding mark_phase_start
enter_intro cfg = do
  w ← gets (λ w. w)
  session ← or_raise (find_session w.session_id w.db.sessions) attribute_error
  candidate ← or_raise (find_candidate session.candidate_id w.db.candidates) attribute_error
  chosen ← from_result (assign_topic_sets w.random w.drawn candidate w.db.topic_sets)
  modify (λ w. record w {
    topic_sets = chosen.0;
    drawn = w.drawn + 3;
    db = record w.db {
      sessions =
          update_session w.session_id
            (λ s. record s { topic_set_ids = some (topic_set_ids_payload chosen.0) }) w.db.sessions;
      candidates = update_candidate candidate.id (λ c. chosen.1) w.db.candidates;
    };
  })
  mark_phase_start Timers.exam_start (cfg.exam_total_max_ms + 600000)
  queue_directive (Bridge.intro candidate.full_name)

-- A Part 1 phase, with `slot = phase.value[-1]`: `self._topic_sets[slot]` raises KeyError if the
-- slot is not there.
unfoldable pub enter_topic : String → Action ⊤
enter_topic slot = do
  w ← gets (λ w. w)
  t ← or_raise (lookup slot w.topic_sets) key_error
  queue_directive (Bridge.part1_topic t.title t.questions)

-- `ExamPhase.PART1_TOPIC_A`: the window of Part 1 opens.
unfoldable pub open_part1 : Settings → Action ⊤
unfolding mark_phase_start watch
open_part1 cfg = do
  start ← mark_phase_start Timers.part1_start (cfg.part1_max_ms + 300000)
  modify (λ w. record w { part1_start_ts = some start })
  watch Timers.part1_max cfg.part1_max_ms part1

-- `ExamPhase.PART2_CUECARD_PRESENT`
unfoldable pub enter_cuecard_present : Action ⊤
enter_cuecard_present = do
  w ← gets (λ w. w)
  card ← from_result (select_cue_card (w.random w.drawn) w.db.cue_cards)
  session ← or_raise (find_session w.session_id w.db.sessions) attribute_error
  modify (λ w. record w {
    drawn = w.drawn + 1;
    bound_card = some card;
    db = record w.db {
      sessions =
          update_session w.session_id (λ s. record s { cue_card_id = some card.id }) w.db.sessions;
    };
  })
  put (cue_card card.id card.topic card.bullets)
  queue_directive (Bridge.part2_cuecard_present card.topic card.bullets)

-- `ExamPhase.PART2_PREP`
unfoldable pub enter_prep : Settings → Action ⊤
unfolding set_deadline push_timer_deadline start_watchdog
enter_prep cfg = do
  modify (λ w. record w { bridge = force_mute_input w.bridge })
  deadline ← set_deadline Timers.part2_prep cfg.part2_prep_ms
  push_timer_deadline Timers.part2_prep deadline
  put (scripted_audio "you_have_one_minute_to_prepare.wav")
  start_watchdog prep

-- `ExamPhase.PART2_LONG_TURN`
unfoldable pub enter_long_turn : Settings → Action ⊤
unfolding watch
enter_long_turn cfg = do
  modify (λ w. record w { bridge = unmute_input w.bridge })
  watch Timers.part2_long_turn cfg.part2_long_turn_ms long_turn

-- `ExamPhase.PART2_ROUNDOFF`
unfoldable pub enter_roundoff : Action ⊤
enter_roundoff = do
  modify (λ w. record w { bridge = unmute_input w.bridge })
  queue_directive Bridge.part2_roundoff

-- `self._cue_card.linked_part3_themes if self._cue_card else []`
abbrev pub themes_of : Option CueCard → List String
themes_of none = []
themes_of (some card) = card.linked_part3_themes

-- `min(max(exam_total_max - (now - exam_start), part3_min), part3_max)`, where a missing start
-- counts as now. The difference may be negative; then the maximum is `part3_min`, as here.
unfoldable pub part3_duration : Settings → ℕ → Option ℕ → ℕ
part3_duration cfg now none = min (max cfg.exam_total_max_ms cfg.part3_min_ms) cfg.part3_max_ms
part3_duration cfg now (some exam_start) =
    min (max (cfg.exam_total_max_ms + exam_start - now) cfg.part3_min_ms) cfg.part3_max_ms

-- `ExamPhase.PART3_DISCUSSION`
unfoldable pub enter_discussion : Settings → Action ⊤
unfolding watch
enter_discussion cfg = do
  card ← gets (λ w. w.bound_card)
  queue_directive (Bridge.part3_discussion (themes_of card))
  start ← gets (λ w. Timers.get_phase_start w.now w.session_id Timers.exam_start w.redis)
  now ← gets (λ w. w.now)
  watch Timers.part3_discussion (part3_duration cfg now start) part3

abbrev pub is_empty : List ℕ → Bool
is_empty [] = true
is_empty (_ ∷ _) = false

unfoldable pub start_finalizing_watchdog : Action ⊤
start_finalizing_watchdog =
    create_task finalizing >>= λ i. modify (λ w. record w { finalizing_watchdog_task = some i })

-- `ExamPhase.FINALIZING`; `again` is `self._advance(FINALIZE_COMPLETE, ...)`.
unfoldable pub enter_finalizing : Action ⊤ → Action ⊤
unfolding start_finalizing_watchdog
enter_finalizing again w =
    if is_empty w.pending_flush_turn_ids then again w else start_finalizing_watchdog w

-- `ExamPhase.COMPLETE`: a failure of the broker is logged and swallowed.
unfoldable pub enter_complete : Action ⊤
enter_complete = do
  w ← gets (λ w. w)
  session ← or_raise (find_session w.session_id w.db.sessions) attribute_error
  modify (λ w. record w {
    db = record w.db {
      sessions = update_session w.session_id (λ s. record s { status = completed }) w.db.sessions;
    };
    grading_queue = if w.broker_up then w.grading_queue ++ w.session_id ∷ [] else w.grading_queue;
  })

-- `_on_enter_phase`
unfoldable pub on_enter_phase : Settings → Action ⊤ → ExamPhase → Action ⊤
on_enter_phase cfg again Fsm.intro = enter_intro cfg
on_enter_phase cfg again Fsm.part1_topic_a = open_part1 cfg >> enter_topic "A"
on_enter_phase cfg again Fsm.part1_topic_b = enter_topic "B"
on_enter_phase cfg again Fsm.part1_topic_c = enter_topic "C"
on_enter_phase cfg again Fsm.part2_cuecard_present = enter_cuecard_present
on_enter_phase cfg again Fsm.part2_prep = enter_prep cfg
on_enter_phase cfg again Fsm.part2_long_turn = enter_long_turn cfg
on_enter_phase cfg again Fsm.part2_roundoff = enter_roundoff
on_enter_phase cfg again Fsm.part3_discussion = enter_discussion cfg
on_enter_phase cfg again Fsm.close = queue_directive Bridge.close
on_enter_phase cfg again Fsm.finalizing = enter_finalizing again
on_enter_phase cfg again Fsm.complete = enter_complete
on_enter_phase cfg again Fsm.init_device_check = pure tt
on_enter_phase cfg again Fsm.id_verification = pure tt

-- The fields that `_advance` sets.
unfoldable pub set_phase : ExamPhase → Action ⊤
set_phase next =
    modify (λ w. record w { phase = next; turns_in_phase = 0; turns_since_reanchor = 0 })

-- `_advance` after its transition.
unfoldable pub after_transition :
    Settings → Action ⊤ → Bool → Result ExamPhase × State → Result ⊤ × State
unfolding set_phase
after_transition cfg again announce (err e, w) = (err e, w)
after_transition cfg again announce (ok next, w) =
    (set_phase next >> (if announce then on_enter_phase cfg again next else pure tt)) w

-- `_advance` calls `_on_enter_phase`, which calls `_advance` once more from FINALIZING: a depth of
-- two, counted by the first argument.
unfoldable pub advance_within : ℕ → Settings → ExamEvent → String → Bool → Action ⊤
advance_within zero cfg event reason announce w = raise out_of_fuel w
advance_within (suc depth) cfg event reason announce w =
    after_transition cfg (advance_within depth cfg Fsm.finalize_complete "no_pending_media" true)
      announce (commit_transition event reason w)

unfoldable pub advance : Settings → ExamEvent → String → Bool → Action ⊤
unfolding advance_within after_transition
advance cfg event reason announce = advance_within 2 cfg event reason announce
