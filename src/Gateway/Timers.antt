-- ===== src/Gateway/Timers.antt =====
-- apps/api-gateway/app/services/timers.py: absolute deadlines in Redis, and the loops that wait for
-- them. Times are milliseconds of the epoch. Redis forgets a key when its time to live is over.
pub mod Deadlines
pub mod Expiry
use session_replica_ielt.Prelude.{
  ℕ, ◌+◌, ◌-◌, ◌*◌, ◌/◌, Bool, true, false, not, ◌&&◌, Option, none, some, List, [], ◌∷◌, ◌==◌, ltb,
  leb, if◌then◌else◌,
}
use session_replica_ielt.Fsm.{ExamPhase}

-- The last part of a key, f"exam:{session_id}:timer:{name}".
pub data TimerName : Type 0 where
  exam_start part1_start part1_max part2_prep part2_long_turn part3_discussion : TimerName

pub record Entry : Type 0 where
  pub value : ℕ
  pub expires : ℕ

abbrev pub Redis : Type 0
Redis = ℕ → TimerName → Option Entry

unfoldable pub same_name : TimerName → TimerName → Bool
same_name exam_start exam_start = true
same_name part1_start part1_start = true
same_name part1_max part1_max = true
same_name part2_prep part2_prep = true
same_name part2_long_turn part2_long_turn = true
same_name part3_discussion part3_discussion = true
same_name _ _ = false

unfoldable pub store : ℕ → TimerName → Option Entry → Redis → Redis
unfolding same_name
store session_id name entry redis s n =
    if s == session_id && same_name n name then entry else redis s n

abbrev pub ttl_buffer_ms : ℕ
ttl_buffer_ms = 30000

-- `int(seconds)`, in milliseconds.
abbrev pub whole_seconds : ℕ → ℕ
whole_seconds ms = ms / 1000 * 1000

-- `set_deadline`: the deadline, and the store. The key lives for the whole seconds of the duration
-- and the buffer.
unfoldable pub set_deadline : ℕ → ℕ → TimerName → ℕ → Redis → ℕ × Redis
unfolding store
set_deadline now session_id name duration redis =
    let deadline = now + duration in
    (
      deadline,
      store session_id name
          (some
            (record { value = deadline; expires = now + (whole_seconds duration + ttl_buffer_ms) }))
          redis,
    )

abbrev pub live : ℕ → Option Entry → Option ℕ
live now none = none
live now (some e) = if ltb now e.expires then some e.value else none

unfoldable pub get_deadline : ℕ → ℕ → TimerName → Redis → Option ℕ
get_deadline now session_id name redis = live now (redis session_id name)

unfoldable pub clear_deadline : ℕ → TimerName → Redis → Redis
unfolding store
clear_deadline session_id name redis = store session_id name none redis

-- `mark_phase_start`: the instant, and the store.
unfoldable pub mark_phase_start : ℕ → ℕ → TimerName → ℕ → Redis → ℕ × Redis
unfolding store
mark_phase_start now session_id name ttl redis = (
  now,
  store session_id name (some (record { value = now; expires = now + whole_seconds ttl })) redis,
)

unfoldable pub get_phase_start : ℕ → ℕ → TimerName → Redis → Option ℕ
get_phase_start now session_id name redis = live now (redis session_id name)

-- One round of a waiting loop: what the clock said at its test, and the phase that the log gave.
pub record Poll : Type 0 where
  pub now : ℕ
  pub phase : ExamPhase

pub data Waiting : Type 0 where
  keep_waiting : Waiting
  done : Bool → Waiting

-- `while time.time() < deadline: ... if phase not in phases: return False; sleep` / `return True`
unfoldable pub poll_group : ℕ → (ExamPhase → Bool) → Poll → Waiting
poll_group deadline phases p =
    if ltb p.now deadline then (if phases p.phase then keep_waiting else done false) else done true

-- The rounds of the loop; `none` while it still waits after the given ones.
unfoldable pub wait_from : ℕ → (ExamPhase → Bool) → List Poll → Option Bool
wait_from deadline phases [] = none
wait_from deadline phases (p ∷ ps) = elim (poll_group deadline phases p) [
  | keep_waiting ↦ wait_from deadline phases ps
  | done b ↦ some b
]

-- `wait_for_phase_group_deadline`; `start` is when it reads the deadline.
unfoldable pub wait_for_phase_group_deadline :
    ℕ → ℕ → TimerName → (ExamPhase → Bool) → Redis → List Poll → Option Bool
unfolding wait_from
wait_for_phase_group_deadline start session_id name phases redis polls =
    elim (get_deadline start session_id name redis) [
      | none ↦ some false
      | some deadline ↦ wait_from deadline phases polls
    ]

abbrev pub is_part2_prep : ExamPhase → Bool
is_part2_prep ExamPhase.part2_prep = true
is_part2_prep _ = false

-- `wait_for_prep_expiry`
unfoldable pub wait_for_prep_expiry : ℕ → ℕ → Redis → List Poll → Option Bool
unfolding wait_for_phase_group_deadline
wait_for_prep_expiry start session_id redis polls =
    wait_for_phase_group_deadline start session_id part2_prep is_part2_prep redis polls
