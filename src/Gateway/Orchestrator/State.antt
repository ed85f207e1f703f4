-- ===== src/Gateway/Orchestrator/State.antt =====
-- What the code of apps/api-gateway/app/services/exam_orchestrator.py reads and writes: the fields
-- of `ExamOrchestrator`, and the world around one connection. A method is a state action with
-- exceptions; what it wrote before it raised stays written.
use session_replica_ielt.Prelude.{ℕ, suc, String, Bool, Option, none, some, List, [], ◌∷◌, ◌++◌}
use session_replica_ielt.Prelude.Dict.{Dict}
use session_replica_ielt.Fsm.{ExamPhase}
use session_replica_ielt.Gateway.Exceptions.{Error, Result, ok, err}
use session_replica_ielt.Gateway.Tables.{CueCard, TopicSet, Db}
use session_replica_ielt.Gateway.Timers.{TimerName, Redis}
use session_replica_ielt.Gateway.Bridge.{Bridge, Directive}

-- The five watchdog coroutines.
pub data Watchdog : Type 0 where
  part1 prep long_turn part3 finalizing : Watchdog

-- Where a watchdog stands: not begun; waiting for a deadline that it has read (the long turn's
-- knows whether it has warned); or past it, its wait over and the rest to run.
pub data Stage : Type 0 where
  begun : Stage
  waiting : (deadline : ℕ) → (warned : Bool) → Stage
  expired : Stage

pub record Task : Type 0 where
  pub id : ℕ
  pub watchdog : Watchdog
  pub stage : Stage

-- What the gateway sends to the browser.
pub data Message : Type 0 where
  connected resumed : ℕ → Message
  timer_deadline : TimerName → ℕ → Message
  cue_card : ℕ → String → List String → Message
  scripted_audio : String → Message
  activity_start_ack : ℕ → Message
  turn_complete : ℕ → ℕ → Message
  pong : ℕ → Message
  pcm : List ℕ → Message
  transcript_delta : String → Message
  gemini_turn_complete interrupted server_going_away : Message

pub record State : Type 0 where
  -- `ExamOrchestrator`'s fields
  pub session_id : ℕ
  pub bridge : Bridge
  pub outbox : List Message
  pub phase : ExamPhase
  pub turns_in_phase : ℕ
  pub turns_since_reanchor : ℕ
  pub part1_start_ts : Option ℕ
  pub topic_sets : Dict TopicSet
  pub bound_card : Option CueCard
  pub watchdog_task : Option ℕ
  pub finalizing_watchdog_task : Option ℕ
  pub pending_flush_turn_ids : List ℕ
  pub gemini_idle : Bool  -- `_gemini_turn_complete.is_set()`
  pub directive_queue : List Directive
  -- the world: tables, Redis, the clock, the random draws, the event loop's tasks, the broker
  pub db : Db
  pub redis : Redis
  pub now : ℕ
  pub random : ℕ → ℕ
  pub drawn : ℕ
  pub tasks : List Task
  pub next_task : ℕ
  pub broker_up : Bool
  pub grading_queue : List ℕ

abbrev pub Action : Type 0 → Type 0
Action A = State → Result A × State

abbrev pub ⊤ : Type 0
⊤ = Unit

module _ {A : Type 0} where
  abbrev pub pure : A → Action A
  pure a w = (ok a, w)

  abbrev pub raise : Error → Action A
  raise e w = (err e, w)

  abbrev pub gets : (State → A) → Action A
  gets f w = (ok (f w), w)

  -- An exception where a value is missing.
  abbrev pub or_raise : Option A → Error → Action A
  or_raise none e = raise e
  or_raise (some a) e = pure a

  abbrev pub from_result : Result A → Action A
  from_result r w = (r, w)

infixl 5 ◌>>=◌ ◌>>◌
abbrev pub ◌>>=◌ : {A B : Type 0} → Action A → (A → Action B) → Action B
◌>>=◌ m f w = let (r, w') = m w in elim r [ ok a ↦ f a w' | err e ↦ raise e w' ]

abbrev pub ◌>>◌ : {A B : Type 0} → Action A → Action B → Action B
m >> k = m >>= λ _. k

abbrev pub modify : (State → State) → Action ⊤
modify f w = (ok tt, f w)

-- `await self.outbox.put(message)`
abbrev pub put : Message → Action ⊤
put m = modify (λ w. record w { outbox = w.outbox ++ m ∷ [] })

-- `await self._queue_directive(text)`
abbrev pub queue_directive : Directive → Action ⊤
queue_directive d = modify (λ w. record w { directive_queue = w.directive_queue ++ d ∷ [] })

-- `asyncio.create_task(...)`, with the handle that it gives.
abbrev pub create_task : Watchdog → Action ℕ
create_task k w = (
  ok w.next_task,
  record w {
    tasks = w.tasks ++ record { id = w.next_task; watchdog = k; stage = begun } ∷ [];
    next_task = suc w.next_task;
  },
)
