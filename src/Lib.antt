-- ===== src/Lib.antt =====
-- A model of the speaking exam's server: the state machine of an exam, the gateway that drives one
-- live session over it, and the worker that grades the session.
--
-- Parts, with paths from the repository's root:
-- - Fsm: packages/exam-fsm/exam_fsm. Defs has the phases, the events, TRANSITIONS, `transition` and
--   `fold`; Path has the line of phases that they describe.
-- - Gateway: apps/api-gateway/app. Tables are the rows of models/; Engine is
--   services/fsm_engine.py, the event log; Timers and LongTurn are services/timers.py, where Redis
--   is a function from keys to entries with an expiry; Content is services/exam_content.py; Bridge is
--   the sending half of services/gemini_bridge.py; Settings is config.py.
-- - Gateway.Orchestrator: services/exam_orchestrator.py. State has the fields of `ExamOrchestrator`
--   and the world around it (tables, Redis, clock, random draws, tasks, broker); a method is a state
--   action with exceptions that keeps what was written before the exception. Advance has `_advance`
--   and `_on_enter_phase`, Triggers the external triggers, Watchdogs the watchdog coroutines as
--   pieces between their waits, Lifecycle `start`, `close` and the dispatcher. Steps is the step
--   relation of a session: a trigger, a piece of a running task, a round of the dispatcher, time, the
--   broker, a disconnection or a new connection. One connection drives a session at a
--   time: the constructor stops no task, and those that an earlier connection left running, which
--   belong to its own driver object, are not followed.
-- - Gateway.Accounts: routers/auth.py and deps.py, Gateway.Sessions: routers/sessions.py with the
--   rows of models/video_segment.py, and Gateway.InternalDebug: routers/internal_debug.py.
-- - Gateway.Relay: routers/ws_exam.py, a round of each of the two pumps, the flush of a turn, and who
--   may connect. Recording has the relation of what may come between the frames of a turn: other
--   messages, Gemini's events, ends of flushes and steps of the driver; its CutOff says where a turn
--   is recorded when a watchdog moves the driver during it.
-- - Worker: apps/worker. Jobs is job_status.py, Media tasks/media.py, Asr tasks/asr.py, Transcription
--   the choice between the vendors of providers/transcription.py, Utterances the loading and the
--   segmentation of nlp_common.py and Syllables its counts, Judge the answers of
--   providers/scoring_llm.py, Reconciliation reconciliation.py, and Scoring tasks/scoring.py with
--   feature_vectors.py and band_score_reports.py.
-- - Worker, the features: Fluency, Lexical and Grammar are the files of tasks/nlp, over the parsed text
--   of Parse, the word lists of Lexicons and the reports of Checker; Features has the tasks themselves.
--   Pronunciation is tasks/pronunciation.py with providers/pronunciation.py.
-- - Worker.Calibration: calibration_metrics.py, calibration_corpus.py and calibration_report.py.
-- - Examples: concrete sessions on which the theorems are applied.
--
-- How the parts meet: the relay calls the orchestrator's triggers; the orchestrator commits every
-- move through Engine, which replays the log with Fsm; the watchdogs wait on Timers; COMPLETE
-- enqueues the session, which the worker then grades: Media leaves the turns' boundaries in its job's
-- result, from which Asr attributes the words; the feature tasks read the words by part and write
-- their vectors; Scoring reads both, asks the judge twice and reconciles. The calibration runs the
-- same reconciliation over the cases of a benchmark.
--
-- Conventions. Times are natural numbers of milliseconds. Differences of times that may be negative
-- are compared as sums. A band is a number of half bands, the increments of the judge's schema, and
-- a confidence a number of thousandths; quotients are rounded exactly, as Python's `round` does to
-- the nearest integer with a half to the even one, and a rate is a number of the last decimal place
-- to which it is rounded. A word is a list of code points, whose case and class are those of ASCII.
-- Identifiers are numbers. Random draws are a function of the number of draws made so far. An
-- error's text and the count in the reason of a turn-budget move are left out of what is stored, and
-- a feature vector is the text of its contents.
--
-- Bounds and fuel: `_advance` calls itself only from FINALIZING, where the next phase is COMPLETE,
-- so a depth of two is enough (`advance_within`). The Part 1 watchdog's loop passes at most the
-- three phases of Part 1 (`skip_part1`). The waiting loops run over the list of rounds that they
-- are given. The loop for T-unit heads adds a token in every round but the last, so one round more
-- than the tokens is enough (`t_unit_heads`).
--
-- Not modelled: the connection's setup and shutdown, latency measurement, the database, Redis,
-- object store and Celery clients, the receiving half of the Live API's wire format, the calls of
-- the transcription and pronunciation vendors, the prosody measurement, the rank correlation and
-- the command line of the calibration, and the web client. The judge, the tokens, the presigned
-- addresses, the parser, the word frequencies, the checker, the vendors, the store and the encoder
-- are parameters of the definitions that use them.
pub mod Prelude
pub mod Fsm
pub mod Gateway
pub mod Worker
pub mod Examples
