-- ===== src/Gateway/Settings.antt =====
-- apps/api-gateway/app/config.py: the settings that the exam's driver reads. Durations are in
-- milliseconds.
use session_replica_ielt.Prelude.{ℕ}

pub record Settings : Type 0 where
  pub part2_prep_ms : ℕ
  pub part2_long_turn_ms : ℕ
  pub part2_long_turn_warn_at_ms : ℕ
  pub part1_min_ms : ℕ
  pub part1_max_ms : ℕ
  pub part3_min_ms : ℕ
  pub part3_max_ms : ℕ
  pub exam_total_max_ms : ℕ
  pub intro_turns : ℕ
  pub part1_topic_turns : ℕ
  pub part2_roundoff_turns : ℕ
  pub part3_discussion_turns : ℕ
  pub reanchor_every_n_turns : ℕ
  pub finalizing_watchdog_ms : ℕ

-- The values that `Settings` gives when no environment variable overrides one.
abbrev pub default_settings : Settings
default_settings = record {
  part2_prep_ms = 60000;
  part2_long_turn_ms = 120000;
  part2_long_turn_warn_at_ms = 115000;
  part1_min_ms = 240000;
  part1_max_ms = 300000;
  part3_min_ms = 240000;
  part3_max_ms = 300000;
  exam_total_max_ms = 840000;
  intro_turns = 1;
  part1_topic_turns = 4;
  part2_roundoff_turns = 1;
  part3_discussion_turns = 6;
  reanchor_every_n_turns = 6;
  finalizing_watchdog_ms = 60000;
}
