-- ===== src/Worker/Checker.antt =====
-- apps/worker/providers/grammar_check.py: what a grammar checker reports of a text. The checker
-- itself is a parameter of the metrics; `none` is its exception.
use session_replica_ielt.Prelude.{String, Option, List, select, any}
use session_replica_ielt.Prelude.{str_eq}
use session_replica_ielt.Prelude.Text.{Word}

-- `class GrammarError`, with what the metrics read.
pub record GrammarError : Type 0 where
  pub category : String
  pub rule_id : String

-- `provider.check(text)`
abbrev pub Checker : Type 0
Checker = Word → Option (List GrammarError)

-- `[e for e in errors if e.category in categories]`
abbrev pub in_categories : List String → List GrammarError → List GrammarError
in_categories categories errors = select (λ e. any (λ c. str_eq c e.category) categories) errors
