-- ===== src/Worker/Grammar/Structure.antt =====
-- apps/worker/tasks/nlp/grammar.py: the kinds of errors, and the range of structures that a parsed text
-- shows. The two sets of the range are kept in the order in which their members were met.
use session_replica_ielt.Prelude.{
  ℕ, ◌+◌, Bool, true, false, ◌||◌, String, str_eq, Option, none, some, List, [], ◌∷◌, map, any,
  if◌then◌else◌,
}
use session_replica_ielt.Prelude.Dict.{Dict, lookup, insert}
use session_replica_ielt.Prelude.Text.{Word, codes, to_upper, occurs_in}
use session_replica_ielt.Worker.Parse
use session_replica_ielt.Worker.Parse.{Dep, Tag, Token, Doc}
use session_replica_ielt.Worker.Checker.{GrammarError}

-- `_ERROR_TAXONOMY_KEYWORDS`
abbrev pub error_taxonomy_keywords : List (String × List String)
error_taxonomy_keywords =
    ("subject_verb_agreement", "AGREEMENT" ∷ [])
    ∷ ("article", "ARTICLE" ∷ "A_UNCOUNTABLE" ∷ [])
    ∷ ("preposition", "PREP" ∷ [])
    ∷ ("tense", "TENSE" ∷ "VERB_FORM" ∷ [])
    ∷ ("word_order", "WORD_ORDER" ∷ [])
    ∷ []

-- `GRAMMAR_ERROR_CATEGORIES`
abbrev pub grammar_error_categories : List String
grammar_error_categories = "GRAMMAR" ∷ "TYPOS" ∷ []

unfoldable pub find_bucket : List (String × List String) → Word → String
find_bucket [] upper = "other"
find_bucket ((bucket, keywords) ∷ rest) upper =
    if any (λ k. occurs_in (codes k) upper) keywords then bucket else find_bucket rest upper

-- `_categorize_error`
unfoldable pub categorize_error : String → String
unfolding find_bucket
categorize_error rule_id = find_bucket error_taxonomy_keywords (map to_upper (codes rule_id))

abbrev pub or_none : Option ℕ → ℕ
or_none none = 0
or_none (some n) = n

-- `taxonomy[bucket] = taxonomy.get(bucket, 0) + 1`
abbrev pub add_error : String → Dict ℕ → Dict ℕ
add_error bucket taxonomy = insert bucket (or_none (lookup bucket taxonomy) + 1) taxonomy

unfoldable pub taxonomy_of : List GrammarError → Dict ℕ → Dict ℕ
unfolding categorize_error
taxonomy_of [] taxonomy = taxonomy
taxonomy_of (e ∷ errors) taxonomy =
    taxonomy_of errors (add_error (categorize_error e.rule_id) taxonomy)

pub record Range : Type 0 where
  pub tenses : List String
  pub has_passive : Bool
  pub has_conditional : Bool
  pub has_relative_clause : Bool
  pub modals : List String

abbrev pub no_range : Range
no_range = record {
  tenses = [];
  has_passive = false;
  has_conditional = false;
  has_relative_clause = false;
  modals = [];
}

-- `xs.add(x)`
abbrev pub add : String → List String → List String
add x xs = if any (λ y. str_eq y x) xs then xs else x ∷ xs

abbrev pub add_tense : Tag → List String → List String
add_tense Parse.vbd tenses = add "past_simple" tenses
add_tense Parse.vbp tenses = add "present_simple" tenses
add_tense Parse.vbz tenses = add "present_simple" tenses
add_tense Parse.vbg tenses = add "progressive" tenses
add_tense Parse.vbn tenses = add "perfect_or_passive_participle" tenses
add_tense _ tenses = tenses

abbrev pub is_passive : Dep → Bool
is_passive Parse.nsubjpass = true
is_passive Parse.auxpass = true
is_passive _ = false

abbrev pub is_relative : Dep → Bool
is_relative Parse.relcl = true
is_relative _ = false

abbrev pub add_modal : Tag → String → List String → List String
add_modal Parse.md lower modals = add lower modals
add_modal _ lower modals = modals

-- A round of the loop over the tokens.
unfoldable pub see_token : Token → Range → Range
see_token t r = record {
  tenses = add_tense t.tag r.tenses;
  has_passive = r.has_passive || is_passive t.dep;
  has_conditional = r.has_conditional || str_eq t.lower "if";
  has_relative_clause = r.has_relative_clause || is_relative t.dep;
  modals = add_modal t.tag t.lower r.modals;
}

unfoldable pub see_tokens : Doc → Range → Range
unfolding see_token
see_tokens [] r = r
see_tokens (t ∷ doc) r = see_tokens doc (see_token t r)
