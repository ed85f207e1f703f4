-- ===== src/Worker/Grammar/TUnits.antt =====
-- apps/worker/tasks/nlp/grammar.py, `_count_tunits_and_clauses`: the T-units and the clauses of a
-- parsed utterance.
use session_replica_ielt.Prelude.{
  ℕ, zero, suc, ◌==◌, Bool, true, false, not, ◌&&◌, ◌||◌, Option, none, some, List, [], ◌∷◌, map,
  length, select, any, if◌then◌else◌,
}
use session_replica_ielt.Worker.Parse
use session_replica_ielt.Worker.Parse.{Dep, Pos, Token, Doc, children}

-- `DEPENDENT_CLAUSE_DEPS`
abbrev pub is_dependent_clause : Dep → Bool
is_dependent_clause Parse.advcl = true
is_dependent_clause Parse.ccomp = true
is_dependent_clause Parse.xcomp = true
is_dependent_clause Parse.acl = true
is_dependent_clause Parse.relcl = true
is_dependent_clause Parse.csubj = true
is_dependent_clause Parse.csubjpass = true
is_dependent_clause _ = false

-- `SUBJECT_DEPS`
abbrev pub is_subject : Dep → Bool
is_subject Parse.nsubj = true
is_subject Parse.nsubjpass = true
is_subject Parse.expl = true
is_subject _ = false

abbrev pub is_root : Dep → Bool
is_root Parse.root = true
is_root _ = false

abbrev pub is_conj : Dep → Bool
is_conj Parse.conj = true
is_conj _ = false

-- A set of positions.
abbrev pub contains : List ℕ → ℕ → Bool
contains heads i = any (λ h. h == i) heads

-- `any(child.dep_ in SUBJECT_DEPS for child in token.children)`
abbrev pub has_subject : Doc → Token → Bool
has_subject doc t = any (λ c. is_subject c.dep) (children doc t)

-- The test in the loop.
unfoldable pub is_new_head : Doc → List ℕ → Token → Bool
is_new_head doc heads t =
    is_conj t.dep && contains heads t.head && not (contains heads t.i) && has_subject doc t

-- The `for` loop: the set, and `changed`.
unfoldable pub pass : Doc → List Token → List ℕ → Bool → List ℕ × Bool
unfolding is_new_head
pass doc [] heads changed = (heads, changed)
pass doc (t ∷ ts) heads changed =
    pass doc ts (if is_new_head doc heads t then t.i ∷ heads else heads)
      (changed || is_new_head doc heads t)

-- The `while` loop; `none` means that the fuel ran out.
unfoldable pub expand : ℕ → Doc → List ℕ → Option (List ℕ)
unfolding pass
expand zero doc heads = none
expand (suc fuel) doc heads =
    let (heads', changed) = pass doc doc heads false in
    elim changed [ true ↦ expand fuel doc heads' | false ↦ some heads' ]

abbrev pub position : Token → ℕ
position t = t.i

-- `{t.i for t in doc if t.dep_ == "ROOT"}`
abbrev pub roots : Doc → List ℕ
roots doc = map position (select (λ t. is_root t.dep) doc)

unfoldable pub t_unit_heads : Doc → Option (List ℕ)
unfolding expand
t_unit_heads doc = expand (suc (length doc)) doc (roots doc)

pub record Counts : Type 0 where
  pub t_units : ℕ
  pub dependent_clauses : ℕ
  pub coordinated_clauses : ℕ
  pub complex_nominals : ℕ

abbrev pub is_verbal : Pos → Bool
is_verbal Parse.verb = true
is_verbal Parse.aux = true
is_verbal _ = false

abbrev pub is_nominal : Pos → Bool
is_nominal Parse.noun = true
is_nominal Parse.propn = true
is_nominal _ = false

abbrev pub is_modifier_clause : Dep → Bool
is_modifier_clause Parse.relcl = true
is_modifier_clause Parse.acl = true
is_modifier_clause _ = false

abbrev pub count : (Token → Bool) → Doc → ℕ
count p doc = length (select p doc)

abbrev pub counts_of : Doc → ℕ → Counts
counts_of doc t_units = record {
  t_units = t_units;
  dependent_clauses = count (λ t. is_dependent_clause t.dep) doc;
  coordinated_clauses = count (λ t. is_conj t.dep && is_verbal t.pos) doc;
  complex_nominals =
      count (λ t. is_nominal t.pos && any (λ c. is_modifier_clause c.dep) (children doc t)) doc;
}

-- `_count_tunits_and_clauses`
unfoldable pub count_tunits_and_clauses : Doc → Option Counts
unfolding t_unit_heads
count_tunits_and_clauses doc = elim (t_unit_heads doc) [
  | none ↦ none
  | some heads ↦ some (counts_of doc (length heads))
]
