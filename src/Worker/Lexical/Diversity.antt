-- ===== src/Worker/Lexical/Diversity.antt =====
-- apps/worker/tasks/nlp/lexical.py, `mtld` and `mattr`: diversity measures that do not depend on
-- the length of the text. A quotient is exact: a numerator and a denominator.
use session_replica_ielt.Prelude.{
  ℕ, zero, suc, ◌+◌, ◌-◌, ◌*◌, Bool, List, [], ◌∷◌, length, leb, ltb, take, if◌then◌else◌,
  round_ratio,
}
use mathlib.Core.List.{reverse}
use session_replica_ielt.Prelude.Text.{Word, is_word_in, distinct}

-- The walk of `_mtld_factors`: `factor_count`, `types` and `token_count`.
pub record Walk : Type 0 where
  pub factor_count : ℕ
  pub types : List Word
  pub token_count : ℕ

abbrev pub add_type : List Word → Word → List Word
add_type types token = if is_word_in types token then types else token ∷ types

-- `len(types) / token_count <= MTLD_TTR_THRESHOLD`, which is 0.72.
abbrev pub is_factor : ℕ → ℕ → Bool
is_factor types token_count = leb (25 * types) (18 * token_count)

abbrev pub reset : Walk → Walk
reset w = record { factor_count = w.factor_count + 1; types = []; token_count = 0 }

abbrev pub see : Word → Walk → Walk
see token w = record w { types = add_type w.types token; token_count = w.token_count + 1 }

-- A round of the loop.
unfoldable pub walk_token : Word → Walk → Walk
walk_token token w =
    if is_factor (length (see token w).types) (see token w).token_count
    then reset (see token w)
    else see token w

unfoldable pub walk_from : Walk → List Word → Walk
unfolding walk_token
walk_from w [] = w
walk_from w (token ∷ tokens) = walk_from (walk_token token w) tokens

abbrev pub no_walk : Walk
no_walk = record { factor_count = 0; types = []; token_count = 0 }

pub record Ratio : Type 0 where
  pub num : ℕ
  pub den : ℕ

-- The whole factors, and the part of one that the rest has come: (1 - ttr) / (1 - 0.72) is
-- 25 (token_count - types) / (7 token_count).
unfoldable pub factors_of : Walk → Ratio
factors_of w =
    if ltb 0 w.token_count
    then record {
      num = w.factor_count * (7 * w.token_count) + 25 * (w.token_count - length w.types);
      den = 7 * w.token_count;
    }
    else record { num = w.factor_count; den = 1 }

-- `_mtld_factors`
unfoldable pub mtld_factors : List Word → Ratio
unfolding walk_from factors_of
mtld_factors tokens = factors_of (walk_from no_walk tokens)

-- `len(tokens) / factors if factors > 0 else float(len(tokens))`
abbrev pub tokens_per_factor : ℕ → Ratio → Ratio
tokens_per_factor n f =
    if ltb 0 f.num then record { num = n * f.den; den = f.num } else record { num = n; den = 1 }

-- The mean of two quotients, to hundredths.
abbrev pub mean_hundredths : Ratio → Ratio → ℕ
mean_hundredths a b = round_ratio (100 * (a.num * b.den + b.num * a.den)) (2 * (a.den * b.den))

-- `mtld`, in hundredths.
unfoldable pub mtld : List Word → ℕ
unfolding mtld_factors
mtld tokens =
    if ltb (length tokens) 10
    then 100 * length tokens
    else mean_hundredths (tokens_per_factor (length tokens) (mtld_factors tokens))
        (tokens_per_factor (length tokens) (mtld_factors (reverse tokens)))

-- The sum over `i in range(...)` of the types in the window at `i`; the first argument counts the
-- windows that are left.
unfoldable pub window_types : ℕ → ℕ → List Word → ℕ
window_types zero window_size tokens = 0
window_types (suc windows) window_size [] = 0
window_types (suc windows) window_size (token ∷ tokens) =
    distinct (take window_size (token ∷ tokens)) + window_types windows window_size tokens

-- `mattr`, in thousandths.
unfoldable pub mattr : List Word → ℕ → ℕ
unfolding window_types
mattr [] window_size = 0
mattr (token ∷ tokens) window_size =
    let n = length (token ∷ tokens) in
    if leb n window_size
    then round_ratio (1000 * distinct (token ∷ tokens)) n
    else round_ratio (1000 * window_types (n - window_size + 1) window_size (token ∷ tokens))
        (window_size * (n - window_size + 1))

-- `MATTR_WINDOW`
abbrev pub mattr_window : ℕ
mattr_window = 25
