-- ===== src/Prelude/Dict.antt =====
-- Python dicts with text keys, as association lists in insertion order.
use Prim.Native.String.{String}
use mathlib.Core.Path.{◌≡◌, refl}
use mathlib.Core.List.{List, [], ◌∷◌}
use mathlib.Core.Option.{Option, none, some}
use native.Mathlib.Omega.{arith}
use text.Mathlib.Text.{◌==◌ as str_eq}
use text.Mathlib.TextEquality.{eq_iff}
use session_replica_ielt.Prelude.Tests.{if◌then◌else◌}

abbrev pub Dict {ℓ} : Type ℓ → Type ℓ
Dict V = List (String × V)

module _ {ℓ} {V : Type ℓ} where
  -- `d.get(k)`
  unfoldable pub lookup : String → Dict V → Option V
  lookup k [] = none
  lookup k ((j, v) ∷ d) = if str_eq j k then some v else lookup k d

  -- `d[k] = v`
  unfoldable pub insert : String → V → Dict V → Dict V
  insert k v [] = (k, v) ∷ []
  insert k v ((j, w) ∷ d) = if str_eq j k then (k, v) ∷ d else (j, w) ∷ insert k v d

  -- `{**d, **e}`
  unfoldable pub merge : Dict V → Dict V → Dict V
  merge d [] = d
  merge d ((k, v) ∷ e) = merge (insert k v d) e

  pub lookup-insert :
      (k j : String) (v : V) (d : Dict V)
      → lookup j (insert k v d) ≡ (if str_eq k j then some v else lookup j d)
  unfolding lookup insert
  lookup-insert k j v [] = refl
  lookup-insert k j v ((i, w) ∷ d) =
      ground (arith, eq_iff k j, eq_iff i k, eq_iff i j, lookup-insert k j v d)

  -- A key that the second dict does not have keeps its value.
  pub lookup-merge :
      (k : String) (d e : Dict V) → lookup k e ≡ none → lookup k (merge d e) ≡ lookup k d
  unfolding lookup merge
  lookup-merge k d [] h = refl
  lookup-merge k d ((j, v) ∷ e) h =
      ground (arith, lookup-merge k (insert j v d) e, lookup-insert j k v d)
