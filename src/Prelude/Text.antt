-- ===== src/Prelude/Text.antt =====
-- Words as lists of code points, for the code that walks their characters. The case and the class
-- of a character are those of ASCII.
use Prim.Native.Char.{code}
use Prim.Native.Nat.{ℕ, ◌+◌, ◌-◌, ◌≤◌}
use Prim.Native.String.{String}
use mathlib.Core.Path.{◌≡◌, refl}
use mathlib.Core.Logic.{◌↔◌}
use mathlib.Core.Bool.{Bool, true, false, ◌&&◌, ◌||◌}
use mathlib.Core.List.{List, [], ◌∷◌, ◌++◌}
use native.Mathlib.Omega.{arith}
use session_replica_ielt.Prelude.Tests.{leb, ◌==◌, if◌then◌else◌}
use session_replica_ielt.Prelude.Lists.{any, length}

abbrev pub Word : Type 0
Word = List ℕ

abbrev pub codes : String → Word
codes String.[] = []
codes (String.◌∷◌ c s) = code c ∷ codes s

abbrev pub is_upper : ℕ → Bool
is_upper c = leb b'A' c && leb c b'Z'

abbrev pub is_lower : ℕ → Bool
is_lower c = leb b'a' c && leb c b'z'

abbrev pub is_alpha : ℕ → Bool
is_alpha c = is_upper c || is_lower c

abbrev pub to_lower : ℕ → ℕ
to_lower c = if is_upper c then c + 32 else c

abbrev pub to_upper : ℕ → ℕ
to_upper c = if is_lower c then c - 32 else c

-- `a == b`
unfoldable pub same_word : Word → Word → Bool
same_word [] [] = true
same_word [] (d ∷ b) = false
same_word (c ∷ a) [] = false
same_word (c ∷ a) (d ∷ b) = (c == d) && same_word a b

pub same_word_iff : (a b : Word) → (same_word a b ≡ true) ↔ (a ≡ b)
unfolding same_word
same_word_iff [] [] = (λ h. refl, λ h. refl)
same_word_iff [] (d ∷ b) = ground arith
same_word_iff (c ∷ a) [] = ground arith
same_word_iff (c ∷ a) (d ∷ b) = ground (arith, same_word_iff a b)

-- `w in ws`
abbrev pub is_word_in : List Word → Word → Bool
is_word_in ws w = any (λ v. same_word v w) ws

-- `len(set(ws))`, by the words that do not come again.
unfoldable pub distinct : List Word → ℕ
distinct [] = 0
distinct (w ∷ ws) = (if is_word_in ws w then 0 else 1) + distinct ws

unfoldable pub starts_with : Word → Word → Bool
starts_with [] w = true
starts_with (c ∷ p) [] = false
starts_with (c ∷ p) (d ∷ w) = (c == d) && starts_with p w

-- `part in w`
unfoldable pub occurs_in : Word → Word → Bool
unfolding starts_with
occurs_in part [] = starts_with part []
occurs_in part (c ∷ w) = starts_with part (c ∷ w) || occurs_in part w

-- `" ".join(ws)`
unfoldable pub join : List Word → Word
join [] = []
join (w ∷ []) = w
join (w ∷ v ∷ ws) = w ++ b' ' ∷ join (v ∷ ws)

pub distinct-le : (ws : List Word) → distinct ws ≤ length ws
unfolding distinct
distinct-le [] = omega arith
distinct-le (w ∷ ws) = ground (arith, distinct-le ws)

pub distinct_pos : (w : Word) (ws : List Word) → 1 ≤ distinct (w ∷ ws)
unfolding distinct
distinct_pos w [] = omega arith
distinct_pos w (v ∷ ws) = ground (arith, distinct_pos v ws)
