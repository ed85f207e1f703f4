-- ===== src/Worker/Grammar/Closure.antt =====
-- The fixed point of the T-unit heads (apps/worker/tasks/nlp/grammar.py).
use mathlib.Core.List.{Memᴰ}
use mathlib.Core.List.Memᴰ
use mathlib.Core.Logic.{∥∥₁_elim}
use mathlib.Core.Bool.{So-prop}
use session_replica_ielt.Prelude.{
  ℕ, zero, suc, ◌<◌, ◌≡◌, refl, subst, inl, inr, ◌==◌, ==_iff, Bool, true, false, not, some, List,
  [], ◌∷◌, length, select, arith, Bool-cases, ◌↔◌, length-select-lt, length-select-le,
}
use session_replica_ielt.Worker.Parse.{Token, Doc}
use session_replica_ielt.Worker.Grammar.TUnits.{
  is_root, contains, is_new_head, pass, expand, roots, t_unit_heads,
}
use session_replica_ielt.Worker.Grammar.Heads.{
  IsHead, main, coordinate, old_head, pass_grows, pass_adds, pass_closed, pass_sound,
}

-- A token that is not in the set yet.
abbrev is_out : List ℕ → Token → Bool
is_out heads t = not (contains heads t.i)

module _ (doc : Doc) where
  abbrev left : List ℕ → ℕ
  left heads = length (select (is_out heads) doc)

  pass_shrinks :
      (heads : List ℕ)
      → (pass doc doc heads false).1 ≡ true
      → left (pass doc doc heads false).0 < left heads
  pass_shrinks heads h =
      let (t, m, out, there) = pass_adds doc doc heads h in
      length-select-lt (is_out heads) (is_out (pass doc doc heads false).0) doc
        (λ u n. λ away. elim (Bool-cases (contains heads u.i)) [
          | inl here ↦ absurd (ground (arith, pass_grows doc doc heads false u.i here, away))
          | inr not_here ↦ rw not_here refl
        ])
        t m (rw out refl) (rw there refl)

  expand_returns :
      (fuel : ℕ) (heads : List ℕ)
      → left heads < fuel
      → (r : List ℕ) × (expand fuel doc heads ≡ some r)
  unfolding expand
  expand_returns zero heads h = absurd (omega arith)
  expand_returns (suc fuel) heads h = elim (Bool-cases (pass doc doc heads false).1) [
    | inl more ↦
        let (r, e) =
          expand_returns fuel (pass doc doc heads false).0
            (omega (arith, pass_shrinks heads more)) in
        (r, rw (more, expand) e)
    | inr done ↦ ((pass doc doc heads false).0, rw (done, expand) refl)
  ]

  -- The set at the end: sound, with all that it began with, and closed.
  record Closure (from heads : List ℕ) : Type 0 where
    sound : (i : ℕ) → contains heads i ≡ true → IsHead doc i
    kept : (i : ℕ) → contains from i ≡ true → contains heads i ≡ true
    closed : (t : Token) → Memᴰ t doc → is_new_head doc heads t ≡ false

  expand-Closure :
      (fuel : ℕ) (heads r : List ℕ)
      → ((i : ℕ) → contains heads i ≡ true → IsHead doc i)
      → expand fuel doc heads ≡ some r
      → Closure heads r
  unfolding expand
  expand-Closure zero heads r sound e = absurd (cc)
  expand-Closure (suc fuel) heads r sound e = elim (Bool-cases (pass doc doc heads false).1) [
    | inl more ↦
        let c =
          expand-Closure fuel (pass doc doc heads false).0 r
            (pass_sound doc doc heads false (λ t m. m) sound) (rw (more, expand) at e) in
        record {
          sound = c.sound;
          kept = λ i h. c.kept i (pass_grows doc doc heads false i h);
          closed = c.closed;
        }
    | inr done ↦
        let (same, none_new) = pass_closed doc doc heads done in
        let end : r ≡ heads = ground (arith, (rw (done, expand) at e), same) in
        rw end (record { sound = sound; kept = λ i h. h; closed = none_new })
  ]

  root_contained :
      (ts : List Token) (t : Token)
      → Memᴰ t ts
      → is_root t.dep ≡ true
      → contains (roots ts) t.i ≡ true
  root_contained [] t m h = absurd (Memᴰ.not-nil m)
  root_contained (u ∷ ts) t m h = elim (Memᴰ.cases_cons m) [
    | inl e ↦ rw (← e) (rw h (ground arith))
    | inr later ↦ ground (arith, root_contained ts t later h)
  ]

  roots_sound :
      (ts : List Token)
      → ((t : Token) → Memᴰ t ts → Memᴰ t doc)
      → (i : ℕ) → contains (roots ts) i ≡ true
      → IsHead doc i
  roots_sound [] sub i h = absurd (cc)
  roots_sound (t ∷ ts) sub i h = elim (Bool-cases (is_root t.dep)) [
    | inl r ↦ elim (Bool-cases (t.i == i)) [
      | inl same ↦ main t (sub t (Memᴰ.head refl)) r ((==_iff t.i i).0 same)
      | inr other ↦ roots_sound ts (λ u m. sub u (Memᴰ.tail m)) i (ground arith)
    ]
    | inr n ↦ roots_sound ts (λ u m. sub u (Memᴰ.tail m)) i (ground arith)
  ]

  complete :
      {heads : List ℕ}
      → Closure (roots doc) heads
      → {i : ℕ} → IsHead doc i
      → contains heads i ≡ true
  complete {heads} c (main t m r e) =
      subst (λ j. contains heads j ≡ true) e (c.kept t.i (root_contained doc t m r))
  complete {heads} c (coordinate t m j s h e) =
      subst (λ k. contains heads k ≡ true) e
        (old_head doc heads t (c.closed t m) j s (complete c h))

-- The loop ends, and the set holds exactly the positions of the roots and of the conjuncts with a
-- subject of their own whose head is in the set.
pub t_unit_heads_iff :
    (doc : Doc)
    → (heads : List ℕ) × (t_unit_heads doc ≡ some heads)
      × ((i : ℕ) → (contains heads i ≡ true) ↔ ∥ IsHead doc i ∥₁)
unfolding t_unit_heads
t_unit_heads_iff doc =
    let (heads, e) =
      expand_returns doc (suc (length doc)) (roots doc)
        (omega (arith, length-select-le (is_out (roots doc)) doc)) in
    let c =
      expand-Closure doc (suc (length doc)) (roots doc) heads (roots_sound doc doc (λ t m. m)) e in
    (heads, e, λ i. (λ h. ∣ c.sound i h ∣₁, λ h. ∥∥₁_elim h (So-prop _) (complete doc c)))
