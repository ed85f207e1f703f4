-- ===== src/Worker/Grammar/Heads.antt =====
-- Which tokens head a T-unit (apps/worker/tasks/nlp/grammar.py).
use mathlib.Core.List.{Memᴰ}
use mathlib.Core.List.Memᴰ
use session_replica_ielt.Prelude.{
  ℕ, ◌≡◌, refl, inl, inr, ◌==◌, ==_iff, Bool, true, false, List, [], ◌∷◌, arith, Bool-cases,
}
use session_replica_ielt.Worker.Parse.{Token, Doc}
use session_replica_ielt.Worker.Grammar.TUnits.{
  is_root, is_conj, contains, has_subject, is_new_head, pass,
}

-- A root heads a T-unit; so does a conjunct, with a subject of its own, of a token that does.
pub data IsHead (doc : Doc) : ℕ → Type 0 where
  main : {i : ℕ} (t : Token) → Memᴰ t doc → is_root t.dep ≡ true → t.i ≡ i → IsHead doc i
  coordinate :
      {i : ℕ} (t : Token)
      → Memᴰ t doc
      → is_conj t.dep ≡ true
      → has_subject doc t ≡ true
      → IsHead doc t.head
      → t.i ≡ i
      → IsHead doc i

record NewHead (doc : Doc) (heads : List ℕ) (t : Token) : Type 0 where
  conj : is_conj t.dep ≡ true
  attached : contains heads t.head ≡ true
  fresh : contains heads t.i ≡ false
  subject : has_subject doc t ≡ true

new_head :
    (doc : Doc) (heads : List ℕ) (t : Token) → is_new_head doc heads t ≡ true → NewHead doc heads t
unfolding is_new_head
new_head doc heads t h = ground arith

pub old_head :
    (doc : Doc) (heads : List ℕ) (t : Token)
    → is_new_head doc heads t ≡ false
    → is_conj t.dep ≡ true
    → has_subject doc t ≡ true
    → contains heads t.head ≡ true
    → contains heads t.i ≡ true
unfolding is_new_head
old_head doc heads t h c s a = ground arith

module _ (doc : Doc) where
  pub pass_grows :
      (ts : List Token) (heads : List ℕ) (b : Bool) (i : ℕ)
      → contains heads i ≡ true
      → contains (pass doc ts heads b).0 i ≡ true
  unfolding pass
  pass_grows [] heads b i h = h
  pass_grows (t ∷ ts) heads b i h = elim (Bool-cases (is_new_head doc heads t)) [
    | inl new ↦ rw (new, pass) (pass_grows ts (t.i ∷ heads) _ i (ground arith))
    | inr old ↦ rw (old, pass) (pass_grows ts heads _ i h)
  ]

  pass_changed : (ts : List Token) (heads : List ℕ) → (pass doc ts heads true).1 ≡ true
  unfolding pass
  pass_changed [] heads = refl
  pass_changed (t ∷ ts) heads = elim (Bool-cases (is_new_head doc heads t)) [
    | inl new ↦ rw (new, pass) (pass_changed ts (t.i ∷ heads))
    | inr old ↦ rw (old, pass) (pass_changed ts heads)
  ]

  -- A pass that changed the set added a token of the document.
  pub pass_adds :
      (ts : List Token) (heads : List ℕ)
      → (pass doc ts heads false).1 ≡ true
      → (t : Token) × Memᴰ t ts
        × (contains heads t.i ≡ false)
        × (contains (pass doc ts heads false).0 t.i ≡ true)
  unfolding pass
  pass_adds [] heads h = absurd (cc)
  pass_adds (t ∷ ts) heads h = elim (Bool-cases (is_new_head doc heads t)) [
    | inl new ↦
        rw (new, pass)
          (
            t,
            Memᴰ.head refl,
            (new_head doc heads t new).fresh,
            pass_grows ts (t.i ∷ heads) true t.i (ground arith),
          )
    | inr old ↦
        let (u, m, out, there) = pass_adds ts heads (rw (old, pass) at h) in
        rw (old, pass) (u, Memᴰ.tail m, out, there)
  ]

  -- A pass that changed nothing found no new head.
  pub pass_closed :
      (ts : List Token) (heads : List ℕ)
      → (pass doc ts heads false).1 ≡ false
      → ((pass doc ts heads false).0 ≡ heads)
        × ((t : Token) → Memᴰ t ts → is_new_head doc heads t ≡ false)
  unfolding pass
  pass_closed [] heads h = (refl, λ t m. absurd (Memᴰ.not-nil m))
  pass_closed (t ∷ ts) heads h = elim (Bool-cases (is_new_head doc heads t)) [
    | inl new ↦ absurd (cc (pass_changed ts (t.i ∷ heads), (rw (new, pass) at h)))
    | inr old ↦
        let (same, none_new) = pass_closed ts heads (rw (old, pass) at h) in
        rw (old, pass)
          (
            same,
            λ u m. elim (Memᴰ.cases_cons m) [ inl e ↦ rw e old | inr later ↦ none_new u later ],
          )
  ]

  pub pass_sound :
      (ts : List Token) (heads : List ℕ) (b : Bool)
      → ((t : Token) → Memᴰ t ts → Memᴰ t doc)
      → ((i : ℕ) → contains heads i ≡ true → IsHead doc i)
      → (i : ℕ) → contains (pass doc ts heads b).0 i ≡ true
      → IsHead doc i
  unfolding pass
  pass_sound [] heads b sub all i h = all i h
  pass_sound (t ∷ ts) heads b sub all i there = elim (Bool-cases (is_new_head doc heads t)) [
    | inl new ↦
        let n = new_head doc heads t new in
        (pass_sound ts (t.i ∷ heads) _ (λ u m. sub u (Memᴰ.tail m))
          (λ j h. elim (Bool-cases (t.i == j)) [
            | inl same ↦
                coordinate t (sub t (Memᴰ.head refl)) n.conj n.subject (all t.head n.attached)
                  ((==_iff t.i j).0 same)
            | inr other ↦ all j (ground arith)
          ])
          i (rw (new, pass) at there))
    | inr old ↦ pass_sound ts heads _ (λ u m. sub u (Memᴰ.tail m)) all i (rw (old, pass) at there)
  ]
