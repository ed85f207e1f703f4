-- ===== src/Gateway/Content/Choices.antt =====
-- What apps/api-gateway/app/services/exam_content.py chooses.
use session_replica_ielt.Prelude.{
  ℕ, zero, suc, ◌<◌, ◌%◌, String, ◌≡◌, ◌≢◌, refl, ◌⊎◌, inl, inr, Bool, true, not, Option, none,
  some, List, [], ◌∷◌, ◌++◌, arith, length, get_elem?, ap, select, All, All-select, All-select_of,
  All-get_elem?,
}
use session_replica_ielt.Prelude.Dict.{Dict, insert}
use session_replica_ielt.Gateway.Exceptions.{ok, Result-cases}
use session_replica_ielt.Gateway.Tables.{CueCard, TopicSet, Candidate}
use session_replica_ielt.Gateway.Content.{
  choice, chosen, select_cue_card, in_slot, is_in, or_else, choose_topic_set, assign_from,
  assign_topic_sets,
}

module _ {ℓ} {A : Type ℓ} where
  get_elem?-lt : (xs : List A) (i : ℕ) → i < length xs → (a : A) × (get_elem? xs i ≡ some a)
  get_elem?-lt [] i h = absurd (omega arith)
  get_elem?-lt (x ∷ xs) zero h = (x, refl)
  get_elem?-lt (x ∷ xs) (suc i) h = get_elem?-lt xs i (omega arith)

  -- A choice from a list that is not empty succeeds.
  pub choice-some : (draw : ℕ) (xs : List A) → xs ≢ [] → (a : A) × (choice draw xs ≡ some a)
  unfolding choice
  choice-some draw [] h = absurd (h refl)
  choice-some draw (x ∷ xs) h = get_elem?-lt (x ∷ xs) (draw % length (x ∷ xs)) (grind arith)

  -- What is chosen from the elements that pass a test passes it.
  pub choice-select :
      (draw : ℕ) (p : A → Bool) (xs : List A) {a : A}
      → choice draw (select p xs) ≡ some a
      → p a ≡ true
  unfolding choice
  choice-select draw p xs h =
      All-get_elem? (λ a. p a ≡ true) (select p xs) (draw % length (select p xs)) (All-select p xs)
        h

chosen-some {ℓ} : {A : Type ℓ} (o : Option A) {a : A} → chosen o ≡ ok a → o ≡ some a
chosen-some none h = absurd (cc)
chosen-some (some b) h = ground arith

-- The card is active; the only failure is that no card is.
pub select_cue_card-active :
    (draw : ℕ) (cards : List CueCard) {c : CueCard}
    → select_cue_card draw cards ≡ ok c
    → c.active ≡ true
unfolding select_cue_card
select_cue_card-active draw cards h = choice-select draw (λ c. c.active) cards (chosen-some _ h)

module _ {ℓ} {A : Type ℓ} (P Q : A → Type 0) (draw : ℕ) where
  choice-or_else :
      (us os : List A) {t : A}
      → All P os
      → All P us
      → All Q us
      → choice draw (or_else us os) ≡ some t
      → P t × (Q t ⊎ us ≡ [])
  unfolding choice
  choice-or_else [] os ps pu qu h = (All-get_elem? P os (draw % length os) ps h, inr refl)
  choice-or_else (u ∷ us) os ps pu qu h =
      let i = draw % length (u ∷ us) in
      (All-get_elem? P (u ∷ us) i pu h, inl (All-get_elem? Q (u ∷ us) i qu h))

-- The active sets of a slot, and those of them that the candidate has not had.
abbrev pub options : List TopicSet → String → List TopicSet
options sets slot = select (in_slot slot) sets

abbrev pub unused : List ℕ → List TopicSet → String → List TopicSet
unused used sets slot = select (λ t. not (is_in used t.id)) (options sets slot)

abbrev pub Fits : List ℕ → List TopicSet → String → TopicSet → Type 0
Fits used sets slot t =
    (in_slot slot t ≡ true) × ((not (is_in used t.id) ≡ true) ⊎ (unused used sets slot ≡ []))

-- The set is active and of the slot, and repeats an earlier one only if all were used.
pub choose_topic_set-Fits :
    (draw : ℕ) (used : List ℕ) (sets : List TopicSet) (slot : String) {t : TopicSet}
    → choose_topic_set draw used sets slot ≡ ok t
    → Fits used sets slot t
unfolding choose_topic_set
choose_topic_set-Fits draw used sets slot h =
    let q = λ (t : TopicSet). not (is_in used t.id) in
    choice-or_else (λ t. in_slot slot t ≡ true) (λ t. q t ≡ true) draw (unused used sets slot)
      (options sets slot) (All-select (in_slot slot) sets)
      (All-select_of (λ t. in_slot slot t ≡ true) q (options sets slot)
        (All-select (in_slot slot) sets))
      (All-select q (options sets slot)) (chosen-some _ h)

or_else-nil {ℓ} : {A : Type ℓ} (us os : List A) → os ≢ [] → or_else us os ≢ []
or_else-nil [] os h = h
or_else-nil (u ∷ us) os h = λ e. cc

-- It fails exactly where the slot has no active set.
pub choose_topic_set-ok :
    (draw : ℕ) (used : List ℕ) (sets : List TopicSet) (slot : String)
    → options sets slot ≢ []
    → (t : TopicSet) × (choose_topic_set draw used sets slot ≡ ok t)
unfolding choose_topic_set
choose_topic_set-ok draw used sets slot h =
    let (t, e) =
      choice-some draw (or_else (unused used sets slot) (options sets slot)) (or_else-nil _ _ h) in
    (t, ap chosen e)

-- One topic set for each of the slots A, B and C, each active, of its slot, and new to the
-- candidate where the slot has one that is; their ids go to the end of the candidate's history.
pub assign_topic_sets-Fits :
    (random : ℕ → ℕ) (drawn : ℕ) (c : Candidate) (sets : List TopicSet) {d : Dict TopicSet}
    {c' : Candidate}
    → assign_topic_sets random drawn c sets ≡ ok (d, c')
    → let used = c.previous_topic_sets in
      (a : TopicSet) × (b : TopicSet) × (e : TopicSet) × (d ≡ ("A", a) ∷ ("B", b) ∷ ("C", e) ∷ [])
      × Fits used sets "A" a
      × Fits used sets "B" b
      × Fits used sets "C" e
      × (c' ≡ record c { previous_topic_sets = used ++ a.id ∷ b.id ∷ e.id ∷ [] })
unfolding assign_topic_sets assign_from insert
assign_topic_sets-Fits random drawn c sets h =
    elim (Result-cases (choose_topic_set (random drawn) c.previous_topic_sets sets "A")) [
      | inr (x, e) ↦ absurd (ground arith)
      | inl (a, ea) ↦
          elim (Result-cases
            (choose_topic_set (random (suc drawn)) c.previous_topic_sets sets "B")) [
              | inr (x, e) ↦ absurd (ground arith)
              | inl (b, eb) ↦
                  elim (Result-cases
                    (choose_topic_set (random (suc (suc drawn))) c.previous_topic_sets sets "C")) [
                      | inr (x, e) ↦ absurd (ground arith)
                      | inl (t, et) ↦ (
                        a,
                        b,
                        t,
                        ground arith,
                        choose_topic_set-Fits (random drawn) c.previous_topic_sets sets "A" ea,
                        choose_topic_set-Fits (random (suc drawn)) c.previous_topic_sets sets "B"
                            eb,
                        choose_topic_set-Fits (random (suc (suc drawn))) c.previous_topic_sets sets
                            "C" et,
                        ground arith,
                      )
                    ]
            ]
    ]
