-- ===== src/Gateway/Content.antt =====
-- apps/api-gateway/app/services/exam_content.py: the choice of a cue card and of the topic sets.
-- `random.choice` is a draw: any number, reduced to an index of the list.
pub mod Choices
use session_replica_ielt.Prelude.{
  ℕ, suc, ◌%◌, String, Bool, true, false, not, ◌&&◌, Option, none, some, List, [], ◌∷◌, ◌++◌, ◌==◌,
  str_eq, if◌then◌else◌, length, get_elem?, select, any, map,
}
use session_replica_ielt.Prelude.Dict.{Dict, insert}
use session_replica_ielt.Gateway.Exceptions.{Result, ok, err, runtime_error, ◌>>=◌}
use session_replica_ielt.Gateway.Tables.{CueCard, TopicSet, Candidate}

-- `random.choice(xs)`; `none` is its IndexError on an empty list.
unfoldable pub choice {ℓ} : {A : Type ℓ} → ℕ → List A → Option A
choice draw xs = get_elem? xs (draw % length xs)

abbrev pub chosen {ℓ} : {A : Type ℓ} → Option A → Result A
chosen none = err runtime_error
chosen (some a) = ok a

-- `select_cue_card`
unfoldable pub select_cue_card : ℕ → List CueCard → Result CueCard
unfolding choice
select_cue_card draw cue_cards = chosen (choice draw (select (λ c. c.active) cue_cards))

abbrev pub in_slot : String → TopicSet → Bool
in_slot slot t = str_eq t.slot slot && t.active

abbrev pub is_in : List ℕ → ℕ → Bool
is_in xs a = any (λ x. x == a) xs

-- `unused or options`
abbrev pub or_else {ℓ} : {A : Type ℓ} → List A → List A → List A
or_else [] ys = ys
or_else (x ∷ xs) ys = x ∷ xs

-- One round of the loop of `assign_topic_sets`.
unfoldable pub choose_topic_set : ℕ → List ℕ → List TopicSet → String → Result TopicSet
unfolding choice
choose_topic_set draw previously_used topic_sets slot =
    let options = select (in_slot slot) topic_sets in
    let unused = select (λ t. not (is_in previously_used t.id)) options in
    chosen (choice draw (or_else unused options))

abbrev pub slots : List String
slots = "A" ∷ "B" ∷ "C" ∷ []

-- The loop over the slots; a draw for each.
unfoldable pub assign_from :
    (ℕ → ℕ) → ℕ → List ℕ → List TopicSet → List String → Dict TopicSet → Result (Dict TopicSet)
unfolding choose_topic_set insert
assign_from random drawn previously_used topic_sets [] assigned = ok assigned
assign_from random drawn previously_used topic_sets (slot ∷ more) assigned =
    choose_topic_set (random drawn) previously_used topic_sets slot >>= λ t.
    assign_from random (suc drawn) previously_used topic_sets more (insert slot t assigned)

abbrev pub values {ℓ} : {V : Type ℓ} → Dict V → List V
values d = map (λ e. e.1) d

-- `assign_topic_sets`: the assignment, and the candidate with the longer history.
unfoldable pub assign_topic_sets :
    (ℕ → ℕ) → ℕ → Candidate → List TopicSet → Result (Dict TopicSet × Candidate)
unfolding assign_from
assign_topic_sets random drawn candidate topic_sets =
    assign_from random drawn candidate.previous_topic_sets topic_sets slots [] >>= λ assigned. ok (
      assigned,
      record candidate {
        previous_topic_sets = candidate.previous_topic_sets ++ map (λ t. t.id) (values assigned);
      },
    )

-- `topic_set_ids_payload`
unfoldable pub topic_set_ids_payload : Dict TopicSet → Dict ℕ
topic_set_ids_payload assigned = map (λ e. (e.0, e.1.id)) assigned
