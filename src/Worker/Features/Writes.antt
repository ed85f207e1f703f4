-- ===== src/Worker/Features/Writes.antt =====
-- The vectors that a feature task leaves (apps/worker/tasks/nlp, apps/worker/feature_vectors.py).
use session_replica_ielt.Prelude.{
  ℕ, ◌≡◌, refl, ◌∙◌, inl, inr, ◌==◌, String, Bool, true, false, ◌&&◌, Option, some, List, [], ◌∷◌,
  ◌++◌, arith, Option-cases,
}
use session_replica_ielt.Worker.Judge.{Criterion, same_criterion}
use session_replica_ielt.Worker.Utterances
use session_replica_ielt.Worker.Utterances.{Bucket, TranscriptWord}
use session_replica_ielt.Worker.Scoring.{
  Scope, part, session, FeatureVector, find_vector, write_feature_vector,
}
use session_replica_ielt.Worker.Features.{
  write_scope, and_then, write_parts, compute_metrics, bucket_order,
}
use session_replica_ielt.Worker.Features.Vectors.{
  same_key, find_vector-write, find-same, find-other,
}

write_scope-some :
    (s : ℕ) (c : Criterion) (metrics : List TranscriptWord → Option String) (p : Scope)
    (words : List TranscriptWord) (table : List FeatureVector) {features : String}
    → metrics words ≡ some features
    → write_scope s c metrics p words table ≡ (true, write_feature_vector s c p features table)
unfolding write_scope
write_scope-some s c metrics p words table e = rw (e, write_scope) refl

write_scope-others :
    (s : ℕ) (c : Criterion) (metrics : List TranscriptWord → Option String) (p : Scope)
    (words : List TranscriptWord) (table : List FeatureVector) (s' : ℕ) (c' : Criterion)
    (p' : Scope)
    → ((s == s') && same_criterion c c') ≡ false
    → find_vector s' c' p' (write_scope s c metrics p words table).1 ≡ find_vector s' c' p' table
unfolding write_scope
write_scope-others s c metrics p words table s' c' p' other = elim (Option-cases (metrics words)) [
  | inl raised ↦ rw (raised, write_scope) refl
  | inr (features, e) ↦
      rw (e, write_scope)
        (find_vector-write s c p features s' c' p' table
          ∙ (let apart : same_key (s, c, p) (s', c', p') ≡ false = ground (arith, other) in
              rw apart refl))
]

and_then-others :
    (s' : ℕ) (c' : Criterion) (p' : Scope) (r : Bool × List FeatureVector)
    (k : List FeatureVector → Bool × List FeatureVector)
    → ((t : List FeatureVector) → find_vector s' c' p' (k t).1 ≡ find_vector s' c' p' t)
    → find_vector s' c' p' (and_then r k).1 ≡ find_vector s' c' p' r.1
and_then-others s' c' p' (true, t) k h = h t
and_then-others s' c' p' (false, t) k h = refl

write_parts-others :
    (s : ℕ) (c : Criterion) (metrics : List TranscriptWord → Option String)
    (words : Bucket → List TranscriptWord) (session_words : List TranscriptWord) (bs : List Bucket)
    (table : List FeatureVector) (s' : ℕ) (c' : Criterion) (p' : Scope)
    → ((s == s') && same_criterion c c') ≡ false
    → find_vector s' c' p' (write_parts s c metrics words session_words bs table).1
      ≡ find_vector s' c' p' table
unfolding write_parts
write_parts-others s c metrics words session_words [] table s' c' p' other =
    write_scope-others s c metrics session session_words table s' c' p' other
write_parts-others s c metrics words session_words (b ∷ bs) table s' c' p' other =
    and_then-others s' c' p' (write_scope s c metrics (part b) (words b) table)
      (write_parts s c metrics words (session_words ++ words b) bs)
      (λ t. write_parts-others s c metrics words (session_words ++ words b) bs t s' c' p' other)
    ∙ write_scope-others s c metrics (part b) (words b) table s' c' p' other

-- An attempt at a feature task, also one that raises, leaves the vectors of the other sessions and
-- of the other criteria as they were.
pub compute_metrics_others :
    (s : ℕ) (c : Criterion) (metrics : List TranscriptWord → Option String)
    (words : Bucket → List TranscriptWord) (table : List FeatureVector) (s' : ℕ) (c' : Criterion)
    → ((s == s') && same_criterion c c') ≡ false
    → (p : Scope)
    → find_vector s' c' p (compute_metrics s c metrics words table).1 ≡ find_vector s' c' p table
unfolding compute_metrics
compute_metrics_others s c metrics words table s' c' other p =
    write_parts-others s c metrics words [] bucket_order table s' c' p other

-- The words of the three parts, in order.
abbrev pub session_words : (Bucket → List TranscriptWord) → List TranscriptWord
session_words words = words Utterances.part1 ++ words Utterances.part2 ++ words Utterances.part3

-- The vectors of the three parts, and then that of the session.
abbrev pub write_four :
    ℕ → Criterion → (Bucket → String) → String → List FeatureVector → List FeatureVector
write_four s c f g table = write_feature_vector s c session g (
    write_feature_vector s c (part Utterances.part3) (f Utterances.part3) (
      write_feature_vector s c (part Utterances.part2) (f Utterances.part2)
        (write_feature_vector s c (part Utterances.part1) (f Utterances.part1) table)))

module _ (s : ℕ) (c : Criterion) (f : Bucket → String) (g : String)
    (table : List FeatureVector) where
  abbrev final : List FeatureVector
  final = write_four s c f g table

  pub find-part : (b : Bucket) → find_vector s c (part b) final ≡ some (f b)
  find-part Utterances.part1 =
      find-other s c session (part Utterances.part1) g _ refl
      ∙ find-other s c (part Utterances.part3) (part Utterances.part1) (f Utterances.part3) _ refl
      ∙ find-other s c (part Utterances.part2) (part Utterances.part1) (f Utterances.part2) _ refl
      ∙ find-same s c (part Utterances.part1) (f Utterances.part1) table
  find-part Utterances.part2 =
      find-other s c session (part Utterances.part2) g _ refl
      ∙ find-other s c (part Utterances.part3) (part Utterances.part2) (f Utterances.part3) _ refl
      ∙ find-same s c (part Utterances.part2) (f Utterances.part2) _
  find-part Utterances.part3 =
      find-other s c session (part Utterances.part3) g _ refl
      ∙ find-same s c (part Utterances.part3) (f Utterances.part3) _

  pub find-session : find_vector s c session final ≡ some g
  find-session = find-same s c session g _

module _ (s : ℕ) (c : Criterion) (metrics : List TranscriptWord → Option String)
    (words : Bucket → List TranscriptWord) (table : List FeatureVector) (f : Bucket → String)
    (g : String) (parts : (b : Bucket) → metrics (words b) ≡ some (f b))
    (whole : metrics (session_words words) ≡ some g) where
  computed : compute_metrics s c metrics words table ≡ (true, write_four s c f g table)
  unfolding compute_metrics write_parts
  computed =
      rw
        (
          write_scope-some s c metrics (part Utterances.part1) (words Utterances.part1) _
              (parts Utterances.part1),
          write_scope-some s c metrics (part Utterances.part2) (words Utterances.part2) _
              (parts Utterances.part2),
          write_scope-some s c metrics (part Utterances.part3) (words Utterances.part3) _
              (parts Utterances.part3),
          write_scope-some s c metrics session (session_words words) _ whole,
        )
        refl

  -- If the metrics of the parts and of the session are computed, the task returns and the table
  -- holds all four, whatever an earlier attempt left in it.
  pub compute_metrics_writes :
      let (returned, after) = compute_metrics s c metrics words table in
      (returned ≡ true)
      × ((b : Bucket) → find_vector s c (part b) after ≡ some (f b))
      × (find_vector s c session after ≡ some g)
  compute_metrics_writes = rw computed (refl, find-part s c f g table, find-session s c f g table)
