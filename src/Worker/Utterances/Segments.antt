-- ===== src/Worker/Utterances/Segments.antt =====
-- The utterances of a part (apps/worker/nlp_common.py).
use session_replica_ielt.Prelude.{
  ℕ, ◌≡◌, refl, ap, sym, ◌∙◌, false, List, [], ◌∷◌, ◌++◌, append_assoc, append-nil, Bool-cases, inl,
  inr, All, All-append,
}
use session_replica_ielt.Worker.Utterances.{
  TranscriptWord, breaks, segment_from, segment_into_utterances,
}

abbrev pub concat : List (List TranscriptWord) → List TranscriptWord
concat [] = []
concat (c ∷ cs) = c ++ concat cs

concat-snoc :
    (cs : List (List TranscriptWord)) (c : List TranscriptWord)
    → concat (cs ++ c ∷ []) ≡ concat cs ++ c
concat-snoc [] c = append-nil c
concat-snoc (x ∷ cs) c = ap (λ l. x ++ l) (concat-snoc cs c) ∙ sym (append_assoc x (concat cs) c)

segment_from-concat :
    (pause : ℕ) (prev : TranscriptWord) (cs : List (List TranscriptWord))
    (last ws : List TranscriptWord)
    → concat (segment_from pause prev cs last ws) ≡ concat cs ++ (last ++ ws)
unfolding segment_from
segment_from-concat pause prev cs last [] =
    concat-snoc cs last ∙ ap (λ l. concat cs ++ l) (sym (append-nil last))
segment_from-concat pause prev cs last (w ∷ ws) = elim (Bool-cases (breaks pause prev w)) [
  | inl new ↦ rw new (
      segment_from-concat pause w (cs ++ last ∷ []) (w ∷ []) ws
      ∙ ap (λ l. l ++ w ∷ ws) (concat-snoc cs last)
      ∙ append_assoc (concat cs) last (w ∷ ws))
  | inr old ↦ rw old (
      segment_from-concat pause w cs (last ++ w ∷ []) ws
      ∙ ap (λ l. concat cs ++ l) (append_assoc last (w ∷ []) ws))
]

-- The utterances are the words: none is lost, repeated or moved.
pub segment_into_utterances-concat :
    (pause : ℕ) (ws : List TranscriptWord) → concat (segment_into_utterances pause ws) ≡ ws
unfolding segment_into_utterances
segment_into_utterances-concat pause [] = refl
segment_into_utterances-concat pause (w ∷ ws) = segment_from-concat pause w [] (w ∷ []) ws

-- A run of words, one at least, without a break between neighbours.
abbrev pub Unbroken : ℕ → List TranscriptWord → Type 0
Unbroken pause [] = ⊥
Unbroken pause (x ∷ []) = Unit
Unbroken pause (x ∷ y ∷ ws) = (breaks pause x y ≡ false) × Unbroken pause (y ∷ ws)

-- A run that ends with a word.
abbrev EndsWith : TranscriptWord → List TranscriptWord → Type 0
EndsWith w [] = ⊥
EndsWith w (x ∷ []) = x ≡ w
EndsWith w (x ∷ y ∷ ws) = EndsWith w (y ∷ ws)

Unbroken-snoc :
    (pause : ℕ) (prev w : TranscriptWord) (c : List TranscriptWord)
    → Unbroken pause c
    → EndsWith prev c
    → breaks pause prev w ≡ false
    → Unbroken pause (c ++ w ∷ [])
Unbroken-snoc pause prev w [] u e h = tt
Unbroken-snoc pause prev w (x ∷ []) u e h = (ap (λ y. breaks pause y w) e ∙ h, tt)
Unbroken-snoc pause prev w (x ∷ y ∷ ws) u e h = (u.0, Unbroken-snoc pause prev w (y ∷ ws) u.1 e h)

EndsWith-snoc : (w : TranscriptWord) (c : List TranscriptWord) → EndsWith w (c ++ w ∷ [])
EndsWith-snoc w [] = refl
EndsWith-snoc w (x ∷ []) = refl
EndsWith-snoc w (x ∷ y ∷ ws) = EndsWith-snoc w (y ∷ ws)

segment_from-Unbroken :
    (pause : ℕ) (prev : TranscriptWord) (cs : List (List TranscriptWord))
    (last ws : List TranscriptWord)
    → All (Unbroken pause) cs
    → Unbroken pause last
    → EndsWith prev last
    → All (Unbroken pause) (segment_from pause prev cs last ws)
unfolding segment_from
segment_from-Unbroken pause prev cs last [] all u e =
    All-append (Unbroken pause) cs (last ∷ []) all (u, tt)
segment_from-Unbroken pause prev cs last (w ∷ ws) all u e =
    elim (Bool-cases (breaks pause prev w)) [
      | inl new ↦ rw new (
          segment_from-Unbroken pause w (cs ++ last ∷ []) (w ∷ []) ws
            (All-append (Unbroken pause) cs (last ∷ []) all (u, tt)) tt refl)
      | inr old ↦ rw old (
          segment_from-Unbroken pause w cs (last ++ w ∷ []) ws all
            (Unbroken-snoc pause prev w last u e old) (EndsWith-snoc w last))
    ]

-- Every utterance has a word at least, and no change of turn and no long pause within it.
pub segment_into_utterances-Unbroken :
    (pause : ℕ) (ws : List TranscriptWord) → All (Unbroken pause) (segment_into_utterances pause ws)
unfolding segment_into_utterances
segment_into_utterances-Unbroken pause [] = tt
segment_into_utterances-Unbroken pause (w ∷ ws) =
    segment_from-Unbroken pause w [] (w ∷ []) ws tt tt refl
