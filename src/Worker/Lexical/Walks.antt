-- ===== src/Worker/Lexical/Walks.antt =====
-- The factors of MTLD, apps/worker/tasks/nlp/lexical.py.
use session_replica_ielt.Prelude.{
  ℕ, ◌+◌, ◌*◌, ◌-◌, ltb, if◌then◌else◌, ◌≡◌, refl, sym, ap, ◌∙◌, inl, inr, true, false, List, [],
  ◌∷◌, ◌++◌, length, All, All-append, append_assoc, append-nil, length-append, arith, Bool-cases,
}
use session_replica_ielt.Prelude.Text.{Word}
use session_replica_ielt.Worker.Lexical.Diversity.{
  Walk, add_type, is_factor, see, walk_token, walk_from, no_walk, factors_of, mtld_factors,
}

abbrev pub concat : List (List Word) → List Word
concat [] = []
concat (s ∷ ss) = s ++ concat ss

-- The types of a segment, after those that were there.
abbrev pub seen : List Word → List Word → List Word
seen types [] = types
seen types (t ∷ ts) = seen (add_type types t) ts

-- After `n` tokens of `types`, the ratio stays above the threshold through these tokens.
abbrev pub Stays : List Word → ℕ → List Word → Type 0
Stays types n [] = Unit
Stays types n (t ∷ ts) =
    (is_factor (length (add_type types t)) (n + 1) ≡ false) × Stays (add_type types t) (n + 1) ts

-- It drops to the threshold at the last of these tokens, and not before.
abbrev pub Drops : List Word → ℕ → List Word → Type 0
Drops types n [] = ⊥
Drops types n (t ∷ []) = is_factor (length (add_type types t)) (n + 1) ≡ true
Drops types n (t ∷ u ∷ ts) =
    (is_factor (length (add_type types t)) (n + 1) ≡ false)
    × Drops (add_type types t) (n + 1) (u ∷ ts)

seen-snoc :
    (types run : List Word) (t : Word) → seen types (run ++ t ∷ []) ≡ add_type (seen types run) t
seen-snoc types [] t = refl
seen-snoc types (u ∷ run) t = seen-snoc (add_type types u) run t

Stays-snoc :
    (types : List Word) (n : ℕ) (run : List Word) (t : Word)
    → Stays types n run
    → is_factor (length (add_type (seen types run) t)) (n + length run + 1) ≡ false
    → Stays types n (run ++ t ∷ [])
Stays-snoc types n [] t s h = (ground (arith, h), tt)
Stays-snoc types n (u ∷ run) t s h =
    (s.0, Stays-snoc (add_type types u) (n + 1) run t s.1 (ground (arith, h)))

Drops-snoc :
    (types : List Word) (n : ℕ) (run : List Word) (t : Word)
    → Stays types n run
    → is_factor (length (add_type (seen types run) t)) (n + length run + 1) ≡ true
    → Drops types n (run ++ t ∷ [])
Drops-snoc types n [] t s h = ground (arith, h)
Drops-snoc types n (u ∷ []) t s h =
    (s.0, Drops-snoc (add_type types u) (n + 1) [] t s.1 (ground (arith, h)))
Drops-snoc types n (u ∷ v ∷ run) t s h =
    (s.0, Drops-snoc (add_type types u) (n + 1) (v ∷ run) t s.1 (ground (arith, h)))

-- The tokens that a walk has passed, as factors and an open segment.
pub record Segmented (tokens : List Word) (w : Walk) : Type 0 where
  pub factors : List (List Word)
  pub rest : List Word
  pub joined : concat factors ++ rest ≡ tokens
  pub dropped : All (Drops [] 0) factors
  pub stays : Stays [] 0 rest
  pub counted : length factors ≡ w.factor_count
  pub types : w.types ≡ seen [] rest
  pub count : w.token_count ≡ length rest

concat-snoc : (ss : List (List Word)) (s : List Word) → concat (ss ++ s ∷ []) ≡ concat ss ++ s
concat-snoc [] s = append-nil s
concat-snoc (x ∷ ss) s = ap (λ l. x ++ l) (concat-snoc ss s) ∙ sym (append_assoc x (concat ss) s)

same_test :
    (w : Walk) (t : Word) (types : List Word) (n : ℕ)
    → w.types ≡ types
    → w.token_count ≡ n
    → is_factor (length (add_type types t)) (0 + n + 1)
      ≡ is_factor (length (see t w).types) (see t w).token_count
same_test w t types n p q =
    rw (← p, ← q)
      (ap (λ m. is_factor (length (add_type w.types t)) m)
        (let e : 0 + w.token_count + 1 ≡ w.token_count + 1 = omega arith in e))

Segmented-token :
    (before : List Word) (w : Walk) (t : Word)
    → Segmented before w
    → Segmented (before ++ t ∷ []) (walk_token t w)
unfolding walk_token
Segmented-token before w t s =
    elim (Bool-cases (is_factor (length (see t w).types) (see t w).token_count)) [
      | inl full ↦ rw full (record {
        factors = s.factors ++ (s.rest ++ t ∷ []) ∷ [];
        rest = [];
        joined =
            append-nil _
            ∙ concat-snoc s.factors (s.rest ++ t ∷ [])
            ∙ sym (append_assoc (concat s.factors) s.rest (t ∷ []))
            ∙ ap (λ l. l ++ t ∷ []) s.joined;
        dropped = All-append (Drops [] 0) s.factors _ s.dropped (
          Drops-snoc [] 0 s.rest t s.stays
              (same_test w t (seen [] s.rest) (length s.rest) s.types s.count ∙ full),
          tt,
        );
        stays = tt;
        counted = omega (arith, length-append s.factors ((s.rest ++ t ∷ []) ∷ []), s.counted);
        types = refl;
        count = refl;
      })
      | inr more ↦ rw more (record {
        factors = s.factors;
        rest = s.rest ++ t ∷ [];
        joined =
            sym (append_assoc (concat s.factors) s.rest (t ∷ [])) ∙ ap (λ l. l ++ t ∷ []) s.joined;
        dropped = s.dropped;
        stays =
            Stays-snoc [] 0 s.rest t s.stays
              (same_test w t (seen [] s.rest) (length s.rest) s.types s.count ∙ more);
        counted = s.counted;
        types = ap (λ l. add_type l t) s.types ∙ sym (seen-snoc [] s.rest t);
        count = omega (arith, s.count, length-append s.rest (t ∷ []));
      })
    ]

Segmented-walk :
    (before tokens : List Word) (w : Walk)
    → Segmented before w
    → Segmented (before ++ tokens) (walk_from w tokens)
unfolding walk_from
Segmented-walk before [] w s = rw (append-nil before) s
Segmented-walk before (t ∷ tokens) w s =
    rw (← append_assoc before (t ∷ []) tokens)
      (Segmented-walk (before ++ t ∷ []) tokens (walk_token t w) (Segmented-token before w t s))

pub Segmented-tokens : (tokens : List Word) → Segmented tokens (walk_from no_walk tokens)
Segmented-tokens tokens = Segmented-walk [] tokens no_walk (record {
  factors = [];
  rest = [];
  joined = refl;
  dropped = tt;
  stays = tt;
  counted = refl;
  types = refl;
  count = refl;
})

walk_eq :
    {w : Walk} {n m : ℕ} {types : List Word}
    → n ≡ w.factor_count
    → w.types ≡ types
    → w.token_count ≡ m
    → w ≡ record { factor_count = n; types = types; token_count = m }
walk_eq p q r = ground (arith, p, q, r)

-- The factors with a rest, as a quotient.
factors_of-ratio :
    (n : ℕ) (rest : List Word)
    → let f =
        factors_of (record { factor_count = n; types = seen [] rest; token_count = length rest }) in
      (f.num ≡ n * f.den + 25 * (length rest - length (seen [] rest)))
      × (f.den ≡ (if ltb 0 (length rest) then 7 * length rest else 1))
unfolding factors_of
factors_of-ratio n [] = (ground arith, refl)
factors_of-ratio n (w ∷ rest) = (ground arith, ground arith)

-- The tokens are a number of segments, each of which drops to the threshold at its last token and
-- not before, and a rest that stays above it; the value is the number of the segments plus, for a
-- rest of n tokens of k types, 25 (n - k) / 7 n.
pub mtld_factors_segments :
    (tokens : List Word)
    → (factors : List (List Word)) × (rest : List Word) × (concat factors ++ rest ≡ tokens)
      × All (Drops [] 0) factors
      × Stays [] 0 rest
      × (mtld_factors tokens
          ≡ factors_of (record {
            factor_count = length factors;
            types = seen [] rest;
            token_count = length rest;
          }))
      × ((mtld_factors tokens).num
          ≡ length factors * (mtld_factors tokens).den + 25 * (length rest - length (seen [] rest)))
      × ((mtld_factors tokens).den ≡ (if ltb 0 (length rest) then 7 * length rest else 1))
unfolding mtld_factors
mtld_factors_segments tokens =
    let s = Segmented-tokens tokens in
    let whole = ap factors_of (walk_eq s.counted s.types s.count) in
    let ratio = factors_of-ratio (length s.factors) s.rest in
    (s.factors, s.rest, s.joined, s.dropped, s.stays, whole, rw whole ratio.0, rw whole ratio.1)
