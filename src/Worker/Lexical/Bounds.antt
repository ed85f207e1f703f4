-- ===== src/Worker/Lexical/Bounds.antt =====
-- The ranges of MTLD and MATTR, apps/worker/tasks/nlp/lexical.py.
use mathlib.Core.List.{reverse, reverse-cons}
use session_replica_ielt.Prelude.{
  ℕ, zero, suc, ◌+◌, ◌-◌, ◌*◌, ◌≤◌, ◌<◌, ◌≡◌, refl, ap, ◌∙◌, inl, inr, false, List, [], ◌∷◌, length,
  leb, ltb, All, length-append, arith, Bool-cases, take, round_ratio_ge, round_ratio_le, subst,
  leb→le,
}
use native.Mathlib.Nat.{mul-le-mul_right, mul-le-mul_left, mul-le-mul, mul_assoc}
use session_replica_ielt.Prelude.Text.{Word, distinct, distinct-le, distinct_pos}
use session_replica_ielt.Worker.Lexical.Diversity.{
  add_type, is_factor, Ratio, factors_of, mtld_factors, tokens_per_factor, mean_hundredths, mtld,
  window_types, mattr,
}
use session_replica_ielt.Worker.Lexical.Walks.{concat, seen, Stays, Drops, mtld_factors_segments}

Drops-length : (s : List Word) → Drops [] 0 s → 2 ≤ length s
Drops-length [] d = absurd d
Drops-length (t ∷ []) d = absurd (cc d)
Drops-length (t ∷ u ∷ s) d = omega arith

length-concat : (ss : List (List Word)) → All (Drops [] 0) ss → 2 * length ss ≤ length (concat ss)
length-concat [] all = omega arith
length-concat (s ∷ ss) all =
    omega (arith, Drops-length s all.0, length-concat ss all.1, length-append s (concat ss))

Stays-end :
    (types : List Word) (n : ℕ) (t : Word) (ts : List Word)
    → Stays types n (t ∷ ts)
    → is_factor (length (seen types (t ∷ ts))) (n + length (t ∷ ts)) ≡ false
Stays-end types n t [] s = ground (arith, s.0)
Stays-end types n t (u ∷ ts) s = ground (arith, Stays-end (add_type types t) (n + 1) u ts s.1)

length-seen-le : (types ts : List Word) → length (seen types ts) ≤ length types + length ts
length-seen-le types [] = omega arith
length-seen-le types (t ∷ ts) = ground (arith, length-seen-le (add_type types t) ts)

-- A quotient of at least `k`.
abbrev AtLeast : ℕ → Ratio → Type 0
AtLeast k r = (0 < r.den) × (k * r.den ≤ r.num)

-- At most half a factor for each token.
half_full :
    (f c types n : ℕ)
    → 2 * f + c ≤ n
    → 0 < c
    → 18 * c < 25 * types
    → types ≤ c
    → 2 * (f * (7 * c) + 25 * (c - types)) ≤ n * (7 * c)
half_full f zero types n h pos low high = absurd (omega arith)
half_full f (suc zero) types n h pos low high = omega arith
half_full f (suc (suc c)) types n h pos low high =
    let d : ℕ = suc (suc c) in
    let big : (2 * f + d) * d ≤ n * d = mul-le-mul_right d h in
    let square : 2 * d ≤ d * d = mul-le-mul_right d (let two : 2 ≤ d = omega arith in two) in
    let few : 25 * (d - types) ≤ 7 * d = omega arith in grind arith

factors-AtLeast :
    (f : ℕ) (rest : List Word) (n : ℕ)
    → Stays [] 0 rest
    → 2 * f + length rest ≤ n
    → 2 ≤ n
    → AtLeast 2 (
        tokens_per_factor n (
          factors_of
            (record { factor_count = f; types = seen [] rest; token_count = length rest })))
unfolding factors_of
factors-AtLeast f [] n s h two = ground arith
factors-AtLeast f (t ∷ rest) n s h two =
    let low : is_factor (length (seen [] (t ∷ rest))) (0 + length (t ∷ rest)) ≡ false =
      Stays-end [] 0 t rest s in
    ground (
      arith,
      half_full f (length (t ∷ rest)) (length (seen [] (t ∷ rest))) n h,
      low,
      length-seen-le [] (t ∷ rest),
    )

mtld_factors-AtLeast :
    (tokens : List Word)
    → 2 ≤ length tokens
    → AtLeast 2 (tokens_per_factor (length tokens) (mtld_factors tokens))
mtld_factors-AtLeast tokens two =
    let (ss, rest, joined, dropped, stays, e, num, den) = mtld_factors_segments tokens in
    rw e (
      factors-AtLeast (length ss) rest (length tokens) stays
        (omega (arith, length-concat ss dropped, length-append (concat ss) rest, ap length joined))
        two)

mean-ge : (a b : Ratio) → AtLeast 2 a → AtLeast 2 b → 200 ≤ mean_hundredths a b
mean-ge a b (pa, ha) (pb, hb) = round_ratio_ge _ _ 200 (grind arith) (
    let left : 2 * a.den * b.den ≤ a.num * b.den = mul-le-mul_right b.den ha in
    let right : 2 * b.den * a.den ≤ b.num * a.den = mul-le-mul_right a.den hb in grind arith)

length-reverse : (ws : List Word) → length (reverse ws) ≡ length ws
length-reverse [] = refl
length-reverse (w ∷ ws) =
    ap length (reverse-cons w ws)
    ∙ omega (arith, length-append (reverse ws) (w ∷ []), length-reverse ws)

-- The MTLD of two tokens or more is at least 2.
pub mtld-ge : (tokens : List Word) → 2 ≤ length tokens → 200 ≤ mtld tokens
unfolding mtld
mtld-ge tokens two = elim (Bool-cases (ltb (length tokens) 10)) [
  | inl few ↦ rw few (omega arith)
  | inr many ↦ rw many (
      mean-ge (tokens_per_factor (length tokens) (mtld_factors tokens))
        (tokens_per_factor (length tokens) (mtld_factors (reverse tokens)))
        (mtld_factors-AtLeast tokens two)
        (subst (λ n. AtLeast 2 (tokens_per_factor n (mtld_factors (reverse tokens))))
          (length-reverse tokens)
          (mtld_factors-AtLeast (reverse tokens) (omega (arith, length-reverse tokens)))))
]

length-take-le : (n : ℕ) (ws : List Word) → length (take n ws) ≤ n
length-take-le zero ws = omega arith
length-take-le (suc n) [] = omega arith
length-take-le (suc n) (w ∷ ws) = omega (arith, length-take-le n ws)

-- A window has at most its size of types, and one at least while there are tokens.
window_types-between :
    (windows size : ℕ) (ts : List Word)
    → windows ≤ length ts
    → (windows ≤ window_types windows (suc size) ts)
      × (window_types windows (suc size) ts ≤ windows * suc size)
unfolding window_types
window_types-between zero size ts h = omega arith
window_types-between (suc k) size [] h = absurd (omega arith)
window_types-between (suc k) size (t ∷ ts) h =
    let (low, high) = window_types-between k size ts (omega arith) in
    let few = distinct-le (take (suc size) (t ∷ ts)) in
    let short = length-take-le (suc size) (t ∷ ts) in
    (omega (arith, low, distinct_pos t (take size ts)), grind arith)

-- The MATTR of a text that is not empty is at most 1, and at least a part of the window.
pub mattr-Between :
    (t : Word) (ts : List Word) (size lo : ℕ)
    → lo * suc size ≤ 1000
    → (lo ≤ mattr (t ∷ ts) (suc size)) × (mattr (t ∷ ts) (suc size) ≤ 1000)
unfolding mattr
mattr-Between t ts size lo h =
    let n = length (t ∷ ts) in
    elim (Bool-cases (leb n (suc size))) [
      | inl short ↦ rw short (
        round_ratio_ge (1000 * distinct (t ∷ ts)) n lo (omega arith) (
            let few : lo * n ≤ lo * suc size = mul-le-mul_left lo (leb→le n (suc size) short) in
            omega (arith, distinct_pos t ts)),
        round_ratio_le (1000 * distinct (t ∷ ts)) n 1000 (omega arith)
            (omega (arith, distinct-le (t ∷ ts))),
      )
      | inr long ↦
          let k : ℕ = n - suc size + 1 in
          let (low, high) = window_types-between k size (t ∷ ts) (omega arith) in
          rw long (
            round_ratio_ge (1000 * window_types k (suc size) (t ∷ ts)) (suc size * k) lo
                (grind arith)
                (subst (λ x. x ≤ 1000 * window_types k (suc size) (t ∷ ts))
                  (mul_assoc lo (suc size) k) (mul-le-mul h low)),
            round_ratio_le (1000 * window_types k (suc size) (t ∷ ts)) (suc size * k) 1000
                (grind arith) (grind arith),
          )
    ]
