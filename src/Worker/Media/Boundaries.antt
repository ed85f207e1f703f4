-- ===== src/Worker/Media/Boundaries.antt =====
-- The turns' boundaries in the joined recording (apps/worker/tasks/media.py).
use session_replica_ielt.Prelude.{
  ℕ, ◌≤◌, ◌≡◌, refl, ap, sym, ◌∙◌, String, Option, List, [], ◌∷◌, ◌++◌, length, map, arith,
  append_assoc, inl, inr, ◌⊎◌, subst, map-append, append-nil,
}
use session_replica_ielt.Worker.Jobs.{TurnBoundary, returned, media}
use session_replica_ielt.Worker.Media.{
  AudioSegment, Fetched, pcm16, missing, Stitched, StitchResult, stitched, failed_fetch,
  append_segment, stitch, nothing_stitched, store_canonical, finalize_media_body,
}

Fetched-cases :
    (f : Fetched) → ((pcm : List ℕ) × (f ≡ pcm16 pcm)) ⊎ ((error : String) × (f ≡ missing error))
Fetched-cases (pcm16 pcm) = inl (pcm, refl)
Fetched-cases (missing error) = inr (error, refl)

-- Boundaries that follow one another without a gap, from one offset to another.
abbrev pub Contiguous : ℕ → List TurnBoundary → ℕ → Type 0
Contiguous a [] b = a ≡ b
Contiguous a (t ∷ ts) b = (t.start_ms ≡ a) × (t.start_ms ≤ t.end_ms) × Contiguous t.end_ms ts b

Contiguous-snoc :
    (a b : ℕ) (ts : List TurnBoundary) (t : TurnBoundary)
    → Contiguous a ts b
    → t.start_ms ≡ b
    → t.start_ms ≤ t.end_ms
    → Contiguous a (ts ++ t ∷ []) t.end_ms
Contiguous-snoc a b [] t c start h = (start ∙ sym c, h, refl)
Contiguous-snoc a b (x ∷ ts) t c start h =
    let (same, le, rest) = c in (same, le, Contiguous-snoc x.end_ms b ts t rest start h)

abbrev pub turn_of : TurnBoundary → ℕ
turn_of t = t.turn_id

abbrev pub turn_of_segment : AudioSegment → ℕ
turn_of_segment s = s.turn_id

-- What the loop keeps true of what it has joined.
record Joined (before : List ℕ) (t : Stitched) : Type 0 where
  contiguous : Contiguous 0 t.turn_boundaries t.offset_ms
  turns : map turn_of t.turn_boundaries ≡ before

append_segment-Joined :
    (before : List ℕ) (s : AudioSegment) (pcm : List ℕ) (t : Stitched)
    → Joined before t
    → Joined (before ++ s.turn_id ∷ []) (append_segment s pcm t)
unfolding append_segment
append_segment-Joined before s pcm t j = record {
  contiguous = Contiguous-snoc 0 t.offset_ms t.turn_boundaries _ j.contiguous refl (omega arith);
  turns = map-append turn_of t.turn_boundaries _ ∙ ap (λ l. l ++ s.turn_id ∷ []) j.turns;
}

stitch-Joined :
    (get_object : String → Fetched) (before : List ℕ) (segments : List AudioSegment) (t : Stitched)
    {u : Stitched}
    → Joined before t
    → stitch get_object segments t ≡ stitched u
    → Joined (before ++ map turn_of_segment segments) u
unfolding stitch
stitch-Joined get_object before [] t {u} j h =
    let same : t ≡ u = ground (arith, h) in
    subst (λ x. Joined (before ++ []) x) same (subst (λ l. Joined l t) (sym (append-nil before)) j)
stitch-Joined get_object before (s ∷ segments) t {u} j h =
    elim (Fetched-cases (get_object s.storage_key)) [
      | inl (pcm, got) ↦
          subst (λ l. Joined l u)
            (append_assoc before (s.turn_id ∷ []) (map turn_of_segment segments))
            (stitch-Joined get_object (before ++ s.turn_id ∷ []) segments (append_segment s pcm t)
              (append_segment-Joined before s pcm t j) (rw (got, stitch) at h))
      | inr (error, lost) ↦ absurd (ground (arith, h, lost))
    ]

store_canonical-media :
    (put_flac : List ℕ → Option String) (key key' : String) (n n' dur : ℕ) (tb : List TurnBoundary)
    (r : StitchResult)
    → store_canonical put_flac key n r ≡ returned (media key' tb dur n')
    → (u : Stitched) × (r ≡ stitched u) × (u.turn_boundaries ≡ tb) × (u.offset_ms ≡ dur) × (n ≡ n')
unfolding store_canonical
store_canonical-media put_flac key key' n n' dur tb (failed_fetch error) h =
    absurd (ground (arith, h))
store_canonical-media put_flac key key' n n' dur tb (stitched u) h =
    (u, refl, ground (arith, h), ground (arith, h), ground (arith, h))

-- When `finalize_media` returns, it returns a boundary for every turn, in order; the boundaries
-- start at 0, follow one another without a gap or an overlap, and end at the duration that it
-- returns.
pub finalize_media_boundaries :
    (get_object : String → Fetched) (put_flac : List ℕ → Option String) (key key' : String)
    (segments : List AudioSegment) {tb : List TurnBoundary} {duration_ms n : ℕ}
    → finalize_media_body get_object put_flac key segments ≡ returned (media key' tb duration_ms n)
    → Contiguous 0 tb duration_ms
      × (map turn_of tb ≡ map turn_of_segment segments)
      × (n ≡ length segments)
unfolding finalize_media_body
finalize_media_boundaries get_object put_flac key key' [] h = absurd (ground (arith, h))
finalize_media_boundaries get_object put_flac key key' (s ∷ segments) {tb} {duration_ms} {n} h =
    let (u, joined, same_tb, same_dur, same_n) =
      store_canonical-media put_flac key key' _ n duration_ms tb
        (stitch get_object (s ∷ segments) nothing_stitched) h in
    let j =
      stitch-Joined get_object [] (s ∷ segments) nothing_stitched
        (record { contiguous = refl; turns = refl }) joined in
    (rw (sym same_tb, sym same_dur) j.contiguous, rw (sym same_tb) j.turns, sym same_n)
