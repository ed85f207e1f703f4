-- ===== src/Worker/Lexical/Bands.antt =====
-- The bands of the words, apps/worker/tasks/nlp/lexical.py.
use session_replica_ielt.Prelude.{ℕ, ◌+◌, ◌≤◌, ◌≡◌, List, [], ◌∷◌, length, arith}
use session_replica_ielt.Prelude.Text.{Word}
use session_replica_ielt.Worker.Lexical.Metrics.{
  Distribution, add_band, cefr_band, cefr_counts, rare_count, no_bands,
}

cefr_counts-rare :
    (frequency : Word → ℕ) (ws : List Word) (d : Distribution)
    → let e = cefr_counts frequency ws d in
      (e.a1_a2 + e.b1 + e.b2 + e.c1_c2 ≡ d.a1_a2 + d.b1 + d.b2 + d.c1_c2 + length ws)
      × (e.c1_c2 ≤ d.c1_c2 + rare_count frequency ws)
      × (d.b2 + d.c1_c2 + rare_count frequency ws ≤ e.b2 + e.c1_c2)
unfolding cefr_counts cefr_band
cefr_counts-rare frequency [] d = omega arith
cefr_counts-rare frequency (w ∷ ws) d =
    ground (arith, cefr_counts-rare frequency ws (add_band (cefr_band frequency w) d))

-- Each word is in one band; every word beyond B2 is rare, and every rare word is in B2 or beyond.
pub cefr_counts_rare :
    (frequency : Word → ℕ) (ws : List Word)
    → let d = cefr_counts frequency ws no_bands in
      (d.a1_a2 + d.b1 + d.b2 + d.c1_c2 ≡ length ws)
      × (d.c1_c2 ≤ rare_count frequency ws)
      × (rare_count frequency ws ≤ d.b2 + d.c1_c2)
cefr_counts_rare frequency ws = omega (arith, cefr_counts-rare frequency ws no_bands)
