-- ===== src/Tracing/Marks.antt =====
-- What tracing needs of the mark bitmap: a test, and a mark whose result says whether this call
-- made it. `MarkBitmap` meets it (Tracing/Bitmap).
use mpgc.Prelude.{ℕ, Bool, true, not, ◌||◌, ◌==◌, ◌≡◌}

pub record Marks (valid : ℕ → Bool) : Type 1 where
  pub State : Type 0
  pub is_marked : State → ℕ → Bool
  pub mark_end_first : State → ℕ → Bool × State
  pub mark_claims :
      (s : State) (p : ℕ) → valid p ≡ true → (mark_end_first s p).0 ≡ not (is_marked s p)
  pub mark_marks :
      (s : State) (p q : ℕ)
      → valid p ≡ true
      → is_marked (mark_end_first s p).1 q ≡ (p == q || is_marked s q)
