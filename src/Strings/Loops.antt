-- ===== src/Strings/Loops.antt =====
-- The loops of the searches, by what the test says of each position.
use mpgc.Prelude.{
  ℕ, zero, suc, ◌+◌, ◌-◌, ◌≤◌, ◌<◌, ◌≡◌, inl, inr, refl, Bool, true, false, arith, Bool-cases, ◌∙◌,
  ==_iff, ◌==◌,
}
use mpgc.Vector.Defs.{Access, found}
use mpgc.Strings.Defs.{ℤ, pos, npos}
use mpgc.Strings.Search.{match_forward, match_backward}

-- The result is the first position of those below `bound` that the test accepts, or `npos`.
pub data IsFirst (hit : ℕ → Bool) (start bound : ℕ) (o : Access ℤ) : Type 0 where
  first :
      (p : ℕ)
      → o ≡ found (pos p)
      → start ≤ p
      → p < bound
      → hit p ≡ true
      → ((q : ℕ) → start ≤ q → q < p → hit q ≡ false)
      → IsFirst hit start bound o
  nowhere :
      o ≡ found npos → ((q : ℕ) → start ≤ q → q < bound → hit q ≡ false) → IsFirst hit start bound o

-- The result is the last position below `bound` that the test accepts, or `npos`.
pub data IsLast (hit : ℕ → Bool) (bound : ℕ) (o : Access ℤ) : Type 0 where
  latest :
      (p : ℕ)
      → o ≡ found (pos p)
      → p < bound
      → hit p ≡ true
      → ((q : ℕ) → p < q → q < bound → hit q ≡ false)
      → IsLast hit bound o
  no_hit : o ≡ found npos → ((q : ℕ) → q < bound → hit q ≡ false) → IsLast hit bound o

-- A test that fails at one position, and from the next one on.
from_next :
    (hit : ℕ → Bool) (p q : ℕ) → hit p ≡ false → p ≤ q → (p + 1 ≤ q → hit q ≡ false) → hit q ≡ false
from_next hit p q h ge rest = elim (Bool-cases (q == p)) [
  | inl here ↦ rw ((==_iff q p).0 here) h
  | inr away ↦ rest (ground (arith, away))
]

to_next :
    (hit : ℕ → Bool) (n q : ℕ) → hit n ≡ false → q < suc n → (q < n → hit q ≡ false) → hit q ≡ false
to_next hit n q h lt rest = elim (Bool-cases (q == n)) [
  | inl here ↦ rw ((==_iff q n).0 here) h
  | inr away ↦ rest (ground (arith, away))
]

later :
    (hit : ℕ → Bool) (p bound : ℕ) (o o' : Access ℤ)
    → hit p ≡ false
    → o ≡ o'
    → IsFirst hit (p + 1) bound o'
    → IsFirst hit p bound o
later hit p bound o o' h e (first r f ge lt yes_hit none) =
    first r (e ∙ f) (omega arith) lt yes_hit
      (λ q qge less. from_next hit p q h qge (λ more. none q more less))
later hit p bound o o' h e (nowhere f none) =
    nowhere (e ∙ f) (λ q ge lt. from_next hit p q h ge (λ more. none q more lt))

earlier :
    (hit : ℕ → Bool) (n : ℕ) (o o' : Access ℤ)
    → hit n ≡ false
    → o ≡ o'
    → IsLast hit n o'
    → IsLast hit (suc n) o
earlier hit n o o' h e (latest r f lt yes_hit none) =
    latest r (e ∙ f) (omega arith) yes_hit
      (λ q more lt'. to_next hit n q h lt' (λ less. none q more less))
earlier hit n o o' h e (no_hit f none) =
    no_hit (e ∙ f) (λ q lt. to_next hit n q h lt (λ less. none q less))

module _ (func : ℤ → Access Bool) (hit : ℕ → Bool) where
  pub match_forward-IsFirst :
      (n p bound : ℕ)
      → n ≡ bound - p
      → ((q : ℕ) → q < bound → func (pos q) ≡ found (hit q))
      → IsFirst hit p bound (match_forward n (pos p) func)
  unfolding match_forward
  match_forward-IsFirst zero p bound e tests = nowhere refl (λ q ge lt. absurd (omega arith))
  match_forward-IsFirst (suc n) p bound e tests = elim (Bool-cases (hit p)) [
    | inl yes_hit ↦
        first p (rw (tests p (omega arith), yes_hit) refl) (omega arith) (omega arith) yes_hit
          (λ q ge lt. absurd (omega arith))
    | inr no_hit_here ↦
        later hit p bound (match_forward (suc n) (pos p) func) (match_forward n (pos (p + 1)) func)
          no_hit_here (rw (tests p (omega arith), no_hit_here) refl)
          (match_forward-IsFirst n (p + 1) bound (omega arith) tests)
  ]

  pub match_backward-IsLast :
      (bound : ℕ)
      → ((q : ℕ) → q < bound → func (pos q) ≡ found (hit q))
      → IsLast hit bound (match_backward bound func)
  unfolding match_backward
  match_backward-IsLast zero tests = no_hit refl (λ q lt. absurd (omega arith))
  match_backward-IsLast (suc n) tests = elim (Bool-cases (hit n)) [
    | inl yes_hit ↦
        latest n (rw (tests n (omega arith), yes_hit) refl) (omega arith) yes_hit
          (λ q lt le. absurd (omega arith))
    | inr none ↦
        earlier hit n (match_backward (suc n) func) (match_backward n func) none
          (rw (tests n (omega arith), none) refl)
          (match_backward-IsLast n (λ q lt. tests q (omega arith)))
  ]
