-- ===== src/Tracing/Graph.antt =====
-- What a collector sees of the heap: the pointers in each object, in order, and what they keep
-- alive. This is the specification of tracing, without its code.
use mpgc.Prelude.{In, ℕ, ◌≡◌, ◌<◌, ◌⊎◌, List, [], ◌∷◌, Option, none, some, Bool, true}

pub data Ref : Type 0 where
  null : Ref
  strong : (target : ℕ) → Ref
  weak : (target : ℕ) → Ref
  contingent : (target : ℕ) → Ref

-- A pointer field: where it stands in the heap, and what it holds.
abbrev pub Field : Type 0
Field = ℕ × Ref

-- `valid` is `p.is_valid()` and the validity of the object's descriptor; `fields` is what the
-- descriptor's `for_each_ref` visits. All objects lie below `limit`.
pub record Graph : Type 0 where
  pub valid : ℕ → Bool
  pub fields : ℕ → List Field
  pub limit : ℕ
  pub bounded : (p : ℕ) → valid p ≡ true → p < limit

-- A strong pointer to `t` is among the fields.
abbrev pub HasStrong : ℕ → List Field → Type 0
HasStrong t [] = ⊥
HasStrong t ((_, null) ∷ r) = HasStrong t r
HasStrong t ((_, strong s) ∷ r) = (t ≡ s) ⊎ HasStrong t r
HasStrong t ((_, weak _) ∷ r) = HasStrong t r
HasStrong t ((_, contingent _) ∷ r) = HasStrong t r

-- A contingent pointer to `t` is among the fields, controlled by `c`: the weak pointer in the field
-- just before it. `last` is the weak pointer just before the first of the fields, if there is one.
abbrev pub IsControlled : ℕ → ℕ → Option ℕ → List Field → Type 0
IsControlled c t last [] = ⊥
IsControlled c t last ((_, null) ∷ r) = IsControlled c t none r
IsControlled c t last ((_, strong _) ∷ r) = IsControlled c t none r
IsControlled c t last ((_, weak w) ∷ r) = IsControlled c t (some w) r
IsControlled c t last ((_, contingent s) ∷ r) =
    ((last ≡ some c) × (t ≡ s)) ⊎ IsControlled c t none r

-- The live objects: the roots, what a live object holds by a strong pointer, and what it holds by a
-- contingent pointer whose control is live.
pub data IsLive (g : Graph) (roots : List ℕ) : ℕ → Type 0 where
  root : {t : ℕ} → In t roots → g.valid t ≡ true → IsLive g roots t
  by_strong :
      {o t : ℕ} → IsLive g roots o → HasStrong t (g.fields o) → g.valid t ≡ true → IsLive g roots t
  by_contingent :
      {o c t : ℕ}
      → IsLive g roots o
      → IsControlled c t none (g.fields o)
      → IsLive g roots c
      → g.valid t ≡ true
      → IsLive g roots t
