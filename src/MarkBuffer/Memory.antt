-- ===== src/MarkBuffer/Memory.antt =====
-- What is stored at the addresses that an allocator has given out: the memory of a linked structure.
use mpgc.Prelude.{
  ℕ, ◌≡◌, ◌≢◌, refl, List, [], ◌∷◌, Option, none, some, ◌==◌, if◌then◌else◌, ==-refl, false, arith,
  ◌∙◌, Bool-cases, inl, inr, ==_iff,
}

abbrev pub Memory : Type 0 → Type 0
Memory E = List (ℕ × E)

pub ==-ne : (a b : ℕ) → a ≢ b → (a == b) ≡ false
==-ne a b ne = ground arith

module _ {E : Type 0} where
  -- What is read at an address; `none` where nothing is allocated.
  unfoldable pub lookup : ℕ → Memory E → Option E
  lookup a [] = none
  lookup a ((b, e) ∷ m) = if a == b then some e else lookup a m

  -- A later write counts.
  unfoldable pub write_at : ℕ → E → Memory E → Memory E
  write_at a e m = (a, e) ∷ m

  unfoldable pub deallocate : ℕ → Memory E → Memory E
  deallocate a [] = []
  deallocate a ((b, e) ∷ m) = let rest = deallocate a m in if a == b then rest else (b, e) ∷ rest

  pub lookup-write_self : (a : ℕ) (e : E) (m : Memory E) → lookup a (write_at a e m) ≡ some e
  unfolding lookup write_at
  lookup-write_self a e m = rw (==-refl a) refl

  pub lookup-write_ne :
      (a b : ℕ) (e : E) (m : Memory E) → b ≢ a → lookup b (write_at a e m) ≡ lookup b m
  unfolding lookup write_at
  lookup-write_ne a b e m ne = rw (==-ne b a ne) refl

  pub lookup-deallocate_self : (a : ℕ) (m : Memory E) → lookup a (deallocate a m) ≡ none
  unfolding lookup deallocate
  lookup-deallocate_self a [] = refl
  lookup-deallocate_self a ((b, e) ∷ m) = elim (Bool-cases (a == b)) [
    | inl same ↦ rw same (lookup-deallocate_self a m)
    | inr other ↦ rw (other, other) (lookup-deallocate_self a m)
  ]

  pub lookup-deallocate_ne :
      (a b : ℕ) (m : Memory E) → b ≢ a → lookup b (deallocate a m) ≡ lookup b m
  unfolding lookup deallocate
  lookup-deallocate_ne a b [] ne = refl
  lookup-deallocate_ne a b ((c, e) ∷ m) ne = elim (Bool-cases (a == c)) [
    | inl same ↦
        let skip : (b == c) ≡ false =
          ==-ne b c (λ h. ne (h ∙ (omega (arith, (==_iff a c).0 same)))) in
        rw (same, skip) (lookup-deallocate_ne a b m ne)
    | inr other ↦ rw other (rw (lookup-deallocate_ne a b m ne) refl)
  ]
