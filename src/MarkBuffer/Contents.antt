-- ===== src/MarkBuffer/Contents.antt =====
-- The buffers of a mark buffer (include/mpgc/mark_buffer.h) in their order, and what they have yet to
-- give.
use mpgc.Prelude.{
  ℕ, ◌<◌, ◌≡◌, refl, sym, ◌∙◌, ap, List, [], ◌∷◌, ◌++◌, arith, ◌⊎◌, inl, inr, dec_lt,
}
use mathlib.Core.List.{append_assoc}
use mpgc.MarkBuffer.Defs.{Buffer, buffer_size}
use mpgc.MarkBuffer.Buffers.{unread, IsBuffer, written, unread-written, unread_nil}

module _ {A : Type 0} where
  -- All buffers but the last are full.
  abbrev pub Lined : List (ℕ × Buffer A) → Type 0
  Lined [] = Unit
  Lined ((a, b) ∷ xs) = IsBuffer b × ((xs ≡ []) ⊎ (b.write_idx ≡ buffer_size)) × Lined xs

  abbrev pub contents : List (ℕ × Buffer A) → List A
  contents [] = []
  contents ((a, b) ∷ xs) = unread b ++ contents xs

  snoc-ne_nil : (ys zs : List (ℕ × Buffer A)) (z : ℕ × Buffer A) → ys ++ z ∷ zs ≡ [] → ⊥
  snoc-ne_nil [] zs z e = (cc)
  snoc-ne_nil (y ∷ ys) zs z e = (cc)

  pub contents-append :
      (xs ys : List (ℕ × Buffer A)) → contents (xs ++ ys) ≡ contents xs ++ contents ys
  contents-append [] ys = refl
  contents-append ((a, b) ∷ xs) ys =
      ap (λ l. unread b ++ l) (contents-append xs ys)
      ∙ sym (append_assoc (unread b) (contents xs) (contents ys))

  pub Lined-last :
      (ys : List (ℕ × Buffer A)) (l : ℕ) (b : Buffer A) → Lined (ys ++ (l, b) ∷ []) → IsBuffer b
  Lined-last [] l b h = h.0
  Lined-last ((a, c) ∷ ys) l b h = Lined-last ys l b h.2

  -- The last buffer may change.
  pub Lined-set_last :
      (ys : List (ℕ × Buffer A)) (l : ℕ) (b c : Buffer A)
      → Lined (ys ++ (l, b) ∷ [])
      → IsBuffer c
      → Lined (ys ++ (l, c) ∷ [])
  Lined-set_last [] l b c h v = (v, inl refl, tt)
  Lined-set_last ((a, d) ∷ ys) l b c h v = (
    h.0,
    elim (h.1) [ inl e ↦ absurd (snoc-ne_nil ys [] (l, b) e) | inr full ↦ inr full ],
    Lined-set_last ys l b c h.2 v,
  )

  -- Behind a full buffer another one may come.
  pub Lined-snoc :
      (ys : List (ℕ × Buffer A)) (l e : ℕ) (b c : Buffer A)
      → Lined (ys ++ (l, b) ∷ [])
      → b.write_idx ≡ buffer_size
      → IsBuffer c
      → Lined ((ys ++ (l, b) ∷ []) ++ (e, c) ∷ [])
  Lined-snoc [] l e b c h full v = (h.0, inr full, (v, inl refl, tt))
  Lined-snoc ((a, d) ∷ ys) l e b c h full v = (
    h.0,
    elim (h.1) [ inl e ↦ absurd (snoc-ne_nil ys [] (l, b) e) | inr full ↦ inr full ],
    Lined-snoc ys l e b c h.2 full v,
  )

  pub append_nil : (xs : List A) → xs ++ [] ≡ xs
  append_nil [] = refl
  append_nil (x ∷ xs) = ap (λ l. x ∷ l) (append_nil xs)

  -- An element written to the last buffer comes last.
  pub contents-written :
      (ys : List (ℕ × Buffer A)) (l : ℕ) (b : Buffer A) (e : A)
      → IsBuffer b
      → b.write_idx < buffer_size
      → contents (ys ++ (l, written e b) ∷ []) ≡ contents (ys ++ (l, b) ∷ []) ++ e ∷ []
  contents-written ys l b e v room =
      rw
        (
          contents-append ys ((l, written e b) ∷ []),
          contents-append ys ((l, b) ∷ []),
          unread-written e b v room,
          append_nil (unread b ++ e ∷ []),
          append_nil (unread b),
        )
        (sym (append_assoc (contents ys) (unread b) (e ∷ [])))

  -- If something is left, it is in the first buffer.
  pub unread-first :
      (a : ℕ) (b : Buffer A) (xs : List (ℕ × Buffer A)) (x : A) (es : List A)
      → Lined ((a, b) ∷ xs)
      → contents ((a, b) ∷ xs) ≡ x ∷ es
      → b.read_next < b.write_idx
  unread-first a b xs x es h e = elim (dec_lt b.read_next b.write_idx) [
    | yes lt ↦ lt
    | no ge ↦ elim (h.1) [
      | inl last ↦ absurd (
          nothing
            (sym (ap (λ l. l ++ contents xs) (unread_nil b (omega arith)) ∙ ap contents last) ∙ e))
      | inr full ↦ omega (arith, full, h.0.unfinished)
    ]
  ]
    where
      nothing : [] ≡ x ∷ es → ⊥
      nothing e = (cc)
