-- ===== src/MarkBuffer/Emptiness.antt =====
-- `is_empty` of a mark buffer (include/mpgc/mark_buffer.h).
use mpgc.Prelude.{
  ℕ, ◌≤◌, ◌<◌, ◌≡◌, refl, sym, ◌∙◌, ap, List, [], ◌∷◌, ◌++◌, Option, none, some, arith, Bool, true,
  false, not, Bool-cases, inl, inr, ==-refl, ltb, ltb→lt,
}
use mpgc.MarkBuffer.Memory.{==-ne}
use mpgc.MarkBuffer.Defs.{MarkBuffer, Buffer, is_empty, has_unread, is_empty_between}
use mpgc.MarkBuffer.Chain.{last-ne}
use mpgc.MarkBuffer.Queue.{
  Holds, Snoc, snoc_nil, snoc_last, Snoc_lem, last_address, last_address-snoc, first-none,
  Chain-IsHead,
}
use mpgc.MarkBuffer.Buffers.{IsBuffer, unread, unread-advanced, unread_nil}
use mpgc.MarkBuffer.Contents.{Lined, contents, append_nil}
use mpgc.MarkBuffer.Steps.{Gives}
use mpgc.MarkBuffer.Reads.{first_some}

module _ {A : Type 0} where
  abbrev pub null : List A → Bool
  null [] = true
  null (x ∷ xs) = false

  null-unread :
      (b : Buffer A) (es : List A)
      → IsBuffer b
      → b.read_next < b.write_idx
      → null (unread b ++ es) ≡ false
  null-unread b es v lt =
      let (x, at, split) = unread-advanced b v lt in ap (λ l. null (l ++ es)) split

  only-null : (b : Buffer A) → IsBuffer b → not (has_unread b) ≡ null (unread b)
  unfolding has_unread
  only-null b v = elim (Bool-cases (ltb b.read_next b.write_idx)) [
    | inl some_left ↦ rw some_left (
        sym (null-unread b [] v (ltb→lt b.read_next b.write_idx some_left))
        ∙ ap null (append_nil (unread b)))
    | inr nothing ↦
        let le : b.write_idx ≤ b.read_next = ground arith in rw (nothing, unread_nil b le) refl
  ]

  between :
      (mb : MarkBuffer A) (xs : List (ℕ × Buffer A)) (t : Option ℕ) (h : ℕ) (b : Buffer A)
      → Holds mb.queue ((h, b) ∷ xs)
      → last_address ((h, b) ∷ xs) ≡ t
      → is_empty mb ≡ is_empty_between (some h) t mb
  unfolding is_empty
  between mb xs t h b holds e =
      ap (λ s. is_empty_between s mb.queue.last mb) (first_some mb.queue h b xs holds).0
      ∙ ap (λ s. is_empty_between (some h) s mb) (holds.ends ∙ e)

  by_entries :
      (mb : MarkBuffer A) (xs : List (ℕ × Buffer A))
      → Holds mb.queue xs
      → Lined xs
      → is_empty mb ≡ some (null (contents xs))
  unfolding is_empty_between is_empty
  by_entries mb [] holds v =
      ap (λ s. is_empty_between s mb.queue.last mb) (first-none mb.queue.memory _ holds.chain)
      ∙ ap (λ s. is_empty_between none s mb) holds.ends
  by_entries mb ((h, b) ∷ []) holds v =
      between mb [] (some h) h b holds refl
      ∙ rw
          (
            ==-refl h,
            (first_some mb.queue h b [] holds).1,
            only-null b (v.0),
            append_nil (unread b),
          )
          refl
  by_entries mb ((h, b) ∷ y ∷ xs) holds v = several (y ∷ xs) (Snoc_lem (y ∷ xs)) holds v (cc)
    where
      several :
          (xs : List (ℕ × Buffer A))
          → Snoc xs
          → Holds mb.queue ((h, b) ∷ xs)
          → Lined ((h, b) ∷ xs)
          → (xs ≡ [] → ⊥)
          → is_empty mb ≡ some (null (contents ((h, b) ∷ xs)))
      several xs snoc_nil holds v some_more = absurd (some_more refl)
      several xs (snoc_last ys l c) holds v some_more =
          let f = Chain-IsHead mb.queue.memory mb.queue.first h b xs holds.chain in
          between mb xs (some l) h b holds (last_address-snoc ((h, b) ∷ ys) l c)
          ∙ rw
              (
                ==-ne h l (λ e. last-ne h l c ys f.others (sym e)),
                null-unread b (contents xs) (v.0) (elim (v.1) [
                  | inl last ↦ absurd (some_more last)
                  | inr full ↦ omega (arith, full, v.0.unfinished)
                ]),
              )
              refl

  -- `is_empty` is true just if all elements that were added have been processed.
  pub is_empty_lem :
      (mb : MarkBuffer A) (es : List A) → Gives mb.queue es → is_empty mb ≡ some (null es)
  is_empty_lem mb es g =
      by_entries mb g.entries g.holds g.lined ∙ ap (λ l. some (null l)) g.contents_eq
