-- ===== src/MarkBuffer/Tail.antt =====
-- The end of a `sesd_queue` (ruts/include/ruts/sesd_queue.h), where entries are added.
use mpgc.Prelude.{ℕ, ◌≡◌, ◌≢◌, refl, sym, ◌∙◌, List, [], ◌∷◌, ◌++◌, Option, none, some, ap, subst}
use mathlib.Core.List.{append_assoc}
use mpgc.MarkBuffer.Memory.{Memory, lookup, write_at, lookup-write_self, lookup-write_ne}
use mpgc.MarkBuffer.Defs.{Entry, SesdQueue, value_at, set_value, enqueue_entry, enqueue}
use mpgc.MarkBuffer.Chain.{
  Chain, chain_end, chain_entry, avoids_nil, avoids_cons, Chain-relink, last-lookup,
}
use mpgc.MarkBuffer.Queue.{last_address-snoc, Holds, Snoc, snoc_nil, snoc_last, Snoc_lem}

module _ {A : Type 0} where
  -- An address with an entry is no free one.
  allocated-ne :
      (m : Memory (Entry A)) (a b : ℕ) (x : Entry A)
      → lookup a m ≡ some x
      → lookup b m ≡ none
      → a ≢ b
  allocated-ne m a b x at free e = apart (sym at ∙ ap (λ c. lookup c m) e ∙ free)
    where
      apart : some x ≡ none → ⊥
      apart e = (cc)

  -- The value of the last entry is read and changed.
  pub value_at-last :
      (q : SesdQueue A) (ys : List (ℕ × A)) (l : ℕ) (v : A)
      → Holds q (ys ++ (l, v) ∷ [])
      → value_at l q ≡ some v
  unfolding value_at
  value_at-last q ys l v h = rw (last-lookup q.memory q.first ys l v h.chain) refl

  pub set_last-Holds :
      (q : SesdQueue A) (ys : List (ℕ × A)) (l : ℕ) (v w : A)
      → Holds q (ys ++ (l, v) ∷ [])
      → (q' : SesdQueue A) × (set_value l w q ≡ some q') × Holds q' (ys ++ (l, w) ∷ [])
  unfolding set_value
  set_last-Holds q ys l v w h =
      let e : Entry A = record { value = w; next = none } in
      (
        record q { memory = write_at l e q.memory },
        rw (last-lookup q.memory q.first ys l v h.chain) refl,
        record {
          chain =
              Chain-relink q.memory (write_at l e q.memory) q.first none ys [] l v w h.chain
                (λ a x ne at. lookup-write_ne l a e q.memory ne ∙ at)
                (lookup-write_self l e q.memory) chain_end (λ a x at. avoids_nil);
          ends = h.ends ∙ last_address-snoc ys l v ∙ sym (last_address-snoc ys l w);
        },
      )

  abbrev entry_at : A → Option ℕ → Entry A
  entry_at v n = record { value = v; next = n }

  -- The last entry is linked to a new one.
  link-Chain :
      (m : Memory (Entry A)) (p : Option ℕ) (ys : List (ℕ × A)) (l e : ℕ) (u v : A)
      → lookup e m ≡ none
      → Chain m p (ys ++ (l, u) ∷ [])
      → Chain
          (write_at l (entry_at u (some e)) (write_at e (entry_at v none) m))
          p
          (ys ++ (l, u) ∷ (e, v) ∷ [])
  link-Chain m p ys l e u v free c =
      let new = entry_at v none in
      let linked = entry_at u (some e) in
      let ne = allocated-ne m l e _ (last-lookup m p ys l u c) free in
      Chain-relink m (write_at l linked (write_at e new m)) p (some e) ys ((e, v) ∷ []) l u u c
        (λ a x apart here.
          lookup-write_ne l a linked (write_at e new m) apart
          ∙ lookup-write_ne e a new m (allocated-ne m a e x here free)
          ∙ here)
        (lookup-write_self l linked (write_at e new m))
        (chain_entry
          (lookup-write_ne l e linked (write_at e new m) (λ h. ne (sym h))
            ∙ lookup-write_self e new m)
          avoids_nil chain_end)
        (λ a x here. avoids_cons (λ h. allocated-ne m a e x here free (sym h)) avoids_nil)

  module _ (allocate : Memory (Entry A) → ℕ)
      (fresh : (m : Memory (Entry A)) → lookup (allocate m) m ≡ none) where
    -- An entry that is added is the last.
    pub enqueue-Holds :
        (q : SesdQueue A) (v : A) (xs : List (ℕ × A))
        → Holds q xs
        → (e : ℕ) × (q' : SesdQueue A) × (enqueue allocate v q ≡ some (e, q'))
          × Holds q' (xs ++ (e, v) ∷ [])
    unfolding enqueue enqueue_entry
    enqueue-Holds q v xs h = with_snoc xs (Snoc_lem xs) h
      where
        e : ℕ
        e = allocate q.memory

        added : Memory (Entry A)
        added = write_at e (entry_at v none) q.memory

        with_snoc :
            (xs : List (ℕ × A))
            → Snoc xs
            → Holds q xs
            → (e : ℕ) × (q' : SesdQueue A) × (enqueue allocate v q ≡ some (e, q'))
              × Holds q' (xs ++ (e, v) ∷ [])
        with_snoc xs snoc_nil h = (
          e,
          record { memory = added; first = some e; last = some e },
          rw h.ends refl,
          record {
            chain =
                chain_entry (lookup-write_self e (entry_at v none) q.memory) avoids_nil chain_end;
            ends = refl;
          },
        )
        with_snoc xs (snoc_last ys l u) h =
            let at = last-lookup q.memory q.first ys l u h.chain in
            let ne = allocated-ne q.memory l e _ at (fresh q.memory) in
            let m : Memory (Entry A) = write_at l (entry_at u (some e)) added in
            (
              e,
              record { memory = m; first = q.first; last = some e },
              rw
                  (
                    h.ends,
                    last_address-snoc ys l u,
                    lookup-write_ne e l (entry_at v none) q.memory ne,
                    at,
                  )
                  refl,
              record {
                chain =
                    subst (λ xs. Chain m q.first xs)
                      (sym (append_assoc ys ((l, u) ∷ []) ((e, v) ∷ [])))
                      (link-Chain q.memory q.first ys l e u v (fresh q.memory) h.chain);
                ends = sym (last_address-snoc (ys ++ (l, u) ∷ []) e v);
              },
            )
