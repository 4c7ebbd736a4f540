-- ===== src/MarkBuffer/Queue.antt =====
-- `sesd_queue` (ruts/include/ruts/sesd_queue.h) against the list of its entries.
use mpgc.Prelude.{ℕ, ◌≡◌, refl, sym, ◌∙◌, List, [], ◌∷◌, ◌++◌, Option, none, some, subst}
use mpgc.MarkBuffer.Memory.{Memory, lookup, write_at, deallocate, lookup-write_self}
use mpgc.MarkBuffer.Defs.{Entry, SesdQueue, set_value, dequeue, destroy_entry}
use mpgc.MarkBuffer.Chain.{
  Chain, chain_end, chain_entry, Avoids, write-Agree, deallocate-Agree, Chain-Agree,
}

module _ {A : Type 0} where
  abbrev pub last_address : List (ℕ × A) → Option ℕ
  last_address [] = none
  last_address ((a, v) ∷ []) = some a
  last_address (x ∷ y ∷ xs) = last_address (y ∷ xs)

  pub last_address-snoc :
      (ys : List (ℕ × A)) (l : ℕ) (v : A) → last_address (ys ++ (l, v) ∷ []) ≡ some l
  last_address-snoc [] l v = refl
  last_address-snoc (x ∷ []) l v = refl
  last_address-snoc (x ∷ y ∷ ys) l v = last_address-snoc (y ∷ ys) l v

  -- The entries of a queue, from the first to the last.
  pub record Holds (q : SesdQueue A) (xs : List (ℕ × A)) : Type 0 where
    pub chain : Chain q.memory q.first xs
    pub ends : q.last ≡ last_address xs

  -- A list is empty or has a last entry.
  pub data Snoc : List (ℕ × A) → Type 0 where
    snoc_nil : Snoc []
    snoc_last : (ys : List (ℕ × A)) (l : ℕ) (v : A) → Snoc (ys ++ (l, v) ∷ [])

  pub Snoc_lem : (xs : List (ℕ × A)) → Snoc xs
  Snoc_lem [] = snoc_nil
  Snoc_lem ((a, v) ∷ xs) = longer xs (Snoc_lem xs)
    where
      longer : (xs : List (ℕ × A)) → Snoc xs → Snoc ((a, v) ∷ xs)
      longer xs snoc_nil = snoc_last [] a v
      longer xs (snoc_last ys l w) = snoc_last ((a, v) ∷ ys) l w

  pub first-none : (m : Memory (Entry A)) (p : Option ℕ) → Chain m p [] → p ≡ none
  first-none m p chain_end = refl

  -- What the first entry is.
  pub record IsHead (m : Memory (Entry A)) (p : Option ℕ) (a : ℕ) (v : A) (xs : List (ℕ × A))
      : Type 0 where
    pub next : Option ℕ
    pub first_eq : p ≡ some a
    pub read : lookup a m ≡ some (record { value = v; next = next })
    pub others : Avoids a xs
    pub rest : Chain m next xs

  pub Chain-IsHead :
      (m : Memory (Entry A)) (p : Option ℕ) (a : ℕ) (v : A) (xs : List (ℕ × A))
      → Chain m p ((a, v) ∷ xs)
      → IsHead m p a v xs
  Chain-IsHead m p a v xs (chain_entry at others c) = record {
    next = _;
    first_eq = refl;
    read = at;
    others = others;
    rest = c;
  }

  -- The first entry is taken out, and stays allocated.
  pub dequeue-Holds :
      (q : SesdQueue A) (a : ℕ) (v : A) (xs : List (ℕ × A))
      → Holds q ((a, v) ∷ xs)
      → (q' : SesdQueue A) × (dequeue q ≡ some (some a, q')) × Holds q' xs × (q'.memory ≡ q.memory)
  unfolding dequeue
  dequeue-Holds q a v [] h =
      let f = Chain-IsHead q.memory q.first a v [] h.chain in
      (
        record { memory = q.memory; first = none; last = none },
        rw (f.first_eq, f.read, first-none q.memory f.next f.rest) refl,
        record { chain = chain_end; ends = refl },
        refl,
      )
  dequeue-Holds q a v ((b, w) ∷ xs) h =
      let f = Chain-IsHead q.memory q.first a v ((b, w) ∷ xs) h.chain in
      let g = Chain-IsHead q.memory f.next b w xs f.rest in
      (
        record { memory = q.memory; first = some b; last = q.last },
        rw (f.first_eq, f.read, g.first_eq) refl,
        record { chain = chain_entry g.read g.others g.rest; ends = h.ends },
        refl,
      )

  -- Destroying an entry that is not in the queue.
  pub destroy_entry-Holds :
      (q : SesdQueue A) (a : ℕ) (x : Entry A) (xs : List (ℕ × A))
      → lookup a q.memory ≡ some x
      → Avoids a xs
      → Holds q xs
      → (q' : SesdQueue A) × (destroy_entry a q ≡ some q') × Holds q' xs
  unfolding destroy_entry
  destroy_entry-Holds q a x xs read av h = (
    record q { memory = deallocate a q.memory },
    rw read refl,
    record {
      chain = Chain-Agree a q.memory _ q.first xs (deallocate-Agree a q.memory) av h.chain;
      ends = h.ends;
    },
  )

  -- The value of the first entry is changed.
  pub set_first-Holds :
      (q : SesdQueue A) (a : ℕ) (v w : A) (xs : List (ℕ × A))
      → Holds q ((a, v) ∷ xs)
      → (q' : SesdQueue A) × (set_value a w q ≡ some q') × Holds q' ((a, w) ∷ xs)
  unfolding set_value
  set_first-Holds q a v w xs h =
      let f = Chain-IsHead q.memory q.first a v xs h.chain in
      let e : Entry A = record { value = w; next = f.next } in
      (
        record q { memory = write_at a e q.memory },
        rw f.read refl,
        record {
          chain =
              subst (λ p. Chain (write_at a e q.memory) p ((a, w) ∷ xs)) (sym f.first_eq)
                (chain_entry (lookup-write_self a e q.memory) f.others
                  (Chain-Agree a q.memory _ f.next xs (write-Agree a e q.memory) f.others f.rest));
          ends = h.ends ∙ same_last xs;
        },
      )
    where
      same_last : (xs : List (ℕ × A)) → last_address ((a, v) ∷ xs) ≡ last_address ((a, w) ∷ xs)
      same_last [] = refl
      same_last (x ∷ xs) = refl
