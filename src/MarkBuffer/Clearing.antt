-- ===== src/MarkBuffer/Clearing.antt =====
-- `sesd_queue::clear` (ruts/include/ruts/sesd_queue.h).
use mpgc.Prelude.{
  ℕ, zero, suc, ◌≤◌, ◌≡◌, refl, sym, ◌∙◌, List, [], ◌∷◌, Option, none, some, arith, length, ap,
  ℕ_discrete,
}
use mpgc.MarkBuffer.Memory.{
  Memory, lookup, deallocate, lookup-deallocate_self, lookup-deallocate_ne,
}
use mpgc.MarkBuffer.Defs.{Entry, SesdQueue, clear_queue}
use mpgc.MarkBuffer.Chain.{Chain, deallocate-Agree, Chain-Agree}
use mpgc.MarkBuffer.Queue.{last_address, first-none, Chain-IsHead}

module _ {A : Type 0} where
  deallocate-none :
      (a b : ℕ) (m : Memory (Entry A)) → lookup b m ≡ none → lookup b (deallocate a m) ≡ none
  deallocate-none a b m free = elim (ℕ_discrete b a) [
    | yes e ↦ ap (λ c. lookup c (deallocate a m)) e ∙ lookup-deallocate_self a m
    | no ne ↦ lookup-deallocate_ne a b m ne ∙ free
  ]

  -- The entries are gone, but `last` is as it was.
  pub record IsCleared (q q' : SesdQueue A) (xs : List (ℕ × A)) : Type 0 where
    pub first_none : q'.first ≡ none
    pub last_same : q'.last ≡ q.last
    pub free : (b : ℕ) → lookup b q.memory ≡ none → lookup b q'.memory ≡ none
    pub last_free : (l : ℕ) → last_address xs ≡ some l → lookup l q'.memory ≡ none

  pub clear_queue-IsCleared :
      (n : ℕ) (q : SesdQueue A) (xs : List (ℕ × A))
      → Chain q.memory q.first xs
      → length xs ≤ n
      → (q' : SesdQueue A) × (clear_queue n q ≡ some q') × IsCleared q q' xs
  unfolding clear_queue
  clear_queue-IsCleared zero q [] c le = (
    q,
    rw (first-none q.memory q.first c) refl,
    record {
      first_none = first-none q.memory q.first c;
      last_same = refl;
      free = λ b f. f;
      last_free = λ l e. absurd (cc);
    },
  )
  clear_queue-IsCleared zero q (x ∷ xs) c le = absurd (omega arith)
  clear_queue-IsCleared (suc n) q [] c le = (
    q,
    rw (first-none q.memory q.first c) refl,
    record {
      first_none = first-none q.memory q.first c;
      last_same = refl;
      free = λ b f. f;
      last_free = λ l e. absurd (cc);
    },
  )
  clear_queue-IsCleared (suc n) q ((a, v) ∷ xs) c le =
      let f = Chain-IsHead q.memory q.first a v xs c in
      let q1 : SesdQueue A = record q { first = f.next; memory = deallocate a q.memory } in
      let (q', done, h) =
        clear_queue-IsCleared n q1 xs
          (Chain-Agree a q.memory _ f.next xs (deallocate-Agree a q.memory) f.others f.rest)
          (omega arith) in
      (
        q',
        rw (f.first_eq, f.read) done,
        record {
          first_none = h.first_none;
          last_same = h.last_same;
          free = λ b free. h.free b (deallocate-none a b q.memory free);
          last_free = λ l. last_free xs l h;
        },
      )
    where
      last_free :
          (xs : List (ℕ × A)) (l : ℕ) {p : Option ℕ} {q' : SesdQueue A}
          → IsCleared (record q { first = p; memory = deallocate a q.memory }) q' xs
          → last_address ((a, v) ∷ xs) ≡ some l
          → lookup l q'.memory ≡ none
      last_free [] l {q' = q'} h e =
          let same : a ≡ l = (cc) in
          ap (λ b. lookup b q'.memory) (sym same) ∙ h.free a (lookup-deallocate_self a q.memory)
      last_free (x ∷ xs) l h e = h.last_free l e
