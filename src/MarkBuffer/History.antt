-- ===== src/MarkBuffer/History.antt =====
-- Histories of a mark buffer (include/mpgc/mark_buffer.h): the write barrier adds elements, the
-- collector processes them while `is_empty` is false.
use mpgc.Prelude.{ℕ, ◌≡◌, refl, List, [], ◌∷◌, ◌++◌, Option, none, some, ◌>>=◌, if◌then◌else◌}
use mpgc.MarkBuffer.Memory.{Memory, lookup}
use mpgc.MarkBuffer.Defs.{
  Entry, Buffer, MarkBuffer, mark_buffer, is_empty, process_element, add_element,
}
use mpgc.MarkBuffer.Chain.{chain_end}
use mpgc.MarkBuffer.Steps.{Gives, add_element-Gives}
use mpgc.MarkBuffer.Reads.{process_element-Gives}
use mpgc.MarkBuffer.Emptiness.{is_empty_lem}

pub data Step (A : Type 0) : Type 0 where
  add : A → Step A
  process : Step A

module _ {A : Type 0} where
  -- What steps do to a list, which is processed from its front.
  abbrev pub run_list : List (Step A) → List A → List (Option A) × List A
  run_list [] l = ([], l)
  run_list (add e ∷ steps) l = run_list steps (l ++ e ∷ [])
  run_list (process ∷ steps) [] = let r = run_list steps [] in (none ∷ (r.0), r.1)
  run_list (process ∷ steps) (x ∷ l) = let r = run_list steps l in (some x ∷ (r.0), r.1)

  pub mark_buffer-Gives : Gives {A = A} mark_buffer.queue []
  mark_buffer-Gives = record {
    entries = [];
    holds = record { chain = chain_end; ends = refl };
    lined = tt;
    contents_eq = refl;
  }

module _ {A : Type 0} (allocate : Memory (Entry (Buffer A)) → ℕ) (initial : A) where
  -- `if (!mbuf.is_empty()) mbuf.process_element(...)`, and what it processes.
  unfoldable pub process_one : MarkBuffer A → Option (Option A × MarkBuffer A)
  process_one b = do
    done ← is_empty b
    if done
        then some (none, b)
        else (process_element b >>= λ (r : A × MarkBuffer A). some (some (r.0), r.1))

  -- What the steps process, and the mark buffer at the end.
  unfoldable pub run : List (Step A) → MarkBuffer A → Option (List (Option A) × MarkBuffer A)
  unfolding process_one
  run [] b = some ([], b)
  run (add e ∷ steps) b = add_element allocate initial e b >>= λ b'. run steps b'
  run (process ∷ steps) b = process_one b >>= λ (r : Option A × MarkBuffer A).
      run steps (r.1) >>= λ (s : List (Option A) × MarkBuffer A). some ((r.0) ∷ (s.0), s.1)

  process_one_nil : (b : MarkBuffer A) → Gives b.queue [] → process_one b ≡ some (none, b)
  unfolding process_one
  process_one_nil b g = rw (is_empty_lem b [] g) refl

  process_one_cons :
      (b b' : MarkBuffer A) (x : A) (es : List A)
      → Gives b.queue (x ∷ es)
      → process_element b ≡ some (x, b')
      → process_one b ≡ some (some x, b')
  unfolding process_one
  process_one_cons b b' x es g done = rw (is_empty_lem b (x ∷ es) g, done) refl

  module _ (fresh : (m : Memory (Entry (Buffer A))) → lookup (allocate m) m ≡ none) where
    -- Let the allocator give addresses that are not in use. Then in each history of a mark buffer,
    -- whose operations come one after another, no assertion fails and no freed memory is accessed, the
    -- elements are processed in the order in which they were added, each once, and those that are left
    -- are those of the list.
    pub run-Gives :
        (steps : List (Step A)) (b : MarkBuffer A) (es : List A)
        → Gives b.queue es
        → (b' : MarkBuffer A) × (run steps b ≡ some ((run_list steps es).0, b'))
          × Gives b'.queue ((run_list steps es).1)
    unfolding run
    run-Gives [] b es g = (b, refl, g)
    run-Gives (add e ∷ steps) b es g =
        let (b1, done, g1) = add_element-Gives allocate fresh initial b e es g in
        let (b', rest, g') = run-Gives steps b1 (es ++ e ∷ []) g1 in (b', rw done rest, g')
    run-Gives (process ∷ steps) b [] g =
        let (b', rest, g') = run-Gives steps b [] g in (b', rw (process_one_nil b g, rest) refl, g')
    run-Gives (process ∷ steps) b (x ∷ es) g =
        let (b1, done, g1) = process_element-Gives b x es g in
        let (b', rest, g') = run-Gives steps b1 es g1 in
        (b', rw (process_one_cons b b1 x es g done, rest) refl, g')
