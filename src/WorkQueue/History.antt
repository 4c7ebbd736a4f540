-- ===== src/WorkQueue/History.antt =====
-- `work_stealing_wq` (include/mpgc/work_stealing_wq.h) as its owner uses it, against a plain list.
use mpgc.Prelude.{
  ◌≡◌, refl, ◌∙◌, ap, List, [], ◌∷◌, Option, none, some, Bool-cases, inl, inr, ◌>>=◌, if◌then◌else◌,
}
use mpgc.WorkQueue.Defs.{WorkQueue, push, empty, pop, front}
use mpgc.WorkQueue.Contents.{contents, IsQueue, push-IsPushed, empty-IsEmptied, pop-IsPopped}

pub data Op (A : Type 0) : Type 0 where
  put : A → Op A
  take : Op A

module _ {A : Type 0} (initial : A) where
  -- `if (!q.empty()) { p = q.front(); q.pop(); }`, and what it yields.
  unfoldable pub take_front : WorkQueue A → Option (Option A × WorkQueue A)
  take_front q =
      let (is_empty, q') = empty q in
      let taken = (do p ← front q'; q'' ← pop q'; some (some p, q'')) in
      if is_empty then some (none, q') else taken

  -- A history of the queue: what its `take`s yield, and the queue at the end.
  unfoldable pub run : List (Op A) → WorkQueue A → Option (List (Option A) × WorkQueue A)
  unfolding take_front
  run [] q = some ([], q)
  run (put p ∷ ops) q = push initial p q >>= λ q'. run ops q'
  run (take ∷ ops) q = take_front q >>= λ (r : Option A × WorkQueue A).
      run ops (r.1) >>= λ (s : List (Option A) × WorkQueue A). some (r.0 ∷ s.0, s.1)

  -- The same on a list.
  abbrev pub run_list : List (Op A) → List A → List (Option A) × List A
  run_list [] l = ([], l)
  run_list (put p ∷ ops) l = run_list ops (p ∷ l)
  run_list (take ∷ ops) [] = let r = run_list ops [] in (none ∷ r.0, r.1)
  run_list (take ∷ ops) (p ∷ l) = let r = run_list ops l in (some p ∷ r.0, r.1)

  -- The answer to a `take` is that of the list.
  pub record IsTaken (l : List A) (r : Option A × WorkQueue A) : Type 0 where
    pub is_queue : IsQueue initial r.1
    pub agrees :
        (ops : List (Op A))
        → run_list (take ∷ ops) l
          ≡ (r.0 ∷ (run_list ops (contents initial r.1)).0, (run_list ops (contents initial r.1)).1)

  take_front_lem :
      (q : WorkQueue A)
      → IsQueue initial q
      → (r : Option A × WorkQueue A) × (take_front q ≡ some r) × IsTaken (contents initial q) r
  unfolding take_front
  take_front_lem q v =
      let h = empty-IsEmptied initial q v in
      elim (Bool-cases (empty q).0) [
        | inl e ↦ (
          (none, (empty q).1),
          rw e refl,
          record { is_queue = h.is_queue; agrees = λ ops. rw (h.same, h.none_left e) refl },
        )
        | inr e ↦
            let p = pop-IsPopped initial (empty q).1 h.is_queue (h.some_left e) in
            (
              (some (p.x), p.q'),
              rw (e, p.front_lem, p.pop_lem) refl,
              record { is_queue = p.is_queue; agrees = λ ops. rw (← h.same, p.contents_lem) refl },
            )
      ]

  -- Whatever its owner does with a queue, no assertion fails, each `take` yields what it would yield
  -- of a list of the entries, and the entries at the end are those of the list.
  pub run-eq-run_list :
      (ops : List (Op A)) (q : WorkQueue A)
      → IsQueue initial q
      → (q' : WorkQueue A) × (run ops q ≡ some ((run_list ops (contents initial q)).0, q'))
        × IsQueue initial q'
        × (contents initial q' ≡ (run_list ops (contents initial q)).1)
  unfolding run
  run-eq-run_list [] q v = (q, refl, v, refl)
  run-eq-run_list (put p ∷ ops) q v =
      let (q1, pushed, h) = push-IsPushed initial p q v in
      let (q', done, v', e) = run-eq-run_list ops q1 h.is_queue in
      (
        q',
        rw pushed (done ∙ ap (λ l. some ((run_list ops l).0, q')) h.contents_lem),
        v',
        e ∙ ap (λ l. (run_list ops l).1) h.contents_lem,
      )
  run-eq-run_list (take ∷ ops) q v =
      let (r, taken, h) = take_front_lem q v in
      let (q', done, v', e) = run-eq-run_list ops r.1 h.is_queue in
      (q', rw (taken, done, h.agrees ops) refl, v', rw (h.agrees ops) e)
