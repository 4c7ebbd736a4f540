-- ===== src/Tracing/Ends.antt =====
-- Tracing ends: each round takes an object from the queue, and a bound on what may still enter it
-- does not grow.
use mpgc.Prelude.{
  ℕ, zero, suc, ◌+◌, ◌*◌, ◌≤◌, ◌<◌, ◌≡◌, refl, List, [], ◌∷◌, Option, none, some, Bool, true, false,
  ◌||◌, if◌then◌else◌, Bool-cases, inl, inr, arith, ◌==◌, length, ap, ℕ_discrete, subst,
}
use mpgc.Tracing.Graph.{Graph, Field, null, strong, weak, contingent}
use mpgc.Tracing.Marks.{Marks}
use mpgc.Tracing.CtrlMap.{waiting, size, size-insert, size-remove}
use mpgc.Tracing.Collector.{
  Collector, Visit, push, visit, visit_contingent, visit_all, push_unmarked, process_and_remove,
  mark_black, round, empty_collector_stack,
}
use mpgc.Tracing.Visit.{visit_all-Grows}
use mpgc.Tracing.Black.{finish_black_lem, done_marks}

module _ (g : Graph) (m : Marks g.valid) where
  open m use {State, is_marked, mark_end_first, mark_marks}

  -- The fields of the objects below `n` that are not marked.
  unfoldable pub unscanned : ℕ → State → ℕ
  unscanned zero s = 0
  unscanned (suc n) s = unscanned n s + (if is_marked s n then 0 else length (g.fields n))

  -- What the queue and the map hold.
  unfoldable pub load : Collector State → ℕ
  load c = length c.queue + size c.ctrl_map

  -- Rounds that are left at most: a field puts at most one entry into the queue and one into the map.
  unfoldable pub work : Collector State → ℕ
  unfolding load unscanned
  work c = load c + 2 * unscanned g.limit c.marks

  module _ (s s' : State) (p : ℕ) (law : (q : ℕ) → is_marked s' q ≡ (p == q || is_marked s q)) where
    unscanned_above : (n : ℕ) → n ≤ p → unscanned n s' ≡ unscanned n s
    unfolding unscanned
    unscanned_above zero h = refl
    unscanned_above (suc n) h = ground (arith, unscanned_above n (omega arith), law n)

    unscanned_marked :
        (n : ℕ)
        → p < n
        → is_marked s p ≡ false
        → unscanned n s' + length (g.fields p) ≡ unscanned n s
    unfolding unscanned
    unscanned_marked zero h white = absurd (omega arith)
    unscanned_marked (suc n) h white = elim (ℕ_discrete p n) [
      | yes e ↦
          let here : is_marked s n ≡ false = subst (λ q. is_marked s q ≡ false) e white in
          let same : length (g.fields p) ≡ length (g.fields n) = ap (λ q. length (g.fields q)) e in
          ground (arith, unscanned_above n (omega arith), law n, same, here, e)
      | no ne ↦ ground (arith, unscanned_marked n (omega arith) white, law n)
    ]

  visit_contingent-load :
      (t : ℕ) (last : Option ℕ) (v : Visit State)
      → load (visit_contingent g m t last v).col ≤ load (v.col) + 2
  unfolding visit_contingent push load
  visit_contingent-load t none v = omega arith
  visit_contingent-load t (some k) v = ground (arith, size-insert k t v.col.ctrl_map)

  visit-load : (v : Visit State) (f : Field) → load (visit g m v f).col ≤ load (v.col) + 2
  unfolding visit push load
  visit-load v (a, null) = omega arith
  visit-load v (a, weak t) = ground arith
  visit-load v (a, strong t) = ground arith
  visit-load v (a, contingent t) = ground (arith, visit_contingent-load t v.last_ctrl v)

  visit_all-load :
      (v : Visit State) (fs : List Field)
      → load (visit_all g m v fs).col ≤ load (v.col) + 2 * length fs
  unfolding visit_all
  visit_all-load v [] = omega arith
  visit_all-load v (f ∷ fs) = omega (arith, visit-load v f, visit_all-load (visit g m v f) fs)

  push_unmarked-queue :
      (ts : List ℕ) (c : Collector State)
      → length (push_unmarked g m ts c).queue ≤ length c.queue + length ts
  unfolding push_unmarked
  push_unmarked-queue [] c = omega arith
  push_unmarked-queue (t ∷ ts) c = omega (
    arith,
    one (is_marked c.marks t),
    push_unmarked-queue ts (if is_marked c.marks t then c else push g m t c),
  )
    where
      one : (b : Bool) → length (if b then c else push g m t c).queue ≤ length c.queue + 1
      one true = omega arith
      one false = unfold push in omega arith

  process_and_remove-load :
      (p : ℕ) (c : Collector State) → load (process_and_remove g m p c) ≤ load c
  unfolding process_and_remove load
  process_and_remove-load p c =
      omega (arith, push_unmarked-queue (waiting p c.ctrl_map) c, size-remove p c.ctrl_map)

  module _ (p : ℕ) (c : Collector State) (ok : g.valid p ≡ true)
      (white : is_marked c.marks p ≡ false) where
    abbrev visited : Collector State
    visited =
        (visit_all g m (record { col = c; last_ctrl = none; last_ctrl_marked = false })
          (g.fields p)).col

    same_marks : visited.marks ≡ c.marks
    same_marks =
        (visit_all-Grows g m (record { col = c; last_ctrl = none; last_ctrl_marked = false })
          (g.fields p)).same_marks

    white_still : is_marked visited.marks p ≡ false
    white_still = rw same_marks white

    abbrev finished : Collector State
    finished =
        process_and_remove g m p (record (visited) { marks = (mark_end_first visited.marks p).1 })

    finished-work : work finished ≤ work c
    unfolding work
    finished-work = omega (
      arith,
      unscanned_marked visited.marks finished.marks p (done_marks g m [] p visited ok white_still)
          g.limit (g.bounded p ok) white_still,
      ap (unscanned g.limit) same_marks,
      process_and_remove-load p (record (visited) { marks = (mark_end_first visited.marks p).1 }),
      visit_all-load (record { col = c; last_ctrl = none; last_ctrl_marked = false }) (g.fields p),
    )

  pub mark_black-work : (p : ℕ) (c : Collector State) → work (mark_black g m p c) ≤ work c
  unfolding mark_black
  mark_black-work p c = elim (Bool-cases (g.valid p)) [
    | inr bad ↦ rw bad (omega arith)
    | inl ok ↦ elim (Bool-cases (is_marked c.marks p)) [
      | inl black ↦ rw (ok, black) (omega arith)
      | inr white ↦
          rw
            (
              ok,
              white,
              finish_black_lem g m [] p (visited p c ok white) ok (white_still p c ok white),
            )
            (finished-work p c ok white)
    ]
  ]

  round-work :
      (p : ℕ) (rest : List ℕ) (c : Collector State)
      → c.queue ≡ p ∷ rest
      → work (round g m p rest c) + 1 ≤ work c
  unfolding round work
  round-work p rest c e =
      omega
        (arith, mark_black-work p (record c { queue = rest; marking_ref = some p }), ap length e)

  -- With more fuel than work the collector ends, with an empty queue.
  pub empty_collector_stack_ends :
      (fuel : ℕ) (worked : Bool) (c : Collector State)
      → work c < fuel
      → (r : Bool × Collector State) × (empty_collector_stack g m fuel worked c ≡ some r)
        × (r.1.queue ≡ [])
  unfolding empty_collector_stack
  empty_collector_stack_ends zero worked c h = absurd (omega arith)
  empty_collector_stack_ends (suc fuel) worked c h =
      by_queue c.queue refl (λ c'. empty_collector_stack_ends fuel true c')
    where
      by_queue :
          (q : List ℕ)
          → c.queue ≡ q
          → ((c' : Collector State)
              → work c' < fuel
              → (r : Bool × Collector State) × (empty_collector_stack g m fuel true c' ≡ some r)
                × (r.1.queue ≡ []))
          → (r : Bool × Collector State) × (empty_collector_stack g m (suc fuel) worked c ≡ some r)
            × (r.1.queue ≡ [])
      by_queue [] e again = ((worked, c), rw e, e)
      by_queue (p ∷ rest) e again =
          let (r, done, none_left) =
            again (round g m p rest c) (omega (arith, round-work p rest c e)) in
          (r, rw (e, done), none_left)
