-- ===== src/Tracing/Collector.antt =====
-- One collector thread of src/gc_thread.cpp: its queue, the marks, and the map of contingent
-- pointers. No other thread works beside it, and no termination is requested. The bit that says
-- that a weak pointer was assigned during sweeping is not modelled. The
-- code is as it is built without assertions: a pointer whose target is no valid object is pushed, and
-- `mark_black` passes over it.
use mpgc.Prelude.{
  ℕ, zero, suc, List, [], ◌∷◌, Option, none, some, Bool, true, false, not, ◌||◌, ◌&&◌,
  if◌then◌else◌,
}
use mpgc.Tracing.Graph.{Graph, Field, null, strong, weak, contingent}
use mpgc.Tracing.Marks.{Marks}
use mpgc.Tracing.CtrlMap.{CtrlMap, insert, waiting, remove}

-- `Traversal_queue` is a stack (WorkQueue models it). `marking_ref` is the object at work, kept
-- where another process finds it; `weak` is the part of the weak bitmap that has been set.
pub record Collector (State : Type 0) : Type 0 where
  pub marks : State
  pub queue : List ℕ
  pub ctrl_map : CtrlMap
  pub weak : List ℕ
  pub marking_ref : Option ℕ

-- The variables that the visits of one object's fields share.
pub record Visit (State : Type 0) : Type 0 where
  pub col : Collector State
  pub last_ctrl : Option ℕ
  pub last_ctrl_marked : Bool

module _ (g : Graph) (m : Marks g.valid) where
  open m use {State, is_marked, mark_end_first}

  unfoldable pub push : ℕ → Collector State → Collector State
  push p c = record c { queue = p ∷ c.queue }

  -- The end of the visit of a contingent pointer to `t` that is not marked, by its control.
  unfoldable pub visit_contingent : ℕ → Option ℕ → Visit State → Visit State
  unfolding push
  visit_contingent t none v = v
  visit_contingent t (some ctrl) v =
      if not v.last_ctrl_marked && not (is_marked v.col.marks ctrl)
      then record v {
        col = record (v.col) { ctrl_map = insert ctrl t v.col.ctrl_map };
        last_ctrl = none;
      }
      else record v {
        col = push t (
            if v.last_ctrl_marked
            then v.col
            else record (v.col) { ctrl_map = insert ctrl t v.col.ctrl_map });
        last_ctrl = none;
      }

  -- The function that `mark_black` hands to `for_each_ref`.
  unfoldable pub visit : Visit State → Field → Visit State
  unfolding push visit_contingent
  visit v (addr, null) = record v { last_ctrl = none }
  visit v (addr, weak t) =
      let marked = is_marked v.col.marks t in
      record v {
        col = if marked then v.col else record (v.col) { weak = addr ∷ v.col.weak };
        last_ctrl = some t;
        last_ctrl_marked = marked;
      }
  visit v (addr, strong t) =
      if is_marked v.col.marks t
      then record v { last_ctrl = none }
      else record v { col = push t v.col; last_ctrl = none }
  visit v (addr, contingent t) =
      if is_marked v.col.marks t
      then record v { last_ctrl = none }
      else visit_contingent t v.last_ctrl v

  unfoldable pub visit_all : Visit State → List Field → Visit State
  unfolding visit
  visit_all v [] = v
  visit_all v (f ∷ fs) = visit_all (visit v f) fs

  -- What `mark_black` hands to `process_and_remove`.
  unfoldable pub push_unmarked : List ℕ → Collector State → Collector State
  unfolding push
  push_unmarked [] c = c
  push_unmarked (t ∷ ts) c = push_unmarked ts (if is_marked c.marks t then c else push t c)

  unfoldable pub process_and_remove : ℕ → Collector State → Collector State
  unfolding push_unmarked
  process_and_remove p c = record (push_unmarked (waiting p c.ctrl_map) c) {
    ctrl_map = remove p c.ctrl_map;
  }

  unfoldable pub finish_black : ℕ → Collector State → Collector State
  unfolding process_and_remove
  finish_black p c =
      let (first, marks') = mark_end_first c.marks p in
      if first
      then process_and_remove p (record c { marks = marks' })
      else record c { marks = marks' }

  unfoldable pub mark_black : ℕ → Collector State → Collector State
  unfolding visit_all finish_black
  mark_black p c =
      if not (g.valid p) || is_marked c.marks p
      then c
      else finish_black p
          (visit_all (record { col = c; last_ctrl = none; last_ctrl_marked = false })
            (g.fields p)).col

  -- One round of the loop below, for the object `p` at the front.
  unfoldable pub round : ℕ → List ℕ → Collector State → Collector State
  unfolding mark_black
  round p rest c = record (mark_black p (record c { queue = rest; marking_ref = some p })) {
    marking_ref = none;
  }

  -- `empty_collector_stack`, with whether it did anything; `none` is the end of the fuel.
  unfoldable pub empty_collector_stack :
      ℕ → Bool → Collector State → Option (Bool × Collector State)
  unfolding round
  empty_collector_stack zero worked c = none
  empty_collector_stack (suc fuel) worked c = elim (c.queue) [
    | [] ↦ some (worked, c)
    | p ∷ rest ↦ empty_collector_stack fuel true (round p rest c)
  ]
