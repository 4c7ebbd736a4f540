-- ===== src/Tracing/Sound.antt =====
-- Tracing marks nothing that is not live.
use mpgc.Prelude.{
  In, ℕ, ◌≡◌, refl, inl, inr, List, [], ◌∷◌, Option, none, some, Bool, true, false, if◌then◌else◌,
  Bool-cases, arith, ◌==◌, ==_iff, subst, ◌∙◌,
}
use mpgc.Tracing.Graph.{
  Graph, Field, null, strong, weak, contingent, HasStrong, IsControlled, IsLive, by_strong,
  by_contingent,
}
use mpgc.Tracing.Marks.{Marks}
use mpgc.Tracing.CtrlMap.{waiting, insert, Holds, Holds-waiting, Holds-remove, Holds-insert}
use mpgc.Tracing.Collector.{
  Collector, Visit, push, visit, visit_contingent, visit_all, push_unmarked, process_and_remove,
  mark_black,
}
use mpgc.Tracing.Visit.{visit-Grows, visit_all-Grows, last_after_strong, last_after_contingent}
use mpgc.Tracing.Black.{finish_black_lem}

module _ (g : Graph) (m : Marks g.valid) (roots : List ℕ) where
  open m use {State, is_marked, mark_end_first, mark_claims, mark_marks}

  abbrev Live : ℕ → Type 0
  Live = IsLive g roots

  pub record IsSound (c : Collector State) : Type 0 where
    pub marked : (x : ℕ) → is_marked c.marks x ≡ true → IsLive g roots x
    pub queued : (x : ℕ) → In x c.queue → g.valid x ≡ true → IsLive g roots x
    pub waits :
        (k t : ℕ) → Holds k t c.ctrl_map → IsLive g roots k → g.valid t ≡ true → IsLive g roots t

  push-IsSound :
      (t : ℕ) (c : Collector State)
      → (g.valid t ≡ true → Live t)
      → IsSound c
      → IsSound (push g m t c)
  unfolding push
  push-IsSound t c ok s = record {
    marked = s.marked;
    queued = λ x h e. elim h [ inl same ↦ rw same (ok (rw (← same) e)) | inr q ↦ s.queued x q e ];
    waits = s.waits;
  }

  insert-IsSound :
      (k t : ℕ) (c : Collector State)
      → (Live k → g.valid t ≡ true → Live t)
      → IsSound c
      → IsSound (record c { ctrl_map = insert k t c.ctrl_map })
  insert-IsSound k t c ok s = record {
    marked = s.marked;
    queued = s.queued;
    waits = λ j x h live e. elim (Holds-insert k t j x c.ctrl_map h) [
      | inl both ↦ rw both.1 (ok (rw (← both.0) live) (rw (← both.1) e))
      | inr old ↦ s.waits j x old live e
    ];
  }

  -- `last_ctrl_marked` is no guess.
  abbrev IsFresh : Visit State → Type 0
  IsFresh v = (k : ℕ) → v.last_ctrl ≡ some k → v.last_ctrl_marked ≡ is_marked v.col.marks k

  visit_contingent-IsSound :
      (t k : ℕ) (v : Visit State)
      → v.last_ctrl_marked ≡ is_marked v.col.marks k
      → (Live k → g.valid t ≡ true → Live t)
      → IsSound v.col
      → IsSound (visit_contingent g m t (some k) v).col
  unfolding visit_contingent
  visit_contingent-IsSound t k v fresh ok s = elim (Bool-cases (is_marked v.col.marks k)) [
    | inl black ↦
        let e : v.last_ctrl_marked ≡ true = fresh ∙ black in
        rw e (push-IsSound t v.col (ok (s.marked k black)) s)
    | inr white ↦
        let e : v.last_ctrl_marked ≡ false = fresh ∙ white in
        rw (e, white) (insert-IsSound k t v.col ok s)
  ]

  visit-IsSound :
      (v : Visit State) (f : Field) (fs : List Field)
      → IsFresh v
      → ((t : ℕ) → HasStrong t (f ∷ fs) → g.valid t ≡ true → Live t)
      → ((k t : ℕ) → IsControlled k t v.last_ctrl (f ∷ fs) → Live k → g.valid t ≡ true → Live t)
      → IsSound v.col
      → IsSound (visit g m v f).col
  unfolding visit
  visit-IsSound v (a, null) fs fresh hs hc s = s
  visit-IsSound v (a, weak t) fs fresh hs hc s = either (is_marked v.col.marks t)
    where
      either : (b : Bool) → IsSound (if b then v.col else record (v.col) { weak = a ∷ v.col.weak })
      either true = s
      either false = record { marked = s.marked; queued = s.queued; waits = s.waits }
  visit-IsSound v (a, strong t) fs fresh hs hc s = elim (Bool-cases (is_marked v.col.marks t)) [
    | inl e ↦ rw e s
    | inr e ↦ rw e (push-IsSound t v.col (hs t (inl refl)) s)
  ]
  visit-IsSound v (a, contingent t) fs fresh hs hc s = elim (Bool-cases (is_marked v.col.marks t)) [
    | inl e ↦ rw e s
    | inr e ↦ rw e (by_last v.last_ctrl refl)
  ]
    where
      by_last : (last : Option ℕ) → v.last_ctrl ≡ last → IsSound (visit_contingent g m t last v).col
      by_last none e = unfold visit_contingent in s
      by_last (some k) e = visit_contingent-IsSound t k v (fresh k e) (hc k t (inl (e, refl))) s

  visit-IsFresh : (v : Visit State) (f : Field) → IsFresh v → IsFresh (visit g m v f)
  unfolding visit visit_contingent
  visit-IsFresh v (a, null) fresh k e = cc
  visit-IsFresh v (a, weak t) fresh k e = cc ((visit-Grows g m v (a, weak t)).same_marks)
  visit-IsFresh v (a, strong t) fresh k e = ground arith
  visit-IsFresh v (a, contingent t) fresh k e = ground arith

  HasStrong-later : (f : Field) (fs : List Field) (t : ℕ) → HasStrong t fs → HasStrong t (f ∷ fs)
  HasStrong-later (a, null) fs t h = h
  HasStrong-later (a, strong s) fs t h = inr h
  HasStrong-later (a, weak s) fs t h = h
  HasStrong-later (a, contingent s) fs t h = h

  IsControlled-later :
      (v : Visit State) (f : Field) (fs : List Field) (k t : ℕ)
      → IsControlled k t (visit g m v f).last_ctrl fs
      → IsControlled k t v.last_ctrl (f ∷ fs)
  IsControlled-later v (a, null) fs k t h = unfold visit in h
  IsControlled-later v (a, weak s) fs k t h = unfold visit in h
  IsControlled-later v (a, strong s) fs k t h = rw (last_after_strong g m v a s) at h
  IsControlled-later v (a, contingent s) fs k t h = inr (rw (last_after_contingent g m v a s) at h)

  visit_all-IsSound :
      (v : Visit State) (fs : List Field)
      → IsFresh v
      → ((t : ℕ) → HasStrong t fs → g.valid t ≡ true → Live t)
      → ((k t : ℕ) → IsControlled k t v.last_ctrl fs → Live k → g.valid t ≡ true → Live t)
      → IsSound v.col
      → IsSound (visit_all g m v fs).col
  unfolding visit_all
  visit_all-IsSound v [] fresh hs hc s = s
  visit_all-IsSound v (f ∷ fs) fresh hs hc s =
      visit_all-IsSound (visit g m v f) fs (visit-IsFresh v f fresh)
        (λ t h. hs t (HasStrong-later f fs t h)) (λ k t h. hc k t (IsControlled-later v f fs k t h))
        (visit-IsSound v f fs fresh hs hc s)

  push_unmarked-IsSound :
      (ts : List ℕ) (c : Collector State)
      → ((t : ℕ) → In t ts → g.valid t ≡ true → Live t)
      → IsSound c
      → IsSound (push_unmarked g m ts c)
  unfolding push_unmarked
  push_unmarked-IsSound [] c ok s = s
  push_unmarked-IsSound (t ∷ ts) c ok s =
      push_unmarked-IsSound ts _ (λ x h. ok x (inr h)) (either (is_marked c.marks t))
    where
      either : (b : Bool) → IsSound (if b then c else push g m t c)
      either true = s
      either false = push-IsSound t c (ok t (inl refl)) s

  -- `mark_black` of an object that was in the queue, and so is live if it is valid.
  module _ (p : ℕ) (c : Collector State) (live : g.valid p ≡ true → Live p) (s : IsSound c) where
    abbrev visited : Collector State
    visited =
        (visit_all g m (record { col = c; last_ctrl = none; last_ctrl_marked = false })
          (g.fields p)).col

    visited-IsSound : g.valid p ≡ true → IsSound visited
    visited-IsSound ok =
        visit_all-IsSound (record { col = c; last_ctrl = none; last_ctrl_marked = false })
          (g.fields p) (λ k e. cc) (λ t h e. by_strong (live ok) h e)
          (λ k t h live_k e. by_contingent (live ok) h live_k e) s

    done-IsSound :
        (ok : g.valid p ≡ true)
        → IsSound (
            process_and_remove g m p
              (record (visited) { marks = (mark_end_first visited.marks p).1 }))
    unfolding process_and_remove
    done-IsSound ok = record {
      marked = pushed.marked;
      queued = pushed.queued;
      waits = λ k t h live_k e. v.waits k t (Holds-remove p k t visited.ctrl_map h) live_k e;
    }
      where
        v : IsSound visited
        v = visited-IsSound ok

        now : IsSound (record (visited) { marks = (mark_end_first visited.marks p).1 })
        now = record {
          marked = λ x e. elim (Bool-cases (p == x)) [
            | inl same ↦ subst Live ((==_iff p x).0 same) (live ok)
            | inr other ↦ v.marked x (ground (arith, mark_marks visited.marks p x ok))
          ];
          queued = v.queued;
          waits = v.waits;
        }

        pushed : IsSound (
            push_unmarked g m
              (waiting p visited.ctrl_map)
              (record (visited) { marks = (mark_end_first visited.marks p).1 }))
        pushed =
            push_unmarked-IsSound (waiting p visited.ctrl_map) _
              (λ t h e. v.waits p t (Holds-waiting p t visited.ctrl_map h) (live ok) e) now

    pub mark_black-IsSound : IsSound (mark_black g m p c)
    unfolding mark_black
    mark_black-IsSound = elim (Bool-cases (g.valid p)) [
      | inr bad ↦ rw bad s
      | inl ok ↦ elim (Bool-cases (is_marked c.marks p)) [
        | inl black ↦ rw (ok, black) s
        | inr white ↦
            rw
              (
                ok,
                white,
                finish_black_lem g m roots p visited ok (
                    rw
                      (visit_all-Grows g m
                        (record { col = c; last_ctrl = none; last_ctrl_marked = false })
                        (g.fields p)).same_marks
                      white),
              )
              (done-IsSound ok)
      ]
    ]
