-- ===== src/Tracing/Visit.antt =====
-- What the visit of an object's fields leaves behind, for each pointer among them.
use mpgc.Prelude.{
  In, ℕ, ◌≡◌, refl, ◌⊎◌, inl, inr, List, [], ◌∷◌, Option, none, some, Bool, true, false, not, ◌&&◌,
  if◌then◌else◌, Bool-cases, arith, ◌∙◌,
}
use mpgc.Tracing.Graph.{Graph, Field, null, strong, weak, contingent, HasStrong, IsControlled}
use mpgc.Tracing.Marks.{Marks}
use mpgc.Tracing.CtrlMap.{insert, waiting, In-waiting-insert, In-waiting-insert_self}
use mpgc.Tracing.Collector.{Collector, Visit, push, visit_contingent, visit, visit_all}

module _ (g : Graph) (m : Marks g.valid) where
  open m use {State, is_marked}

  -- The marks stay, and nothing is taken from the queue or from the map.
  pub record Grows (c c' : Collector State) : Type 0 where
    pub same_marks : c'.marks ≡ c.marks
    pub queue : (x : ℕ) → In x c.queue → In x c'.queue
    pub ctrl_map : (j x : ℕ) → In x (waiting j c.ctrl_map) → In x (waiting j c'.ctrl_map)

  pub Grows-refl : (c : Collector State) → Grows c c
  Grows-refl c = record { same_marks = refl; queue = λ x h. h; ctrl_map = λ j x h. h }

  pub Grows-trans : {a b c : Collector State} → Grows a b → Grows b c → Grows a c
  Grows-trans p q = record {
    same_marks = q.same_marks ∙ p.same_marks;
    queue = λ x h. q.queue x (p.queue x h);
    ctrl_map = λ j x h. q.ctrl_map j x (p.ctrl_map j x h);
  }

  pub push-Grows : (t : ℕ) (c : Collector State) → Grows c (push g m t c)
  unfolding push
  push-Grows t c = record { same_marks = refl; queue = λ x h. inr h; ctrl_map = λ j x h. h }

  insert-Grows :
      (k t : ℕ) (c : Collector State) → Grows c (record c { ctrl_map = insert k t c.ctrl_map })
  insert-Grows k t c = record {
    same_marks = refl;
    queue = λ x h. h;
    ctrl_map = λ j x h. In-waiting-insert k t j x c.ctrl_map h;
  }

  -- `t` needs no more attention: it is marked, will be looked at, or is no object.
  abbrev pub IsCovered : Collector State → ℕ → Type 0
  IsCovered c t = (is_marked c.marks t ≡ true) ⊎ In t c.queue ⊎ (g.valid t ≡ false)

  -- Or it waits for its control, which is not marked.
  abbrev pub IsCoveredBy : Collector State → ℕ → ℕ → Type 0
  IsCoveredBy c k t = IsCovered c t ⊎ ((is_marked c.marks k ≡ false) × In t (waiting k c.ctrl_map))

  pub IsCovered-Grows :
      {c c' : Collector State} (t : ℕ) → Grows c c' → IsCovered c t → IsCovered c' t
  IsCovered-Grows t gr (inl e) = inl (rw gr.same_marks e)
  IsCovered-Grows t gr (inr (inl q)) = inr (inl (gr.queue t q))
  IsCovered-Grows t gr (inr (inr e)) = inr (inr e)

  pub IsCoveredBy-Grows :
      {c c' : Collector State} (k t : ℕ) → Grows c c' → IsCoveredBy c k t → IsCoveredBy c' k t
  IsCoveredBy-Grows k t gr (inl h) = inl (IsCovered-Grows t gr h)
  IsCoveredBy-Grows k t gr (inr (e, w)) = inr (rw gr.same_marks e, gr.ctrl_map k t w)

  Grows-if :
      (c : Collector State) (b : Bool) (x y : Collector State)
      → Grows c x
      → Grows c y
      → Grows c (if b then x else y)
  Grows-if c true x y p q = p
  Grows-if c false x y p q = q

  Grows-if_visit :
      (c : Collector State) (b : Bool) (x y : Visit State)
      → Grows c x.col
      → Grows c y.col
      → Grows c (if b then x else y).col
  Grows-if_visit c true x y p q = p
  Grows-if_visit c false x y p q = q

  visit_contingent-Grows :
      (t : ℕ) (last : Option ℕ) (v : Visit State) → Grows v.col (visit_contingent g m t last v).col
  unfolding visit_contingent
  visit_contingent-Grows t none v = Grows-refl v.col
  visit_contingent-Grows t (some k) v =
      Grows-if_visit v.col (not v.last_ctrl_marked && not (is_marked v.col.marks k)) _ _
        (insert-Grows k t v.col)
        (Grows-trans
          (Grows-if v.col v.last_ctrl_marked _ _ (Grows-refl v.col) (insert-Grows k t v.col))
          (push-Grows t _))

  pub visit-Grows : (v : Visit State) (f : Field) → Grows v.col (visit g m v f).col
  unfolding visit
  visit-Grows v (a, null) = Grows-refl v.col
  visit-Grows v (a, weak t) =
      Grows-if v.col (is_marked v.col.marks t) _ _ (Grows-refl v.col)
        (record { same_marks = refl; queue = λ x h. h; ctrl_map = λ j x h. h })
  visit-Grows v (a, strong t) =
      Grows-if_visit v.col (is_marked v.col.marks t) _ _ (Grows-refl v.col) (push-Grows t v.col)
  visit-Grows v (a, contingent t) =
      Grows-if_visit v.col (is_marked v.col.marks t) _ _ (Grows-refl v.col)
        (visit_contingent-Grows t v.last_ctrl v)

  pub visit_all-Grows : (v : Visit State) (fs : List Field) → Grows v.col (visit_all g m v fs).col
  unfolding visit_all
  visit_all-Grows v [] = Grows-refl v.col
  visit_all-Grows v (f ∷ fs) = Grows-trans (visit-Grows v f) (visit_all-Grows (visit g m v f) fs)

  visit_strong : (v : Visit State) (a t : ℕ) → IsCovered (visit g m v (a, strong t)).col t
  unfolding visit push
  visit_strong v a t = elim (Bool-cases (is_marked v.col.marks t)) [
    | inl e ↦ inl (rw e e)
    | inr e ↦ inr (inl (rw e (inl refl)))
  ]

  pushed_contingent :
      (v : Visit State) (k t : ℕ)
      → (not v.last_ctrl_marked && not (is_marked v.col.marks k)) ≡ false
      → IsCovered (visit_contingent g m t (some k) v).col t
  unfolding visit_contingent push
  pushed_contingent v k t e = rw e (inr (inl (inl refl)))

  kept_contingent :
      (v : Visit State) (k t : ℕ)
      → v.last_ctrl_marked ≡ false
      → is_marked v.col.marks k ≡ false
      → IsCoveredBy (visit_contingent g m t (some k) v).col k t
  unfolding visit_contingent push
  kept_contingent v k t e e' = rw (e, e') (inr (e', In-waiting-insert_self k t v.col.ctrl_map))

  visit_controlled :
      (v : Visit State) (a k t : ℕ)
      → v.last_ctrl ≡ some k
      → IsCoveredBy (visit g m v (a, contingent t)).col k t
  unfolding visit
  visit_controlled v a k t last = elim (Bool-cases (is_marked v.col.marks t)) [
    | inl e ↦ inl (inl (rw e e))
    | inr e ↦
        rw (e, last)
          (elim (Bool-cases (not v.last_ctrl_marked && not (is_marked v.col.marks k))) [
            | inl keep ↦ kept_contingent v k t (ground arith) (ground arith)
            | inr go ↦ inl (pushed_contingent v k t go)
          ])
  ]

  -- After the visit every strong pointer among the fields is covered.
  pub visit_all-strong :
      (v : Visit State) (fs : List Field) (t : ℕ)
      → HasStrong t fs
      → IsCovered (visit_all g m v fs).col t
  unfolding visit_all
  visit_all-strong v [] t h = absurd h
  visit_all-strong v ((a, null) ∷ fs) t h = visit_all-strong (visit g m v (a, null)) fs t h
  visit_all-strong v ((a, weak s) ∷ fs) t h = visit_all-strong (visit g m v (a, weak s)) fs t h
  visit_all-strong v ((a, contingent s) ∷ fs) t h =
      visit_all-strong (visit g m v (a, contingent s)) fs t h
  visit_all-strong v ((a, strong s) ∷ fs) t (inr h) =
      visit_all-strong (visit g m v (a, strong s)) fs t h
  visit_all-strong v ((a, strong s) ∷ fs) t (inl e) =
      rw e (IsCovered-Grows s (visit_all-Grows (visit g m v (a, strong s)) fs) (visit_strong v a s))

  pub last_after_strong : (v : Visit State) (a t : ℕ) → (visit g m v (a, strong t)).last_ctrl ≡ none
  unfolding visit
  last_after_strong v a t = ground arith

  pub last_after_contingent :
      (v : Visit State) (a t : ℕ) → (visit g m v (a, contingent t)).last_ctrl ≡ none
  unfolding visit visit_contingent
  last_after_contingent v a t = ground arith

  -- And every contingent pointer with a control, by that control.
  pub visit_all-controlled :
      (v : Visit State) (fs : List Field) (k t : ℕ)
      → IsControlled k t v.last_ctrl fs
      → IsCoveredBy (visit_all g m v fs).col k t
  unfolding visit_all
  visit_all-controlled v [] k t h = absurd h
  visit_all-controlled v ((a, null) ∷ fs) k t h =
      visit_all-controlled (visit g m v (a, null)) fs k t (unfold visit in h)
  visit_all-controlled v ((a, weak s) ∷ fs) k t h =
      visit_all-controlled (visit g m v (a, weak s)) fs k t (unfold visit in h)
  visit_all-controlled v ((a, strong s) ∷ fs) k t h =
      visit_all-controlled (visit g m v (a, strong s)) fs k t (rw (last_after_strong v a s) h)
  visit_all-controlled v ((a, contingent s) ∷ fs) k t (inr h) =
      visit_all-controlled (visit g m v (a, contingent s)) fs k t
        (rw (last_after_contingent v a s) h)
  visit_all-controlled v ((a, contingent s) ∷ fs) k t (inl (last, e)) = rw e (
      IsCoveredBy-Grows k s (visit_all-Grows (visit g m v (a, contingent s)) fs)
        (visit_controlled v a k s last))
