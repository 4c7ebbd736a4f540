-- ===== src/Tracing/Black.antt =====
-- `mark_black` keeps the tri-colour invariant: what a marked object points to is marked, waits in
-- the queue, or waits for its control.
use mpgc.Prelude.{
  In, ℕ, ◌≡◌, refl, ◌⊎◌, inl, inr, List, [], ◌∷◌, none, Bool, true, false, ◌||◌, if◌then◌else◌,
  Bool-cases, arith, ◌==◌, ==_iff, ==-refl, subst, sym, ◌∙◌,
}
use mpgc.Tracing.Graph.{Graph, HasStrong, IsControlled}
use mpgc.Tracing.Marks.{Marks}
use mpgc.Tracing.CtrlMap.{waiting, buffers-remove}
use mpgc.Tracing.Collector.{
  Collector, push, visit_all, push_unmarked, process_and_remove, finish_black, mark_black,
}
use mpgc.Tracing.Visit.{
  Grows, Grows-refl, Grows-trans, push-Grows, IsCovered, IsCoveredBy, IsCovered-Grows,
  IsCoveredBy-Grows, visit_all-Grows, visit_all-strong, visit_all-controlled,
}

module _ (g : Graph) (m : Marks g.valid) (roots : List ℕ) where
  open m use {State, is_marked, mark_end_first, mark_claims, mark_marks}

  pub record IsTriColour (c : Collector State) : Type 0 where
    pub root : (t : ℕ) → In t roots → IsCovered g m c t
    pub strong :
        (o t : ℕ) → is_marked c.marks o ≡ true → HasStrong t (g.fields o) → IsCovered g m c t
    pub controlled :
        (o k t : ℕ)
        → is_marked c.marks o ≡ true
        → IsControlled k t none (g.fields o)
        → IsCoveredBy g m c k t

  pub IsTriColour-Grows : {c c' : Collector State} → Grows g m c c' → IsTriColour c → IsTriColour c'
  IsTriColour-Grows gr inv = record {
    root = λ t h. IsCovered-Grows g m t gr (inv.root t h);
    strong = λ o t e h. IsCovered-Grows g m t gr (inv.strong o t (rw gr.same_marks at e) h);
    controlled =
        λ o k t e h. IsCoveredBy-Grows g m k t gr (inv.controlled o k t (rw gr.same_marks at e) h);
  }

  pub push_unmarked-Grows :
      (ts : List ℕ) (c : Collector State) → Grows g m c (push_unmarked g m ts c)
  unfolding push_unmarked
  push_unmarked-Grows [] c = Grows-refl g m c
  push_unmarked-Grows (t ∷ ts) c = elim (Bool-cases (is_marked c.marks t)) [
    | inl e ↦ rw e (push_unmarked-Grows ts c)
    | inr e ↦ rw e (Grows-trans g m (push-Grows g m t c) (push_unmarked-Grows ts (push g m t c)))
  ]

  pushed_one :
      (s : ℕ) (c : Collector State)
      → IsCovered g m (if is_marked c.marks s then c else push g m s c) s
  unfolding push
  pushed_one s c = elim (Bool-cases (is_marked c.marks s)) [
    | inl e ↦ inl (rw e e)
    | inr e ↦ rw e (inr (inl (inl refl)))
  ]

  pub push_unmarked-ctrl_map :
      (ts : List ℕ) (a : Collector State) → (push_unmarked g m ts a).ctrl_map ≡ a.ctrl_map
  unfolding push_unmarked push
  push_unmarked-ctrl_map [] a = refl
  push_unmarked-ctrl_map (t ∷ ts) a =
      push_unmarked-ctrl_map ts _ ∙ if_ctrl_map (is_marked a.marks t)
    where
      if_ctrl_map : (b : Bool) → (if b then a else push g m t a).ctrl_map ≡ a.ctrl_map
      if_ctrl_map true = refl
      if_ctrl_map false = refl

  push_unmarked-IsCovered :
      (ts : List ℕ) (c : Collector State) (t : ℕ)
      → In t ts
      → IsCovered g m (push_unmarked g m ts c) t
  unfolding push_unmarked
  push_unmarked-IsCovered [] c t h = absurd h
  push_unmarked-IsCovered (s ∷ ts) c t (inr h) = push_unmarked-IsCovered ts _ t h
  push_unmarked-IsCovered (s ∷ ts) c t (inl e) =
      rw e (IsCovered-Grows g m s (push_unmarked-Grows ts _) (pushed_one s c))

  -- The end of the visit of an object that is valid and not marked.
  module _ (p : ℕ) (c : Collector State) (ok : g.valid p ≡ true)
      (white : is_marked c.marks p ≡ false) where
    abbrev marked_now : Collector State
    marked_now = record c { marks = (mark_end_first c.marks p).1 }

    pub finish_black_lem : finish_black g m p c ≡ process_and_remove g m p marked_now
    unfolding finish_black
    finish_black_lem = rw (mark_claims c.marks p ok, white)

    abbrev done : Collector State
    done = process_and_remove g m p marked_now

    done_pushed : Grows g m marked_now (push_unmarked g m (waiting p c.ctrl_map) marked_now)
    done_pushed = push_unmarked-Grows (waiting p c.ctrl_map) marked_now

    pub done_marks : (q : ℕ) → is_marked done.marks q ≡ (p == q || is_marked c.marks q)
    unfolding process_and_remove
    done_marks q = rw done_pushed.same_marks (mark_marks c.marks p q ok)

    done_covers : (t : ℕ) → IsCovered g m c t → IsCovered g m done t
    unfolding process_and_remove
    done_covers t (inl e) = inl (rw (done_marks t, e) (ground arith))
    done_covers t (inr (inl q)) = inr (inl (done_pushed.queue t q))
    done_covers t (inr (inr e)) = inr (inr e)

    done-waiting : (t : ℕ) → In t (waiting p c.ctrl_map) → IsCovered g m done t
    unfolding process_and_remove
    done-waiting t h = push_unmarked-IsCovered (waiting p c.ctrl_map) marked_now t h

    done_covers_by : (k t : ℕ) → IsCoveredBy g m c k t → IsCoveredBy g m done k t
    done_covers_by k t (inl h) = inl (done_covers t h)
    done_covers_by k t (inr (e, w)) = elim (Bool-cases (p == k)) [
      | inl same ↦
          inl (
            done-waiting t (subst (λ j. In t (waiting j c.ctrl_map)) (sym ((==_iff p k).0 same)) w))
      | inr other ↦ inr (
        rw (done_marks k, other, e) refl,
        unfold process_and_remove in rw (buffers-remove p k c.ctrl_map other) w,
      )
    ]

  -- An object is taken from the queue: what it covered is covered, or is the object itself.
  taken :
      (p t : ℕ) (c c' : Collector State)
      → Grows g m c c'
      → IsCovered g m (push g m p c) t
      → (t ≡ p) ⊎ IsCovered g m c' t
  unfolding push
  taken p t c c' gr (inl e) = inr (inl (rw gr.same_marks e))
  taken p t c c' gr (inr (inl (inl e))) = inl e
  taken p t c c' gr (inr (inl (inr q))) = inr (inr (inl (gr.queue t q)))
  taken p t c c' gr (inr (inr e)) = inr (inr (inr e))

  module _ (p : ℕ) (c : Collector State) (inv : IsTriColour (push g m p c)) where
    skip-IsTriColour : ((g.valid p ≡ false) ⊎ (is_marked c.marks p ≡ true)) → IsTriColour c
    skip-IsTriColour why = record {
      root = λ t h. again t (inv.root t h);
      strong = λ o t e h. again t (inv.strong o t (unfold push in e) h);
      controlled = λ o k t e h. elim (inv.controlled o k t (unfold push in e) h) [
        | inl cov ↦ inl (again t cov)
        | inr w ↦ inr (unfold push in w)
      ];
    }
      where
        again : (t : ℕ) → IsCovered g m (push g m p c) t → IsCovered g m c t
        again t h = elim (taken p t c c (Grows-refl g m c) h) [
          | inl e ↦ rw e (elim why [ inl bad ↦ inr (inr bad) | inr black ↦ inl black ])
          | inr cov ↦ cov
        ]

    abbrev visited : Collector State
    visited =
        (visit_all g m (record { col = c; last_ctrl = none; last_ctrl_marked = false })
          (g.fields p)).col

    visited-Grows : Grows g m c visited
    visited-Grows =
        visit_all-Grows g m (record { col = c; last_ctrl = none; last_ctrl_marked = false })
          (g.fields p)

    module _ (ok : g.valid p ≡ true) (white : is_marked c.marks p ≡ false) where
      still_white : is_marked visited.marks p ≡ false
      still_white = rw visited-Grows.same_marks white

      blackened : Collector State
      blackened = done p visited ok still_white

      done-IsCovered : IsCovered g m (done p visited ok still_white) p
      done-IsCovered = inl (rw (done_marks p visited ok still_white p, ==-refl p) refl)

      kept :
          (t : ℕ) → IsCovered g m (push g m p c) t → IsCovered g m (done p visited ok still_white) t
      kept t h = elim (taken p t c visited visited-Grows h) [
        | inl e ↦ rw e done-IsCovered
        | inr cov ↦ done_covers p visited ok still_white t cov
      ]

      kept_by :
          (k t : ℕ)
          → IsCoveredBy g m (push g m p c) k t
          → IsCoveredBy g m (done p visited ok still_white) k t
      kept_by k t (inl h) = inl (kept t h)
      kept_by k t (inr (e, w)) = done_covers_by p visited ok still_white k t (
          inr (
            rw visited-Grows.same_marks (unfold push in e),
            visited-Grows.ctrl_map k t (unfold push in w),
          ))

      which :
          (o : ℕ)
          → is_marked (done p visited ok still_white).marks o ≡ true
          → (o ≡ p) ⊎ (is_marked c.marks o ≡ true)
      which o e = elim (Bool-cases (p == o)) [
        | inl same ↦ inl (sym ((==_iff p o).0 same))
        | inr other ↦
            inr (ground (arith, done_marks p visited ok still_white o, visited-Grows.same_marks))
      ]

      black-IsTriColour : IsTriColour (done p visited ok still_white)
      black-IsTriColour = record {
        root = λ t h. kept t (inv.root t h);
        strong = λ o t e h. elim (which o e) [
          | inl same ↦
              done_covers p visited ok still_white t (
                visit_all-strong g m _ (g.fields p) t
                  (subst (λ q. HasStrong t (g.fields q)) same h))
          | inr old ↦ kept t (inv.strong o t (unfold push in old) h)
        ];
        controlled = λ o k t e h. elim (which o e) [
          | inl same ↦ done_covers_by p visited ok still_white k t (
              visit_all-controlled g m _ (g.fields p) k t
                (subst (λ q. IsControlled k t none (g.fields q)) same h))
          | inr old ↦ kept_by k t (inv.controlled o k t (unfold push in old) h)
        ];
      }

    -- `mark_black` of the object that has just left the queue.
    pub mark_black-IsTriColour : IsTriColour (mark_black g m p c)
    unfolding mark_black
    mark_black-IsTriColour = elim (Bool-cases (g.valid p)) [
      | inr bad ↦ rw bad (skip-IsTriColour (inl bad))
      | inl ok ↦ elim (Bool-cases (is_marked c.marks p)) [
        | inl black ↦ rw (ok, black) (skip-IsTriColour (inr black))
        | inr white ↦
            rw (ok, white, finish_black_lem p visited ok (still_white ok white))
              (black-IsTriColour ok white)
      ]
    ]
