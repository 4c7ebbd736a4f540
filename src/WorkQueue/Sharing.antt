-- ===== src/WorkQueue/Sharing.antt =====
-- What passes from one process's queue to another's: `steal` and `takeover_locals` of
-- include/mpgc/work_stealing_wq.h.
use mpgc.Prelude.{
  ℕ, zero, suc, ◌+◌, ◌≤◌, ◌≡◌, refl, ap, ◌∙◌, List, [], ◌∷◌, ◌++◌, Option, none, some, length,
  arith, Bool, true, false, get_or, get_elem?-eq-get_or,
}
use mathlib.Core.List.{append_assoc}
use native.Mathlib.Numerals.{add-one}
use mpgc.WorkQueue.Defs.{
  Buffer, WorkQueue, lf_pop, empty, push_from, push_buffer, takeover_locals, steal,
}
use mpgc.WorkQueue.Buffers.{IsBuffer, held, held_of, newest_first, AllOf, take_one_lem}
use mpgc.WorkQueue.Contents.{stacked, contents, IsQueue, push-IsPushed}

module _ {A : Type 0} (initial : A) where
  -- `r` says whether a buffer passed from the stack of `q` to `other`, and nothing else did.
  pub record IsStolen (q q' other' : WorkQueue A) (r : Bool) : Type 0 where
    pub is_queue : IsQueue initial q'
    pub other_is_queue : IsQueue initial other'
    pub same_front : q'.front ≡ q.front
    pub same_back : q'.back ≡ q.back
    pub passed : contents initial other' ++ stacked initial q'.stack ≡ stacked initial q.stack
    pub some_passed :
        r ≡ true
        → (top : Buffer A) × (q.stack ≡ top ∷ q'.stack)
          × (other' ≡ record { stack = []; front = none; back = some top })
    pub none_passed : r ≡ false → (q.stack ≡ []) × (q'.stack ≡ []) × (contents initial other' ≡ [])

  Steals : WorkQueue A → Option (Bool × WorkQueue A × WorkQueue A) → Type 0
  Steals q o =
      (r : Bool) × (q' : WorkQueue A) × (other' : WorkQueue A) × (o ≡ some (r, q', other'))
      × IsStolen q q' other' r

  steal_parts :
      (stack : List (Buffer A)) (f b : Option (Buffer A))
      → (let q : WorkQueue A = record { stack = stack; front = f; back = b } in
          IsQueue initial q → Steals q (steal q (record { stack = []; front = none; back = none })))
  unfolding Steals steal empty lf_pop
  steal_parts [] f b v = (
    false,
    record { stack = []; front = f; back = b },
    record { stack = []; front = none; back = none },
    refl,
    record {
      is_queue = v;
      other_is_queue = record { stack = tt; front = tt; back = tt; above = tt };
      same_front = refl;
      same_back = refl;
      passed = refl;
      some_passed = λ e. cc;
      none_passed = λ e. (refl, refl, refl);
    },
  )
  steal_parts (top ∷ stack) f b v = (
    true,
    record { stack = stack; front = f; back = b },
    record { stack = []; front = none; back = some top },
    refl,
    record {
      is_queue = record { stack = v.stack.1; front = v.front; back = v.back; above = v.above };
      other_is_queue = record { stack = tt; front = tt; back = v.stack.0; above = tt };
      same_front = refl;
      same_back = refl;
      passed = append_assoc (held initial top) [] (stacked initial stack);
      some_passed = λ e. (top, refl, refl);
      none_passed = λ e. cc;
    },
  )

  holds_some : (b : Buffer A) (ys : List A) → IsBuffer initial b → held initial b ++ ys ≡ [] → ⊥
  holds_some b ys v e = let (x, _, split) = take_one_lem initial b v in cc (ap (λ l. l ++ ys) split)

  -- An empty queue has no buffer at all.
  has_no_buffer :
      (stack : List (Buffer A)) (f b : Option (Buffer A))
      → (let q : WorkQueue A = record { stack = stack; front = f; back = b } in
          IsQueue initial q
          → contents initial q ≡ []
          → q ≡ record { stack = []; front = none; back = none })
  has_no_buffer [] none none v e = refl
  has_no_buffer (b ∷ stack) none none v e = absurd (holds_some b _ v.stack.0 e)
  has_no_buffer stack none (some b) v e = absurd (holds_some b _ v.back e)
  has_no_buffer stack (some f) b v e = absurd (holds_some f _ v.front e)

  -- `other` is empty. Then `steal` does not fail: it takes the buffer on top off the stack of `q` and
  -- makes it the back buffer of `other`, or, if the stack has none, answers false and leaves both
  -- queues as they are.
  pub steal-IsStolen :
      (q other : WorkQueue A)
      → IsQueue initial q
      → IsQueue initial other
      → contents initial other ≡ []
      → (r : Bool) × (q' : WorkQueue A) × (other' : WorkQueue A) × (steal q other
          ≡ some (r, q', other'))
        × IsStolen q q' other' r
  unfolding Steals
  steal-IsStolen q other v w e =
      rw (has_no_buffer other.stack other.front other.back w e)
        (steal_parts q.stack q.front q.back v)

  push_from_lem :
      (n i : ℕ) (buf : List A) (q : WorkQueue A) (base : List A)
      → i + n ≤ length buf
      → IsQueue initial q
      → contents initial q ≡ newest_first initial i buf ++ base
      → (q' : WorkQueue A) × (push_from initial n i buf q ≡ some q')
        × IsQueue initial q'
        × (contents initial q' ≡ newest_first initial (i + n) buf ++ base)
  unfolding push_from
  push_from_lem zero i buf q base le v e =
      let index : i + 0 ≡ i = omega arith in (q, refl, v, rw index e)
  push_from_lem (suc n) i buf q base le v e =
      let (q1, pushed, h) = push-IsPushed initial (get_or buf i initial) q v in
      let index : i + suc n ≡ (i + 1) + n = omega arith in
      let (q', done, v', e') =
        push_from_lem n (i + 1) buf q1 base (omega arith) h.is_queue
          (rw (add-one i) (h.contents_lem ∙ ap (λ l. get_or buf i initial ∷ l) e)) in
      (q', rw (get_elem?-eq-get_or buf i initial (omega arith), pushed) done, v', rw index e')

  push_buffer_lem :
      (o : Option (Buffer A)) (q : WorkQueue A)
      → AllOf initial o
      → IsQueue initial q
      → (q' : WorkQueue A) × (push_buffer initial o q ≡ some q')
        × IsQueue initial q'
        × (contents initial q' ≡ held_of initial o ++ contents initial q)
  unfolding push_buffer
  push_buffer_lem none q w v = (q, refl, v, refl)
  push_buffer_lem (some b) q w v =
      let index : 0 + b.write_idx ≡ b.write_idx = omega arith in
      let (q', done, v', e) =
        push_from_lem b.write_idx 0 b.buf q (contents initial q) (omega (arith, w.within, w.sized))
          v refl in
      (q', done, v', rw index at e)

  -- The entries that `other` had at hand are now in front of those of `q`, and `other` has only its
  -- stack left.
  pub takeover_locals_lem :
      (q other : WorkQueue A)
      → IsQueue initial q
      → IsQueue initial other
      → (q' : WorkQueue A) × (other' : WorkQueue A) × (takeover_locals initial q other
          ≡ some (q', other'))
        × IsQueue initial q'
        × IsQueue initial other'
        × (contents initial q'
            ≡ held_of initial other.back ++ (held_of initial other.front ++ contents initial q))
        × (contents initial other' ≡ stacked initial other.stack)
  unfolding takeover_locals
  takeover_locals_lem q other v w =
      let (q1, first, v1, e1) = push_buffer_lem other.front q w.front v in
      let (q2, second, v2, e2) = push_buffer_lem other.back q1 w.back v1 in
      (
        q2,
        record other { front = none; back = none },
        rw (first, second) refl,
        v2,
        record { stack = w.stack; front = tt; back = tt; above = tt },
        rw e1 at e2,
        refl,
      )
