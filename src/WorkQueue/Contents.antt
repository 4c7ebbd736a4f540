-- ===== src/WorkQueue/Contents.antt =====
-- `work_stealing_wq` (include/mpgc/work_stealing_wq.h) as a stack: what `push`, `empty`, `front` and
-- `pop` do to the list of its entries, the newest first.
use mpgc.Prelude.{
  ◌-◌, ◌<◌, ◌≡◌, refl, List, [], ◌∷◌, ◌++◌, Option, none, some, length, length-replicate, arith,
  ◌==◌, Bool-cases, inl, inr, true, false, Bool, ==_iff, lt→ltb, ◌||◌,
}
use mpgc.WorkQueue.Defs.{
  Buffer, WorkQueue, buffer_size, take_one, allocate, is_some, is_full, lf_push, lf_pop, push,
  push_front, push_back, or_allocate, empty, pop, pop_back, front,
}
use mpgc.WorkQueue.Buffers.{
  IsBuffer, held, held_of, AllOf, store_lem, take_one_lem, take_one-IsBuffer,
}

module _ {A : Type 0} (initial : A) where
  abbrev pub stacked : List (Buffer A) → List A
  stacked [] = []
  stacked (b ∷ bs) = held initial b ++ stacked bs

  abbrev pub contents : WorkQueue A → List A
  contents q = held_of initial q.front ++ (held_of initial q.back ++ stacked q.stack)

  abbrev pub AllBuffers : List (Buffer A) → Type 0
  AllBuffers [] = Unit
  AllBuffers (b ∷ bs) = IsBuffer initial b × AllBuffers bs

  -- `_front` is used only above a full `_back`, and is never full itself.
  abbrev pub IsAbove : Option (Buffer A) → Option (Buffer A) → Type 0
  IsAbove none back = Unit
  IsAbove (some f) none = ⊥
  IsAbove (some f) (some b) = (f.write_idx < buffer_size) × (b.write_idx ≡ buffer_size)

  pub record IsQueue (q : WorkQueue A) : Type 0 where
    pub stack : AllBuffers q.stack
    pub front : AllOf initial q.front
    pub back : AllOf initial q.back
    pub above : IsAbove q.front q.back

  -- What `push` of `p` has to do.
  pub record IsPushed (p : A) (q q' : WorkQueue A) : Type 0 where
    pub is_queue : IsQueue q'
    pub contents_lem : contents q' ≡ p ∷ contents q
    pub at_hand : is_some q'.front || is_some q'.back ≡ true

  abbrev Pushes : A → WorkQueue A → Option (WorkQueue A) → Type 0
  Pushes p q r = (q' : WorkQueue A) × (r ≡ some q') × IsPushed p q q'

  allocate_lem : length (allocate initial).buf ≡ buffer_size
  allocate_lem = length-replicate buffer_size initial

  -- `_back` has room, or is new.
  push_back-Pushes :
      (p : A) (stack : List (Buffer A)) (old : Option (Buffer A)) (b : Buffer A)
      → held initial b ≡ held_of initial old
      → length b.buf ≡ buffer_size
      → b.write_idx < buffer_size
      → AllBuffers stack
      → (let q : WorkQueue A = record { stack = stack; front = none; back = old } in
          Pushes p q (push_back initial p b q))
  unfolding push_back
  push_back-Pushes p stack old b same sized room ok =
      let (b', e, _, v, h) = store_lem initial p b sized room in
      (
        record { stack = stack; front = none; back = some b' },
        rw e refl,
        record {
          is_queue = record { stack = ok; front = tt; back = v; above = tt };
          contents_lem = rw (h, same) refl;
          at_hand = refl;
        },
      )

  -- `_back` is full; `f` is the front, or a new one.
  push_front-Pushes :
      (p : A) (stack : List (Buffer A)) (old : Option (Buffer A)) (back : Buffer A)
      → held initial (or_allocate initial old) ≡ held_of initial old
      → length (or_allocate initial old).buf ≡ buffer_size
      → (or_allocate initial old).write_idx < buffer_size
      → AllBuffers stack
      → IsBuffer initial back
      → back.write_idx ≡ buffer_size
      → (let q : WorkQueue A = record { stack = stack; front = old; back = some back } in
          Pushes p q (push_front initial p back q))
  unfolding push_front lf_push
  push_front-Pushes p stack old back same sized room ok v_back full =
      let (f, e, grown, v, h) = store_lem initial p (or_allocate initial old) sized room in
      elim (Bool-cases (is_full f)) [
        | inl yes_full ↦ (
          record { stack = back ∷ stack; front = none; back = some f },
          rw (e, yes_full) refl,
          record {
            is_queue = record { stack = (v_back, ok); front = tt; back = v; above = tt };
            contents_lem = rw (h, same) refl;
            at_hand = refl;
          },
        )
        | inr not_full ↦ (
          record { stack = stack; front = some f; back = some back },
          rw (e, not_full) refl,
          record {
            is_queue = record {
              stack = ok;
              front = v;
              back = v_back;
              above = (ground (arith, v.within), full);
            };
            contents_lem = rw (h, same) refl;
            at_hand = refl;
          },
        )
      ]

  push-Pushes :
      (p : A) (stack : List (Buffer A)) (f b : Option (Buffer A))
      → IsQueue (record { stack = stack; front = f; back = b })
      → (let q : WorkQueue A = record { stack = stack; front = f; back = b } in
          Pushes p q (push initial p q))
  unfolding push
  push-Pushes p stack none none v =
      push_back-Pushes p stack none (allocate initial) refl allocate_lem (omega arith) v.stack
  push-Pushes p stack (some f) none v = absurd v.above
  push-Pushes p stack (some f) (some b) v =
      rw (==_of_full b v.above.1)
        (push_front-Pushes p stack (some f) b refl v.front.sized v.above.0 v.stack v.back v.above.1)
    where
      ==_of_full : (b : Buffer A) → b.write_idx ≡ buffer_size → is_full b ≡ true
      ==_of_full b e = rw e refl
  push-Pushes p stack none (some b) v = elim (Bool-cases (is_full b)) [
    | inl full ↦ rw full (
        push_front-Pushes p stack none b refl allocate_lem (omega arith) v.stack v.back
          ((==_iff _ _).0 full))
    | inr room ↦ rw room (
        push_back-Pushes p stack (some b) b refl v.back.sized (ground (arith, v.back.within))
          v.stack)
  ]

  -- `push` succeeds, and puts the entry in front of all others.
  pub push-IsPushed :
      (p : A) (q : WorkQueue A)
      → IsQueue q
      → (q' : WorkQueue A) × (push initial p q ≡ some q') × IsPushed p q q'
  push-IsPushed p q v = push-Pushes p q.stack q.front q.back v

  -- What `empty` answers, and what it leaves: the same entries, with some of them at hand.
  pub record IsEmptied (q : WorkQueue A) (r : Bool × WorkQueue A) : Type 0 where
    pub is_queue : IsQueue r.1
    pub same : contents r.1 ≡ contents q
    pub none_left : r.0 ≡ true → contents q ≡ []
    pub some_left : r.0 ≡ false → (is_some r.1.front || is_some r.1.back) ≡ true

  by_parts :
      (stack : List (Buffer A)) (f b : Option (Buffer A))
      → (let q : WorkQueue A = record { stack = stack; front = f; back = b } in
          IsQueue q → IsEmptied q (empty q))
  unfolding empty lf_pop
  by_parts stack (some f) b v = record {
    is_queue = v;
    same = refl;
    none_left = λ e. cc;
    some_left = λ e. refl;
  }
  by_parts stack none (some b) v = record {
    is_queue = v;
    same = refl;
    none_left = λ e. cc;
    some_left = λ e. refl;
  }
  by_parts [] none none v = record {
    is_queue = v;
    same = refl;
    none_left = λ e. refl;
    some_left = λ e. cc;
  }
  by_parts (b ∷ stack) none none v = record {
    is_queue = record { stack = v.stack.1; front = tt; back = v.stack.0; above = tt };
    same = refl;
    none_left = λ e. cc;
    some_left = λ e. refl;
  }

  pub empty-IsEmptied : (q : WorkQueue A) → IsQueue q → IsEmptied q (empty q)
  empty-IsEmptied q v = by_parts q.stack q.front q.back v

  -- The newest entry, and what is left without it.
  pub record IsPopped (q : WorkQueue A) : Type 0 where
    pub x : A
    pub q' : WorkQueue A
    pub front_lem : front q ≡ some x
    pub pop_lem : pop q ≡ some q'
    pub is_queue : IsQueue q'
    pub contents_lem : contents q ≡ x ∷ contents q'

  take_one-IsAbove :
      (f b : Buffer A)
      → f.write_idx < buffer_size
      → b.write_idx ≡ buffer_size
      → IsAbove (take_one f) (some b)
  unfolding take_one
  take_one-IsAbove f b less full = elim (Bool-cases (f.write_idx - 1 == 0)) [
    | inl e ↦ rw e tt
    | inr e ↦ rw e (omega arith, full)
  ]

  pop_parts :
      (stack : List (Buffer A)) (f b : Option (Buffer A))
      → (let q : WorkQueue A = record { stack = stack; front = f; back = b } in
          IsQueue q → (is_some f || is_some b) ≡ true → IsPopped q)
  unfolding front pop pop_back
  pop_parts stack none none v h = cc
  pop_parts stack none (some b) v h =
      let (x, read, split) = take_one_lem initial b v.back in
      record {
        x = x;
        q' = record { stack = stack; front = none; back = take_one b };
        front_lem = read;
        pop_lem = rw (lt→ltb 0 b.write_idx v.back.used) refl;
        is_queue = record {
          stack = v.stack;
          front = tt;
          back = take_one-IsBuffer initial b v.back;
          above = tt;
        };
        contents_lem = rw split refl;
      }
  pop_parts stack (some f) none v h = absurd v.above
  pop_parts stack (some f) (some b) v h =
      let (x, read, split) = take_one_lem initial f v.front in
      record {
        x = x;
        q' = record { stack = stack; front = take_one f; back = some b };
        front_lem = read;
        pop_lem = rw (lt→ltb 0 f.write_idx v.front.used) refl;
        is_queue = record {
          stack = v.stack;
          front = take_one-IsBuffer initial f v.front;
          back = v.back;
          above = take_one-IsAbove f b v.above.0 v.above.1;
        };
        contents_lem = rw split refl;
      }

  -- With something at hand, as `empty` leaves it, `front` reads the newest entry and `pop` takes
  -- it out.
  pub pop-IsPopped :
      (q : WorkQueue A) → IsQueue q → (is_some q.front || is_some q.back) ≡ true → IsPopped q
  pop-IsPopped q v h = pop_parts q.stack q.front q.back v h
