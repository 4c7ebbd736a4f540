-- ===== src/Vector/Refines.antt =====
-- A vector does what a list does (include/mpgc/gc_vector.h).
use mpgc.Prelude.{
  bind-some, ℕ, zero, suc, ◌+◌, ◌-◌, ◌≤◌, ◌<◌, ◌≡◌, refl, sym, ap, ◌∙◌, List, [], ◌∷◌, ◌++◌, Option,
  none, some, subst, length, get_elem?, replicate, take, drop, arith, ltb, leb, if◌then◌else◌,
  ◌>>=◌, ◌&&◌, Bool, true, false, Bool-cases, inl, inr, ltb→lt,
}
use mathlib.Core.List.{append-nil}
use mpgc.Vector.Defs.{
  Vector, gc_basic_vector, resize, pop_back, insert, insert_range, erase_range, at, to_access,
}
use mpgc.Vector.Represents.{Represents, Yields, resize-grow, resize-shrink, ensure_capacity_lem}
use mpgc.Vector.Inserts.{insert_lem, insert_range_lem, erase-eq-erase_range, erase_range_lem}
use mpgc.Vector.Ends.{
  clear_lem, pop_back_lem, pop_back_empty, push_back_lem, assign_lem, assign_range_lem,
}
use mpgc.Vector.Pieces.{take-append-drop, length-take, take-all, ltb-false, length-drop, drop-drop}
use mpgc.Vector.History.{
  Call, perform, perform_all, perform_list, perform_all_list, call_assign, call_assign_range,
  call_reserve, call_resize, call_clear, call_push_back, call_pop_back, call_insert,
  call_insert_range, call_erase, call_erase_range,
}

pub guard-some :
    {A : Type 0} (b : Bool) (l ys : List A)
    → (if b then some l else none) ≡ some ys
    → (b ≡ true) × (l ≡ ys)
guard-some true l ys e = (refl, cc)
guard-some false l ys e = absurd cc

pub and-true : (a b : Bool) → (a && b) ≡ true → (a ≡ true) × (b ≡ true)
and-true true b e = (refl, e)
and-true false b e = absurd cc

pub leb→le : (a b : ℕ) → leb a b ≡ true → a ≤ b
leb→le a b h = ground arith

pub prefix-get :
    {A : Type 0} (xs ys : List A) (i : ℕ) → i < length xs → get_elem? (xs ++ ys) i ≡ get_elem? xs i
prefix-get [] ys i h = absurd (omega arith)
prefix-get (x ∷ xs) ys zero h = refl
prefix-get (x ∷ xs) ys (suc i) h = prefix-get xs ys i (omega arith)

sub-zero : (a b : ℕ) → a ≤ b → a - b ≡ 0
sub-zero a b h = omega arith

add-back : (a b : ℕ) → leb a b ≡ false → b + (a - b) ≡ a
add-back a b h = ground arith

module _ {A : Type 0} (initial : A) where
  result-some : (l ys : List A) → some l ≡ some ys → l ≡ ys
  result-some l ys e = cc

  equal :
      (l ys : List A) (o : Option (Vector A)) → l ≡ ys → Yields initial l o → Yields initial ys o
  equal l ys o e h = subst (λ l'. Yields initial l' o) e h

  chosen :
      (l ys : List A) (o : Option (Vector A))
      → some l ≡ some ys
      → Yields initial l o
      → Yields initial ys o
  chosen l ys o e h = equal l ys o (result-some l ys e) h

  yields :
      (v : Vector A) (xs ys : List A)
      → Represents initial xs v
      → some xs ≡ some ys
      → Yields initial ys (some v)
  yields v xs ys h e = record {
    vector = v;
    succeeds = refl;
    represents = subst (λ l. Represents initial l v) (result-some xs ys e) h;
  }

  parts :
      (n : ℕ) (xs : List A) (v : Vector A)
      → Represents initial xs v
      → Represents initial (take n xs ++ drop n xs) v
  parts n xs v h = subst (λ l. Represents initial l v) (sym (take-append-drop n xs)) h

  pub resize_lem :
      (n : ℕ) (xs : List A) (v : Vector A)
      → Represents initial xs v
      → Yields initial (take n xs ++ replicate (n - length xs) initial) (resize initial n v)
  resize_lem n xs v h = elim (Bool-cases (leb n (length xs))) [
    | inl less ↦
        rw (sub-zero n (length xs) (leb→le n (length xs) less), append-nil (take n xs))
          (subst (λ k. Yields initial (take n xs) (resize initial k v))
            (length-take n xs (leb→le n (length xs) less))
            (resize-shrink initial (take n xs) (drop n xs) v (parts n xs v h)))
    | inr more ↦ rw (take-all n xs (ground (arith, more))) (
        subst (λ k. Yields initial (xs ++ replicate (n - length xs) initial) (resize initial k v))
          (add-back n (length xs) more) (resize-grow initial (n - length xs) xs v h))
  ]

  pub insert_at :
      (i n : ℕ) (x : A) (xs : List A) (v : Vector A)
      → Represents initial xs v
      → i ≤ length xs
      → Yields initial (take i xs ++ (replicate n x ++ drop i xs)) (insert initial i n x v)
  insert_at i n x xs v h le =
      subst
        (λ k. Yields initial (take i xs ++ (replicate n x ++ drop i xs)) (insert initial k n x v))
        (length-take i xs le) (insert_lem initial n x (take i xs) (drop i xs) v (parts i xs v h))

  pub insert_range_at :
      (i : ℕ) (from xs : List A) (v : Vector A)
      → Represents initial xs v
      → i ≤ length xs
      → Yields initial (take i xs ++ (from ++ drop i xs)) (insert_range initial i from v)
  insert_range_at i from xs v h le =
      subst (λ k. Yields initial (take i xs ++ (from ++ drop i xs)) (insert_range initial k from v))
        (length-take i xs le)
        (insert_range_lem initial from (take i xs) (drop i xs) v (parts i xs v h))

  pub erase_range_at :
      (i j : ℕ) (xs : List A) (v : Vector A)
      → Represents initial xs v
      → i ≤ j
      → j ≤ length xs
      → Yields initial (take i xs ++ drop j xs) (erase_range initial i j v)
  erase_range_at i j xs v h ij jn =
      let mid : List A = take (j - i) (drop i xs) in
      let front : length (take i xs) ≡ i = length-take i xs (omega arith) in
      let back : length (take i xs) + length mid ≡ j =
        omega (arith, front, length-take (j - i) (drop i xs) (omega (arith, length-drop i xs))) in
      let rest : drop (j - i) (drop i xs) ≡ drop j xs =
        drop-drop (j - i) i xs ∙ ap (λ k. drop k xs) (omega arith) in
      let whole : xs ≡ take i xs ++ (mid ++ drop j xs) =
        sym (take-append-drop i xs)
        ∙ ap (λ l. take i xs ++ l)
            (sym (take-append-drop (j - i) (drop i xs)) ∙ ap (λ l. mid ++ l) rest) in
      subst (λ k. Yields initial (take i xs ++ drop j xs) (erase_range initial k j v)) front
        (subst
          (λ k.
            Yields initial (take i xs ++ drop j xs) (erase_range initial (length (take i xs)) k v))
          back
          (erase_range_lem initial (take i xs) mid (drop j xs) v
            (subst (λ l. Represents initial l v) whole h)))

  pub pop_back_at :
      (xs : List A) (v : Vector A)
      → Represents initial xs v
      → Yields initial (take (length xs - 1) xs) (pop_back initial v)
  pop_back_at [] v h = pop_back_empty initial v h
  pop_back_at (x ∷ xs) v h =
      let n : ℕ = length (x ∷ xs) - 1 in
      pop_back_lem initial (take n (x ∷ xs)) (drop n (x ∷ xs)) v (parts n (x ∷ xs) v h)
        (omega (arith, length-drop n (x ∷ xs)))

module _ {A : Type 0} (initial : A) where
  -- `at` reads the elements of the list.
  at_lem :
      (xs : List A) (v : Vector A) (i : ℕ)
      → Represents initial xs v
      → i < length xs
      → at v i ≡ to_access (get_elem? xs i)
  unfolding at
  at_lem xs v i h lt =
      rw
        (
          ltb-false v.size i (omega (arith, h.same_size)),
          h.contents,
          prefix-get xs (replicate h.spare initial) i lt,
        )
        refl

module _ {A : Type 0} (initial : A) (is_initial : A → Bool) (same : is_initial initial ≡ true) where
  perform_lem :
      (c : Call A) (xs ys : List A) (v : Vector A)
      → Represents initial xs v
      → perform_list initial c xs ≡ some ys
      → Yields initial ys (perform initial is_initial c v)
  unfolding perform perform_list
  perform_lem (call_assign n x) xs ys v h e = chosen initial _ _ _ e (assign_lem initial n x v)
  perform_lem (call_assign_range from) xs ys v h e =
      chosen initial _ _ _ e (assign_range_lem initial from v)
  perform_lem (call_reserve n) xs ys v h e =
      yields initial _ xs ys (ensure_capacity_lem initial n xs v h) e
  perform_lem (call_resize n) xs ys v h e = chosen initial _ _ _ e (resize_lem initial n xs v h)
  perform_lem call_clear xs ys v h e = chosen initial _ _ _ e (clear_lem initial xs v h)
  perform_lem (call_push_back x) xs ys v h e =
      chosen initial _ _ _ e (push_back_lem initial is_initial x xs v same h)
  perform_lem call_pop_back xs ys v h e = chosen initial _ _ _ e (pop_back_at initial xs v h)
  perform_lem (call_insert i n x) xs ys v h e =
      let g = guard-some (leb i (length xs)) _ ys e in
      equal initial _ _ _ g.1 (insert_at initial i n x xs v h (leb→le i (length xs) g.0))
  perform_lem (call_insert_range i from) xs ys v h e =
      let g = guard-some (leb i (length xs)) _ ys e in
      equal initial _ _ _ g.1 (insert_range_at initial i from xs v h (leb→le i (length xs) g.0))
  perform_lem (call_erase i) xs ys v h e =
      let g = guard-some (ltb i (length xs)) _ ys e in
      rw (erase-eq-erase_range initial i v) (
        equal initial _ _ _ g.1 (
          erase_range_at initial i (i + 1) xs v h (omega arith)
            (omega (arith, ltb→lt i (length xs) g.0))))
  perform_lem (call_erase_range i j) xs ys v h e =
      let g = guard-some (leb i j && leb j (length xs)) _ ys e in
      let b = and-true (leb i j) (leb j (length xs)) g.0 in
      equal initial _ _ _ g.1
        (erase_range_at initial i j xs v h (leb→le i j b.0) (leb→le j (length xs) b.1))

  -- Let a vector, whose elements are of a type that is `zero_init_okay`, stand for a list, and let calls
  -- be given that a list can perform. Then they succeed on the vector, which afterwards stands for the
  -- list's result.
  pub perform_all-IsVector :
      (cs : List (Call A)) (xs ys : List A) (v : Vector A)
      → Represents initial xs v
      → perform_all_list initial cs xs ≡ some ys
      → Yields initial ys (perform_all initial is_initial cs v)
  unfolding perform_all perform_all_list
  perform_all-IsVector [] xs ys v h e = yields initial v xs ys h e
  perform_all-IsVector (c ∷ cs) xs ys v h e =
      let b = bind-some (perform_list initial c xs) (perform_all_list initial cs) ys e in
      let y = perform_lem c xs b.0 v h b.1 in
      rw y.succeeds (perform_all-IsVector cs b.0 ys y.vector y.represents b.2)

  empty-Represents : Represents initial [] (gc_basic_vector initial)
  empty-Represents = record { spare = 0; contents = refl; same_size = refl }

  -- After calls on a new vector that a list can perform, with elements of a type that is
  -- `zero_init_okay`, `at` reads the elements of that list.
  pub at-perform_all :
      (cs : List (Call A)) (ys : List A) (i : ℕ)
      → perform_all_list initial cs [] ≡ some ys
      → i < length ys
      → (perform_all initial is_initial cs (gc_basic_vector initial) >>= λ v. some (at v i))
        ≡ some (to_access (get_elem? ys i))
  at-perform_all cs ys i e lt =
      let y = perform_all-IsVector cs [] ys (gc_basic_vector initial) empty-Represents e in
      rw y.succeeds (ap some (at_lem initial ys y.vector i y.represents lt))
