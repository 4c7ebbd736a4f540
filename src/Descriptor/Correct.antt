-- ===== src/Descriptor/Correct.antt =====
-- `to_descriptor` of src/gc_desc.cpp: the descriptor that it chooses says which fields hold
-- references.
use mpgc.Prelude.{
  ℕ, ◌+◌, ◌-◌, ◌%◌, ◌^◌, ◌≤◌, ◌<◌, ◌≡◌, ◌≢◌, ◌⊎◌, inl, inr, refl, sym, ap, ◌∙◌, List, [], ◌∷◌,
  length, true, false, not, ◌&&◌, ◌==◌, ltb, leb, if◌then◌else◌, Bool-cases, Option, some, none,
  arith, ℕ_discrete, ==_iff,
}
use mpgc.Descriptor.Defs.{
  count_from, bitmap, category, ExternalDescriptor, for_each_ref_index, object_n_fields,
}
use mpgc.Descriptor.Collector.{
  blob, list_rep, sort, missing, ExternalHeap, by_positive, by_list, to_descriptor,
}
use mpgc.Descriptor.Sorting.{
  IncreasingFrom, Distinct, AllBelow, sort-IncreasingFrom, length-sort, sort_short, missing-nil,
  IncreasingFrom-full, IncreasingFrom-length,
}
use mpgc.Descriptor.ListRep.{IsListRep}
use mpgc.Descriptor.Outcomes.{
  IsListRep-ne-zero, positive_outcome, negative_outcome, list_zero-IsListRep, blob-IsListRep,
}
use mpgc.Descriptor.Bitmaps.{
  below, bitmap_category, for_each_ref_index-bitmap_rep, object_n_fields-bitmap_rep,
}

not_zero : (x : ℕ) → x ≢ 0 → not (x == 0) ≡ true
not_zero x ne = ground arith

eq_false : (x y : ℕ) → x ≢ y → (x == y) ≡ false
eq_false x y ne = ground arith

module _ (h : ExternalHeap) where
  open h use {State, external_at, make_external}

  -- What the word of a descriptor, with the external descriptors at hand, says of an object with
  -- `n` fields and references in the fields `refs`.
  pub record IsDescriptor (n : ℕ) (refs : List ℕ) (r : ℕ × State) : Type 0 where
    pub size : object_n_fields (external_at r.1) r.0 ≡ some n
    pub visits :
        (for_each_ref_index (external_at r.1) r.0 ≡ some refs)
        ⊎ ((n ≤ 32)
            × (category r.0 ≡ bitmap)
            × (for_each_ref_index (external_at r.1) r.0 ≡ some (below (n - 1) refs)))

  listed-IsDescriptor :
      (n : ℕ) (refs : List ℕ) (rep : ℕ) (s : State)
      → IsListRep n refs rep
      → IsDescriptor n refs (rep, s)
  unfolding for_each_ref_index
  listed-IsDescriptor n refs rep s l = record {
    size = l.size_lem (external_at s);
    visits = inl (rw (l.category_lem, for_each_ref_index) l.refs_lem);
  }

  external-IsDescriptor :
      (n : ℕ) (refs : List ℕ) (s : State)
      → IsDescriptor n refs (make_external s (record { n_fields = n; ref_fields = refs }))
  unfolding for_each_ref_index object_n_fields
  external-IsDescriptor n refs s =
      let d : ExternalDescriptor = record { n_fields = n; ref_fields = refs } in
      record {
        size = rw (h.is_external s d, object_n_fields, h.is_there s d) refl;
        visits = inl (rw (h.is_external s d, for_each_ref_index, h.is_there s d) refl);
      }

  module _ (n : ℕ) (refs : List ℕ) (s : State) (some_fields : 0 < n)
      (inc : IncreasingFrom 0 n refs) where
    no_list-IsDescriptor : IsDescriptor n refs (by_positive h 0 n refs s)
    unfolding by_positive
    no_list-IsDescriptor = elim (Bool-cases (leb n 32)) [
      | inl few ↦ rw few (record {
        size = object_n_fields-bitmap_rep n refs some_fields (ground arith) inc (external_at s);
        visits = inr (
          ground arith,
          bitmap_category n refs some_fields (ground arith) inc,
          for_each_ref_index-bitmap_rep n refs some_fields (ground arith) inc (external_at s),
        );
      })
      | inr many ↦ rw many (external-IsDescriptor n refs s)
    ]

    by_positive-IsDescriptor :
        (pos : ℕ)
        → (pos ≡ 0) ⊎ IsListRep n refs pos
        → IsDescriptor n refs (by_positive h pos n refs s)
    unfolding by_positive
    by_positive-IsDescriptor pos (inl e) = rw e no_list-IsDescriptor
    by_positive-IsDescriptor pos (inr l) =
        rw (not_zero pos (IsListRep-ne-zero n refs pos l)) (listed-IsDescriptor n refs pos s l)

module _ (h : ExternalHeap) where
  open h use {State}

  abbrev pub Gives : ℕ → List ℕ → Option (ℕ × State) → Type 0
  Gives n refs o = (r : ℕ × State) × (o ≡ some r) × IsDescriptor h n refs r

  module _ (n : ℕ) (refs : List ℕ) (s : State) (fits : n < 2 ^ 33) (less : length refs < n)
      (not_eight : length refs ≢ 8) (inc : IncreasingFrom 0 n refs) where
    abbrev n_missing : ℕ
    n_missing = (n + 2 ^ 64 - length refs) % 2 ^ 64

    chosen-IsDescriptor :
        (neg : ℕ) (positive : ℕ × State)
        → (neg ≡ 0) ⊎ IsListRep n refs neg
        → IsDescriptor h n refs positive
        → IsDescriptor h n refs (if not (neg == 0) then (neg, s) else positive)
    chosen-IsDescriptor neg positive (inl e) d = rw e d
    chosen-IsDescriptor neg positive (inr l) d =
        rw (not_zero neg (IsListRep-ne-zero n refs neg l)) (listed-IsDescriptor h n refs neg s l)

    pub by_list-Gives : Gives n refs (by_list h n refs s)
    unfolding by_list
    by_list-Gives =
        let (pos, e, p) = positive_outcome n refs not_eight inc in
        let left = by_positive h pos n refs s in
        let d : IsDescriptor h n refs left =
          by_positive-IsDescriptor h n refs s (omega arith) inc pos p in
        rw e (elim (Bool-cases (ltb n_missing 8 && ltb n_missing (length refs))) [
          | inl few ↦
              let (neg, e', q) =
                negative_outcome n n_missing refs (ground arith) (omega arith) inc in
              rw (few, e')
                (
                  (if not (neg == 0) then (neg, s) else left),
                  refl,
                  chosen-IsDescriptor neg left q d,
                )
          | inr many ↦ rw many (left, refl, d)
        ])

  sorted_lem : (xs : List ℕ) → (if ltb 1 (length xs) then sort xs else xs) ≡ sort xs
  sorted_lem xs = elim (Bool-cases (ltb 1 (length xs))) [
    | inl e ↦ rw e refl
    | inr e ↦ rw e (sym (sort_short xs (ground arith)))
  ]

  all_there : (n : ℕ) (xs : List ℕ) → IncreasingFrom 0 n xs → length xs ≡ n → missing 0 [] n ≡ xs
  all_there n xs inc e =
      let end : 0 + n ≡ n = omega arith in
      missing-nil 0 n
      ∙ ap (λ k. count_from k 0) (omega arith)
      ∙ sym (IncreasingFrom-full n 0 xs (rw end inc) e)

  no_more : (xs : List ℕ) → length xs ≡ 0 → sort xs ≡ []
  unfolding sort
  no_more [] e = refl
  no_more (x ∷ xs) e = absurd (omega arith)

  -- Let the reference fields of a type with `n` fields be given, each once and in any order. Then
  -- `to_descriptor` makes a descriptor from which the number of fields is read back, and from which
  -- `for_each_ref_index` visits exactly these fields, in increasing order; but a bitmap descriptor,
  -- which is chosen for at most 32 fields, may lack the visit of the last field. Excluded are types
  -- too large for a blob, and those with just 8 reference fields of more.
  pub to_descriptor-IsDescriptor :
      (n : ℕ) (field_offsets : List ℕ) (s : State)
      → Distinct field_offsets
      → AllBelow n field_offsets
      → n < 2 ^ 33
      → (length field_offsets ≡ 8 → n ≡ 8)
      → (r : ℕ × State) × (to_descriptor h n field_offsets s ≡ some r)
        × IsDescriptor h n (sort field_offsets) r
  unfolding to_descriptor
  to_descriptor-IsDescriptor n offs s distinct all fits eight =
      let inc = sort-IncreasingFrom n offs distinct all in
      elim (ℕ_discrete (length offs) 0) [
        | yes e ↦
            rw (e, no_more offs e)
              ((blob n, s), refl, listed-IsDescriptor h n [] (blob n) s (blob-IsListRep n fits))
        | no some_refs ↦ elim (ℕ_discrete (length offs) n) [
          | yes e ↦
              let (rep, made, l) =
                list_zero-IsListRep n (sort offs) fits
                  (all_there n (sort offs) inc (length-sort offs ∙ e)) in
              rw (eq_false (length offs) 0 some_refs, (==_iff (length offs) n).1 e, made)
                ((rep, s), refl, listed-IsDescriptor h n (sort offs) rep s l)
          | no ne ↦
              rw (eq_false (length offs) 0 some_refs, eq_false (length offs) n ne, sorted_lem offs)
                (by_list-Gives n (sort offs) s fits
                  (omega (
                    arith,
                    length-sort offs,
                    IncreasingFrom-length 0 n (sort offs) (omega arith) inc,
                  ))
                  (λ e. ne (omega (arith, length-sort offs, eight))) inc)
        ]
      ]

  -- With just 8 reference fields of more, `to_descriptor` reads behind the end of `list_width`,
  -- whatever the fields are.
  pub to_descriptor_eight :
      (n : ℕ) (field_offsets : List ℕ) (s : State)
      → length field_offsets ≡ 8
      → 8 < n
      → to_descriptor h n field_offsets s ≡ none
  unfolding to_descriptor by_list list_rep
  to_descriptor_eight n offs s e more =
      let still : length (sort offs) ≡ 8 = length-sort offs ∙ e in
      rw
        (
          eq_false (length offs) 0 (omega arith),
          eq_false (length offs) n (omega arith),
          sorted_lem offs,
        )
        (rw still refl)
