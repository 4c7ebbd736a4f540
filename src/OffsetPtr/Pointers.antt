-- ===== src/OffsetPtr/Pointers.antt =====
-- Which words are pointers into a heap (include/mpgc/offset_ptr.h).
use mpgc.Prelude.{
  ℕ, ◌+◌, ◌-◌, ◌*◌, ◌/◌, ◌%◌, ◌^◌, ◌≤◌, ◌<◌, ◌≡◌, ◌↔◌, refl, sym, ap, ◌∙◌, arith, Bool, true, false,
  ◌&&◌, ◌==◌, some, ltb→lt, lt→ltb, ==_iff,
}
use mpgc.OffsetPtr.Defs.{
  initialize, used_val, is_null, offset_of, is_signature_valid, remove_special_bits, is_weak,
  is_strong, compute_val, is_inside_heap, is_ok, is_valid, could_be_offset_ptr, as_bare_pointer,
  is_equal, checked_offset,
}
use mpgc.OffsetPtr.Parts.{used_val_lem, offset_of_lem}
use mpgc.OffsetPtr.Values.{
  is_null_lem, is_signature_valid_lem, is_weak_lem, is_strong_lem, remove_special_bits_lem, InHeap,
  compute_val_lem, is_inside_heap_lem,
}

and-both : (b c : Bool) → (b && c) ≡ true → (b ≡ true) × (c ≡ true)
and-both true c h = (refl, h)
and-both false c h = absurd (cc)

module _ (base size : ℕ) where
  -- The word for an address in the heap.
  pub record IsPointer (p x : ℕ) : Type 0 where
    pub valid : is_valid (initialize base size) x ≡ true
    pub strong : is_strong x ≡ true
    pub checked : checked_offset (initialize base size) x ≡ some x
    pub bare : as_bare_pointer (initialize base size) x ≡ some p
    pub offset : offset_of x ≡ p - base
    pub equal : (q : ℕ) → InHeap base size q → is_equal (initialize base size) x q ≡ (q == p)

module _ (base size : ℕ) (positive : 0 < base) (fits : base + 2 ^ 52 < 2 ^ 64)
    (small : size ≤ 2 ^ 52) where
  -- Let a heap of at most 2 ^ 52 bytes lie at an address that is not null, 2 ^ 52 bytes below the end of
  -- the address space. A 64-bit word could be a pointer exactly when what is left of it without the bits
  -- above the signature and the special bits is the pointer made of some aligned address in the heap.
  pub could_be_offset_ptr_iff :
      (x : ℕ)
      → x < 2 ^ 64
      → (could_be_offset_ptr (initialize base size) x ≡ true) ↔ (
          (p : ℕ) × InHeap base size p
          × (remove_special_bits (used_val x) ≡ compute_val (initialize base size) p))
  unfolding could_be_offset_ptr
  could_be_offset_ptr_iff x h = (
    λ could_be.
        let both =
          and-both (is_signature_valid x) (is_inside_heap (initialize base size) x) could_be in
        let sig : x / 2 ^ 52 % 16 ≡ 10 =
          (==_iff (x / 2 ^ 52 % 16) 10).0 (sym (is_signature_valid_lem x h) ∙ both.0) in
        let inside : x % 2 ^ 52 / 8 * 8 < size =
          ltb→lt _ size (sym (is_inside_heap_lem base size positive fits small x h sig) ∙ both.1) in
        let p = base + x % 2 ^ 52 / 8 * 8 in
        let in_heap : InHeap base size p = record {
          from = omega arith;
          below = omega arith;
          aligned = omega arith;
        } in
        let less : used_val x < 2 ^ 64 = omega (arith, used_val_lem x h) in
        (
          p,
          in_heap,
          omega (
            arith,
            used_val_lem x h,
            remove_special_bits_lem (used_val x) less,
            compute_val_lem base size positive fits small p in_heap,
          ),
        ),
    λ (p, in_heap, e).
        let less : used_val x < 2 ^ 64 = omega (arith, used_val_lem x h) in
        let from = in_heap.from in
        let below = in_heap.below in
        let parts : x % 2 ^ 56 / 8 * 8 ≡ 10 * 2 ^ 52 + (p - base) = omega (
          arith,
          e,
          used_val_lem x h,
          remove_special_bits_lem (used_val x) less,
          compute_val_lem base size positive fits small p in_heap,
        ) in
        let sig : x / 2 ^ 52 % 16 ≡ 10 = omega arith in
        let inside : x % 2 ^ 52 / 8 * 8 < size = omega arith in
        rw
          (
            is_signature_valid_lem x h,
            sig,
            is_inside_heap_lem base size positive fits small x h sig,
            lt→ltb (x % 2 ^ 52 / 8 * 8) size inside,
          )
          refl,
  )

  -- In a heap of at most 2 ^ 52 bytes that lies at an address that is not null, 2 ^ 52 bytes below the end
  -- of the address space, the word made of an aligned address is a valid strong pointer that gives the
  -- address back, with the distance from the start of the heap as its offset; it equals that address
  -- and no other aligned one of the heap.
  pub compute_val-IsPointer :
      (p : ℕ) → InHeap base size p → IsPointer base size p (compute_val (initialize base size) p)
  unfolding is_valid checked_offset is_ok as_bare_pointer is_equal initialize
  compute_val-IsPointer p h =
      let from = h.from in
      let below = h.below in
      let aligned = h.aligned in
      let x = compute_val (initialize base size) p in
      let e : x ≡ 10 * 2 ^ 52 + (p - base) = compute_val_lem base size positive fits small p h in
      let word : x < 2 ^ 64 = omega arith in
      let digit : x / 2 ^ 52 % 16 ≡ 10 = omega arith in
      let sig : is_signature_valid x ≡ true = is_signature_valid_lem x word ∙ ground arith in
      let inside : is_inside_heap (initialize base size) x ≡ true =
        is_inside_heap_lem base size positive fits small x word digit ∙ ground arith in
      let null : is_null x ≡ false = is_null_lem x word ∙ ground arith in
      let used : used_val x ≡ x = omega (arith, used_val_lem x word) in
      let not_weak : is_weak x ≡ false = is_weak_lem x word ∙ ground arith in
      record {
        valid = rw (sig, inside) (ground arith);
        strong = is_strong_lem x word ∙ ground arith;
        checked = rw (sig, inside, null) refl;
        bare = rw (sig, null, not_weak, used) (ap some (omega arith));
        offset = omega (arith, offset_of_lem x word);
        equal = λ q hq. let from_q = hq.from in let below_q = hq.below in rw used (ground arith);
      }
