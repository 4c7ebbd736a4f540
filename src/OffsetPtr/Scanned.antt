-- ===== src/OffsetPtr/Scanned.antt =====
-- The scan of a thread's stack by src/gc_handshake.cpp, with the words of include/mpgc/offset_ptr.h.
use mpgc.Prelude.{
  ℕ, ◌+◌, ◌-◌, ◌*◌, ◌^◌, ◌≤◌, ◌<◌, ◌≡◌, refl, sym, ◌∙◌, subst, arith, Bool, true, false, not, ◌&&◌,
  ◌==◌, some, ◌>>=◌, ◌⊎◌, inl, inr, ==-refl,
}
use mpgc.Handshake.Defs.{
  Words, Stack, GcStatus, ThreadStruct, mark_gray, process_word, hdl_async, mem, is_signum,
  sig_async,
}
use mpgc.Handshake.Rounds.{IsReady}
use mpgc.Handshake.Scan.{IsGrayWord, found, hdl_async-found, process_word-gray}
use mpgc.OffsetPtr.Defs.{
  Heap, initialize, compute_val, is_heap_address, could_be_offset_ptr, remove_special_bits, is_null,
  is_valid, is_strong, is_contingent, is_weak, is_signature_valid, is_inside_heap,
}
use mpgc.OffsetPtr.Values.{InHeap, compute_val_lem, is_weak_lem, remove_special_bits_lem}
use mpgc.OffsetPtr.Pointers.{compute_val-IsPointer}

-- The tests of a word that scanning makes. Whether there is an object at a pointer, and whether it is
-- marked, is asked of its descriptor and of the bitmap.
unfoldable pub words_of : Heap → (ℕ → Bool) → (ℕ → Bool) → Words
words_of h is_valid_object is_marked = record {
  is_address = is_heap_address h;
  to_offset_ptr = compute_val h;
  could_be_offset_ptr = could_be_offset_ptr h;
  remove_special_bits = remove_special_bits;
  is_null = is_null;
  is_valid = is_valid h;
  is_valid_object = is_valid_object;
  is_strong = is_strong;
  is_contingent = is_contingent;
  is_weak = is_weak;
  is_marked = is_marked;
}

valid-could_be : (h : Heap) (x : ℕ) → is_valid h x ≡ true → could_be_offset_ptr h x ≡ true
unfolding is_valid could_be_offset_ptr
valid-could_be h x e = second (not (x == 0)) (is_signature_valid x && is_inside_heap h x) e
  where
    second : (b c : Bool) → (b && c) ≡ true → c ≡ true
    second true c e = e
    second false c e = absurd (cc)

module _ (base size : ℕ) (is_valid_object is_marked : ℕ → Bool) where
  -- A pointer to an object in the heap that is not marked.
  pub record IsUnmarked (p : ℕ) : Type 0 where
    pub in_heap : InHeap base size p
    pub object_valid : is_valid_object (compute_val (initialize base size) p) ≡ true
    pub no_mark : is_marked (compute_val (initialize base size) p) ≡ false

module _ (base size : ℕ) (positive : 0 < base) (fits : base + 2 ^ 52 < 2 ^ 64)
    (small : size ≤ 2 ^ 52) (is_valid_object is_marked : ℕ → Bool) where
  abbrev words : Words
  words = words_of (initialize base size) is_valid_object is_marked

  no_weak : (p : ℕ) → InHeap base size p → is_weak (compute_val (initialize base size) p) ≡ false
  no_weak p h =
      let from = h.from in
      let below = h.below in
      let aligned = h.aligned in
      let x = compute_val (initialize base size) p in
      let e : x ≡ 10 * 2 ^ 52 + (p - base) = compute_val_lem base size positive fits small p h in
      is_weak_lem x (omega arith) ∙ ground arith

  removed :
      (p : ℕ)
      → InHeap base size p
      → remove_special_bits (compute_val (initialize base size) p)
        ≡ compute_val (initialize base size) p
  removed p h =
      let from = h.from in
      let below = h.below in
      let aligned = h.aligned in
      let x = compute_val (initialize base size) p in
      let e : x ≡ 10 * 2 ^ 52 + (p - base) = compute_val_lem base size positive fits small p h in
      omega (arith, remove_special_bits_lem x (omega arith))

  pub compute_val-IsGrayWord :
      (p : ℕ)
      → base + size ≤ 10 * 2 ^ 52
      → IsUnmarked base size is_valid_object is_marked p
      → IsGrayWord words (compute_val (initialize base size) p)
  unfolding words_of is_heap_address initialize
  compute_val-IsGrayWord p low u =
      let x = compute_val (initialize base size) p in
      let i = compute_val-IsPointer base size positive fits small p u.in_heap in
      let e : x ≡ 10 * 2 ^ 52 + (p - base) =
        compute_val_lem base size positive fits small p u.in_heap in
      let same = removed p u.in_heap in
      record {
        no_address = ground arith;
        could_be = valid-could_be (initialize base size) x i.valid;
        target_valid = rw same i.valid;
        object_valid = rw same u.object_valid;
        strong = i.strong;
        valid = i.valid;
        no_weak = no_weak p u.in_heap;
        no_mark = u.no_mark;
      }

  is_address : (p : ℕ) → InHeap base size p → is_heap_address (initialize base size) p ≡ true
  unfolding is_heap_address initialize
  is_address p h = let from = h.from in let below = h.below in ground arith

  -- A bare address in the heap is turned into its pointer.
  process_word-address :
      (p place l : ℕ) (t : ThreadStruct)
      → base + size ≤ 10 * 2 ^ 52
      → IsUnmarked base size is_valid_object is_marked p
      → mem (compute_val (initialize base size) p) (process_word words place p l t).1.mark_buffer
        ≡ true
  unfolding process_word mark_gray words_of
  process_word-address p place l t low u =
      let x = compute_val (initialize base size) p in
      let i = compute_val-IsPointer base size positive fits small p u.in_heap in
      rw (is_address p u.in_heap, i.valid, no_weak p u.in_heap, u.no_mark, ==-refl x) refl

  -- Let a heap of at most 2 ^ 52 bytes lie at an address that is not null, 2 ^ 52 bytes below the end of
  -- the address space, and end below the signature's bits; and let a thread that is in no write barrier,
  -- has left its first status and uses the free list of its process answer the async signal for the
  -- first time. If its stack holds the aligned address of an object that is not marked, as a bare address
  -- or as a pointer's word, then the pointer's word is in the mark buffer afterwards.
  pub hdl_async-compute_val :
      (process : GcStatus) (s : Stack) (t : ThreadStruct) (p word : ℕ)
      → base + size ≤ 10 * 2 ^ 52
      → IsReady process t
      → is_signum t.status_idx.status sig_async ≡ false
      → IsUnmarked base size is_valid_object is_marked p
      → (word ≡ p) ⊎ (word ≡ compute_val (initialize base size) p)
      → mem word s.words ≡ true
      → (hdl_async (words_of (initialize base size) is_valid_object is_marked) process s t >>= λ t'.
          some (mem (compute_val (initialize base size) p) t'.mark_buffer))
        ≡ some true
  hdl_async-compute_val process s t p word low ready later u (inl bare) there =
      let x = compute_val (initialize base size) p in
      hdl_async-found words process s t x ready later (
        found words x word s.start s.words 0 t
          (λ place l t.
            subst (λ w. mem x (process_word words place w l t).1.mark_buffer ≡ true) (sym bare)
              (process_word-address p place l t low u))
          there)
  hdl_async-compute_val process s t p word low ready later u (inr pointer) there =
      let x = compute_val (initialize base size) p in
      hdl_async-found words process s t x ready later (
        found words x x s.start s.words 0 t
          (λ place l t. process_word-gray words place x l t (compute_val-IsGrayWord p low u))
          (subst (λ w. mem w s.words ≡ true) pointer there))
