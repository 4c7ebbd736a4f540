-- ===== src/Handshake/Scan.antt =====
-- What the handler of the async signal finds on the stack.
use mpgc.Prelude.{
  ℕ, ◌≡◌, refl, some, true, false, ◌>>=◌, ◌==◌, ==-refl, ==_iff, ap, subst, List, [], ◌∷◌, ◌+◌,
  ◌||◌, arith, ◌⊎◌, inl, inr, Bool-cases,
}
use mpgc.Handshake.Defs.{
  is_signum, sig_async, ThreadStruct, Words, Stack, GcStatus, process_stack, process_word,
  mark_gray, insert_contingent, mem, hdl_async,
}
use mpgc.Handshake.Rounds.{IsReady}

mem-cases :
    (p word : ℕ) (words : List ℕ) → mem p (word ∷ words) ≡ true → (p ≡ word) ⊎ (mem p words ≡ true)
mem-cases p word words h = elim (Bool-cases (p == word)) [
  | inl same ↦ inl ((==_iff p word).0 same)
  | inr other ↦ inr (subst (λ b. (b || mem p words) ≡ true) other h)
]

module _ (w : Words) where
  -- The word is a strong pointer to an object that is not marked yet.
  pub record IsGrayWord (word : ℕ) : Type 0 where
    pub no_address : w.is_address word ≡ false
    pub could_be : w.could_be_offset_ptr word ≡ true
    pub target_valid : w.is_valid (w.remove_special_bits word) ≡ true
    pub object_valid : w.is_valid_object (w.remove_special_bits word) ≡ true
    pub strong : w.is_strong word ≡ true
    pub valid : w.is_valid word ≡ true
    pub no_weak : w.is_weak word ≡ false
    pub no_mark : w.is_marked word ≡ false

  pub mem-mark_gray :
      (p q : ℕ) (t : ThreadStruct)
      → mem p t.mark_buffer ≡ true
      → mem p (mark_gray w q t).mark_buffer ≡ true
  unfolding mark_gray
  mem-mark_gray p q t h = ground arith

  mem-insert_contingent :
      (p l q : ℕ) (t : ThreadStruct)
      → mem p t.mark_buffer ≡ true
      → mem p (insert_contingent w l q t).mark_buffer ≡ true
  unfolding insert_contingent
  mem-insert_contingent p l q t h = ground arith

  mem-process_word :
      (p place word l : ℕ) (t : ThreadStruct)
      → mem p t.mark_buffer ≡ true
      → mem p (process_word w place word l t).1.mark_buffer ≡ true
  unfolding process_word
  mem-process_word p place word l t h = ground (
    arith,
    mem-mark_gray p (w.to_offset_ptr word) t h,
    mem-mark_gray p word t h,
    mem-insert_contingent p l (w.remove_special_bits word) t h,
  )

  mem-process_stack :
      (p place : ℕ) (words : List ℕ) (l : ℕ) (t : ThreadStruct)
      → mem p t.mark_buffer ≡ true
      → mem p (process_stack w place words l t).mark_buffer ≡ true
  unfolding process_stack
  mem-process_stack p place [] l t h = h
  mem-process_stack p place (word ∷ words) l t h =
      mem-process_stack p (place + 1) words (process_word w place word l t).0
        (process_word w place word l t).1 (mem-process_word p place word l t h)

  -- Such a word is put into the mark buffer.
  pub process_word-gray :
      (place word l : ℕ) (t : ThreadStruct)
      → IsGrayWord word
      → mem word (process_word w place word l t).1.mark_buffer ≡ true
  unfolding process_word mark_gray
  process_word-gray place word l t g =
      rw
        (
          g.no_address,
          g.could_be,
          g.target_valid,
          g.object_valid,
          g.strong,
          g.valid,
          g.no_weak,
          g.no_mark,
          ==-refl word,
        )
        refl

  -- If a word of the stack leads to a pointer, that pointer is found.
  pub found :
      (q word place : ℕ) (words : List ℕ) (l : ℕ) (t : ThreadStruct)
      → ((place l : ℕ) (t : ThreadStruct)
          → mem q (process_word w place word l t).1.mark_buffer ≡ true)
      → mem word words ≡ true
      → mem q (process_stack w place words l t).mark_buffer ≡ true
  unfolding process_stack
  found q word place [] l t leads h = absurd cc
  found q word place (other ∷ words) l t leads h =
      let r = process_word w place other l t in
      elim (mem-cases word other words h) [
        | inl here ↦ mem-process_stack q (place + 1) words r.0 r.1 (
            subst (λ x. mem q (process_word w place x l t).1.mark_buffer ≡ true) here
              (leads place l t))
        | inr later ↦ found q word (place + 1) words r.0 r.1 leads later
      ]

  -- What `hdl_async` does when it scans the stack.
  hdl_async-scan :
      (process : GcStatus) (s : Stack) (t : ThreadStruct)
      → IsReady process t
      → is_signum t.status_idx.status sig_async ≡ false
      → (let t1 = process_stack w s.start s.words 0 t in
          hdl_async w process s t
          ≡ some (record t1 {
            status_idx = record { status = sig_async; index = t1.status_idx.index };
          }))
  unfolding hdl_async
  hdl_async-scan process s t h later =
      simp (later, h.enabled, h.started, (==_iff t.status_idx.index process.index).1 h.same_index)
        refl

  -- What the handler of a thread that is ready does on its stack.
  pub hdl_async-found :
      (process : GcStatus) (s : Stack) (t : ThreadStruct) (q : ℕ)
      → IsReady process t
      → is_signum t.status_idx.status sig_async ≡ false
      → mem q (process_stack w s.start s.words 0 t).mark_buffer ≡ true
      → (hdl_async w process s t >>= λ t'. some (mem q t'.mark_buffer)) ≡ some true
  hdl_async-found process s t q h later there =
      rw (hdl_async-scan process s t h later) (ap some there)
