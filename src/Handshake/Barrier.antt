-- ===== src/Handshake/Barrier.antt =====
-- What the write barrier puts into the mark buffer before a pointer is overwritten.
use mpgc.Prelude.{
  some, ◌∙◌, Bool-cases, inl, inr, false, ◌==◌, ℕ, ◌≡◌, ◌≢◌, refl, Bool, true, ==-refl, not, ◌&&◌,
  arith,
}
use mpgc.Handshake.Defs.{
  has_descriptors, write_barrier, write_barrier_epilogue, handle_requested, sig_init, Stack,
  sig_async, Signum, ThreadStruct, Words, GcStatus, mark_gray, mem, mark_both,
  write_barrier_prologue,
}
use mpgc.Handshake.Deferral.{IsMarkSignal, sync1, sync2, async}
use mpgc.Handshake.Scan.{mem-mark_gray}

module _ (w : Words) (process : GcStatus) where
  -- The pointer is valid, not weak, and its object is not marked.
  abbrev pub needs_mark : ℕ → Bool
  needs_mark p = w.is_valid p && (not (w.is_weak p) && not (w.is_marked p))

  mark_gray-mem :
      (p : ℕ) (t : ThreadStruct) → needs_mark p ≡ true → mem p (mark_gray w p t).mark_buffer ≡ true
  unfolding mark_gray
  mark_gray-mem p t h = rw (h, ==-refl p) refl

  mark_gray-disabled :
      (p : ℕ) (t : ThreadStruct)
      → t.mark_signal_disabled ≡ true
      → (mark_gray w p t).mark_signal_disabled ≡ true
  unfolding mark_gray
  mark_gray-disabled p t h = ground arith

  both :
      (sig : Signum) (lhs rhs : ℕ) (t : ThreadStruct)
      → IsMarkSignal sig
      → t.mark_signal_disabled ≡ true
      → ((mark_both w process sig lhs rhs t).mark_signal_disabled ≡ true)
        × (needs_mark lhs ≡ true → mem lhs (mark_both w process sig lhs rhs t).mark_buffer ≡ true)
        × (sig ≢ sig_async
            → needs_mark rhs ≡ true
            → mem rhs (mark_both w process sig lhs rhs t).mark_buffer ≡ true)
  unfolding mark_both
  both _ lhs rhs t sync1 d = (
    mark_gray-disabled lhs (mark_gray w rhs t) (mark_gray-disabled rhs t d),
    mark_gray-mem lhs (mark_gray w rhs t),
    (λ ne h. mem-mark_gray w rhs lhs (mark_gray w rhs t) (mark_gray-mem rhs t h)),
  )
  both _ lhs rhs t sync2 d = (
    mark_gray-disabled lhs (mark_gray w rhs t) (mark_gray-disabled rhs t d),
    mark_gray-mem lhs (mark_gray w rhs t),
    (λ ne h. mem-mark_gray w rhs lhs (mark_gray w rhs t) (mark_gray-mem rhs t h)),
  )
  both _ lhs rhs t async d =
      (mark_gray-disabled lhs t d, mark_gray-mem lhs t, (λ ne h. absurd (ne refl)))

  -- In a phase of the marking the start of the write barrier puts off its signals and puts the
  -- pointer that is overwritten into the mark buffer if it needs a mark; before the async phase it
  -- does so with the new pointer, too.
  pub write_barrier_prologue-mark_buffer :
      (lhs rhs : ℕ) (t : ThreadStruct)
      → IsMarkSignal t.status_idx.status
      → ((write_barrier_prologue w process lhs rhs t).mark_signal_disabled ≡ true)
        × (needs_mark lhs ≡ true
            → mem lhs (write_barrier_prologue w process lhs rhs t).mark_buffer ≡ true)
        × (t.status_idx.status ≢ sig_async
            → needs_mark rhs ≡ true
            → mem rhs (write_barrier_prologue w process lhs rhs t).mark_buffer ≡ true)
  unfolding write_barrier_prologue
  write_barrier_prologue-mark_buffer lhs rhs t m =
      both t.status_idx.status lhs rhs (record t { mark_signal_disabled = true }) m refl

  mark_gray-kept :
      (p : ℕ) (t : ThreadStruct)
      → ((mark_gray w p t).mark_signal_requested ≡ t.mark_signal_requested)
        × ((mark_gray w p t).status_idx ≡ t.status_idx)
  unfolding mark_gray
  mark_gray-kept p t = elim (Bool-cases (needs_mark p)) [
    | inl needed ↦ rw needed (refl, refl)
    | inr not_needed ↦ rw not_needed (refl, refl)
  ]

  prologue-kept :
      (sig : Signum) (lhs rhs : ℕ) (t : ThreadStruct)
      → IsMarkSignal sig
      → ((mark_both w process sig lhs rhs t).mark_signal_requested ≡ t.mark_signal_requested)
        × ((mark_both w process sig lhs rhs t).status_idx ≡ t.status_idx)
  unfolding mark_both
  prologue-kept _ lhs rhs t sync1 =
      let first = mark_gray-kept rhs t in
      let second = mark_gray-kept lhs (mark_gray w rhs t) in
      (second.0 ∙ first.0, second.1 ∙ first.1)
  prologue-kept _ lhs rhs t sync2 =
      let first = mark_gray-kept rhs t in
      let second = mark_gray-kept lhs (mark_gray w rhs t) in
      (second.0 ∙ first.0, second.1 ∙ first.1)
  prologue-kept _ lhs rhs t async = mark_gray-kept lhs t

  -- What the write barrier leaves: signals are let through, none is pending, the status is as it was,
  -- and pointers are in the mark buffer as `write_barrier_prologue` puts them there.
  pub record IsBarred (lhs rhs : ℕ) (t t' : ThreadStruct) : Type 0 where
    pub enabled : t'.mark_signal_disabled ≡ false
    pub not_requested : t'.mark_signal_requested ≡ sig_init
    pub same_status : t'.status_idx ≡ t.status_idx
    pub old_marked : needs_mark lhs ≡ true → mem lhs t'.mark_buffer ≡ true
    pub new_marked :
        t.status_idx.status ≢ sig_async → needs_mark rhs ≡ true → mem rhs t'.mark_buffer ≡ true

  -- Let the thread be in a phase of the marking with no signal pending, and let two pointers be
  -- different, whose objects have valid descriptors. Then the write barrier writes, and leaves the
  -- thread with signals let through, none pending, the status as it was, the pointer that is
  -- overwritten in the mark buffer if it needs a mark, and, before the async phase, the new one too.
  pub write_barrier-IsBarred :
      {H : Type 0} (s : Stack) (lhs rhs : ℕ) (func : H → H) (h : H) (t : ThreadStruct)
      → IsMarkSignal t.status_idx.status
      → t.mark_signal_requested ≡ sig_init
      → (lhs == rhs) ≡ false
      → has_descriptors w lhs rhs ≡ true
      → (t' : ThreadStruct) × (write_barrier w process s lhs rhs func h t ≡ some (func h, t'))
        × IsBarred lhs rhs t t'
  unfolding write_barrier write_barrier_prologue write_barrier_epilogue handle_requested
  write_barrier-IsBarred s lhs rhs func h t m none_pending differ valid =
      let start = record t { mark_signal_disabled = true } in
      let kept = prologue-kept t.status_idx.status lhs rhs start m in
      let marks = both t.status_idx.status lhs rhs start m refl in
      let marked = mark_both w process t.status_idx.status lhs rhs start in
      (
        record marked { mark_signal_disabled = false; mark_signal_requested = sig_init },
        rw (differ, valid, kept.0, none_pending) refl,
        record {
          enabled = refl;
          not_requested = refl;
          same_status = kept.1;
          old_marked = marks.1;
          new_marked = marks.2;
        },
      )
