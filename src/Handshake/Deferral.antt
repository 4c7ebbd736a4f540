-- ===== src/Handshake/Deferral.antt =====
-- A signal that comes while it is put off is acted on later, as if it came then.
use mpgc.Prelude.{
  ℕ, ◌≡◌, refl, true, false, ◌>>=◌, ◌==◌, Bool-cases, inl, inr, List, ==-refl, ==_iff, [], ◌∷◌, ◌+◌,
  arith,
}
use mpgc.Handshake.Defs.{
  Signum, sig_sync1, sig_sync2, sig_async, sig_sweep, sig_init, is_signum, GcStatus, ThreadStruct,
  Words, Stack, hdl_sync, hdl_async, hdl_sweep, signal_hdl, do_deferred_async_signal,
  do_deferred_sweep_signal, handle_requested, write_barrier_epilogue, enable_sweep_signal,
  process_stack, mark_gray, insert_contingent, process_word, process_stack_weak_ptrs,
}

-- The signals that a write barrier puts off.
pub data IsMarkSignal : Signum → Type 0 where
  sync1 : IsMarkSignal sig_sync1
  sync2 : IsMarkSignal sig_sync2
  async : IsMarkSignal sig_async

module _ (w : Words) (process : GcStatus) where
  abbrev request : Signum → ThreadStruct → ThreadStruct
  request sig t = record t { mark_signal_requested = sig }

  mark_gray-request :
      (sig : Signum) (p : ℕ) (t : ThreadStruct)
      → mark_gray w p (request sig t) ≡ request sig (mark_gray w p t)
  unfolding mark_gray
  mark_gray-request sig p t = ground arith

  insert_contingent-request :
      (sig : Signum) (l p : ℕ) (t : ThreadStruct)
      → insert_contingent w l p (request sig t) ≡ request sig (insert_contingent w l p t)
  unfolding insert_contingent
  insert_contingent-request sig l p t = ground arith

  process_word-request :
      (sig : Signum) (place word l : ℕ) (t : ThreadStruct)
      → process_word w place word l (request sig t)
        ≡ ((process_word w place word l t).0, request sig (process_word w place word l t).1)
  unfolding process_word
  process_word-request sig place word l t = ground (
    arith,
    mark_gray-request sig (w.to_offset_ptr word) t,
    mark_gray-request sig word t,
    insert_contingent-request sig l (w.remove_special_bits word) t,
  )

  process_stack-request :
      (sig : Signum) (place : ℕ) (words : List ℕ) (l : ℕ) (t : ThreadStruct)
      → process_stack w place words l (request sig t)
        ≡ request sig (process_stack w place words l t)
  unfolding process_stack
  process_stack-request sig place [] l t = refl
  process_stack-request sig place (word ∷ words) l t =
      rw (process_word-request sig place word l t) (
        process_stack-request sig (place + 1) words (process_word w place word l t).0
          (process_word w place word l t).1)

  -- Let a thread that has left its first status and uses the free list of its process be in a write
  -- barrier, where no signal is pending yet. A signal of the marking phases that comes then leaves
  -- the thread, at the end of the barrier, as it would have been left by the same signal right after
  -- the barrier.
  pub write_barrier_epilogue-signal_hdl :
      (sig : Signum) (s : Stack) (t : ThreadStruct)
      → IsMarkSignal sig
      → t.mark_signal_disabled ≡ true
      → t.mark_signal_requested ≡ sig_init
      → is_signum t.status_idx.status sig_init ≡ false
      → t.status_idx.index ≡ process.index
      → (signal_hdl w process sig s t >>= λ t'. write_barrier_epilogue w process s t')
        ≡ (write_barrier_epilogue w process s t >>= λ t'. signal_hdl w process sig s t')
  unfolding signal_hdl hdl_sync hdl_async handle_requested write_barrier_epilogue
      do_deferred_async_signal
  write_barrier_epilogue-signal_hdl _ s t sync1 d r i e =
      rw (d, r, i, e, ==-refl (process.index)) refl
  write_barrier_epilogue-signal_hdl _ s t sync2 d r i e =
      rw (d, r, i, e, ==-refl (process.index)) refl
  write_barrier_epilogue-signal_hdl _ s t async d r i e =
      let t0 : ThreadStruct = record t {
        mark_signal_disabled = false;
        mark_signal_requested = sig_sync1;
      } in
      elim (Bool-cases (is_signum t.status_idx.status sig_async)) [
        | inl now ↦ rw (d, r, now) refl
        | inr later ↦
            simp
              (
                d,
                r,
                later,
                i,
                (==_iff t.status_idx.index process.index).1 e,
                process_stack-request sig_async s.start s.words 0 t0,
                process_stack-request sig_init s.start s.words 0 t0,
              )
              refl
      ]

  -- Let a thread that has left its first status put off the sweep signal, with none pending yet, and
  -- use the free list of its process just if it has answered this signal. A sweep signal that comes
  -- then leaves the thread, when the signal is let through again, as it would have been left by the
  -- same signal right afterwards.
  pub enable_sweep_signal-signal_hdl :
      (s : Stack) (t : ThreadStruct)
      → t.sweep_signal_disabled ≡ true
      → t.sweep_signal_requested ≡ false
      → is_signum t.status_idx.status sig_init ≡ false
      → (t.status_idx.index == process.index) ≡ is_signum t.status_idx.status sig_sweep
      → (signal_hdl w process sig_sweep s t >>= λ t'. enable_sweep_signal w process s t')
        ≡ (enable_sweep_signal w process s t >>= λ t'. signal_hdl w process sig_sweep s t')
  unfolding signal_hdl hdl_sweep enable_sweep_signal do_deferred_sweep_signal
      process_stack_weak_ptrs
  enable_sweep_signal-signal_hdl s t d r i e =
      elim (Bool-cases (is_signum t.status_idx.status sig_sweep)) [
        | inl now ↦ simp (d, r, i, e, now) refl
        | inr later ↦ simp (d, r, i, e, later) refl
      ]
