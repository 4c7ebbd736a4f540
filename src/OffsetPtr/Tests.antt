-- ===== src/OffsetPtr/Tests.antt =====
-- Pointers into a heap of 2 ^ 20 bytes at the address 2 ^ 30.
use mpgc.Prelude.{ℕ, ◌+◌, ◌*◌, ◌^◌, ◌≡◌, ◌↔◌, refl, arith, true, false, [], ◌∷◌, inl, some, ◌>>=◌}
use mpgc.Handshake.Defs.{
  GcStatus, Stack, ThreadStruct, sig_sync2, sig_init, working, hdl_async, mem,
}
use mpgc.OffsetPtr.Defs.{
  initialize, used_val, remove_special_bits, is_strong, compute_val, could_be_offset_ptr,
  set_sweep_assigned, set_weak_assigned, remove_sweep_assigned, atomic_remove_sweep_assigned,
}
use mpgc.Descriptor.Field.{decode}
use mpgc.OffsetPtr.Values.{InHeap}
use mpgc.OffsetPtr.Pointers.{could_be_offset_ptr_iff, IsPointer, compute_val-IsPointer}
use mpgc.OffsetPtr.Special.{HasKind, set_sweep_assigned-HasKind}
use mpgc.OffsetPtr.Scanned.{words_of, IsUnmarked, hdl_async-compute_val}

abbrev address : ℕ
address = 2 ^ 30 + 64

address-InHeap : InHeap (2 ^ 30) (2 ^ 20) address
address-InHeap = record { from = omega arith; below = omega arith; aligned = refl }

-- The pointer's word, with the bits of a weak pointer.
abbrev weak_word : ℕ
weak_word = 10 * 2 ^ 52 + 65

could_be_offset_ptr_iff_example :
    (could_be_offset_ptr (initialize (2 ^ 30) (2 ^ 20)) weak_word ≡ true) ↔ (
      (p : ℕ) × InHeap (2 ^ 30) (2 ^ 20) p
      × (remove_special_bits (used_val weak_word) ≡ compute_val (initialize (2 ^ 30) (2 ^ 20)) p))
could_be_offset_ptr_iff_example =
    could_be_offset_ptr_iff (2 ^ 30) (2 ^ 20) (omega arith) (omega arith) (omega arith) weak_word
      (omega arith)

compute_val-IsPointer_example :
    IsPointer (2 ^ 30) (2 ^ 20) address (compute_val (initialize (2 ^ 30) (2 ^ 20)) address)
compute_val-IsPointer_example =
    compute_val-IsPointer (2 ^ 30) (2 ^ 20) (omega arith) (omega arith) (omega arith) address
      address-InHeap

abbrev strong_word : ℕ
strong_word = 10 * 2 ^ 52 + 64

strong_word-is_strong : is_strong strong_word ≡ true
unfolding is_strong decode
strong_word-is_strong = refl

set_sweep_assigned-HasKind_example :
    HasKind strong_word (set_sweep_assigned strong_word) true true
    × HasKind strong_word (set_weak_assigned strong_word) true false
    × (remove_sweep_assigned (set_sweep_assigned strong_word) ≡ set_weak_assigned strong_word)
    × (atomic_remove_sweep_assigned
          (set_sweep_assigned strong_word)
          (set_sweep_assigned strong_word)
        ≡ (true, set_weak_assigned strong_word))
set_sweep_assigned-HasKind_example =
    set_sweep_assigned-HasKind strong_word (omega arith) strong_word-is_strong

abbrev process : GcStatus
process = record { status = sig_sync2; index = 1 }

abbrev stack : Stack
stack = record { start = 5; words = 7 ∷ address ∷ [] }

abbrev at_work : ThreadStruct
at_work = record {
  on_stack_wp_set = [];
  mark_buffer = [];
  ctrl_map = [];
  status_idx = record { status = sig_sync2; index = 1 };
  weak_signal = working;
  live = true;
  mark_signal_disabled = false;
  mark_signal_requested = sig_init;
  sweep_signal_disabled = false;
  sweep_signal_requested = false;
  clear_local_allocator = false;
}

address-IsUnmarked : IsUnmarked (2 ^ 30) (2 ^ 20) (λ n. true) (λ n. false) address
address-IsUnmarked = record { in_heap = address-InHeap; object_valid = refl; no_mark = refl }

hdl_async-compute_val_example :
    (hdl_async
        (words_of (initialize (2 ^ 30) (2 ^ 20)) (λ n. true) (λ n. false))
        process
        stack
        at_work
      >>= λ t'. some (mem (compute_val (initialize (2 ^ 30) (2 ^ 20)) address) t'.mark_buffer))
    ≡ some true
hdl_async-compute_val_example =
    hdl_async-compute_val (2 ^ 30) (2 ^ 20) (omega arith) (omega arith) (omega arith) (λ n. true)
      (λ n. false) process stack at_work address address (omega arith)
      (record { started = refl; enabled = refl; same_index = refl }) refl address-IsUnmarked
      (inl refl) refl
