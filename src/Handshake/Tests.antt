-- ===== src/Handshake/Tests.antt =====
-- Runs of the handlers on a thread whose stack has three words.
use mpgc.Prelude.{ℕ, ◌≢◌, ◌≡◌, refl, [], ◌∷◌, some, true, false, ◌==◌, ltb, ◌>>=◌, ◌%◌, ◌-◌}
use mpgc.Handshake.Defs.{
  write_barrier, has_descriptors, sig_sync2, sig_async, sig_sweep, sig_init, GcStatus, ThreadStruct,
  Words, Stack, working, signal_hdl, write_barrier_epilogue, write_barrier_prologue,
  enable_sweep_signal, post_handshake, wait_handshake, hdl_async, mem, process_stack, process_word,
  mark_gray,
}
use mpgc.Handshake.Deferral.{
  sync2, async, write_barrier_epilogue-signal_hdl, enable_sweep_signal-signal_hdl,
}
use mpgc.Handshake.Barrier.{
  write_barrier_prologue-mark_buffer, needs_mark, write_barrier-IsBarred, IsBarred,
}
use mpgc.Handshake.Rounds.{IsReady, wait_handshake-post_handshake}

-- Pointers are the numbers from 10 on; odd ones are weak, and from 100 on contingent.
abbrev words : Words
words = record {
  is_address = λ n. false;
  to_offset_ptr = λ n. n;
  could_be_offset_ptr = λ n. ltb 9 n;
  remove_special_bits = λ n. n % 100 - n % 2;
  is_null = λ n. n == 0;
  is_valid = λ n. ltb 9 n;
  is_valid_object = λ n. true;
  is_strong = λ n. n % 2 == 0;
  is_contingent = λ n. ltb 99 n;
  is_weak = λ n. n % 2 == 1;
  is_marked = λ n. n == 12;
}

abbrev process : GcStatus
process = record { status = sig_sync2; index = 1 }

abbrev stack : Stack
stack = record { start = 5; words = 10 ∷ 12 ∷ 3 ∷ 14 ∷ [] }

abbrev in_write_barrier : ThreadStruct
in_write_barrier = record {
  on_stack_wp_set = [];
  mark_buffer = [];
  ctrl_map = [];
  status_idx = record { status = sig_sync2; index = 1 };
  weak_signal = working;
  live = true;
  mark_signal_disabled = true;
  mark_signal_requested = sig_init;
  sweep_signal_disabled = false;
  sweep_signal_requested = false;
  clear_local_allocator = false;
}

abbrev at_work : ThreadStruct
at_work = record in_write_barrier { mark_signal_disabled = false }

abbrev in_allocation : ThreadStruct
in_allocation = record at_work {
  status_idx = record { status = sig_async; index = 0 };
  sweep_signal_disabled = true;
}

abbrev dead : ThreadStruct
dead = record in_write_barrier { live = false }

write_barrier_epilogue-signal_hdl_example :
    (signal_hdl words process sig_async stack in_write_barrier >>= λ t'.
    write_barrier_epilogue words process stack t')
    ≡ (write_barrier_epilogue words process stack in_write_barrier >>= λ t'.
        signal_hdl words process sig_async stack t')
write_barrier_epilogue-signal_hdl_example =
    write_barrier_epilogue-signal_hdl words process sig_async stack in_write_barrier async refl refl
      refl refl

enable_sweep_signal-signal_hdl_example :
    (signal_hdl words process sig_sweep stack in_allocation >>= λ t'.
    enable_sweep_signal words process stack t')
    ≡ (enable_sweep_signal words process stack in_allocation >>= λ t'.
        signal_hdl words process sig_sweep stack t')
enable_sweep_signal-signal_hdl_example =
    enable_sweep_signal-signal_hdl words process stack in_allocation refl refl refl refl

at_work-IsReady : IsReady process at_work
at_work-IsReady = record { enabled = refl; started = refl; same_index = refl }

wait_handshake-post_handshake_example :
    (post_handshake words process sig_async false ((stack, at_work) ∷ (stack, dead) ∷ []) >>= λ ts'.
    some (wait_handshake sig_async false ts'))
    ≡ some true
wait_handshake-post_handshake_example =
    wait_handshake-post_handshake words process sig_async ((stack, at_work) ∷ (stack, dead) ∷ [])
      async ((λ e. at_work-IsReady), ((λ e. absurd cc), tt))

-- The strong pointers of the stack that are not marked get into the buffer.
scanned :
    hdl_async words process stack at_work
    ≡ some (record at_work {
      mark_buffer = 14 ∷ 10 ∷ [];
      status_idx = record { status = sig_async; index = 1 };
    })
unfolding hdl_async process_stack process_word mark_gray
scanned = refl

write_barrier_prologue-mark_buffer_example :
    ((write_barrier_prologue words process 14 10 at_work).mark_signal_disabled ≡ true)
    × (needs_mark words process 14 ≡ true
        → mem 14 (write_barrier_prologue words process 14 10 at_work).mark_buffer ≡ true)
    × (sig_sync2 ≢ sig_async
        → needs_mark words process 10 ≡ true
        → mem 10 (write_barrier_prologue words process 14 10 at_work).mark_buffer ≡ true)
write_barrier_prologue-mark_buffer_example =
    write_barrier_prologue-mark_buffer words process 14 10 at_work sync2

descriptors : has_descriptors words 14 10 ≡ true
unfolding has_descriptors
descriptors = refl

write_barrier-IsBarred_example :
    (t' : ThreadStruct) × (write_barrier words process stack 14 10 (λ (h : ℕ). 10) 14 at_work
      ≡ some (10, t'))
    × IsBarred words process 14 10 at_work t'
write_barrier-IsBarred_example =
    write_barrier-IsBarred words process stack 14 10 (λ (h : ℕ). 10) 14 at_work sync2 refl refl
      descriptors
