-- ===== src/Handshake/Defs.antt =====
-- The signal handlers of src/gc_handshake.cpp and the write barrier of include/mpgc/write_barrier.h,
-- on the structure of one mutator thread. A failed assertion, or a wait for a status that the signal
-- at hand does not bring, is `none`.
use mpgc.Prelude.{
  ℕ, ◌+◌, ◌-◌, List, [], ◌∷◌, Option, none, some, Bool, true, false, not, ◌&&◌, ◌||◌, if◌then◌else◌,
  ◌>>=◌, ◌==◌, ltb,
}

pub data Signum : Type 0 where
  sig_sync1 : Signum
  sig_sync2 : Signum
  sig_async : Signum
  sig_deferred_async : Signum
  sig_sweep : Signum
  sig_deferred_sweep : Signum
  sig_init : Signum

abbrev pub value : Signum → ℕ
value sig_sync1 = 0
value sig_sync2 = 1
value sig_async = 2
value sig_deferred_async = 3
value sig_sweep = 4
value sig_deferred_sweep = 5
value sig_init = 6

abbrev pub is_signum : Signum → Signum → Bool
is_signum a b = value a == value b

pub data WeakSignal : Type 0 where
  in_barrier : WeakSignal
  do_handshake : WeakSignal
  working : WeakSignal

-- A status, and the global free list that goes with it.
pub record GcStatus : Type 0 where
  pub status : Signum
  pub index : ℕ

-- `in_memory_thread_struct`. `mark_buffer` is its buffer in the persistent heap, `ctrl_map` what it
-- has inserted into the map of contingent pointers. A place on the stack is its word's number.
pub record ThreadStruct : Type 0 where
  pub on_stack_wp_set : List ℕ
  pub mark_buffer : List ℕ
  pub ctrl_map : List (ℕ × ℕ)
  pub status_idx : GcStatus
  pub weak_signal : WeakSignal
  pub live : Bool
  pub mark_signal_disabled : Bool
  pub mark_signal_requested : Signum
  pub sweep_signal_disabled : Bool
  pub sweep_signal_requested : Bool
  pub clear_local_allocator : Bool

-- The tests on words and pointers (include/mpgc/offset_ptr.h), and the mark bitmap's.
pub record Words : Type 0 where
  pub is_address : ℕ → Bool
  pub to_offset_ptr : ℕ → ℕ
  pub could_be_offset_ptr : ℕ → Bool
  pub remove_special_bits : ℕ → ℕ
  pub is_null : ℕ → Bool
  pub is_valid : ℕ → Bool
  pub is_valid_object : ℕ → Bool
  pub is_strong : ℕ → Bool
  pub is_contingent : ℕ → Bool
  pub is_weak : ℕ → Bool
  pub is_marked : ℕ → Bool

abbrev pub mem : ℕ → List ℕ → Bool
mem a [] = false
mem a (b ∷ bs) = (a == b) || mem a bs

-- The words of a thread's stack from the place `start` on.
pub record Stack : Type 0 where
  pub start : ℕ
  pub words : List ℕ

module _ (w : Words) where
  open w use {
    is_address, to_offset_ptr, could_be_offset_ptr, remove_special_bits, is_null, is_valid,
    is_valid_object, is_strong, is_contingent, is_weak, is_marked,
  }

  unfoldable pub mark_gray : ℕ → ThreadStruct → ThreadStruct
  mark_gray p t =
      if is_valid p && (not (is_weak p) && not (is_marked p))
      then record t { mark_buffer = p ∷ t.mark_buffer }
      else t

  unfoldable pub insert_contingent : ℕ → ℕ → ThreadStruct → ThreadStruct
  insert_contingent last_ctrl strong t =
      let ctrl = remove_special_bits last_ctrl in
      if not (is_null ctrl) && not (is_null strong)
      then record t { ctrl_map = (ctrl, strong) ∷ t.ctrl_map }
      else t

  -- One word of the stack: the new `last_ctrl`, and the thread.
  unfoldable pub process_word : ℕ → ℕ → ℕ → ThreadStruct → ℕ × ThreadStruct
  process_word place word last_ctrl t =
      let strong = remove_special_bits word in
      if is_address word
      then (0, mark_gray (to_offset_ptr word) t)
      else if could_be_offset_ptr word && (is_valid strong && is_valid_object strong)
      then (if is_strong word
          then (0, mark_gray word t)
          else if is_contingent word
          then (0, insert_contingent last_ctrl strong t)
          else (if mem place t.on_stack_wp_set then word else 0, t))
      else (0, t)

  unfoldable pub process_stack : ℕ → List ℕ → ℕ → ThreadStruct → ThreadStruct
  process_stack place [] last_ctrl t = t
  process_stack place (word ∷ words) last_ctrl t =
      let (last_ctrl', t') = process_word place word last_ctrl t in
      process_stack (place + 1) words last_ctrl' t'

  abbrev pub erase_below : ℕ → List ℕ → List ℕ
  erase_below start [] = []
  erase_below start (p ∷ ps) =
      if ltb start p then p ∷ erase_below start ps else erase_below start ps

  unfoldable pub insert_weak : ℕ → List ℕ → List ℕ → List ℕ
  insert_weak place [] set = set
  insert_weak place (word ∷ words) set = insert_weak (place + 1) words (
      if could_be_offset_ptr word && (is_weak word && (not (is_marked word) && not (mem place set)))
      then place ∷ set
      else set)

  unfoldable pub process_stack_weak_ptrs : Stack → ThreadStruct → ThreadStruct
  process_stack_weak_ptrs s t = record t {
    on_stack_wp_set = insert_weak s.start s.words (erase_below s.start t.on_stack_wp_set);
  }

  -- The assertions that `write_barrier_prologue` starts with, on the descriptors of the objects.
  unfoldable pub has_descriptors : ℕ → ℕ → Bool
  has_descriptors lhs rhs =
      (not (is_valid lhs) || is_valid_object lhs) && (not (is_valid rhs) || is_valid_object rhs)

  -- `process` is the status of the process, `get_gc_status()`.
  module _ (process : GcStatus) where
    unfoldable pub hdl_sync : Signum → ThreadStruct → Option ThreadStruct
    hdl_sync sig t =
        if t.mark_signal_disabled
        then some (record t { mark_signal_requested = sig })
        else if is_signum t.status_idx.status sig_init
        then some (record t { status_idx = process })
        else if t.status_idx.index == process.index
        then some (record t { status_idx = record { status = sig; index = t.status_idx.index } })
        else none

    unfoldable pub hdl_async : Stack → ThreadStruct → Option ThreadStruct
    hdl_async s t =
        let t1 = process_stack s.start s.words 0 t in
        if is_signum t.status_idx.status sig_async
        then some t
        else if t.mark_signal_disabled
        then some (record t { mark_signal_requested = sig_async })
        else if is_signum t.status_idx.status sig_init
        then some (record t { status_idx = process })
        else if t.status_idx.index == process.index
        then some
            (record t1 { status_idx = record { status = sig_async; index = t1.status_idx.index } })
        else none

    unfoldable pub hdl_sweep : Stack → ThreadStruct → Option ThreadStruct
    hdl_sweep s t =
        let t1 = record t {
          status_idx = record { status = sig_sweep; index = 1 - t.status_idx.index };
        } in
        let swept = record (process_stack_weak_ptrs s t1) { clear_local_allocator = true } in
        let same_index = t.status_idx.index == process.index in
        if is_signum t.status_idx.status sig_sweep
        then (if same_index then some t else none)
        else if t.sweep_signal_disabled
        then some (record t { sweep_signal_requested = true })
        else if is_signum t.status_idx.status sig_init
        then some (record t { status_idx = process })
        else if same_index
        then none
        else some swept

    unfoldable pub signal_hdl : Signum → Stack → ThreadStruct → Option ThreadStruct
    signal_hdl sig_sync1 s t = hdl_sync sig_sync1 t
    signal_hdl sig_sync2 s t = hdl_sync sig_sync2 t
    signal_hdl sig_async s t = hdl_async s t
    signal_hdl sig_deferred_async s t = hdl_async s t
    signal_hdl sig_sweep s t = hdl_sweep s t
    signal_hdl sig_deferred_sweep s t = hdl_sweep s t
    signal_hdl sig_init s t = none

    -- The thread sends itself the signal, and waits for the status.
    unfoldable pub do_deferred_async_signal : Stack → ThreadStruct → Option ThreadStruct
    do_deferred_async_signal s t = do
      t' ← signal_hdl sig_deferred_async s t
      if is_signum t'.status_idx.status sig_async then some t' else none

    unfoldable pub do_deferred_sweep_signal : Stack → ThreadStruct → Option ThreadStruct
    do_deferred_sweep_signal s t = do
      t' ← signal_hdl sig_deferred_sweep s t
      if is_signum t'.status_idx.status sig_sweep then some t' else none

    unfoldable pub mark_both : Signum → ℕ → ℕ → ThreadStruct → ThreadStruct
    mark_both sig_sync1 lhs rhs t = mark_gray lhs (mark_gray rhs t)
    mark_both sig_sync2 lhs rhs t = mark_gray lhs (mark_gray rhs t)
    mark_both sig_async lhs rhs t = mark_gray lhs t
    mark_both _ lhs rhs t = t

    -- What comes behind the assertions.
    unfoldable pub write_barrier_prologue : ℕ → ℕ → ThreadStruct → ThreadStruct
    write_barrier_prologue lhs rhs t =
        mark_both t.status_idx.status lhs rhs (record t { mark_signal_disabled = true })

    unfoldable pub handle_requested : Signum → Stack → ThreadStruct → Option ThreadStruct
    handle_requested sig_sync1 s t =
        some (record t { status_idx = record { status = sig_sync1; index = t.status_idx.index } })
    handle_requested sig_sync2 s t =
        some (record t { status_idx = record { status = sig_sync2; index = t.status_idx.index } })
    handle_requested sig_async s t = do_deferred_async_signal s t
    handle_requested _ s t = some t

    unfoldable pub write_barrier_epilogue : Stack → ThreadStruct → Option ThreadStruct
    write_barrier_epilogue s t = do
      t' ← handle_requested t.mark_signal_requested s (record t { mark_signal_disabled = false })
      some (record t' { mark_signal_requested = sig_init })

    -- `func` changes the heap.
    unfoldable pub write_barrier :
        {H : Type 0} → Stack → ℕ → ℕ → (H → H) → H → ThreadStruct → Option (H × ThreadStruct)
    write_barrier s lhs rhs func h t =
        let done = (do
          t' ← write_barrier_epilogue s (write_barrier_prologue lhs rhs t)
          some (func h, t')) in
        if lhs == rhs then some (func h, t) else if has_descriptors lhs rhs then done else none

    -- The end of a section that puts off the sweep signal (`allocation_epilogue` and the weak barriers).
    unfoldable pub enable_sweep_signal : Stack → ThreadStruct → Option ThreadStruct
    enable_sweep_signal s t =
        let t1 = record t { sweep_signal_disabled = false } in
        if t.sweep_signal_requested
        then do_deferred_sweep_signal s (record t1 { sweep_signal_requested = false })
        else some t1

-- `post_handshake` on a thread of the list: the word for a thread in a weak barrier.
abbrev pub expect_barrier : WeakSignal → WeakSignal
expect_barrier in_barrier = do_handshake
expect_barrier do_handshake = do_handshake
expect_barrier working = working

unfoldable pub post_weak : Bool → ThreadStruct → ThreadStruct
post_weak do_weak_check t =
    if do_weak_check then record t { weak_signal = expect_barrier t.weak_signal } else t

abbrev pub is_do_handshake : WeakSignal → Bool
is_do_handshake in_barrier = false
is_do_handshake do_handshake = true
is_do_handshake working = false

-- The test that ends the wait of `wait_handshake` for a thread.
unfoldable pub is_answered : Signum → Bool → ThreadStruct → Bool
is_answered sig do_weak_check t =
    not t.live
    || (is_signum t.status_idx.status sig && not (do_weak_check && is_do_handshake t.weak_signal))

unfoldable pub wait_handshake : Signum → Bool → List ThreadStruct → Bool
wait_handshake sig do_weak_check [] = true
wait_handshake sig do_weak_check (t ∷ ts) =
    is_answered sig do_weak_check t && wait_handshake sig do_weak_check ts

module _ (w : Words) (process : GcStatus) where
  -- `post_handshake`, when each thread that is not dead runs the handler on its stack.
  unfoldable pub post_handshake :
      Signum → Bool → List (Stack × ThreadStruct) → Option (List ThreadStruct)
  post_handshake sig do_weak_check [] = some []
  post_handshake sig do_weak_check ((s, t) ∷ ts) =
      let rest = post_handshake sig do_weak_check ts in
      (if t.live then signal_hdl w process sig s (post_weak do_weak_check t) else some t) >>= λ t'.
      rest >>= λ ts'. some (t' ∷ ts')
