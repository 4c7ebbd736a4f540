-- ===== src/MarkBuffer/Tests.antt =====
-- Runs of a mark buffer over numbers, with an allocator that gives the next address.
use mpgc.Prelude.{
  ℕ, suc, ◌≤◌, ◌≡◌, ◌≢◌, refl, List, [], ◌∷◌, none, some, arith, max, false, replicate,
}
use mpgc.MarkBuffer.Memory.{Memory, lookup, ==-ne}
use mpgc.MarkBuffer.Defs.{
  Buffer, MarkBuffer, mark_buffer, live, clear, is_empty, process_element, writable, add_element,
}
use mpgc.MarkBuffer.Chain.{chain_end, chain_entry, avoids_nil}
use mpgc.MarkBuffer.Queue.{Holds}
use mpgc.MarkBuffer.Steps.{Gives}
use mpgc.MarkBuffer.History.{Step, add, process, run, run_list, mark_buffer-Gives, run-Gives}
use mpgc.MarkBuffer.Faults.{clear_lem, add_element-process_element}

abbrev next_address : {E : Type 0} → Memory E → ℕ
next_address [] = 0
next_address ((a, e) ∷ m) = max (suc a) (next_address m)

lookup_above : {E : Type 0} (m : Memory E) (b : ℕ) → next_address m ≤ b → lookup b m ≡ none
unfolding lookup
lookup_above [] b le = refl
lookup_above ((a, e) ∷ m) b le =
    let apart : b ≢ a = λ e. omega (arith, e) in
    rw (==-ne b a apart) (lookup_above m b (omega arith))

next_address_fresh : {E : Type 0} (m : Memory E) → lookup (next_address m) m ≡ none
next_address_fresh m = lookup_above m (next_address m) (omega arith)

abbrev steps : List (Step ℕ)
steps = add 7 ∷ add 8 ∷ process ∷ add 9 ∷ process ∷ process ∷ process ∷ add 4 ∷ []

run-Gives_example :
    (b' : MarkBuffer ℕ) × (run next_address 0 steps mark_buffer ≡ some ((run_list steps []).0, b'))
    × Gives b'.queue ((run_list steps []).1)
run-Gives_example =
    run-Gives next_address 0 next_address_fresh steps mark_buffer [] mark_buffer-Gives

steps_yield : (run_list steps []).0 ≡ some 7 ∷ some 8 ∷ some 9 ∷ none ∷ []
steps_yield = refl

-- A full buffer with one element left.
abbrev last_left : Buffer ℕ
last_left = record { buf = replicate 254 3; read_next = 253; write_idx = 254 }

abbrev nearly_read : MarkBuffer ℕ
nearly_read = record {
  queue = record {
    memory = (5, record { value = last_left; next = none }) ∷ [];
    first = some 5;
    last = some 5;
  };
  alive = live;
}

nearly_read-Holds : Holds nearly_read.queue ((5, last_left) ∷ [])
unfolding lookup
nearly_read-Holds = record { chain = chain_entry refl avoids_nil chain_end; ends = refl }

clear_lem_example :
    (b' : MarkBuffer ℕ) × (clear 1 nearly_read ≡ some b')
    × (is_empty b' ≡ some false)
    × (process_element b' ≡ none)
    × ((e : ℕ) → add_element next_address 0 e b' ≡ none)
clear_lem_example =
    clear_lem next_address 0 1 nearly_read (5, last_left) [] nearly_read-Holds (omega arith)

add_element-process_element_example :
    (x : ℕ) × (mb' : MarkBuffer ℕ) × (process_element nearly_read ≡ some (x, mb'))
    × (writable next_address 0 nearly_read.queue.last mb'.queue ≡ none)
add_element-process_element_example =
    add_element-process_element next_address 0 nearly_read 5 last_left nearly_read-Holds
      (record { sized = refl; read = omega arith; within = omega arith; unfinished = omega arith })
      refl refl
