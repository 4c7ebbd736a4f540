-- ===== src/WorkQueue/Tests.antt =====
-- Runs of the work queue over numbers, 0 for the value of a new entry.
use mpgc.Prelude.{ℕ, ◌≡◌, refl, List, [], ◌∷◌, ◌++◌, none, some, Bool, arith, replicate}
use mpgc.WorkQueue.Defs.{WorkQueue, work_stealing_wq, steal, takeover_locals}
use mpgc.WorkQueue.Buffers.{held_of}
use mpgc.WorkQueue.Contents.{contents, stacked, IsQueue}
use mpgc.WorkQueue.Sharing.{IsStolen, steal-IsStolen, takeover_locals_lem}
use mpgc.WorkQueue.History.{Op, put, take, run, run_list, run-eq-run_list}

new-IsQueue : IsQueue {A = ℕ} 0 work_stealing_wq
new-IsQueue = record { stack = tt; front = tt; back = tt; above = tt }

abbrev history : List (Op ℕ)
history = put 7 ∷ put 8 ∷ take ∷ put 9 ∷ take ∷ take ∷ take ∷ put 4 ∷ []

run-eq-run_list_example :
    (q' : WorkQueue ℕ) × (run 0 history work_stealing_wq
      ≡ some ((run_list 0 history (contents 0 work_stealing_wq)).0, q'))
    × IsQueue 0 q'
    × (contents 0 q' ≡ (run_list 0 history (contents 0 work_stealing_wq)).1)
run-eq-run_list_example = run-eq-run_list 0 history work_stealing_wq new-IsQueue

history_yields : (run_list 0 history []).0 ≡ some 8 ∷ some 9 ∷ some 7 ∷ none ∷ []
history_yields = refl

-- A queue with one entry at hand.
abbrev one : WorkQueue ℕ
one = record {
  stack = [];
  front = none;
  back = some (record { buf = 5 ∷ replicate 253 0; write_idx = 1 });
}

one-IsQueue : IsQueue 0 one
one-IsQueue = record {
  stack = tt;
  front = tt;
  back = record { sized = refl; used = omega arith; within = omega arith };
  above = tt;
}

-- A queue with a full buffer on its stack.
abbrev full : WorkQueue ℕ
full = record {
  stack = record { buf = replicate 254 3; write_idx = 254 } ∷ [];
  front = none;
  back = none;
}

full-IsQueue : IsQueue 0 full
full-IsQueue = record {
  stack = (record { sized = refl; used = omega arith; within = omega arith }, tt);
  front = tt;
  back = tt;
  above = tt;
}

steal-IsStolen_example :
    (r : Bool) × (q' : WorkQueue ℕ) × (other' : WorkQueue ℕ) × (steal full work_stealing_wq
      ≡ some (r, q', other'))
    × IsStolen 0 full q' other' r
steal-IsStolen_example = steal-IsStolen 0 full work_stealing_wq full-IsQueue new-IsQueue refl

takeover_locals_lem_example :
    (q' : WorkQueue ℕ) × (other' : WorkQueue ℕ) × (takeover_locals 0 full one ≡ some (q', other'))
    × IsQueue 0 q'
    × IsQueue 0 other'
    × (contents 0 q' ≡ held_of 0 one.back ++ (held_of 0 one.front ++ contents 0 full))
    × (contents 0 other' ≡ stacked 0 one.stack)
takeover_locals_lem_example = takeover_locals_lem 0 full one full-IsQueue one-IsQueue
