-- ===== src/LocalPool/Alloc.antt =====
-- `alloc` of src/gc_skiplist_allocator.cpp as a whole.
use mpgc.Prelude.{ℕ, ◌+◌, ◌-◌, ◌/◌, ◌%◌, ◌^◌, ◌≡◌, ◌≤◌, ◌<◌, none}
use mpgc.LocalPool.Align.{required_padding}
use mpgc.LocalPool.Defs.{Pool, Taken, GlobalPool, Local, relink}
use mpgc.LocalPool.Take.{IsTaken, IsFree}
use mpgc.LocalPool.Carve.{IsCarved}

module _ (g : GlobalPool) (k : ℕ) (small : k < 61) (bytes : ℕ) (some_bytes : 0 < bytes)
    (fits : bytes + 8 ≤ 2 ^ 64) where
  open g use {State, allocate, is_enough}

  -- The words of the request.
  abbrev pub size : ℕ
  size = (bytes + 7) / 8

  -- The chunk comes from the thread's own pool, or from the global one if no free chunk is enough.
  pub data ComesFrom (l : Local State) (t : Taken) : Type 0 where
    from_local : (pool' : Pool) → IsTaken size (2 ^ k) l.local_free_list t pool' → ComesFrom l t
    from_global :
        ((j c : ℕ) → IsFree j c l.local_free_list → j < size + required_padding c (2 ^ k))
        → t.chunk ≡ (allocate l.global (size + (2 ^ k - 1))).0.0
        → t.padding + size + t.leftover_size ≡ (allocate l.global (size + (2 ^ k - 1))).0.1
        → t.unlinked ≡ none
        → ComesFrom l t

  pub record IsAllocated (l l' : Local State) (address : ℕ) : Type 0 where
    pub t : Taken
    pub comes_from : ComesFrom l t
    pub address_lem : address ≡ t.chunk + t.padding
    pub aligned : address % 2 ^ k ≡ 0
    pub carved : IsCarved (relink t.unlinked l.memory) l'.memory t size
