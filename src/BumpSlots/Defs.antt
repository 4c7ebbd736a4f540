-- ===== src/BumpSlots/Defs.antt =====
-- `bump_allocation_slots` of include/mpgc/bump_allocation_slots.h, with the slot numbers of
-- include/mpgc/gc_skiplist_allocator.h. `none` is an exception of `at`, the end of the program in
-- `install_new_block`, or waiting for a slot. Of a slot there is the word that `next` and `ptr_offset`
-- share. The write behind the last slot by the constructor is left out.
use mpgc.Prelude.{
  ℕ, zero, suc, ◌+◌, ◌-◌, ◌^◌, List, [], ◌∷◌, Option, none, some, Bool, ◌&&◌, ◌==◌, ltb,
  if◌then◌else◌, get_elem?, set, length, ◌>>=◌,
}

-- `slot_number`.
pub record SlotNumber : Type 0 where
  pub sentinel_idx : ℕ
  pub block_idx : ℕ

-- Both numbers are zero just if the whole is.
abbrev pub is_zero : SlotNumber → Bool
is_zero s = s.sentinel_idx == 0 && s.block_idx == 0

abbrev pub is_same : SlotNumber → SlotNumber → Bool
is_same s t = s.sentinel_idx == t.sentinel_idx && s.block_idx == t.block_idx

abbrev pub block_size : ℕ
block_size = 2 ^ 14

pub record Slots : Type 0 where
  pub sentinel : ℕ → Option (List SlotNumber)
  pub head : SlotNumber

-- The slots of the first block, from the one whose `next` is `s` on.
unfoldable pub first_block : ℕ → ℕ → List SlotNumber
first_block zero s = []
first_block (suc n) s = record { sentinel_idx = 0; block_idx = s } ∷ first_block n (s + 1)

unfoldable pub only_first : List SlotNumber → ℕ → Option (List SlotNumber)
only_first block i = if i == 0 then some block else none

-- The constructor.
unfoldable pub new_slots : Slots
unfolding first_block only_first
new_slots = record {
  sentinel = only_first (first_block block_size 2);
  head = record { sentinel_idx = 0; block_idx = 1 };
}

-- `sentinel[s.sentinel_idx]->at(s.block_idx - 1)`.
unfoldable pub get : SlotNumber → Slots → Option SlotNumber
get s q = q.sentinel s.sentinel_idx >>= λ block.
    if s.block_idx == 0 then none else get_elem? block (s.block_idx - 1)

unfoldable pub set_next : SlotNumber → SlotNumber → Slots → Option Slots
set_next s next q = q.sentinel s.sentinel_idx >>= λ block.
    if s.block_idx == 0
    then none
    else if ltb (s.block_idx - 1) (length block)
    then some (record q {
      sentinel = λ i.
          if i == s.sentinel_idx then some (set block (s.block_idx - 1) next) else q.sentinel i;
    })
    else none

-- `compare_exchange` on `head`.
unfoldable pub exchange : SlotNumber → SlotNumber → Slots → Bool × Slots
exchange exp des q = (is_same q.head exp, if is_same q.head exp then record q { head = des } else q)

-- What `acquire_slot` reads for the exchange.
unfoldable pub read_next : Slots → Option SlotNumber
unfolding get
read_next q = if is_zero q.head then none else get q.head q

-- `acquire_slot` when nothing comes in between.
unfoldable pub acquire_slot : Slots → Option (SlotNumber × Slots)
unfolding read_next exchange
acquire_slot q =
    read_next q >>= λ des. if is_zero des then none else some (q.head, (exchange q.head des q).1)

-- `release_slot` when nothing comes in between.
unfoldable pub release_slot : SlotNumber → Slots → Option Slots
unfolding set_next exchange
release_slot s q = set_next s q.head q >>= λ q'. some ((exchange q.head s q').1)

-- `acquire_slot` as often as it is called.
unfoldable pub acquire_slots : ℕ → Slots → Option (List SlotNumber × Slots)
unfolding acquire_slot
acquire_slots zero q = some ([], q)
acquire_slots (suc n) q = acquire_slot q >>= λ (r : SlotNumber × Slots).
    acquire_slots n (r.1) >>= λ (s : List SlotNumber × Slots). some ((r.0) ∷ (s.0), s.1)
