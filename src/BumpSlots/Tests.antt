-- ===== src/BumpSlots/Tests.antt =====
-- Runs of a list with three free slots, and of a new one.
use mpgc.Prelude.{ℕ, ◌≡◌, refl, arith, [], ◌∷◌, none, some, true, false}
use mpgc.BumpSlots.Defs.{
  SlotNumber, Slots, is_zero, block_size, only_first, new_slots, get, exchange, read_next,
  acquire_slot, release_slot, acquire_slots,
}
use mpgc.BumpSlots.FreeList.{numbers, acquire_slots-new_slots}
use mpgc.BumpSlots.Reuse.{exchange-acquire_slot}

abbrev slot : ℕ → SlotNumber
slot i = record { sentinel_idx = 0; block_idx = i }

abbrev three : Slots
three = record { sentinel = only_first (slot 2 ∷ slot 3 ∷ slot 4 ∷ []); head = slot 1 }

first_get : get (slot 1) three ≡ some (slot 2)
unfolding get only_first
first_get = refl

second_get : get (slot 2) three ≡ some (slot 3)
unfolding get only_first
second_get = refl

exchange-acquire_slot_example :
    (q1 : Slots) × (q2 : Slots) × (q3 : Slots) × (q4 : Slots) × (read_next three ≡ some (slot 2))
    × (acquire_slot three ≡ some (slot 1, q1))
    × (acquire_slot q1 ≡ some (slot 2, q2))
    × (release_slot (slot 1) q2 ≡ some q3)
    × ((exchange (slot 1) (slot 2) q3).0 ≡ true)
    × (acquire_slot ((exchange (slot 1) (slot 2) q3).1) ≡ some (slot 2, q4))
exchange-acquire_slot_example =
    exchange-acquire_slot (slot 1) (slot 2) (slot 3) three first_get second_get refl refl refl refl

acquire_slots-new_slots_example :
    (q : Slots) × (acquire_slots block_size new_slots ≡ some (numbers block_size 1, q))
    × (block_size ≡ block_size → (is_zero q.head ≡ false) × (read_next q ≡ none))
acquire_slots-new_slots_example = acquire_slots-new_slots block_size (omega arith)
