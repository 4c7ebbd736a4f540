-- ===== src/BumpSlots/FreeList.antt =====
-- The list of free slots (include/mpgc/bump_allocation_slots.h).
use mpgc.Prelude.{
  ℕ, zero, suc, ◌+◌, ◌-◌, ◌≤◌, ◌<◌, ◌≡◌, refl, ap, ◌∙◌, arith, List, [], ◌∷◌, none, some, true,
  false, ◌==◌, get_elem?, ==-refl,
}
use mpgc.BumpSlots.Defs.{
  SlotNumber, Slots, is_zero, is_same, block_size, first_block, only_first, new_slots, get,
  set_next, exchange, read_next, acquire_slot, release_slot, acquire_slots,
}

pub is_same_refl : (s : SlotNumber) → is_same s s ≡ true
is_same_refl s = rw (==-refl s.sentinel_idx, ==-refl s.block_idx) refl

-- A slot is taken from the list when its next one is read.
pub acquire_slot_lem :
    (q : Slots) (des : SlotNumber)
    → read_next q ≡ some des
    → is_zero des ≡ false
    → acquire_slot q ≡ some (q.head, record q { head = des })
unfolding acquire_slot exchange
acquire_slot_lem q des e not_zero = rw (e, not_zero, is_same_refl q.head) refl

-- A slot that is given back is the head.
pub release_slot_lem :
    (q q' : Slots) (s : SlotNumber)
    → set_next s q.head q ≡ some q'
    → q'.head ≡ q.head
    → release_slot s q ≡ some (record q' { head = s })
unfolding release_slot exchange
release_slot_lem q q' s e same = rw (e, same, is_same_refl q.head) refl

first_block-get :
    (n s i : ℕ)
    → i < n
    → get_elem? (first_block n s) i ≡ some (record { sentinel_idx = 0; block_idx = s + i })
unfolding first_block
first_block-get zero s i h = absurd (omega arith)
first_block-get (suc n) s zero h =
    let same : s ≡ s + 0 = omega arith in
    ap (λ k. some (record { sentinel_idx = 0; block_idx = k })) same
first_block-get (suc n) s (suc i) h =
    let same : s + 1 + i ≡ s + suc i = omega arith in
    first_block-get n (s + 1) i (omega arith)
    ∙ ap (λ k. some (record { sentinel_idx = 0; block_idx = k })) same

first_block-end : (n s : ℕ) → get_elem? (first_block n s) n ≡ none
unfolding first_block
first_block-end zero s = refl
first_block-end (suc n) s = first_block-end n (s + 1)

-- The list when `k` slots of the first block have been taken.
taken : ℕ → Slots
taken k = record {
  sentinel = only_first (first_block block_size 2);
  head = record { sentinel_idx = 0; block_idx = k + 1 };
}

read_next-taken : (k : ℕ) → read_next (taken k) ≡ get_elem? (first_block block_size 2) k
unfolding read_next get taken only_first
read_next-taken k =
    let index : k + 1 - 1 ≡ k = omega arith in
    let some_slot : (k + 1 == 0) ≡ false = ground arith in rw (some_slot, index) refl

acquire-taken :
    (k : ℕ)
    → k < block_size
    → acquire_slot (taken k) ≡ some (record { sentinel_idx = 0; block_idx = k + 1 }, taken (k + 1))
unfolding taken
acquire-taken k h =
    let des : SlotNumber = record { sentinel_idx = 0; block_idx = k + 1 + 1 } in
    let index : 2 + k ≡ k + 1 + 1 = omega arith in
    let not_zero : is_zero des ≡ false = ground arith in
    acquire_slot_lem (taken k) des
      (read_next-taken k
        ∙ first_block-get block_size 2 k h
        ∙ ap (λ i. some (record { sentinel_idx = 0; block_idx = i })) index)
      not_zero

-- The slots from `s` on.
abbrev pub numbers : ℕ → ℕ → List SlotNumber
numbers zero s = []
numbers (suc n) s = record { sentinel_idx = 0; block_idx = s } ∷ numbers n (s + 1)

acquire_slots-taken :
    (n k : ℕ)
    → k + n ≤ block_size
    → acquire_slots n (taken k) ≡ some (numbers n (k + 1), taken (k + n))
unfolding acquire_slots
acquire_slots-taken zero k h =
    let same : k ≡ k + 0 = omega arith in ap (λ j. some ([], taken j)) same
acquire_slots-taken (suc n) k h =
    let same : k + 1 + n ≡ k + suc n = omega arith in
    rw (acquire-taken k (omega arith), acquire_slots-taken n (k + 1) (omega arith), same) refl

-- Of a new list, up to 2 ^ 14 calls acquire the slots 1, 2 and so on; the call after all of these finds
-- the list not empty and reads behind the end of the block, where `at` throws.
pub acquire_slots-new_slots :
    (n : ℕ)
    → n ≤ block_size
    → (q : Slots) × (acquire_slots n new_slots ≡ some (numbers n 1, q))
      × (n ≡ block_size → (is_zero q.head ≡ false) × (read_next q ≡ none))
unfolding new_slots taken
acquire_slots-new_slots n h = (
  taken (0 + n),
  acquire_slots-taken n 0 (omega arith),
  λ all.
      let same : 0 + n ≡ block_size = omega arith in
      (ground arith, rw same (read_next-taken block_size ∙ first_block-end block_size 2)),
)
