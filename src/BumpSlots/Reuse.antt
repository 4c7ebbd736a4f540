-- ===== src/BumpSlots/Reuse.antt =====
-- Two processes at the list of free slots (include/mpgc/bump_allocation_slots.h).
use mpgc.Prelude.{
  bind-some, bind-some, ℕ, zero, suc, ◌-◌, ◌<◌, ◌≡◌, ◌≢◌, refl, sym, ap, ◌∙◌, arith, List, [], ◌∷◌,
  none, some, true, false, ◌&&◌, ◌==◌, ltb, if◌then◌else◌, get_elem?, set, length, lt→ltb, ==_iff,
  Bool-cases, inl, inr,
}
use mpgc.BumpSlots.Defs.{
  SlotNumber, Slots, is_zero, is_same, get, set_next, exchange, read_next, acquire_slot,
  release_slot,
}
use mpgc.BumpSlots.FreeList.{is_same_refl, acquire_slot_lem, release_slot_lem}

get_elem?-lt : {A : Type 0} (xs : List A) (i : ℕ) (v : A) → get_elem? xs i ≡ some v → i < length xs
get_elem?-lt [] i v e = absurd (cc)
get_elem?-lt (x ∷ xs) zero v e = omega arith
get_elem?-lt (x ∷ xs) (suc i) v e = omega (arith, get_elem?-lt xs i v e)

get_elem?-set_ne :
    {A : Type 0} (xs : List A) (i j : ℕ) (v : A) → i ≢ j → get_elem? (set xs i v) j ≡ get_elem? xs j
get_elem?-set_ne [] i j v ne = refl
get_elem?-set_ne (x ∷ xs) zero zero v ne = absurd (ne refl)
get_elem?-set_ne (x ∷ xs) zero (suc j) v ne = refl
get_elem?-set_ne (x ∷ xs) (suc i) zero v ne = refl
get_elem?-set_ne (x ∷ xs) (suc i) (suc j) v ne = get_elem?-set_ne xs i j v (λ e. ne (ap suc e))

-- A slot that can be read.
record IsSlot (s : SlotNumber) (q : Slots) (v : SlotNumber) : Type 0 where
  block : List SlotNumber
  block_eq : q.sentinel s.sentinel_idx ≡ some block
  numbered : (s.block_idx == 0) ≡ false
  at_eq : get_elem? block (s.block_idx - 1) ≡ some v

get-IsSlot : (s : SlotNumber) (q : Slots) (v : SlotNumber) → get s q ≡ some v → IsSlot s q v
unfolding get
get-IsSlot s q v e =
    let (block, there, rest) =
      bind-some (q.sentinel s.sentinel_idx)
        (λ block. if s.block_idx == 0 then none else get_elem? block (s.block_idx - 1)) v e in
    elim (Bool-cases (s.block_idx == 0)) [
      | inl z ↦
          absurd (
            nothing
              (ap (λ b. if b then none else get_elem? block (s.block_idx - 1)) (sym z) ∙ rest))
      | inr nz ↦ record {
        block = block;
        block_eq = there;
        numbered = nz;
        at_eq = ap (λ b. if b then none else get_elem? block (s.block_idx - 1)) (sym nz) ∙ rest;
      }
    ]
  where
    nothing : none ≡ some v → ⊥
    nothing e = (cc)

-- Another slot is read as before.
other_slot :
    (s t next v : SlotNumber) (q : Slots)
    → IsSlot s q v
    → is_same t s ≡ false
    → (block : List SlotNumber) → q.sentinel s.sentinel_idx ≡ some block
    → get t (record q {
      sentinel = λ j.
          if j == s.sentinel_idx then some (set block (s.block_idx - 1) next) else q.sentinel j;
    })
      ≡ get t q
unfolding get
other_slot s t next v q i other block there = elim (Bool-cases (t.sentinel_idx == s.sentinel_idx)) [
  | inr apart ↦ rw apart refl
  | inl same ↦
      let e : t.sentinel_idx ≡ s.sentinel_idx = (==_iff t.sentinel_idx s.sentinel_idx).0 same in
      let here : q.sentinel t.sentinel_idx ≡ some block = ap q.sentinel e ∙ there in
      let differ : (t.block_idx == s.block_idx) ≡ false =
        sym (ap (λ b. b && t.block_idx == s.block_idx) same) ∙ other in
      rw (same, here)
        (elim (Bool-cases (t.block_idx == 0)) [
          | inl z ↦ rw z refl
          | inr nz ↦
              let numbered = i.numbered in
              let ne : s.block_idx - 1 ≢ t.block_idx - 1 = λ e. ground arith in
              rw nz (get_elem?-set_ne block (s.block_idx - 1) (t.block_idx - 1) next ne)
        ])
]

-- A slot that can be read can be written, which changes no other slot.
set_next_lem :
    (s next : SlotNumber) (q : Slots) (v : SlotNumber)
    → get s q ≡ some v
    → (q' : Slots) × (set_next s next q ≡ some q')
      × (q'.head ≡ q.head)
      × ((t : SlotNumber) → is_same t s ≡ false → get t q' ≡ get t q)
unfolding set_next
set_next_lem s next q v e =
    let i = get-IsSlot s q v e in
    let inside : ltb (s.block_idx - 1) (length i.block) ≡ true =
      lt→ltb (s.block_idx - 1) (length i.block)
        (get_elem?-lt i.block (s.block_idx - 1) v i.at_eq) in
    (
      record q {
        sentinel = λ j.
            if j == s.sentinel_idx then some (set i.block (s.block_idx - 1) next) else q.sentinel j;
      },
      rw (i.block_eq, i.numbered, inside) refl,
      refl,
      λ t other. other_slot s t next v q i other i.block i.block_eq,
    )

read_next_lem : (q : Slots) → is_zero q.head ≡ false → read_next q ≡ get q.head q
unfolding read_next
read_next_lem q e = rw e refl

-- What a slot holds does not depend on the head.
get-head : (t h : SlotNumber) (q : Slots) → get t (record q { head = h }) ≡ get t q
unfolding get
get-head t h q = refl

-- The head is acquired, and the slot behind it is the new head.
acquire-head :
    (a next : SlotNumber) (q : Slots)
    → get a q ≡ some next
    → is_zero a ≡ false
    → is_zero next ≡ false
    → acquire_slot (record q { head = a }) ≡ some (a, record q { head = next })
acquire-head a next q at za zn =
    acquire_slot_lem (record q { head = a }) next
      (read_next_lem (record q { head = a }) za ∙ get-head a a q ∙ at) zn

-- Let the list start with two different slots `a` and `b` and have another slot `c` behind them. A
-- process reads `b` as the slot behind `a`, for its exchange. If others acquire `a` and `b` before the
-- exchange, and release `a`, all of this succeeds, and so does the exchange. Then `b`, which is in use,
-- is acquired once more.
pub exchange-acquire_slot :
    (a b c : SlotNumber) (q : Slots)
    → get a q ≡ some b
    → get b q ≡ some c
    → is_zero a ≡ false
    → is_zero b ≡ false
    → is_zero c ≡ false
    → is_same b a ≡ false
    → (q1 : Slots) × (q2 : Slots) × (q3 : Slots) × (q4 : Slots) × (read_next (record q { head = a })
        ≡ some b)
      × (acquire_slot (record q { head = a }) ≡ some (a, q1))
      × (acquire_slot q1 ≡ some (b, q2))
      × (release_slot a q2 ≡ some q3)
      × ((exchange a b q3).0 ≡ true)
      × (acquire_slot ((exchange a b q3).1) ≡ some (b, q4))
unfolding exchange
exchange-acquire_slot a b c q at_a at_b za zb zc ne =
    let q2 : Slots = record q { head = c } in
    let (r, written, same, others) = set_next_lem a c q2 b (get-head a c q ∙ at_a) in
    (
      record q { head = b },
      q2,
      record r { head = a },
      record r { head = c },
      read_next_lem (record q { head = a }) za ∙ get-head a a q ∙ at_a,
      acquire-head a b q at_a za zb,
      acquire-head b c q at_b zb zc,
      release_slot_lem q2 r a written same,
      is_same_refl a,
      rw (is_same_refl a) (acquire-head b c r (others b ne ∙ get-head b c q ∙ at_b) zb zc),
    )
