-- ===== src/LocalPool/Carve.antt =====
-- What `alloc` writes: the chunk it takes is left as blocks that follow each other.
use mpgc.Prelude.{
  ℕ, zero, suc, ◌+◌, ◌-◌, ◌≡◌, ◌≤◌, ◌<◌, refl, sym, subst, ◌⊎◌, inl, inr, ltb, if◌then◌else◌,
  Bool-cases, arith,
}
use mpgc.LocalPool.Defs.{Memory, Taken, Local, write, zero_out, put_to_local, carve}

-- The first word of each block from `a` on is its size, and the blocks end at `e`.
pub data IsTiled (memory : Memory) : ℕ → ℕ → Type 0 where
  end_of : (a : ℕ) → IsTiled memory a a
  block : (a e : ℕ) → 0 < memory a → IsTiled memory (a + memory a) e → IsTiled memory a e

-- What the words of the chunk hold after `alloc`, and that no other word has changed.
pub record IsCarved (memory memory' : Memory) (t : Taken) (size : ℕ) : Type 0 where
  pub first_word : memory' (t.chunk + t.padding) ≡ size
  pub zeros : (q : ℕ) → t.chunk + t.padding < q → q < t.chunk + t.padding + size → memory' q ≡ 0
  pub tiled : IsTiled memory' t.chunk (t.chunk + t.padding + size + t.leftover_size)
  pub outside :
      (q : ℕ)
      → (q < t.chunk) ⊎ (t.chunk + t.padding + size + t.leftover_size ≤ q)
      → memory' q ≡ memory q

module _ {State : Type 0} where
  put_to_local-first :
      (p size : ℕ) (l : Local State) → 0 < size → (put_to_local p size l).memory p ≡ size
  unfolding put_to_local write
  put_to_local-first p size l pos = ground arith

  put_to_local-outside :
      (p size : ℕ) (l : Local State) (q : ℕ)
      → (q < p) ⊎ (p + size ≤ q)
      → (put_to_local p size l).memory q ≡ l.memory q
  unfolding put_to_local write
  put_to_local-outside p size l q (inl before) = ground arith
  put_to_local-outside p size l q (inr behind) = ground arith

  module _ (t : Taken) (size : ℕ) (l : Local State) (pos : 0 < size) where
    abbrev return_addr : ℕ
    return_addr = t.chunk + t.padding

    abbrev l1 : Local State
    l1 = put_to_local (return_addr + size) t.leftover_size l

    abbrev l2 : Local State
    l2 = record (l1) { memory = write l1.memory return_addr size }

    abbrev l3 : Local State
    l3 = if ltb 0 t.padding then put_to_local t.chunk t.padding l2 else l2

    abbrev last : Memory
    last = zero_out (return_addr + 1) (size - 1) l3.memory

    l3-behind : (q : ℕ) → t.chunk + t.padding ≤ q → l3.memory q ≡ l2.memory q
    l3-behind q le = elim (Bool-cases (ltb 0 t.padding)) [
      | inl e ↦ rw e (put_to_local-outside t.chunk t.padding l2 q (inr le))
      | inr e ↦ rw e refl
    ]

    l3-before : (q : ℕ) → q < t.chunk → l3.memory q ≡ l2.memory q
    l3-before q lt = elim (Bool-cases (ltb 0 t.padding)) [
      | inl e ↦ rw e (put_to_local-outside t.chunk t.padding l2 q (inl lt))
      | inr e ↦ rw e refl
    ]

    last-pad : 0 < t.padding → last t.chunk ≡ t.padding
    unfolding zero_out
    last-pad some_pad =
        let first = put_to_local-first t.chunk t.padding l2 some_pad in ground (arith, first)

    last-first : last return_addr ≡ size
    unfolding zero_out write
    last-first = ground (arith, l3-behind return_addr (omega arith))

    last-leftover : 0 < t.leftover_size → last (return_addr + size) ≡ t.leftover_size
    unfolding zero_out write
    last-leftover some_left = ground (
      arith,
      l3-behind (return_addr + size) (omega arith),
      put_to_local-first (return_addr + size) t.leftover_size l some_left,
    )

    last-outside :
        (q : ℕ) → (q < t.chunk) ⊎ (return_addr + size + t.leftover_size ≤ q) → last q ≡ l.memory q
    unfolding zero_out write
    last-outside q (inl before) = ground (
      arith,
      l3-before q before,
      put_to_local-outside (return_addr + size) t.leftover_size l q (inl (omega arith)),
    )
    last-outside q (inr behind) = ground (
      arith,
      l3-behind q (omega arith),
      put_to_local-outside (return_addr + size) t.leftover_size l q (inr behind),
    )

    one_block :
        (a n : ℕ) → (0 < n → last a ≡ n) → (e : ℕ) → IsTiled last (a + n) e → IsTiled last a e
    one_block a zero first e rest = subst (λ b. IsTiled last b e) (omega arith) rest
    one_block a (suc n) first e rest =
        block a e (omega (arith, first (omega arith)))
          (subst (λ m. IsTiled last (a + m) e) (sym (first (omega arith))) rest)

    pub carve-IsCarved : IsCarved l.memory (carve t size l).1.memory t size
    unfolding carve
    carve-IsCarved = record {
      first_word = last-first;
      zeros = λ q lo hi. unfold zero_out in ground arith;
      tiled = one_block t.chunk t.padding last-pad _ (
          one_block return_addr size (λ h. last-first) _
            (one_block (return_addr + size) t.leftover_size last-leftover _ (end_of _)));
      outside = last-outside;
    }
