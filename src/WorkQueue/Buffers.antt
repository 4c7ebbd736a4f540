-- ===== src/WorkQueue/Buffers.antt =====
-- What one buffer of a work queue (include/mpgc/mark_buffer.h) holds.
use mpgc.Prelude.{
  ℕ, zero, suc, ◌+◌, ◌-◌, ◌≤◌, ◌<◌, ◌≡◌, refl, ◌∙◌, List, [], ◌∷◌, Option, none, some, length, set,
  get_or, get_elem?, get_elem?-eq-get_or, get_or-set_self, get_or-set_ne, length-set, arith, ◌==◌,
  Bool-cases, inl, inr, ==_iff, lt→ltb,
}
use native.Mathlib.Numerals.{add-one, sub-one}
use mpgc.WorkQueue.Defs.{Buffer, buffer_size, store, take_one, last_of}

module _ {A : Type 0} (initial : A) where
  -- The first `n` entries, the newest of them first.
  abbrev pub newest_first : ℕ → List A → List A
  newest_first zero buf = []
  newest_first (suc n) buf = get_or buf n initial ∷ newest_first n buf

  abbrev pub held : Buffer A → List A
  held b = newest_first b.write_idx b.buf

  -- A buffer in use: it has its size, and something in it.
  pub record IsBuffer (b : Buffer A) : Type 0 where
    pub sized : length b.buf ≡ buffer_size
    pub used : 0 < b.write_idx
    pub within : b.write_idx ≤ buffer_size

  newest_first-set :
      (n i : ℕ) (p : A) (buf : List A) → n ≤ i → newest_first n (set buf i p) ≡ newest_first n buf
  newest_first-set zero i p buf h = refl
  newest_first-set (suc n) i p buf h =
      rw
        (
          get_or-set_ne buf i n p initial (λ e. omega (arith, e)),
          newest_first-set n i p buf (omega arith),
        )
        refl

  newest_first-store :
      (n : ℕ) (p : A) (buf : List A)
      → n < length buf
      → newest_first (n + 1) (set buf n p) ≡ p ∷ newest_first n buf
  newest_first-store n p buf h =
      rw (add-one n, get_or-set_self buf n p initial h, newest_first-set n n p buf (omega arith))
        refl

  -- Storing in a buffer that has room puts the entry in front of what it holds.
  pub store_lem :
      (p : A) (b : Buffer A)
      → length b.buf ≡ buffer_size
      → b.write_idx < buffer_size
      → (b' : Buffer A) × (store p b ≡ some b')
        × (b'.write_idx ≡ b.write_idx + 1)
        × IsBuffer b'
        × (held b' ≡ p ∷ held b)
  unfolding store
  store_lem p b sized room = (
    record { buf = set b.buf b.write_idx p; write_idx = b.write_idx + 1 },
    ground arith,
    refl,
    record {
      sized = length-set b.buf b.write_idx p ∙ sized;
      used = omega arith;
      within = omega arith;
    },
    newest_first-store b.write_idx p b.buf (omega (arith, sized)),
  )

  -- What a buffer holds, if there is one.
  abbrev pub held_of : Option (Buffer A) → List A
  held_of none = []
  held_of (some b) = held b

  abbrev pub AllOf : Option (Buffer A) → Type 0
  AllOf none = Unit
  AllOf (some b) = IsBuffer b

  pub take_one-IsBuffer : (b : Buffer A) → IsBuffer b → AllOf (take_one b)
  unfolding take_one
  take_one-IsBuffer b v = elim (Bool-cases (b.write_idx - 1 == 0)) [
    | inl e ↦ rw e tt
    | inr e ↦
        rw e (record { sized = v.sized; used = ground arith; within = omega (arith, v.within) })
  ]

  newest_first-split :
      (n : ℕ) (buf : List A)
      → 0 < n
      → n ≤ length buf
      → (x : A) × (get_elem? buf (n - 1) ≡ some x)
        × (newest_first n buf ≡ x ∷ newest_first (n - 1) buf)
  newest_first-split zero buf h le = absurd (omega arith)
  newest_first-split (suc n) buf h le =
      rw (sub-one (suc n)) (get_or buf n initial, get_elem?-eq-get_or buf n initial le, refl)

  held_of-take_one :
      (b : Buffer A) → IsBuffer b → held_of (take_one b) ≡ newest_first (b.write_idx - 1) b.buf
  unfolding take_one
  held_of-take_one b v = elim (Bool-cases (b.write_idx - 1 == 0)) [
    | inl e ↦ rw (e, (==_iff _ _).0 e) refl
    | inr e ↦ rw e refl
  ]

  -- The newest entry is the one that is read, and the one that is taken out.
  pub take_one_lem :
      (b : Buffer A)
      → IsBuffer b
      → (x : A) × (last_of b ≡ some x) × (held b ≡ x ∷ held_of (take_one b))
  unfolding last_of
  take_one_lem b v =
      let (x, read, split) =
        newest_first-split b.write_idx b.buf v.used (omega (arith, v.within, v.sized)) in
      (x, rw (lt→ltb 0 b.write_idx v.used) read, rw (held_of-take_one b v) split)
