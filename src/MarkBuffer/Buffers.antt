-- ===== src/MarkBuffer/Buffers.antt =====
-- What a buffer of a mark buffer (include/mpgc/mark_buffer.h) has yet to give.
use mpgc.Prelude.{
  ℕ, zero, suc, ◌+◌, ◌≤◌, ◌<◌, ◌≡◌, refl, ◌∙◌, ap, List, [], ◌∷◌, ◌++◌, some, arith, length, take,
  drop, set, get_elem?, length-set, length-replicate,
}
use native.Mathlib.Numerals.{add-one}
use mpgc.Vector.Pieces.{length-take}
use mpgc.MarkBuffer.Defs.{Buffer, buffer_size, new_buffer}

module _ {A : Type 0} where
  take-set_snoc :
      (n : ℕ) (e : A) (buf : List A)
      → n < length buf
      → take (suc n) (set buf n e) ≡ take n buf ++ e ∷ []
  take-set_snoc n e [] h = absurd (omega arith)
  take-set_snoc zero e (x ∷ buf) h = refl
  take-set_snoc (suc n) e (x ∷ buf) h = ap (λ l. x ∷ l) (take-set_snoc n e buf (omega arith))

  drop-snoc :
      (r : ℕ) (e : A) (xs : List A) → r ≤ length xs → drop r (xs ++ e ∷ []) ≡ drop r xs ++ e ∷ []
  drop-snoc zero e xs h = refl
  drop-snoc (suc r) e [] h = absurd (omega arith)
  drop-snoc (suc r) e (x ∷ xs) h = drop-snoc r e xs (omega arith)

  drop-take_split :
      (r w : ℕ) (buf : List A)
      → r < w
      → w ≤ length buf
      → (x : A) × (get_elem? buf r ≡ some x) × (drop r (take w buf) ≡ x ∷ drop (suc r) (take w buf))
  drop-take_split r zero buf h le = absurd (omega arith)
  drop-take_split r (suc w) [] h le = absurd (omega arith)
  drop-take_split zero (suc w) (x ∷ buf) h le = (x, refl, refl)
  drop-take_split (suc r) (suc w) (x ∷ buf) h le =
      drop-take_split r w buf (omega arith) (omega arith)

  drop-take_le : (r w : ℕ) (buf : List A) → w ≤ r → drop r (take w buf) ≡ []
  drop-take_le zero zero buf h = refl
  drop-take_le zero (suc w) buf h = absurd (omega arith)
  drop-take_le (suc r) zero buf h = refl
  drop-take_le (suc r) (suc w) [] h = refl
  drop-take_le (suc r) (suc w) (x ∷ buf) h = drop-take_le r w buf (omega arith)

  -- The elements that are written and not read.
  abbrev pub unread : Buffer A → List A
  unread b = drop b.read_next (take b.write_idx b.buf)

  -- A buffer of a queue.
  pub record IsBuffer (b : Buffer A) : Type 0 where
    pub sized : length b.buf ≡ buffer_size
    pub read : b.read_next ≤ b.write_idx
    pub within : b.write_idx ≤ buffer_size
    pub unfinished : b.read_next < buffer_size

  pub new_buffer-IsBuffer : (initial : A) → IsBuffer (new_buffer initial)
  new_buffer-IsBuffer initial = record {
    sized = length-replicate 254 initial;
    read = omega arith;
    within = omega arith;
    unfinished = omega arith;
  }

  abbrev pub written : A → Buffer A → Buffer A
  written e b = record b { buf = set b.buf b.write_idx e; write_idx = b.write_idx + 1 }

  pub written-IsBuffer :
      (e : A) (b : Buffer A) → IsBuffer b → b.write_idx < buffer_size → IsBuffer (written e b)
  written-IsBuffer e b h room = record {
    sized = length-set b.buf b.write_idx e ∙ h.sized;
    read = omega (arith, h.read);
    within = omega arith;
    unfinished = h.unfinished;
  }

  pub unread-written :
      (e : A) (b : Buffer A)
      → IsBuffer b
      → b.write_idx < buffer_size
      → unread (written e b) ≡ unread b ++ e ∷ []
  unread-written e b h room =
      rw (add-one b.write_idx, take-set_snoc b.write_idx e b.buf (omega (arith, h.sized)))
        (drop-snoc b.read_next e (take b.write_idx b.buf)
          (omega (arith, h.read, length-take b.write_idx b.buf (omega (arith, h.sized)))))

  abbrev pub advanced : Buffer A → Buffer A
  advanced b = record b { read_next = b.read_next + 1 }

  pub unread-advanced :
      (b : Buffer A)
      → IsBuffer b
      → b.read_next < b.write_idx
      → (x : A) × (get_elem? b.buf b.read_next ≡ some x) × (unread b ≡ x ∷ unread (advanced b))
  unread-advanced b h some_left =
      let (x, at, split) =
        drop-take_split b.read_next b.write_idx b.buf some_left
          (omega (arith, h.within, h.sized)) in
      (x, at, rw (add-one b.read_next) split)

  pub unread_nil : (b : Buffer A) → b.write_idx ≤ b.read_next → unread b ≡ []
  unread_nil b h = drop-take_le b.read_next b.write_idx b.buf h
