-- ===== src/LocalPool/Take.antt =====
-- What `get_from_local` takes from the pool.
use mpgc.Prelude.{
  ℕ, ◌+◌, ◌-◌, ◌≡◌, ◌≤◌, ◌<◌, refl, ap, ◌⊎◌, inl, inr, List, [], ◌∷◌, ◌++◌, Option, none, some,
  true, false, ltb, leb, if◌then◌else◌, Bool-cases, arith, In,
}
use mathlib.Core.Option
use mpgc.LocalPool.Align.{required_padding}
use mpgc.LocalPool.Defs.{Pool, Taken, first_fit, without, unlink, get_from_local}

-- A chunk of `k` words at `c` is in the pool.
abbrev pub IsFree : ℕ → ℕ → Pool → Type 0
IsFree k c [] = ⊥
IsFree k c ((j, chunks) ∷ rest) = ((k ≡ j) × In c chunks) ⊎ IsFree k c rest

without-kept :
    (k : ℕ) (before after : List ℕ) (rest : Pool) (a : ℕ) (l : List ℕ)
    → after ≡ a ∷ l
    → without k before after rest ≡ (k, before ++ after) ∷ rest
unfolding without
without-kept k before [] rest a l e = absurd (cc)
without-kept k before (b ∷ after) rest a l e = refl

without-erased :
    (k : ℕ) (before after : List ℕ) (rest : Pool) → after ≡ [] → without k before after rest ≡ rest
unfolding without
without-erased k before [] rest e = refl
without-erased k before (b ∷ after) rest e = absurd (cc)

module _ (size algn : ℕ) where
  -- No chunk of the list is large enough with its padding.
  abbrev pub Misses : ℕ → List ℕ → Type 0
  Misses k chunks = (c : ℕ) → In c chunks → k < size + required_padding c algn

  abbrev Fits : ℕ → List ℕ → Option (List ℕ × (ℕ × ℕ) × List ℕ) → Type 0
  Fits k chunks none = Misses k chunks
  Fits k chunks (some (before, (c, padding), after)) =
      (chunks ≡ before ++ c ∷ after)
      × (padding ≡ required_padding c algn)
      × (size + padding ≤ k)
      × Misses k before

  first_fit-Fits : (k : ℕ) (chunks : List ℕ) → Fits k chunks (first_fit size algn k chunks)
  unfolding first_fit
  first_fit-Fits k [] = λ c h. absurd h
  first_fit-Fits k (c ∷ rest) =
      by_size (Bool-cases (leb (size + required_padding c algn) k)) (first_fit size algn k rest)
        (first_fit-Fits k rest)
    where
      by_size :
          ((leb (size + required_padding c algn) k ≡ true)
            ⊎ (leb (size + required_padding c algn) k ≡ false))
          → (later : Option (List ℕ × (ℕ × ℕ) × List ℕ)) → Fits k rest later
          → Fits k (c ∷ rest) (
              if leb (size + required_padding c algn) k
              then some ([], (c, required_padding c algn), rest)
              else Option.map (λ r. (c ∷ r.0, r.1, r.2)) later)
      by_size (inl e) later h = rw e (refl, refl, ground arith, λ x no_more. absurd no_more)
      by_size (inr e) none h =
          rw e (λ x found. elim found [ inl same ↦ rw same (ground arith) | inr there ↦ h x there ])
      by_size (inr e) (some (before, (d, padding), after)) (split, pad, fits, misses) = rw e (
        ap (λ l. c ∷ l) split,
        pad,
        fits,
        λ x found. elim found [ inl same ↦ rw same (ground arith) | inr there ↦ misses x there ],
      )

  -- What is taken is a chunk of `k` words that is divided without a rest, the first of its list that
  -- fits, where the lists in front have no chunk that does. The list keeps its other chunks, unless the
  -- chunk was the last: then it goes as a whole.
  pub record IsTaken (pool : Pool) (t : Taken) (pool' : Pool) : Type 0 where
    pub k : ℕ
    pub before : List ℕ
    pub after : List ℕ
    pub pre : Pool
    pub post : Pool
    pub found : pool ≡ pre ++ (k, before ++ t.chunk ∷ after) ∷ post
    pub kept : (a : ℕ) (l : List ℕ) → after ≡ a ∷ l → pool' ≡ pre ++ (k, before ++ after) ∷ post
    pub erased : after ≡ [] → pool' ≡ pre ++ post
    pub passed : (j c : ℕ) → IsFree j c pre → j < size + required_padding c algn
    pub misses : Misses k before
    pub padded : t.padding ≡ required_padding t.chunk algn
    pub unlinked : t.unlinked ≡ unlink before after
    pub divided : t.padding + size + t.leftover_size ≡ k

  -- The two ways in which `get_from_local` ends.
  abbrev pub IsOutcome : Pool → Option Taken × Pool → Type 0
  IsOutcome pool (some t, pool') = IsTaken pool t pool'
  IsOutcome pool (none, pool') =
      (pool' ≡ pool) × ((k c : ℕ) → IsFree k c pool → k < size + required_padding c algn)

  skip-IsOutcome :
      (k : ℕ) (chunks : List ℕ) (rest : Pool) (r : Option Taken × Pool)
      → Misses k chunks
      → IsOutcome rest r
      → IsOutcome ((k, chunks) ∷ rest) (r.0, (k, chunks) ∷ r.1)
  skip-IsOutcome k chunks rest (none, pool') misses (same, all) = (
    ap (λ p. (k, chunks) ∷ p) same,
    λ j c free. elim free [ inl (e, here) ↦ rw e (misses c here) | inr there ↦ all j c there ],
  )
  skip-IsOutcome k chunks rest (some t, pool') misses h = record {
    k = h.k;
    before = h.before;
    after = h.after;
    pre = (k, chunks) ∷ h.pre;
    post = h.post;
    found = ap (λ p. (k, chunks) ∷ p) h.found;
    kept = λ a l e. ap (λ p. (k, chunks) ∷ p) (h.kept a l e);
    erased = λ e. ap (λ p. (k, chunks) ∷ p) (h.erased e);
    passed = λ j c free. elim free [
      | inl (e, here) ↦ rw e (misses c here)
      | inr there ↦ h.passed j c there
    ];
    misses = h.misses;
    padded = h.padded;
    unlinked = h.unlinked;
    divided = h.divided;
  }

  -- `get_from_local` takes a chunk that is large enough for the request and the padding in front of it:
  -- the first such chunk of its list, where no list in front has one. The list keeps its other chunks
  -- in their order, unless there is none behind the chunk: then the list goes as a whole. The other
  -- lists are as before. It returns null only when no free chunk is large enough, and then changes
  -- nothing.
  pub get_from_local-IsOutcome : (pool : Pool) → IsOutcome pool (get_from_local size algn pool)
  unfolding get_from_local
  get_from_local-IsOutcome [] = (refl, λ k c h. absurd h)
  get_from_local-IsOutcome ((k, chunks) ∷ rest) =
      by_size (Bool-cases (ltb k size)) (get_from_local size algn rest)
        (get_from_local-IsOutcome rest)
    where
      by_fit :
          (r : Option Taken × Pool)
          → IsOutcome rest r
          → (fit : Option (List ℕ × (ℕ × ℕ) × List ℕ)) → Fits k chunks fit
          → IsOutcome ((k, chunks) ∷ rest) (elim fit [
            | none ↦ (r.0, (k, chunks) ∷ r.1)
            | some (before, (chunk, padding), after) ↦ (
              some (record {
                chunk = chunk;
                leftover_size = k - size - padding;
                padding = padding;
                unlinked = unlink before after;
              }),
              without k before after rest,
            )
          ])
      by_fit r h none misses = skip-IsOutcome k chunks rest r misses h
      by_fit r h (some (before, (c, padding), after)) (split, pad, fits, misses) = record {
        k = k;
        before = before;
        after = after;
        pre = [];
        post = rest;
        found = ap (λ l. (k, l) ∷ rest) split;
        kept = λ a l e. without-kept k before after rest a l e;
        erased = λ e. without-erased k before after rest e;
        passed = λ j c free. absurd free;
        misses = misses;
        padded = pad;
        unlinked = refl;
        divided = omega arith;
      }

      by_size :
          ((ltb k size ≡ true) ⊎ (ltb k size ≡ false))
          → (r : Option Taken × Pool) → IsOutcome rest r
          → IsOutcome ((k, chunks) ∷ rest) (
              if ltb k size then (r.0, (k, chunks) ∷ r.1) else elim (first_fit size algn k chunks) [
                | none ↦ (r.0, (k, chunks) ∷ r.1)
                | some (before, (chunk, padding), after) ↦ (
                  some (record {
                    chunk = chunk;
                    leftover_size = k - size - padding;
                    padding = padding;
                    unlinked = unlink before after;
                  }),
                  without k before after rest,
                )
              ])
      by_size (inl e) r h = rw e (skip-IsOutcome k chunks rest r (λ c here. ground arith) h)
      by_size (inr e) r h =
          rw e (by_fit r h (first_fit size algn k chunks) (first_fit-Fits k chunks))
