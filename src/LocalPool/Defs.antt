-- ===== src/LocalPool/Defs.antt =====
-- `get_from_local`, `put_to_local` and `alloc` of src/gc_skiplist_allocator.cpp, for one thread.
use mpgc.Prelude.{
  ℕ, ◌+◌, ◌-◌, ◌*◌, ◌/◌, ◌≤◌, List, [], ◌∷◌, ◌++◌, Option, none, some, ltb, leb, ◌==◌,
  if◌then◌else◌,
}
use mathlib.Core.Option
use mpgc.LocalPool.Align.{align_size_up, required_padding}

-- The heap by words, and addresses in words. `localPoolType` maps the size of a chunk to the list
-- of the free chunks of that size, in the order of the sizes.
abbrev pub Memory : Type 0
Memory = ℕ → ℕ

abbrev pub Pool : Type 0
Pool = List (ℕ × List ℕ)

-- What `get_from_local` and `get_from_global` return, when it is no null pointer.
pub record Taken : Type 0 where
  pub chunk : ℕ
  pub leftover_size : ℕ
  pub padding : ℕ
  -- The word of the heap that `(*ppChunk) = next` writes, and what it writes there.
  pub unlinked : Option (ℕ × ℕ)

-- The global free lists, as far as `alloc` sees them: a call returns a chunk's address and size.
pub record GlobalPool : Type 1 where
  pub State : Type 0
  pub allocate : State → ℕ → (ℕ × ℕ) × State
  pub is_enough : (s : State) (req : ℕ) → req ≤ (allocate s req).0.1

pub record Local (State : Type 0) : Type 0 where
  pub memory : Memory
  pub local_free_list : Pool
  pub global : State

-- The inner loop: the chunks before the first that fits, that chunk with its padding, and those
-- behind it.
unfoldable pub first_fit : ℕ → ℕ → ℕ → List ℕ → Option (List ℕ × (ℕ × ℕ) × List ℕ)
first_fit size algn chunk_size [] = none
first_fit size algn chunk_size (chunk ∷ rest) =
    let padding = required_padding chunk algn in
    let later =
      Option.map (λ (r : List ℕ × (ℕ × ℕ) × List ℕ). (chunk ∷ r.0, r.1, r.2))
        (first_fit size algn chunk_size rest) in
    if leb (size + padding) chunk_size then some ([], (chunk, padding), rest) else later

-- `first_time` is still true at the chunk that is taken: if none is behind it, the whole entry is
-- erased from the map.
unfoldable pub without : ℕ → List ℕ → List ℕ → Pool → Pool
without chunk_size before [] rest = rest
without chunk_size before (a ∷ after) rest = (chunk_size, before ++ a ∷ after) ∷ rest

-- The address that `next` gives.
abbrev pub first_of : List ℕ → ℕ
first_of [] = 0
first_of (a ∷ after) = a

-- `(*ppChunk) = next`: with a chunk before it this is that chunk's `next`, the second of its words;
-- otherwise it is the entry of the map.
unfoldable pub unlink : List ℕ → List ℕ → Option (ℕ × ℕ)
unlink [] after = none
unlink (b ∷ []) after = some (b + 1, first_of after * 8)
unlink (b ∷ c ∷ before) after = unlink (c ∷ before) after

-- The outer loop, from the entry that `lower_bound` finds.
unfoldable pub get_from_local : ℕ → ℕ → Pool → Option Taken × Pool
unfolding first_fit without unlink
get_from_local size algn [] = (none, [])
get_from_local size algn ((chunk_size, chunks) ∷ rest) =
    let (t, rest') = get_from_local size algn rest in
    if ltb chunk_size size
    then (t, (chunk_size, chunks) ∷ rest')
    else elim (first_fit size algn chunk_size chunks) [
      | none ↦ (t, (chunk_size, chunks) ∷ rest')
      | some (before, (chunk, padding), after) ↦ (
        some (record {
          chunk = chunk;
          leftover_size = chunk_size - size - padding;
          padding = padding;
          unlinked = unlink before after;
        }),
        without chunk_size before after rest,
      )
    ]

-- `local_chunks[size]`, with the new chunk put in front; and the chunk that was in front, or null.
unfoldable pub add_chunk : ℕ → ℕ → Pool → Pool
add_chunk p size [] = (size, p ∷ []) ∷ []
add_chunk p size ((k, chunks) ∷ rest) =
    if k == size
    then (k, p ∷ chunks) ∷ rest
    else if ltb size k
    then (size, p ∷ []) ∷ (k, chunks) ∷ rest
    else (k, chunks) ∷ add_chunk p size rest

unfoldable pub front : ℕ → Pool → ℕ
front size [] = 0
front size ((k, []) ∷ rest) = if k == size then 0 else front size rest
front size ((k, c ∷ chunks) ∷ rest) = if k == size then c else front size rest

unfoldable pub write : Memory → ℕ → ℕ → Memory
write memory p x = λ q. if p == q then x else memory q

unfoldable pub relink : Option (ℕ × ℕ) → Memory → Memory
unfolding write
relink none memory = memory
relink (some (p, x)) memory = write memory p x

-- `std::memset(p, 0x0, n << alignment_log)`.
unfoldable pub zero_out : ℕ → ℕ → Memory → Memory
zero_out p n memory = λ q. if ltb q p then memory q else if ltb q (p + n) then 0 else memory q

-- `sizeof(local_chunk) >> alignment_log`.
abbrev pub local_chunk_words : ℕ
local_chunk_words = 2

module _ {State : Type 0} where
  unfoldable pub put_to_local : ℕ → ℕ → Local State → Local State
  unfolding write add_chunk front
  put_to_local p size l =
      if leb local_chunk_words size
      then record l {
        memory = write (write l.memory p size) (p + 1) (front size l.local_free_list * 8);
        local_free_list = add_chunk p size l.local_free_list;
      }
      else if ltb 0 size
      then record l { memory = write l.memory p size }
      else l

  -- `alloc` when it has its chunk: the rest goes back, the object's first word is its size, the
  -- padding goes back, and the other words of the object are zero.
  unfoldable pub carve : Taken → ℕ → Local State → ℕ × Local State
  unfolding put_to_local zero_out write
  carve t size l =
      let return_addr = t.chunk + t.padding in
      let l1 = put_to_local (return_addr + size) t.leftover_size l in
      let l2 = record l1 { memory = write l1.memory return_addr size } in
      let l3 = if ltb 0 t.padding then put_to_local t.chunk t.padding l2 else l2 in
      (return_addr, record l3 { memory = zero_out (return_addr + 1) (size - 1) l3.memory })

module _ (g : GlobalPool) where
  open g use {State, allocate}

  unfoldable pub get_from_global : ℕ → ℕ → State → Taken × State
  get_from_global size algn s =
      let max_padding = algn - 1 in
      let ((chunk, chunk_size), s') = allocate s (size + max_padding) in
      let padding = required_padding chunk algn in
      (
        record {
          chunk = chunk;
          leftover_size = chunk_size - size - padding;
          padding = padding;
          unlinked = none;
        },
        s',
      )

  -- `alloc` once `get_from_local` has returned.
  unfoldable pub alloc_from : ℕ → ℕ → Option Taken → Local State → ℕ × Local State
  unfolding get_from_global carve relink
  alloc_from size algn (some taken) l =
      carve taken size (record l { memory = relink taken.unlinked l.memory })
  alloc_from size algn none l =
      let (taken, s) = get_from_global size algn l.global in
      carve taken size (record l { global = s })

  unfoldable pub alloc_words : ℕ → ℕ → Local State → ℕ × Local State
  unfolding get_from_local alloc_from
  alloc_words size algn l =
      let (t, pool) = get_from_local size algn l.local_free_list in
      alloc_from size algn t (record l { local_free_list = pool })

  -- The request in bytes, and the alignment in bytes.
  unfoldable pub alloc : ℕ → ℕ → Local State → ℕ × Local State
  unfolding alloc_words
  alloc bytes req_alignment l =
      alloc_words (align_size_up bytes 8 / 8) (align_size_up req_alignment 8 / 8) l
