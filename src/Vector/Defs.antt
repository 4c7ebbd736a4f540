-- ===== src/Vector/Defs.antt =====
-- `gc_basic_vector` of include/mpgc/gc_vector.h. A failed assertion, or an access outside the array,
-- is `none`. An iterator is the index that it stands for.
use mpgc.Prelude.{
  ℕ, zero, suc, ◌+◌, ◌-◌, ◌*◌, ◌/◌, List, [], Option, none, some, length, get_elem?, take, Bool,
  ltb, if◌then◌else◌, ◌>>=◌, ◌==◌,
}
use mpgc.Vector.Arrays.{write, fill, copy, move, move_backward, make_array}

pub record Vector (A : Type 0) : Type 0 where
  pub rep : List A
  pub size : ℕ

abbrev pub capacity : {A : Type 0} → Vector A → ℕ
capacity v = length v.rep

abbrev pub is_null : {A : Type 0} → Vector A → Bool
is_null v = length v.rep == 0

abbrev pub min_grow_to : ℕ
min_grow_to = 8

-- `while (c < count) c *= growth_factor`, by 1.5, which is exact below 2 ^ 52.
unfoldable pub grow : ℕ → ℕ → ℕ → ℕ
grow zero c count = c
grow (suc fuel) c count = let c' = grow fuel (c * 3 / 2) count in if ltb c count then c' else c

-- The capacity that a vector of capacity `c` gets for `count` elements; `count` rounds are enough.
unfoldable pub new_capacity : ℕ → ℕ → ℕ
unfolding grow
new_capacity c count =
    if c == 0 then count else grow count (if ltb c min_grow_to then min_grow_to else c) count

-- `at` throws only if `pos` is larger than the size.
pub data Access (A : Type 0) : Type 0 where
  found : A → Access A
  out_of_range : Access A
  fault : Access A

abbrev pub to_access : {A : Type 0} → Option A → Access A
to_access none = fault
to_access (some a) = found a

unfoldable pub at : {A : Type 0} → Vector A → ℕ → Access A
at v pos = if ltb v.size pos then out_of_range else to_access (get_elem? v.rep pos)

-- The element type is `zero_init_okay`: `initial` is both `value_type{}` and what zeroed memory holds.
module _ {A : Type 0} (initial : A) where
  abbrev pub gc_basic_vector : Vector A
  gc_basic_vector = record { rep = []; size = 0 }

  unfoldable pub ensure_capacity : ℕ → Vector A → Vector A
  ensure_capacity count v = if ltb count (capacity v) then v else record v {
    rep = make_array initial (new_capacity (capacity v) count) (take v.size v.rep);
  }

  -- The two forms of `assign`.
  unfoldable pub assign : ℕ → A → Vector A → Option (Vector A)
  assign count value v = do
    let v1 = ensure_capacity count v
    let filled = (do arr ← fill count 0 value v1.rep; fill (length arr - count) count initial arr)
    rep ← (if is_null v1 then some (v1.rep) else filled)
    some (record { rep = rep; size = count })

  unfoldable pub assign_range : List A → Vector A → Option (Vector A)
  assign_range from v = do
    let count = length from
    let v1 = ensure_capacity count v
    let copied = (do arr ← copy from 0 v1.rep; fill (length arr - count) count initial arr)
    rep ← (if is_null v1 then some (v1.rep) else copied)
    some (record { rep = rep; size = count })

  unfoldable pub resize : ℕ → Vector A → Option (Vector A)
  resize count v =
      let grown = some (record (ensure_capacity count v) { size = count }) in
      let less = (do
        rep ←
            (if count == v.size - 1
              then write count initial v.rep
              else fill (v.size - count) count initial v.rep)
        some (record { rep = rep; size = count })) in
      if v.size == count then some v else if ltb v.size count then grown else less

  unfoldable pub clear : Vector A → Option (Vector A)
  clear v =
      let cleared = (do rep ← fill v.size 0 initial v.rep; some (record { rep = rep; size = 0 })) in
      if ltb 0 v.size then cleared else some v

  unfoldable pub pop_back : Vector A → Option (Vector A)
  pop_back v =
      let popped = (do
        rep ← write (v.size - 1) initial v.rep
        some (record { rep = rep; size = v.size - 1 })) in
      if ltb 0 v.size then popped else some v

  -- `is_initial` is the comparison with `value_type{}`.
  unfoldable pub push_back : (A → Bool) → A → Vector A → Option (Vector A)
  push_back is_initial value v = do
    v1 ← resize (v.size + 1) v
    back ← get_elem? v1.rep (v1.size - 1)
    rep ← (if is_initial back then write (v1.size - 1) value v1.rep else none)
    some (record v1 { rep = rep })

  unfoldable pub move_right : ℕ → ℕ → Vector A → Option (Vector A)
  move_right pos count v = do
    v1 ← resize (v.size + count) v
    rep ← move_backward (v.size - pos) v.size v1.size v1.rep
    some (record v1 { rep = rep })

  unfoldable pub insert : ℕ → ℕ → A → Vector A → Option (Vector A)
  insert i count value v =
      let inserted = (do
        v1 ← move_right i count v
        rep ← (if count == 1 then write i value v1.rep else fill count i value v1.rep)
        some (record v1 { rep = rep })) in
      if count == 0 then some v else inserted

  unfoldable pub insert_range : ℕ → List A → Vector A → Option (Vector A)
  insert_range i from v =
      let inserted = (do
        v1 ← move_right i (length from) v
        rep ← copy from i v1.rep
        some (record v1 { rep = rep })) in
      if ltb 0 (length from) then inserted else some v

  -- `erase(first, last)`, and `erase(pos)`.
  unfoldable pub erase_range : ℕ → ℕ → Vector A → Option (Vector A)
  erase_range first last v = do
    rep ← move (v.size - last) last first v.rep
    resize (v.size - (last - first)) (record v { rep = rep })

  unfoldable pub erase : ℕ → Vector A → Option (Vector A)
  erase i v = do
    rep ← move (v.size - (i + 1)) (i + 1) i v.rep
    resize (v.size - 1) (record v { rep = rep })
