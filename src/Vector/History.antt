-- ===== src/Vector/History.antt =====
-- The operations of a vector as one step, next to the same step on a plain list.
use mpgc.Prelude.{
  ℕ, ◌+◌, ◌-◌, List, [], ◌∷◌, ◌++◌, Option, none, some, length, replicate, take, drop, ltb, leb,
  if◌then◌else◌, ◌>>=◌, ◌&&◌, Bool,
}
use mpgc.Vector.Defs.{
  Vector, ensure_capacity, assign, assign_range, resize, clear, pop_back, push_back, insert,
  insert_range, erase, erase_range,
}

-- A call of a member function that changes the vector.
pub data Call (A : Type 0) : Type 0 where
  call_assign : ℕ → A → Call A
  call_assign_range : List A → Call A
  call_reserve : ℕ → Call A
  call_resize : ℕ → Call A
  call_clear : Call A
  call_push_back : A → Call A
  call_pop_back : Call A
  call_insert : ℕ → ℕ → A → Call A
  call_insert_range : ℕ → List A → Call A
  call_erase : ℕ → Call A
  call_erase_range : ℕ → ℕ → Call A

module _ {A : Type 0} (initial : A) (is_initial : A → Bool) where
  unfoldable pub perform : Call A → Vector A → Option (Vector A)
  perform (call_assign n x) v = assign initial n x v
  perform (call_assign_range from) v = assign_range initial from v
  perform (call_reserve n) v = some (ensure_capacity initial n v)
  perform (call_resize n) v = resize initial n v
  perform call_clear v = clear initial v
  perform (call_push_back x) v = push_back initial is_initial x v
  perform call_pop_back v = pop_back initial v
  perform (call_insert i n x) v = insert initial i n x v
  perform (call_insert_range i from) v = insert_range initial i from v
  perform (call_erase i) v = erase initial i v
  perform (call_erase_range i j) v = erase_range initial i j v

  unfoldable pub perform_all : List (Call A) → Vector A → Option (Vector A)
  perform_all [] v = some v
  perform_all (c ∷ cs) v = perform c v >>= λ v'. perform_all cs v'

module _ {A : Type 0} (initial : A) where
  -- The same call on a plain list; a position that the list does not have gives `none`.
  unfoldable pub perform_list : Call A → List A → Option (List A)
  perform_list (call_assign n x) xs = some (replicate n x)
  perform_list (call_assign_range from) xs = some from
  perform_list (call_reserve n) xs = some xs
  perform_list (call_resize n) xs = some (take n xs ++ replicate (n - length xs) initial)
  perform_list call_clear xs = some []
  perform_list (call_push_back x) xs = some (xs ++ x ∷ [])
  perform_list call_pop_back xs = some (take (length xs - 1) xs)
  perform_list (call_insert i n x) xs =
      if leb i (length xs) then some (take i xs ++ (replicate n x ++ drop i xs)) else none
  perform_list (call_insert_range i from) xs =
      if leb i (length xs) then some (take i xs ++ (from ++ drop i xs)) else none
  perform_list (call_erase i) xs =
      if ltb i (length xs) then some (take i xs ++ drop (i + 1) xs) else none
  perform_list (call_erase_range i j) xs =
      if leb i j && leb j (length xs) then some (take i xs ++ drop j xs) else none

  unfoldable pub perform_all_list : List (Call A) → List A → Option (List A)
  perform_all_list [] xs = some xs
  perform_all_list (c ∷ cs) xs = perform_list c xs >>= λ xs'. perform_all_list cs xs'
