-- ===== src/Vector/Tests.antt =====
-- Runs of a vector of numbers, with 0 for the default-initialised element.
use mpgc.Prelude.{ℕ, ◌≡◌, refl, List, [], ◌∷◌, some, Bool, ◌==◌, arith, ◌>>=◌, ◌≤◌}
use mpgc.Vector.Defs.{
  Vector, gc_basic_vector, at, found, ensure_capacity, capacity, new_capacity, fault,
}
use mpgc.Vector.Represents.{Represents, Yields, ensure_capacity-le}
use mpgc.Vector.Refines.{perform_all-IsVector, at-perform_all}
use mpgc.Vector.History.{
  Call, perform_all, perform_all_list, perform_list, call_push_back, call_insert, call_erase,
  call_resize, call_erase_range, call_pop_back,
}

abbrev is_zero : ℕ → Bool
is_zero n = n == 0

abbrev calls : List (Call ℕ)
calls =
    call_push_back 3
    ∷ call_push_back 4
    ∷ call_insert 1 2 7
    ∷ call_erase 0
    ∷ call_resize 5
    ∷ call_erase_range 1 3
    ∷ call_pop_back
    ∷ []

abbrev full_vector : Vector ℕ
full_vector = record { rep = 1 ∷ 2 ∷ []; size = 2 }

abbrev spare_vector : Vector ℕ
spare_vector = record { rep = 1 ∷ 0 ∷ []; size = 1 }

result : perform_all_list 0 calls [] ≡ some (7 ∷ 0 ∷ [])
unfolding perform_all_list perform_list
result = refl

inserted :
    perform_all_list {A = ℕ} 0 (call_insert 1 2 9 ∷ []) (1 ∷ 2 ∷ []) ≡ some (1 ∷ 9 ∷ 9 ∷ 2 ∷ [])
unfolding perform_all_list perform_list
inserted = refl

full_vector-Represents : Represents 0 (1 ∷ 2 ∷ []) full_vector
full_vector-Represents = record { spare = 0; contents = refl; same_size = refl }

perform_all-IsVector_example :
    Yields 0 (1 ∷ 9 ∷ 9 ∷ 2 ∷ []) (perform_all 0 is_zero (call_insert 1 2 9 ∷ []) full_vector)
perform_all-IsVector_example =
    perform_all-IsVector 0 is_zero refl (call_insert 1 2 9 ∷ []) (1 ∷ 2 ∷ []) (1 ∷ 9 ∷ 9 ∷ 2 ∷ [])
      full_vector full_vector-Represents inserted

at-perform_all_example :
    (perform_all 0 is_zero calls (gc_basic_vector 0) >>= λ v. some (at v 0)) ≡ some (found 7)
at-perform_all_example = at-perform_all 0 is_zero refl calls (7 ∷ 0 ∷ []) 0 result (omega arith)

ensure_capacity-le_example : 3 ≤ capacity (ensure_capacity 0 3 full_vector)
ensure_capacity-le_example = ensure_capacity-le 0 3 full_vector

grown : new_capacity 2 20 ≡ 27
unfolding new_capacity
grown = refl

-- A position at the end is not out of range for `at`: a spare element is read, or the access fails.
at_end : at spare_vector 1 ≡ found 0
unfolding at
at_end = refl

past_end : at full_vector 2 ≡ fault
unfolding at
past_end = refl
