-- ===== src/Strings/Tests.antt =====
-- Runs of a string.
use mpgc.Prelude.{ℕ, ◌+◌, ◌-◌, ◌≡◌, ◌≢◌, refl, List, [], ◌∷◌, some, arith, length, get_elem?, ◌<◌}
use mpgc.Vector.Defs.{found, fault, out_of_range, to_access, capacity}
use mpgc.Strings.Defs.{GcString, insert_range, pos, npos, at}
use mpgc.Strings.Holds.{Holds, terminated, no_null, Results}
use mpgc.Strings.History.{
  StringCall, perform_all, perform_all_text, perform_text, call_push_back, call_insert,
  call_append_range, call_erase, call_pop_back, call_resize,
}
use mpgc.Strings.Refines.{perform_all-Results, at-Holds}
use mpgc.Strings.Search.{
  find, rfind, find_match_forward, match_forward, matches_at, size_and_begin, find_match_backward,
  match_backward,
}
use mpgc.Strings.Loops.{IsFirst, IsLast}
use mpgc.Strings.Find.{find-IsFirst, rfind-IsLast, occurs}
use mpgc.Strings.Faults.{insert_range-empty}

abbrev text : List ℕ
text = b'b' ∷ b'a' ∷ b'n' ∷ b'a' ∷ []

abbrev banana : GcString
banana = record { rep = b'b' ∷ b'a' ∷ b'n' ∷ b'a' ∷ 0 ∷ 0 ∷ []; size = 5 }

-- An empty string that was not empty before.
abbrev cleared : GcString
cleared = record { rep = 0 ∷ 0 ∷ []; size = 0 }

banana-Holds : Holds text banana
banana-Holds = terminated record { spare = 1; contents = refl; same_size = refl }

cleared-Holds : Holds [] cleared
cleared-Holds = no_null refl record { spare = 2; contents = refl; same_size = refl }

abbrev calls : List StringCall
calls =
    call_push_back b'n'
    ∷ call_append_range (b'a' ∷ b's' ∷ [])
    ∷ call_pop_back
    ∷ call_insert 0 2 b'x'
    ∷ call_erase 3 4
    ∷ call_resize 5
    ∷ []

result : perform_all_text calls text ≡ some (b'x' ∷ b'x' ∷ b'b' ∷ b'a' ∷ 0 ∷ [])
unfolding perform_all_text perform_text
result = refl

perform_all-Results_example :
    Results (b'x' ∷ b'x' ∷ b'b' ∷ b'a' ∷ 0 ∷ []) (perform_all calls banana)
perform_all-Results_example =
    perform_all-Results calls text (b'x' ∷ b'x' ∷ b'b' ∷ b'a' ∷ 0 ∷ []) banana banana-Holds result

find-IsFirst_example :
    IsFirst (occurs (b'a' ∷ []) text) 2 (length text + 1 - 1) (find (b'a' ∷ []) (pos 2) banana)
find-IsFirst_example = find-IsFirst (b'a' ∷ []) text banana banana-Holds (omega arith) 2

rfind-IsLast_example :
    IsLast (occurs (b'a' ∷ []) text) (length text + 1 - 1) (rfind (b'a' ∷ []) (pos 2) banana)
rfind-IsLast_example = rfind-IsLast (b'a' ∷ []) text banana banana-Holds (omega arith) (pos 2)

-- A search from `npos` reads before the array; the positions of a longer text are none.
find-banana :
    (find (b'a' ∷ []) npos banana ≡ fault)
    × (find (b'b' ∷ text) (pos 0) banana ≡ found npos)
    × (find (b'a' ∷ []) (pos 2) banana ≡ found (pos 3))
    × (rfind (b'b' ∷ []) (pos 0) banana ≡ found (pos 0))
    × (rfind (b'x' ∷ []) (pos 0) banana ≡ found npos)
unfolding find find_match_forward match_forward matches_at size_and_begin rfind find_match_backward
    match_backward
find-banana = (refl, refl, refl, refl, refl)

insert_range-cleared :
    (capacity cleared ≡ 0 → Results (b'a' ∷ []) (insert_range (pos 0) (b'a' ∷ []) cleared))
    × (capacity cleared ≢ 0 → insert_range (pos 0) (b'a' ∷ []) cleared ≡ fault)
insert_range-cleared = insert_range-empty b'a' [] cleared cleared-Holds

-- The three cases of `at`.
at-banana :
    (3 < length text → at (pos 3) banana ≡ to_access (get_elem? text 3))
    × (at (pos (length text)) banana ≡ found 0)
    × (length text < 3 → at (pos 3) banana ≡ out_of_range)
at-banana = at-Holds text banana 3 banana-Holds (omega arith)
