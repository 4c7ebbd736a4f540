-- ===== src/Strings/Search.antt =====
-- The searches of `gc_basic_string`. The text that is looked for is a list. A read outside of the
-- string's array is `fault`.
use mpgc.Prelude.{
  ℕ, zero, suc, ◌+◌, ◌-◌, List, [], ◌∷◌, Bool, true, false, ◌||◌, if◌then◌else◌, ◌==◌, length,
  get_elem?, ltb,
}
use mpgc.Vector.Defs.{Access, found, fault, to_access, is_null}
use mpgc.Strings.Defs.{GcString, ◌>>=◌, ℤ, pos, negsuc, npos, size, empty}

-- The difference of `cend()` and `cbegin()`. The end of an empty string is a null iterator, also
-- if the string has an array.
unfoldable pub size_and_begin : GcString → Access ℕ
size_and_begin s = if empty s then (if is_null s then found 0 else fault) else found (size s)

abbrev pub next : ℤ → ℤ
next (pos n) = pos (n + 1)
next (negsuc zero) = pos 0
next (negsuc (suc n)) = negsuc n

-- `a - b`.
abbrev pub difference : ℕ → ℕ → ℤ
difference a b = if ltb a b then negsuc (b - a - 1) else pos (a - b)

-- How many positions there are from one up to another.
abbrev pub rounds : ℤ → ℤ → ℕ
rounds (pos a) (pos b) = b + 1 - a
rounds (pos a) (negsuc b) = 0
rounds (negsuc a) (pos b) = a + b + 2
rounds (negsuc a) (negsuc b) = a + 1 - b

-- `for (p = start_pos; p <= last_possible; p++)`, with `n` rounds left.
unfoldable pub match_forward : ℕ → ℤ → (ℤ → Access Bool) → Access ℤ
match_forward zero p func = found npos
match_forward (suc n) p func =
    let rest = match_forward n (next p) func in func p >>= λ hit. if hit then found p else rest

unfoldable pub find_match_forward : ℤ → ℕ → (ℤ → Access Bool) → GcString → Access ℤ
find_match_forward start_pos match_size func s = size_and_begin s >>= λ my_size.
    let last_possible = difference my_size match_size in
    match_forward (rounds start_pos last_possible) start_pos func

-- `for (p = first_possible; p >= 0; p--)`, with `n` rounds left, of which the last one is for 0.
unfoldable pub match_backward : ℕ → (ℤ → Access Bool) → Access ℤ
match_backward zero func = found npos
match_backward (suc n) func =
    let rest = match_backward n func in func (pos n) >>= λ hit. if hit then found (pos n) else rest

-- `start_pos` is not used.
unfoldable pub find_match_backward : ℤ → ℕ → (ℤ → Access Bool) → GcString → Access ℤ
find_match_backward start_pos match_size func s = size_and_begin s >>= λ my_size.
    let first_possible = difference my_size match_size in
    match_backward (rounds (pos 0) first_possible) func

-- The character at a position; a negative one lies before the array.
abbrev pub read_at : List ℕ → ℤ → Access ℕ
read_at rep (pos p) = to_access (get_elem? rep p)
read_at rep (negsuc p) = fault

-- `traits_type::compare(p, s, count) == 0`.
unfoldable pub matches_at : List ℕ → List ℕ → ℤ → Access Bool
matches_at rep [] p = found true
matches_at rep (c ∷ cs) p =
    let rest = matches_at rep cs (next p) in
    read_at rep p >>= λ d. if d == c then rest else found false

abbrev pub mem : ℕ → List ℕ → Bool
mem a [] = false
mem a (b ∷ bs) = (b == a) || mem a bs

-- `find_if(s, last, pred) != last`.
unfoldable pub one_of_at : List ℕ → List ℕ → ℤ → Access Bool
one_of_at rep cs p = read_at rep p >>= λ target. found (mem target cs)

unfoldable pub find : List ℕ → ℤ → GcString → Access ℤ
find cs start_pos s = find_match_forward start_pos (length cs) (matches_at s.rep cs) s

unfoldable pub find_first_of : List ℕ → ℤ → GcString → Access ℤ
find_first_of cs start_pos s = find_match_forward start_pos 1 (one_of_at s.rep cs) s

unfoldable pub rfind : List ℕ → ℤ → GcString → Access ℤ
rfind cs start_pos s = find_match_backward start_pos (length cs) (matches_at s.rep cs) s

unfoldable pub find_last_of : List ℕ → ℤ → GcString → Access ℤ
find_last_of cs start_pos s = find_match_backward start_pos 1 (one_of_at s.rep cs) s
