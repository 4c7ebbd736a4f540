-- ===== src/Strings/Defs.antt =====
-- The operations of `gc_basic_string`, of include/mpgc/gc_string.h. A string is its vector `_rep`,
-- and a character is a number, with 0 for the null. A position outside the string is `out_of_range`;
-- a failed assertion or undefined behaviour is `fault`. An argument that C++ passes as iterators or as a
-- pointer with a length is a list. `size_type` is signed: positions, and the lengths of ranges, are
-- integers, while counts of new characters and capacities are numbers that are not negative.
use mpgc.Prelude.{ℕ, ◌+◌, ◌-◌, ◌^◌, List, Bool, if◌then◌else◌, ◌==◌, ltb, leb, length, take}
use mpgc.Vector.Arrays.{write, fill, copy}
use mpgc.Vector.Defs
use mpgc.Vector.Defs.{Vector, Access, found, out_of_range, fault, to_access, is_null}

infixl 5 ◌>>=◌
abbrev pub ◌>>=◌ : {A B : Type 0} → Access A → (A → Access B) → Access B
found a >>= f = f a
out_of_range >>= f = out_of_range
fault >>= f = fault

abbrev pub GcString : Type 0
GcString = Vector ℕ

-- The integers: `negsuc n` is - n - 1.
pub data ℤ : Type 0 where
  pos : ℕ → ℤ
  negsuc : ℕ → ℤ

abbrev pub npos : ℤ
npos = negsuc 0

abbrev pub is_zero : ℕ → Bool
is_zero c = c == 0

abbrev pub gc_basic_string : GcString
gc_basic_string = Defs.gc_basic_vector 0

abbrev pub size : GcString → ℕ
size s = if s.size == 0 then 0 else s.size - 1

abbrev pub empty : GcString → Bool
empty s = size s == 0

-- `check_pos`, before the rest.
abbrev pub checked : {A : Type 0} → ℤ → ℕ → (ℕ → Access A) → Access A
checked (pos p) n rest = if ltb n p then out_of_range else rest p
checked (negsuc p) n rest = out_of_range

-- The sum of position and count is undefined from 2 ^ 63 on. A negative count other than `npos` stays.
unfoldable pub range_length : ℤ → ℤ → GcString → Access ℤ
range_length (pos p) (pos count) s =
    let n = size s in
    checked (pos p) n λ p.
      (if leb (2 ^ 63) (p + count)
        then fault
        else found (pos (if ltb n (p + count) then n - p else count)))
range_length (pos p) (negsuc count) s =
    let n = size s in
    checked (pos p) n λ p. (found (if count == 0 then pos (n - p) else negsuc count))
range_length (negsuc p) count s = out_of_range

unfoldable pub clear : GcString → Access GcString
clear s = to_access (Defs.clear 0 s)

-- `_rep[i] = c`.
unfoldable pub put : ℕ → ℕ → GcString → Access GcString
put i c s = do rep ← to_access (write i c s.rep); found (record s { rep = rep })

unfoldable pub resize : ℕ → GcString → Access GcString
resize count s =
    let resized = (do s' ← to_access (Defs.resize 0 (count + 1) s); put count 0 s') in
    if count == 0 then clear s else resized

-- The functions `assign` that take the new contents.
unfoldable pub assign_n : List ℕ → GcString → Access GcString
assign_n from s = do
  s' ← resize (length from) s
  rep ← to_access (copy from 0 s'.rep)
  found (record s' { rep = rep })

-- `end() - 1` of an empty vector lies before `begin()`.
unfoldable pub assign : ℕ → ℕ → GcString → Access GcString
assign count ch s = do
  s' ← resize count s
  rep ← (if s'.size == 0 then fault else to_access (fill (s'.size - 1) 0 ch s'.rep))
  found (record s' { rep = rep })

-- `assign_n` of the first characters. A negative number of them asks the vector for more elements
-- than there is memory.
abbrev pub assign_first : ℤ → List ℕ → GcString → Access GcString
assign_first (pos n) from s = assign_n (take n from) s
assign_first (negsuc n) from s = fault

-- `assign(str, pos, count)`.
unfoldable pub assign_range : GcString → ℤ → ℤ → GcString → Access GcString
assign_range str index count s = range_length index count str >>= λ n. assign_first n str.rep s

unfoldable pub substr : ℤ → ℤ → GcString → Access GcString
substr index count s = assign_range s index count gc_basic_string

unfoldable pub reserve : ℕ → GcString → GcString
reserve new_cap s = Defs.ensure_capacity 0 (new_cap + 1) s

unfoldable pub at : ℤ → GcString → Access ℕ
at index s = checked index (size s) (λ p. Defs.at s p)

-- The iterator of an empty string's end is null, so the assertion before `rest` holds only of a string
-- that has no array.
abbrev pub if_empty : {A : Type 0} → GcString → Access A → Access A → Access A
if_empty s rest otherwise = if empty s then (if is_null s then rest else fault) else otherwise

unfoldable pub insert : ℤ → ℕ → ℕ → GcString → Access GcString
insert index count ch s = checked index (size s) λ p.
    (if count == 0
      then found s
      else if_empty s (assign count ch s) (to_access (Defs.insert 0 p count ch s)))

unfoldable pub insert_range : ℤ → List ℕ → GcString → Access GcString
insert_range index from s = checked index (size s) λ p.
    (if length from == 0
      then found s
      else if_empty s (assign_n from s) (to_access (Defs.insert_range 0 p from s)))

unfoldable pub append : ℕ → ℕ → GcString → Access GcString
append count ch s = insert (pos (size s)) count ch s

unfoldable pub append_range : List ℕ → GcString → Access GcString
append_range from s = insert_range (pos (size s)) from s

-- The vector's `erase` of two iterators, at `index` and `count` elements from it. `std::move`, which it
-- starts with, is defined for a range that ends after its start and within the vector only.
abbrev pub erase_iterators : ℤ → ℤ → GcString → Access GcString
erase_iterators (pos index) (pos count) s =
    if leb (index + count) s.size
    then to_access (Defs.erase_range 0 index (index + count) s)
    else fault
erase_iterators (pos index) (negsuc count) s = fault
erase_iterators (negsuc index) count s = fault

-- The length of the range is computed, and then not used.
unfoldable pub erase : ℤ → ℤ → GcString → Access GcString
erase index count s = range_length index count s >>= λ n. erase_iterators index count s

unfoldable pub push_back : ℕ → GcString → Access GcString
push_back ch s =
    let pushed = (do s' ← put (s.size - 1) ch s; to_access (Defs.push_back 0 is_zero 0 s')) in
    if empty s then assign 1 ch s else pushed

unfoldable pub pop_back : GcString → Access GcString
pop_back s =
    let popped = (do s' ← to_access (Defs.pop_back 0 s); put (s'.size - 1) 0 s') in
    if empty s then found s else popped
