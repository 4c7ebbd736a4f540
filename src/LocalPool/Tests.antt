-- ===== src/LocalPool/Tests.antt =====
-- Runs of `alloc` on a pool with two chunks of four words and one of ten.
use mpgc.Prelude.{ℕ, ◌+◌, ◌%◌, ◌≡◌, ◌<◌, refl, [], ◌∷◌, some, none, arith}
use mpgc.LocalPool.Align.{required_padding, required_padding_lem}
use mpgc.LocalPool.Defs.{Pool, GlobalPool, Local, get_from_local, unlink}
use mpgc.LocalPool.Take.{IsOutcome, get_from_local-IsOutcome}

abbrev pool : Pool
pool = (4, 1 ∷ 6 ∷ []) ∷ (10, 20 ∷ []) ∷ []

abbrev elsewhere : GlobalPool
elsewhere = record {
  State = ℕ;
  allocate = λ s req. ((100, req + s), s);
  is_enough = λ s req. omega arith;
}

abbrev local : Local ℕ
local = record { memory = λ q. 0; local_free_list = pool; global = 3 }

required_padding_lem_example : (required_padding 5 4 < 4) × ((5 + required_padding 5 4) % 4 ≡ 0)
required_padding_lem_example = required_padding_lem 5 2 (omega arith) (omega arith)

get_from_local-IsOutcome_example : IsOutcome 4 2 pool (get_from_local 4 2 pool)
get_from_local-IsOutcome_example = get_from_local-IsOutcome 4 2 pool

-- The chunk at 6 is aligned to two words and fits; the one at 1 is lost.
take_second : get_from_local 4 2 pool ≡ (
  some (record { chunk = 6; leftover_size = 0; padding = 0; unlinked = some (2, 0) }),
  (10, 20 ∷ []) ∷ [],
)
unfolding get_from_local required_padding unlink
take_second = refl

take_first : get_from_local 3 1 pool ≡ (
  some (record { chunk = 1; leftover_size = 1; padding = 0; unlinked = none }),
  (4, 6 ∷ []) ∷ (10, 20 ∷ []) ∷ [],
)
unfolding get_from_local required_padding unlink
take_first = refl
