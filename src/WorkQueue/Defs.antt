-- ===== src/WorkQueue/Defs.antt =====
-- `work_stealing_wq` of include/mpgc/work_stealing_wq.h. The buffers on `_stack` are a list, which
-- each of `push` and `pop` of `lf_stack` (ruts/include/ruts/lock_free_stack.h) changes in one step;
-- a failed assertion, or an access out of a buffer, is `none`.
use mpgc.Prelude.{
  ℕ, zero, suc, ◌+◌, ◌-◌, List, [], ◌∷◌, Option, none, some, Bool, true, false, not, ◌&&◌, ◌||◌,
  ◌==◌, ltb, if◌then◌else◌, get_elem?, set, replicate, ◌>>=◌,
}

-- `mark_buffer<T>::buffer_size`.
abbrev pub buffer_size : ℕ
buffer_size = 254

-- `mark_buffer<T>::buffer`; the work queue does not use `read_idx`.
pub record Buffer (A : Type 0) : Type 0 where
  pub buf : List A
  pub write_idx : ℕ

pub record WorkQueue (A : Type 0) : Type 0 where
  pub stack : List (Buffer A)
  pub front : Option (Buffer A)
  pub back : Option (Buffer A)

abbrev pub is_some {ℓ} : {A : Type ℓ} → Option A → Bool
is_some none = false
is_some (some a) = true

-- `lf_stack::push` and `pop`.
unfoldable pub lf_push {ℓ} : {A : Type ℓ} → A → List A → List A
lf_push p entries = p ∷ entries

unfoldable pub lf_pop {ℓ} : {A : Type ℓ} → List A → Option A × List A
lf_pop [] = (none, [])
lf_pop (p ∷ entries) = (some p, entries)

-- `buf[write_idx] = p; write_idx++`.
unfoldable pub store : {A : Type 0} → A → Buffer A → Option (Buffer A)
store p b =
    if ltb b.write_idx buffer_size
    then some (record { buf = set b.buf b.write_idx p; write_idx = b.write_idx + 1 })
    else none

abbrev pub is_full : {A : Type 0} → Buffer A → Bool
is_full b = b.write_idx == buffer_size

-- A queue with nothing in it.
abbrev pub work_stealing_wq : {A : Type 0} → WorkQueue A
work_stealing_wq = record { stack = []; front = none; back = none }

-- `initial` is `T()`, with which the constructor of a buffer fills it.
module _ {A : Type 0} (initial : A) where
  abbrev pub allocate : Buffer A
  allocate = record { buf = replicate buffer_size initial; write_idx = 0 }

  abbrev pub or_allocate : Option (Buffer A) → Buffer A
  or_allocate none = allocate
  or_allocate (some b) = b

  -- `push` when `_back` is full.
  unfoldable pub push_front : A → Buffer A → WorkQueue A → Option (WorkQueue A)
  unfolding store lf_push
  push_front p back q = do
    front ← store p (or_allocate q.front)
    some (
        if is_full front
        then record { stack = lf_push back q.stack; front = none; back = some front }
        else record q { front = some front })

  unfoldable pub push_back : A → Buffer A → WorkQueue A → Option (WorkQueue A)
  unfolding store
  push_back p back q = do b ← store p back; some (record q { back = some b })

  unfoldable pub push : A → WorkQueue A → Option (WorkQueue A)
  unfolding push_front push_back
  push p q = elim (q.back) [
    | none ↦ if is_some q.front then none else push_back p allocate q
    | some b ↦ if is_full b then push_front p b q else push_back p b q
  ]

  -- `for (i = 0; i < write_idx; i++) push(buf[i])`, with `n` rounds left from `i`.
  unfoldable pub push_from : ℕ → ℕ → List A → WorkQueue A → Option (WorkQueue A)
  unfolding push
  push_from zero i buf q = some q
  push_from (suc n) i buf q = do p ← get_elem? buf i; q' ← push p q; push_from n (i + 1) buf q'

  unfoldable pub push_buffer : Option (Buffer A) → WorkQueue A → Option (WorkQueue A)
  unfolding push_from
  push_buffer none q = some q
  push_buffer (some b) q = push_from b.write_idx 0 b.buf q

  -- The receiver first, then `other`.
  unfoldable pub takeover_locals : WorkQueue A → WorkQueue A → Option (WorkQueue A × WorkQueue A)
  unfolding push_buffer
  takeover_locals q other = do
    q1 ← push_buffer other.front q
    q2 ← push_buffer other.back q1
    some (q2, record other { front = none; back = none })

module _ {A : Type 0} where
  -- `empty` takes a buffer from the stack if there is none at hand.
  unfoldable pub empty : WorkQueue A → Bool × WorkQueue A
  unfolding lf_pop
  empty q =
      if is_some q.front || is_some q.back
      then (false, q)
      else let (b, rest) = lf_pop q.stack in (not (is_some b), record q { stack = rest; back = b })

  -- `write_idx--`, and the buffer is given back when nothing is left in it.
  unfoldable pub take_one : Buffer A → Option (Buffer A)
  take_one b =
      if b.write_idx - 1 == 0 then none else some (record b { write_idx = b.write_idx - 1 })

  unfoldable pub pop_back : WorkQueue A → Option (WorkQueue A)
  unfolding take_one
  pop_back q = elim (q.back) [
    | none ↦ none
    | some b ↦
        if not (is_some q.front) && ltb 0 b.write_idx
        then some (record q { back = take_one b })
        else none
  ]

  unfoldable pub pop : WorkQueue A → Option (WorkQueue A)
  unfolding take_one pop_back
  pop q = elim (q.front) [
    | none ↦ pop_back q
    | some f ↦ if ltb 0 f.write_idx then some (record q { front = take_one f }) else pop_back q
  ]

  unfoldable pub last_of : Buffer A → Option A
  last_of b = if ltb 0 b.write_idx then get_elem? b.buf (b.write_idx - 1) else none

  unfoldable pub front : WorkQueue A → Option A
  unfolding last_of
  front q = elim (q.front) [
    | none ↦ elim (q.back) [ none ↦ none | some b ↦ last_of b ]
    | some f ↦ last_of f
  ]

  -- `other` takes a buffer of the receiver; its own must be empty.
  unfoldable pub steal : WorkQueue A → WorkQueue A → Option (Bool × WorkQueue A × WorkQueue A)
  unfolding empty lf_pop
  steal q other =
      let (is_empty, other') = empty other in
      let (b, rest) = lf_pop q.stack in
      if is_empty
      then some (is_some b, record q { stack = rest }, record other' { back = b })
      else none
