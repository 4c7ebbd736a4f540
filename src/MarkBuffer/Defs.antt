-- ===== src/MarkBuffer/Defs.antt =====
-- `sesd_queue` of ruts/include/ruts/sesd_queue.h, a list that is linked through memory, and
-- `mark_buffer` of include/mpgc/mark_buffer.h over it. `none` is a failed assertion or an access to
-- memory that is not allocated; a null pointer is the `none` among addresses. `lock` and `unlock`
-- make each operation of the queue one step.
use mpgc.Prelude.{
  ℕ, zero, suc, ◌+◌, List, [], Option, none, some, Bool, true, false, not, ◌==◌, ltb, if◌then◌else◌,
  get_elem?, set, replicate, ◌>>=◌,
}
use mpgc.MarkBuffer.Memory.{Memory, lookup, write_at, deallocate}

-- `sesd_queue::entry`; the address of its `value` stands for that of the entry.
pub record Entry (A : Type 0) : Type 0 where
  pub value : A
  pub next : Option ℕ

pub record SesdQueue (A : Type 0) : Type 0 where
  pub memory : Memory (Entry A)
  pub first : Option ℕ
  pub last : Option ℕ

module _ {A : Type 0} where
  -- `entry::value` at an address.
  unfoldable pub value_at : ℕ → SesdQueue A → Option A
  value_at a q = do x ← lookup a q.memory; some x.value

  unfoldable pub set_value : ℕ → A → SesdQueue A → Option (SesdQueue A)
  set_value a v q = do
    x ← lookup a q.memory
    some (record q { memory = write_at a (record x { value = v }) q.memory })

  -- `enqueue(entry *e)`.
  unfoldable pub enqueue_entry : ℕ → SesdQueue A → Option (SesdQueue A)
  enqueue_entry e q = elim (q.last) [
    | none ↦ some (record q { first = some e; last = some e })
    | some l ↦ do
      x ← lookup l q.memory
      some (record {
        memory = write_at l (record x { next = some e }) q.memory;
        first = q.first;
        last = some e;
      })
  ]

  unfoldable pub dequeue : SesdQueue A → Option (Option ℕ × SesdQueue A)
  dequeue q = elim (q.first) [
    | none ↦ some (none, q)
    | some f ↦ do
      x ← lookup f q.memory
      elim (x.next) [
        | none ↦ some (some f, record q { first = none; last = none })
        | some n ↦ some (some f, record q { first = some n })
      ]
  ]

  unfoldable pub destroy_entry : ℕ → SesdQueue A → Option (SesdQueue A)
  destroy_entry e q = do x ← lookup e q.memory; some (record q { memory = deallocate e q.memory })

  -- `sesd_queue::clear`, with fuel for its rounds.
  unfoldable pub clear_queue : ℕ → SesdQueue A → Option (SesdQueue A)
  clear_queue zero q = elim (q.first) [ none ↦ some q | some e ↦ none ]
  clear_queue (suc n) q = elim (q.first) [
    | none ↦ some q
    | some e ↦ do
      x ← lookup e q.memory
      clear_queue n (record q { first = x.next; memory = deallocate e q.memory })
  ]

-- `sesd_queue()`.
abbrev pub sesd_queue : {A : Type 0} → SesdQueue A
sesd_queue = record { memory = []; first = none; last = none }

-- `mark_buffer::buffer_size`.
abbrev pub buffer_size : ℕ
buffer_size = 254

-- `mark_buffer::buffer`; `read_next` is `read_idx + 1`, which is never negative.
pub record Buffer (A : Type 0) : Type 0 where
  pub buf : List A
  pub read_next : ℕ
  pub write_idx : ℕ

-- `mark_buffer::Alive`.
pub data Alive : Type 0 where
  live : Alive
  dead : Alive

pub record MarkBuffer (A : Type 0) : Type 0 where
  pub queue : SesdQueue (Buffer A)
  pub alive : Alive

-- `mark_buffer()`.
abbrev pub mark_buffer : {A : Type 0} → MarkBuffer A
mark_buffer = record { queue = sesd_queue; alive = live }

-- `mark_dead` and `is_marked`.
unfoldable pub mark_dead : {A : Type 0} → MarkBuffer A → MarkBuffer A
mark_dead b = record b { alive = dead }

unfoldable pub is_marked : {A : Type 0} → MarkBuffer A → Bool
is_marked b = elim (b.alive) [ live ↦ false | dead ↦ true ]

module _ {A : Type 0} where
  -- `clear`, with fuel for the entries.
  unfoldable pub clear : ℕ → MarkBuffer A → Option (MarkBuffer A)
  unfolding clear_queue
  clear fuel b = do q ← clear_queue fuel b.queue; some (record b { queue = q })

  -- `write_idx - read_idx > 1`.
  unfoldable pub has_unread : Buffer A → Bool
  has_unread h = ltb h.read_next h.write_idx

  -- `h != t || (h && write_idx - read_idx > 1) ? false : true`.
  unfoldable pub is_empty_between : Option ℕ → Option ℕ → MarkBuffer A → Option Bool
  unfolding value_at has_unread
  is_empty_between none none b = some true
  is_empty_between none (some t) b = some false
  is_empty_between (some h) none b = some false
  is_empty_between (some h) (some t) b =
      let unread = (do x ← value_at h b.queue; some (not (has_unread x))) in
      if h == t then unread else some false

  unfoldable pub is_empty : MarkBuffer A → Option Bool
  unfolding is_empty_between
  is_empty b = is_empty_between b.queue.first b.queue.last b

  -- What `process_element` does with the buffer at `h` that has been read up to `read_next`.
  unfoldable pub leave_buffer : ℕ → ℕ → SesdQueue (Buffer A) → Option (SesdQueue (Buffer A))
  unfolding dequeue destroy_entry
  leave_buffer h read_next q =
      let taken_out =
        (dequeue q >>= λ (r : Option ℕ × SesdQueue (Buffer A)). elim (r.0) [
          | none ↦ none
          | some temp ↦ if temp == h then destroy_entry h (r.1) else none
        ]) in
      if read_next == buffer_size then taken_out else some q

  -- `process_element` with the element that it gives to `func`; `h` is the head.
  unfoldable pub process_from : Option ℕ → MarkBuffer A → Option (A × MarkBuffer A)
  unfolding has_unread value_at set_value leave_buffer
  process_from none b = none
  process_from (some h) b = do
    x ← value_at h b.queue
    e ← (if has_unread x then get_elem? x.buf x.read_next else none)
    q ← set_value h (record x { read_next = x.read_next + 1 }) b.queue
    q' ← leave_buffer h (x.read_next + 1) q
    some (e, record b { queue = q' })

  unfoldable pub process_element : MarkBuffer A → Option (A × MarkBuffer A)
  unfolding process_from
  process_element b = process_from b.queue.first b

  -- `buf[write_idx] = e; write_idx++`.
  unfoldable pub write_element : A → ℕ → SesdQueue (Buffer A) → Option (SesdQueue (Buffer A))
  unfolding value_at set_value
  write_element e b q = value_at b q >>= λ (x : Buffer A).
      if ltb x.write_idx buffer_size
      then set_value b (record x { buf = set x.buf x.write_idx e; write_idx = x.write_idx + 1 }) q
      else none

-- `allocate` gives the address for the next entry.
module _ {A : Type 0} (allocate : Memory (Entry A) → ℕ) where
  -- `enqueue(args...)`, where `v` is the new entry's value.
  unfoldable pub enqueue : A → SesdQueue A → Option (ℕ × SesdQueue A)
  unfolding enqueue_entry
  enqueue v q =
      let e = allocate q.memory in
      enqueue_entry e
        (record q { memory = write_at e (record { value = v; next = none }) q.memory })
      >>= λ q'. some (e, q')

-- `buffer()`, where `initial` is `T()`.
abbrev pub new_buffer : {A : Type 0} → A → Buffer A
new_buffer initial = record { buf = replicate buffer_size initial; read_next = 0; write_idx = 0 }

module _ {A : Type 0} (allocate : Memory (Entry (Buffer A)) → ℕ) (initial : A) where
  -- The buffer that `add_element` writes to, when it has read `b` as the tail.
  unfoldable pub writable : Option ℕ → SesdQueue (Buffer A) → Option (ℕ × SesdQueue (Buffer A))
  unfolding value_at enqueue
  writable none q = enqueue allocate (new_buffer initial) q
  writable (some b) q = do
    x ← value_at b q
    if x.write_idx == buffer_size then enqueue allocate (new_buffer initial) q else some (b, q)

  unfoldable pub add_element : A → MarkBuffer A → Option (MarkBuffer A)
  unfolding writable write_element
  add_element e b = writable b.queue.last b.queue >>= λ (r : ℕ × SesdQueue (Buffer A)).
      write_element e (r.0) (r.1) >>= λ q. some (record b { queue = q })
