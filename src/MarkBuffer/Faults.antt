-- ===== src/MarkBuffer/Faults.antt =====
-- What a mark buffer (include/mpgc/mark_buffer.h) does with memory that has been freed.
use mpgc.Prelude.{
  ℕ, ◌+◌, ◌≤◌, ◌<◌, ◌≡◌, refl, ◌∙◌, ap, List, [], ◌∷◌, none, some, arith, ◌>>=◌, length, false,
  ==-refl, lt→ltb,
}
use mpgc.MarkBuffer.Memory.{Memory, lookup, deallocate, lookup-deallocate_self}
use mpgc.MarkBuffer.Defs.{
  Entry, SesdQueue, MarkBuffer, Buffer, buffer_size, value_at, clear, destroy_entry, is_empty,
  is_empty_between, has_unread, leave_buffer, process_from, process_element, writable,
  write_element, add_element,
}
use mpgc.MarkBuffer.Queue.{Holds, last_address, Chain-IsHead, dequeue-Holds, set_first-Holds}
use mpgc.MarkBuffer.Clearing.{clear_queue-IsCleared}
use mpgc.MarkBuffer.Buffers.{IsBuffer, advanced, unread-advanced}
use mpgc.MarkBuffer.Reads.{first_some}

module _ {A : Type 0} (allocate : Memory (Entry (Buffer A)) → ℕ) (initial : A) where
  -- Nothing can be written to a buffer that is freed.
  writable_freed :
      (l : ℕ) (q : SesdQueue (Buffer A))
      → lookup l q.memory ≡ none
      → writable allocate initial (some l) q ≡ none
  unfolding writable value_at
  writable_freed l q free = rw free refl

  some_last :
      (xs : List (ℕ × Buffer A)) (x : ℕ × Buffer A) → (l : ℕ) × (last_address (x ∷ xs) ≡ some l)
  some_last [] x = ((x.0), refl)
  some_last (y ∷ xs) x = some_last xs y

  -- `clear` on a mark buffer that has buffers frees them but leaves it a tail: afterwards `is_empty` is
  -- false, `process_element` fails, and `add_element` accesses memory that is freed.
  pub clear_lem :
      (n : ℕ) (b : MarkBuffer A) (x : ℕ × Buffer A) (xs : List (ℕ × Buffer A))
      → Holds b.queue (x ∷ xs)
      → length (x ∷ xs) ≤ n
      → (b' : MarkBuffer A) × (clear n b ≡ some b')
        × (is_empty b' ≡ some false)
        × (process_element b' ≡ none)
        × ((e : A) → add_element allocate initial e b' ≡ none)
  unfolding clear is_empty is_empty_between process_element process_from add_element
  clear_lem n b x xs h le =
      let (q, done, c) = clear_queue-IsCleared n b.queue (x ∷ xs) h.chain le in
      let (l, last) = some_last xs x in
      let b' : MarkBuffer A = record b { queue = q } in
      let ends : q.last ≡ some l = c.last_same ∙ h.ends ∙ last in
      (
        b',
        rw done refl,
        ap (λ f. is_empty_between f q.last b') c.first_none
            ∙ ap (λ t. is_empty_between none t b') ends,
        ap (λ f. process_from f b') c.first_none,
        λ e.
            ap
              (λ r. r >>= λ (r : ℕ × SesdQueue (Buffer A)).
                write_element e (r.0) (r.1) >>= λ q. some (record b' { queue = q }))
              (ap (λ t. writable allocate initial t q) ends
                ∙ writable_freed l q (c.last_free l last)),
      )

  -- The only buffer is taken out and freed.
  leave_last :
      (q : SesdQueue (Buffer A)) (l : ℕ) (b : Buffer A)
      → Holds q ((l, b) ∷ [])
      → (q' : SesdQueue (Buffer A)) × (leave_buffer l buffer_size q ≡ some q')
        × (lookup l q'.memory ≡ none)
  unfolding leave_buffer destroy_entry
  leave_last q l b h =
      let f = Chain-IsHead q.memory q.first l b [] h.chain in
      let (q1, out, h1, same) = dequeue-Holds q l b [] h in
      (
        record q1 { memory = deallocate l q1.memory },
        rw (out, ==-refl l, ap (lookup l) same ∙ f.read) refl,
        lookup-deallocate_self l q1.memory,
      )

  -- Let a mark buffer have a single buffer, which is full, with one element left to process. If the
  -- collector processes this element when `add_element` has read the tail, then `add_element` goes on
  -- with memory that is freed.
  pub add_element-process_element :
      (mb : MarkBuffer A) (l : ℕ) (b : Buffer A)
      → Holds mb.queue ((l, b) ∷ [])
      → IsBuffer b
      → b.write_idx ≡ buffer_size
      → b.read_next + 1 ≡ buffer_size
      → (x : A) × (mb' : MarkBuffer A) × (process_element mb ≡ some (x, mb'))
        × (writable allocate initial mb.queue.last mb'.queue ≡ none)
  unfolding process_element process_from has_unread
  add_element-process_element mb l b h v full one_left =
      let some_left : b.read_next < b.write_idx = omega arith in
      let (x, at, split) = unread-advanced b v some_left in
      let (q1, set_lem, h1) = set_first-Holds mb.queue l b (advanced b) [] h in
      let (q2, left, free) = leave_last q1 l (advanced b) h1 in
      let left' : leave_buffer l (b.read_next + 1) q1 ≡ some q2 =
        ap (λ k. leave_buffer l k q1) one_left ∙ left in
      let f = first_some mb.queue l b [] h in
      (
        x,
        record mb { queue = q2 },
        ap (λ t. process_from t mb) (f.0)
            ∙ rw (f.1, lt→ltb b.read_next b.write_idx some_left, at, set_lem, left') refl,
        ap (λ t. writable allocate initial t q2) h.ends ∙ writable_freed l q2 free,
      )
