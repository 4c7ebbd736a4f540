-- ===== src/MarkBuffer/Reads.antt =====
-- Reading a mark buffer (include/mpgc/mark_buffer.h).
use mpgc.Prelude.{
  ℕ, ◌+◌, ◌<◌, ◌≡◌, refl, sym, ◌∙◌, ap, List, [], ◌∷◌, ◌++◌, some, arith, false, Bool-cases, inl,
  inr, ◌==◌, ==_iff, ==-refl, lt→ltb, subst,
}
use mpgc.MarkBuffer.Memory.{lookup}
use mpgc.MarkBuffer.Defs.{
  SesdQueue, MarkBuffer, Buffer, buffer_size, value_at, has_unread, process_from, leave_buffer,
  process_element,
}
use mpgc.MarkBuffer.Steps.{Gives}
use mpgc.MarkBuffer.Queue.{Holds, Chain-IsHead, dequeue-Holds, destroy_entry-Holds, set_first-Holds}
use mpgc.MarkBuffer.Buffers.{IsBuffer, advanced, unread, unread-advanced, unread_nil}
use mpgc.MarkBuffer.Contents.{Lined, contents, unread-first}

module _ {A : Type 0} where
  -- A buffer that has been read to its end is taken out and destroyed.
  leave_buffer-Gives :
      (q : SesdQueue (Buffer A)) (h : ℕ) (b : Buffer A) (xs : List (ℕ × Buffer A))
      → Holds q ((h, advanced b) ∷ xs)
      → Lined ((h, b) ∷ xs)
      → b.read_next < b.write_idx
      → (q' : SesdQueue (Buffer A)) × (leave_buffer h (b.read_next + 1) q ≡ some q')
        × Gives q' (unread (advanced b) ++ contents xs)
  unfolding leave_buffer
  leave_buffer-Gives q h b xs holds v some_left =
      elim (Bool-cases (b.read_next + 1 == buffer_size)) [
        | inl done ↦
            let finished = (==_iff (b.read_next + 1) buffer_size).0 done in
            let f = Chain-IsHead q.memory q.first h (advanced b) xs holds.chain in
            let (q1, out, h1, same) = dequeue-Holds q h (advanced b) xs holds in
            let (q2, gone, h2) =
              destroy_entry-Holds q1 h _ xs (ap (lookup h) same ∙ f.read) f.others h1 in
            (
              q2,
              rw (done, out, ==-refl h) gone,
              record {
                entries = xs;
                holds = h2;
                lined = v.2;
                contents_eq =
                    ap (λ l. l ++ contents xs)
                      (sym (unread_nil (advanced b) (omega (arith, finished, v.0.within))));
              },
            )
        | inr more ↦ (
          q,
          rw more refl,
          record {
            entries = (h, advanced b) ∷ xs;
            holds = holds;
            lined = (advanced-IsBuffer b (v.0) some_left more, v.1, v.2);
            contents_eq = refl;
          },
        )
      ]
    where
      advanced-IsBuffer :
          (b : Buffer A)
          → IsBuffer b
          → b.read_next < b.write_idx
          → (b.read_next + 1 == buffer_size) ≡ false
          → IsBuffer (advanced b)
      advanced-IsBuffer b v some_left more =
          let lt = v.unfinished in
          record {
            sized = v.sized;
            read = omega arith;
            within = v.within;
            unfinished = ground arith;
          }

  -- What the head is.
  pub first_some :
      (q : SesdQueue (Buffer A)) (h : ℕ) (b : Buffer A) (xs : List (ℕ × Buffer A))
      → Holds q ((h, b) ∷ xs)
      → (q.first ≡ some h) × (value_at h q ≡ some b)
  unfolding value_at
  first_some q h b xs holds =
      let f = Chain-IsHead q.memory q.first h b xs holds.chain in (f.first_eq, rw f.read refl)

  process_from-Gives :
      (mb : MarkBuffer A) (h : ℕ) (b : Buffer A) (xs : List (ℕ × Buffer A)) (x : A) (es : List A)
      → Holds mb.queue ((h, b) ∷ xs)
      → Lined ((h, b) ∷ xs)
      → contents ((h, b) ∷ xs) ≡ x ∷ es
      → (mb' : MarkBuffer A) × (process_from (some h) mb ≡ some (x, mb')) × Gives mb'.queue es
  unfolding process_from has_unread
  process_from-Gives mb h b xs x es holds v e =
      let some_left = unread-first h b xs x es v e in
      let (y, at, split) = unread-advanced b (v.0) some_left in
      let (q1, set_lem, h1) = set_first-Holds mb.queue h b (advanced b) xs holds in
      let (q2, left, g) = leave_buffer-Gives q1 h b xs h1 v some_left in
      let both : y ∷ (unread (advanced b) ++ contents xs) ≡ x ∷ es =
        sym (ap (λ l. l ++ contents xs) split) ∙ e in
      let same : y ≡ x = (cc) in
      let rest : unread (advanced b) ++ contents xs ≡ es = (cc) in
      (
        record mb { queue = q2 },
        rw
            (
              (first_some mb.queue h b xs holds).1,
              lt→ltb b.read_next b.write_idx some_left,
              at,
              set_lem,
              left,
              same,
            )
            refl,
        subst (λ l. Gives q2 l) rest g,
      )

  -- The element that is processed is the oldest one.
  pub process_element-Gives :
      (mb : MarkBuffer A) (x : A) (es : List A)
      → Gives mb.queue (x ∷ es)
      → (mb' : MarkBuffer A) × (process_element mb ≡ some (x, mb')) × Gives mb'.queue es
  unfolding process_element
  process_element-Gives mb x es g = by_entries g.entries g.holds g.lined g.contents_eq
    where
      by_entries :
          (xs : List (ℕ × Buffer A))
          → Holds mb.queue xs
          → Lined xs
          → contents xs ≡ x ∷ es
          → (mb' : MarkBuffer A) × (process_element mb ≡ some (x, mb')) × Gives mb'.queue es
      by_entries [] holds v e = absurd (cc)
      by_entries ((h, b) ∷ xs) holds v e =
          let (mb', done, g') = process_from-Gives mb h b xs x es holds v e in
          (mb', ap (λ t. process_from t mb) (first_some mb.queue h b xs holds).0 ∙ done, g')
