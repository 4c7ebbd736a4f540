-- ===== src/MarkBuffer/Steps.antt =====
-- The operations of a mark buffer (include/mpgc/mark_buffer.h) against the list of the elements that
-- have been added and not processed.
use mpgc.Prelude.{
  ℕ, ◌<◌, ◌≡◌, refl, ◌∙◌, ap, List, [], ◌∷◌, ◌++◌, none, some, arith, false, Bool-cases, inl, inr,
  ◌==◌, ==_iff, lt→ltb, subst,
}
use mpgc.MarkBuffer.Memory.{Memory, lookup}
use mpgc.MarkBuffer.Defs.{
  Entry, SesdQueue, MarkBuffer, Buffer, buffer_size, new_buffer, writable, write_element,
  add_element,
}
use mpgc.MarkBuffer.Queue.{Holds, Snoc, snoc_nil, snoc_last, Snoc_lem, last_address-snoc}
use mpgc.MarkBuffer.Tail.{value_at-last, set_last-Holds, enqueue-Holds}
use mpgc.MarkBuffer.Buffers.{IsBuffer, new_buffer-IsBuffer, written, written-IsBuffer}
use mpgc.MarkBuffer.Contents.{
  Lined, contents, contents-append, Lined-last, Lined-set_last, Lined-snoc, contents-written,
  append_nil,
}

module _ {A : Type 0} where
  -- A queue whose buffers have yet to give these elements.
  pub record Gives (q : SesdQueue (Buffer A)) (es : List A) : Type 0 where
    pub entries : List (ℕ × Buffer A)
    pub holds : Holds q entries
    pub lined : Lined entries
    pub contents_eq : contents entries ≡ es

  -- The last buffer has room, and this is what it takes.
  write_element-Gives :
      (q : SesdQueue (Buffer A)) (ys : List (ℕ × Buffer A)) (l : ℕ) (b : Buffer A) (e : A)
      → Holds q (ys ++ (l, b) ∷ [])
      → Lined (ys ++ (l, b) ∷ [])
      → b.write_idx < buffer_size
      → (q' : SesdQueue (Buffer A)) × (write_element e l q ≡ some q')
        × Gives q' (contents (ys ++ (l, b) ∷ []) ++ e ∷ [])
  unfolding write_element
  write_element-Gives q ys l b e h v room =
      let is_buffer = Lined-last ys l b v in
      let (q', done, h') = set_last-Holds q ys l b (written e b) h in
      (
        q',
        rw (value_at-last q ys l b h, lt→ltb b.write_idx buffer_size room) done,
        record {
          entries = ys ++ (l, written e b) ∷ [];
          holds = h';
          lined = Lined-set_last ys l b (written e b) v (written-IsBuffer e b is_buffer room);
          contents_eq = contents-written ys l b e is_buffer room;
        },
      )

  -- The buffer that an element is written to.
  record IsWritable (r : ℕ × SesdQueue (Buffer A)) (es : List A) : Type 0 where
    before : List (ℕ × Buffer A)
    buffer : Buffer A
    holds : Holds (r.1) (before ++ ((r.0), buffer) ∷ [])
    lined : Lined (before ++ ((r.0), buffer) ∷ [])
    room : buffer.write_idx < buffer_size
    contents_eq : contents (before ++ ((r.0), buffer) ∷ []) ≡ es

  module _ (allocate : Memory (Entry (Buffer A)) → ℕ)
      (fresh : (m : Memory (Entry (Buffer A))) → lookup (allocate m) m ≡ none) (initial : A) where
    -- A new buffer at the end gives nothing.
    contents-new :
        (xs : List (ℕ × Buffer A)) (l : ℕ)
        → contents (xs ++ (l, new_buffer initial) ∷ []) ≡ contents xs
    contents-new xs l = contents-append xs ((l, new_buffer initial) ∷ []) ∙ append_nil (contents xs)

    -- The tail is the last entry.
    from_last :
        (q : SesdQueue (Buffer A)) (ys : List (ℕ × Buffer A)) (l : ℕ) (b : Buffer A)
        → Holds q (ys ++ (l, b) ∷ [])
        → writable allocate initial q.last q ≡ writable allocate initial (some l) q
    from_last q ys l b h =
        ap (λ t. writable allocate initial t q) (h.ends ∙ last_address-snoc ys l b)

    writable-IsWritable :
        (q : SesdQueue (Buffer A)) (xs : List (ℕ × Buffer A))
        → Snoc xs
        → Holds q xs
        → Lined xs
        → (r : ℕ × SesdQueue (Buffer A)) × (writable allocate initial q.last q ≡ some r)
          × IsWritable r (contents xs)
    unfolding writable
    writable-IsWritable q xs snoc_nil h v =
        let (l, q1, done, h1) = enqueue-Holds allocate fresh q (new_buffer initial) [] h in
        (
          (l, q1),
          ap (λ t. writable allocate initial t q) h.ends ∙ done,
          record {
            before = [];
            buffer = new_buffer initial;
            holds = h1;
            lined = (new_buffer-IsBuffer initial, inl refl, tt);
            room = omega arith;
            contents_eq = refl;
          },
        )
    writable-IsWritable q xs (snoc_last ys l b) h v =
        elim (Bool-cases (b.write_idx == buffer_size)) [
          | inl full ↦
              let (e, q1, done, h1) =
                enqueue-Holds allocate fresh q (new_buffer initial) (ys ++ (l, b) ∷ []) h in
              (
                (e, q1),
                from_last q ys l b h ∙ rw (value_at-last q ys l b h, full) done,
                record {
                  before = ys ++ (l, b) ∷ [];
                  buffer = new_buffer initial;
                  holds = h1;
                  lined =
                      Lined-snoc ys l e b (new_buffer initial) v
                        ((==_iff b.write_idx buffer_size).0 full) (new_buffer-IsBuffer initial);
                  room = omega arith;
                  contents_eq = contents-new (ys ++ (l, b) ∷ []) e;
                },
              )
          | inr room ↦ (
            (l, q),
            from_last q ys l b h ∙ rw (value_at-last q ys l b h, room) refl,
            record {
              before = ys;
              buffer = b;
              holds = h;
              lined = v;
              room = not_full b (Lined-last ys l b v) room;
              contents_eq = refl;
            },
          )
        ]
      where
        not_full :
            (b : Buffer A)
            → IsBuffer b
            → (b.write_idx == buffer_size) ≡ false
            → b.write_idx < buffer_size
        not_full b v e = let le = v.within in ground arith

    -- An element that is added comes last.
    pub add_element-Gives :
        (b : MarkBuffer A) (e : A) (es : List A)
        → Gives b.queue es
        → (b' : MarkBuffer A) × (add_element allocate initial e b ≡ some b')
          × Gives b'.queue (es ++ e ∷ [])
    unfolding add_element
    add_element-Gives b e es g =
        let (r, done, w) =
          writable-IsWritable b.queue g.entries (Snoc_lem g.entries) g.holds g.lined in
        let (q, done', g') =
          write_element-Gives (r.1) w.before (r.0) w.buffer e w.holds w.lined w.room in
        (
          record b { queue = q },
          rw (done, done') refl,
          subst (λ l. Gives q (l ++ e ∷ [])) (w.contents_eq ∙ g.contents_eq) g',
        )
