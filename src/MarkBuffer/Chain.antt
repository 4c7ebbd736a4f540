-- ===== src/MarkBuffer/Chain.antt =====
-- The entries of a queue (ruts/include/ruts/sesd_queue.h) that are linked from an address on.
use mpgc.Prelude.{ℕ, ◌≡◌, ◌≢◌, sym, ◌∙◌, List, [], ◌∷◌, ◌++◌, Option, none, some, ap}
use mpgc.MarkBuffer.Memory.{
  Memory, lookup, write_at, deallocate, lookup-write_ne, lookup-deallocate_ne,
}
use mpgc.MarkBuffer.Defs.{Entry}

module _ {A : Type 0} where
  -- None of the entries is at the address.
  pub data Avoids (a : ℕ) : List (ℕ × A) → Type 0 where
    avoids_nil : Avoids a []
    avoids_cons : {b : ℕ} {v : A} {xs : List (ℕ × A)} → b ≢ a → Avoids a xs → Avoids a ((b, v) ∷ xs)

  -- From the address `p` on the entries are linked, each at an address of its own.
  pub data Chain (m : Memory (Entry A)) : Option ℕ → List (ℕ × A) → Type 0 where
    chain_end : Chain m none []
    chain_entry :
        {a : ℕ} {v : A} {n : Option ℕ} {xs : List (ℕ × A)}
        → lookup a m ≡ some (record { value = v; next = n })
        → Avoids a xs
        → Chain m n xs
        → Chain m (some a) ((a, v) ∷ xs)

  -- Two memories agree but at an address.
  abbrev pub Agree : ℕ → Memory (Entry A) → Memory (Entry A) → Type 0
  Agree a m m' = (b : ℕ) → b ≢ a → lookup b m' ≡ lookup b m

  pub write-Agree : (a : ℕ) (e : Entry A) (m : Memory (Entry A)) → Agree a m (write_at a e m)
  write-Agree a e m b ne = lookup-write_ne a b e m ne

  pub deallocate-Agree : (a : ℕ) (m : Memory (Entry A)) → Agree a m (deallocate a m)
  deallocate-Agree a m b ne = lookup-deallocate_ne a b m ne

  -- A chain stays when memory changes elsewhere.
  pub Chain-Agree :
      (a : ℕ) (m m' : Memory (Entry A)) (p : Option ℕ) (xs : List (ℕ × A))
      → Agree a m m'
      → Avoids a xs
      → Chain m p xs
      → Chain m' p xs
  Chain-Agree a m m' p xs same av chain_end = chain_end
  Chain-Agree a m m' p xs same (avoids_cons ne av) (chain_entry at others c) =
      chain_entry (same _ ne ∙ at) others (Chain-Agree a m m' _ _ same av c)

  -- What is not allocated is avoided.
  pub Chain-Avoids :
      (a : ℕ) (m : Memory (Entry A)) (p : Option ℕ) (xs : List (ℕ × A))
      → lookup a m ≡ none
      → Chain m p xs
      → Avoids a xs
  Chain-Avoids a m p xs free chain_end = avoids_nil
  Chain-Avoids a m p xs free (chain_entry at others c) =
      avoids_cons (λ e. apart (sym at ∙ ap (λ x. lookup x m) e ∙ free))
        (Chain-Avoids a m _ _ free c)
    where
      apart : {x : Entry A} → some x ≡ none → ⊥
      apart e = (cc)

  -- Whether an address is avoided does not depend on the values.
  pub Avoids-snoc :
      (a b : ℕ) (v w : A) (ys zs : List (ℕ × A))
      → Avoids a (ys ++ (b, v) ∷ [])
      → Avoids a zs
      → Avoids a (ys ++ (b, w) ∷ zs)
  Avoids-snoc a b v w [] zs (avoids_cons ne av) rest = avoids_cons ne rest
  Avoids-snoc a b v w ((c, u) ∷ ys) zs (avoids_cons ne av) rest =
      avoids_cons ne (Avoids-snoc a b v w ys zs av rest)

  pub last-lookup :
      (m : Memory (Entry A)) (p : Option ℕ) (ys : List (ℕ × A)) (l : ℕ) (v : A)
      → Chain m p (ys ++ (l, v) ∷ [])
      → lookup l m ≡ some (record { value = v; next = none })
  last-lookup m p [] l v (chain_entry at others chain_end) = at
  last-lookup m p ((a, u) ∷ ys) l v (chain_entry at others c) = last-lookup m _ ys l v c

  -- The last entry is elsewhere.
  pub last-ne : (a l : ℕ) (v : A) (ys : List (ℕ × A)) → Avoids a (ys ++ (l, v) ∷ []) → l ≢ a
  last-ne a l v [] (avoids_cons ne av) = ne
  last-ne a l v (y ∷ ys) (avoids_cons ne av) = last-ne a l v ys av

  -- Writing to the last entry, which may link it to further ones.
  pub Chain-relink :
      (m m' : Memory (Entry A)) (p n : Option ℕ) (ys zs : List (ℕ × A)) (l : ℕ) (v w : A)
      → Chain m p (ys ++ (l, v) ∷ [])
      → ((a : ℕ) (x : Entry A) → a ≢ l → lookup a m ≡ some x → lookup a m' ≡ some x)
      → lookup l m' ≡ some (record { value = w; next = n })
      → Chain m' n zs
      → ((a : ℕ) (x : Entry A) → lookup a m ≡ some x → Avoids a zs)
      → Chain m' p (ys ++ (l, w) ∷ zs)
  Chain-relink m m' p n [] zs l v w (chain_entry at others c) same now rest fresh =
      chain_entry now (fresh l _ at) rest
  Chain-relink m m' p n ((a, u) ∷ ys) zs l v w (chain_entry at others c) same now rest fresh =
      chain_entry (same a _ (λ e. last-ne a l v ys others (sym e)) at)
        (Avoids-snoc a l v w ys zs others (fresh a _ at))
        (Chain-relink m m' _ n ys zs l v w c same now rest fresh)
