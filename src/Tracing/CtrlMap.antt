-- ===== src/Tracing/CtrlMap.antt =====
-- `weak_ctrl_map` (include/mpgc/weak_ctrl_map.h): for a weak pointer's target that is not marked
-- yet, the contingent pointers that wait for it. The concurrent map below it is an association
-- list, and a value is the list of its buffers, newest first.
use mpgc.Prelude.{
  In, ℕ, suc, ◌+◌, ◌≡◌, refl, ◌⊎◌, inl, inr, List, [], ◌∷◌, ◌++◌, leb, ◌==◌, if◌then◌else◌, arith,
  length, length-append, Bool-cases, ==_iff, ==-refl, false, sym, subst, ◌∙◌,
}

abbrev pub buffer_size : ℕ
buffer_size = 16

-- `weak_ctrl_map_val::add`: into the newest buffer, or into a new one if that is full.
pub add : ℕ → List (List ℕ) → List (List ℕ)
add p [] = (p ∷ []) ∷ []
add p (b ∷ bs) = if leb buffer_size (length b) then (p ∷ []) ∷ b ∷ bs else (b ++ p ∷ []) ∷ bs

-- The pointers in the order in which `weak_ctrl_map_val::process_and_remove` visits them.
pub contents : List (List ℕ) → List ℕ
contents [] = []
contents (b ∷ bs) = b ++ contents bs

abbrev pub CtrlMap : Type 0
CtrlMap = List (ℕ × List (List ℕ))

pub insert : ℕ → ℕ → CtrlMap → CtrlMap
unfolding add
insert k v [] = (k, (v ∷ []) ∷ []) ∷ []
insert k v ((j, bs) ∷ m) = if j == k then (j, add v bs) ∷ m else (j, bs) ∷ insert k v m

-- The buffers under `k`, and the pointers in them.
pub buffers : ℕ → CtrlMap → List (List ℕ)
buffers k [] = []
buffers k ((j, bs) ∷ m) = if j == k then bs else buffers k m

abbrev pub waiting : ℕ → CtrlMap → List ℕ
waiting k m = contents (buffers k m)

pub remove : ℕ → CtrlMap → CtrlMap
remove k [] = []
remove k ((j, bs) ∷ m) = if j == k then m else (j, bs) ∷ remove k m

-- All pointers that the map holds.
unfoldable pub size : CtrlMap → ℕ
size [] = 0
size ((j, bs) ∷ m) = length (contents bs) + size m

In-append_left : (x : ℕ) (xs ys : List ℕ) → In x xs → In x (xs ++ ys)
In-append_left x [] ys h = absurd h
In-append_left x (y ∷ xs) ys (inl e) = inl e
In-append_left x (y ∷ xs) ys (inr h) = inr (In-append_left x xs ys h)

In-append_right : (x : ℕ) (xs ys : List ℕ) → In x ys → In x (xs ++ ys)
In-append_right x [] ys h = h
In-append_right x (y ∷ xs) ys h = inr (In-append_right x xs ys h)

In-append : (x : ℕ) (xs ys : List ℕ) → In x (xs ++ ys) → In x xs ⊎ In x ys
In-append x [] ys h = inr h
In-append x (y ∷ xs) ys (inl e) = inl (inl e)
In-append x (y ∷ xs) ys (inr h) = elim (In-append x xs ys h) [ inl l ↦ inl (inr l) | inr r ↦ inr r ]

length-add :
    (p : ℕ) (bs : List (List ℕ)) → length (contents (add p bs)) ≡ suc (length (contents bs))
unfolding add contents
length-add p [] = refl
length-add p (b ∷ bs) = ground (
  arith,
  length-append b (contents bs),
  length-append (b ++ p ∷ []) (contents bs),
  length-append b (p ∷ []),
)

In-add_self : (p : ℕ) (bs : List (List ℕ)) → In p (contents (add p bs))
unfolding add contents
In-add_self p [] = inl refl
In-add_self p (b ∷ bs) = elim (Bool-cases (leb buffer_size (length b))) [
  | inl e ↦ rw e (inl refl)
  | inr e ↦
      rw e (In-append_left p (b ++ p ∷ []) (contents bs) (In-append_right p b (p ∷ []) (inl refl)))
]

In-add : (x p : ℕ) (bs : List (List ℕ)) → In x (contents bs) → In x (contents (add p bs))
unfolding add contents
In-add x p [] h = absurd h
In-add x p (b ∷ bs) h = elim (Bool-cases (leb buffer_size (length b))) [
  | inl e ↦ rw e (inr h)
  | inr e ↦ rw e (elim (In-append x b (contents bs) h) [
    | inl l ↦ In-append_left x (b ++ p ∷ []) (contents bs) (In-append_left x b (p ∷ []) l)
    | inr r ↦ In-append_right x (b ++ p ∷ []) (contents bs) r
  ])
]

In-add_inv :
    (x p : ℕ) (bs : List (List ℕ)) → In x (contents (add p bs)) → (x ≡ p) ⊎ In x (contents bs)
unfolding add contents
In-add_inv x p [] (inl e) = inl e
In-add_inv x p [] (inr h) = absurd h
In-add_inv x p (b ∷ bs) h = elim (Bool-cases (leb buffer_size (length b))) [
  | inl e ↦ let h' : (x ≡ p) ⊎ In x (b ++ contents bs) = rw (e, contents) at h in h'
  | inr e ↦
      let h' : In x ((b ++ p ∷ []) ++ contents bs) = rw e at h in
      elim (In-append x (b ++ p ∷ []) (contents bs) h') [
        | inl l ↦ elim (In-append x b (p ∷ []) l) [
          | inl l' ↦ inr (In-append_left x b (contents bs) l')
          | inr r' ↦ elim r' [ inl e' ↦ inl e' | inr none' ↦ absurd none' ]
        ]
        | inr r ↦ inr (In-append_right x b (contents bs) r)
      ]
]

buffers-insert :
    (k v j : ℕ) (m : CtrlMap)
    → buffers j (insert k v m) ≡ (if k == j then add v (buffers k m) else buffers j m)
unfolding buffers insert
buffers-insert k v j [] = refl
buffers-insert k v j ((i, bs) ∷ m) = ground (arith, buffers-insert k v j m)

pub In-waiting-insert_self : (k v : ℕ) (m : CtrlMap) → In v (waiting k (insert k v m))
In-waiting-insert_self k v m = rw (buffers-insert k v k m, ==-refl k) (In-add_self v (buffers k m))

pub In-waiting-insert :
    (k v j x : ℕ) (m : CtrlMap) → In x (waiting j m) → In x (waiting j (insert k v m))
In-waiting-insert k v j x m h = elim (Bool-cases (k == j)) [
  | inl e ↦
      rw (buffers-insert k v j m, e)
        (In-add x v (buffers k m) (subst (λ i. In x (waiting i m)) (sym ((==_iff k j).0 e)) h))
  | inr e ↦ rw (buffers-insert k v j m, e) h
]

pub In-waiting-insert_inv :
    (k v j x : ℕ) (m : CtrlMap)
    → In x (waiting j (insert k v m))
    → ((j ≡ k) × (x ≡ v)) ⊎ In x (waiting j m)
In-waiting-insert_inv k v j x m h = elim (Bool-cases (k == j)) [
  | inl e ↦
      let same : k ≡ j = (==_iff k j).0 e in
      elim (In-add_inv x v (buffers k m) (rw (buffers-insert k v j m, e) at h)) [
        | inl new ↦ inl (sym same, new)
        | inr old ↦ inr (subst (λ i. In x (waiting i m)) same old)
      ]
  | inr e ↦ inr (rw (buffers-insert k v j m, e) at h)
]

pub buffers-remove :
    (k j : ℕ) (m : CtrlMap) → (k == j) ≡ false → buffers j (remove k m) ≡ buffers j m
unfolding buffers remove
buffers-remove k j [] ne = refl
buffers-remove k j ((i, bs) ∷ m) ne = ground (arith, buffers-remove k j m ne)

pub size-insert : (k v : ℕ) (m : CtrlMap) → size (insert k v m) ≡ suc (size m)
unfolding size insert
size-insert k v [] = unfold contents in refl
size-insert k v ((j, bs) ∷ m) = ground (arith, size-insert k v m, length-add v bs)

pub size-remove : (k : ℕ) (m : CtrlMap) → size (remove k m) + length (waiting k m) ≡ size m
unfolding size remove buffers
size-remove k [] = unfold contents in refl
size-remove k ((j, bs) ∷ m) = ground (arith, size-remove k m)

-- Under some entry for `k`, `t` is held. (The map has one entry for a key.)
abbrev pub Holds : ℕ → ℕ → CtrlMap → Type 0
Holds k t [] = ⊥
Holds k t ((j, bs) ∷ m) = ((k ≡ j) × In t (contents bs)) ⊎ Holds k t m

pub Holds-waiting : (k t : ℕ) (m : CtrlMap) → In t (waiting k m) → Holds k t m
unfolding buffers
Holds-waiting k t [] h = unfold contents in h
Holds-waiting k t ((j, bs) ∷ m) h = elim (Bool-cases (j == k)) [
  | inl e ↦ inl (sym ((==_iff j k).0 e), rw e at h)
  | inr e ↦ inr (Holds-waiting k t m (rw e at h))
]

pub Holds-remove : (p k t : ℕ) (m : CtrlMap) → Holds k t (remove p m) → Holds k t m
unfolding remove
Holds-remove p k t [] h = h
Holds-remove p k t ((j, bs) ∷ m) h = elim (Bool-cases (j == p)) [
  | inl e ↦ inr (rw e at h)
  | inr e ↦
      let h' : Holds k t ((j, bs) ∷ remove p m) = rw e at h in
      elim h' [ inl here ↦ inl here | inr there ↦ inr (Holds-remove p k t m there) ]
]

pub Holds-insert :
    (k v j t : ℕ) (m : CtrlMap) → Holds j t (insert k v m) → ((j ≡ k) × (t ≡ v)) ⊎ Holds j t m
unfolding insert
Holds-insert k v j t [] (inl (e, h)) =
    unfold contents in elim h [ inl e' ↦ inl (e, e') | inr no_more ↦ absurd no_more ]
Holds-insert k v j t [] (inr h) = absurd h
Holds-insert k v j t ((i, bs) ∷ m) h = elim (Bool-cases (i == k)) [
  | inl e ↦
      let h' : Holds j t ((i, add v bs) ∷ m) = rw e at h in
      elim h' [
        | inl here ↦ elim (In-add_inv t v bs here.1) [
          | inl new ↦ inl (here.0 ∙ (==_iff i k).0 e, new)
          | inr old ↦ inr (inl (here.0, old))
        ]
        | inr there ↦ inr (inr there)
      ]
  | inr e ↦
      let h' : Holds j t ((i, bs) ∷ insert k v m) = rw e at h in
      elim h' [
        | inl here ↦ inr (inl here)
        | inr there ↦ elim (Holds-insert k v j t m there) [
          | inl new ↦ inl new
          | inr old ↦ inr (inr old)
        ]
      ]
]
