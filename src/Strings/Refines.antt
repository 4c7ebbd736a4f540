-- ===== src/Strings/Refines.antt =====
-- A string does what a plain text does (include/mpgc/gc_string.h).
use mpgc.Prelude.{
  ◌^◌, bind-some, ℕ, zero, suc, ◌+◌, ◌<◌, ◌≡◌, refl, ap, ◌∙◌, subst, List, [], ◌∷◌, ◌++◌, some,
  length, replicate, take, drop, ltb, leb, ◌&&◌, Bool, true, arith, ltb→lt, lt→ltb, get_elem?,
  length-append,
}
use mathlib.Core.List.{append-nil}
use mpgc.Vector.Defs
use mpgc.Vector.Defs.{Access, found, out_of_range, to_access}
use mpgc.Vector.Represents.{Represents, ensure_capacity_lem}
use mpgc.Vector.Refines.{guard-some, and-true, leb→le, prefix-get}
use mpgc.Vector.Pieces.{take-all, ltb-false}
use mpgc.Strings.Defs.{GcString, reserve, append, append_range, at, pos}
use mpgc.Strings.Holds.{Holds, terminated, no_null, Results, size-Holds}
use mpgc.Strings.Edit.{assign-Results, assign_n-Results, resize-Results, clear-Results}
use mpgc.Strings.Splice.{
  with_null, insert-Results, insert_range-Results, push_back-Results, pop_back-Results,
  erase-Results,
}
use mpgc.Strings.History.{
  StringCall, perform, perform_all, perform_text, perform_all_text, if_fits, call_assign_n,
  call_assign, call_reserve, call_resize, call_clear, call_push_back, call_pop_back, call_insert,
  call_insert_range, call_append, call_append_range, call_erase,
}

equal : (t u : List ℕ) (o : Access GcString) → t ≡ u → Results t o → Results u o
equal t u o e r = subst (λ l. Results l o) e r

chosen : (t u : List ℕ) (o : Access GcString) → some t ≡ some u → Results t o → Results u o
chosen t u o e r = equal t u o (cc) r

reserve-Holds : (n : ℕ) (text : List ℕ) (s : GcString) → Holds text s → Holds text (reserve n s)
unfolding reserve
reserve-Holds n text s (terminated h) =
    terminated (ensure_capacity_lem 0 (n + 1) (text ++ 0 ∷ []) s h)
reserve-Holds n text s (no_null e h) = no_null e (ensure_capacity_lem 0 (n + 1) [] s h)

drop-all : (text : List ℕ) → drop (length text) text ≡ []
drop-all [] = refl
drop-all (c ∷ text) = drop-all text

at_end :
    (text new : List ℕ) → take (length text) text ++ (new ++ drop (length text) text) ≡ text ++ new
at_end text new = rw (take-all (length text) text (omega arith), drop-all text, append-nil new) refl

-- What a condition of `if_fits` that holds says.
record Fits (fits : Bool) (text new result : List ℕ) : Type 0 where
  pub positive : 0 < length text
  pub condition : fits ≡ true
  pub result_eq : new ≡ result

fits_lem :
    (fits : Bool) (text new result : List ℕ)
    → if_fits fits text new ≡ some result
    → Fits fits text new result
fits_lem fits text new result e =
    let g = guard-some (ltb 0 (length text) && fits) new result e in
    let b = and-true (ltb 0 (length text)) fits g.0 in
    record { positive = ltb→lt 0 (length text) b.0; condition = b.1; result_eq = g.1 }

perform-Results :
    (c : StringCall) (text text' : List ℕ) (s : GcString)
    → Holds text s
    → perform_text c text ≡ some text'
    → Results text' (perform c s)
unfolding perform perform_text append append_range
perform-Results (call_assign_n from) t u s h e = chosen _ _ _ e (assign_n-Results from t s h)
perform-Results (call_assign zero c) t u s h e = cc
perform-Results (call_assign (suc n) c) t u s h e =
    equal _ _ _ (guard-some (ltb 0 (suc n)) (replicate (suc n) c) u e).1 (assign-Results n c t s h)
perform-Results (call_reserve n) t u s h e =
    chosen _ _ _ e record { string = reserve n s; succeeds = refl; holds = reserve-Holds n t s h }
perform-Results (call_resize n) t u s h e = chosen _ _ _ e (resize-Results n t s h)
perform-Results call_clear t u s h e = chosen _ _ _ e (clear-Results t s h)
perform-Results (call_push_back c) t u s h e = chosen _ _ _ e (push_back-Results c t s h)
perform-Results call_pop_back t u s h e = chosen _ _ _ e (pop_back-Results t s h)
perform-Results (call_insert i n c) t u s h e =
    let f = fits_lem _ _ _ _ e in
    equal _ _ _ f.result_eq
      (insert-Results i n c t s h f.positive (leb→le i (length t) f.condition))
perform-Results (call_insert_range i from) t u s h e =
    let f = fits_lem _ _ _ _ e in
    equal _ _ _ f.result_eq
      (insert_range-Results i from t s h f.positive (leb→le i (length t) f.condition))
perform-Results (call_append n c) t u s h e =
    let f = fits_lem _ _ _ _ e in
    rw (size-Holds t s h) (
      equal _ _ _ (at_end t (replicate n c) ∙ f.result_eq)
        (insert-Results (length t) n c t s h f.positive (omega arith)))
perform-Results (call_append_range from) t u s h e =
    let f = fits_lem _ _ _ _ e in
    rw (size-Holds t s h) (
      equal _ _ _ (at_end t from ∙ f.result_eq)
        (insert_range-Results (length t) from t s h f.positive (omega arith)))
perform-Results (call_erase i n) t u s h e =
    let f = fits_lem _ _ _ _ e in
    let b = and-true (leb (i + n) (length t)) (ltb (length t) (2 ^ 63)) f.condition in
    equal _ _ _ f.result_eq (
      erase-Results i n t s h f.positive (leb→le (i + n) (length t) b.0)
        (ltb→lt (length t) (2 ^ 63) b.1))

-- Let a string hold a text, and let calls be given that a text can perform, among them no insertion
-- into an empty text, no removal from one and no assignment of a character zero times. Then they
-- succeed on the string, which afterwards holds the result.
pub perform_all-Results :
    (cs : List StringCall) (text text' : List ℕ) (s : GcString)
    → Holds text s
    → perform_all_text cs text ≡ some text'
    → Results text' (perform_all cs s)
unfolding perform_all perform_all_text
perform_all-Results [] t u s h e = chosen _ _ _ e record { string = s; succeeds = refl; holds = h }
perform_all-Results (c ∷ cs) t u s h e =
    let b = bind-some (perform_text c t) (perform_all_text cs) u e in
    let r = perform-Results c t b.0 s h b.1 in
    rw r.succeeds (perform_all-Results cs b.0 u r.string r.holds b.2)

-- The prefix of a string's vector, read at a position.
vector-at :
    (xs : List ℕ) (s : GcString) (i : ℕ)
    → Represents 0 xs s
    → i < length xs
    → Defs.at s i ≡ to_access (get_elem? xs i)
unfolding Defs.at
vector-at xs s i h lt =
    rw
      (
        ltb-false s.size i (omega (arith, h.same_size)),
        h.contents,
        prefix-get xs (replicate h.spare 0) i lt,
      )
      refl

get-last : (text : List ℕ) (c : ℕ) → get_elem? (text ++ c ∷ []) (length text) ≡ some c
get-last [] c = refl
get-last (d ∷ text) c = get-last text c

-- Of a text that is not empty `at` reads a character, reads the null at the position behind the last
-- one, and throws behind that.
pub at-Holds :
    (text : List ℕ) (s : GcString) (i : ℕ)
    → Holds text s
    → 0 < length text
    → (i < length text → at (pos i) s ≡ to_access (get_elem? text i))
      × (at (pos (length text)) s ≡ found 0)
      × (length text < i → at (pos i) s ≡ out_of_range)
unfolding at
at-Holds text s i h some_text =
    let r = with_null text s h some_text in
    let more : length (text ++ 0 ∷ []) ≡ length text + 1 = length-append text (0 ∷ []) in
    (
      (λ lt.
          rw (size-Holds text s h, ltb-false (length text) i (omega arith))
            (vector-at (text ++ 0 ∷ []) s i r (omega arith)
              ∙ ap to_access (prefix-get text (0 ∷ []) i lt))),
      rw (size-Holds text s h, ltb-false (length text) (length text) (omega arith))
          (vector-at (text ++ 0 ∷ []) s (length text) r (omega arith)
            ∙ ap to_access (get-last text 0)),
      (λ lt. rw (size-Holds text s h, lt→ltb (length text) i lt) refl),
    )
