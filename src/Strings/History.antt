-- ===== src/Strings/History.antt =====
-- The operations of a string as one step, next to the same step on a plain text.
use mpgc.Prelude.{
  ℕ, ◌+◌, ◌-◌, ◌≡◌, List, [], ◌∷◌, ◌++◌, Option, none, some, length, replicate, take, drop, ltb,
  leb, if◌then◌else◌, ◌==◌, ◌&&◌, Bool, ◌^◌,
}
use mpgc.Prelude
use mpgc.Vector.Defs.{Access, found}
use mpgc.Strings.Defs.{
  GcString, ◌>>=◌, assign_n, assign, resize, clear, reserve, push_back, pop_back, insert,
  insert_range, append, append_range, erase, pos,
}
use mpgc.Strings.Edit.{resized}

-- A call of a member function that changes the string.
pub data StringCall : Type 0 where
  call_assign_n : List ℕ → StringCall
  call_assign : ℕ → ℕ → StringCall
  call_reserve : ℕ → StringCall
  call_resize : ℕ → StringCall
  call_clear : StringCall
  call_push_back : ℕ → StringCall
  call_pop_back : StringCall
  call_insert : ℕ → ℕ → ℕ → StringCall
  call_insert_range : ℕ → List ℕ → StringCall
  call_append : ℕ → ℕ → StringCall
  call_append_range : List ℕ → StringCall
  call_erase : ℕ → ℕ → StringCall

unfoldable pub perform : StringCall → GcString → Access GcString
perform (call_assign_n from) s = assign_n from s
perform (call_assign n c) s = assign n c s
perform (call_reserve n) s = found (reserve n s)
perform (call_resize n) s = resize n s
perform call_clear s = clear s
perform (call_push_back c) s = push_back c s
perform call_pop_back s = pop_back s
perform (call_insert i n c) s = insert (pos i) n c s
perform (call_insert_range i from) s = insert_range (pos i) from s
perform (call_append n c) s = append n c s
perform (call_append_range from) s = append_range from s
perform (call_erase i n) s = erase (pos i) (pos n) s

unfoldable pub perform_all : List StringCall → GcString → Access GcString
perform_all [] s = found s
perform_all (c ∷ cs) s = perform c s >>= λ s'. perform_all cs s'

-- Nothing can be inserted into an empty text, or removed from it.
abbrev pub if_fits : Bool → List ℕ → List ℕ → Option (List ℕ)
if_fits fits text new = if ltb 0 (length text) && fits then some new else none

-- The same call on a plain text, and `none` for a call that a string does not serve.
unfoldable pub perform_text : StringCall → List ℕ → Option (List ℕ)
perform_text (call_assign_n from) text = some from
perform_text (call_assign n c) text = if ltb 0 n then some (replicate n c) else none
perform_text (call_reserve n) text = some text
perform_text (call_resize n) text = some (resized n text)
perform_text call_clear text = some []
perform_text (call_push_back c) text = some (text ++ c ∷ [])
perform_text call_pop_back text = some (take (length text - 1) text)
perform_text (call_insert i n c) text =
    if_fits (leb i (length text)) text (take i text ++ (replicate n c ++ drop i text))
perform_text (call_insert_range i from) text =
    if_fits (leb i (length text)) text (take i text ++ (from ++ drop i text))
perform_text (call_append n c) text =
    if_fits (leb (length text) (length text)) text (text ++ replicate n c)
perform_text (call_append_range from) text =
    if_fits (leb (length text) (length text)) text (text ++ from)
perform_text (call_erase i n) text =
    if_fits (leb (i + n) (length text) && ltb (length text) (2 ^ 63)) text
      (take i text ++ drop (i + n) text)

unfoldable pub perform_all_text : List StringCall → List ℕ → Option (List ℕ)
perform_all_text [] text = some text
perform_all_text (c ∷ cs) text =
    Prelude.◌>>=◌ (perform_text c text) (λ text'. perform_all_text cs text')
