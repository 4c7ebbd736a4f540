-- ===== src/Tracing/Correct.antt =====
-- `empty_collector_stack` marks exactly the live objects.
use mpgc.Prelude.{
  ℕ, zero, suc, ◌≡◌, refl, ◌<◌, ◌↔◌, inl, inr, List, [], ◌∷◌, some, Bool, true, false, subst,
}
use mpgc.Tracing.Graph.{Graph, IsLive, root, by_strong, by_contingent}
use mpgc.Tracing.Marks.{Marks}
use mpgc.Tracing.Collector.{Collector, push, mark_black, round, empty_collector_stack}
use mpgc.Tracing.Visit.{Grows, IsCovered, IsCoveredBy}
use mpgc.Tracing.Black.{IsTriColour, IsTriColour-Grows, mark_black-IsTriColour}
use mpgc.Tracing.Sound.{IsSound, mark_black-IsSound}
use mpgc.Tracing.Ends.{work, empty_collector_stack_ends}

module _ (g : Graph) (m : Marks g.valid) (roots : List ℕ) where
  open m use {State, is_marked}

  -- No mark is missing that the queue and the map would not still give, and none is wrong.
  abbrev pub IsTracing : Collector State → Type 0
  IsTracing c = IsTriColour g m roots c × IsSound g m roots c

  -- Nothing marked and nothing waiting: how a cycle starts, with the roots in the queue.
  pub record IsStart (c : Collector State) : Type 0 where
    pub queue : c.queue ≡ roots
    pub ctrl_map : c.ctrl_map ≡ []
    pub unmarked : (t : ℕ) → is_marked c.marks t ≡ false

  pub IsStart-IsTracing : (c : Collector State) → IsStart c → IsTracing c
  IsStart-IsTracing c s = (
    record {
      root = λ t h. inr (inl (rw s.queue h));
      strong = λ o t e h. cc (s.unmarked o);
      controlled = λ o k t e h. cc (s.unmarked o);
    },
    record {
      marked = λ x e. cc (s.unmarked x);
      queued = λ x h e. root (rw s.queue at h) e;
      waits = λ k t h. absurd (rw s.ctrl_map at h);
    },
  )

  module _ (p : ℕ) (rest : List ℕ) (c : Collector State) (front : c.queue ≡ p ∷ rest)
      (inv : IsTracing c) where
    abbrev popped : Collector State
    popped = record c { queue = rest; marking_ref = some p }

    back-Grows : Grows g m c (push g m p popped)
    unfolding push
    back-Grows = record { same_marks = refl; queue = λ x h. rw front at h; ctrl_map = λ j x h. h }

    popped-IsSound : IsSound g m roots popped
    popped-IsSound = record {
      marked = inv.1.marked;
      queued = λ x h. inv.1.queued x (rw front (inr h));
      waits = inv.1.waits;
    }

    round-IsTracing : IsTracing (round g m p rest c)
    unfolding round
    round-IsTracing =
        let black : IsTriColour g m roots (mark_black g m p popped) =
          mark_black-IsTriColour g m roots p popped
            (IsTriColour-Grows g m roots back-Grows inv.0) in
        let right : IsSound g m roots (mark_black g m p popped) =
          mark_black-IsSound g m roots p popped (inv.1.queued p (rw front (inl refl)))
            popped-IsSound in
        (
          record { root = black.root; strong = black.strong; controlled = black.controlled },
          record { marked = right.marked; queued = right.queued; waits = right.waits },
        )

  left :
      (fuel : ℕ) (worked : Bool) (c : Collector State)
      → c.queue ≡ []
      → empty_collector_stack g m (suc fuel) worked c ≡ some (worked, c)
  unfolding empty_collector_stack
  left fuel worked c e = rw e

  -- What holds when the loop is left.
  pub empty_collector_stack-IsTracing :
      (fuel : ℕ) (worked worked' : Bool) (c c' : Collector State)
      → IsTracing c
      → empty_collector_stack g m fuel worked c ≡ some (worked', c')
      → IsTracing c' × (c'.queue ≡ [])
  unfolding empty_collector_stack
  empty_collector_stack-IsTracing zero worked worked' c c' inv e = absurd (cc)
  empty_collector_stack-IsTracing (suc fuel) worked worked' c c' inv e =
      by_queue c.queue refl (λ d. empty_collector_stack-IsTracing fuel true worked' d c')
    where
      by_queue :
          (q : List ℕ)
          → c.queue ≡ q
          → ((d : Collector State)
              → IsTracing d
              → empty_collector_stack g m fuel true d ≡ some (worked', c')
              → IsTracing c' × (c'.queue ≡ []))
          → IsTracing c' × (c'.queue ≡ [])
      by_queue [] front again =
          let same : c ≡ c' = cc (left fuel worked c front, e) in
          (subst IsTracing same inv, subst (λ d. d.queue ≡ []) same front)
      by_queue (p ∷ rest) front again =
          again (round g m p rest c) (round-IsTracing p rest c front inv) (rw front at e)

  -- With an empty queue a valid object that is covered is marked.
  covered_marked :
      (c : Collector State)
      → c.queue ≡ []
      → (t : ℕ) → g.valid t ≡ true
      → IsCovered g m c t
      → is_marked c.marks t ≡ true
  covered_marked c e t ok (inl black) = black
  covered_marked c e t ok (inr (inl q)) = absurd (rw e at q)
  covered_marked c e t ok (inr (inr bad)) = cc

  live_marked :
      (d : Collector State)
      → IsTriColour g m roots d
      → d.queue ≡ []
      → (t : ℕ) → IsLive g roots t
      → is_marked d.marks t ≡ true
  live_marked d inv e t (root h ok) = covered_marked d e t ok (inv.root t h)
  live_marked d inv e t (by_strong {o} live h ok) =
      covered_marked d e t ok (inv.strong o t (live_marked d inv e o live) h)
  live_marked d inv e t (by_contingent {o} {c} live h live_c ok) =
      by_control (live_marked d inv e c live_c)
        (inv.controlled o c t (live_marked d inv e o live) h)
    where
      by_control : is_marked d.marks c ≡ true → IsCoveredBy g m d c t → is_marked d.marks t ≡ true
      by_control black (inl cov) = covered_marked d e t ok cov
      by_control black (inr (white, w)) = cc

  -- Let nothing be marked, the map of contingent pointers be empty and the queue hold the roots.
  -- With more fuel than the work at hand, `empty_collector_stack` ends with an empty queue, and the
  -- marked objects are then exactly the live ones: those that the roots reach by strong pointers and
  -- by contingent pointers whose control is live.
  pub empty_collector_stack-IsLive :
      (fuel : ℕ) (c : Collector State)
      → IsStart c
      → work g m c < fuel
      → (r : Bool × Collector State) × (empty_collector_stack g m fuel false c ≡ some r)
        × (r.1.queue ≡ [])
        × ((t : ℕ) → (is_marked r.1.marks t ≡ true) ↔ IsLive g roots t)
  empty_collector_stack-IsLive fuel c start enough =
      let (r, e, none_left) = empty_collector_stack_ends g m fuel false c enough in
      let (inv, empty) =
        empty_collector_stack-IsTracing fuel false r.0 c r.1 (IsStart-IsTracing c start) e in
      (r, e, empty, (λ t. (inv.1.marked t, live_marked r.1 inv.0 empty t)))
