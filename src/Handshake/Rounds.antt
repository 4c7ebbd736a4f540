-- ===== src/Handshake/Rounds.antt =====
-- A handshake: the collector signals all threads and waits for their answers.
use mpgc.Prelude.{
  ◌≡◌, refl, ap, ◌∙◌, Option, some, Bool, true, false, if◌then◌else◌, ◌>>=◌, Bool-cases, inl, inr,
  List, ==_iff, [], ◌∷◌,
}
use mpgc.Handshake.Defs.{
  Signum, sig_sync1, sig_sync2, sig_async, sig_init, is_signum, GcStatus, ThreadStruct, Words,
  Stack, hdl_sync, hdl_async, signal_hdl, process_stack, post_handshake, post_weak, wait_handshake,
  is_answered,
}
use mpgc.Handshake.Deferral.{IsMarkSignal, sync1, sync2, async}

-- The thread is in no section that puts signals off, has left its first status, and uses the free
-- list of its process.
pub record IsReady (process : GcStatus) (t : ThreadStruct) : Type 0 where
  pub enabled : t.mark_signal_disabled ≡ false
  pub started : is_signum t.status_idx.status sig_init ≡ false
  pub same_index : t.status_idx.index ≡ process.index

abbrev pub AllReady : GcStatus → List (Stack × ThreadStruct) → Type 0
AllReady process [] = Unit
AllReady process ((s, t) ∷ ts) = (t.live ≡ true → IsReady process t) × AllReady process ts

if-true : {A : Type 0} (b : Bool) (x y : A) → b ≡ true → (if b then x else y) ≡ x
if-true b x y e = rw e refl

module _ (w : Words) (process : GcStatus) where
  -- The handler succeeds, and the thread then has the status that the signal asks for.
  pub record IsAnswer (sig : Signum) (o : Option ThreadStruct) : Type 0 where
    pub thread : ThreadStruct
    pub succeeds : o ≡ some thread
    pub has_status : is_signum thread.status_idx.status sig ≡ true

  signal_hdl-IsAnswer :
      (sig : Signum) (s : Stack) (t : ThreadStruct)
      → IsMarkSignal sig
      → IsReady process t
      → IsAnswer sig (signal_hdl w process sig s t)
  unfolding signal_hdl hdl_sync hdl_async
  signal_hdl-IsAnswer _ s t sync1 h = record {
    thread = record t { status_idx = record { status = sig_sync1; index = t.status_idx.index } };
    succeeds =
        simp (h.enabled, h.started, (==_iff t.status_idx.index process.index).1 h.same_index) refl;
    has_status = refl;
  }
  signal_hdl-IsAnswer _ s t sync2 h = record {
    thread = record t { status_idx = record { status = sig_sync2; index = t.status_idx.index } };
    succeeds =
        simp (h.enabled, h.started, (==_iff t.status_idx.index process.index).1 h.same_index) refl;
    has_status = refl;
  }
  signal_hdl-IsAnswer _ s t async h = elim (Bool-cases (is_signum t.status_idx.status sig_async)) [
    | inl now ↦ record { thread = t; succeeds = simp now refl; has_status = now }
    | inr later ↦
        let t1 : ThreadStruct = process_stack w s.start s.words 0 t in
        record {
          thread = record t1 {
            status_idx = record { status = sig_async; index = t1.status_idx.index };
          };
          succeeds =
              simp
                (
                  later,
                  h.enabled,
                  h.started,
                  (==_iff t.status_idx.index process.index).1 h.same_index,
                )
                refl;
          has_status = refl;
        }
  ]

  post_weak-false : (t : ThreadStruct) → post_weak false t ≡ t
  unfolding post_weak
  post_weak-false t = refl

  has_status-is_answered :
      (sig : Signum) (t : ThreadStruct)
      → is_signum t.status_idx.status sig ≡ true
      → is_answered sig false t ≡ true
  unfolding is_answered
  has_status-is_answered sig t e = elim (Bool-cases (t.live)) [
    | inl is_live ↦ rw (is_live, e) refl
    | inr is_dead ↦ rw is_dead refl
  ]

  dead-is_answered :
      (sig : Signum) (t : ThreadStruct) → t.live ≡ false → is_answered sig false t ≡ true
  unfolding is_answered
  dead-is_answered sig t e = rw e refl

  -- A thread that is signalled answers, and one that is dead is not waited for.
  posted :
      (sig : Signum) (s : Stack) (t : ThreadStruct)
      → IsMarkSignal sig
      → (t.live ≡ true → IsReady process t)
      → (t' : ThreadStruct) × ((if t.live
            then signal_hdl w process sig s (post_weak false t)
            else some t)
          ≡ some t')
        × (is_answered sig false t' ≡ true)
  posted sig s t m h = elim (Bool-cases (t.live)) [
    | inl is_live ↦
        let a = signal_hdl-IsAnswer sig s t m (h is_live) in
        (
          a.thread,
          if-true t.live _ _ is_live
              ∙ ap (signal_hdl w process sig s) (post_weak-false t)
              ∙ a.succeeds,
          has_status-is_answered sig a.thread a.has_status,
        )
    | inr is_dead ↦ (t, rw is_dead refl, dead-is_answered sig t is_dead)
  ]

  answers :
      (sig : Signum) (ts : List (Stack × ThreadStruct))
      → IsMarkSignal sig
      → AllReady process ts
      → (ts' : List ThreadStruct) × (post_handshake w process sig false ts ≡ some ts')
        × (wait_handshake sig false ts' ≡ true)
  unfolding post_handshake wait_handshake
  answers sig [] m h = ([], refl, refl)
  answers sig ((s, t) ∷ ts) m h =
      let p = posted sig s t m h.0 in
      let a = answers sig ts m h.1 in (p.0 ∷ a.0, rw (p.1, a.1) refl, rw (p.2, a.2) refl)

  -- Let each thread that is not dead be in no section that puts signals off, have left its first
  -- status, and use the free list of its process. Then a handshake for a phase of the
  -- marking, without the check for weak barriers, succeeds, and its wait ends.
  pub wait_handshake-post_handshake :
      (sig : Signum) (ts : List (Stack × ThreadStruct))
      → IsMarkSignal sig
      → AllReady process ts
      → (post_handshake w process sig false ts >>= λ ts'. some (wait_handshake sig false ts'))
        ≡ some true
  wait_handshake-post_handshake sig ts m h = let a = answers sig ts m h in rw (a.1, a.2) refl
