-- ===== src/Net/LoopThread/Handshake.antt =====
-- The steps of the thread that is created, and what holds in every state that is reached.
use reactor_server.Prelude.{
  ℕ, ◌<◌, ◌≡◌, ◌≢◌, ◌⊎◌, inl, inr, refl, sym, ap, ◌∙◌, subst, Bool, true, false, ◌&&◌, ◌||◌, Option,
  none, some, arith, Returns-value,
}
use reactor_server.Prelude.Int.{pos}
use reactor_server.Net.LoopThread.{
  pred, is_zero, count_down, returned, Worker, absent, fresh, preparing, looping, ended,
  EventLoopThread, new, run_in_thread, publish, end_loop, Step, starts, passes, runs, publishes,
  looks, returns_loop, ends, wakes_latch, wakes, Steps, stay, step,
}
use reactor_server.Net.LoopThread.Invariant.{
  has_value, created, counted, given, in_loop, waits_latch, is_asleep, has_left, Gave, IsSound,
  new-IsSound, Gave-outside, notified_lem,
}
use reactor_server.Net.LoopThread.Calls.{
  count_at, called_at, starts-IsSound, passes-IsSound, looks-IsSound, returns_loop-IsSound,
  wakes-IsSound, wakes_latch-IsSound,
}

module _ (t : EventLoopThread) (s : IsSound t) where
  runs-IsSound : (tid : ℕ) → 0 < tid → t.worker ≡ fresh → IsSound (run_in_thread tid t)
  unfolding run_in_thread count_down
  runs-IsSound tid h e =
      let count : pred t.thread.latch.count ≡ pos 0 = ap pred (count_at t s fresh e) in
      record {
        started_is = s.started_is ∙ ap created e;
        count_is = count;
        tid_is = λ g. h;
        loop_is = s.loop_is ∙ ap in_loop e;
        called_is = called_at t s fresh e;
        unused = λ g. sym (ap created e) ∙ s.unused g;
        latched = λ g. refl;
        latch_sleeper = λ g. absurd (ground (arith, g, ap is_zero count));
        sleeper = λ g. refl;
        left = λ g. sym (ap given e) ∙ s.left g;
        gave = Gave-outside t.caller preparing t.loop refl;
      }

  publishes-IsSound : (loop : ℕ) → t.worker ≡ preparing → IsSound (publish loop t)
  unfolding publish
  publishes-IsSound loop e =
      let inside : has_left t.caller ≡ false = ground (arith, s.left, ap given e) in
      let n = notified_lem t.caller looping (some loop) inside in
      record {
        started_is = s.started_is ∙ ap created e;
        count_is = count_at t s preparing e;
        tid_is = λ g. s.tid_is (ap counted e);
        loop_is = refl;
        called_is = refl;
        unused = λ g. sym (ap created e) ∙ s.unused (sym n.0 ∙ g);
        latched = λ g. refl;
        latch_sleeper = λ g. sym (ap counted e) ∙ s.latch_sleeper g;
        sleeper = λ g. sym g ∙ n.1;
        left = λ g. refl;
        gave = n.2;
      }

  ends-IsSound : t.worker ≡ looping → IsSound (end_loop t)
  unfolding end_loop
  ends-IsSound e = record {
    started_is = s.started_is ∙ ap created e;
    count_is = count_at t s looping e;
    tid_is = λ g. s.tid_is (ap counted e);
    loop_is = refl;
    called_is = called_at t s looping e;
    unused = λ g. sym (ap created e) ∙ s.unused g;
    latched = λ g. refl;
    latch_sleeper = λ g. sym (ap counted e) ∙ s.latch_sleeper g;
    sleeper = λ g. refl;
    left = λ g. refl;
    gave = Gave-outside t.caller ended none refl;
  }

Step-IsSound : {t u : EventLoopThread} → IsSound t → Step t u → IsSound u
Step-IsSound s (starts b u e f) = Returns-value u (starts-IsSound _ s b e) f
Step-IsSound s (passes u e awake f) = Returns-value u (passes-IsSound _ s e) f
Step-IsSound s (runs tid h e) = runs-IsSound _ s tid h e
Step-IsSound s (publishes loop e) = publishes-IsSound _ s loop e
Step-IsSound s (looks e) = looks-IsSound _ s
Step-IsSound s (returns_loop e) = returns_loop-IsSound _ s e
Step-IsSound s (ends e) = ends-IsSound _ s e
Step-IsSound s (wakes_latch e) = wakes_latch-IsSound _ s
Step-IsSound s (wakes e) = wakes-IsSound _ s

Steps-IsSound : {thread_cb : Bool} {t : EventLoopThread} → Steps (new thread_cb) t → IsSound t
Steps-IsSound {thread_cb} stay = new-IsSound thread_cb
Steps-IsSound (step before last) = Step-IsSound (Steps-IsSound before) last

has_value_lem : (o : Option ℕ) → has_value o ≡ true → (n : ℕ) × (o ≡ some n)
has_value_lem none e = cc
has_value_lem (some n) e = (n, refl)

-- In every state that the two threads of a new EventLoopThread reach, where startLoop has returned
-- and the thread still runs its loop, what startLoop returned is the address of that loop, which is
-- not null, and the callback was called if there is one.
pub start_loop-looping :
    (thread_cb : Bool) (t : EventLoopThread) (r : Option ℕ)
    → Steps (new thread_cb) t
    → t.caller ≡ returned r
    → t.worker ≡ looping
    → (loop : ℕ) × (r ≡ some loop) × (t.loop ≡ some loop) × (t.called ≡ t.thread_cb)
start_loop-looping thread_cb t r run e f =
    let s = Steps-IsSound run in
    let (loop, is) = has_value_lem t.loop (s.loop_is ∙ ap in_loop f) in
    let same : r ≡ t.loop =
      subst (λ c. Gave c looping t.loop) e (subst (λ w. Gave t.caller w t.loop) f s.gave) in
    (loop, same ∙ is, is, called_at t s looping f)

-- The caller sleeps on the latch or on the condition.
abbrev pub is_waiting : EventLoopThread → Bool
is_waiting t = is_asleep t.caller || (waits_latch t.caller && t.thread.latch.sleeps)

early :
    (w : Worker) → created w ≡ true → in_loop w ≡ false → w ≢ ended → (w ≡ fresh) ⊎ (w ≡ preparing)
early absent c i e = cc
early fresh c i e = inl refl
early preparing c i e = inr refl
early looping c i e = cc
early ended c i e = absurd (e refl)

counted_lem : (w : Worker) → counted w ≡ false → in_loop w ≡ false
counted_lem absent e = refl
counted_lem fresh e = refl
counted_lem preparing e = refl
counted_lem looping e = cc
counted_lem ended e = refl

-- Whether the thread that is to come gives the caller back its turn.
abbrev pub Wakes : EventLoopThread → Type 0
Wakes t =
    ((t.worker ≡ fresh) × ((tid : ℕ) → (run_in_thread tid t).thread.latch.sleeps ≡ false))
    ⊎ ((t.worker ≡ preparing) × ((loop : ℕ) → is_waiting (publish loop t) ≡ false))

-- No wake-up of startLoop is lost: in every state that the two threads of a new EventLoopThread
-- reach, where the thread was created and has not ended and the caller sleeps on the latch or on
-- the condition, the thread is in front of countDown, which wakes the latch, or in front of its
-- lock in threadFunc, behind which the caller does not sleep.
pub wait-Wakes :
    (thread_cb : Bool) (t : EventLoopThread)
    → Steps (new thread_cb) t
    → is_waiting t ≡ true
    → t.thread.started ≡ true
    → t.worker ≢ ended
    → Wakes t
unfolding run_in_thread count_down publish
wait-Wakes thread_cb t run w e f =
    let s = Steps-IsSound run in
    let inside : in_loop t.worker ≡ false =
      ground (arith, w, s.sleeper, s.latch_sleeper, counted_lem t.worker) in
    elim (early t.worker (sym s.started_is ∙ e) inside f) [
      | inl g ↦
          let zero_left = ap (λ n. is_zero (pred n)) (count_at t s fresh g) in
          inl (g, λ tid. rw zero_left refl)
      | inr g ↦
          let stays : has_left t.caller ≡ false = ground (arith, s.left, ap given g) in
          let awake : t.thread.latch.sleeps ≡ false =
            ground (arith, s.latch_sleeper, ap counted g) in
          let n = notified_lem t.caller preparing t.loop stays in
          inr (g, λ loop. ground (arith, n.1, awake))
    ]
