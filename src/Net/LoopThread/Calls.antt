-- ===== src/Net/LoopThread/Calls.antt =====
-- The steps of the thread that calls startLoop.
use reactor_server.Prelude.{
  ◌≡◌, refl, sym, ap, ◌∙◌, Bool, true, false, not, ◌&&◌, arith, ltb, if◌then◌else◌, Run, ok, assert,
  ◌>>◌, Returns, returns,
}
use reactor_server.Prelude.Int.{pos, leb_ℤ}
use reactor_server.Net.LoopThread.{
  wait, Caller, idle, at_latch, at_lock, leaving, Worker, absent, fresh, EventLoopThread, start,
  pass_latch, look, return_loop,
}
use reactor_server.Net.LoopThread.Invariant.{
  counted, given, in_loop, is_idle, has_left, IsSound, absent_lem, given_lem, Gave-return,
  after_look_lem, closed_lem,
}

module _ (t : EventLoopThread) (s : IsSound t) where
  -- The count, where the place of the thread is known.
  pub count_at :
      (w : Worker) → t.worker ≡ w → t.thread.latch.count ≡ (if counted w then pos 0 else pos 1)
  count_at w e = s.count_is ∙ ap (λ w. if counted w then pos 0 else pos 1) e

  pub called_at : (w : Worker) → t.worker ≡ w → t.called ≡ given w && t.thread_cb
  called_at w e = s.called_is ∙ ap (λ w. given w && t.thread_cb) e

  pub starts-IsSound : (b : Bool) → t.caller ≡ idle → Returns IsSound (start b t)
  unfolding start
  starts-IsSound true e =
      let unborn = s.unused (ap is_idle e) in
      let none_yet = absent_lem t.worker unborn in
      let sound : IsSound (record t {
        thread = record t.thread { started = true };
        caller = at_latch;
        worker = fresh;
      }) =
        record {
          started_is = refl;
          count_is = count_at absent none_yet;
          tid_is = λ h. cc;
          loop_is = s.loop_is ∙ ap in_loop none_yet;
          called_is = called_at absent none_yet;
          unused = λ h. cc;
          latched = λ h. refl;
          latch_sleeper = λ h. refl;
          sleeper = λ h. refl;
          left = λ h. cc;
          gave = tt;
        } in
      rw (s.started_is ∙ unborn) (returns sound)
  starts-IsSound false e =
      let unborn = s.unused (ap is_idle e) in
      let sound : IsSound
          (record t { thread = record t.thread { started = false }; caller = at_lock }) =
        record {
          started_is = sym unborn;
          count_is = s.count_is;
          tid_is = s.tid_is;
          loop_is = s.loop_is;
          called_is = s.called_is;
          unused = λ h. cc;
          latched = λ h. cc;
          latch_sleeper = s.latch_sleeper;
          sleeper = λ h. cc;
          left = λ h. cc;
          gave = tt;
        } in
      rw (s.started_is ∙ unborn) (returns sound)

  -- The state behind a look at the latch, on whether it was found closed.
  abbrev seen : Bool → Caller → EventLoopThread
  seen closed c = record t {
    thread = record t.thread { latch = record t.thread.latch { sleeps = closed } };
    caller = c;
  }

  seen-IsSound :
      (closed : Bool)
      → closed ≡ not (counted t.worker)
      → t.caller ≡ at_latch
      → IsSound (seen closed (if closed then t.caller else at_lock))
  seen-IsSound true e at = record {
    started_is = s.started_is;
    count_is = s.count_is;
    tid_is = s.tid_is;
    loop_is = s.loop_is;
    called_is = s.called_is;
    unused = s.unused;
    latched = s.latched;
    latch_sleeper = λ g. ground (arith, e);
    sleeper = s.sleeper;
    left = s.left;
    gave = s.gave;
  }
  seen-IsSound false e at = record {
    started_is = s.started_is;
    count_is = s.count_is;
    tid_is = s.tid_is;
    loop_is = s.loop_is;
    called_is = s.called_is;
    unused = λ g. cc;
    latched = λ g. cc;
    latch_sleeper = λ g. cc;
    sleeper = λ g. cc;
    left = λ g. cc;
    gave = tt;
  }

  -- What a look does, on what it finds and whether the assertion holds.
  abbrev round : Bool → Bool → Run EventLoopThread
  round closed holds =
      if closed then ok (seen closed t.caller) else assert holds >> ok (seen closed at_lock)

  round-IsSound :
      (closed holds : Bool)
      → closed ≡ not (counted t.worker)
      → (counted t.worker ≡ true → holds ≡ true)
      → t.caller ≡ at_latch
      → Returns IsSound (round closed holds)
  round-IsSound true holds e a at = returns (seen-IsSound true e at)
  round-IsSound false true e a at = returns (seen-IsSound false e at)
  round-IsSound false false e a at = absurd (ground (arith, e, a))

  pub passes-IsSound : t.caller ≡ at_latch → Returns IsSound (pass_latch t)
  unfolding pass_latch wait
  passes-IsSound e =
      round-IsSound (not (leb_ℤ t.thread.latch.count (pos 0))) (ltb 0 t.thread.tid)
        (ap (λ n. not (leb_ℤ n (pos 0))) s.count_is ∙ closed_lem (counted t.worker))
        (λ g. ground (arith, s.tid_is g)) e

  pub looks-IsSound : IsSound (look t)
  unfolding look
  looks-IsSound =
      let l = after_look_lem t.loop t.worker in
      record {
        started_is = s.started_is;
        count_is = s.count_is;
        tid_is = s.tid_is;
        loop_is = s.loop_is;
        called_is = s.called_is;
        unused = λ g. absurd (ground (arith, g, l.0));
        latched = λ g. absurd (ground (arith, g, l.1));
        latch_sleeper = s.latch_sleeper;
        sleeper = λ g. ground (arith, g, l.2, s.loop_is);
        left = λ g. given_lem t.worker (sym s.loop_is ∙ sym l.3 ∙ g);
        gave = l.4;
      }

  pub returns_loop-IsSound : t.caller ≡ leaving → IsSound (return_loop t)
  unfolding return_loop
  returns_loop-IsSound e = record {
    started_is = s.started_is;
    count_is = s.count_is;
    tid_is = s.tid_is;
    loop_is = s.loop_is;
    called_is = s.called_is;
    unused = λ g. cc;
    latched = λ g. cc;
    latch_sleeper = s.latch_sleeper;
    sleeper = λ g. cc;
    left = λ g. s.left (ap has_left e);
    gave = Gave-return t.worker t.loop;
  }

  pub wakes-IsSound : IsSound (record t { caller = at_lock })
  wakes-IsSound = record {
    started_is = s.started_is;
    count_is = s.count_is;
    tid_is = s.tid_is;
    loop_is = s.loop_is;
    called_is = s.called_is;
    unused = λ g. cc;
    latched = λ g. cc;
    latch_sleeper = s.latch_sleeper;
    sleeper = λ g. cc;
    left = λ g. cc;
    gave = tt;
  }

  pub wakes_latch-IsSound :
      IsSound
        (record t { thread = record t.thread { latch = record t.thread.latch { sleeps = false } } })
  wakes_latch-IsSound = record {
    started_is = s.started_is;
    count_is = s.count_is;
    tid_is = s.tid_is;
    loop_is = s.loop_is;
    called_is = s.called_is;
    unused = s.unused;
    latched = s.latched;
    latch_sleeper = λ g. cc;
    sleeper = s.sleeper;
    left = s.left;
    gave = s.gave;
  }
