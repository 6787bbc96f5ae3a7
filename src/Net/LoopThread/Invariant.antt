-- ===== src/Net/LoopThread/Invariant.antt =====
-- What holds of the two threads of startLoop and threadFunc, wherever they stand.
use reactor_server.Prelude.{
  ℕ, ◌<◌, ◌≡◌, refl, Bool, true, false, not, ◌&&◌, Option, none, some, if◌then◌else◌,
}
use reactor_server.Prelude.Int.{pos, leb_ℤ}
use reactor_server.Net.LoopThread.{
  Caller, idle, at_latch, at_lock, sleeping, leaving, returned, Worker, absent, fresh, preparing,
  looping, ended, EventLoopThread, new, notified, after_look,
}

abbrev pub has_value : Option ℕ → Bool
has_value none = false
has_value (some n) = true

-- Whether the thread has been created, has counted the latch down, and has given out its loop.
abbrev pub created : Worker → Bool
created absent = false
created _ = true

abbrev pub counted : Worker → Bool
counted absent = false
counted fresh = false
counted _ = true

abbrev pub given : Worker → Bool
given looping = true
given ended = true
given _ = false

abbrev pub in_loop : Worker → Bool
in_loop looping = true
in_loop _ = false

-- The caller has not called startLoop, has seen the loop, or what it returned.
abbrev pub is_idle : Caller → Bool
is_idle idle = true
is_idle _ = false

abbrev pub waits_latch : Caller → Bool
waits_latch at_latch = true
waits_latch _ = false

abbrev pub is_asleep : Caller → Bool
is_asleep sleeping = true
is_asleep _ = false

abbrev pub has_left : Caller → Bool
has_left leaving = true
has_left (returned loop) = true
has_left _ = false

-- What the caller returned is the loop, as long as it runs.
abbrev pub Gave : Caller → Worker → Option ℕ → Type 0
Gave (returned r) looping loop = r ≡ loop
Gave _ _ loop = Unit {0}

pub record IsSound (t : EventLoopThread) : Type 0 where
  pub started_is : t.thread.started ≡ created t.worker
  pub count_is : t.thread.latch.count ≡ (if counted t.worker then pos 0 else pos 1)
  pub tid_is : counted t.worker ≡ true → 0 < t.thread.tid
  pub loop_is : has_value t.loop ≡ in_loop t.worker
  pub called_is : t.called ≡ given t.worker && t.thread_cb
  pub unused : is_idle t.caller ≡ true → created t.worker ≡ false
  pub latched : waits_latch t.caller ≡ true → created t.worker ≡ true
  pub latch_sleeper : t.thread.latch.sleeps ≡ true → counted t.worker ≡ false
  pub sleeper : is_asleep t.caller ≡ true → in_loop t.worker ≡ false
  pub left : has_left t.caller ≡ true → given t.worker ≡ true
  pub gave : Gave t.caller t.worker t.loop

pub new-IsSound : (thread_cb : Bool) → IsSound (new thread_cb)
new-IsSound thread_cb = record {
  started_is = refl;
  count_is = refl;
  tid_is = λ e. cc;
  loop_is = refl;
  called_is = refl;
  unused = λ e. refl;
  latched = λ e. cc;
  latch_sleeper = λ e. cc;
  sleeper = λ e. refl;
  left = λ e. cc;
  gave = tt;
}

-- The places of the two threads that follow from one another.
pub absent_lem : (w : Worker) → created w ≡ false → w ≡ absent
absent_lem absent e = refl
absent_lem fresh e = cc
absent_lem preparing e = cc
absent_lem looping e = cc
absent_lem ended e = cc

pub given_lem : (w : Worker) → in_loop w ≡ true → given w ≡ true
given_lem looping e = refl
given_lem absent e = cc
given_lem fresh e = cc
given_lem preparing e = cc
given_lem ended e = cc

pub Gave-outside : (c : Caller) (w : Worker) (loop : Option ℕ) → in_loop w ≡ false → Gave c w loop
Gave-outside (returned r) looping loop e = cc
Gave-outside (returned r) absent loop e = tt
Gave-outside (returned r) fresh loop e = tt
Gave-outside (returned r) preparing loop e = tt
Gave-outside (returned r) ended loop e = tt
Gave-outside idle w loop e = tt
Gave-outside at_latch w loop e = tt
Gave-outside at_lock w loop e = tt
Gave-outside sleeping w loop e = tt
Gave-outside leaving w loop e = tt

pub Gave-return : (w : Worker) (loop : Option ℕ) → Gave (returned loop) w loop
Gave-return looping loop = refl
Gave-return absent loop = tt
Gave-return fresh loop = tt
Gave-return preparing loop = tt
Gave-return ended loop = tt

-- What `notify` and a look at the loop make of the caller.
pub notified_lem :
    (c : Caller) (w : Worker) (loop : Option ℕ)
    → has_left c ≡ false
    → (is_idle (notified c) ≡ is_idle c)
      × (is_asleep (notified c) ≡ false)
      × Gave (notified c) w loop
notified_lem idle w loop e = (refl, refl, tt)
notified_lem at_latch w loop e = (refl, refl, tt)
notified_lem at_lock w loop e = (refl, refl, tt)
notified_lem sleeping w loop e = (refl, refl, tt)
notified_lem leaving w loop e = cc
notified_lem (returned r) w loop e = cc

pub after_look_lem :
    (o : Option ℕ) (w : Worker)
    → (is_idle (after_look o) ≡ false)
      × (waits_latch (after_look o) ≡ false)
      × (is_asleep (after_look o) ≡ not (has_value o))
      × (has_left (after_look o) ≡ has_value o)
      × Gave (after_look o) w o
after_look_lem none w = (refl, refl, refl, refl, tt)
after_look_lem (some loop) w = (refl, refl, refl, refl, tt)

-- Whether the latch is closed, by whether it was counted down.
pub closed_lem : (b : Bool) → not (leb_ℤ (if b then pos 0 else pos 1) (pos 0)) ≡ not b
closed_lem true = refl
closed_lem false = refl
