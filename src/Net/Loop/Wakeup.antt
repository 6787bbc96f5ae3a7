-- ===== src/Net/Loop/Wakeup.antt =====
-- Whether a functor that is queued while the loop waits wakes it.
use reactor_server.Prelude.{
  ℕ, ◌<◌, ◌≡◌, ◌≢◌, refl, ◌∙◌, true, false, List, [], arith, Bool-cases, inl, inr,
}
use reactor_server.Net.Loop.{
  Eventfd, EventLoop, queue_in_loop, wakeup, handle_read, take_pending, finish_pending,
}
use reactor_server.Net.Loop.Schedule.{
  Phase, polling, handling, draining, State, Step, queue_other, queue_own, wake, read_eventfd, swap,
  call, finish, Steps, stay, step,
}

-- What the loop promises: while it calls functors the flag says so, and unless it is about to take
-- the pending functors, the eventfd is readable if there are any.
abbrev pub Promised : {Task : Type 0} → Phase Task → EventLoop Task → Type 0
Promised polling l = (l.calling_pending_functor ≡ false) × (l.pending_functor ≢ [] → 0 < l.counter)
Promised handling l = l.calling_pending_functor ≡ false
Promised (draining ts) l =
    (l.calling_pending_functor ≡ true) × (l.pending_functor ≢ [] → 0 < l.counter)

module _ {Task : Type 0} (eventfd : Eventfd) (short : (n c : ℕ) → n < 8 → eventfd.write_to n c ≡ c)
    (short_read : (n c : ℕ) → n < 8 → eventfd.read_from n c ≡ c) where
  silent :
      {s u : State Task} {q c : List Task} → Step eventfd s q c u → u.loop.counter ≡ s.loop.counter
  unfolding handle_read take_pending finish_pending queue_in_loop wakeup
  silent (queue_other {l = l} t) = short 4 l.counter (omega arith)
  silent (queue_own {l = l} t may) = elim (Bool-cases l.calling_pending_functor) [
    | inl e ↦ rw e (short 4 l.counter (omega arith))
    | inr e ↦ rw e
  ]
  silent wake = refl
  silent (read_eventfd {l = l}) = short_read 4 l.counter (omega arith)
  silent swap = refl
  silent call = refl
  silent finish = refl

  -- If an eventfd refuses reads and writes of less than eight bytes, the four bytes that wakeup
  -- writes and handleRead reads never change its counter, whatever the threads do: nothing that
  -- queueInLoop does makes it readable.
  pub wakeup-silent :
      {s u : State Task} {q c : List Task} → Steps eventfd s q c u → u.loop.counter ≡ s.loop.counter
  wakeup-silent stay = refl
  wakeup-silent (step steps last) = silent last ∙ wakeup-silent steps
