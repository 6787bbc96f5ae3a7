-- ===== src/Net/Loop/Fifo.antt =====
-- Functors are called in the order in which they were queued, and each once.
use reactor_server.Prelude.{
  ◌≡◌, refl, sym, ap, ◌∙◌, Bool, true, false, List, [], ◌∷◌, ◌++◌, append_assoc, append-nil,
  Bool-cases, inl, inr, not, ◌||◌,
}
use reactor_server.Net.Loop.{
  Eventfd, EventLoop, queue_in_loop, wakeup, handle_read, take_pending, finish_pending,
}
use reactor_server.Net.Loop.Schedule.{
  Phase, draining, State, Step, queue_other, queue_own, wake, read_eventfd, swap, call, finish,
  Steps, stay, step,
}

-- The functors not called yet.
abbrev pub rest : {Task : Type 0} → Phase Task → List Task
rest (draining ts) = ts
rest _ = []

abbrev pub held : {Task : Type 0} → State Task → List Task
held s = rest s.phase ++ s.loop.pending_functor

module _ {Task : Type 0} (eventfd : Eventfd) where
  queue-pending :
      (own : Bool) (t : Task) (l : EventLoop Task)
      → (queue_in_loop eventfd own t l).pending_functor ≡ l.pending_functor ++ t ∷ []
  unfolding queue_in_loop wakeup
  queue-pending own t l = elim (Bool-cases (not own || l.calling_pending_functor)) [
    | inl e ↦ rw e
    | inr e ↦ rw e
  ]

  one :
      {s u : State Task} {queued called : List Task}
      → Step eventfd s queued called u
      → held s ++ queued ≡ called ++ held u
  unfolding handle_read take_pending finish_pending
  one (queue_other {l = l} {ph = ph} t) =
      append_assoc (rest ph) l.pending_functor (t ∷ [])
      ∙ ap (◌++◌ (rest ph)) (sym (queue-pending false t l))
  one (queue_own {l = l} {ph = ph} t may) =
      append_assoc (rest ph) l.pending_functor (t ∷ [])
      ∙ ap (◌++◌ (rest ph)) (sym (queue-pending true t l))
  one wake = append-nil _
  one read_eventfd = append-nil _
  one swap = refl
  one call = append-nil _
  one finish = append-nil _

  -- Whatever the loop's thread and the other threads do and in whatever order, the functors that
  -- were held or queued are those that were called, followed by those still held, in the same
  -- order: functors are called first in, first out, none twice, and none is dropped.
  pub called-in_order :
      {s u : State Task} {queued called : List Task}
      → Steps eventfd s queued called u
      → held s ++ queued ≡ called ++ held u
  called-in_order stay = append-nil _
  called-in_order
        (step {s = s} {t = m} {u = u} {queued = q} {called = c} {queued' = q'} {called' = c'} steps
          last) =
      sym (append_assoc (held s) q q')
      ∙ ap (λ x. x ++ q') (called-in_order steps)
      ∙ append_assoc c (held m) q'
      ∙ ap (◌++◌ c) (one last)
      ∙ sym (append_assoc c c' (held u))
