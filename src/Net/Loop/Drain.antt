-- ===== src/Net/Loop/Drain.antt =====
-- doPendingFunctors, on functors that queue functors, is a run of the schedule.
use reactor_server.Prelude.{
  refl, sym, subst, true, List, [], ◌∷◌, ◌++◌, append_assoc, append-nil, Run, ok, Returns, returns,
  Returns-bind,
}
use reactor_server.Net.Loop.{
  Eventfd, EventLoop, queue_in_loop, take_pending, finish_pending, call_all, do_pending_functors,
}
use reactor_server.Net.Loop.Schedule.{
  polling, handling, draining, State, at, queue_own, swap, call, finish, Steps, stay, step,
}

module _ {Task : Type 0} (eventfd : Eventfd) (spawned : Task → List Task) where
  -- A functor that queues those that it spawns, from the loop's thread.
  abbrev pub queue_all : List Task → EventLoop Task → EventLoop Task
  queue_all [] l = l
  queue_all (t ∷ ts) l = queue_all ts (queue_in_loop eventfd true t l)

  abbrev pub run_task : Task → EventLoop Task → Run (EventLoop Task)
  run_task t l = ok (queue_all (spawned t) l)

  abbrev pub all_spawned : List Task → List Task
  all_spawned [] = []
  all_spawned (t ∷ ts) = spawned t ++ all_spawned ts

  abbrev Reach : State Task → List Task → List Task → State Task → Type 0
  Reach = Steps eventfd

  queue_all-Steps :
      (ts rest queued called : List Task) (s : State Task) (l : EventLoop Task)
      → Reach s queued called (at l (draining rest))
      → Reach s (queued ++ ts) called (at (queue_all ts l) (draining rest))
  queue_all-Steps [] rest queued called s l r =
      subst (λ q. Reach s q called (at l (draining rest))) (sym (append-nil queued)) r
  queue_all-Steps (t ∷ ts) rest queued called s l r =
      subst (λ q. Reach s q called (at (queue_all (t ∷ ts) l) (draining rest)))
        (append_assoc queued (t ∷ []) ts)
        (queue_all-Steps ts rest (queued ++ t ∷ []) called s (queue_in_loop eventfd true t l) (
          subst
            (λ c.
              Reach s (queued ++ t ∷ []) c (at (queue_in_loop eventfd true t l) (draining rest)))
            (append-nil called) (step r (queue_own t refl))))

  call_all-Steps :
      (ts queued called : List Task) (s : State Task) (l : EventLoop Task)
      → Reach s queued called (at l (draining ts))
      → Returns
          (λ l'. Reach s (queued ++ all_spawned ts) (called ++ ts) (at l' (draining [])))
          (call_all run_task ts l)
  unfolding call_all
  call_all-Steps [] queued called s l r = rw (append-nil queued, append-nil called) (returns r)
  call_all-Steps (t ∷ ts) queued called s l r =
      subst
        (λ q.
          Returns (λ l'. Reach s q (called ++ t ∷ ts) (at l' (draining [])))
            (call_all run_task ts (queue_all (spawned t) l)))
        (append_assoc queued (spawned t) (all_spawned ts))
        (subst
          (λ c.
            Returns
              (λ l'. Reach s ((queued ++ spawned t) ++ all_spawned ts) c (at l' (draining [])))
              (call_all run_task ts (queue_all (spawned t) l)))
          (append_assoc called (t ∷ []) ts)
          (call_all-Steps ts (queued ++ spawned t) (called ++ t ∷ []) s (queue_all (spawned t) l) (
            queue_all-Steps (spawned t) ts queued (called ++ t ∷ []) s l (
              subst (λ q. Reach s q (called ++ t ∷ []) (at l (draining ts))) (append-nil queued)
                (step r call)))))

  -- doPendingFunctors, where each functor queues others from the loop's thread, returns, and what
  -- it did is a run of the schedule from handling events to waiting in poll: it called the functors
  -- that were pending, in order, and queued those that they spawned, in order.
  pub do_pending_functors-Steps :
      (l : EventLoop Task)
      → Returns
          (λ l'.
            Steps eventfd
              (at l handling)
              (all_spawned l.pending_functor)
              l.pending_functor
              (at l' polling))
          (do_pending_functors run_task l)
  unfolding do_pending_functors
  do_pending_functors-Steps l =
      Returns-bind
        (call_all-Steps l.pending_functor [] [] (at l handling) (take_pending l) (step stay swap))
        (λ l' r. returns (
          subst
            (λ q.
              Steps eventfd (at l handling) q l.pending_functor (at (finish_pending l') polling))
            (append-nil _)
            (subst
              (λ c.
                Steps eventfd (at l handling) (all_spawned l.pending_functor ++ []) c
                  (at (finish_pending l') polling))
              (append-nil _) (step r finish))))
