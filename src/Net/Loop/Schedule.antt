-- ===== src/Net/Loop/Schedule.antt =====
-- The loop's thread and the threads that queue functors, one step at a time.
use reactor_server.Prelude.{Bool, true, false, List, [], ◌∷◌, ◌++◌, ◌≡◌}
use reactor_server.Net.Loop.{
  Eventfd, EventLoop, queue_in_loop, handle_read, take_pending, finish_pending,
}

-- Where the loop's thread is: it waits in poll, handles events, or calls the functors that are
-- left of those that it took.
pub data Phase (Task : Type 0) : Type 0 where
  polling handling : Phase Task
  draining : List Task → Phase Task

pub record State (Task : Type 0) : Type 0 where
  pub loop : EventLoop Task
  pub phase : Phase Task

abbrev pub at : {Task : Type 0} → EventLoop Task → Phase Task → State Task
at l phase = record { loop = l; phase = phase }

-- Whether the loop's thread may call queueInLoop itself.
abbrev pub runs_code : {Task : Type 0} → Phase Task → Bool
runs_code polling = false
runs_code _ = true

module _ {Task : Type 0} (eventfd : Eventfd) where
  -- A step, with the functors that it queues and those that it calls.
  pub data Step : State Task → List Task → List Task → State Task → Type 0 where
    queue_other :
        {l : EventLoop Task} {ph : Phase Task} (t : Task)
        → Step (at l ph) (t ∷ []) [] (at (queue_in_loop eventfd false t l) ph)
    queue_own :
        {l : EventLoop Task} {ph : Phase Task} (t : Task)
        → runs_code ph ≡ true
        → Step (at l ph) (t ∷ []) [] (at (queue_in_loop eventfd true t l) ph)
    wake : {l : EventLoop Task} → Step (at l polling) [] [] (at l handling)
    read_eventfd :
        {l : EventLoop Task} → Step (at l handling) [] [] (at (handle_read eventfd l) handling)
    swap :
        {l : EventLoop Task}
        → Step (at l handling) [] [] (at (take_pending l) (draining l.pending_functor))
    call :
        {l : EventLoop Task} {t : Task} {ts : List Task}
        → Step (at l (draining (t ∷ ts))) [] (t ∷ []) (at l (draining ts))
    finish : {l : EventLoop Task} → Step (at l (draining [])) [] [] (at (finish_pending l) polling)

  -- A run, with all that was queued and called, in order.
  pub data Steps : State Task → List Task → List Task → State Task → Type 0 where
    stay : {s : State Task} → Steps s [] [] s
    step :
        {s t u : State Task} {queued called queued' called' : List Task}
        → Steps s queued called t
        → Step t queued' called' u
        → Steps s (queued ++ queued') (called ++ called') u
