-- ===== src/Timer/Heap.antt =====
-- What a well-formed time heap holds, and what each method does to it.
pub mod Build
pub mod Insert
pub mod Remove
use reactor_server.Prelude.{ℕ, ◌+◌, ◌≤◌, ◌≡◌, List, Option, Perm, length, length-append, arith}
use reactor_server.Timer.{Timer, TimerHeap}
use reactor_server.Timer.Slots.{slots, length-slots}
use reactor_server.Timer.Order.{IsHeap}

-- The heap is well formed and its timers are `ts`, in the order of the array.
pub record Holds (ts : List Timer) (h : TimerHeap) : Type 0 where
  pub spare : List (Option Timer)
  pub array_is : h.array ≡ slots ts spare
  pub size_is : h.cur_size ≡ length ts
  pub capacity_is : h.capacity ≡ length ts + length spare
  pub ordered : IsHeap ts

-- The same, with the timers known up to their order.
pub record Contains (ts : List Timer) (h : TimerHeap) : Type 0 where
  pub held : List Timer
  pub holds : Holds held h
  pub perm : Perm held ts
