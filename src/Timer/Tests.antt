-- ===== src/Timer/Tests.antt =====
-- Runs of the time heap at concrete inputs.
use reactor_server.Prelude.{zero, suc, refl, [], ◌∷◌, none, some, arith, Returns}
use reactor_server.Prelude.Int.{pos}
use reactor_server.Timer.{Timer, TimerHeap, add_timer, pop, tick}
use reactor_server.Timer.Slots.{slots}
use reactor_server.Timer.Order.{IsHeap}
use reactor_server.Timer.Heap.{Holds}
use reactor_server.Timer.Heap.Insert.{Added, add_timer-Added}
use reactor_server.Timer.Heap.Remove.{Popped, pop-Popped}
use reactor_server.Timer.Expiry.{Ticked, tick-Ticked}

abbrev early : Timer
early = record { args = 1; expire = pos 3; cb_func = some 8 }

abbrev late : Timer
late = record { args = 2; expire = pos 7; cb_func = none }

abbrev two_timers : TimerHeap
two_timers = record {
  array = some early ∷ some late ∷ none ∷ [];
  capacity = 3;
  cur_size = 2;
  deleted = [];
}

two_timers-IsHeap : IsHeap (early ∷ late ∷ [])
two_timers-IsHeap zero p q r = absurd (omega arith)
two_timers-IsHeap (suc zero) p q r = ground arith
two_timers-IsHeap (suc (suc c)) p q r = absurd (omega arith)

two_timers-Holds : Holds (early ∷ late ∷ []) two_timers
unfolding slots
two_timers-Holds = record {
  spare = none ∷ [];
  array_is = refl;
  size_is = refl;
  capacity_is = refl;
  ordered = two_timers-IsHeap;
}

tick-Ticked_example :
    Returns (Ticked (early ∷ late ∷ []) two_timers (pos 5) []) (tick two_timers (pos 5))
tick-Ticked_example =
    tick-Ticked (early ∷ late ∷ []) two_timers (pos 5) two_timers-Holds (omega arith)

add_timer-Added_example :
    Returns
      (Added (record { args = 3; expire = pos 1; cb_func = none }) (early ∷ late ∷ []) two_timers)
      (add_timer two_timers (some (record { args = 3; expire = pos 1; cb_func = none })))
add_timer-Added_example =
    add_timer-Added (early ∷ late ∷ []) two_timers
      (record { args = 3; expire = pos 1; cb_func = none }) two_timers-Holds (omega arith)

pop-Popped_example : Returns (Popped (early ∷ late ∷ []) two_timers) (pop two_timers)
pop-Popped_example = pop-Popped (early ∷ late ∷ []) two_timers two_timers-Holds (omega arith)
