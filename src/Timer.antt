-- ===== src/Timer.antt =====
-- src/Timer.h and src/Timer.cc: the time heap, a binary min-heap of timers by `expire`.
-- A slot of `array` is a pointer: `none` is NULL. `deleted` records the timers that the heap has
-- freed, newest first. Capacities and sizes are not negative and `2 * capacity` stays an `int`.
-- Each method holds `mutex` for as long as it writes, so a call is one step.
pub mod Slots
pub mod Order
pub mod Down
pub mod Up
pub mod Copy
pub mod Heap
pub mod Expiry
mod Tests
use reactor_server.Prelude.{
  ℕ, zero, suc, ◌+◌, ◌-◌, ◌*◌, ◌/◌, Bool, List, [], ◌∷◌, ◌++◌, Option, none, some, ltb, leb, ◌==◌,
  if◌then◌else◌, replicate, Run, ok, throws, out_of_fuel, ◌>>=◌, or_fault,
}
use reactor_server.Prelude.Int.{ℤ, ltb_ℤ, leb_ℤ}
use reactor_server.Prelude.Arrays.{load, store}

pub record Timer : Type 0 where
  pub args : ℕ
  pub expire : ℤ
  pub cb_func : Option ℕ

-- `Timer(int delay)`; 0 is the null pointer.
pub new_timer : ℤ → Timer
new_timer delay = record { args = 0; expire = delay; cb_func = none }

pub record TimerHeap : Type 0 where
  pub array : List (Option Timer)
  pub capacity : ℕ
  pub cur_size : ℕ
  pub deleted : List Timer

-- `array[i]->...`: the timer that a slot points to.
pub deref : List (Option Timer) → ℕ → Run Timer
deref a i = do p ← load a i; or_fault p

-- `array[i]->expire < array[j]->expire`.
pub less : List (Option Timer) → ℕ → ℕ → Run Bool
less a i j = do s ← deref a i; t ← deref a j; ok (ltb_ℤ s.expire t.expire)

-- `std::swap(array[i], array[j])`.
pub swap_slots : List (Option Timer) → ℕ → ℕ → Run (List (Option Timer))
swap_slots a i j = do p ← load a i; q ← load a j; b ← store a i q; store b j p

-- The body of percolate_down's first `if`: the child of the smaller `expire`.
pub smaller_child : List (Option Timer) → ℕ → ℕ → Run ℕ
smaller_child a size child =
    if ltb (child + 1) size
    then (do smaller ← less a (child + 1) child; ok (if smaller then child + 1 else child))
    else ok child

-- The `for` of percolate_down; `child` is `hole * 2 + 1` whenever the test is made.
pub down_loop : ℕ → List (Option Timer) → ℕ → ℕ → Run (List (Option Timer))
down_loop zero a size hole = out_of_fuel
down_loop (suc fuel) a size hole =
    let round : Run (List (Option Timer)) = do
      child ← smaller_child a size (hole * 2 + 1)
      below ← less a child hole
      let sink = swap_slots a hole child >>= λ b. down_loop fuel b size child
      if below then sink else ok a
    in if ltb (hole * 2 + 1) size then round else ok a

-- `hole` grows with each round, so `size + 1` rounds are enough.
pub percolate_down : List (Option Timer) → ℕ → ℕ → Run (List (Option Timer))
percolate_down a size hole = down_loop (size + 1) a size hole

-- `for (int i = rounds - 1; i >= 0; --i) percolate_down(i);`
pub adjust : ℕ → List (Option Timer) → ℕ → Run (List (Option Timer))
adjust zero a size = ok a
adjust (suc i) a size = percolate_down a size i >>= λ b. adjust i b size

-- `for (i = from; i < from + rounds; ++i) to[i] = source[i];`
pub copy : ℕ → ℕ → List (Option Timer) → List (Option Timer) → Run (List (Option Timer))
copy zero from source to = ok to
copy (suc rounds) from source to = do
  p ← load source from
  b ← store to from p
  copy rounds (suc from) source b

-- `TimerHeap(int cap)`.
pub init : ℕ → TimerHeap
init cap = record { array = replicate cap none; capacity = cap; cur_size = 0; deleted = [] }

-- `TimerHeap(Timer **init_array, int size, int cap)`; `raw` is what the new array holds before it
-- is written to, one slot for each of `cap`.
pub init_with : List (Option Timer) → ℕ → ℕ → List (Option Timer) → Run TimerHeap
init_with init_array size cap raw =
    let filled : Run (List (Option Timer)) = do
      a ← copy size 0 init_array raw
      adjust (suc ((size - 1) / 2)) a size
    in let built : Run TimerHeap = do
      b ← if size == 0 then ok raw else filled
      ok (record { array = b; capacity = cap; cur_size = size; deleted = [] })
      in if ltb cap size then throws else built

-- The destructor frees the timers in the heap; a null slot frees nothing.
free_slots : ℕ → ℕ → List (Option Timer) → List Timer → Run (List Timer)
free_slots zero from a freed = ok freed
free_slots (suc rounds) from a freed = do
  p ← load a from
  free_slots rounds (suc from) a (elim p [ none ↦ freed | some t ↦ t ∷ freed ])

pub destroy : TimerHeap → Run (List Timer)
destroy h = free_slots h.cur_size 0 h.array h.deleted

pub resize : TimerHeap → Run TimerHeap
resize h = do
  let wider = 2 * h.capacity
  tmp ← copy h.cur_size 0 h.array (replicate wider none)
  ok (record h { array = tmp; capacity = wider })

-- The `for` of add_timer and the write behind it.
pub up_loop : ℕ → List (Option Timer) → Timer → ℕ → Run (List (Option Timer))
up_loop zero a timer hole = out_of_fuel
up_loop (suc fuel) a timer hole =
    let parent = (hole - 1) / 2 in
    let round : Run (List (Option Timer)) = do
      above ← deref a parent
      let rise : Run (List (Option Timer)) = do
        p ← load a parent
        b ← store a hole p
        up_loop fuel b timer parent
      if leb_ℤ above.expire timer.expire then store a hole (some timer) else rise
    in if ltb 0 hole then round else store a hole (some timer)

pub add_timer : TimerHeap → Option Timer → Run TimerHeap
add_timer h none = ok h
add_timer h (some timer) = do
  g ← if leb h.capacity h.cur_size then resize h else ok h
  b ← up_loop (g.cur_size + 1) g.array timer g.cur_size
  ok (record g { array = b; cur_size = g.cur_size + 1 })

-- del_timer leaves its timer where it is ("delay destroy") and orders the heap again.
pub del_timer : TimerHeap → Option Timer → Run TimerHeap
del_timer h none = ok h
del_timer h (some timer) = do
  b ← adjust (suc ((h.cur_size - 1) / 2)) h.array h.cur_size
  ok (record h { array = b })

pub empty : TimerHeap → Bool
empty h = h.cur_size == 0

-- The pointer that `top` returns.
pub top : TimerHeap → Run (Option Timer)
top h = if empty h then ok none else load h.array 0

-- `delete array[0]; array[0] = array[--cur_size]; percolate_down(0);`
pub remove_top : TimerHeap → Timer → Run TimerHeap
remove_top h t = do
  let last = h.cur_size - 1
  p ← load h.array last
  a ← store h.array 0 p
  b ← percolate_down a last 0
  ok (record h { array = b; cur_size = last; deleted = t ∷ h.deleted })

pub pop : TimerHeap → Run TimerHeap
pop h =
    let held : Run TimerHeap = do
      p ← load h.array 0
      elim p [ none ↦ ok h | some t ↦ remove_top h t ]
    in if empty h then ok h else held

-- The calls `cb_func(args)` that a timer's expiry makes.
pub fire : Timer → List (ℕ × ℕ)
fire t = elim t.cb_func [ none ↦ [] | some f ↦ (f, t.args) ∷ [] ]

-- The `while` of tick at the time `cur`. A callback does not call back into the heap; `fired`
-- collects the calls made, in order.
pub tick_loop : ℕ → TimerHeap → Option Timer → ℤ → List (ℕ × ℕ) → Run (TimerHeap × List (ℕ × ℕ))
tick_loop zero h tmp cur fired = out_of_fuel
tick_loop (suc fuel) h tmp cur fired =
    let due : Run (TimerHeap × List (ℕ × ℕ)) = do
      t ← deref h.array 0
      g ← pop h
      next ← load g.array 0
      tick_loop fuel g next cur (fired ++ fire t)
    in let test : Run (TimerHeap × List (ℕ × ℕ)) = elim tmp [
      | none ↦ ok (h, fired)
      | some t ↦ if ltb_ℤ cur t.expire then ok (h, fired) else due
    ] in
      if empty h then ok (h, fired) else test

pub tick : TimerHeap → ℤ → Run (TimerHeap × List (ℕ × ℕ))
tick h cur = do tmp ← load h.array 0; tick_loop (h.cur_size + 1) h tmp cur []
