-- ===== src/Timer/Order.antt =====
-- The heap order of the time heap.

use reactor_server.Prelude.{
  ℕ, zero, suc, ◌-◌, ◌/◌, ◌≤◌, ◌<◌, ◌≡◌, List, Perm, Option, arith, length,
}
use reactor_server.Prelude.Int.{◌≤ℤ◌}
use reactor_server.Timer.{Timer}
use reactor_server.Timer.Slots.{expire_at, slots}

abbrev pub parent : ℕ → ℕ
parent c = (c - 1) / 2

-- Every edge of the tree whose upper end is at `lo` or later is in order.
abbrev pub IsHeapFrom : ℕ → List Timer → Type 0
IsHeapFrom lo ts =
    (c : ℕ) → 0 < c → c < length ts → lo ≤ parent c → expire_at ts (parent c) ≤ℤ expire_at ts c

abbrev pub IsHeap : List Timer → Type 0
IsHeap = IsHeapFrom 0

-- What a pass over the slots leaves: the same timers, in order from `lo`, and the same slots
-- behind them.
pub record Ordered (lo : ℕ) (ts : List Timer) (rest a : List (Option Timer)) : Type 0 where
  pub after : List Timer
  pub slots_are : a ≡ slots after rest
  pub heap : IsHeapFrom lo after
  pub perm : Perm after ts

-- The root of a heap expires first.
pub root_least :
    (fuel : ℕ) (ts : List Timer) (i : ℕ)
    → IsHeap ts
    → i < fuel
    → i < length ts
    → expire_at ts 0 ≤ℤ expire_at ts i
root_least zero ts i h f p = absurd (omega arith)
root_least (suc fuel) ts i h f p = ground (arith, h i, root_least fuel ts (parent i) h)
