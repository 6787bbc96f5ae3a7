-- ===== src/Timer/Down.antt =====
-- percolate_down and the loops that call it restore the heap order.
use mathlib.Core.List.Perm
use reactor_server.Prelude.{
  ℕ, zero, suc, ◌+◌, ◌-◌, ◌*◌, ◌/◌, ◌≤◌, ◌<◌, ◌≡◌, ◌≢◌, ◌⊎◌, refl, List, Option, arith, length, ltb,
  Returns, returns, Returns-bind, Returns-map, Returns-if, subst,
}
use reactor_server.Prelude.Int.{◌≤ℤ◌, ◌<ℤ◌, ltb_ℤ}
use reactor_server.Prelude.Arrays.{swap, length-swap, get_or-swap, swap-perm, length-perm}
use reactor_server.Timer.{Timer, smaller_child, down_loop, percolate_down, adjust}
use reactor_server.Timer.Slots.{no_timer, expire_at, slots, less-slots, swap_slots-slots}
use reactor_server.Timer.Order.{parent, IsHeapFrom, Ordered}

-- Only the edges below `hole` may be out of order.
pub record AllButBelow (lo : ℕ) (ts : List Timer) (hole : ℕ) : Type 0 where
  pub edges :
      (c : ℕ)
      → 0 < c
      → c < length ts
      → lo ≤ parent c
      → parent c ≢ hole
      → expire_at ts (parent c) ≤ℤ expire_at ts c
  pub across :
      (c : ℕ)
      → 0 < c
      → c < length ts
      → parent c ≡ hole
      → 0 < hole
      → lo ≤ parent hole
      → expire_at ts (parent hole) ≤ℤ expire_at ts c

-- `m` is the child of `hole` that expires first.
record IsFirstChild (ts : List Timer) (hole m : ℕ) : Type 0 where
  inside : m < length ts
  child : (m ≡ hole * 2 + 1) ⊎ (m ≡ hole * 2 + 2)
  first : (c : ℕ) → 0 < c → c < length ts → parent c ≡ hole → expire_at ts m ≤ℤ expire_at ts c

smaller_child-IsFirstChild :
    (ts : List Timer) (rest : List (Option Timer)) (hole : ℕ)
    → hole * 2 + 1 < length ts
    → Returns (IsFirstChild ts hole) (smaller_child (slots ts rest) (length ts) (hole * 2 + 1))
unfolding smaller_child
smaller_child-IsFirstChild ts rest hole h =
    grind (arith, less-slots ts rest (hole * 2 + 1 + 1) (hole * 2 + 1), returns)

swap-AllButBelow :
    (lo : ℕ) (ts : List Timer) (hole m : ℕ)
    → AllButBelow lo ts hole
    → IsFirstChild ts hole m
    → expire_at ts m <ℤ expire_at ts hole
    → AllButBelow lo (swap no_timer ts hole m) m
swap-AllButBelow lo ts hole m v s below =
    let size = length-swap no_timer ts hole m in
    let now = λ (c : ℕ). get_or-swap no_timer ts hole m c (omega arith) s.inside in
    record {
      edges = λ c p q r t. ground (arith, now c, now (parent c), v.edges c, v.across m, s.first c);
      across = λ c p q r t u. ground (arith, now c, now (parent m), v.edges c);
    }

Ordered-swap :
    {lo : ℕ} (ts : List Timer) {rest a : List (Option Timer)} (i j : ℕ)
    → i < length ts
    → j < length ts
    → Ordered lo (swap no_timer ts i j) rest a
    → Ordered lo ts rest a
Ordered-swap ts i j hi hj o = record {
  after = o.after;
  slots_are = o.slots_are;
  heap = o.heap;
  perm = Perm.trans o.perm (swap-perm no_timer ts i j hi hj);
}

down_loop-Ordered :
    (fuel lo : ℕ) (ts : List Timer) (rest : List (Option Timer)) (hole : ℕ)
    → length ts - hole < fuel
    → AllButBelow lo ts hole
    → Returns (Ordered lo ts rest) (down_loop fuel (slots ts rest) (length ts) hole)
unfolding down_loop
down_loop-Ordered zero lo ts rest hole f v = absurd (omega arith)
down_loop-Ordered (suc fuel) lo ts rest hole f v =
    Returns-if (ltb (hole * 2 + 1) (length ts))
      (λ more. Returns-bind (smaller_child-IsFirstChild ts rest hole (ground arith)) λ m s.
        let hi : hole < length ts = omega arith in
        rw (less-slots ts rest m hole s.inside hi) (
          Returns-if (ltb_ℤ (expire_at ts m) (expire_at ts hole))
            (λ below. rw (swap_slots-slots ts rest hole m hi s.inside) (
              Returns-map (λ a. Ordered-swap ts hole m hi s.inside)
                (subst
                  (λ n.
                    Returns (Ordered lo (swap no_timer ts hole m) rest)
                      (down_loop fuel (slots (swap no_timer ts hole m) rest) n m))
                  (length-swap no_timer ts hole m)
                  (down_loop-Ordered fuel lo (swap no_timer ts hole m) rest m
                    (omega (arith, length-swap no_timer ts hole m))
                    (swap-AllButBelow lo ts hole m v s (ground arith))))))
            (λ settled. returns (record {
              after = ts;
              slots_are = refl;
              heap = λ c p q r. ground (arith, v.edges c, s.first c);
              perm = Perm.rfl;
            }))))
      (λ leaf. returns (record {
        after = ts;
        slots_are = refl;
        heap = λ c p q r. ground (arith, v.edges c);
        perm = Perm.rfl;
      }))

pub percolate_down-Ordered :
    (lo : ℕ) (ts : List Timer) (rest : List (Option Timer)) (hole : ℕ)
    → AllButBelow lo ts hole
    → Returns (Ordered lo ts rest) (percolate_down (slots ts rest) (length ts) hole)
unfolding percolate_down
percolate_down-Ordered lo ts rest hole v =
    down_loop-Ordered (length ts + 1) lo ts rest hole (omega arith) v

-- Each round of the loop puts one more parent in order.
pub adjust-Ordered :
    (i : ℕ) (ts : List Timer) (rest : List (Option Timer))
    → IsHeapFrom i ts
    → Returns (Ordered 0 ts rest) (adjust i (slots ts rest) (length ts))
unfolding adjust
adjust-Ordered zero ts rest h =
    returns (record { after = ts; slots_are = refl; heap = h; perm = Perm.rfl })
adjust-Ordered (suc i) ts rest h = Returns-bind (percolate_down-Ordered i ts rest i start) λ b o.
    rw (o.slots_are, length-perm (Perm.symm o.perm))
      (Returns-map
        (λ a (later : Ordered 0 o.after rest a). record {
          after = later.after;
          slots_are = later.slots_are;
          heap = later.heap;
          perm = Perm.trans later.perm o.perm;
        })
        (adjust-Ordered i o.after rest o.heap))
  where
    start : AllButBelow i ts i
    start = record {
      edges = λ c p q r t. h c p q (omega arith);
      across = λ c p q r t u. absurd (omega arith);
    }

-- From the last parent down the loop orders any timers into a heap.
pub adjust-all :
    (ts : List Timer) (rest : List (Option Timer))
    → Returns (Ordered 0 ts rest) (adjust (suc ((length ts - 1) / 2)) (slots ts rest) (length ts))
adjust-all ts rest =
    adjust-Ordered (suc ((length ts - 1) / 2)) ts rest λ c p q r. absurd (omega arith)
