-- ===== src/Timer/Heap/Insert.antt =====
-- add_timer, with the growth of a full heap.
use mathlib.Core.List.{perm_middle}
use mathlib.Core.List.Perm
use reactor_server.Prelude.{
  ℕ, suc, ◌+◌, ◌*◌, ◌<◌, ◌≡◌, refl, ap, List, [], ◌∷◌, ◌++◌, Option, none, some, append-nil, arith,
  length, length-append, drop, length-drop, replicate, length-replicate, leb, if◌then◌else◌, ok,
  Returns, returns, Returns-bind, Returns-map, Bool-cases, inl, inr,
}
use reactor_server.Prelude.Arrays.{length-perm, get_or-append_left}
use reactor_server.Timer.{Timer, TimerHeap, add_timer, resize}
use reactor_server.Timer.Slots.{no_timer, slots}
use reactor_server.Timer.Order.{parent, IsHeap}
use reactor_server.Timer.Up.{AllButAbove, IsHoled, up_loop-Ordered}
use reactor_server.Timer.Copy.{copy-raw}
use reactor_server.Timer.Heap.{Holds, Contains}

-- What add_timer does to a heap of the timers `ts`.
pub record Added (timer : Timer) (ts : List Timer) (h g : TimerHeap) : Type 0 where
  pub contents : Contains (timer ∷ ts) g
  pub capacity_is : g.capacity ≡ (if leb h.capacity h.cur_size then 2 * h.capacity else h.capacity)
  pub none_deleted : g.deleted ≡ h.deleted

-- A heap with a free slot, or grown to have one.
record IsRoomy (ts : List Timer) (h g : TimerHeap) : Type 0 where
  holds : Holds ts g
  free : length ts < g.capacity
  capacity_is : g.capacity ≡ (if leb h.capacity h.cur_size then 2 * h.capacity else h.capacity)
  none_deleted : g.deleted ≡ h.deleted

resize-Holds :
    (ts : List Timer) (h : TimerHeap)
    → Holds ts h
    → Returns (λ g. Holds ts g × (g.capacity ≡ 2 * h.capacity) × (g.deleted ≡ h.deleted)) (resize h)
unfolding resize
resize-Holds ts h v =
    let size = length-replicate {A = Option Timer} (2 * h.capacity) none in
    rw
      (
        v.array_is,
        v.size_is,
        copy-raw ts v.spare (replicate (2 * h.capacity) none) (omega (arith, size, v.capacity_is)),
      )
      (returns (
        record {
          spare = drop (length ts) (replicate (2 * h.capacity) none);
          array_is = refl;
          size_is = refl;
          capacity_is = omega (
            arith,
            size,
            v.capacity_is,
            length-drop (length ts) (replicate {A = Option Timer} (2 * h.capacity) none),
          );
          ordered = v.ordered;
        },
        refl,
        refl,
      ))

roomy :
    (ts : List Timer) (h : TimerHeap)
    → Holds ts h
    → 0 < h.capacity
    → Returns (IsRoomy ts h) (if leb h.capacity h.cur_size then resize h else ok h)
roomy ts h v pos = elim (Bool-cases (leb h.capacity h.cur_size)) [
  | inl full ↦ rw full (
      Returns-map
        (λ g (w, wider, kept). record {
          holds = w;
          free = ground (arith, v.size_is);
          capacity_is = ground arith;
          none_deleted = kept;
        })
        (resize-Holds ts h v))
  | inr not_full ↦ rw not_full (
      returns (record {
        holds = v;
        free = ground (arith, v.size_is);
        capacity_is = ground arith;
        none_deleted = refl;
      }))
]

-- The slots of a heap of `ts` with `timer` put into the first free one.
appended :
    (ts : List Timer) (timer : Timer) (spare : List (Option Timer))
    → 0 < length spare
    → (rest : List (Option Timer)) × IsHoled
        (ts ++ timer ∷ [])
        rest
        (slots ts spare)
        timer
        (length ts)
      × (length spare ≡ suc (length rest))
unfolding slots
appended [] timer [] h = absurd (omega arith)
appended [] timer (p ∷ rest) h = (rest, record { filled = refl; timer_is = refl }, refl)
appended (t ∷ ts) timer spare h =
    let (rest, s, e) = appended ts timer spare h in
    (rest, record { filled = ap (◌∷◌ (some t)) s.filled; timer_is = s.timer_is }, e)

appended-AllButAbove :
    (ts : List Timer) (timer : Timer) → IsHeap ts → AllButAbove (ts ++ timer ∷ []) (length ts)
appended-AllButAbove ts timer h =
    let size = length-append ts (timer ∷ []) in
    let old = λ (i : ℕ). get_or-append_left no_timer ts (timer ∷ []) i in
    record {
      inside = omega arith;
      edges = λ c p q t. ground (arith, old c, old (parent c), h c);
      across = λ c p q t u. absurd (omega arith);
    }

-- add_timer on a well-formed heap whose capacity is not 0 returns a well-formed heap of the old
-- timers and the new one; the capacity doubles exactly where the heap was full, and no timer is
-- freed.
pub add_timer-Added :
    (ts : List Timer) (h : TimerHeap) (timer : Timer)
    → Holds ts h
    → 0 < h.capacity
    → Returns (Added timer ts h) (add_timer h (some timer))
unfolding add_timer
add_timer-Added ts h timer v pos = Returns-bind (roomy ts h v pos) λ g w.
    let (rest, holed, e) =
      appended ts timer w.holds.spare (omega (arith, w.free, w.holds.capacity_is)) in
    rw (w.holds.array_is, w.holds.size_is)
      (Returns-bind
        (up_loop-Ordered (length ts + 1) (ts ++ timer ∷ []) rest (slots ts w.holds.spare) timer
          (length ts) (omega arith) holed (appended-AllButAbove ts timer w.holds.ordered))
        λ b o. returns (record {
          contents = record {
            held = o.after;
            holds = record {
              spare = rest;
              array_is = o.slots_are;
              size_is = omega (arith, length-perm o.perm, size);
              capacity_is = omega (arith, length-perm o.perm, size, w.holds.capacity_is, e);
              ordered = o.heap;
            };
            perm = Perm.trans o.perm (rw (append-nil ts) at (perm_middle {a = timer} ts []));
          };
          capacity_is = w.capacity_is;
          none_deleted = w.none_deleted;
        }))
  where
    size : length (ts ++ timer ∷ []) ≡ length ts + 1
    size = length-append ts (timer ∷ [])
