-- ===== src/Timer/Expiry.antt =====
-- tick.
use mathlib.Core.Logic.Or
use native.Mathlib.Bridge.{le_prop}
use mathlib.Core.List.{
  Mem, Pairwise, reverse, reverse-cons, mem-cons, not-mem-nil, mem-cons_of_mem, mem-append_left,
}
use mathlib.Core.List.Perm
use reactor_server.Prelude.{
  ℕ, zero, suc, ◌+◌, ◌<◌, ◌≡◌, refl, sym, ap, ◌∙◌, List, [], ◌∷◌, ◌++◌, Option, some, true, false,
  Perm, append-nil, append_assoc, arith, length, ok, Returns, returns, Returns-bind, Returns-if,
  Returns-map,
}
use reactor_server.Prelude.Int.{ℤ, ◌≤ℤ◌, ◌<ℤ◌, ltb_ℤ}
use reactor_server.Prelude.Arrays.{load, length-perm}
use reactor_server.Timer.{Timer, TimerHeap, empty, deref, fire, tick_loop, tick}
use reactor_server.Timer.Slots.{at, expire_at, slots, deref-slots}
use reactor_server.Timer.Order.{root_least}
use reactor_server.Timer.Heap.{Holds}
use reactor_server.Timer.Heap.Remove.{Popped, pop-Popped}

-- The calls that the expiry of some timers makes, in order.
abbrev pub calls : List Timer → List (ℕ × ℕ)
calls [] = []
calls (t ∷ ts) = fire t ++ calls ts

-- What tick at the time `cur` does to a heap of the timers `ts`, with the calls `before` it.
pub record Ticked (ts : List Timer) (h : TimerHeap) (cur : ℤ) (before : List (ℕ × ℕ))
    (r : TimerHeap × List (ℕ × ℕ)) : Type 0 where
  pub expired : List Timer
  pub left : List Timer
  pub contents : Holds left r.0
  pub perm : Perm (expired ++ left) ts
  pub in_order : Pairwise (λ s t. s.expire ≤ℤ t.expire) expired
  pub due : (t : Timer) → Mem t expired → t.expire ≤ℤ cur
  pub not_due : (t : Timer) → Mem t left → cur <ℤ t.expire
  pub calls_are : r.1 ≡ before ++ calls expired
  pub freed : r.0.deleted ≡ reverse expired ++ h.deleted

-- A bound at every index is a bound on every member.
least_of_mem :
    (ts : List Timer) (a : ℤ)
    → ((i : ℕ) → i < length ts → a ≤ℤ expire_at ts i)
    → (u : Timer) → Mem u ts
    → a ≤ℤ u.expire
least_of_mem [] a h u m = absurd (not-mem-nil m)
least_of_mem (t ∷ ts) a h u m =
    Or.elim le_prop (mem-cons.0 m) (λ e. rw e (h 0 (omega arith)))
      (least_of_mem ts a (λ i p. h (suc i) (omega arith)) u)

load-next :
    (ts : List Timer) (h : TimerHeap)
    → Holds ts h
    → 0 < h.capacity
    → (p : Option Timer) × (load h.array 0 ≡ ok p) × (0 < length ts → p ≡ some (at ts 0))
unfolding load slots
load-next [] h v pos = rw v.array_is (first_spare v.spare (omega (arith, v.capacity_is)))
  where
    first_spare :
        (spare : List (Option Timer))
        → 0 < length spare
        → (p : Option Timer) × (load spare 0 ≡ ok p) × (0 < 0 → p ≡ some (at [] 0))
    first_spare [] q = absurd (omega arith)
    first_spare (p ∷ spare) q = (p, refl, λ bad. absurd (omega arith))
load-next (t ∷ ts) h v pos = (some t, rw v.array_is, λ _. refl)

Ticked-stop :
    (ts : List Timer) (h : TimerHeap) (cur : ℤ) (before : List (ℕ × ℕ))
    → Holds ts h
    → ((u : Timer) → Mem u ts → cur <ℤ u.expire)
    → Ticked ts h cur before (h, before)
Ticked-stop ts h cur before v late = record {
  expired = [];
  left = ts;
  contents = v;
  perm = Perm.rfl;
  in_order = Pairwise.nil;
  due = λ t m. absurd (not-mem-nil m);
  not_due = late;
  calls_are = sym (append-nil before);
  freed = refl;
}

Ticked-more :
    (ts : List Timer) (h g : TimerHeap) (cur : ℤ) (before : List (ℕ × ℕ)) (p : Popped ts h g)
    (t : Timer)
    → p.gone ≡ t
    → p.gone.expire ≤ℤ cur
    → (r : TimerHeap × List (ℕ × ℕ)) → Ticked p.others g cur (before ++ fire t) r
    → Ticked ts h cur before r
Ticked-more ts h g cur before p t same now r k = record {
  expired = p.gone ∷ k.expired;
  left = k.left;
  contents = k.contents;
  perm = Perm.trans (Perm.cons p.gone k.perm) p.perm;
  in_order = Pairwise.cons first k.in_order;
  due = λ t m. Or.elim le_prop (mem-cons.0 m) (λ e. rw e now) (k.due t);
  not_due = k.not_due;
  calls_are =
      k.calls_are
      ∙ append_assoc before (fire t) (calls k.expired)
      ∙ ap (λ s. before ++ (fire s ++ calls k.expired)) (sym same);
  freed =
      k.freed
      ∙ ap (◌++◌ (reverse k.expired)) p.freed
      ∙ sym (append_assoc (reverse k.expired) (p.gone ∷ []) h.deleted)
      ∙ ap (λ l. l ++ h.deleted) (sym (reverse-cons p.gone k.expired));
}
  where
    first : (u : Timer) → Mem u k.expired → p.gone.expire ≤ℤ u.expire
    first u m = least_of_mem ts p.gone.expire p.least u (
        (Perm.mem_iff p.perm).0
          (mem-cons_of_mem p.gone ((Perm.mem_iff k.perm).0 (mem-append_left k.left m))))

empty_lem : (h : TimerHeap) → h.cur_size ≡ 0 → empty h ≡ true
unfolding empty
empty_lem h e = ground arith

occupied :
    (ts : List Timer) (h : TimerHeap)
    → Holds ts h
    → 0 < length ts
    → (empty h ≡ false) × (deref h.array 0 ≡ ok (at ts 0))
unfolding empty
occupied ts h v pos = (ground (arith, v.size_is), rw v.array_is (deref-slots ts v.spare 0 pos))

tick_loop-Ticked :
    (fuel : ℕ) (ts : List Timer) (h : TimerHeap) (tmp : Option Timer) (cur : ℤ)
    (before : List (ℕ × ℕ))
    → length ts < fuel
    → Holds ts h
    → 0 < h.capacity
    → (0 < length ts → tmp ≡ some (at ts 0))
    → Returns (Ticked ts h cur before) (tick_loop fuel h tmp cur before)
unfolding tick_loop
tick_loop-Ticked zero ts h tmp cur before f v pos e = absurd (omega arith)
tick_loop-Ticked (suc fuel) [] h tmp cur before f v pos e =
    rw (empty_lem h v.size_is)
      (returns (Ticked-stop [] h cur before v (λ u m. absurd (not-mem-nil m))))
tick_loop-Ticked (suc fuel) (t ∷ ts) h tmp cur before f v pos e =
    rw ((occupied (t ∷ ts) h v (omega arith)).0, e (omega arith))
      (Returns-if (ltb_ℤ cur t.expire)
        (λ later. returns (
          Ticked-stop (t ∷ ts) h cur before v λ u m.
            let least =
              least_of_mem (t ∷ ts) t.expire
                (λ i p. root_least (suc i) (t ∷ ts) i v.ordered (omega arith) p) u m in
            ground arith))
        (λ now. rw (occupied (t ∷ ts) h v (omega arith)).1 (
          Returns-bind (pop-Popped (t ∷ ts) h v (omega arith)) λ g p.
            let (next, loaded, first) =
              load-next p.others g p.contents (omega (arith, p.capacity_is)) in
            let shorter : length p.others < fuel = omega (arith, length-perm p.perm) in
            let due : p.gone.expire ≤ℤ cur = ground (arith, p.gone_is) in
            rw loaded (
              Returns-map (Ticked-more (t ∷ ts) h g cur before p t p.gone_is due) (
                tick_loop-Ticked fuel p.others g next cur (before ++ fire t) shorter p.contents
                  (omega (arith, p.capacity_is)) first)))))

-- On a well-formed heap whose capacity is not 0, tick at the time `cur` returns: it takes out
-- exactly the timers whose `expire` is not after `cur`, calls the callback of each once, in the
-- order of their `expire`, frees them, and leaves a well-formed heap of the others.
pub tick-Ticked :
    (ts : List Timer) (h : TimerHeap) (cur : ℤ)
    → Holds ts h
    → 0 < h.capacity
    → Returns (Ticked ts h cur []) (tick h cur)
unfolding tick
tick-Ticked ts h cur v pos =
    let (next, loaded, first) = load-next ts h v pos in
    rw loaded
      (tick_loop-Ticked (h.cur_size + 1) ts h next cur [] (omega (arith, v.size_is)) v pos first)
