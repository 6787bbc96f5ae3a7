-- ===== src/Timer/Heap/Build.antt =====
-- The constructors, del_timer and the destructor.
use mathlib.Core.List.{perm_middle}
use mathlib.Core.List.Perm
use reactor_server.Prelude.{
  ℕ, ◌+◌, ◌≤◌, ◌<◌, ◌≡◌, refl, List, [], ◌∷◌, ◌++◌, Option, none, some, Perm, arith, length,
  length-append, lt→ltb, append_assoc, drop, length-drop, replicate, length-replicate, ltb, ◌==◌,
  throws, Returns, returns, Returns-bind, Returns-map, Returns-if,
}
use reactor_server.Prelude.Arrays.{length-concat, length-perm}
use reactor_server.Timer.{Timer, TimerHeap, init, init_with, del_timer, free_slots, destroy}
use reactor_server.Timer.Slots.{slots, load-slots, at-middle}
use reactor_server.Timer.Order.{Ordered}
use reactor_server.Timer.Down.{adjust-all}
use reactor_server.Timer.Copy.{copy-raw}
use reactor_server.Timer.Heap.{Holds, Contains}

-- A new heap is empty, with every slot null.
pub init-Holds : (cap : ℕ) → Holds [] (init cap)
unfolding init slots
init-Holds cap = record {
  spare = replicate cap none;
  array_is = refl;
  size_is = refl;
  capacity_is = omega (arith, length-replicate {A = Option Timer} cap none);
  ordered = λ c p q. absurd (omega arith);
}

-- What the second constructor builds from `ts`.
pub record Built (ts : List Timer) (cap : ℕ) (g : TimerHeap) : Type 0 where
  pub contents : Contains ts g
  pub capacity_is : g.capacity ≡ cap
  pub none_deleted : g.deleted ≡ []

Ordered-Contains :
    {ts : List Timer} {rest : List (Option Timer)} {h : TimerHeap}
    → Ordered 0 ts rest h.array
    → h.cur_size ≡ length ts
    → h.capacity ≡ length ts + length rest
    → Contains ts h
Ordered-Contains o size cap = record {
  held = o.after;
  holds = record {
    spare = _;
    array_is = o.slots_are;
    size_is = omega (arith, length-perm o.perm);
    capacity_is = omega (arith, length-perm o.perm);
    ordered = o.heap;
  };
  perm = o.perm;
}

unfilled :
    (ts : List Timer) (raw : List (Option Timer))
    → length ts ≡ 0
    → Ordered 0 ts (drop (length ts) raw) raw
unfolding slots
unfilled [] raw e = record {
  after = [];
  slots_are = refl;
  heap = λ c p q. absurd (omega arith);
  perm = Perm.rfl;
}
unfilled (t ∷ ts) raw e = absurd (omega arith)

-- The second constructor, given an array that starts with the timers `ts`, their number and a
-- capacity that holds them, returns a well-formed heap of exactly those timers with that capacity,
-- and frees none.
pub init_with-Built :
    (ts : List Timer) (extra raw : List (Option Timer)) (cap : ℕ)
    → length raw ≡ cap
    → length ts ≤ cap
    → Returns (Built ts cap) (init_with (slots ts extra) (length ts) cap raw)
unfolding init_with
init_with-Built ts extra raw cap room fits =
    Returns-if (ltb cap (length ts)) (λ over. absurd (ground arith))
      λ _.
        Returns-bind {P = Ordered 0 ts (drop (length ts) raw)}
          (Returns-if (length ts == 0) (λ none_given. returns (unfilled ts raw (ground arith)))
            λ some_given. rw (copy-raw ts extra raw (omega arith)) (adjust-all ts _))
          λ b o. returns (record {
            contents = Ordered-Contains o refl (omega (arith, length-drop (length ts) raw));
            capacity_is = refl;
            none_deleted = refl;
          })

-- It refuses more timers than the capacity.
pub init_with-throws :
    (array raw : List (Option Timer)) (size cap : ℕ)
    → cap < size
    → init_with array size cap raw ≡ throws
unfolding init_with
init_with-throws array raw size cap h = rw (lt→ltb cap size h)

-- What del_timer does, whichever timer it is given: none leaves the heap.
pub record Reordered (ts : List Timer) (h g : TimerHeap) : Type 0 where
  pub contents : Contains ts g
  pub capacity_is : g.capacity ≡ h.capacity
  pub none_deleted : g.deleted ≡ h.deleted

-- del_timer, on a well-formed heap and whichever timer it is given, returns a well-formed heap of
-- the same timers with the same capacity, and frees none: the timer to be deleted stays.
pub del_timer-Reordered :
    (ts : List Timer) (h : TimerHeap) (timer : Option Timer)
    → Holds ts h
    → Returns (Reordered ts h) (del_timer h timer)
unfolding del_timer
del_timer-Reordered ts h none v = returns (record {
  contents = record { held = ts; holds = v; perm = Perm.rfl };
  capacity_is = refl;
  none_deleted = refl;
})
del_timer-Reordered ts h (some timer) v =
    rw (v.array_is, v.size_is)
      (Returns-bind (adjust-all ts v.spare) λ b o. returns (record {
        contents = Ordered-Contains o refl v.capacity_is;
        capacity_is = refl;
        none_deleted = refl;
      }))

-- The destructor frees every timer of the heap, each once.
free_slots-all :
    (new pre : List Timer) (rest : List (Option Timer)) (freed : List Timer)
    → Returns
        (λ all. Perm all (new ++ freed))
        (free_slots (length new) (length pre) (slots (pre ++ new) rest) freed)
unfolding free_slots
free_slots-all [] pre rest freed = returns Perm.rfl
free_slots-all (t ∷ new) pre rest freed =
    rw
      (
        load-slots (pre ++ t ∷ new) rest (length pre) (omega (arith, length-append pre (t ∷ new))),
        at-middle pre t new,
      )
      (Returns-map (λ all p. Perm.trans p (perm_middle new freed))
        (simp (append_assoc, length-concat) at
          (free_slots-all new (pre ++ t ∷ []) rest (t ∷ freed))))

-- The destructor of a well-formed heap frees each timer of the heap once, beside those freed
-- before.
pub destroy-all :
    (ts : List Timer) (h : TimerHeap)
    → Holds ts h
    → Returns (λ freed. Perm freed (ts ++ h.deleted)) (destroy h)
unfolding destroy
destroy-all ts h v = rw (v.array_is, v.size_is) (free_slots-all ts [] v.spare h.deleted)
