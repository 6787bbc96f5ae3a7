-- ===== src/Timer/Heap/Remove.antt =====
-- top and pop.
use mathlib.Core.List.{perm_middle}
use mathlib.Core.List.Perm
use reactor_server.Prelude.{
  ℕ, suc, ◌-◌, ◌<◌, ◌≡◌, refl, sym, ap, ◌∙◌, List, [], ◌∷◌, ◌++◌, Option, none, some, Perm,
  append-nil, arith, ◌⊎◌, inl, inr, subst, length, length-take, length-set, take, set, ◌==◌, ok,
  Returns, returns, Returns-bind, Returns-if,
}
use reactor_server.Prelude.Int.{◌≤ℤ◌}
use reactor_server.Prelude.Arrays.{
  load, length-perm, get_or-take, get_or-set, take-append-last, set-perm,
}
use reactor_server.Timer.{Timer, TimerHeap, empty, top, pop, remove_top, percolate_down}
use reactor_server.Timer.Slots.{
  no_timer, at, expire_at, slots, load-slots, store-slots, slots-concat,
}
use reactor_server.Timer.Order.{parent, IsHeap, Ordered, root_least}
use reactor_server.Timer.Down.{AllButBelow, percolate_down-Ordered}
use reactor_server.Timer.Heap.{Holds}

-- What pop does to a heap of the timers `ts`: a timer that expires first is gone, and freed.
pub record Popped (ts : List Timer) (h g : TimerHeap) : Type 0 where
  pub gone : Timer
  pub others : List Timer
  pub contents : Holds others g
  pub perm : Perm (gone ∷ others) ts
  pub gone_is : gone ≡ at ts 0
  pub least : (i : ℕ) → i < length ts → gone.expire ≤ℤ expire_at ts i
  pub freed : g.deleted ≡ gone ∷ h.deleted
  pub capacity_is : g.capacity ≡ h.capacity

load-first :
    (ts : List Timer) (h : TimerHeap)
    → Holds ts h
    → 0 < length ts
    → load h.array 0 ≡ ok (some (at ts 0))
load-first ts h v pos = rw v.array_is (load-slots ts v.spare 0 pos)

-- The last timer is moved to the root, and its slot given up.
abbrev moved : List Timer → ℕ → List Timer
moved ts n = take n (set ts 0 (at ts n))

module _ (ts : List Timer) (n : ℕ) (size : length ts ≡ suc n) where
  length-moved : length (moved ts n) ≡ n
  length-moved = omega (arith, length-take n (set ts 0 (at ts n)), length-set ts 0 (at ts n))

  slots-moved :
      (rest : List (Option Timer))
      → slots (set ts 0 (at ts n)) rest
        ≡ slots (moved ts n) (some (at (set ts 0 (at ts n)) n) ∷ rest)
  slots-moved rest =
      sym (
        ap (λ b. slots b rest)
          (take-append-last no_timer n (set ts 0 (at ts n)) (length-set ts 0 (at ts n) ∙ size)))
      ∙ slots-concat (moved ts n) (at (set ts 0 (at ts n)) n) rest

  last_same : at (set ts 0 (at ts n)) n ≡ at ts n
  last_same = ground (arith, get_or-set ts 0 n (at ts n) no_timer)

  moved-perm : Perm (at ts 0 ∷ moved ts n) ts
  moved-perm =
      let v = at ts n in
      let split : set ts 0 v ≡ moved ts n ++ v ∷ [] =
        sym
          (rw last_same at (take-append-last no_timer n (set ts 0 v) (length-set ts 0 v ∙ size))) in
      let back : Perm (at ts 0 ∷ moved ts n ++ v ∷ []) (v ∷ ts) =
        rw split at (set-perm ts 0 v no_timer (omega arith)) in
      let front : Perm (v ∷ at ts 0 ∷ moved ts n) (at ts 0 ∷ moved ts n ++ v ∷ []) = Perm.symm (
        rw (append-nil (at ts 0 ∷ moved ts n)) at
          (perm_middle {a = v} (at ts 0 ∷ moved ts n) [])) in
      Perm.cons_inv (Perm.trans front back)

  moved-AllButBelow : IsHeap ts → AllButBelow 0 (moved ts n) 0
  moved-AllButBelow h =
      let written = λ (c : ℕ). get_or-set ts 0 c (at ts n) no_timer (omega arith) in
      let kept = get_or-take no_timer n (set ts 0 (at ts n)) in
      record {
        edges = λ c p q r t.
            ground
              (arith, h c, written c, written (parent c), kept c, kept (parent c), length-moved);
        across = λ c p q r t. absurd (omega arith);
      }

  remove_top-Popped : (h : TimerHeap) → Holds ts h → Returns (Popped ts h) (remove_top h (at ts 0))
  unfolding remove_top
  remove_top-Popped h v =
      let last : h.cur_size - 1 ≡ n = omega (arith, v.size_is) in
      rw
        (
          last,
          v.array_is,
          load-slots ts v.spare n (omega arith),
          store-slots ts v.spare 0 (at ts n) (omega arith),
          slots-moved v.spare,
        )
        (Returns-bind
          (subst
            (λ k. Returns (Ordered 0 (moved ts n) (some (at (set ts 0 (at ts n)) n) ∷ v.spare)) (
              percolate_down (slots (moved ts n) (some (at (set ts 0 (at ts n)) n) ∷ v.spare)) k 0))
            length-moved
            (percolate_down-Ordered 0 (moved ts n) (some (at (set ts 0 (at ts n)) n) ∷ v.spare) 0
              (moved-AllButBelow v.ordered)))
          λ b o. returns (record {
            gone = at ts 0;
            others = o.after;
            contents = record {
              spare = some (at (set ts 0 (at ts n)) n) ∷ v.spare;
              array_is = o.slots_are;
              size_is = omega (arith, length-perm o.perm, length-moved);
              capacity_is = omega (arith, length-perm o.perm, length-moved, v.capacity_is);
              ordered = o.heap;
            };
            perm = Perm.trans (Perm.cons (at ts 0) o.perm) moved-perm;
            gone_is = refl;
            least = λ i p. root_least (suc i) ts i v.ordered (omega arith) p;
            freed = refl;
            capacity_is = refl;
          }))

-- pop on a well-formed heap that is not empty takes the first timer, which expires no later than
-- any other, out and frees it; the heap of the others is well formed and its capacity is the same.
pub pop-Popped :
    (ts : List Timer) (h : TimerHeap) → Holds ts h → 0 < length ts → Returns (Popped ts h) (pop h)
unfolding pop empty
pop-Popped ts h v pos =
    Returns-if (h.cur_size == 0) (λ none_left. absurd (ground (arith, v.size_is)))
      λ _. rw (load-first ts h v pos) (remove_top-Popped ts (length ts - 1) (omega arith) h v)

-- On an empty heap pop does nothing.
pub pop-empty : (h : TimerHeap) → h.cur_size ≡ 0 → pop h ≡ ok h
unfolding pop empty
pop-empty h e = ground arith

-- top is NULL on an empty heap, and otherwise a timer that expires first.
pub top_lem :
    (ts : List Timer) (h : TimerHeap)
    → Holds ts h
    → ((ts ≡ []) × (top h ≡ ok none))
      ⊎ ((t : Timer) × (top h ≡ ok (some t))
          × (t ≡ at ts 0)
          × ((i : ℕ) → i < length ts → t.expire ≤ℤ expire_at ts i))
unfolding top empty
top_lem [] h v = inl (refl, ground (arith, v.size_is))
top_lem (t ∷ ts) h v = inr (
  t,
  ground (arith, v.size_is, load-first (t ∷ ts) h v (omega arith)),
  refl,
  λ i p. root_least (suc i) (t ∷ ts) i v.ordered (omega arith) p,
)
