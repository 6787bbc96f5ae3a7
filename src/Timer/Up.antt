-- ===== src/Timer/Up.antt =====
-- The loop of add_timer restores the heap order above the hole.
use mathlib.Core.List.Perm
use reactor_server.Prelude.{
  ℕ, zero, suc, ◌+◌, ◌<◌, ◌≡◌, ◌≢◌, refl, sym, ap, ◌∙◌, List, Option, some, arith, length,
  get_elem?, set, get_elem?-set_ne, length-set, ltb, ok, Returns, returns, Returns-map, Returns-if,
}
use reactor_server.Prelude.Int.{◌≤ℤ◌, ◌<ℤ◌, leb_ℤ}
use reactor_server.Prelude.Arrays.{
  load, store, load_lem, store_lem, set-set, swap, length-swap, get_or-swap, swap-perm,
}
use reactor_server.Timer.{Timer, deref, up_loop}
use reactor_server.Timer.Slots.{
  no_timer, at, expire_at, slots, length-slots, get_elem?-slots, slots-swap,
}
use reactor_server.Timer.Order.{parent, Ordered}

-- Only the edge above `hole` may be out of order.
pub record AllButAbove (ts : List Timer) (hole : ℕ) : Type 0 where
  pub inside : hole < length ts
  pub edges : (c : ℕ) → 0 < c → c < length ts → c ≢ hole → expire_at ts (parent c) ≤ℤ expire_at ts c
  pub across :
      (c : ℕ)
      → 0 < c
      → c < length ts
      → parent c ≡ hole
      → 0 < hole
      → expire_at ts (parent hole) ≤ℤ expire_at ts c

swap-AllButAbove :
    (ts : List Timer) (hole : ℕ)
    → AllButAbove ts hole
    → 0 < hole
    → expire_at ts hole <ℤ expire_at ts (parent hole)
    → AllButAbove (swap no_timer ts hole (parent hole)) (parent hole)
swap-AllButAbove ts hole v pos below =
    let size = length-swap no_timer ts hole (parent hole) in
    let now = λ (c : ℕ). get_or-swap no_timer ts hole (parent hole) c v.inside (omega arith) in
    record {
      inside = omega arith;
      edges = λ c p q t.
          ground (arith, now c, now (parent c), v.edges c, v.across c, v.edges (parent hole));
      across = λ c p q t u.
          ground (arith, now c, now (parent (parent hole)), v.edges c, v.edges (parent hole));
    }

-- The array of a round, which holds the timers `ts` once `timer` is put in the hole.
pub record IsHoled (ts : List Timer) (rest a : List (Option Timer)) (timer : Timer) (hole : ℕ)
    : Type 0 where
  pub filled : set a hole (some timer) ≡ slots ts rest
  pub timer_is : at ts hole ≡ timer

module _ (ts : List Timer) (rest a : List (Option Timer)) (timer : Timer) (hole : ℕ)
    (s : IsHoled ts rest a timer hole) where
  length-holed : length a ≡ length ts + length rest
  length-holed = sym (length-set a hole (some timer)) ∙ ap length s.filled ∙ length-slots ts rest

  load-holed : (i : ℕ) → hole ≢ i → i < length ts → load a i ≡ ok (some (at ts i))
  load-holed i ne h = load_lem a i (
      sym (get_elem?-set_ne a (some timer) ne)
      ∙ ap (λ b. get_elem? b i) s.filled
      ∙ get_elem?-slots ts rest i h)

  deref-holed : (i : ℕ) → hole ≢ i → i < length ts → deref a i ≡ ok (at ts i)
  unfolding deref
  deref-holed i ne h = rw (load-holed i ne h)

  store-holed : hole < length ts → store a hole (some timer) ≡ ok (slots ts rest)
  store-holed h = rw (store_lem a hole (some timer) (omega (arith, length-holed))) (ap ok s.filled)

  risen-IsHoled :
      (p : ℕ)
      → hole < length ts
      → p < length ts
      → IsHoled (swap no_timer ts hole p) rest (set a hole (some (at ts p))) timer p
  risen-IsHoled p h hp = record {
    filled = rw (
      slots-swap ts rest hole p h hp,
      ← s.filled,
      set-set a hole (some timer) (some (at ts p)),
      s.timer_is,
    );
    timer_is = ground (arith, s.timer_is, get_or-swap no_timer ts hole p p h hp);
  }

pub up_loop-Ordered :
    (fuel : ℕ) (ts : List Timer) (rest a : List (Option Timer)) (timer : Timer) (hole : ℕ)
    → hole < fuel
    → IsHoled ts rest a timer hole
    → AllButAbove ts hole
    → Returns (Ordered 0 ts rest) (up_loop fuel a timer hole)
unfolding up_loop
up_loop-Ordered zero ts rest a timer hole f s v = absurd (omega arith)
up_loop-Ordered (suc fuel) ts rest a timer hole f s v =
    Returns-if (ltb 0 hole)
      (λ pos.
        let above : parent hole < length ts = ground (arith, v.inside) in
        let apart : hole ≢ parent hole = ground arith in
        rw (deref-holed ts rest a timer hole s (parent hole) apart above) (
          Returns-if (leb_ℤ (expire_at ts (parent hole)) timer.expire)
            (λ settled. rw (store-holed ts rest a timer hole s v.inside) (
              returns (record {
                after = ts;
                slots_are = refl;
                heap = λ c p q r. ground (arith, v.edges c, s.timer_is);
                perm = Perm.rfl;
              })))
            (λ below.
              rw
                (
                  load-holed ts rest a timer hole s (parent hole) apart above,
                  store_lem a hole (some (at ts (parent hole)))
                      (omega (arith, length-holed ts rest a timer hole s, v.inside)),
                )
                (Returns-map
                  (λ b (o : Ordered 0 (swap no_timer ts hole (parent hole)) rest b). record {
                    after = o.after;
                    slots_are = o.slots_are;
                    heap = o.heap;
                    perm =
                        Perm.trans o.perm (swap-perm no_timer ts hole (parent hole) v.inside above);
                  })
                  (up_loop-Ordered fuel (swap no_timer ts hole (parent hole)) rest
                    (set a hole (some (at ts (parent hole)))) timer (parent hole) (ground arith)
                    (risen-IsHoled ts rest a timer hole s (parent hole) v.inside above)
                    (swap-AllButAbove ts hole v (ground arith) (ground (arith, s.timer_is))))))))
      (λ root. rw (store-holed ts rest a timer hole s v.inside) (
        returns (record {
          after = ts;
          slots_are = refl;
          heap = λ c p q r. ground (arith, v.edges c);
          perm = Perm.rfl;
        })))
