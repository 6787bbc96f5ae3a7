-- ===== src/Timer/Slots.antt =====
-- The slots of a time heap that holds the timers `ts` below `cur_size`, and what Timer.cc reads
-- and writes there.
use reactor_server.Prelude.{
  ℕ, zero, suc, ◌+◌, ◌<◌, ◌≡◌, refl, ap, List, [], ◌∷◌, ◌++◌, map, Option, none, some, arith,
  length, length-append, length-map, get_elem?, get_or, set, length-set, ok,
}
use reactor_server.Prelude.Int.{ℤ, pos, ltb_ℤ}
use reactor_server.Prelude.Arrays.{load, store, load_lem, store_lem, swap, swap_as_sets}
use reactor_server.Timer.{Timer, deref, less, swap_slots}

-- The fallback of a read past the end, which no proved run makes.
abbrev pub no_timer : Timer
no_timer = record { args = 0; expire = pos 0; cb_func = none }

abbrev pub at : List Timer → ℕ → Timer
at ts i = get_or ts i no_timer

abbrev pub expire_at : List Timer → ℕ → ℤ
expire_at ts i = (at ts i).expire

pub at-middle : (pre : List Timer) (t : Timer) (r : List Timer) → at (pre ++ t ∷ r) (length pre) ≡ t
at-middle [] t r = refl
at-middle (p ∷ pre) t r = at-middle pre t r

unfoldable pub slots : List Timer → List (Option Timer) → List (Option Timer)
slots ts rest = map some ts ++ rest

pub length-slots :
    (ts : List Timer) (rest : List (Option Timer))
    → length (slots ts rest) ≡ length ts + length rest
unfolding slots
length-slots ts rest = omega (arith, length-append (map some ts) rest, length-map ts some_timer)
  where
    some_timer : Timer → Option Timer
    some_timer = some

pub get_elem?-slots :
    (ts : List Timer) (rest : List (Option Timer)) (i : ℕ)
    → i < length ts
    → get_elem? (slots ts rest) i ≡ some (some (at ts i))
unfolding slots
get_elem?-slots [] rest i h = absurd (omega arith)
get_elem?-slots (t ∷ ts) rest zero h = refl
get_elem?-slots (t ∷ ts) rest (suc i) h = get_elem?-slots ts rest i (omega arith)

pub set-slots :
    (ts : List Timer) (rest : List (Option Timer)) (i : ℕ) (t : Timer)
    → i < length ts
    → set (slots ts rest) i (some t) ≡ slots (set ts i t) rest
unfolding slots
set-slots [] rest i t h = absurd (omega arith)
set-slots (s ∷ ts) rest zero t h = refl
set-slots (s ∷ ts) rest (suc i) t h = ap (◌∷◌ (some s)) (set-slots ts rest i t (omega arith))

module _ (ts : List Timer) (rest : List (Option Timer)) where
  pub load-slots : (i : ℕ) → i < length ts → load (slots ts rest) i ≡ ok (some (at ts i))
  load-slots i h = load_lem (slots ts rest) i (get_elem?-slots ts rest i h)

  pub deref-slots : (i : ℕ) → i < length ts → deref (slots ts rest) i ≡ ok (at ts i)
  unfolding deref
  deref-slots i h = rw (load-slots i h)

  pub store-slots :
      (i : ℕ) (t : Timer)
      → i < length ts
      → store (slots ts rest) i (some t) ≡ ok (slots (set ts i t) rest)
  store-slots i t h =
      rw (store_lem (slots ts rest) i (some t) (omega (arith, length-slots ts rest)))
        (ap ok (set-slots ts rest i t h))

  pub less-slots :
      (i j : ℕ)
      → i < length ts
      → j < length ts
      → less (slots ts rest) i j ≡ ok (ltb_ℤ (expire_at ts i) (expire_at ts j))
  unfolding less
  less-slots i j hi hj = rw (deref-slots i hi, deref-slots j hj)

module _ (ts : List Timer) (rest : List (Option Timer)) (i j : ℕ) where
  pub swap_slots-slots :
      i < length ts
      → j < length ts
      → swap_slots (slots ts rest) i j ≡ ok (slots (swap no_timer ts i j) rest)
  unfolding swap_slots
  swap_slots-slots hi hj = rw (
    load-slots ts rest i hi,
    load-slots ts rest j hj,
    store-slots ts rest i (at ts j) hi,
    store-slots (set ts i (at ts j)) rest j (at ts i) (rw length-set hj),
    swap_as_sets no_timer ts i j,
  )

pub slots-swap :
    (ts : List Timer) (rest : List (Option Timer)) (i j : ℕ)
    → i < length ts
    → j < length ts
    → slots (swap no_timer ts i j) rest
      ≡ set (set (slots ts rest) i (some (at ts j))) j (some (at ts i))
slots-swap ts rest i j hi hj = rw (
  set-slots ts rest i (at ts j) hi,
  set-slots (set ts i (at ts j)) rest j (at ts i) (rw length-set hj),
  swap_as_sets no_timer ts i j,
)

pub slots-concat :
    (ts : List Timer) (t : Timer) (rest : List (Option Timer))
    → slots (ts ++ t ∷ []) rest ≡ slots ts (some t ∷ rest)
unfolding slots
slots-concat [] t rest = refl
slots-concat (s ∷ ts) t rest = ap (◌∷◌ (some s)) (slots-concat ts t rest)
