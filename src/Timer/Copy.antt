-- ===== src/Timer/Copy.antt =====
-- The copying loops of the constructor and of resize.
use reactor_server.Prelude.{
  suc, ◌≤◌, ◌≡◌, refl, sym, ap, ◌∙◌, List, [], ◌∷◌, ◌++◌, map, append_assoc, Option, some, arith,
  length, take, drop, take-append-drop, length-take, length-append, length-map, ok,
}
use reactor_server.Prelude.Arrays.{
  load, store, load_lem, store_lem, get_elem?-middle, set-middle, length-concat,
}
use reactor_server.Timer.{Timer, copy}
use reactor_server.Timer.Slots.{slots}

-- The loop writes the entries it reads over those that stand at the same places.
pub copy_lem :
    (new old pre pre' r r' : List (Option Timer))
    → length pre ≡ length pre'
    → length new ≡ length old
    → copy (length new) (length pre) (pre ++ (new ++ r)) (pre' ++ (old ++ r'))
      ≡ ok (pre' ++ (new ++ r'))
unfolding copy
copy_lem [] [] pre pre' r r' e f = refl
copy_lem [] (y ∷ old) pre pre' r r' e f = absurd (omega arith)
copy_lem (x ∷ new) [] pre pre' r r' e f = absurd (omega arith)
copy_lem (x ∷ new) (y ∷ old) pre pre' r r' e f =
    let there : load (pre ++ x ∷ (new ++ r)) (length pre) ≡ ok x =
      load_lem _ _ (get_elem?-middle pre x (new ++ r)) in
    let written : store (pre' ++ y ∷ (old ++ r')) (length pre) x ≡ ok (pre' ++ x ∷ (old ++ r')) =
      rw e (
        store_lem (pre' ++ y ∷ (old ++ r')) (length pre') x
          (omega (arith, length-append pre' (y ∷ (old ++ r'))))
        ∙ ap ok (set-middle pre' y x (old ++ r'))) in
    let ih =
      copy_lem new old (pre ++ x ∷ []) (pre' ++ x ∷ []) r r'
        (length-concat pre x ∙ ap suc e ∙ sym (length-concat pre' x)) (omega arith) in
    rw (there, written) (simp (append_assoc, length-concat) at ih)

module _ (ts : List Timer) (rest : List (Option Timer)) where
  abbrev entry : Timer → Option Timer
  entry = some

  -- The timers end up at the front of the new array, whose other slots keep what they hold.
  copy-slots :
      (old r' : List (Option Timer))
      → length ts ≡ length old
      → copy (length ts) 0 (slots ts rest) (old ++ r') ≡ ok (slots ts r')
  unfolding slots
  copy-slots old r' e =
      rw (length-map ts entry) at
        (copy_lem (map some ts) old [] [] rest r' refl (length-map ts entry ∙ e))

  pub copy-raw :
      (raw : List (Option Timer))
      → length ts ≤ length raw
      → copy (length ts) 0 (slots ts rest) raw ≡ ok (slots ts (drop (length ts) raw))
  copy-raw raw h = rw (take-append-drop (length ts) raw) at (
      copy-slots (take (length ts) raw) (drop (length ts) raw)
        (omega (arith, length-take (length ts) raw)))
