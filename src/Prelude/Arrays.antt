-- ===== src/Prelude/Arrays.antt =====
-- C arrays as lists: reads and writes that fault out of bounds, and the laws of exchanging two
-- entries.
use native.Mathlib.Nat.{ℕ_set}
use mathlib.Core.Logic.{∥∥₁_elim}
use mathlib.Core.List.{Permᴰ}
use mathlib.Core.List.Perm
use Prim.Native.Nat.{ℕ, zero, suc, ◌<◌}
use mathlib.Core.Path.{◌≡◌, refl, ap, ◌∙◌}
use mathlib.Core.List.{List, [], ◌∷◌, ◌++◌, Perm}
use mathlib.Core.Option.{some}
use native.Mathlib.Omega.{arith}
use reactor_server.Prelude.Tests.{ltb, lt→ltb, ◌==◌, if◌then◌else◌}
use reactor_server.Prelude.Lists.{length, get_elem?, get_or, set, take, length-set, length-append}
use reactor_server.Prelude.Outcome.{
  Run, ok, fault, or_fault, Stops, stops, stops_fault, Stops-if, or_fault-Stops,
}

module _ {ℓ} {A : Type ℓ} where
  -- `a[i]` as a value.
  unfoldable pub load : List A → ℕ → Run A
  load a i = or_fault (get_elem? a i)

  -- `a[i] = v`.
  unfoldable pub store : List A → ℕ → A → Run (List A)
  store a i v = if ltb i (length a) then ok (set a i v) else fault

  pub load_lem : (a : List A) (i : ℕ) {v : A} → get_elem? a i ≡ some v → load a i ≡ ok v
  unfolding load
  load_lem a i e = rw e

  pub store_lem : (a : List A) (i : ℕ) (v : A) → i < length a → store a i v ≡ ok (set a i v)
  unfolding store
  store_lem a i v h = rw (lt→ltb i (length a) h)

  pub load-Stops : (a : List A) (i : ℕ) → Stops (λ v. Unit {0}) (load a i)
  unfolding load
  load-Stops a i = or_fault-Stops (get_elem? a i)

  pub store-Stops : (a : List A) (i : ℕ) (v : A) → Stops (λ b. Unit {0}) (store a i v)
  unfolding store
  store-Stops a i v = Stops-if (ltb i (length a)) (λ e. stops tt) (λ e. stops_fault)

  pub get_elem?-get_or :
      (a : List A) (i : ℕ) (d : A) → i < length a → get_elem? a i ≡ some (get_or a i d)
  get_elem?-get_or [] i d h = absurd (omega arith)
  get_elem?-get_or (x ∷ a) zero d h = refl
  get_elem?-get_or (x ∷ a) (suc i) d h = get_elem?-get_or a i d (omega arith)

  pub set-set : (a : List A) (i : ℕ) (v w : A) → set (set a i v) i w ≡ set a i w
  set-set [] i v w = refl
  set-set (x ∷ a) zero v w = refl
  set-set (x ∷ a) (suc i) v w = ap (◌∷◌ x) (set-set a i v w)

  pub get_or-set :
      (a : List A) (i j : ℕ) (v d : A)
      → i < length a
      → get_or (set a i v) j d ≡ (if i == j then v else get_or a j d)
  get_or-set [] i j v d h = absurd (omega arith)
  get_or-set (x ∷ a) zero zero v d h = refl
  get_or-set (x ∷ a) zero (suc j) v d h = ground arith
  get_or-set (x ∷ a) (suc i) zero v d h = ground arith
  get_or-set (x ∷ a) (suc i) (suc j) v d h = ground (arith, get_or-set a i j v d)

  -- Writing an entry that is there changes nothing.
  pub set-get_or : (a : List A) (i : ℕ) (d : A) → set a i (get_or a i d) ≡ a
  set-get_or [] i d = refl
  set-get_or (x ∷ a) zero d = refl
  set-get_or (x ∷ a) (suc i) d = ap (◌∷◌ x) (set-get_or a i d)

  same_length : {xs ys : List A} → Permᴰ xs ys → length xs ≡ length ys
  same_length Permᴰ.nil = refl
  same_length (Permᴰ.cons x rest) = ap suc (same_length rest)
  same_length (Permᴰ.swap x y) = refl
  same_length (Permᴰ.trans first second) = same_length first ∙ same_length second

  pub length-perm : {xs ys : List A} → Perm xs ys → length xs ≡ length ys
  length-perm moved = ∥∥₁_elim moved (ℕ_set _ _) same_length

  -- A write trades the old entry for the new one.
  pub set-perm :
      (a : List A) (i : ℕ) (v d : A) → i < length a → Perm (get_or a i d ∷ set a i v) (v ∷ a)
  set-perm [] i v d h = absurd (omega arith)
  set-perm (x ∷ a) zero v d h = Perm.swap v x a
  set-perm (x ∷ a) (suc i) v d h =
      Perm.trans (Perm.swap x (get_or a i d) (set a i v))
        (Perm.trans (Perm.cons x (set-perm a i v d (omega arith))) (Perm.swap v x a))

module _ {ℓ} {A : Type ℓ} where
  pub get_elem?-middle :
      (pre : List A) (x : A) (r : List A) → get_elem? (pre ++ x ∷ r) (length pre) ≡ some x
  get_elem?-middle [] x r = refl
  get_elem?-middle (p ∷ pre) x r = get_elem?-middle pre x r

  pub set-middle :
      (pre : List A) (x v : A) (r : List A) → set (pre ++ x ∷ r) (length pre) v ≡ pre ++ v ∷ r
  set-middle [] x v r = refl
  set-middle (p ∷ pre) x v r = ap (◌∷◌ p) (set-middle pre x v r)

  -- A write to the entry behind `pre`.
  pub store-middle :
      (pre : List A) (x v : A) (r : List A) (n : ℕ)
      → n ≡ length pre
      → store (pre ++ x ∷ r) n v ≡ ok (pre ++ v ∷ r)
  store-middle pre x v r n e =
      store_lem (pre ++ x ∷ r) n v (omega (arith, length-append pre (x ∷ r)))
      ∙ ap ok (rw e (set-middle pre x v r))

  pub length-concat : (pre : List A) (x : A) → length (pre ++ x ∷ []) ≡ suc (length pre)
  length-concat pre x = omega (arith, length-append pre (x ∷ []))

module _ {ℓ} {A : Type ℓ} (d : A) where
  pub get_or-take : (n : ℕ) (a : List A) (i : ℕ) → i < n → get_or (take n a) i d ≡ get_or a i d
  get_or-take zero a i h = absurd (omega arith)
  get_or-take (suc n) [] i h = refl
  get_or-take (suc n) (x ∷ a) zero h = refl
  get_or-take (suc n) (x ∷ a) (suc i) h = get_or-take n a i (omega arith)

  pub get_or-append_left :
      (a b : List A) (i : ℕ) → i < length a → get_or (a ++ b) i d ≡ get_or a i d
  get_or-append_left [] b i h = absurd (omega arith)
  get_or-append_left (x ∷ a) b zero h = refl
  get_or-append_left (x ∷ a) b (suc i) h = get_or-append_left a b i (omega arith)

  pub take-append-last : (n : ℕ) (a : List A) → length a ≡ suc n → take n a ++ get_or a n d ∷ [] ≡ a
  take-append-last n [] h = absurd (omega arith)
  take-append-last zero (x ∷ []) h = refl
  take-append-last zero (x ∷ y ∷ a) h = absurd (omega arith)
  take-append-last (suc n) (x ∷ a) h = ap (◌∷◌ x) (take-append-last n a (omega arith))

-- The exchange of two entries of an array with the fallback `d`.
module _ {ℓ} {A : Type ℓ} (d : A) where
  pub swap : List A → ℕ → ℕ → List A
  swap a i j = set (set a i (get_or a j d)) j (get_or a i d)

  pub swap_as_sets :
      (a : List A) (i j : ℕ) → swap a i j ≡ set (set a i (get_or a j d)) j (get_or a i d)
  unfolding swap
  swap_as_sets a i j = refl

  pub length-swap : (a : List A) (i j : ℕ) → length (swap a i j) ≡ length a
  unfolding swap
  length-swap a i j = simp length-set

  pub get_or-swap :
      (a : List A) (i j c : ℕ)
      → i < length a
      → j < length a
      → get_or (swap a i j) c d
        ≡ (if j == c then get_or a i d else if i == c then get_or a j d else get_or a c d)
  unfolding swap
  get_or-swap a i j c hi hj = rw (
    get_or-set (set a i (get_or a j d)) j c (get_or a i d) d (rw length-set hj),
    get_or-set a i c (get_or a j d) d hi,
  )

  pub swap-perm : (a : List A) (i j : ℕ) → i < length a → j < length a → Perm (swap a i j) a
  unfolding swap
  swap-perm a i j hi hj =
      let b = set a i (get_or a j d) in
      let same : get_or b j d ≡ get_or a j d = ground (arith, get_or-set a i j (get_or a j d) d) in
      let back = rw same at (set-perm b j (get_or a i d) d (rw length-set hj)) in
      Perm.cons_inv (Perm.trans back (set-perm a i (get_or a j d) d hi))
