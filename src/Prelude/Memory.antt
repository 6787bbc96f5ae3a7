-- ===== src/Prelude/Memory.antt =====
-- Memory and maps as functions from addresses.
use Prim.Native.Nat.{ℕ}
use mathlib.Core.Path.{◌≡◌, refl, sym, ◌∙◌, subst}
use mathlib.Core.Logic.{◌≢◌, ◌⊎◌, inl, inr}
use mathlib.Core.Bool.{Bool, true, false}
use native.Mathlib.Omega.{arith}
use reactor_server.Prelude.Tests.{◌==◌, if◌then◌else◌}

-- A map or a memory after a write.
unfoldable pub assign {ℓ} : {A : Type ℓ} → (ℕ → A) → ℕ → A → ℕ → A
assign f i a j = if j == i then a else f j

-- A memory after a write, read at the written place and elsewhere.
pub assign_self {ℓ} : {A : Type ℓ} (f : ℕ → A) (i : ℕ) (a : A) → assign f i a i ≡ a
unfolding assign
assign_self f i a = let same : (i == i) ≡ true = ground arith in rw same

pub assign_ne {ℓ} : {A : Type ℓ} (f : ℕ → A) (i : ℕ) (a : A) (j : ℕ) → j ≢ i → assign f i a j ≡ f j
unfolding assign
assign_ne f i a j ne = let other : (j == i) ≡ false = ground (arith, ne) in rw other

pub same-or-other : (i j : ℕ) → (j ≡ i) ⊎ (j ≢ i)
same-or-other i j = ground arith

if-if {ℓ} :
    {A : Type ℓ} (b : Bool) (x y z : A)
    → (if b then x else (if b then y else z)) ≡ (if b then x else z)
if-if true x y z = refl
if-if false x y z = refl

pub assign-assign {ℓ} :
    {A : Type ℓ} (f : ℕ → A) (i : ℕ) (a b : A) → assign (assign f i a) i b ≡ assign f i b
unfolding assign
assign-assign f i a b = λ k j. if-if (j == i) b a (f j) k

pub assign-same {ℓ} : {A : Type ℓ} (f : ℕ → A) (i : ℕ) (a : A) → f i ≡ a → assign f i a ≡ f
assign-same f i a e = λ k j. at j k
  where
    at : (j : ℕ) → assign f i a j ≡ f j
    at j = elim (same-or-other i j) [
      | inl it ↦ subst (λ k. assign f i a k ≡ f k) (sym it) (assign_self f i a ∙ sym e)
      | inr ne ↦ assign_ne f i a j ne
    ]
