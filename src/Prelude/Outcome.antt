-- ===== src/Prelude/Outcome.antt =====
-- How a call ends, and the rules for calls that end well.
use mathlib.Core.Path.{◌≡◌, refl, subst}
use mathlib.Core.Option.{Option, none, some}
use mathlib.Core.Logic.{◌≢◌}
use mathlib.Core.Bool.{Bool, true, false}
use native.Mathlib.Omega.{arith}
use reactor_server.Prelude.Tests.{if◌then◌else◌}

-- A returned value; a thrown exception; a failed `assert` or `exit`, which ends the process; a
-- memory access that C++ leaves undefined; a loop that used up the rounds the model gave it.
pub data Run {ℓ} (A : Type ℓ) : Type ℓ where
  ok : A → Run A
  throws aborts fault out_of_fuel : Run A

infixl 5 ◌>>=◌ ◌>>◌
abbrev pub ◌>>=◌ {ℓ κ} : {A : Type ℓ} {B : Type κ} → Run A → (A → Run B) → Run B
ok a >>= f = f a
throws >>= f = throws
aborts >>= f = aborts
fault >>= f = fault
out_of_fuel >>= f = out_of_fuel

abbrev pub ◌>>◌ {ℓ} : {B : Type ℓ} → Run (Unit {0}) → Run B → Run B
m >> k = m >>= λ _. k

-- `assert(b)`.
abbrev pub assert : Bool → Run (Unit {0})
assert true = ok tt
assert false = aborts

-- A read through a pointer or an index that may be bad.
abbrev pub or_fault {ℓ} : {A : Type ℓ} → Option A → Run A
or_fault none = fault
or_fault (some a) = ok a

-- The call returns normally, with a value that satisfies `P`.
pub data Returns {ℓ κ} {V : Type ℓ} (P : V → Type κ) : Run V → Type (ℓ ⊔ κ) where
  returns : {v : V} → P v → Returns P (ok v)

module _ {ℓ κ} {V : Type ℓ} {P : V → Type κ} where
  pub Returns-bind {ℓ' κ'} :
      {W : Type ℓ'} {Q : W → Type κ'} {call : Run V} {rest : V → Run W}
      → Returns P call
      → ((v : V) → P v → Returns Q (rest v))
      → Returns Q (call >>= rest)
  Returns-bind (returns holds) next = next _ holds

  pub Returns-map {κ'} :
      {Q : V → Type κ'} {call : Run V} → ((v : V) → P v → Q v) → Returns P call → Returns Q call
  Returns-map weaken (returns holds) = returns (weaken _ holds)

  pub Returns-if :
      {yes no : Run V} (test : Bool)
      → (test ≡ true → Returns P yes)
      → (test ≡ false → Returns P no)
      → Returns P (if test then yes else no)
  Returns-if true on off = on refl
  Returns-if false on off = off refl

  -- What a call that returns returned.
  pub Returns-inv : {call : Run V} → Returns P call → (v : V) × (call ≡ ok v) × P v
  Returns-inv (returns holds) = (_, refl, holds)

  pub Returns-value : {call : Run V} (v : V) → Returns P call → call ≡ ok v → P v
  Returns-value v h e = let (w, f, holds) = Returns-inv h in subst P (cc) holds

-- An assertion that holds is passed.
pub Returns-assert {ℓ κ} :
    {A : Type ℓ} {P : A → Type κ} {r : Run A} (b : Bool)
    → b ≡ true
    → Returns P r
    → Returns P (assert b >> r)
Returns-assert true h p = p
Returns-assert false h p = absurd (ground (arith, h))

pub assert-true {ℓ} : {A : Type ℓ} {r : Run A} (b : Bool) → b ≡ true → (assert b >> r) ≡ r
assert-true true e = refl
assert-true false e = absurd (ground (arith, e))

-- The call does not use up its rounds, and a value that it returns satisfies `P`.
pub data Stops {ℓ κ} {V : Type ℓ} (P : V → Type κ) : Run V → Type (ℓ ⊔ κ) where
  stops : {v : V} → P v → Stops P (ok v)
  stops_throws : Stops P throws
  stops_aborts : Stops P aborts
  stops_fault : Stops P fault

module _ {ℓ κ} {V : Type ℓ} {P : V → Type κ} where
  pub Stops-bind {ℓ' κ'} :
      {W : Type ℓ'} {Q : W → Type κ'} {call : Run V} {rest : V → Run W}
      → Stops P call
      → ((v : V) → P v → Stops Q (rest v))
      → Stops Q (call >>= rest)
  Stops-bind (stops holds) next = next _ holds
  Stops-bind stops_throws next = stops_throws
  Stops-bind stops_aborts next = stops_aborts
  Stops-bind stops_fault next = stops_fault

  pub Stops-map {κ'} :
      {Q : V → Type κ'} {call : Run V} → ((v : V) → P v → Q v) → Stops P call → Stops Q call
  Stops-map weaken (stops holds) = stops (weaken _ holds)
  Stops-map weaken stops_throws = stops_throws
  Stops-map weaken stops_aborts = stops_aborts
  Stops-map weaken stops_fault = stops_fault

  pub Stops-if :
      {yes no : Run V} (test : Bool)
      → (test ≡ true → Stops P yes)
      → (test ≡ false → Stops P no)
      → Stops P (if test then yes else no)
  Stops-if true on off = on refl
  Stops-if false on off = off refl

  pub Stops-ne : {call : Run V} → Stops P call → call ≢ out_of_fuel
  Stops-ne (stops holds) e = cc
  Stops-ne stops_throws e = cc
  Stops-ne stops_aborts e = cc
  Stops-ne stops_fault e = cc

-- A call that makes no loop.
pub or_fault-Stops {ℓ} : {A : Type ℓ} (o : Option A) → Stops (λ a. Unit {0}) (or_fault o)
or_fault-Stops none = stops_fault
or_fault-Stops (some a) = stops tt

pub Stops-option {ℓ κ ν} :
    {A : Type ℓ} {V : Type κ} {P : V → Type ν} {without : Run V} {found : A → Run V} (o : Option A)
    → Stops P without
    → ((a : A) → Stops P (found a))
    → Stops P (elim o [ none ↦ without | some a ↦ found a ])
Stops-option none off on = off
Stops-option (some a) off on = on a
