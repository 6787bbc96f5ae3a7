-- ===== src/Prelude/Dict.antt =====
-- `std::map<std::string, V>` as its list of entries, in the order in which the map is walked.
use mathlib.Core.Path.{◌≡◌, refl}
use mathlib.Core.Option.{Option, none, some}
use mathlib.Core.List.{List, [], ◌∷◌}
use native.Mathlib.Omega.{arith}
use reactor_server.Prelude.Tests.{if◌then◌else◌}
use reactor_server.Prelude.Bytes.{Bytes, bytes_eq, bytes_lt, bytes_eq_refl, eq_of_bytes_eq}

abbrev pub Dict {ℓ} : Type ℓ → Type ℓ
Dict V = List (Bytes × V)

module _ {ℓ} {V : Type ℓ} where
  -- `find`.
  unfoldable pub lookup : Bytes → Dict V → Option V
  lookup k [] = none
  lookup k ((j, w) ∷ m) = if bytes_eq k j then some w else lookup k m

  -- `m[k] = v`.
  unfoldable pub insert : Bytes → V → Dict V → Dict V
  insert k v [] = (k, v) ∷ []
  insert k v ((j, w) ∷ m) =
      if bytes_eq k j
      then (k, v) ∷ m
      else if bytes_lt k j
      then (k, v) ∷ (j, w) ∷ m
      else (j, w) ∷ insert k v m

  pub lookup-insert :
      (j k : Bytes) (v : V) (m : Dict V)
      → lookup j (insert k v m) ≡ (if bytes_eq j k then some v else lookup j m)
  unfolding lookup insert
  lookup-insert j k v [] = refl
  lookup-insert j k v ((i, w) ∷ m) = ground (
    arith,
    eq_of_bytes_eq k i,
    eq_of_bytes_eq j i,
    eq_of_bytes_eq j k,
    bytes_eq_refl j,
    lookup-insert j k v m,
  )

module _ {ℓ} {V : Type ℓ} where
  -- `erase`, which returns how many entries there were: as many as `find` finds, since a map holds a
  -- key once.
  unfoldable pub erase : Bytes → Dict V → Dict V
  erase k [] = []
  erase k ((j, w) ∷ m) = if bytes_eq k j then erase k m else (j, w) ∷ erase k m

  pub lookup-erase :
      (j k : Bytes) (m : Dict V)
      → lookup j (erase k m) ≡ (if bytes_eq j k then none else lookup j m)
  unfolding lookup erase
  lookup-erase j k [] = ground (arith)
  lookup-erase j k ((i, w) ∷ m) = ground (
    arith,
    eq_of_bytes_eq k i,
    eq_of_bytes_eq j i,
    eq_of_bytes_eq j k,
    bytes_eq_refl j,
    lookup-erase j k m,
  )
