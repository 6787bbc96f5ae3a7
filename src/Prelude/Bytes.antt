-- ===== src/Prelude/Bytes.antt =====
-- C strings and `std::string` as lists of bytes, and `std::map` over such keys.
use Prim.Native.Char.{code}
use Prim.Native.String.{String}
use Prim.Native.Nat.{ℕ, zero, suc, ◌+◌, ◌-◌, ◌*◌, ◌/◌, ◌%◌, ◌≤◌, ◌<◌}
use mathlib.Core.Path.{◌≡◌, refl, ap, ◌∙◌}
use mathlib.Core.Bool.{Bool, true, false, ◌&&◌, ◌||◌}
use mathlib.Core.List.{List, [], ◌∷◌}
use mathlib.Core.Logic.{inl, inr}
use native.Mathlib.Omega.{arith}
use reactor_server.Prelude.Lists.{All, length}
use reactor_server.Prelude.Tests.{Bool-cases, ltb, leb, ◌==◌, if◌then◌else◌}

abbrev pub Bytes : Type 0
Bytes = List ℕ

-- The bytes of an ASCII text.
abbrev pub codes : String → Bytes
codes String.[] = []
codes (String.◌∷◌ c s) = code c ∷ codes s

-- `isspace` in the C locale.
abbrev pub is_space : ℕ → Bool
is_space c = c == b' ' || (leb 9 c && leb c 13)

abbrev pub bytes_eq : Bytes → Bytes → Bool
bytes_eq [] [] = true
bytes_eq [] (y ∷ ys) = false
bytes_eq (x ∷ xs) [] = false
bytes_eq (x ∷ xs) (y ∷ ys) = x == y && bytes_eq xs ys

pub bytes_eq_refl : (xs : Bytes) → bytes_eq xs xs ≡ true
bytes_eq_refl [] = refl
bytes_eq_refl (x ∷ xs) = ground (arith, bytes_eq_refl xs)

pub eq_of_bytes_eq : (xs ys : Bytes) → bytes_eq xs ys ≡ true → xs ≡ ys
eq_of_bytes_eq [] [] h = refl
eq_of_bytes_eq [] (y ∷ ys) h = cc
eq_of_bytes_eq (x ∷ xs) [] h = cc
eq_of_bytes_eq (x ∷ xs) (y ∷ ys) h = ground (arith, eq_of_bytes_eq xs ys)

-- The lexicographic order of `std::string`.
abbrev pub bytes_lt : Bytes → Bytes → Bool
bytes_lt xs [] = false
bytes_lt [] (y ∷ ys) = true
bytes_lt (x ∷ xs) (y ∷ ys) = ltb x y || (x == y && bytes_lt xs ys)

-- `s.find(pattern) != npos`.
abbrev pub starts_with : Bytes → Bytes → Bool
starts_with [] s = true
starts_with (p ∷ ps) [] = false
starts_with (p ∷ ps) (c ∷ s) = p == c && starts_with ps s

abbrev pub contains : Bytes → Bytes → Bool
contains pattern [] = starts_with pattern []
contains pattern (c ∷ s) = starts_with pattern (c ∷ s) || contains pattern s

-- `std::to_string` of a number that is not negative. A number has fewer digits than it has units,
-- so `n + 1` rounds print it all.
digits_from : ℕ → ℕ → Bytes → Bytes
digits_from zero n acc = acc
digits_from (suc fuel) n acc =
    let rest = digits_from fuel (n / 10) ((b'0' + n % 10) ∷ acc) in
    if ltb n 10 then (b'0' + n) ∷ acc else rest

unfoldable pub to_decimal : ℕ → Bytes
unfolding digits_from
to_decimal n = digits_from (suc n) n []

abbrev pub is_digit : ℕ → Bool
is_digit c = leb b'0' c && leb c b'9'

digits_from-digits :
    (fuel n : ℕ) (acc : Bytes)
    → All (λ c. is_digit c ≡ true) acc
    → All (λ c. is_digit c ≡ true) (digits_from fuel n acc)
unfolding digits_from
digits_from-digits zero n acc h = h
digits_from-digits (suc fuel) n acc h = elim (Bool-cases (ltb n 10)) [
  | inl e ↦ rw e (ground arith, h)
  | inr e ↦ rw e (digits_from-digits fuel (n / 10) ((b'0' + n % 10) ∷ acc) (ground arith, h))
]

pub to_decimal-digits : (n : ℕ) → All (λ c. is_digit c ≡ true) (to_decimal n)
unfolding to_decimal
to_decimal-digits n = digits_from-digits (suc n) n [] tt

-- The number that a row of digits spells.
abbrev pub decimal_value : ℕ → Bytes → ℕ
decimal_value acc [] = acc
decimal_value acc (c ∷ s) = decimal_value (acc * 10 + (c - b'0')) s

decimal_value-digits_from :
    (fuel n : ℕ) (acc : Bytes)
    → n < fuel
    → decimal_value 0 (digits_from fuel n acc) ≡ decimal_value n acc
unfolding digits_from
decimal_value-digits_from zero n acc f = absurd (omega arith)
decimal_value-digits_from (suc fuel) n acc f = elim (Bool-cases (ltb n 10)) [
  | inl e ↦ rw e (ap (λ (k : ℕ). decimal_value k acc) (omega arith))
  | inr e ↦
      let smaller : n / 10 < fuel = ground arith in
      rw e (
        decimal_value-digits_from fuel (n / 10) ((b'0' + n % 10) ∷ acc) smaller
        ∙ ap (λ (k : ℕ). decimal_value k acc) (omega arith))
]

-- The decimal text of a number reads back as the number.
pub decimal_value-to_decimal : (n : ℕ) → decimal_value 0 (to_decimal n) ≡ n
unfolding to_decimal
decimal_value-to_decimal n = decimal_value-digits_from (suc n) n [] (omega arith)

abbrev pub pow10 : ℕ → ℕ
pow10 zero = 1
pow10 (suc k) = pow10 k * 10

length-digits_from :
    (k fuel n : ℕ) (acc : Bytes)
    → n < pow10 (suc k)
    → length (digits_from fuel n acc) ≤ suc k + length acc
unfolding digits_from
length-digits_from k zero n acc h = omega arith
length-digits_from zero (suc fuel) n acc h =
    let small : ltb n 10 ≡ true = ground arith in rw small (omega arith)
length-digits_from (suc k) (suc fuel) n acc h = elim (Bool-cases (ltb n 10)) [
  | inl e ↦ rw e (omega arith)
  | inr e ↦
      rw e (omega (arith, length-digits_from k fuel (n / 10) ((b'0' + n % 10) ∷ acc) (omega arith)))
]

-- A number below a power of ten has as many digits at most.
pub length-to_decimal : (k n : ℕ) → n < pow10 (suc k) → length (to_decimal n) ≤ suc k
unfolding to_decimal
length-to_decimal k n h = omega (arith, length-digits_from k (suc n) n [] h)
