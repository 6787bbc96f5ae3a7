-- ===== src/Prelude/CString.antt =====
-- The functions of <string.h>, <strings.h> and <stdlib.h> that read C strings, which end in front
-- of their first 0, and the memory that they lie in.
use Prim.Native.Nat.{ℕ, zero, suc, ◌+◌, ◌-◌, ◌*◌, ◌%◌, ◌^◌, ◌≤◌, ◌<◌}
use mathlib.Core.Path.{◌≡◌, refl}
use mathlib.Core.Bool.{Bool, true, false, ◌&&◌, ◌||◌}
use mathlib.Core.List.{[], ◌∷◌, ◌++◌, map, append_assoc}
use mathlib.Core.Option.{Option, none, some}
use native.Mathlib.Omega.{arith}
use reactor_server.Prelude.Tests.{ltb, leb, ◌==◌, if◌then◌else◌}
use reactor_server.Prelude.Lists.{
  length, length-append, take, drop, take-front, length-take, length-drop, drop-length-append,
  find_index, find_index-append, All,
}
use reactor_server.Prelude.Int.{ℤ, pos, negsuc}
use reactor_server.Prelude.Bytes.{Bytes, bytes_eq, is_space, is_digit}
use reactor_server.Prelude.Outcome.{
  Run, ok, fault, ◌>>=◌, Stops, stops, stops_fault, Stops-if, Stops-bind,
}

-- The C string at the front of a memory; to read one that does not end is undefined.
unfoldable pub c_text : Bytes → Run Bytes
c_text [] = fault
c_text (c ∷ s) =
    let rest : Run Bytes = (do t ← c_text s; ok (c ∷ t)) in if c == 0 then ok [] else rest

-- A pointer into `buf`, as the index that it points to.
unfoldable pub string_at : Bytes → ℕ → Run Bytes
unfolding c_text
string_at buf i = c_text (drop i buf)

c_text-Stops : (s : Bytes) → Stops (λ t. Unit {0}) (c_text s)
unfolding c_text
c_text-Stops [] = stops_fault
c_text-Stops (c ∷ s) =
    Stops-if (c == 0) (λ e. stops tt) (λ e. Stops-bind (c_text-Stops s) (λ t u. stops tt))

pub string_at-Stops : (buf : Bytes) (i : ℕ) → Stops (λ t. Unit {0}) (string_at buf i)
unfolding string_at
string_at-Stops buf i = c_text-Stops (drop i buf)

-- A string behind other bytes, with its end.
abbrev pub IsText : Bytes → Type 0
IsText = All (λ b. (b == 0) ≡ false)

pub c_text_lem : (s r : Bytes) → IsText s → c_text (s ++ 0 ∷ r) ≡ ok s
unfolding c_text
c_text_lem [] r h = refl
c_text_lem (c ∷ s) r h = rw (h.0, c_text_lem s r h.1)

pub string_at_lem :
    (pre s r : Bytes) (n : ℕ) → n ≡ length pre → IsText s → string_at (pre ++ (s ++ 0 ∷ r)) n ≡ ok s
unfolding string_at
string_at_lem pre s r n e h = rw (e, drop-length-append pre (s ++ 0 ∷ r)) (c_text_lem s r h)

-- `isblank`, and the two bytes of the set " \t".
abbrev pub is_blank : ℕ → Bool
is_blank c = c == b' ' || c == b'\t'

-- `strspn(s, " \t")`.
unfoldable pub span_blank : Bytes → ℕ
span_blank [] = 0
span_blank (c ∷ s) = if is_blank c then suc (span_blank s) else 0

-- `strpbrk` and `strchr`, with the bytes that they look for as a test: the index of the first.
unfoldable pub find : (ℕ → Bool) → Bytes → Option ℕ
find test s = let i = find_index test s in if i == length s then none else some i

pub find-append :
    (test : ℕ → Bool) (xs : Bytes) (x : ℕ) (r : Bytes)
    → All (λ b. test b ≡ false) xs
    → test x ≡ true
    → find test (xs ++ x ∷ r) ≡ some (length xs)
unfolding find
find-append test xs x r h e =
    let inside : (length xs == length (xs ++ x ∷ r)) ≡ false =
      ground (arith, length-append xs (x ∷ r)) in
    rw (find_index-append test xs x r h e, inside)

-- `tolower` in the C locale.
abbrev pub to_lower : ℕ → ℕ
to_lower c = if leb b'A' c && leb c b'Z' then c + 32 else c

-- `strcasecmp(s, t) == 0` and `strncasecmp(s, t, strlen(t)) == 0`.
unfoldable pub same_text : Bytes → Bytes → Bool
same_text s t = bytes_eq (map to_lower s) (map to_lower t)

unfoldable pub has_prefix : Bytes → Bytes → Bool
unfolding same_text
has_prefix s t = same_text (take (length t) s) t

abbrev skip_space : Bytes → Bytes
skip_space [] = []
skip_space (c ∷ s) = elim (is_space c) [ true ↦ skip_space s | false ↦ c ∷ s ]

abbrev digits_value : ℕ → Bytes → ℕ
digits_value acc [] = acc
digits_value acc (c ∷ s) = elim (is_digit c) [
  | true ↦ digits_value (acc * 10 + (c - b'0')) s
  | false ↦ acc
]

abbrev signed : Bytes → ℤ
signed [] = pos 0
signed (c ∷ s) =
    let n = digits_value 0 s in
    let negative : ℤ = elim n [ zero ↦ pos 0 | suc k ↦ negsuc k ] in
    if c == b'-' then negative else if c == b'+' then pos n else pos (digits_value 0 (c ∷ s))

abbrev pub in_long : ℤ → Bool
in_long (pos n) = ltb n (2 ^ 63)
in_long (negsuc n) = ltb n (2 ^ 63)

-- `atol`, whose behaviour out of the range of a `long` is undefined.
unfoldable pub atol : Bytes → Run ℤ
atol s = let n = signed (skip_space s) in if in_long n then ok n else fault

pub atol-Stops : (s : Bytes) → Stops (λ n. Unit {0}) (atol s)
unfolding atol
atol-Stops s = Stops-if (in_long (signed (skip_space s))) (λ e. stops tt) (λ e. stops_fault)

-- A `long` as an `int`: 32 bits, in two's complement.
unfoldable pub to_int : ℤ → ℤ
to_int (pos n) = let m = n % (2 ^ 32) in if ltb m (2 ^ 31) then pos m else negsuc (2 ^ 32 - m - 1)
to_int (negsuc n) =
    let m = n % (2 ^ 32) in if ltb m (2 ^ 31) then negsuc m else pos (2 ^ 32 - m - 1)

-- A memory with `text` written from the index `i` on; a write past its end is undefined.
unfoldable pub write_at : Bytes → ℕ → Bytes → Run Bytes
write_at buf i text =
    if leb (i + length text) (length buf)
    then ok (take i buf ++ (text ++ drop (i + length text) buf))
    else fault

-- The memory behind a write of `text` at `i`.
abbrev pub written : Bytes → ℕ → Bytes → Bytes
written buf i text = take i buf ++ (text ++ drop (i + length text) buf)

module _ (buf : Bytes) (i : ℕ) (text : Bytes) (fits : i + length text ≤ length buf) where
  pub write_at_lem : write_at buf i text ≡ ok (written buf i text)
  unfolding write_at
  write_at_lem = let e : leb (i + length text) (length buf) ≡ true = ground arith in rw e

  pub length-written : length (written buf i text) ≡ length buf
  length-written = omega (
    arith,
    length-append (take i buf) (text ++ drop (i + length text) buf),
    length-append text (drop (i + length text) buf),
    length-take i buf,
    length-drop (i + length text) buf,
  )

  pub take-written : take (i + length text) (written buf i text) ≡ take i buf ++ text
  take-written = rw (← append_assoc (take i buf) text (drop (i + length text) buf)) (
      take-front (i + length text) (take i buf ++ text) (drop (i + length text) buf)
        (omega (arith, length-append (take i buf) text, length-take i buf)))

-- A number below 2 ^ 31 is an `int`.
pub to_int_small : (n : ℕ) → n < 2147483648 → to_int (pos n) ≡ pos n
unfolding to_int
to_int_small n h =
    let same : n % 4294967296 ≡ n = omega arith in
    let low : ltb n 2147483648 ≡ true = ground arith in rw (same, low)
