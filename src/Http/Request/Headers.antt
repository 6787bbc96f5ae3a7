-- ===== src/Http/Request/Headers.antt =====
-- addHeader on a header line: `key`, a colon, `blanks`, `value`, and the 0 that parseLine wrote
-- over the line end.
use reactor_server.Prelude.{
  ℕ, zero, suc, ◌+◌, ◌-◌, ◌≡◌, refl, ap, Bool, true, false, [], ◌∷◌, ◌++◌, arith, length, drop,
  take-length-append, drop-length-append, drop-suc, drop-add, All, ltb, ok, fault, out_of_fuel,
  ◌>>=◌, none, some,
}
use reactor_server.Prelude.Bytes.{Bytes, is_space}
use reactor_server.Prelude.Dict.{lookup, insert}
use reactor_server.Http.Request
use reactor_server.Http.Request.{
  HttpRequest, skip_space, ends_in_space, trim_loop, add_header, value_between, get_header,
}

abbrev pub starts_in_space : Bytes → Bool
starts_in_space [] = false
starts_in_space (c ∷ s) = is_space c

-- The spaces are passed, and the scan stops at the value, or at the 0 behind an empty one.
skip_space_lem :
    (blanks value rest : Bytes) (i : ℕ)
    → All (λ c. is_space c ≡ true) blanks
    → starts_in_space value ≡ false
    → skip_space (blanks ++ (value ++ 0 ∷ rest)) i ≡ ok (i + length blanks)
unfolding skip_space
skip_space_lem [] [] rest i b v = ap ok (omega arith)
skip_space_lem [] (c ∷ value) rest i b v = rw v (ap ok (omega arith))
skip_space_lem (x ∷ blanks) value rest i b v =
    rw (b.0, skip_space_lem blanks value rest (suc i) b.1 v) (ap ok (omega arith))

trim_loop-trimmed :
    (trims : ℕ) (value : Bytes)
    → ends_in_space value ≡ false
    → trim_loop (suc trims) value ≡ ok value
unfolding trim_loop
trim_loop-trimmed trims value e = rw (e, trim_loop)

trim_loop-hangs :
    (trims : ℕ) (value : Bytes) → ends_in_space value ≡ true → trim_loop trims value ≡ out_of_fuel
unfolding trim_loop
trim_loop-hangs zero value e = refl
trim_loop-hangs (suc trims) value e = rw (e, trim_loop) (trim_loop-hangs trims value e)

module _ (key blanks value rest : Bytes) where
  -- What stands in memory from the start of the line on, and the line's length.
  abbrev pub header_line : Bytes
  header_line = key ++ b':' ∷ (blanks ++ (value ++ 0 ∷ rest))

  abbrev pub header_length : ℕ
  header_length = length key + (1 + (length blanks + length value))

  behind_colon : drop (suc (length key)) header_line ≡ blanks ++ (value ++ 0 ∷ rest)
  behind_colon = drop-suc key b':' (blanks ++ (value ++ 0 ∷ rest))

  value_between-value :
      value_between header_line (suc (length key) + length blanks) header_length ≡ ok value
  unfolding value_between
  value_between-value =
      let size : header_length - (suc (length key) + length blanks) ≡ length value = omega arith in
      let order : ltb header_length (suc (length key) + length blanks) ≡ false = ground arith in
      rw (
        order,
        size,
        drop-add (suc (length key)) (length blanks) header_line,
        behind_colon,
        drop-length-append blanks (value ++ 0 ∷ rest),
        take-length-append value (0 ∷ rest),
      )

  module _ (all_blank : All (λ c. is_space c ≡ true) blanks)
      (starts : starts_in_space value ≡ false) (trims : ℕ) (r : HttpRequest) where
    added_lem :
        add_header trims r header_line (length key) header_length
        ≡ (trim_loop trims value >>= λ v. ok (record r { headers = insert key v r.headers }))
    unfolding add_header
    added_lem =
        let filled : ltb 0 header_length ≡ true = ground arith in
        rw (
          filled,
          behind_colon,
          skip_space_lem blanks value rest (suc (length key)) all_blank starts,
          value_between-value,
          take-length-append key (b':' ∷ (blanks ++ (value ++ 0 ∷ rest))),
        )

  -- addHeader on the text of a header line, a key, a colon, spaces and a value that neither starts
  -- nor ends in a space, stores the value under the key and changes nothing else.
  pub add_header-stores :
      (trims : ℕ) (r : HttpRequest)
      → All (λ c. is_space c ≡ true) blanks
      → starts_in_space value ≡ false
      → ends_in_space value ≡ false
      → add_header (suc trims) r header_line (length key) header_length
        ≡ ok (record r { headers = insert key value r.headers })
  add_header-stores trims r b starts ends =
      rw (added_lem b starts (suc trims) r, trim_loop-trimmed trims value ends)

  -- addHeader on the text of a header line, a key, a colon, spaces and a value that starts in no
  -- space and ends in one, does not end: the trimming loop uses up any number of rounds.
  pub add_header-hangs :
      (trims : ℕ) (r : HttpRequest)
      → All (λ c. is_space c ≡ true) blanks
      → starts_in_space value ≡ false
      → ends_in_space value ≡ true
      → add_header trims r header_line (length key) header_length ≡ out_of_fuel
  add_header-hangs trims r b starts ends =
      rw (added_lem b starts trims r, trim_loop-hangs trims value ends)

-- getHeader returns the value of a stored header, and reads through the end iterator where the
-- key is not there.
pub get_header_lem :
    (r : HttpRequest) (key : Bytes)
    → ((v : Bytes) → lookup key r.headers ≡ some v → get_header r key ≡ ok v)
      × (lookup key r.headers ≡ none → get_header r key ≡ fault)
unfolding get_header
get_header_lem r key = (λ v e. rw e, λ e. rw e)

pub reset_lem : (r : HttpRequest) → Request.reset r ≡ Request.new
unfolding Request.reset Request.new
reset_lem r = refl
