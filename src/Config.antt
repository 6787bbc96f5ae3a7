-- ===== src/Config.antt =====
-- src/ConfigUtil.h and src/ConfigUtil.cc: the configuration file. The singleton is its state.
pub mod Lines
pub mod Entries
pub mod Lookup
mod Tests
use reactor_server.Prelude.{
  ℕ, zero, suc, ◌+◌, ◌-◌, Bool, true, false, ◌&&◌, ◌||◌, List, [], ◌∷◌, ◌++◌, Option, none, some,
  length, take, drop, find_index, ◌==◌, if◌then◌else◌, Run, ok, aborts, fault, out_of_fuel, ◌>>=◌,
  or_fault,
}
use reactor_server.Prelude.Bytes.{Bytes, codes, bytes_eq}
use reactor_server.Prelude.CString.{c_text, is_blank, span_blank, find, write_at}
use reactor_server.Prelude.Dict.{Dict, lookup, insert}

-- What `fgets` with room for `n` bytes and the 0 stores, and what it leaves of the file: it stops
-- behind a line end.
pub fgets : ℕ → Bytes → Bytes × Bytes
fgets zero s = ([], s)
fgets (suc n) [] = ([], [])
fgets (suc n) (b ∷ s) =
    let (text, rest) = fgets n s in if b == b'\n' then (b ∷ [], s) else (b ∷ text, rest)

-- The room in `line`, without its last byte.
abbrev pub line_room : ℕ
line_room = 254

-- The C string in `line`: a byte 0 of the file ends it.
abbrev pub line_text : Bytes → Bytes
line_text s = take (find_index (λ b. b == 0) s) s

-- The bytes in front of the first blank.
abbrev pub word : Bytes → Bytes
word s = take (find_index is_blank s) s

abbrev pub is_empty : Bytes → Bool
is_empty [] = true
is_empty (b ∷ s) = false

-- The key and the value, once the comment was ruled out.
abbrev pub both_given : Bytes → Bytes → Option (Bytes × Bytes)
both_given key value = if is_empty key || is_empty value then none else some (key, value)

-- The value in what stands behind the `=`.
abbrev pub value_in : Bytes → Bytes
value_in s = word (drop (span_blank s) s)

-- A round of the `while` of init, on a line and where its `=` is: the entry to insert.
pub entry_at : Bytes → Option ℕ → Option (Bytes × Bytes)
entry_at line none = none
entry_at line (some equal) =
    let fs = span_blank line in
    if bytes_eq (take 1 (drop fs line)) (codes "#")
    then none
    else both_given (word (drop fs (take equal line))) (value_in (drop (suc equal) line))

pub entry_in : Bytes → Option (Bytes × Bytes)
entry_in line = entry_at line (find (λ b. b == b'=') line)

-- `std::map::insert`, which keeps the value of a key that is there.
abbrev pub insert_if : Bytes → Bytes → Dict Bytes → Option Bytes → Dict Bytes
insert_if key value m none = insert key value m
insert_if key value m (some old) = m

pub insert_new : Bytes → Bytes → Dict Bytes → Dict Bytes
insert_new key value m = insert_if key value m (lookup key m)

pub add_entry : Option (Bytes × Bytes) → Dict Bytes → Dict Bytes
add_entry none m = m
add_entry (some (key, value)) m = insert_new key value m

-- The `while` of init, on what is left of the file.
pub init_loop : ℕ → Bytes → Dict Bytes → Run (Dict Bytes)
init_loop zero file m = out_of_fuel
init_loop (suc fuel) [] m = ok m
init_loop (suc fuel) (b ∷ file) m =
    let (text, rest) = fgets line_room (b ∷ file) in
    init_loop fuel rest (add_entry (entry_in (line_text text)) m)

-- ConfigFile.
pub record ConfigFile : Type 0 where
  pub conf_map : Dict Bytes

-- `path` is a new string, which is empty: init looks for `/` in it and not in `path_`.
abbrev pub init_path : Bytes → Bytes
init_path path' = codes "/root/" ++ []

-- ConfigFile::init behind `fopen`.
pub read_conf : ConfigFile → Option Bytes → Run ConfigFile
read_conf c none = aborts
read_conf c (some file) = do m ← init_loop (length file + 1) file []; ok (record c { conf_map = m })

-- ConfigFile::init, with `fopen` as the content of the files that can be opened.
pub init : (Bytes → Option Bytes) → ConfigFile → Bytes → Run ConfigFile
init fopen c path' = read_conf c (fopen (init_path path'))

-- `confMap_[key]` puts in an empty string where there is none.
abbrev pub value_or_new : ConfigFile → Bytes → Option Bytes → ConfigFile × Bytes
value_or_new c key none = (record c { conf_map = insert key [] c.conf_map }, [])
value_or_new c key (some value) = (c, value)

pub get_value : ConfigFile → Bytes → ConfigFile × Bytes
get_value c key = value_or_new c key (lookup key c.conf_map)

pub set_value : ConfigFile → Bytes → Bytes → ConfigFile
set_value c key value = record c { conf_map = insert key value c.conf_map }

-- get_config on the memory `line`: the index of the first blank from `from` on, which the `while`
-- looks for wherever it is.
pub blank_from : Bytes → ℕ → Run ℕ
blank_from line from = do i ← or_fault (find is_blank (drop from line)); ok (from + i)

-- A round of its `while` on a line that is no comment; `text` is the C string in `line`. It finds
-- the value, or goes on.
pub match_key : Bytes → Bytes → ℕ → Bytes → Run (Option Bytes)
match_key line text fs key = do
  end ← blank_from line fs
  left ← c_text (drop fs (take end line) ++ 0 ∷ [])
  let found : Run (Option Bytes) = (do
    equal ← or_fault (find (λ b. b == b'=') text)
    ok (some (value_in (drop (suc equal) text))))
  if bytes_eq left key then found else ok none

pub match_line : Bytes → Bytes → Bytes → Run (Option Bytes)
match_line line text key =
    let fs = span_blank text in
    let matched = match_key line text fs key in
    if bytes_eq (take 1 (drop fs text)) (codes "#") then ok none else matched

-- The end of a round: `next` is the rest of the loop.
abbrev pub or_next : Run (Option Bytes) → Option Bytes → Run (Option Bytes)
or_next next none = next
or_next next (some value) = ok (some value)

pub get_config_loop : ℕ → Bytes → Bytes → Bytes → Run (Option Bytes)
get_config_loop zero file line key = out_of_fuel
get_config_loop (suc fuel) [] line key = ok none
get_config_loop (suc fuel) (b ∷ file) line key = do
  let (text, rest) = fgets line_room (b ∷ file)
  stored ← write_at line 0 (text ++ 0 ∷ [])
  matched ← match_line stored (line_text text) key
  or_next (get_config_loop fuel rest stored key) matched

-- get_config behind `fopen`.
pub search_file : Bytes → Bytes → Option Bytes → Run (Option Bytes)
search_file line key none = aborts
search_file line key (some content) = get_config_loop (length content + 1) content line key

-- get_config, with what `line` holds at first, and its arguments, which may be null pointers: the
-- value that it writes where it returns 1.
pub get_config :
    (Bytes → Option Bytes) → Bytes → Option Bytes → Option Bytes → Bool → Run (Option Bytes)
get_config fopen line (some file) (some key) true = search_file line key (fopen file)
get_config fopen line _ _ _ = ok none
