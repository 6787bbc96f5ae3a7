-- ===== src/Config/Entries.antt =====
-- ConfigFile::init on a file of lines `key = value`, and what getValue then finds.
use reactor_server.Prelude.{
  ℕ, zero, suc, ◌+◌, ◌≤◌, ◌<◌, ◌≡◌, refl, sym, ap, ◌∙◌, subst, Bool, true, false, List, [], ◌∷◌,
  ◌++◌, Option, none, some, arith, length, length-append, All, inl, inr, Bool-cases, Option-cases,
  if◌then◌else◌, Returns, returns, Returns-bind, Returns-map,
}
use reactor_server.Prelude.Bytes.{Bytes, codes, bytes_eq, eq_of_bytes_eq}
use reactor_server.Prelude.Dict.{Dict, lookup, lookup-insert}
use reactor_server.Config.{
  fgets, line_room, line_text, is_empty, entry_in, insert_new, add_entry, init_loop, ConfigFile,
  read_conf, init, get_value, set_value,
}
use reactor_server.Config.Lines.{
  Entry, IsEntry, line_of, stored, fgets_line, no_line_end, entry_in-line,
}

-- A file of such lines.
abbrev pub file_of : List Entry → Bytes
file_of [] = []
file_of (e ∷ es) = line_of e ++ b'\n' ∷ file_of es

-- Each line, with its end, is read by one call of fgets.
abbrev pub AreEntries : List Entry → Type 0
AreEntries = All (λ e. IsEntry e × (length (line_of e) < line_room))

-- The first value of a key.
abbrev pub first_value : Bytes → List Entry → Option Bytes
first_value key [] = none
first_value key (e ∷ es) = if bytes_eq key e.key then some (stored e) else first_value key es

abbrev pub or_else : Option Bytes → Option Bytes → Option Bytes
or_else none other = other
or_else (some v) other = some v

abbrev pub or_empty : Option Bytes → Bytes
or_empty none = []
or_empty (some v) = v

lookup-insert_new :
    (j k v : Bytes) (m : Dict Bytes)
    → lookup j (insert_new k v m) ≡ or_else (lookup j m) (if bytes_eq j k then some v else none)
unfolding insert_new
lookup-insert_new j k v m = elim (Option-cases (lookup k m)) [
  | inl e ↦
      rw (e, lookup-insert j k v m)
        (elim (Bool-cases (bytes_eq j k)) [
          | inl same ↦ rw same (
              subst (λ i. some v ≡ or_else (lookup i m) (some v)) (sym (eq_of_bytes_eq j k same))
                (rw e refl))
          | inr other ↦ rw other (sym (or_none (lookup j m)))
        ])
  | inr (w, e) ↦ rw e (elim (Bool-cases (bytes_eq j k)) [
    | inl same ↦ rw same (
        subst (λ i. lookup i m ≡ or_else (lookup i m) (some v)) (sym (eq_of_bytes_eq j k same))
          (rw e refl))
    | inr other ↦ rw other (sym (or_none (lookup j m)))
  ])
]
  where
    or_none : (o : Option Bytes) → or_else o none ≡ o
    or_none none = refl
    or_none (some w) = refl

or_else_assoc :
    (a : Option Bytes) (b : Bool) (v : Bytes) (c : Option Bytes)
    → or_else (or_else a (if b then some v else none)) c ≡ or_else a (if b then some v else c)
or_else_assoc none true v c = refl
or_else_assoc none false v c = refl
or_else_assoc (some w) b v c = refl

-- A round of the loop on a file that is not at its end.
init_loop_round :
    (fuel : ℕ) (file : Bytes) (m : Dict Bytes)
    → is_empty file ≡ false
    → init_loop (suc fuel) file m
      ≡ init_loop fuel
          (fgets line_room file).1
          (add_entry (entry_in (line_text (fgets line_room file).0)) m)
unfolding init_loop
init_loop_round fuel [] m h = absurd (ground (arith, h))
init_loop_round fuel (b ∷ file) m h = refl

pub append-given : (s r : Bytes) (b : ℕ) → is_empty (s ++ b ∷ r) ≡ false
append-given [] r b = refl
append-given (c ∷ s) r b = refl

-- The map has, for each key, the value that it had or else the first one of the lines.
abbrev Adds : List Entry → Dict Bytes → Dict Bytes → Type 0
Adds es m n = (j : Bytes) → lookup j n ≡ or_else (lookup j m) (first_value j es)

init_loop-Adds :
    (es : List Entry) (fuel : ℕ) (m : Dict Bytes)
    → AreEntries es
    → length es < fuel
    → Returns (Adds es m) (init_loop fuel (file_of es) m)
unfolding init_loop add_entry
init_loop-Adds es zero m v f = absurd (omega arith)
init_loop-Adds [] (suc fuel) m v f = returns (λ j. sym (nothing (lookup j m)))
  where
    nothing : (o : Option Bytes) → or_else o none ≡ o
    nothing none = refl
    nothing (some w) = refl
init_loop-Adds (e ∷ es) (suc fuel) m v f =
    let line = line_of e in
    let read = fgets_line line_room line (file_of es) (no_line_end e v.0.0) v.0.1 in
    let entry = entry_in-line e v.0.0 in
    let first : init_loop (suc fuel) (file_of (e ∷ es)) m
        ≡ init_loop fuel (file_of es) (insert_new e.key (stored e) m) =
      init_loop_round fuel (file_of (e ∷ es)) m (append-given line (file_of es) b'\n')
      ∙ ap (λ r. init_loop fuel r.1 (add_entry (entry_in (line_text r.0)) m)) read
      ∙ ap (λ o. init_loop fuel (file_of es) (add_entry o m)) entry in
    subst (Returns (Adds (e ∷ es) m)) (sym first) (
      Returns-map
        (λ n adds j.
          adds j
          ∙ ap (λ o. or_else o (first_value j es)) (lookup-insert_new j e.key (stored e) m)
          ∙ or_else_assoc (lookup j m) (bytes_eq j e.key) (stored e) (first_value j es))
        (init_loop-Adds es fuel (insert_new e.key (stored e) m) v.1 (omega arith)))

pub length-file_of : (es : List Entry) → length es ≤ length (file_of es)
length-file_of [] = omega arith
length-file_of (e ∷ es) =
    omega (arith, length-file_of es, length-append (line_of e) (b'\n' ∷ file_of es))

get_value_lem :
    (c : ConfigFile) (key : Bytes) → (get_value c key).1 ≡ or_empty (lookup key c.conf_map)
unfolding get_value
get_value_lem c key = elim (Option-cases (lookup key c.conf_map)) [
  | inl e ↦ rw e refl
  | inr (v, e) ↦ rw e refl
]

module _ (fopen : Bytes → Option Bytes) (c : ConfigFile) (path' : Bytes) (es : List Entry)
    (found : fopen (codes "/root/") ≡ some (file_of es)) (v : AreEntries es) where
  pub init-first_value :
      Returns (λ d. (key : Bytes) → lookup key d.conf_map ≡ first_value key es) (init fopen c path')
  unfolding init read_conf lookup
  init-first_value = rw found (
      Returns-bind
        (init_loop-Adds es (length (file_of es) + 1) [] v (omega (arith, length-file_of es)))
        (λ m adds. returns adds))

-- getValue puts in an empty string at most, which it would return all the same.
get_value-get_value :
    (c : ConfigFile) (j k : Bytes) → (get_value (get_value c k).0 j).1 ≡ (get_value c j).1
unfolding get_value
get_value-get_value c j k =
    get_value_lem (get_value c k).0 j ∙ same (lookup k c.conf_map) refl ∙ sym (get_value_lem c j)
  where
    same :
        (o : Option Bytes)
        → lookup k c.conf_map ≡ o
        → or_empty (lookup j (get_value c k).0.conf_map) ≡ or_empty (lookup j c.conf_map)
    same none e =
        rw (e, lookup-insert j k [] c.conf_map)
          (elim (Bool-cases (bytes_eq j k)) [
            | inl eq ↦ rw (eq, eq_of_bytes_eq j k eq, e) refl
            | inr ne ↦ rw ne refl
          ])
    same (some w) e = rw e refl

pub get_value-set_value :
    (c : ConfigFile) (j k v : Bytes)
    → ((get_value (set_value c k v) j).1 ≡ (if bytes_eq j k then v else (get_value c j).1))
      × ((get_value (get_value c k).0 j).1 ≡ (get_value c j).1)
unfolding set_value
get_value-set_value c j k v = (
  get_value_lem (set_value c k v) j
      ∙ ap or_empty (lookup-insert j k v c.conf_map)
      ∙ choose (bytes_eq j k) (lookup j c.conf_map)
      ∙ ap (λ w. if bytes_eq j k then v else w) (sym (get_value_lem c j)),
  get_value-get_value c j k,
)
  where
    choose :
        (b : Bool) (o : Option Bytes)
        → or_empty (if b then some v else o) ≡ (if b then v else or_empty o)
    choose true o = refl
    choose false o = refl
