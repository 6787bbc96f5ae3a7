-- ===== src/Config/Lookup.antt =====
-- get_config on a file of lines `key = value` that have a blank behind each key.
use reactor_server.Prelude.{◌≡◌, false, List, [], ◌∷◌, ◌++◌, All}
use reactor_server.Prelude.Bytes.{Bytes}
use reactor_server.Config.{is_empty}
use reactor_server.Config.Lines.{Entry, IsEntry, right_of, line_of}

-- A blank stands behind the key.
abbrev pub AreSpaced : List Entry → Type 0
AreSpaced = All (λ e. is_empty e.gap ≡ false)

module _ (e : Entry) (v : IsEntry e) (spaced : is_empty e.gap ≡ false) (rest : Bytes) where
  -- The memory `line` once the line was read.
  abbrev memory : Bytes
  memory = (line_of e ++ b'\n' ∷ []) ++ 0 ∷ rest

  -- The memory behind the blanks that are in front of the `=`.
  abbrev behind_gap : Bytes
  behind_gap = b'=' ∷ ((right_of e ++ b'\n' ∷ []) ++ 0 ∷ rest)
