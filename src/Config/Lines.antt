-- ===== src/Config/Lines.antt =====
-- A line of the configuration file, and what the loop of ConfigFile::init makes of it.
use reactor_server.Prelude.{
  ℕ, zero, suc, ◌<◌, ◌≡◌, refl, ap, ◌∙◌, Bool, true, false, ◌||◌, [], ◌∷◌, ◌++◌, some, append-nil,
  append_assoc, arith, length, take, drop, take-front, take_whole, drop-length-append, drop-suc,
  find_index-append, find_index-none, All, All-append, ◌==◌, if◌then◌else◌,
}
use reactor_server.Prelude.Bytes.{Bytes, codes, bytes_eq}
use reactor_server.Prelude.CString.{is_blank, span_blank, find, find-append}
use reactor_server.Config.{fgets, line_text, word, is_empty, value_in, entry_at, entry_in}

-- The bytes of a key or a value, and those between them.
abbrev pub in_word : ℕ → Bool
in_word b = is_blank b || (b == 0 || (b == b'\n' || b == b'='))

abbrev pub IsWord : Bytes → Type 0
IsWord = All (λ b. in_word b ≡ false)

abbrev pub IsBlanks : Bytes → Type 0
IsBlanks = All (λ b. is_blank b ≡ true)

-- A line `key = value`, with the blanks in front of the key, of the `=`, of the value and of the
-- line end.
pub record Entry : Type 0 where
  pub lead : Bytes
  pub key : Bytes
  pub gap : Bytes
  pub space : Bytes
  pub value : Bytes
  pub tail : Bytes

pub record IsEntry (e : Entry) : Type 0 where
  pub lead_blank : IsBlanks e.lead
  pub key_word : IsWord e.key
  pub key_given : is_empty e.key ≡ false
  pub no_comment : bytes_eq (take 1 e.key) (codes "#") ≡ false
  pub gap_blank : IsBlanks e.gap
  pub space_blank : IsBlanks e.space
  pub value_word : IsWord e.value
  pub value_given : is_empty e.value ≡ false
  pub tail_blank : IsBlanks e.tail

-- In front of the `=`, and behind it.
abbrev pub left_of : Entry → Bytes
left_of e = e.lead ++ (e.key ++ e.gap)

abbrev pub right_of : Entry → Bytes
right_of e = e.space ++ (e.value ++ e.tail)

abbrev pub line_of : Entry → Bytes
line_of e = left_of e ++ b'=' ∷ right_of e

-- The value that is stored: without a blank behind it, the line end belongs to it.
abbrev pub stored : Entry → Bytes
stored e = if is_empty e.tail then e.value ++ b'\n' ∷ [] else e.value

pub fgets_line :
    (n : ℕ) (line rest : Bytes)
    → All (λ b. (b == b'\n') ≡ false) line
    → length line < n
    → fgets n (line ++ b'\n' ∷ rest) ≡ (line ++ b'\n' ∷ [], rest)
unfolding fgets
fgets_line zero line rest h f = absurd (omega arith)
fgets_line (suc n) [] rest h f = refl
fgets_line (suc n) (b ∷ line) rest h f = rw (h.0, fgets_line n line rest h.1 (omega arith)) refl

pub span_blank-append :
    (s r : Bytes) (b : ℕ) → IsBlanks s → is_blank b ≡ false → span_blank (s ++ b ∷ r) ≡ length s
unfolding span_blank
span_blank-append [] r b h e = rw e refl
span_blank-append (c ∷ s) r b h e = rw h.0 (ap suc (span_blank-append s r b h.1 e))

pub word-blank :
    (s r : Bytes) (b : ℕ)
    → All (λ c. is_blank c ≡ false) s
    → is_blank b ≡ true
    → word (s ++ b ∷ r) ≡ s
word-blank s r b h e = take-front _ s (b ∷ r) (find_index-append is_blank s b r h e)

pub word_whole : (s : Bytes) → All (λ c. is_blank c ≡ false) s → word s ≡ s
word_whole s h = take_whole _ s (omega (arith, find_index-none is_blank s h))

-- A word and blanks.
word-gap : (s gap : Bytes) → All (λ c. is_blank c ≡ false) s → IsBlanks gap → word (s ++ gap) ≡ s
word-gap s [] h e = rw (append-nil s) (word_whole s h)
word-gap s (b ∷ gap) h e = word-blank s gap b h e.0

pub All-weaken : (P Q : ℕ → Type 0) (s : Bytes) → ((b : ℕ) → P b → Q b) → All P s → All Q s
All-weaken P Q [] w h = tt
All-weaken P Q (b ∷ s) w h = (w b h.0, All-weaken P Q s w h.1)

-- What is behind the first blanks of a text that goes on with a word.
drop_blanks :
    (s w r : Bytes)
    → IsBlanks s
    → IsWord w
    → is_empty w ≡ false
    → (span_blank (s ++ (w ++ r)) ≡ length s) × (drop (length s) (s ++ (w ++ r)) ≡ w ++ r)
drop_blanks s [] r h v e = absurd (ground (arith, e))
drop_blanks s (b ∷ w) r h v e =
    (span_blank-append s (w ++ r) b h (ground (arith, v.0)), drop-length-append s (b ∷ (w ++ r)))

module _ (e : Entry) (v : IsEntry e) where
  pub plain : (w : Bytes) → IsWord w → All (λ b. is_blank b ≡ false) w
  plain w = All-weaken (λ b. in_word b ≡ false) (λ b. is_blank b ≡ false) w (λ b h. ground arith)

  pub value_lem : value_in (right_of e ++ b'\n' ∷ []) ≡ stored e
  value_lem = go e.tail v.tail_blank
    where
      go :
          (tail : Bytes)
          → IsBlanks tail
          → value_in ((e.space ++ (e.value ++ tail)) ++ b'\n' ∷ [])
            ≡ (if is_empty tail then e.value ++ b'\n' ∷ [] else e.value)
      go [] h =
          let d =
            drop_blanks e.space e.value (b'\n' ∷ []) v.space_blank v.value_word v.value_given in
          let shape : (e.space ++ (e.value ++ [])) ++ b'\n' ∷ []
              ≡ e.space ++ (e.value ++ b'\n' ∷ []) =
            simp (append_assoc, append-nil) in
          let all =
            All-append (λ b. is_blank b ≡ false) e.value (b'\n' ∷ []) (plain e.value v.value_word)
              (refl, tt) in
          rw (shape, d.0, d.1) (word_whole (e.value ++ b'\n' ∷ []) all)
      go (b ∷ tail) h =
          let r = b ∷ (tail ++ b'\n' ∷ []) in
          let d = drop_blanks e.space e.value r v.space_blank v.value_word v.value_given in
          let shape : (e.space ++ (e.value ++ b ∷ tail)) ++ b'\n' ∷ [] ≡ e.space ++ (e.value ++ r) =
            simp append_assoc in
          rw (shape, d.0, d.1)
            (word-blank e.value (tail ++ b'\n' ∷ []) b (plain e.value v.value_word) h.0)

  -- What the whole line is, with its end.
  abbrev pub full_line : Bytes
  full_line = line_of e ++ b'\n' ∷ []

  pub shape_left : full_line ≡ left_of e ++ b'=' ∷ (right_of e ++ b'\n' ∷ [])
  shape_left = append_assoc (left_of e) (b'=' ∷ right_of e) (b'\n' ∷ [])

  -- Where a byte is of none of the kinds, it is not in the line.
  not_in :
      (test : ℕ → Bool)
      → ((b : ℕ) → in_word b ≡ false → test b ≡ false)
      → ((b : ℕ) → is_blank b ≡ true → test b ≡ false)
      → All (λ b. test b ≡ false) (left_of e) × All (λ b. test b ≡ false) (right_of e)
  not_in test w k =
      let word = λ (s : Bytes) (h : IsWord s).
        All-weaken (λ b. in_word b ≡ false) (λ b. test b ≡ false) s w h in
      let blank = λ (s : Bytes) (h : IsBlanks s).
        All-weaken (λ b. is_blank b ≡ true) (λ b. test b ≡ false) s k h in
      let both = All-append (λ b. test b ≡ false) in
      (
        both e.lead (e.key ++ e.gap) (blank e.lead v.lead_blank)
            (both e.key e.gap (word e.key v.key_word) (blank e.gap v.gap_blank)),
        both e.space (e.value ++ e.tail) (blank e.space v.space_blank)
            (both e.value e.tail (word e.value v.value_word) (blank e.tail v.tail_blank)),
      )

  pub no_line_end : All (λ b. (b == b'\n') ≡ false) (line_of e)
  no_line_end =
      let sides = not_in (λ b. b == b'\n') (λ b h. ground arith) (λ b h. ground arith) in
      All-append (λ b. (b == b'\n') ≡ false) (left_of e) (b'=' ∷ right_of e) sides.0 (refl, sides.1)

  pub line_text-full_line : line_text full_line ≡ full_line
  line_text-full_line =
      let sides = not_in (λ b. b == 0) (λ b h. ground arith) (λ b h. ground arith) in
      let line =
        All-append (λ b. (b == 0) ≡ false) (left_of e) (b'=' ∷ right_of e) sides.0
          (refl, sides.1) in
      let all = All-append (λ b. (b == 0) ≡ false) (line_of e) (b'\n' ∷ []) line (refl, tt) in
      take_whole _ full_line (omega (arith, find_index-none (λ b. b == 0) full_line all))

  pub find_equal : find (λ b. b == b'=') full_line ≡ some (length (left_of e))
  find_equal =
      let sides = not_in (λ b. b == b'=') (λ b h. ground arith) (λ b h. ground arith) in
      rw shape_left
        (find-append (λ b. b == b'=') (left_of e) b'=' (right_of e ++ b'\n' ∷ []) sides.0 refl)

  -- The line from the key on.
  abbrev pub from_key : Bytes
  from_key = e.key ++ (e.gap ++ b'=' ∷ (right_of e ++ b'\n' ∷ []))

  shape_key : full_line ≡ e.lead ++ from_key
  shape_key = simp append_assoc

  pub key_found :
      (span_blank full_line ≡ length e.lead) × (drop (length e.lead) full_line ≡ from_key)
  key_found =
      let d =
        drop_blanks e.lead e.key (e.gap ++ b'=' ∷ (right_of e ++ b'\n' ∷ [])) v.lead_blank
          v.key_word v.key_given in
      (ap span_blank shape_key ∙ d.0, ap (drop (length e.lead)) shape_key ∙ d.1)

  take_one : (s r : Bytes) → is_empty s ≡ false → take 1 (s ++ r) ≡ take 1 s
  take_one [] r h = absurd (ground (arith, h))
  take_one (b ∷ s) r h = refl

  pub not_comment : bytes_eq (take 1 from_key) (codes "#") ≡ false
  not_comment =
      ap (λ s. bytes_eq s (codes "#"))
        (take_one e.key (e.gap ++ b'=' ∷ (right_of e ++ b'\n' ∷ [])) v.key_given)
      ∙ v.no_comment

  key_lem : word (drop (length e.lead) (take (length (left_of e)) full_line)) ≡ e.key
  key_lem =
      let left : take (length (left_of e)) full_line ≡ left_of e =
        ap (take (length (left_of e))) shape_left
        ∙ take-front (length (left_of e)) (left_of e) (b'=' ∷ (right_of e ++ b'\n' ∷ [])) refl in
      rw (left, drop-length-append e.lead (e.key ++ e.gap))
        (word-gap e.key e.gap (plain e.key v.key_word) v.gap_blank)

  stored_given : is_empty (stored e) ≡ false
  stored_given = go e.value (is_empty e.tail) v.value_given
    where
      go :
          (s : Bytes) (b : Bool)
          → is_empty s ≡ false
          → is_empty (if b then s ++ b'\n' ∷ [] else s) ≡ false
      go [] b h = absurd (ground (arith, h))
      go (c ∷ s) true h = refl
      go (c ∷ s) false h = refl

  pub value_at : value_in (drop (suc (length (left_of e))) full_line) ≡ stored e
  value_at =
      ap (λ s. value_in (drop (suc (length (left_of e))) s)) shape_left
      ∙ ap value_in (drop-suc (left_of e) b'=' (right_of e ++ b'\n' ∷ []))
      ∙ value_lem

  pub entry_in-line : entry_in (line_text full_line) ≡ some (e.key, stored e)
  unfolding entry_in entry_at
  entry_in-line =
      rw
        (
          line_text-full_line, find_equal, key_found.0, key_found.1, not_comment, key_lem, value_at,
          v.key_given, stored_given,
        )
        refl
