-- ===== src/Http/Response/Framing.antt =====
-- What a client reads out of the bytes of a response: the lines of the head, up to the empty one,
-- and the body behind it.
use reactor_server.Prelude.{
  ℕ, zero, suc, ◌<◌, ◌≡◌, refl, ◌∙◌, Bool, true, false, not, ◌&&◌, List, [], ◌∷◌, ◌++◌, map,
  append_assoc, Option, none, some, arith, length, All, All-append, Bool-cases, inl, inr, ◌==◌,
  if◌then◌else◌,
}
use mathlib.Core.Option
use reactor_server.Prelude.Bytes.{Bytes, codes, to_decimal, is_digit, to_decimal-digits}
use reactor_server.Prelude.Dict.{Dict}
use reactor_server.Http.Request.{is_empty}
use reactor_server.Http.Context.Lines.{is_break, IsLine, ended}
use reactor_server.Http.Response.{HttpResponse, append_headers, to_string, crlf}

-- The text up to the first CR LF, and what follows it.
split_line : Bytes → Option (Bytes × Bytes)
split_line [] = none
split_line (c ∷ []) = none
split_line (c ∷ d ∷ s) =
    let more = Option.map (λ (line, rest). (c ∷ line, rest)) (split_line (d ∷ s)) in
    if c == b'\r' && d == b'\n' then some ([], s) else more

-- The lines up to the empty one, and what stands behind that.
pub read_head : ℕ → Bytes → Option (List Bytes × Bytes)
read_head zero s = none
read_head (suc fuel) s = elim (split_line s) [
  | none ↦ none
  | some (line, rest) ↦
      if is_empty line
      then some ([], rest)
      else Option.map (λ (lines, body). (line ∷ lines, body)) (read_head fuel rest)
]

-- The lines that the head of a response has.
abbrev header_line : Bytes × Bytes → Bytes
header_line (key, value) = key ++ (codes ": " ++ value)

abbrev status_line : HttpResponse → Bytes
status_line r = r.version ++ (codes " " ++ (r.response_code ++ (codes " " ++ r.response_msg)))

abbrev connection_lines : HttpResponse → List Bytes
connection_lines r =
    if r.close_connection
    then codes "Connection: close" ∷ []
    else (codes "Content-Length: " ++ to_decimal (length r.body))
      ∷ codes "Connection: Keep-Alive"
      ∷ []

abbrev pub head_lines : HttpResponse → List Bytes
head_lines r = status_line r ∷ (connection_lines r ++ map header_line r.headers)

abbrev join : List Bytes → Bytes → Bytes
join [] body = body
join (line ∷ lines) body = ended line (join lines body)

split_line-ended :
    (line rest : Bytes) → IsLine line → split_line (ended line rest) ≡ some (line, rest)
unfolding split_line
split_line-ended [] rest h = refl
split_line-ended (c ∷ []) rest h = let plain : (c == b'\r') ≡ false = ground arith in rw plain
split_line-ended (c ∷ d ∷ line) rest h =
    let plain : (c == b'\r') ≡ false = ground arith in
    rw (plain, split_line-ended (d ∷ line) rest h.1)

abbrev IsHeadLine : Bytes → Type 0
IsHeadLine line = IsLine line × (is_empty line ≡ false)

read_head-join :
    (fuel : ℕ) (lines : List Bytes) (body : Bytes)
    → length lines < fuel
    → All IsHeadLine lines
    → read_head fuel (join lines (crlf ++ body)) ≡ some (lines, body)
unfolding read_head
read_head-join zero lines body f h = absurd (omega arith)
read_head-join (suc fuel) [] body f h = rw (split_line-ended [] body tt, read_head)
read_head-join (suc fuel) (line ∷ lines) body f h = rw (
  split_line-ended line (join lines (crlf ++ body)) h.0.0,
  read_head,
  h.0.1,
  read_head-join fuel lines body (omega arith) h.1,
)

append_headers-join :
    (out : Bytes) (m : Dict Bytes) (body : Bytes)
    → append_headers out m ++ body ≡ out ++ join (map header_line m) body
unfolding append_headers
append_headers-join out [] body = refl
append_headers-join out ((key, value) ∷ m) body =
    append_headers-join ((((out ++ key) ++ codes ": ") ++ value) ++ crlf) m body ∙ simp append_assoc

to_string-join : (r : HttpResponse) → to_string r [] ≡ join (head_lines r) (crlf ++ r.body)
unfolding to_string
to_string-join r = elim (Bool-cases r.close_connection) [
  | inl e ↦ rw e (
      append_assoc _ crlf r.body
      ∙ append_headers-join _ r.headers (crlf ++ r.body)
      ∙ simp append_assoc)
  | inr e ↦ rw e (
      append_assoc _ crlf r.body
      ∙ append_headers-join _ r.headers (crlf ++ r.body)
      ∙ simp append_assoc)
]

-- Every field of the head is free of line ends.
pub record IsPrintable (r : HttpResponse) : Type 0 where
  pub version_line : IsLine r.version
  pub code_line : IsLine r.response_code
  pub msg_line : IsLine r.response_msg
  pub header_lines : All (λ (h : Bytes × Bytes). IsLine h.0 × IsLine h.1) r.headers

digits-IsLine : (s : Bytes) → All (λ c. is_digit c ≡ true) s → IsLine s
digits-IsLine [] h = tt
digits-IsLine (c ∷ s) h = (ground (arith, h.0), digits-IsLine s h.1)

abbrev Plain : ℕ → Type 0
Plain b = is_break b ≡ false

spaced-IsHeadLine : (s t : Bytes) (c : ℕ) → IsLine s → Plain c → IsLine t → IsHeadLine (s ++ c ∷ t)
spaced-IsHeadLine s t c hs hc ht = (All-append Plain s (c ∷ t) hs (hc, ht), filled s)
  where
    filled : (s : Bytes) → is_empty (s ++ c ∷ t) ≡ false
    filled [] = refl
    filled (x ∷ s) = refl

plain : Bytes → Bool
plain [] = true
plain (c ∷ s) = not (is_break c) && plain s

plain-IsLine : (s : Bytes) → plain s ≡ true → IsLine s
unfolding plain
plain-IsLine [] h = tt
plain-IsLine (c ∷ s) h = elim (Bool-cases (is_break c)) [
  | inl e ↦ ground (arith, h, e)
  | inr e ↦ (e, plain-IsLine s (ground (arith, h, e)))
]

plain-IsHeadLine : (s : Bytes) → plain s ≡ true → is_empty s ≡ false → IsHeadLine s
plain-IsHeadLine s h filled = (plain-IsLine s h, filled)

headers-IsHeadLine :
    (m : Dict Bytes)
    → All (λ (h : Bytes × Bytes). IsLine h.0 × IsLine h.1) m
    → All IsHeadLine (map header_line m)
headers-IsHeadLine [] h = tt
headers-IsHeadLine ((key, value) ∷ m) h =
    (spaced-IsHeadLine key (b' ' ∷ value) b':' h.0.0 refl (refl, h.0.1), headers-IsHeadLine m h.1)

head_lines-IsHeadLine : (r : HttpResponse) → IsPrintable r → All IsHeadLine (head_lines r)
unfolding plain
head_lines-IsHeadLine r v = (
  spaced-IsHeadLine r.version _ b' ' v.version_line refl
      (All-append Plain r.response_code (b' ' ∷ r.response_msg) v.code_line (refl, v.msg_line)),
  All-append IsHeadLine (connection_lines r) (map header_line r.headers) connection
      (headers-IsHeadLine r.headers v.header_lines),
)
  where
    connection : All IsHeadLine (connection_lines r)
    connection = elim (Bool-cases r.close_connection) [
      | inl e ↦ rw e (plain-IsHeadLine (codes "Connection: close") refl refl, tt)
      | inr e ↦ rw e (
        spaced-IsHeadLine (codes "Content-Length") (b' ' ∷ to_decimal (length r.body)) b':'
            (plain-IsHeadLine (codes "Content-Length") refl refl).0 refl
            (refl, digits-IsLine (to_decimal (length r.body)) (to_decimal-digits (length r.body))),
        (plain-IsHeadLine (codes "Connection: Keep-Alive") refl refl, tt),
      )
    ]

-- A client that reads the text of a response, line by line up to the empty line, where no field of
-- the head has a line end in it, finds the status line, the connection lines and each header in the
-- order of the map, and behind them exactly the body; the length that a kept connection announces
-- is that of the body, in decimal.
pub read_head-to_string :
    (r : HttpResponse) (fuel : ℕ)
    → IsPrintable r
    → length (head_lines r) < fuel
    → read_head fuel (to_string r []) ≡ some (head_lines r, r.body)
read_head-to_string r fuel v f =
    rw (to_string-join r) (read_head-join fuel (head_lines r) r.body f (head_lines-IsHeadLine r v))
