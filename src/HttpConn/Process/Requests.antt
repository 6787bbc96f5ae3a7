-- ===== src/HttpConn/Process/Requests.antt =====
-- The requests that HttpConn serves, as text, and their header lines.
use reactor_server.Prelude.{
  ℕ, ◌+◌, ◌≡◌, refl, sym, ap, Bool, true, false, ◌&&◌, ◌||◌, List, [], ◌∷◌, ◌++◌, some, arith, drop,
  All, All-append, ◌==◌, Returns, returns, Returns-if,
}
use reactor_server.Prelude.Bytes.{Bytes, codes}
use reactor_server.Prelude.CString.{is_blank, span_blank, same_text, has_prefix, IsText}
use reactor_server.Http.Context.Lines.{is_break, IsLine, ended}
use reactor_server.Http.Context.Requests.RequestLine.{All-map}
use reactor_server.HttpConn.{HttpConn, value_of, known_header}

-- A request for `/` followed by `path`.
pub record Message : Type 0 where
  pub method : Bytes
  pub path : Bytes
  pub headers : List Bytes

abbrev pub target : Message → Bytes
target m = b'/' ∷ m.path

abbrev pub protocol : Bytes
protocol = codes "HTTP/1.1"

abbrev pub line_text : Message → Bytes
line_text m = m.method ++ b' ' ∷ (target m ++ b' ' ∷ protocol)

abbrev pub header_lines : List Bytes → Bytes → Bytes
header_lines [] body = ended [] body
header_lines (h ∷ hs) body = ended h (header_lines hs body)

abbrev pub render : Message → Bytes → Bytes
render m body = ended (line_text m) (header_lines m.headers body)

-- A byte that ends a word of the request line.
abbrev pub is_end : ℕ → Bool
is_end b = is_blank b || (is_break b || b == 0)

abbrev pub IsWord : Bytes → Type 0
IsWord = All (λ b. is_end b ≡ false)

abbrev pub is_empty : Bytes → Bool
is_empty [] = true
is_empty (b ∷ s) = false

-- A header other than Content-Length.
pub record IsHeader (h : Bytes) : Type 0 where
  pub some_bytes : is_empty h ≡ false
  pub plain : All (λ b. (is_break b || b == 0) ≡ false) h
  pub no_length : has_prefix h (codes "Content-Length:") ≡ false

pub record IsMessage (m : Message) : Type 0 where
  pub is_get : same_text m.method (codes "GET") ≡ true
  pub method_word : IsWord m.method
  pub path_word : IsWord m.path
  pub headers_plain : All IsHeader m.headers

pub IsWord-IsText : (s : Bytes) → IsWord s → IsText s
IsWord-IsText s w = All-map is_end (λ b. b == 0) s (λ b e. ground arith) w

pub words : (m : Message) → IsMessage m → IsWord (target m)
words m v = (refl, v.path_word)

-- A header line that asks to keep the connection.
abbrev pub keeps_alive : Bytes → Bool
keeps_alive line =
    has_prefix line (codes "Connection:") && same_text (value_of line 11) (codes "keep-alive")

or_other : (l b c : Bool) → b ≡ false → l ≡ l || (b && c)
or_other l b c e = ground (arith, e)

-- A header other than Content-Length changes `linger` and `host` alone.
pub known_header_lem :
    (d : HttpConn) (text : ℕ) (line : Bytes)
    → has_prefix line (codes "Content-Length:") ≡ false
    → Returns
        (λ e. e ≡ record d { linger = d.linger || keeps_alive line; host = e.host })
        (known_header d text line)
unfolding known_header
known_header_lem d text line no_length =
    Returns-if (has_prefix line (codes "Connection:"))
      (λ e. returns (
        ap
          (λ b. record d {
            linger = d.linger || (b && same_text (value_of line 11) (codes "keep-alive"));
          })
          (sym e)))
      (λ e.
        let same : d.linger ≡ d.linger || keeps_alive line =
          or_other d.linger (has_prefix line (codes "Connection:"))
            (same_text (value_of line 11) (codes "keep-alive")) e in
        rw no_length (
          Returns-if (has_prefix line (codes "Host:"))
            (λ f. returns (
              ap (λ l. record d { host = some (text + 5 + span_blank (drop 5 line)); linger = l })
                same))
            (λ f. returns (ap (λ l. record d { linger = l }) same))))

-- A request line holds no line end.
pub line_text-IsLine : (m : Message) → IsMessage m → IsLine (line_text m)
line_text-IsLine m v =
    All-append Plain m.method (b' ' ∷ (target m ++ b' ' ∷ protocol))
      (All-map is_end is_break m.method (λ b e. ground arith) v.method_word)
      (
        refl,
        All-append Plain (target m) (b' ' ∷ protocol)
            (All-map is_end is_break (target m) (λ b e. ground arith) (words m v))
            (refl, (refl, (refl, (refl, (refl, (refl, (refl, (refl, (refl, tt))))))))),
      )
  where
    Plain : ℕ → Type 0
    Plain b = is_break b ≡ false
