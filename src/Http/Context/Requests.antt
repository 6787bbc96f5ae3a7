-- ===== src/Http/Context/Requests.antt =====
-- Well-formed requests, as text and as the fields that the parser is to find in it.
pub mod RequestLine
pub mod RoundTrip
use reactor_server.Prelude.{ℕ, ◌≡◌, Bool, true, false, ◌||◌, List, [], ◌∷◌, ◌++◌, All, ◌==◌}
use reactor_server.Prelude.Bytes.{Bytes, codes, is_space}
use reactor_server.Prelude.Dict.{insert}
use reactor_server.Http.Request.{HttpRequest, is_empty, ends_in_space}
use reactor_server.Http.Request.Headers.{starts_in_space}
use reactor_server.Http.Context.Lines.{is_break, IsLine, ended}

-- One header line: `key`, a colon, `blanks`, `value`.
pub record Header : Type 0 where
  pub key : Bytes
  pub blanks : Bytes
  pub value : Bytes

pub record Message : Type 0 where
  pub method : Bytes
  pub path : Bytes
  pub query : Bytes
  pub minor : ℕ
  pub headers : List Header

abbrev pub header_text : Header → Bytes
header_text h = h.key ++ b':' ∷ (h.blanks ++ h.value)

abbrev pub version_text : ℕ → Bytes
version_text minor = codes "HTTP/1." ++ minor ∷ []

abbrev pub request_text : Message → Bytes
request_text m = m.method ++ b' ' ∷ (m.path ++ (m.query ++ b' ' ∷ version_text m.minor))

-- The header lines, the empty line behind them, and the body.
abbrev pub header_lines : List Header → Bytes → Bytes
header_lines [] body = ended [] body
header_lines (h ∷ hs) body = ended (header_text h) (header_lines hs body)

abbrev pub render : Message → Bytes → Bytes
render m body = ended (request_text m) (header_lines m.headers body)

-- A byte that ends a word of the request line.
abbrev pub is_end : ℕ → Bool
is_end b = b == b' ' || is_break b

abbrev pub IsWord : Bytes → Type 0
IsWord = All (λ b. is_end b ≡ false)

-- A query is empty, or starts with its `?`.
abbrev pub IsQuery : Bytes → Type 0
IsQuery [] = Unit {0}
IsQuery (c ∷ q) = (c ≡ b'?') × IsWord q

pub record IsHeader (h : Header) : Type 0 where
  pub key_plain : All (λ b. (b == b':' || is_break b) ≡ false) h.key
  pub blank : All (λ b. is_space b ≡ true) h.blanks
  pub blanks_line : IsLine h.blanks
  pub value_line : IsLine h.value
  pub value_starts : starts_in_space h.value ≡ false
  pub value_ends : ends_in_space h.value ≡ false

pub record IsMessage (m : Message) : Type 0 where
  pub method_given : is_empty m.method ≡ false
  pub method_word : IsWord m.method
  pub path_word : All (λ b. (b == b'?' || is_end b) ≡ false) m.path
  pub query_word : IsQuery m.query
  pub minor_plain : is_break m.minor ≡ false
  pub headers_plain : All IsHeader m.headers

-- The request with the headers put in, one after the other.
abbrev pub add_all : HttpRequest → List Header → HttpRequest
add_all r [] = r
add_all r (h ∷ hs) = add_all (record r { headers = insert h.key h.value r.headers }) hs

-- The request of a message, read into `r`; without a query that of `r` stays.
abbrev pub query_of : HttpRequest → Bytes → Bytes
query_of r [] = r.query
query_of r (c ∷ q) = c ∷ q

abbrev pub with_line : HttpRequest → Message → HttpRequest
with_line r m = record r {
  method = m.method;
  path = m.path;
  query = query_of r m.query;
  version = version_text m.minor;
}
