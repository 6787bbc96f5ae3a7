-- ===== src/Http/Request.antt =====
-- src/HttpRequest.h and src/HttpRequest.cc: a parsed request. A pair of pointers `begin`, `end`
-- is the text between them.
pub mod Headers
use reactor_server.Prelude.{
  ℕ, zero, suc, ◌+◌, ◌-◌, Bool, true, false, not, ◌&&◌, List, [], ◌∷◌, Option, none, some, ltb,
  ◌==◌, if◌then◌else◌, length, get_elem?, get_or, take, drop, Run, ok, throws, fault, out_of_fuel,
  ◌>>=◌, or_fault,
}
use reactor_server.Prelude.Bytes.{Bytes, is_space}
use reactor_server.Prelude.Dict.{Dict, lookup, insert}
use reactor_server.Http.{HttpCode, no_request}

pub record HttpRequest : Type 0 where
  pub request_code : HttpCode
  pub method : Bytes
  pub path : Bytes
  pub query : Bytes
  pub version : Bytes
  pub headers : Dict Bytes

-- The constructor.
pub new : HttpRequest
new = record {
  request_code = no_request;
  method = [];
  path = [];
  query = [];
  version = [];
  headers = [];
}

abbrev pub is_empty : Bytes → Bool
is_empty [] = true
is_empty (c ∷ s) = false

abbrev pub set_method : HttpRequest → Bytes → HttpRequest × Bool
set_method r text = (record r { method = text }, not (is_empty text))

abbrev pub set_path : HttpRequest → Bytes → HttpRequest × Bool
set_path r text = (record r { path = text }, not (is_empty text))

abbrev pub set_version : HttpRequest → Bytes → HttpRequest × Bool
set_version r text = (record r { version = text }, not (is_empty text))

abbrev pub set_query : HttpRequest → Bytes → HttpRequest × Bool
set_query r text = (record r { query = text }, not (is_empty text))

abbrev pub set_request_code : HttpRequest → HttpCode → HttpRequest
set_request_code r code = record r { request_code = code }

-- `while (begin < end && isspace(*colon)) ++colon;` at `colon`, before the bytes `memory`. The
-- test on `begin` does not change, so only a byte that is no space ends the loop.
unfoldable pub skip_space : Bytes → ℕ → Run ℕ
skip_space [] colon = fault
skip_space (c ∷ memory) colon = if is_space c then skip_space memory (suc colon) else ok colon

abbrev pub ends_in_space : Bytes → Bool
ends_in_space [] = false
ends_in_space (c ∷ s) = is_space (get_or (c ∷ s) (length (c ∷ s) - 1) 0)

-- `while (!value.empty() && isspace(last)) value.reserve(value.size() - 1);`. `reserve` asks for
-- room: it leaves the string as it is.
unfoldable pub trim_loop : ℕ → Bytes → Run Bytes
trim_loop zero value = out_of_fuel
trim_loop (suc fuel) value = elim (ends_in_space value) [
  | true ↦ trim_loop fuel value
  | false ↦ ok value
]

-- `std::string value(colon, (size_t)(end - colon))`: a start past the end asks for more bytes than
-- a string can hold.
pub value_between : Bytes → ℕ → ℕ → Run Bytes
value_between memory colon end =
    if ltb end colon then throws else ok (take (end - colon) (drop colon memory))

-- addHeader(begin, begin + colon, begin + end), where `memory` is what stands from `begin` on.
pub add_header : ℕ → HttpRequest → Bytes → ℕ → ℕ → Run HttpRequest
add_header fuel r memory colon end = do
  start ← if ltb 0 end then skip_space (drop (suc colon) memory) (suc colon) else ok (suc colon)
  value ← value_between memory start end
  trimmed ← trim_loop fuel value
  ok (record r { headers = insert (take colon memory) trimmed r.headers })

-- reset: every field as in a new request.
pub reset : HttpRequest → HttpRequest
reset r = record r {
  request_code = no_request;
  method = [];
  path = [];
  query = [];
  version = [];
  headers = [];
}

-- getHeader. The stray `;` behind its test makes it read through `end()` where the key is missing.
pub get_header : HttpRequest → Bytes → Run Bytes
get_header r key = or_fault (lookup key r.headers)
