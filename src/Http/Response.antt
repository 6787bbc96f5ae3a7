-- ===== src/Http/Response.antt =====
-- src/HttpResponse.h and src/HttpResponse.cc.
pub mod Framing
use reactor_server.Prelude.{ℕ, Bool, List, [], ◌∷◌, ◌++◌, if◌then◌else◌, length}
use reactor_server.Prelude.Bytes.{Bytes, codes, to_decimal}
use reactor_server.Prelude.Dict.{Dict, insert}
use reactor_server.Prelude.Memory.{
  assign, assign_self, assign_ne, assign-same, assign-assign, same-or-other,
}

pub record HttpResponse : Type 0 where
  pub version : Bytes
  pub response_code : Bytes
  pub response_msg : Bytes
  pub body : Bytes
  pub headers : Dict Bytes
  pub close_connection : Bool

-- `HttpResponse(bool close)`.
pub new : Bool → HttpResponse
new close = record {
  version = [];
  response_code = [];
  response_msg = [];
  body = [];
  headers = [];
  close_connection = close;
}

abbrev pub crlf : Bytes
crlf = codes "\r\n"

-- `headers_[key].assign(value)`.
abbrev pub add_header : HttpResponse → Bytes → Bytes → HttpResponse
add_header r key value = record r { headers = insert key value r.headers }

-- The last `for` of toString.
pub append_headers : Bytes → Dict Bytes → Bytes
append_headers out [] = out
append_headers out ((key, value) ∷ m) =
    append_headers ((((out ++ key) ++ codes ": ") ++ value) ++ crlf) m

-- toString appends the response to `out`.
pub to_string : HttpResponse → Bytes → Bytes
to_string r out =
    let status =
      out
      ++ ((((((r.version ++ codes " ") ++ r.response_code) ++ codes " ") ++ r.response_msg)
          ++ crlf)) in
    let connection =
      if r.close_connection
      then status ++ codes "Connection: close\r\n"
      else (status ++ ((codes "Content-Length: " ++ to_decimal (length r.body)) ++ crlf))
        ++ codes "Connection: Keep-Alive\r\n" in
    (append_headers connection r.headers ++ crlf) ++ r.body
