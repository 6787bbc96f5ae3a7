-- ===== src/Http/Tests.antt =====
-- Runs of the HTTP classes at concrete inputs.
use reactor_server.Prelude.{
  ℕ, ◌≡◌, refl, Bool, true, false, not, ◌&&◌, ◌||◌, List, [], ◌∷◌, some, arith, All, length,
  Bool-cases, inl, inr, ok, out_of_fuel, Returns, ◌==◌,
}
use reactor_server.Prelude.Bytes.{Bytes, codes}
use reactor_server.Prelude.Dict.{insert, lookup}
use reactor_server.Http.{no_request, get_request, check_state_requestline}
use reactor_server.Http.Request
use reactor_server.Http.Request.{HttpRequest, add_header, set_request_code}
use reactor_server.Http.Request.Headers.{header_line, add_header-hangs}
use reactor_server.Http.Context
use reactor_server.Http.Context.{HttpContext, parse_request}
use reactor_server.Http.Context.Lines.{is_break}
use reactor_server.Http.Context.Truncated.{parse_request-truncated}
use reactor_server.Http.Context.Requests.{
  Header, Message, IsHeader, IsMessage, is_end, render, add_all, with_line,
}
use reactor_server.Http.Context.Requests.RoundTrip.{Reads, IsAt, parse_request-render}
use reactor_server.Http.Response.{HttpResponse, to_string}
use reactor_server.Http.Response.Framing.{read_head, head_lines, read_head-to_string}
use reactor_server.Http.Server.{FileSystem, default_http_cb, on_message}
use reactor_server.Http.Server.Pages.{Answers, default_http_cb-Answers}
use reactor_server.Http.Server.Requests.{reply_to, request_of, on_message-render}

none_of : (ℕ → Bool) → Bytes → Bool
none_of test [] = true
none_of test (c ∷ s) = not (test c) && none_of test s

none_of-All : (test : ℕ → Bool) (s : Bytes) → none_of test s ≡ true → All (λ c. test c ≡ false) s
unfolding none_of
none_of-All test [] h = tt
none_of-All test (c ∷ s) h = elim (Bool-cases (test c)) [
  | inl e ↦ absurd (ground (arith, h, e))
  | inr e ↦ (e, none_of-All test s (ground (arith, h, e)))
]

abbrev closing : Header
closing = record { key = codes "Connection"; blanks = codes " "; value = codes "close" }

abbrev message : List Header → Message
message hs = record {
  method = codes "GET";
  path = codes "/a";
  query = codes "?x";
  minor = b'1';
  headers = hs;
}

closing-IsHeader : IsHeader closing
unfolding none_of
closing-IsHeader = record {
  key_plain = none_of-All (λ b. b == b':' || is_break b) (codes "Connection") refl;
  blank = (refl, tt);
  blanks_line = none_of-All is_break (codes " ") refl;
  value_line = none_of-All is_break (codes "close") refl;
  value_starts = refl;
  value_ends = refl;
}

message-IsMessage : (hs : List Header) → All IsHeader hs → IsMessage (message hs)
unfolding none_of
message-IsMessage hs h = record {
  method_given = refl;
  method_word = none_of-All is_end (codes "GET") refl;
  path_word = none_of-All (λ b. b == b'?' || is_end b) (codes "/a") refl;
  query_word = (refl, none_of-All is_end (codes "x") refl);
  minor_plain = refl;
  headers_plain = h;
}

abbrev context : Bytes → HttpContext
context s = record {
  buf = s;
  read_idx = length s;
  checked_idx = 0;
  start_line = 0;
  http_code = no_request;
  check_state = check_state_requestline;
  request = record {
    request_code = no_request;
    method = [];
    path = [];
    query = [];
    version = [];
    headers = [];
  };
}

context-IsAt : (s : Bytes) → IsAt (context s) [] s
context-IsAt s = record {
  buf_is = refl;
  checked_is = refl;
  start_is = refl;
  all_read = omega arith;
}

abbrev full : Bytes
full = render (message (closing ∷ [])) (codes "body")

parse_request-render_example :
    Returns
      (Reads (add_all (with_line (context full).request (message (closing ∷ []))) (closing ∷ [])))
      (parse_request 1 (context full))
parse_request-render_example =
    parse_request-render 0 (context full) (message (closing ∷ [])) (codes "body")
      (message-IsMessage (closing ∷ []) (closing-IsHeader, tt)) refl (context-IsAt full)

parse_request-truncated_example :
    parse_request 1 (context (codes "GET /a"))
    ≡ ok (
      get_request,
      record (context (codes "GET /a")) {
        checked_idx = 6;
        request = set_request_code (context (codes "GET /a")).request get_request;
      },
    )
unfolding none_of
parse_request-truncated_example =
    parse_request-truncated 1 (context (codes "GET /a")) [] (codes "GET /a") [] refl refl refl
      (none_of-All is_break (codes "GET /a") refl) refl

add_header-hangs_example :
    add_header 100 Request.new (header_line (codes "k") (codes " ") (codes "v ") []) 1 5
    ≡ out_of_fuel
add_header-hangs_example =
    add_header-hangs (codes "k") (codes " ") (codes "v ") [] 100 Request.new (refl, tt) refl refl

abbrev page : HttpResponse
page = record {
  version = codes "HTTP/1.1";
  response_code = codes "200";
  response_msg = codes "OK";
  body = codes "hello";
  headers = (codes "Server", codes "x") ∷ [];
  close_connection = false;
}

read_head-to_string_example :
    read_head 9 (to_string page []) ≡ some (head_lines page, codes "hello")
unfolding none_of
read_head-to_string_example =
    read_head-to_string page 9
      (record {
        version_line = none_of-All is_break (codes "HTTP/1.1") refl;
        code_line = none_of-All is_break (codes "200") refl;
        msg_line = none_of-All is_break (codes "OK") refl;
        header_lines = (
          (none_of-All is_break (codes "Server") refl, none_of-All is_break (codes "x") refl),
          tt,
        );
      })
      (omega arith)

abbrev files : FileSystem
files = record {
  stat = λ path. some (record { others_may_read = true; is_directory = false });
  content = λ path. codes "hello";
}

default_http_cb-Answers_example :
    Answers files
      (record Request.new { request_code = get_request; path = codes "/a" })
      page
      (default_http_cb files
        (record Request.new { request_code = get_request; path = codes "/a" })
        page)
default_http_cb-Answers_example =
    default_http_cb-Answers files
      (record Request.new { request_code = get_request; path = codes "/a" }) page

on_message-render_example :
    on_message (default_http_cb files) 1 (context full)
    ≡ ok (
      reply_to
          (default_http_cb files)
          (request_of (context full) (message (closing ∷ [])))
          (codes "close"),
      Context.new,
    )
unfolding lookup insert
on_message-render_example =
    on_message-render (default_http_cb files) 0 (context full) (message (closing ∷ []))
      (codes "body") (codes "close") (message-IsMessage (closing ∷ []) (closing-IsHeader, tt)) refl
      (context-IsAt full) refl

abbrev bare : Bytes
bare = render (message []) []
