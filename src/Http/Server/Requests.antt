-- ===== src/Http/Server/Requests.antt =====
-- onRequest and onMessage, on requests that the parser read.
use reactor_server.Prelude.{ℕ, suc, ◌≡◌, refl, ap, ◌∙◌, [], none, some, ok, fault, Returns-inv}
use reactor_server.Prelude.Bytes.{Bytes, codes}
use reactor_server.Prelude.Dict.{lookup}
use reactor_server.Http.{get_request, check_state_requestline}
use reactor_server.Http.Request.{HttpRequest, set_request_code}
use reactor_server.Http.Request.Headers.{get_header_lem}
use reactor_server.Http.Response
use reactor_server.Http.Response.{HttpResponse, to_string}
use reactor_server.Http.Context
use reactor_server.Http.Context.Lines
use reactor_server.Http.Context.{HttpContext, parse_request}
use reactor_server.Http.Context.Requests.{Message, render, IsMessage, add_all, with_line}
use reactor_server.Http.Context.Requests.RoundTrip.{IsAt, parse_request-render}
use reactor_server.Http.Server.{Reply, asks_close, on_request, on_message}

-- The reply that the callback gives to a request whose `Connection` header is `connection`.
abbrev pub reply_to : (HttpRequest → HttpResponse → HttpResponse) → HttpRequest → Bytes → Reply
reply_to http_cb req connection =
    let response = http_cb req (Response.new (asks_close connection req.version)) in
    record { sent = to_string response []; close = response.close_connection }

-- onRequest sends the callback's response, and shuts down where that is marked to be closed, if
-- the request has a `Connection` header. Without one it reads through `end()`.
pub on_request_lem :
    (http_cb : HttpRequest → HttpResponse → HttpResponse) (req : HttpRequest)
    → ((v : Bytes)
        → lookup (codes "Connection") req.headers ≡ some v
        → on_request http_cb req ≡ ok (reply_to http_cb req v))
      × (lookup (codes "Connection") req.headers ≡ none → on_request http_cb req ≡ fault)
unfolding on_request
on_request_lem http_cb req = (
  λ v e. rw ((get_header_lem req (codes "Connection")).0 v e),
  λ e. rw ((get_header_lem req (codes "Connection")).1 e),
)

-- The request that a message reads to in a fresh context.
abbrev pub request_of : HttpContext → Message → HttpRequest
request_of c m = set_request_code (add_all (with_line c.request m) m.headers) get_request

-- onMessage, on a context in the state for the request line whose buffer holds the text of a
-- well-formed request, with a `Connection` header, sends the response that the callback makes of
-- exactly that request, shuts down if the response says so, and leaves a context equal to a new
-- one.
pub on_message-render :
    (http_cb : HttpRequest → HttpResponse → HttpResponse) (trims : ℕ) (c : HttpContext)
    (m : Message) (body v : Bytes)
    → IsMessage m
    → c.check_state ≡ check_state_requestline
    → IsAt c [] (render m body)
    → lookup (codes "Connection") (request_of c m).headers ≡ some v
    → on_message http_cb (suc trims) c ≡ ok (reply_to http_cb (request_of c m) v, Context.new)
unfolding on_message
on_message-render http_cb trims c m body v w e s l =
    let ((code, d), is, (got, read)) = Returns-inv (parse_request-render trims c m body w e s) in
    let told : on_request http_cb d.request ≡ ok (reply_to http_cb (request_of c m) v) =
      ap (on_request http_cb) read ∙ (on_request_lem http_cb (request_of c m)).0 v l in
    rw (is, told, Lines.reset-new d) refl

-- onMessage, on a context in the state for the request line whose buffer holds the text of a
-- well-formed request, without a `Connection` header, reads through the end iterator of the
-- headers.
pub on_message-faults :
    (http_cb : HttpRequest → HttpResponse → HttpResponse) (trims : ℕ) (c : HttpContext)
    (m : Message) (body : Bytes)
    → IsMessage m
    → c.check_state ≡ check_state_requestline
    → IsAt c [] (render m body)
    → lookup (codes "Connection") (request_of c m).headers ≡ none
    → on_message http_cb (suc trims) c ≡ fault
unfolding on_message
on_message-faults http_cb trims c m body w e s l =
    let ((code, d), is, (got, read)) = Returns-inv (parse_request-render trims c m body w e s) in
    let told : on_request http_cb d.request ≡ fault =
      ap (on_request http_cb) read ∙ (on_request_lem http_cb (request_of c m)).1 l in
    rw (is, told) refl
