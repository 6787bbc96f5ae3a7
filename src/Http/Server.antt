-- ===== src/Http/Server.antt =====
-- src/HttpServer.h and src/HttpServer.cc. What the server asks of the connection is a `Reply`; the
-- file system is a parameter.
pub mod Pages
pub mod Requests
use reactor_server.Prelude.{
  ℕ, Bool, true, false, not, ◌&&◌, ◌||◌, List, [], ◌∷◌, ◌++◌, Option, none, some, if◌then◌else◌,
  Run, ok, ◌>>=◌,
}
use reactor_server.Prelude.Bytes.{Bytes, codes, bytes_eq, contains}
use reactor_server.Http.{
  HttpCode, no_request, get_request, bad_request, no_resource, internal_error, ok_200_title,
  error_400_title, error_400_form, error_403_title, error_403_form, error_404_title, error_404_form,
  error_500_title, error_500_form,
}
use reactor_server.Http.Request.{HttpRequest, get_header}
use reactor_server.Http.Response
use reactor_server.Http.Response.{HttpResponse, add_header, to_string}
use reactor_server.Http.Context
use reactor_server.Http.Context.{HttpContext, parse_request}

-- What `stat` tells: `st_mode & S_IROTH` and `S_ISDIR(st_mode)`.
pub record FileStat : Type 0 where
  pub others_may_read : Bool
  pub is_directory : Bool

-- `stat`, which fails where it returns `none`, and what reading a file gives.
pub record FileSystem : Type 0 where
  pub stat : Bytes → Option FileStat
  pub content : Bytes → Bytes

-- `conn->send(data)` and, if `close`, `conn->shutdown()`.
pub record Reply : Type 0 where
  pub sent : Bytes
  pub close : Bool

abbrev pub with_status : HttpResponse → Bytes → Bytes → Bytes → HttpResponse
with_status r code title form = record r { response_code = code; response_msg = title; body = form }

-- The `switch` of processError.
pub error_page : HttpCode → HttpResponse → HttpResponse
error_page no_request r = with_status r (codes "400") error_404_title error_400_form
error_page bad_request r = with_status r (codes "404") error_404_title error_404_form
error_page internal_error r = with_status r (codes "500") error_500_title error_500_form
error_page no_resource r = with_status r (codes "403") error_403_title error_403_form
error_page _ r = with_status r (codes "404") error_404_title error_404_form

abbrev pub server_name : Bytes
server_name = codes "47.96.106.37:9000"

pub process_error : HttpRequest → HttpResponse → HttpResponse
process_error req r =
    let closing : HttpResponse = record r { close_connection = true; version = req.version } in
    error_page req.request_code (
      add_header (add_header closing (codes "Server") server_name) (codes "Content-Type")
        (codes "text/html charset=utf-8"))

pub content_type : Bytes → Bytes
content_type path =
    if contains (codes "jpg") path
    then codes "image/jpeg charset=utf-8"
    else if contains (codes "pdf") path
    then codes "application/pdf"
    else codes "text/html charset=utf-8"

abbrev pub file_path : Bytes → Bytes
file_path path = codes "/root" ++ path

-- The part of defaultHttpCB behind `stat`.
pub file_page : FileSystem → Bytes → Option FileStat → HttpResponse → HttpResponse
file_page fs path none r = with_status r (codes "400") error_404_title error_404_form
file_page fs path (some s) r =
    if not s.others_may_read
    then with_status r (codes "403") error_403_title error_403_form
    else if s.is_directory
    then with_status r (codes "400") error_400_title error_400_form
    else with_status r (codes "200") ok_200_title (fs.content (file_path path))

abbrev pub is_get : HttpCode → Bool
is_get get_request = true
is_get _ = false

pub default_http_cb : FileSystem → HttpRequest → HttpResponse → HttpResponse
default_http_cb fs req r =
    let named = add_header (record r { version = req.version }) (codes "Server") server_name in
    let typed = add_header named (codes "Content-Type") (content_type req.path) in
    if not (is_get req.request_code)
    then process_error req r
    else file_page fs req.path (fs.stat (file_path req.path)) typed

-- Whether the client is to be cut off after the answer.
abbrev pub asks_close : Bytes → Bytes → Bool
asks_close connection version =
    bytes_eq connection (codes "close")
    || (bytes_eq version (codes "HTTP/1.0") && not (bytes_eq connection (codes "Keep-Alive")))

-- onRequest with the callback `http_cb`, which fills in the response.
pub on_request : (HttpRequest → HttpResponse → HttpResponse) → HttpRequest → Run Reply
on_request http_cb req = do
  connection ← get_header req (codes "Connection")
  let response = http_cb req (Response.new (asks_close connection req.version))
  ok (record { sent = to_string response []; close = response.close_connection })

-- onMessage answers whatever parseRequest returned, and makes the context ready for the next
-- request.
pub on_message :
    (HttpRequest → HttpResponse → HttpResponse) → ℕ → HttpContext → Run (Reply × HttpContext)
on_message http_cb trims context = do
  (code, parsed) ← parse_request trims context
  reply ← on_request http_cb parsed.request
  ok (reply, Context.reset parsed)
