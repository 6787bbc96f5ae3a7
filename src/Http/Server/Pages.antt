-- ===== src/Http/Server/Pages.antt =====
-- What defaultHttpCB answers to a request that was read as GET_REQUEST.
use reactor_server.Prelude.{
  ◌≡◌, refl, ap, ◌∙◌, true, not, ◌||◌, Option, none, some, if◌then◌else◌, Bool-cases, inl, inr,
}
use reactor_server.Prelude.Bytes.{Bytes, codes}
use reactor_server.Prelude.Dict.{Dict, lookup, insert, lookup-insert}
use reactor_server.Http.{
  HttpCode, no_request, get_request, bad_request, no_resource, forbidden_request,
  underscore_request, file_request, internal_error, closed_connection, ok_200_title,
  error_400_title, error_400_form, error_403_title, error_403_form, error_404_title, error_404_form,
  error_500_title, error_500_form,
}
use reactor_server.Http.Request.{HttpRequest}
use reactor_server.Http.Response.{HttpResponse}
use reactor_server.Http.Server.{
  FileStat, FileSystem, error_page, process_error, content_type, file_path, file_page,
  default_http_cb, server_name, is_get,
}

-- The code, the reason and the body of a response.
pub record Page : Type 0 where
  pub code : Bytes
  pub reason : Bytes
  pub text : Bytes

abbrev pub page : Bytes → Bytes → Bytes → Page
page code reason text = record { code = code; reason = reason; text = text }

abbrev pub page_of : HttpResponse → Page
page_of r = page r.response_code r.response_msg r.body

-- What a path names, as the callback tells them apart.
pub data Target : Type 0 where
  missing unreadable directory : Target
  file : Bytes → Target

abbrev pub target_of : FileSystem → Bytes → Option FileStat → Target
target_of fs path none = missing
target_of fs path (some s) =
    if s.others_may_read
    then if s.is_directory then directory else file (fs.content (file_path path))
    else unreadable

abbrev pub get_page : Target → Page
get_page missing = page (codes "400") error_404_title error_404_form
get_page unreadable = page (codes "403") error_403_title error_403_form
get_page directory = page (codes "400") error_400_title error_400_form
get_page (file content) = page (codes "200") ok_200_title content

-- The fields that a page leaves alone.
Keeps : HttpResponse → HttpResponse → Type 0
Keeps r r' =
    (r'.version ≡ r.version)
    × ((r'.close_connection ≡ r.close_connection) × (r'.headers ≡ r.headers))

file_page_lem :
    (fs : FileSystem) (path : Bytes) (s : Option FileStat) (r : HttpResponse)
    → (page_of (file_page fs path s r) ≡ get_page (target_of fs path s))
      × Keeps r (file_page fs path s r)
unfolding file_page Keeps
file_page_lem fs path none r = (refl, (refl, (refl, refl)))
file_page_lem fs path (some s) r = elim (Bool-cases s.others_may_read) [
  | inr e ↦ rw e (refl, (refl, (refl, refl)))
  | inl e ↦ elim (Bool-cases s.is_directory) [
    | inl d ↦ rw (e, d) (refl, (refl, (refl, refl)))
    | inr d ↦ rw (e, d) (refl, (refl, (refl, refl)))
  ]
]

-- The pages of processError.
abbrev pub refusal : HttpCode → Page
refusal no_request = page (codes "400") error_404_title error_400_form
refusal internal_error = page (codes "500") error_500_title error_500_form
refusal no_resource = page (codes "403") error_403_title error_403_form
refusal _ = page (codes "404") error_404_title error_404_form

error_page_lem :
    (code : HttpCode) (r : HttpResponse)
    → (page_of (error_page code r) ≡ refusal code) × Keeps r (error_page code r)
unfolding error_page Keeps
error_page_lem no_request r = (refl, (refl, (refl, refl)))
error_page_lem get_request r = (refl, (refl, (refl, refl)))
error_page_lem bad_request r = (refl, (refl, (refl, refl)))
error_page_lem no_resource r = (refl, (refl, (refl, refl)))
error_page_lem forbidden_request r = (refl, (refl, (refl, refl)))
error_page_lem underscore_request r = (refl, (refl, (refl, refl)))
error_page_lem file_request r = (refl, (refl, (refl, refl)))
error_page_lem internal_error r = (refl, (refl, (refl, refl)))
error_page_lem closed_connection r = (refl, (refl, (refl, refl)))

-- What the callback is to answer: the page, whether the connection is closed, and the type.
abbrev pub answer_page : FileSystem → HttpRequest → Page
answer_page fs req =
    if is_get req.request_code
    then get_page (target_of fs req.path (fs.stat (file_path req.path)))
    else refusal req.request_code

abbrev pub html : Bytes
html = codes "text/html charset=utf-8"

abbrev pub answer_type : HttpRequest → Bytes
answer_type req = if is_get req.request_code then content_type req.path else html

pub record Answers (fs : FileSystem) (req : HttpRequest) (r r' : HttpResponse) : Type 0 where
  its_page : page_of r' ≡ answer_page fs req
  its_version : r'.version ≡ req.version
  its_close : r'.close_connection ≡ not (is_get req.request_code) || r.close_connection
  its_server : lookup (codes "Server") r'.headers ≡ some server_name
  its_type : lookup (codes "Content-Type") r'.headers ≡ some (answer_type req)

named :
    (m : Dict Bytes) (type : Bytes)
    → (lookup
          (codes "Server")
          (insert (codes "Content-Type") type (insert (codes "Server") server_name m))
        ≡ some server_name)
      × (lookup
            (codes "Content-Type")
            (insert (codes "Content-Type") type (insert (codes "Server") server_name m))
          ≡ some type)
named m type = (
  lookup-insert (codes "Server") (codes "Content-Type") type _
      ∙ lookup-insert (codes "Server") (codes "Server") server_name m,
  lookup-insert (codes "Content-Type") (codes "Content-Type") type _,
)

-- defaultHttpCB answers a request with the code GET_REQUEST by what "/root" followed by its path
-- names: a missing path by 400, one that others may not read by 403, a directory by 400, and a file
-- by 200 with its whole content as body; the decision on closing is kept. Any other request gets
-- the error page of its code, and the connection is to be closed. Either way the version is that of
-- the request, and the server and a content type are named.
pub default_http_cb-Answers :
    (fs : FileSystem) (req : HttpRequest) (r : HttpResponse)
    → Answers fs req r (default_http_cb fs req r)
unfolding default_http_cb process_error Keeps
default_http_cb-Answers fs req r = elim (Bool-cases (is_get req.request_code)) [
  | inl e ↦
      let typed : HttpResponse = record r {
        version = req.version;
        headers =
            insert (codes "Content-Type") (content_type req.path)
              (insert (codes "Server") server_name r.headers);
      } in
      let filled = file_page_lem fs req.path (fs.stat (file_path req.path)) typed in
      let names = named r.headers (content_type req.path) in
      rw e (record {
        its_page = rw e filled.0;
        its_version = filled.1.0;
        its_close = rw e filled.1.1.0;
        its_server = ap (lookup (codes "Server")) filled.1.1.1 ∙ names.0;
        its_type = rw e (ap (lookup (codes "Content-Type")) filled.1.1.1 ∙ names.1);
      })
  | inr e ↦
      let typed : HttpResponse = record r {
        version = req.version;
        close_connection = true;
        headers =
            insert (codes "Content-Type") html (insert (codes "Server") server_name r.headers);
      } in
      let filled = error_page_lem req.request_code typed in
      let names = named r.headers html in
      rw e (record {
        its_page = rw e filled.0;
        its_version = filled.1.0;
        its_close = rw e filled.1.1.0;
        its_server = ap (lookup (codes "Server")) filled.1.1.1 ∙ names.0;
        its_type = rw e (ap (lookup (codes "Content-Type")) filled.1.1.1 ∙ names.1);
      })
]
