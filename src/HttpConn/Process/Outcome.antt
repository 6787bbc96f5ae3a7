-- ===== src/HttpConn/Process/Outcome.antt =====
-- What processRead tells about a request, after HttpConn::doRequest.
use reactor_server.Prelude.{
  ℕ, ◌≡◌, refl, sym, ap, ◌∙◌, subst, Bool, true, false, not, ◌&&◌, ◌++◌, Option, none, some, take,
  if◌then◌else◌, Run, ok, or_fault, ◌>>=◌, Returns, returns,
}
use reactor_server.Prelude.Bytes.{Bytes}
use reactor_server.Prelude.CString.{string_at}
use reactor_server.Http.{HttpCode, no_request, bad_request, forbidden_request, file_request}
use reactor_server.HttpConn.{
  HttpConn, FileSystem, FileInfo, doc_root, map_file, check_file, do_request,
}
use reactor_server.HttpConn.Process.Requests.{Message, target}

-- The file that is asked for, and what `stat` makes of it.
abbrev pub file_name : Message → Bytes
file_name m = doc_root ++ take 194 (target m)

abbrev pub code_of : Option FileInfo → HttpCode
code_of none = no_request
code_of (some info) =
    if not info.mode.others_may_read
    then forbidden_request
    else if info.mode.is_directory
    then bad_request
    else file_request

abbrev pub address_of : FileSystem → Bytes → Option FileInfo → Option Bytes → Option Bytes
address_of fs name none old = old
address_of fs name (some info) old =
    if info.mode.others_may_read && not info.mode.is_directory then some (fs.content name) else old

abbrev pub size_of : Option FileInfo → ℕ → ℕ
size_of none old = old
size_of (some info) old = info.st_size

-- How processRead, on `c`, ends on a request for `name`, where `stat` says `o` and the request asks
-- to keep the connection or not.
pub record Serves (fs : FileSystem) (name : Bytes) (o : Option FileInfo) (linger : Bool)
    (c : HttpConn) (r : HttpConn × HttpCode) : Type 0 where
  pub code_is : r.1 ≡ code_of o
  pub linger_is : r.0.linger ≡ linger
  pub file_is : r.0.file_address ≡ address_of fs name o c.file_address
  pub size_is : r.0.st_size ≡ size_of o c.st_size
  pub buf_kept : r.0.write_buf ≡ c.write_buf
  pub idx_kept : r.0.write_idx ≡ c.write_idx
  pub fd_kept : r.0.sock_fd ≡ c.sock_fd
  pub calls_kept : r.0.requests ≡ c.requests

-- `d` is `c` in all that a request leaves alone.
pub record SameReply (c d : HttpConn) : Type 0 where
  pub file_same : d.file_address ≡ c.file_address
  pub size_same : d.st_size ≡ c.st_size
  pub buf_same : d.write_buf ≡ c.write_buf
  pub idx_same : d.write_idx ≡ c.write_idx
  pub fd_same : d.sock_fd ≡ c.sock_fd
  pub calls_same : d.requests ≡ c.requests

pub Serves-same :
    {fs : FileSystem} {name : Bytes} {o : Option FileInfo} {linger : Bool} {c d : HttpConn}
    {r : HttpConn × HttpCode}
    → SameReply c d
    → Serves fs name o linger d r
    → Serves fs name o linger c r
Serves-same {fs} {name} {o} same v = record {
  code_is = v.code_is;
  linger_is = v.linger_is;
  file_is = v.file_is ∙ ap (address_of fs name o) same.file_same;
  size_is = v.size_is ∙ ap (size_of o) same.size_same;
  buf_kept = v.buf_kept ∙ same.buf_same;
  idx_kept = v.idx_kept ∙ same.idx_same;
  fd_kept = v.fd_kept ∙ same.fd_same;
  calls_kept = v.calls_kept ∙ same.calls_same;
}

abbrev pub info_of : Bool → Bool → ℕ → FileInfo
info_of readable directory size = record {
  mode = record { others_may_read = readable; is_directory = directory };
  st_size = size;
}

module _ (fs : FileSystem) (c : HttpConn) (name : Bytes) where
  map_file-Serves :
      (readable directory : Bool) (size : ℕ)
      → Serves fs name
          (some (info_of readable directory size))
          c.linger
          c
          (map_file fs (record c { read_file = name; st_size = size }) readable directory)
  unfolding map_file
  map_file-Serves false directory size = record {
    code_is = refl;
    linger_is = refl;
    file_is = refl;
    size_is = refl;
    buf_kept = refl;
    idx_kept = refl;
    fd_kept = refl;
    calls_kept = refl;
  }
  map_file-Serves true true size = record {
    code_is = refl;
    linger_is = refl;
    file_is = refl;
    size_is = refl;
    buf_kept = refl;
    idx_kept = refl;
    fd_kept = refl;
    calls_kept = refl;
  }
  map_file-Serves true false size = record {
    code_is = refl;
    linger_is = refl;
    file_is = refl;
    size_is = refl;
    buf_kept = refl;
    idx_kept = refl;
    fd_kept = refl;
    calls_kept = refl;
  }

  check_file-Serves :
      (o : Option FileInfo)
      → Serves fs name o c.linger c (check_file fs (record c { read_file = name }) o)
  unfolding check_file
  check_file-Serves none = record {
    code_is = refl;
    linger_is = refl;
    file_is = refl;
    size_is = refl;
    buf_kept = refl;
    idx_kept = refl;
    fd_kept = refl;
    calls_kept = refl;
  }
  check_file-Serves (some info) =
      map_file-Serves info.mode.others_may_read info.mode.is_directory info.st_size

module _ (fs : FileSystem) (m : Message) where
  abbrev pub Done : Bool → HttpConn → HttpConn × HttpCode → Type 0
  Done = Serves fs (file_name m) (fs.stat (file_name m))

  pub do_request-Serves :
      (c : HttpConn) (u : ℕ)
      → c.url ≡ some u
      → string_at c.read_buf u ≡ ok (target m)
      → Returns (Done c.linger c) (do_request fs c)
  unfolding do_request
  do_request-Serves c u e f =
      subst (λ o. Returns (Done c.linger c) (or_fault o >>= serve)) (sym e)
        (subst (λ r. Returns (Done c.linger c) (r >>= look)) (sym f)
          (returns (check_file-Serves fs c (file_name m) (fs.stat (file_name m)))))
    where
      look : Bytes → Run (HttpConn × HttpCode)
      look t =
          let named = record c { read_file = doc_root ++ take 194 t } in
          ok (check_file fs named (fs.stat named.read_file))

      serve : ℕ → Run (HttpConn × HttpCode)
      serve url = string_at c.read_buf url >>= look
