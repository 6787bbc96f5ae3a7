-- ===== src/HttpConn.antt =====
-- src/HttpConn.h and src/HttpConn.cc: a connection of the first server. `sockFd` and the calls of
-- the system are in HttpConn/Transfer; pointers into `readBuf` are indices.
pub mod Process
pub mod Reply
pub mod Transfer
mod Tests
use reactor_server.Prelude.{
  ℕ, zero, suc, ◌+◌, ◌-◌, ◌*◌, Bool, true, false, not, ◌&&◌, ◌||◌, List, [], ◌∷◌, ◌++◌, Option,
  none, some, replicate, get_or, length, take, drop, ltb, leb, ◌==◌, if◌then◌else◌, Run, ok, fault,
  out_of_fuel, ◌>>=◌, or_fault,
}
use mathlib.Core.Option
use reactor_server.Prelude.Int.{ℤ, pos, negsuc, leb_ℤ}
use reactor_server.Prelude.Arrays.{load, store}
use reactor_server.Prelude.Bytes.{Bytes, codes, bytes_eq}
use reactor_server.Prelude.CString.{
  string_at, is_blank, span_blank, find, same_text, has_prefix, atol, to_int,
}
use reactor_server.Http.{
  HttpCode, no_request, get_request, bad_request, forbidden_request, file_request, CheckState,
  check_state_requestline, check_state_header, check_state_content, LineStatus, line_ok, line_open,
}
use reactor_server.Http.Context
use reactor_server.Http.Context.{HttpContext}
use reactor_server.Http.Server.{FileStat}

-- `READ_BUFFER_SIZE`, `WRITE_BUFFER_SIZE` and `FILENAME_LEN`.
abbrev pub read_buffer_size : ℕ
read_buffer_size = 2048

abbrev pub write_buffer_size : ℕ
write_buffer_size = 1024

abbrev pub filename_len : ℕ
filename_len = 200

-- The members of `enum METHOD`.
pub data Method : Type 0 where
  get post head put delete trace options connect patch : Method

-- An entry of `iv`: that many bytes of `writeBuf`, or of the file.
pub data Iovec : Type 0 where
  head_part file_part : ℕ → Iovec

-- `modFd(epollFd, fd, EPOLLIN)` and `EPOLLOUT`, and the bytes that `writev` took.
pub data Request : Type 0 where
  wait_in wait_out : ℤ → Request
  took : Bytes → Request

-- What `stat` fills in.
pub record FileInfo : Type 0 where
  pub mode : FileStat
  pub st_size : ℕ

-- `stat` and the bytes that `mmap` maps.
pub record FileSystem : Type 0 where
  pub stat : Bytes → Option FileInfo
  pub content : Bytes → Bytes

-- `user_count` is the static member; `requests` are the calls of the system, the last one first.
pub record HttpConn : Type 0 where
  pub user_count : ℤ
  pub sock_fd : ℤ
  pub read_buf : Bytes
  pub read_idx : ℕ
  pub start_line : ℕ
  pub checked_idx : ℕ
  pub check_state : CheckState
  pub write_buf : Bytes
  pub write_idx : ℕ
  pub method : Method
  pub url : Option ℕ
  pub version : Option ℕ
  pub host : Option ℕ
  pub content_length : ℤ
  pub linger : Bool
  pub read_file : Bytes
  pub file_address : Option Bytes
  pub st_size : ℕ
  pub iv : List Iovec
  pub requests : List Request

-- The private `init`.
pub init : HttpConn → HttpConn
init c = record c {
  check_state = check_state_requestline;
  linger = false;
  method = get;
  url = none;
  version = none;
  content_length = pos 0;
  host = none;
  start_line = 0;
  checked_idx = 0;
  read_idx = 0;
  write_idx = 0;
  read_buf = replicate read_buffer_size 0;
  write_buf = replicate write_buffer_size 0;
  read_file = [];
}

-- parseLine is, line for line, that of HttpContext.
abbrev pub scanner : HttpConn → HttpContext
scanner c = record Context.new {
  buf = c.read_buf;
  read_idx = c.read_idx;
  checked_idx = c.checked_idx;
}

pub parse_line : HttpConn → Run (LineStatus × HttpConn)
parse_line c = do
  (status, s) ← Context.parse_line (scanner c)
  ok (status, record c { read_buf = s.buf; checked_idx = s.checked_idx })

-- The end of parseRequestLine: `!url || url[0] != '/'`.
pub check_url : HttpConn → Option ℕ → Run (HttpConn × HttpCode)
check_url c none = ok (record c { url = none }, bad_request)
check_url c (some url) = do
  target ← string_at c.read_buf url
  let seen = record c { url = some url }
  if bytes_eq (take 1 target) (codes "/")
      then ok (record seen { check_state = check_state_header }, no_request)
      else ok (seen, bad_request)

-- The pointer behind `http://` and a host.
abbrev pub skip_host : ℕ → Bytes → Option ℕ
skip_host url target =
    if has_prefix target (codes "http://")
    then Option.map (λ i. url + 7 + i) (find (λ b. b == b'/') (drop 7 target))
    else some url

-- From the test of the version on, to which `version` points.
pub check_version : HttpConn → ℕ → ℕ → Run (HttpConn × HttpCode)
check_version c url version = do
  protocol ← string_at c.read_buf version
  let seen = record c { url = some url; version = some version }
  let checked : Run (HttpConn × HttpCode) = (do
    target ← string_at c.read_buf url
    check_url seen (skip_host url target))
  if same_text protocol (codes "HTTP/1.1") then checked else ok (seen, bad_request)

-- From the second `strpbrk` on; `end` is where it stops behind `url`.
pub cut_target : HttpConn → ℕ → Option ℕ → Run (HttpConn × HttpCode)
cut_target c url none = ok (record c { url = some url; version = none }, bad_request)
cut_target c url (some end) = do
  buf ← store c.read_buf (url + end) 0
  behind ← string_at buf (url + end + 1)
  check_version (record c { read_buf = buf }) url (url + end + 1 + span_blank behind)

-- From the method on; `url` points behind it.
pub find_target : HttpConn → ℕ → Run (HttpConn × HttpCode)
find_target c url = do
  blanks ← string_at c.read_buf url
  rest ← string_at c.read_buf (url + span_blank blanks)
  cut_target c (url + span_blank blanks) (find is_blank rest)

-- From the first `strpbrk` on.
pub cut_method : HttpConn → ℕ → Option ℕ → Run (HttpConn × HttpCode)
cut_method c text none = ok (record c { url = none }, bad_request)
cut_method c text (some end) = do
  buf ← store c.read_buf (text + end) 0
  md ← string_at buf text
  let cut = record c { read_buf = buf; url = some (text + end + 1) }
  if same_text md (codes "GET")
      then find_target (record cut { method = get }) (text + end + 1)
      else ok (cut, bad_request)

pub parse_request_line : HttpConn → ℕ → Run (HttpConn × HttpCode)
parse_request_line c text = do
  line ← string_at c.read_buf text
  cut_method c text (find is_blank line)

-- The value of a header: behind its name, of `n` bytes, and the blanks that follow.
abbrev pub value_of : Bytes → ℕ → Bytes
value_of line n = drop (n + span_blank (drop n line)) line

-- The tests of parseHeaders on a line that is not empty.
pub known_header : HttpConn → ℕ → Bytes → Run HttpConn
known_header c text line =
    let keep_alive = same_text (value_of line 11) (codes "keep-alive") in
    let sized : Run HttpConn = (do
      n ← atol (value_of line 15)
      ok (record c { content_length = to_int n })) in
    if has_prefix line (codes "Connection:")
    then ok (record c { linger = c.linger || keep_alive })
    else if has_prefix line (codes "Content-Length:")
    then sized
    else if has_prefix line (codes "Host:")
    then ok (record c { host = some (text + 5 + span_blank (drop 5 line)) })
    else ok c

abbrev pub is_zero : ℤ → Bool
is_zero (pos n) = n == 0
is_zero (negsuc n) = false

-- The branches of parseHeaders; an empty line ends the headers.
pub parse_header_line : HttpConn → ℕ → Bytes → Run (HttpConn × HttpCode)
parse_header_line c text [] =
    if is_zero c.content_length
    then ok (c, get_request)
    else ok (record c { check_state = check_state_content }, no_request)
parse_header_line c text (b ∷ line) = do d ← known_header c text (b ∷ line); ok (d, no_request)

pub parse_headers : HttpConn → ℕ → Run (HttpConn × HttpCode)
parse_headers c text = do line ← string_at c.read_buf text; parse_header_line c text line

-- An index plus an `int`.
abbrev pub plus : ℕ → ℤ → ℤ
plus n (pos k) = pos (n + k)
plus n (negsuc k) = if ltb k n then pos (n - k - 1) else negsuc (k - n)

-- `text[i] = '\0'`; an index in front of the buffer is out of it.
abbrev pub end_text : Bytes → ℤ → Run Bytes
end_text buf (pos i) = store buf i 0
end_text buf (negsuc i) = fault

-- parseContent; a sum that no `int` holds is undefined.
pub parse_content : HttpConn → ℕ → Run (HttpConn × HttpCode)
parse_content c text =
    let ended : Run (HttpConn × HttpCode) = (do
      buf ← end_text c.read_buf (plus text c.content_length)
      ok (record c { read_buf = buf }, get_request)) in
    if not (leb_ℤ (plus c.checked_idx c.content_length) (pos 2147483647))
    then fault
    else if leb_ℤ (plus c.checked_idx c.content_length) (pos c.read_idx)
    then ended
    else ok (c, no_request)

-- `docRoot`.
abbrev pub doc_root : Bytes
doc_root = codes "/work"

-- The tests of doRequest on what `stat` told: whether others may read, and whether it is a
-- directory.
pub map_file : FileSystem → HttpConn → Bool → Bool → HttpConn × HttpCode
map_file fs c false is_directory = (c, forbidden_request)
map_file fs c true true = (c, bad_request)
map_file fs c true false = (record c { file_address = some (fs.content c.read_file) }, file_request)

-- doRequest behind `stat`.
pub check_file : FileSystem → HttpConn → Option FileInfo → HttpConn × HttpCode
check_file fs c none = (c, no_request)
check_file fs c (some info) =
    map_file fs (record c { st_size = info.st_size }) info.mode.others_may_read
      info.mode.is_directory

pub do_request : FileSystem → HttpConn → Run (HttpConn × HttpCode)
do_request fs c = do
  url ← or_fault c.url
  target ← string_at c.read_buf url
  let named = record c { read_file = doc_root ++ take (filename_len - length doc_root - 1) target }
  ok (check_file fs named (fs.stat named.read_file))
