-- ===== src/Http/Context.antt =====
-- src/HttpContext.h and src/HttpContext.cc: the parser of a request. `buf` is the memory that
-- `buf_` points to (`[]` for the null pointer); indices are not negative.
pub mod Lines
pub mod Requests
pub mod Truncated
pub mod Progress
use reactor_server.Prelude.{
  ℕ, zero, suc, ◌+◌, ◌-◌, Bool, true, false, ◌&&◌, [], ltb, ◌==◌, if◌then◌else◌, length, find_index,
  take, drop, Run, ok, out_of_fuel, ◌>>=◌,
}
use reactor_server.Prelude.Arrays.{load, store}
use reactor_server.Prelude.Bytes.{Bytes, bytes_eq, codes}
use reactor_server.Http.{
  HttpCode, no_request, get_request, bad_request, CheckState, check_state_requestline,
  check_state_header, check_state_content, LineStatus, line_ok, line_bad, line_open,
}
use reactor_server.Http.Request
use reactor_server.Http.Request.{
  HttpRequest, set_method, set_path, set_version, set_query, set_request_code, add_header,
}

pub record HttpContext : Type 0 where
  pub buf : Bytes
  pub read_idx : ℕ
  pub checked_idx : ℕ
  pub start_line : ℕ
  pub http_code : HttpCode
  pub check_state : CheckState
  pub request : HttpRequest

-- The constructor; `buf_` and `readIdx_` are set by setBuffer before they are read.
pub new : HttpContext
new = record {
  buf = [];
  read_idx = 0;
  checked_idx = 0;
  start_line = 0;
  http_code = no_request;
  check_state = check_state_requestline;
  request = Request.new;
}

pub reset : HttpContext → HttpContext
reset c = record c {
  buf = [];
  read_idx = 0;
  checked_idx = 0;
  start_line = 0;
  http_code = no_request;
  check_state = check_state_requestline;
  request = Request.reset c.request;
}

pub set_buffer : HttpContext → Bytes → ℕ → HttpContext
set_buffer c buf s = record c { buf = buf; read_idx = s }

-- Both bytes of a line end become 0, and the scan goes on behind them.
pub close_line : HttpContext → ℕ → ℕ → ℕ → Run (LineStatus × HttpContext)
close_line c first second next = do
  b ← store c.buf first 0
  d ← store b second 0
  ok (line_ok, record c { buf = d; checked_idx = next })

-- The branch of parseLine for '\r'.
pub at_return : HttpContext → Run (LineStatus × HttpContext)
at_return c =
    let look : Run (LineStatus × HttpContext) = do
      next ← load c.buf (c.checked_idx + 1)
      if next == b'\n'
          then close_line c c.checked_idx (c.checked_idx + 1) (c.checked_idx + 2)
          else ok (line_bad, c)
    in if c.checked_idx + 1 == c.read_idx then ok (line_open, c) else look

-- The branch for '\n'.
pub at_newline : HttpContext → Run (LineStatus × HttpContext)
at_newline c =
    let look : Run (LineStatus × HttpContext) = do
      last ← load c.buf (c.checked_idx - 1)
      if last == b'\r'
          then close_line c (c.checked_idx - 1) c.checked_idx (c.checked_idx + 1)
          else ok (line_bad, c)
    in if ltb 1 c.checked_idx then look else ok (line_bad, c)

-- The `for` of parseLine, with the rounds that are left until `readIdx_`.
pub parse_line_loop : ℕ → HttpContext → Run (LineStatus × HttpContext)
parse_line_loop zero c = ok (line_open, c)
parse_line_loop (suc rounds) c =
    let rest = parse_line_loop rounds (record c { checked_idx = c.checked_idx + 1 }) in
    load c.buf c.checked_idx >>= λ tmp.
    if tmp == b'\r' then at_return c else if tmp == b'\n' then at_newline c else rest

pub parse_line : HttpContext → Run (LineStatus × HttpContext)
parse_line c = parse_line_loop (c.read_idx - c.checked_idx) c

-- parseRequestLine on the `len` bytes of `text`.
pub set_target : HttpRequest → Bytes → HttpRequest
set_target r target =
    let question = find_index (λ c. c == b'?') target in
    if question == length target
    then (set_path r target).0
    else (set_query (set_path r (take question target)).0 (drop question target)).0

-- `end - begin == 8 && std::equal(begin, end - 1, "HTTP/1.")`.
abbrev pub is_version : Bytes → Bool
is_version text = length text == 8 && bytes_eq (take 7 text) (codes "HTTP/1.")

-- What stands behind the method; the flag tells whether the line is accepted.
pub parse_target : HttpRequest → Bytes → HttpRequest × Bool
parse_target r rest =
    let space = find_index (λ c. c == b' ') rest in
    let s = set_target r (take space rest) in
    let version = drop (suc space) rest in
    if space == length rest
    then (r, false)
    else if is_version version
    then ((set_version s version).0, true)
    else (s, false)

pub request_line : HttpRequest → Bytes → HttpRequest × Bool
request_line r text =
    let space = find_index (λ c. c == b' ') text in
    let (s, set) = set_method r (take space text) in
    if space == length text
    then (r, false)
    else if set
    then parse_target s (drop (suc space) text)
    else (s, false)

pub parse_request_line : HttpContext → Bytes → HttpContext × HttpCode
parse_request_line c text =
    let (s, accepted) = request_line c.request text in
    if accepted
    then (record c { request = s; check_state = check_state_header }, get_request)
    else (record c { request = s }, bad_request)

-- parseHeader on `len` bytes of the memory `text`. addHeader never refuses.
pub parse_header : ℕ → HttpContext → Bytes → ℕ → Run (HttpContext × HttpCode)
parse_header fuel c text len =
    let colon = find_index (λ b. b == b':') (take len text) in
    let added : Run (HttpContext × HttpCode) = do
      r ← add_header fuel c.request text colon len
      ok (record c { request = r }, get_request)
    in if colon == length (take len text)
      then ok (record c { check_state = check_state_content }, get_request)
      else added

abbrev pub parse_body : HttpCode
parse_body = get_request

-- `request_.setRequestCode(code); return code;`.
pub finish : HttpContext → HttpCode → HttpCode × HttpContext
finish c code = (code, record c { request = set_request_code c.request code })

-- A round of parseRequest's `while` that may be followed by another: the request line or a header
-- line, and what the loop does next.
module _ (again : HttpContext → Run (HttpCode × HttpContext)) where
  pub after_line : HttpContext × HttpCode → Run (HttpCode × HttpContext)
  after_line (c, bad_request) = ok (finish c bad_request)
  after_line (c, _) = again c

  pub dispatch : ℕ → CheckState → HttpContext → Bytes → ℕ → Run (HttpCode × HttpContext)
  dispatch fuel check_state_requestline c text le = after_line (parse_request_line c (take le text))
  dispatch fuel check_state_header c text le = parse_header fuel c text le >>= after_line
  dispatch fuel check_state_content c text le = ok (finish c parse_body)

  -- The body of the loop; `le` is only read where it is not negative.
  pub round : ℕ → HttpContext → Run (HttpCode × HttpContext)
  round fuel c =
      dispatch fuel c.check_state (record c { start_line = c.checked_idx })
        (drop c.start_line c.buf) (c.checked_idx - c.start_line - 2)

abbrev is_content : CheckState → Bool
is_content check_state_content = true
is_content _ = false

-- The `while` of parseRequest: in the content state no further line is read. `trims` bounds the
-- trimming loop of addHeader.
pub parse_request_loop : ℕ → ℕ → HttpContext → Run (HttpCode × HttpContext)
parse_request_loop trims zero c = out_of_fuel
parse_request_loop trims (suc fuel) c =
    let again = parse_request_loop trims fuel in
    let read : Run (HttpCode × HttpContext) = do
      (status, d) ← parse_line c
      elim status [ line_ok ↦ round again trims d | _ ↦ ok (finish d get_request) ]
    in if is_content c.check_state then round again trims c else read

-- Each round but the last takes a line end off the bytes that are left.
pub parse_request : ℕ → HttpContext → Run (HttpCode × HttpContext)
parse_request trims c = parse_request_loop trims (c.read_idx + 2) c
