-- ===== src/Http/Context/Requests/RoundTrip.antt =====
-- parseRequest reads back what a well-formed request says.
use reactor_server.Prelude.{
  ℕ, zero, suc, ◌+◌, ◌-◌, ◌≤◌, ◌≡◌, refl, sym, ap, ◌∙◌, false, ◌||◌, List, [], ◌∷◌, ◌++◌,
  append_assoc, arith, length, length-append, take-length-append, drop-length-append, find_index,
  find_index-append, All, All-append, ◌==◌, ok, Returns, returns,
}
use reactor_server.Prelude.Bytes.{Bytes}
use reactor_server.Prelude.Dict.{insert}
use reactor_server.Http.{
  HttpCode, get_request, CheckState, check_state_requestline, check_state_header,
  check_state_content,
}
use reactor_server.Http.Request.{HttpRequest, set_request_code}
use reactor_server.Http.Request.Headers.{add_header-stores, header_line, header_length}
use reactor_server.Http.Context.{
  HttpContext, parse_header, parse_request_loop, parse_request, after_line, dispatch, round, finish,
  is_content,
}
use reactor_server.Http.Context.Lines.{is_break, IsLine, ended, zeroed, parse_line-ended}
use reactor_server.Http.Context.Requests.{
  Header, Message, IsHeader, IsMessage, header_text, request_text, header_lines, render, add_all,
  with_line,
}
use reactor_server.Http.Context.Requests.RequestLine.{
  parse_request_line_lem, All-map, request_text-IsLine,
}

-- The parser stands at the start of a line: `pre` is read, `rest` is not.
pub record IsAt (c : HttpContext) (pre rest : Bytes) : Type 0 where
  pub buf_is : c.buf ≡ pre ++ rest
  pub checked_is : c.checked_idx ≡ length pre
  pub start_is : c.start_line ≡ length pre
  pub all_read : length pre + length rest ≤ c.read_idx

-- What is read after one more line.
abbrev past : Bytes → Bytes → Bytes
past pre line = pre ++ zeroed line []

module _ (pre line rest : Bytes) where
  length-past : length (past pre line) ≡ length pre + length line + 2
  length-past = omega (arith, length-append pre (zeroed line []), length-append line (0 ∷ 0 ∷ []))

  zeroed-past : pre ++ zeroed line rest ≡ past pre line ++ rest
  zeroed-past = simp append_assoc

-- The parser behind the line, before it looks at it.
abbrev behind : HttpContext → Bytes → Bytes → Bytes → HttpContext
behind c pre line rest = record c {
  buf = pre ++ zeroed line rest;
  checked_idx = length pre + length line + 2;
  start_line = length pre + length line + 2;
}

module _ (c : HttpContext) (pre line rest : Bytes) (s : IsAt c pre (ended line rest)) where
  fits : length pre + length line + 2 + length rest ≤ c.read_idx
  fits = omega (arith, s.all_read, length-append line (b'\r' ∷ b'\n' ∷ rest))

  behind-IsAt :
      (d : HttpContext)
      → d.buf ≡ pre ++ zeroed line rest
      → d.checked_idx ≡ length pre + length line + 2
      → d.start_line ≡ length pre + length line + 2
      → d.read_idx ≡ c.read_idx
      → IsAt d (past pre line) rest
  behind-IsAt d b k l r = record {
    buf_is = b ∙ zeroed-past pre line rest;
    checked_is = k ∙ sym (length-past pre line rest);
    start_is = l ∙ sym (length-past pre line rest);
    all_read = omega (arith, fits, length-past pre line rest);
  }

  -- A round takes the next line and hands it to the parser of the state.
  next_line :
      (trims fuel : ℕ) (state : CheckState)
      → c.check_state ≡ state
      → is_content state ≡ false
      → IsLine line
      → parse_request_loop trims (suc fuel) c
        ≡ dispatch
            (parse_request_loop trims fuel)
            trims
            state
            (behind c pre line rest)
            (zeroed line rest)
            (length line)
  unfolding parse_request_loop round
  next_line trims fuel state is e h =
      let open_state : is_content c.check_state ≡ false = rw is e in
      let handed = λ (st : CheckState).
        dispatch (parse_request_loop trims fuel) trims st (behind c pre line rest)
          (zeroed line rest) (length line) in
      let read = parse_line-ended c pre line rest s.buf_is s.checked_is (omega (arith, fits)) h in
      let size : length pre + length line + 2 - length pre - 2 ≡ length line = omega arith in
      rw (open_state, read, s.start_is, drop-length-append pre (zeroed line rest), size)
        (ap handed is)

header_text-IsLine : (h : Header) → IsHeader h → IsLine (header_text h)
header_text-IsLine h v =
    All-append (λ b. is_break b ≡ false) h.key (b':' ∷ (h.blanks ++ h.value))
      (All-map (λ b. b == b':' || is_break b) is_break h.key (λ b e. ground arith) v.key_plain)
      (refl, All-append (λ b. is_break b ≡ false) h.blanks h.value v.blanks_line v.value_line)

length-header_text : (h : Header) → length (header_text h) ≡ header_length h.key h.blanks h.value []
length-header_text h =
    omega
      (arith, length-append h.key (b':' ∷ (h.blanks ++ h.value)), length-append h.blanks h.value)

-- A header line is stored.
parse_header_lem :
    (trims : ℕ) (c : HttpContext) (h : Header) (rest : Bytes)
    → IsHeader h
    → parse_header (suc trims) c (zeroed (header_text h) rest) (length (header_text h))
      ≡ ok (
        record c {
          request = record c.request { headers = insert h.key h.value c.request.headers };
        },
        get_request,
      )
unfolding parse_header
parse_header_lem trims c h rest v =
    let key =
      All-map (λ b. b == b':' || is_break b) (λ b. b == b':') h.key (λ b e. ground arith)
        v.key_plain in
    let colon = find_index-append (λ b. b == b':') h.key b':' (h.blanks ++ h.value) key refl in
    let inside : (length h.key == length (header_text h)) ≡ false =
      ground (arith, length-header_text h) in
    let shape : zeroed (header_text h) rest ≡ header_line h.key h.blanks h.value (0 ∷ rest) =
      simp append_assoc in
    rw (
      take-length-append (header_text h) (0 ∷ 0 ∷ rest),
      colon,
      inside,
      shape,
      length-header_text h,
      add_header-stores h.key h.blanks h.value (0 ∷ rest) trims c.request v.blank v.value_starts
          v.value_ends,
    )

-- How the parser ends on the header lines, with `r` the request so far.
abbrev pub Reads : HttpRequest → HttpCode × HttpContext → Type 0
Reads r (code, d) = (code ≡ get_request) × (d.request ≡ set_request_code r get_request)

content_lem :
    (trims fuel : ℕ) (c : HttpContext)
    → c.check_state ≡ check_state_content
    → Returns (Reads c.request) (parse_request_loop trims (suc fuel) c)
unfolding parse_request_loop round dispatch finish
content_lem trims fuel c e = rw e (returns (refl, refl))

-- The empty line ends the headers.
blank_line :
    (trims : ℕ) (c : HttpContext) (text : Bytes)
    → parse_header trims c text 0 ≡ ok (record c { check_state = check_state_content }, get_request)
unfolding parse_header find_index
blank_line trims c text = refl

headers_lem :
    (trims fuel : ℕ) (hs : List Header) (c : HttpContext) (pre body : Bytes)
    → length hs + 2 ≤ fuel
    → IsAt c pre (header_lines hs body)
    → c.check_state ≡ check_state_header
    → All IsHeader hs
    → Returns (Reads (add_all c.request hs)) (parse_request_loop (suc trims) fuel c)
unfolding dispatch after_line
headers_lem trims zero hs c pre body f s e v = absurd (omega arith)
headers_lem trims (suc zero) hs c pre body f s e v = absurd (omega arith)
headers_lem trims (suc (suc fuel)) [] c pre body f s e v =
    let state : CheckState = check_state_content in
    rw (next_line c pre [] body s (suc trims) (suc fuel) check_state_header e refl tt) (
      rw (blank_line (suc trims) (behind c pre [] body) (zeroed [] body))
        (content_lem (suc trims) fuel (record (behind c pre [] body) { check_state = state }) refl))
headers_lem trims (suc (suc fuel)) (h ∷ hs) c pre body f s e v =
    let rest = header_lines hs body in
    let line = header_text h in
    let r : HttpRequest = record c.request { headers = insert h.key h.value c.request.headers } in
    let d : HttpContext = record (behind c pre line rest) { request = r } in
    let step =
      next_line c pre line rest s (suc trims) (suc fuel) check_state_header e refl
        (header_text-IsLine h v.0) in
    rw step (
      rw (parse_header_lem trims (behind c pre line rest) h rest v.0) (
        headers_lem trims (suc fuel) hs d (past pre line) body (omega arith)
          (behind-IsAt c pre line rest s d refl refl refl refl) e v.1))

length-header_lines :
    (hs : List Header) (body : Bytes) → length hs + 2 ≤ length (header_lines hs body)
length-header_lines [] body = omega arith
length-header_lines (h ∷ hs) body = omega (
  arith,
  length-header_lines hs body,
  length-append (header_text h) (b'\r' ∷ b'\n' ∷ header_lines hs body),
)

-- parseRequest, at the start of a buffer that holds the text of a well-formed request and in the
-- state for the request line, returns GET_REQUEST, and the request that it has built has the
-- method, path, query, version and headers that the text spells, whatever body follows.
pub parse_request-render :
    (trims : ℕ) (c : HttpContext) (m : Message) (body : Bytes)
    → IsMessage m
    → c.check_state ≡ check_state_requestline
    → IsAt c [] (render m body)
    → Returns (Reads (add_all (with_line c.request m) m.headers)) (parse_request (suc trims) c)
unfolding parse_request dispatch after_line
parse_request-render trims c m body v e s =
    let rest = header_lines m.headers body in
    let line = request_text m in
    let d : HttpContext = record (behind c [] line rest) {
      request = with_line c.request m;
      check_state = check_state_header;
    } in
    let step =
      next_line c [] line rest s (suc trims) (c.read_idx + 1) check_state_requestline e refl
        (request_text-IsLine m v) in
    let fuel : c.read_idx + 2 ≡ suc (c.read_idx + 1) = omega arith in
    rw (fuel, step, take-length-append line (0 ∷ 0 ∷ rest))
      (rw (parse_request_line_lem m v (behind c [] line rest)) (
        headers_lem trims (c.read_idx + 1) m.headers d (past [] line) body enough
          (behind-IsAt c [] line rest s d refl refl refl refl) refl v.headers_plain))
  where
    enough : length m.headers + 2 ≤ c.read_idx + 1
    enough = omega (
      arith,
      s.all_read,
      length-header_lines m.headers body,
      length-append (request_text m) (b'\r' ∷ b'\n' ∷ header_lines m.headers body),
    )
