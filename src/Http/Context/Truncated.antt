-- ===== src/Http/Context/Truncated.antt =====
-- parseRequest on a request that breaks off.
use reactor_server.Prelude.{ℕ, suc, ◌+◌, ◌≡◌, ap, false, ◌++◌, length, arith, ok, sym}
use reactor_server.Prelude.Bytes.{Bytes}
use reactor_server.Http.{get_request}
use reactor_server.Http.Request.{set_request_code}
use reactor_server.Http.Context.{HttpContext, parse_request, parse_request_loop, finish, is_content}
use reactor_server.Http.Context.Lines.{IsLine, parse_line-open}

-- Where the bytes read of the current line hold no line end, and the state is not that for the
-- content, parseRequest returns GET_REQUEST and marks the request as complete with what was parsed
-- of it so far.
pub parse_request-truncated :
    (trims : ℕ) (c : HttpContext) (pre line rest : Bytes)
    → c.buf ≡ pre ++ (line ++ rest)
    → c.checked_idx ≡ length pre
    → c.read_idx ≡ length pre + length line
    → IsLine line
    → is_content c.check_state ≡ false
    → parse_request trims c
      ≡ ok (
        get_request,
        record c { checked_idx = c.read_idx; request = set_request_code c.request get_request },
      )
unfolding parse_request parse_request_loop finish
parse_request-truncated trims c pre line rest e f r h s =
    let fuel : c.read_idx + 2 ≡ suc (c.read_idx + 1) = omega arith in
    rw (fuel, s, parse_line-open c pre line rest e f r h)
      (ap
        (λ (n : ℕ). ok (
          get_request,
          record c { checked_idx = n; request = set_request_code c.request get_request },
        ))
        (sym r))
