-- ===== src/HttpConn/Process.antt =====
-- processRead, the main state machine of HttpConn.
pub mod Keeps
pub mod Outcome
pub mod Progress
pub mod RequestLine
pub mod Requests
pub mod Serves
use reactor_server.Prelude.{
  ℕ, zero, suc, ◌+◌, Bool, true, false, ◌&&◌, if◌then◌else◌, Run, ok, out_of_fuel, ◌>>=◌,
}
use reactor_server.Http.{
  HttpCode, no_request, get_request, bad_request, CheckState, check_state_requestline,
  check_state_header, check_state_content, LineStatus, line_ok, line_open,
}
use reactor_server.HttpConn.{
  HttpConn, FileSystem, parse_line, parse_request_line, parse_headers, parse_content, do_request,
}

-- A round of the `while`: `again` is the next one, with the status that it finds.
module _ (fs : FileSystem) (again : LineStatus → HttpConn → Run (HttpConn × HttpCode)) where
  pub after_request_line : HttpConn × HttpCode → Run (HttpConn × HttpCode)
  after_request_line (c, bad_request) = ok (c, bad_request)
  after_request_line (c, _) = again line_ok c

  pub after_headers : HttpConn × HttpCode → Run (HttpConn × HttpCode)
  after_headers (c, bad_request) = ok (c, bad_request)
  after_headers (c, get_request) = do_request fs c
  after_headers (c, _) = again line_ok c

  pub after_content : HttpConn × HttpCode → Run (HttpConn × HttpCode)
  after_content (c, get_request) = do_request fs c
  after_content (c, _) = again line_open c

  -- The `switch`, on the line at `text`.
  pub dispatch : CheckState → HttpConn → ℕ → Run (HttpConn × HttpCode)
  dispatch check_state_requestline c text = parse_request_line c text >>= after_request_line
  dispatch check_state_header c text = parse_headers c text >>= after_headers
  dispatch check_state_content c text = parse_content c text >>= after_content

  pub round : HttpConn → Run (HttpConn × HttpCode)
  round c = dispatch c.check_state (record c { start_line = c.checked_idx }) c.start_line

  -- The condition of the `while`, and what stands behind the loop.
  pub next_round : HttpConn → Run (HttpConn × HttpCode)
  next_round c = do
    (status, d) ← parse_line c
    elim status [ line_ok ↦ round d | _ ↦ ok (d, no_request) ]

abbrev pub in_content : LineStatus → CheckState → Bool
in_content line_ok check_state_content = true
in_content _ _ = false

pub process_read_loop : FileSystem → ℕ → LineStatus → HttpConn → Run (HttpConn × HttpCode)
process_read_loop fs zero status c = out_of_fuel
process_read_loop fs (suc fuel) status c =
    let again = process_read_loop fs fuel in
    if in_content status c.check_state then round fs again c else next_round fs again c

-- A round takes a line end off the bytes that are left, or is the first one on the content.
pub process_read : FileSystem → HttpConn → Run (HttpConn × HttpCode)
process_read fs c = process_read_loop fs (c.read_idx + c.read_idx + 2) line_ok c
