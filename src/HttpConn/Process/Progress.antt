-- ===== src/HttpConn/Process/Progress.antt =====
-- processRead ends.
use reactor_server.Prelude.{
  ℕ, zero, suc, ◌+◌, ◌-◌, ◌≤◌, ◌<◌, ◌≡◌, ◌≢◌, refl, Bool, true, false, arith, Run, ok, out_of_fuel,
  Stops, stops, Stops-bind, Stops-if, Stops-ne,
}
use reactor_server.Http.{
  HttpCode, no_request, get_request, bad_request, CheckState, check_state_requestline,
  check_state_header, check_state_content, LineStatus, line_ok, line_bad, line_open,
}
use reactor_server.Http.Context.{HttpContext}
use reactor_server.Http.Context.Progress.{Passes, parse_line-Passes}
use reactor_server.HttpConn.{HttpConn, FileSystem, scanner, parse_line}
use reactor_server.HttpConn.Process.{
  after_request_line, after_headers, after_content, dispatch, round, next_round, in_content,
  process_read_loop, process_read,
}
use reactor_server.HttpConn.Process.Keeps.{
  Keeps, parse_request_line-Keeps, parse_headers-Keeps, parse_content-Keeps, do_request-Stops,
}

-- The next round with the line just read, and the one behind an incomplete content.
abbrev is_content : CheckState → Bool
is_content check_state_content = true
is_content _ = false

module _ (fs : FileSystem) (again : LineStatus → HttpConn → Run (HttpConn × HttpCode)) where
  after_request_line-Stops :
      (d : HttpConn) (code : HttpCode)
      → Stops (λ r. Unit {0}) (again line_ok d)
      → Stops (λ r. Unit {0}) (after_request_line fs again (d, code))
  unfolding after_request_line
  after_request_line-Stops d bad_request s = stops tt
  after_request_line-Stops d _ s = s

  after_headers-Stops :
      (d : HttpConn) (code : HttpCode)
      → Stops (λ r. Unit {0}) (again line_ok d)
      → Stops (λ r. Unit {0}) (after_headers fs again (d, code))
  unfolding after_headers
  after_headers-Stops d bad_request s = stops tt
  after_headers-Stops d get_request s = do_request-Stops fs d
  after_headers-Stops d _ s = s

  after_content-Stops :
      (d : HttpConn) (code : HttpCode)
      → Stops (λ r. Unit {0}) (again line_open d)
      → Stops (λ r. Unit {0}) (after_content fs again (d, code))
  unfolding after_content
  after_content-Stops d get_request s = do_request-Stops fs d
  after_content-Stops d _ s = s

  dispatch-Stops :
      (state : CheckState) (c : HttpConn) (text : ℕ)
      → ((d : HttpConn) (code : HttpCode)
          → Keeps c (d, code)
          → is_content state ≡ false
          → Stops (λ r. Unit {0}) (again line_ok d))
      → ((d : HttpConn) (code : HttpCode)
          → Keeps c (d, code)
          → Stops (λ r. Unit {0}) (again line_open d))
      → Stops (λ r. Unit {0}) (dispatch fs again state c text)
  unfolding dispatch
  dispatch-Stops check_state_requestline c text ok_next open_next =
      Stops-bind (parse_request_line-Keeps c text)
        (λ r k. after_request_line-Stops r.0 r.1 (ok_next r.0 r.1 k refl))
  dispatch-Stops check_state_header c text ok_next open_next =
      Stops-bind (parse_headers-Keeps c text)
        (λ r k. after_headers-Stops r.0 r.1 (ok_next r.0 r.1 k refl))
  dispatch-Stops check_state_content c text ok_next open_next =
      Stops-bind (parse_content-Keeps c text)
        (λ r k. after_content-Stops r.0 r.1 (open_next r.0 r.1 k))

-- The rounds that may follow: two for each byte that is left, and one for the content.
abbrev weight : LineStatus → ℕ
weight line_ok = 1
weight _ = 0

abbrev left : HttpConn → ℕ
left c = c.read_idx - c.checked_idx

in_content-state :
    (status : LineStatus) (state : CheckState)
    → in_content status state ≡ true
    → (is_content state ≡ true) × (weight status ≡ 1)
in_content-state line_ok check_state_content e = (refl, refl)
in_content-state line_ok check_state_header e = cc
in_content-state line_ok check_state_requestline e = cc
in_content-state line_bad state e = cc
in_content-state line_open state e = cc

-- What a line that was read leaves.
abbrev Goes : HttpConn → LineStatus × HttpConn → Type 0
Goes c (line_ok, d) =
    (c.checked_idx < d.checked_idx) × (d.checked_idx ≤ c.read_idx) × (d.read_idx ≡ c.read_idx)
Goes c (_, d) = Unit {0}

parse_line-Goes : (c : HttpConn) → Stops (Goes c) (parse_line c)
unfolding parse_line
parse_line-Goes c = Stops-bind (parse_line-Passes (scanner c)) (λ r p. goes r.0 r.1 p)
  where
    goes :
        (status : LineStatus) (s : HttpContext)
        → Passes c.checked_idx c.read_idx (status, s)
        → Stops (Goes c) (ok (status, record c { read_buf = s.buf; checked_idx = s.checked_idx }))
    goes line_ok s p = stops (p.0, p.1, refl)
    goes line_bad s p = stops tt
    goes line_open s p = stops tt

module _ (fs : FileSystem) where
  -- Behind a line, with a round less.
  module _ (fuel : ℕ)
      (ih : (status : LineStatus) (d : HttpConn)
        → left d + left d + weight status < fuel
        → Stops (λ r. Unit {0}) (process_read_loop fs fuel status d)) where
    round-Stops :
        (c : HttpConn)
        → left c + left c < fuel
        → (is_content c.check_state ≡ false → left c + left c + 1 < fuel)
        → Stops (λ r. Unit {0}) (round fs (process_read_loop fs fuel) c)
    unfolding round
    round-Stops c few fewer =
        dispatch-Stops fs (process_read_loop fs fuel) c.check_state
          (record c { start_line = c.checked_idx }) c.start_line
          (λ d code k e. ih line_ok d (omega (arith, fewer e)))
          (λ d code k. ih line_open d (omega arith))

    next_round-Stops :
        (c : HttpConn)
        → left c + left c < suc fuel
        → Stops (λ r. Unit {0}) (next_round fs (process_read_loop fs fuel) c)
    unfolding next_round
    next_round-Stops c few = Stops-bind (parse_line-Goes c) (λ r g. go r.0 r.1 g)
      where
        go :
            (status : LineStatus) (d : HttpConn)
            → Goes c (status, d)
            → Stops
                (λ r. Unit {0})
                (elim status [
                  | line_ok ↦ round fs (process_read_loop fs fuel) d
                  | _ ↦ ok (d, no_request)
                ])
        go line_ok d g = round-Stops d (omega arith) (λ e. omega arith)
        go line_bad d g = stops tt
        go line_open d g = stops tt

  process_read_loop-Stops :
      (fuel : ℕ) (status : LineStatus) (c : HttpConn)
      → left c + left c + weight status < fuel
      → Stops (λ r. Unit {0}) (process_read_loop fs fuel status c)
  unfolding process_read_loop
  process_read_loop-Stops zero status c h = absurd (omega arith)
  process_read_loop-Stops (suc fuel) status c h =
      Stops-if (in_content status c.check_state)
        (λ e.
          let inside = in_content-state status c.check_state e in
          round-Stops fuel (process_read_loop-Stops fuel) c (omega (arith, inside.1))
            (λ out. absurd (ground (arith, inside.0, out))))
        (λ e. next_round-Stops fuel (process_read_loop-Stops fuel) c (omega arith))

-- processRead ends on every connection: the rounds that the model gives its loop, two more than
-- twice the bytes read, are enough.
pub process_read-ends : (fs : FileSystem) (c : HttpConn) → process_read fs c ≢ out_of_fuel
unfolding process_read
process_read-ends fs c =
    Stops-ne (process_read_loop-Stops fs (c.read_idx + c.read_idx + 2) line_ok c (omega arith))
