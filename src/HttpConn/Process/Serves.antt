-- ===== src/HttpConn/Process/Serves.antt =====
-- processRead on a request without content.
use reactor_server.Prelude.{
  ℕ, zero, suc, ◌+◌, ◌≤◌, ◌≡◌, refl, sym, ap, subst, Bool, true, false, ◌||◌, List, [], ◌∷◌, ◌++◌,
  Option, some, append_assoc, arith, length, length-append, All, ◌==◌, ok, Returns, returns,
  Returns-bind, Returns-map,
}
use reactor_server.Prelude.Int.{pos}
use reactor_server.Prelude.Bytes.{Bytes, codes}
use reactor_server.Prelude.CString.{string_at, string_at_lem, has_prefix}
use reactor_server.Http.{
  HttpCode, no_request, CheckState, check_state_requestline, check_state_header, line_ok,
}
use reactor_server.Http.Context.Lines.{is_break, IsLine, ended, zeroed, parse_line-ended}
use reactor_server.Http.Context.Requests.RequestLine.{All-map}
use reactor_server.HttpConn.{
  HttpConn, FileSystem, scanner, parse_line, is_zero, parse_header_line, parse_headers,
}
use reactor_server.HttpConn.Process.{
  after_request_line, after_headers, dispatch, round, next_round, in_content, process_read_loop,
  process_read,
}
use reactor_server.HttpConn.Process.RequestLine.{
  cut_line, target_at, target_string, behind_line, parse_request_line_lem,
}
use reactor_server.HttpConn.Process.Requests.{
  Message, IsMessage, IsHeader, target, protocol, line_text, header_lines, render, keeps_alive,
  known_header_lem, line_text-IsLine,
}
use reactor_server.HttpConn.Process.Outcome.{
  file_name, Serves, SameReply, Serves-same, Done, do_request-Serves,
}

-- The scan stands at the start of a line: `pre` is scanned, `rest` is not; all but `body` was read.
pub record IsAt (c : HttpConn) (pre rest body : Bytes) : Type 0 where
  pub buf_is : c.read_buf ≡ pre ++ rest
  pub checked_is : c.checked_idx ≡ length pre
  pub start_is : c.start_line ≡ length pre
  pub all_read : length pre + length rest ≤ c.read_idx + length body

-- The connection behind the line, before it looks at it.
abbrev behind : HttpConn → Bytes → Bytes → Bytes → HttpConn
behind c pre line rest = record c {
  read_buf = pre ++ zeroed line rest;
  checked_idx = length pre + length line + 2;
  start_line = length pre + length line + 2;
}

module _ (fs : FileSystem) (c : HttpConn) (pre line rest body : Bytes)
    (s : IsAt c pre (ended line rest) body) (behind_it : length body ≤ length rest) where
  next_line :
      (fuel : ℕ) (state : CheckState)
      → c.check_state ≡ state
      → in_content line_ok state ≡ false
      → IsLine line
      → process_read_loop fs (suc fuel) line_ok c
        ≡ dispatch fs (process_read_loop fs fuel) state (behind c pre line rest) (length pre)
  unfolding process_read_loop next_round round parse_line
  next_line fuel state is e h =
      let open_state : in_content line_ok c.check_state ≡ false = rw is e in
      let fits : length pre + length line + 2 ≤ c.read_idx =
        omega (arith, s.all_read, length-append line (b'\r' ∷ b'\n' ∷ rest)) in
      let read = parse_line-ended (scanner c) pre line rest s.buf_is s.checked_is fits h in
      let handed = λ (st : CheckState).
        dispatch fs (process_read_loop fs fuel) st (behind c pre line rest) (length pre) in
      rw (open_state, read, s.start_is) (ap handed is)

-- What a header line other than Content-Length leaves.
record Noted (d : HttpConn) (line : Bytes) (r : HttpConn × HttpCode) : Type 0 where
  code : r.1 ≡ no_request
  only : r.0 ≡ record d { linger = d.linger || keeps_alive line; host = r.0.host }

parse_header_line-Noted :
    (d : HttpConn) (text b : ℕ) (line : Bytes)
    → has_prefix (b ∷ line) (codes "Content-Length:") ≡ false
    → Returns (Noted d (b ∷ line)) (parse_header_line d text (b ∷ line))
unfolding parse_header_line
parse_header_line-Noted d text b line no_length =
    Returns-bind (known_header_lem d text (b ∷ line) no_length)
      (λ e is. returns (record { code = refl; only = is }))

length-header_lines :
    (hs : List Bytes) (body : Bytes) → length hs + length body ≤ length (header_lines hs body)
length-header_lines [] body = omega arith
length-header_lines (h ∷ hs) body =
    omega
      (arith, length-header_lines hs body, length-append h (b'\r' ∷ b'\n' ∷ header_lines hs body))

-- Whether the connection is to be kept, once the header lines are read.
abbrev pub lingers : Bool → List Bytes → Bool
lingers l [] = l
lingers l (h ∷ hs) = lingers (l || keeps_alive h) hs

module _ (fs : FileSystem) (m : Message) where
  -- The target is still where the request line put it, whatever is read of `pre ++ rest`.
  abbrev Targets : HttpConn → Bytes → Type 0
  Targets c pre =
      (c.url ≡ some (target_at m))
      × ((rest : Bytes) → string_at (pre ++ rest) (target_at m) ≡ ok (target m))

  headers_lem :
      (fuel : ℕ) (hs : List Bytes) (c : HttpConn) (pre body : Bytes)
      → length hs + 1 ≤ fuel
      → IsAt c pre (header_lines hs body) body
      → c.check_state ≡ check_state_header
      → c.content_length ≡ pos 0
      → Targets c pre
      → All IsHeader hs
      → Returns (Done fs m (lingers c.linger hs) c) (process_read_loop fs fuel line_ok c)
  unfolding dispatch parse_headers parse_header_line after_headers
  headers_lem zero hs c pre body f s e n t v = absurd (omega arith)
  headers_lem (suc fuel) [] c pre body f s e n t v =
      let d = behind c pre [] body in
      let same : SameReply c d = record {
        file_same = refl;
        size_same = refl;
        buf_same = refl;
        idx_same = refl;
        fd_same = refl;
        calls_same = refl;
      } in
      let read : string_at (pre ++ zeroed [] body) (length pre) ≡ ok [] =
        string_at_lem pre [] (0 ∷ body) (length pre) refl tt in
      let no_content : is_zero c.content_length ≡ true = ap is_zero n in
      rw (next_line fs c pre [] body body s (omega arith) fuel check_state_header e refl tt) (
        rw (read, no_content)
          (Returns-map (λ r q. Serves-same same q)
            (do_request-Serves fs m d (target_at m) t.0 (t.1 (zeroed [] body)))))
  headers_lem (suc fuel) ([] ∷ hs) c pre body f s e n t v = absurd (ground (arith, v.0.some_bytes))
  headers_lem (suc fuel) ((b ∷ h) ∷ hs) c pre body f s e n t v =
      let line = b ∷ h in
      let rest = header_lines hs body in
      let d = behind c pre line rest in
      let again = process_read_loop fs fuel in
      let l = c.linger || keeps_alive line in
      let read : string_at (pre ++ zeroed line rest) (length pre) ≡ ok line =
        string_at_lem pre line (0 ∷ rest) (length pre) refl (
          All-map (λ b. is_break b || b == 0) (λ b. b == 0) line (λ b e. ground arith) v.0.plain) in
      let inside =
        All-map (λ b. is_break b || b == 0) is_break line (λ b e. ground arith) v.0.plain in
      let size = length-append pre (zeroed line []) in
      let next = λ (host : Option ℕ).
        headers_lem fuel hs (record d { linger = l; host = host }) (pre ++ zeroed line []) body
          (omega arith)
          (record {
            buf_is = simp append_assoc;
            checked_is = omega (arith, size, length-append line (0 ∷ 0 ∷ []));
            start_is = omega (arith, size, length-append line (0 ∷ 0 ∷ []));
            all_read = omega (
              arith,
              s.all_read,
              size,
              length-append line (0 ∷ 0 ∷ []),
              length-append line (b'\r' ∷ b'\n' ∷ rest),
            );
          })
          e n (t.0, λ r. rw (append_assoc pre (zeroed line []) r) (t.1 (zeroed line [] ++ r)))
          v.1 in
      rw
        (next_line fs c pre line rest body s (omega (arith, length-header_lines hs body)) fuel
          check_state_header e refl inside)
        (rw read (
          Returns-bind (parse_header_line-Noted d (length pre) b h v.0.no_length) (λ r q.
            subst (λ k. Returns (Done fs m (lingers l hs) c) (after_headers fs again (r.0, k)))
              (sym q.code)
              (subst (λ x. Returns (Done fs m (lingers l hs) c) (again line_ok x)) (sym q.only)
                (Returns-map
                  (λ a w.
                    Serves-same
                      (record {
                        file_same = refl;
                        size_same = refl;
                        buf_same = refl;
                        idx_same = refl;
                        fd_same = refl;
                        calls_same = refl;
                      })
                      w)
                  (next r.0.host))))))

pub process_read-Serves :
    (fs : FileSystem) (m : Message) (c : HttpConn) (body : Bytes)
    → IsMessage m
    → c.check_state ≡ check_state_requestline
    → c.content_length ≡ pos 0
    → IsAt c [] (render m body) body
    → Returns
        (Serves fs (file_name m) (fs.stat (file_name m)) (lingers c.linger m.headers) c)
        (process_read fs c)
unfolding process_read dispatch after_request_line
process_read-Serves fs m c body v e n s =
    let rest = header_lines m.headers body in
    let line = line_text m in
    let front = cut_line m [] in
    let d = behind_line m v (behind c [] line rest) rest in
    let more = c.read_idx + c.read_idx + 1 in
    let fuel : c.read_idx + c.read_idx + 2 ≡ suc more = omega arith in
    let split : (r : Bytes) → cut_line m r ≡ front ++ r = λ r. simp append_assoc in
    let size : length front ≡ 0 + length line + 2 = omega (
      arith,
      length-append m.method (0 ∷ (target m ++ 0 ∷ (protocol ++ 0 ∷ 0 ∷ []))),
      length-append (target m) (0 ∷ (protocol ++ 0 ∷ 0 ∷ [])),
      length-append m.method (b' ' ∷ (target m ++ b' ' ∷ protocol)),
      length-append (target m) (b' ' ∷ protocol),
    ) in
    let all : length line + 2 + length rest ≤ c.read_idx + length body =
      omega (arith, s.all_read, length-append line (b'\r' ∷ b'\n' ∷ rest)) in
    let enough : length m.headers + 1 ≤ more = omega (arith, length-header_lines m.headers body) in
    rw
      (
        fuel,
        next_line fs c [] line rest body s (omega (arith, length-header_lines m.headers body)) more
            check_state_requestline e refl (line_text-IsLine m v),
        parse_request_line_lem m v (behind c [] line rest) rest,
      )
      (Returns-map
        (λ r w.
          Serves-same
            (record {
              file_same = refl;
              size_same = refl;
              buf_same = refl;
              idx_same = refl;
              fd_same = refl;
              calls_same = refl;
            })
            w)
        (headers_lem fs m more m.headers d front body enough
          (record {
            buf_is = split rest;
            checked_is = sym size;
            start_is = sym size;
            all_read = omega arith;
          })
          refl n (refl, λ r. rw (← split r) (target_string m v r)) v.headers_plain))
