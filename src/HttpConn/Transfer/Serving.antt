-- ===== src/HttpConn/Transfer/Serving.antt =====
-- process on a request without content.
use reactor_server.Prelude.{
  ℕ, ◌≡◌, ◌<◌, refl, sym, ap, ◌∙◌, subst, Bool, true, false, not, [], ◌∷◌, Option, none, some,
  length, arith, if◌then◌else◌, ok, ◌>>=◌, Returns, returns, Returns-bind,
}
use reactor_server.Prelude.Int.{pos}
use reactor_server.Prelude.Bytes.{Bytes}
use reactor_server.Http.{
  HttpCode, forbidden_request, bad_request, file_request, check_state_requestline,
}
use reactor_server.HttpConn.{HttpConn, FileSystem, FileInfo, wait_in, wait_out}
use reactor_server.HttpConn.Process.{process_read}
use reactor_server.HttpConn.Process.Requests.{Message, IsMessage, render}
use reactor_server.HttpConn.Process.Outcome.{file_name, Serves, info_of}
use reactor_server.HttpConn.Process.Serves.{IsAt, lingers, process_read-Serves}
use reactor_server.HttpConn.Reply.{process_write, gather}
use reactor_server.HttpConn.Reply.Pages.{
  IsFresh, page_text, is_page, Says, process_write-page, gather-requests,
}
use reactor_server.HttpConn.Reply.Files.{file_text, process_write-file}
use reactor_server.HttpConn.Transfer.{after_write, answer, process}

-- A connection at the start of a request, with its response still to be written.
pub record IsReady (c : HttpConn) (m : Message) (body : Bytes) : Type 0 where
  pub line_next : c.check_state ≡ check_state_requestline
  pub no_content : c.content_length ≡ pos 0
  pub at_start : IsAt c [] (render m body) body
  pub fresh : IsFresh c

-- The response waits for EPOLLOUT, and is `text`.
pub record Waits (text : Bytes) (c d : HttpConn) : Type 0 where
  pub given : gather d d.iv ≡ ok text
  pub waits : d.requests ≡ wait_out c.sock_fd ∷ c.requests

-- The response to a request for the file `content` that `stat` tells of.
abbrev pub reply_text : Bytes → FileInfo → Bool → Bytes
reply_text content info linger =
    if not info.mode.others_may_read
    then page_text forbidden_request linger
    else if info.mode.is_directory
    then page_text bad_request linger
    else file_text linger content

module _ (fs : FileSystem) (name : Bytes) (linger : Bool) (c : HttpConn) (fresh : IsFresh c) where
  serves-fresh :
      (o : Option FileInfo) (r : HttpConn × HttpCode) → Serves fs name o linger c r → IsFresh r.0
  serves-fresh o r w = record {
    size = ap length w.buf_kept ∙ fresh.size;
    start = w.idx_kept ∙ fresh.start;
  }

  -- A response that processWrite has made is sent.
  after_write-Waits :
      {o : Option FileInfo} {r : HttpConn × HttpCode} {text : Bytes}
      → Serves fs name o linger c r
      → (d : HttpConn) (b : Bool) → Says text r.0 (d, b)
      → Waits text c (after_write (d, b))
  unfolding after_write
  after_write-Waits w d true s = record {
    given = gather-requests d (wait_out d.sock_fd ∷ d.requests) d.iv ∙ s.given;
    waits =
        ap (λ fd. wait_out fd ∷ d.requests) (s.says_fd ∙ w.fd_kept)
        ∙ ap (λ q. wait_out c.sock_fd ∷ q) (s.says_calls ∙ w.calls_kept);
  }
  after_write-Waits w d false s = absurd (ground (arith, s.to_send))

  answered :
      {o : Option FileInfo} {r : HttpConn × HttpCode} {text : Bytes} (code : HttpCode)
      → Serves fs name o linger c r
      → Returns (Says text r.0) (process_write r.0 code)
      → Returns (Waits text c) (process_write r.0 code >>= λ q. ok (after_write q))
  answered code w written = Returns-bind written (λ q s. returns (after_write-Waits w q.0 q.1 s))

  page_sent :
      {o : Option FileInfo} (r : HttpConn × HttpCode) (code : HttpCode)
      → Serves fs name o linger c r
      → is_page code ≡ true
      → Returns
          (Waits (page_text code linger) c)
          (process_write r.0 code >>= λ q. ok (after_write q))
  page_sent {o} r code w p = answered code w (
      subst (λ l. Returns (Says (page_text code l) r.0) (process_write r.0 code)) w.linger_is
        (process_write-page r.0 code (serves-fresh o r w) p))

  module _ (size : ℕ) (same : size ≡ length (fs.content name)) (some_bytes : 0 < size)
      (small : size < 2147483648) where
    answer-Waits :
        (readable directory : Bool) (r : HttpConn × HttpCode)
        → Serves fs name (some (info_of readable directory size)) linger c r
        → Returns
            (Waits (reply_text (fs.content name) (info_of readable directory size) linger) c)
            (answer r)
    unfolding answer
    answer-Waits false directory r w =
        subst (λ k. Returns (Waits (page_text forbidden_request linger) c) (answer (r.0, k)))
          (sym w.code_is) (page_sent r forbidden_request w refl)
    answer-Waits true true r w =
        subst (λ k. Returns (Waits (page_text bad_request linger) c) (answer (r.0, k)))
          (sym w.code_is) (page_sent r bad_request w refl)
    answer-Waits true false r w =
        let file = fs.content name in
        subst (λ k. Returns (Waits (file_text linger file) c) (answer (r.0, k))) (sym w.code_is)
          (answered file_request w (
            subst (λ l. Returns (Says (file_text l file) r.0) (process_write r.0 file_request))
              w.linger_is
              (process_write-file r.0 file (serves-fresh _ r w) w.file_is (w.size_is ∙ same)
                (omega (arith, same)) (omega (arith, same)))))

-- process, on a connection that waits for a request line, whose read buffer starts with a
-- well-formed GET request for an absolute path without Content-Length, all of it read, and whose
-- response is still empty, where `stat` finds the file, of at least one byte and less than 2 GiB,
-- as long as its content: it returns, and asks for EPOLLOUT alone. What `iv` then holds is the page
-- for 403 if others may not read the file, else the page for 400 if it is a directory, else the
-- head for 200 with its length and the file; the `Connection` line says keep-alive if the request
-- does.
pub process-Waits :
    (fs : FileSystem) (m : Message) (c : HttpConn) (body : Bytes) (info : FileInfo)
    → IsMessage m
    → IsReady c m body
    → fs.stat (file_name m) ≡ some info
    → info.st_size ≡ length (fs.content (file_name m))
    → 0 < info.st_size
    → info.st_size < 2147483648
    → Returns
        (Waits (reply_text (fs.content (file_name m)) info (lingers c.linger m.headers)) c)
        (process fs c)
unfolding process
process-Waits fs m c body info v ready found same some_bytes small =
    let linger = lingers c.linger m.headers in
    let read = process_read-Serves fs m c body v ready.line_next ready.no_content ready.at_start in
    Returns-bind
      (subst (λ o. Returns (Serves fs (file_name m) o linger c) (process_read fs c)) found read)
      (λ r w.
        answer-Waits fs (file_name m) linger c ready.fresh info.st_size same some_bytes small
          info.mode.others_may_read info.mode.is_directory r w)

-- process, on a connection that waits for a request line, whose read buffer starts with a
-- well-formed GET request for an absolute path without Content-Length, all of it read, and whose
-- response is still empty, where `stat` does not find the file: it returns with no response
-- written, and asks for more input alone.
pub process-missing :
    (fs : FileSystem) (m : Message) (c : HttpConn) (body : Bytes)
    → IsMessage m
    → IsReady c m body
    → fs.stat (file_name m) ≡ none
    → Returns
        (λ d. (d.requests ≡ wait_in c.sock_fd ∷ c.requests) × (d.write_idx ≡ 0))
        (process fs c)
unfolding process answer
process-missing fs m c body v ready missing =
    let linger = lingers c.linger m.headers in
    let read = process_read-Serves fs m c body v ready.line_next ready.no_content ready.at_start in
    Returns-bind
      (subst (λ o. Returns (Serves fs (file_name m) o linger c) (process_read fs c)) missing read)
      (λ r w.
        subst
          (λ k.
            Returns (λ d. (d.requests ≡ wait_in c.sock_fd ∷ c.requests) × (d.write_idx ≡ 0))
              (answer (r.0, k)))
          (sym w.code_is)
          (returns (
            ap (λ fd. wait_in fd ∷ r.0.requests) w.fd_kept
                ∙ ap (λ q. wait_in c.sock_fd ∷ q) w.calls_kept,
            w.idx_kept ∙ ready.fresh.start,
          )))
