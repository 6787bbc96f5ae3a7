-- ===== src/HttpConn/Reply/Bounds.antt =====
-- processWrite stays within its buffer.
use reactor_server.Prelude.{
  ℕ, Bool, true, false, length, ◌==◌, ok, ◌>>=◌, Returns, returns, Returns-bind, Returns-map,
  Returns-if,
}
use reactor_server.Prelude.Int.{ℤ, pos}
use reactor_server.Prelude.Bytes.{Bytes}
use reactor_server.Prelude.CString.{to_int}
use reactor_server.Http.{
  HttpCode, internal_error, bad_request, no_request, forbidden_request, file_request, ok_200_title,
  error_400_title, error_400_form, error_403_title, error_403_form, error_404_title, error_404_form,
  error_500_title, error_500_form,
}
use reactor_server.HttpConn.{HttpConn}
use reactor_server.HttpConn.Reply.{
  crlf, status_line, length_line, linger_line, add_status_line, add_content_length, add_linger,
  add_blank_line, add_content, add_headers, add_page, finish_page, welcome, add_file, process_write,
}
use reactor_server.HttpConn.Reply.Room.{HasRoom, add_response-HasRoom}

module _ (c : HttpConn) (h : HasRoom c) where
  add_headers-HasRoom : (n : ℤ) → Returns HasRoom (add_headers c n)
  unfolding add_headers add_content_length add_linger add_blank_line
  add_headers-HasRoom n = Returns-bind (add_response-HasRoom c (length_line n) h) (λ r s.
      Returns-bind (add_response-HasRoom r.0 (linger_line r.0.linger) s.0)
        (λ q t. Returns-bind (add_response-HasRoom q.0 crlf t.0) (λ p u. returns u.0)))

finish_page-HasRoom : (c : HttpConn) (b : Bool) → HasRoom c → HasRoom (finish_page (c, b)).0
unfolding finish_page
finish_page-HasRoom c true h = record { size = h.size; below = h.below }
finish_page-HasRoom c false h = h

module _ (c : HttpConn) (h : HasRoom c) where
  add_page-HasRoom :
      (status : ℕ) (title form : Bytes)
      → Returns (λ r. HasRoom r.0) (add_page c status title form >>= λ r. ok (finish_page r))
  unfolding add_page add_status_line add_content
  add_page-HasRoom status title form =
      Returns-bind
        (Returns-bind (add_response-HasRoom c (status_line status title) h) (λ r s.
          Returns-bind (add_headers-HasRoom r.0 s.0 (pos (length form)))
            (λ q t. Returns-map (λ p u. u.0) (add_response-HasRoom q form t))))
        (λ r s. returns (finish_page-HasRoom r.0 r.1 s))

  add_file-HasRoom : Returns (λ r. HasRoom r.0) (add_file c)
  unfolding add_file add_status_line add_content
  add_file-HasRoom = Returns-bind (add_response-HasRoom c (status_line 200 ok_200_title) h) (λ r s.
      Returns-if (r.0.st_size == 0)
        (λ none_left.
          Returns-bind (add_headers-HasRoom r.0 s.0 (pos (length welcome)))
            (λ q t. Returns-bind (add_response-HasRoom q welcome t) (λ p u. returns u.0)))
        (λ some_left.
          Returns-bind (add_headers-HasRoom r.0 s.0 (to_int (pos r.0.st_size)))
            (λ q t. returns (record { size = t.size; below = t.below }))))

-- processWrite, for every code and on every connection whose write buffer has its 1024 bytes and an
-- index below 1024, returns, writes nothing outside of the buffer, and leaves a buffer and an index
-- of that kind.
pub process_write-HasRoom :
    (c : HttpConn) (code : HttpCode) → HasRoom c → Returns (λ r. HasRoom r.0) (process_write c code)
unfolding process_write
process_write-HasRoom c internal_error h = add_page-HasRoom c h 500 error_500_title error_500_form
process_write-HasRoom c bad_request h = add_page-HasRoom c h 400 error_400_title error_400_form
process_write-HasRoom c no_request h = add_page-HasRoom c h 404 error_404_title error_404_form
process_write-HasRoom c forbidden_request h =
    add_page-HasRoom c h 403 error_403_title error_403_form
process_write-HasRoom c file_request h = add_file-HasRoom c h
process_write-HasRoom c _ h = returns h
