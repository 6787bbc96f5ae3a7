-- ===== src/HttpConn/Reply.antt =====
-- The response of HttpConn: addResponse, the functions that call it, and processWrite.
pub mod Room
pub mod Pages
pub mod Files
pub mod Bounds
use reactor_server.Prelude.{
  ℕ, zero, suc, ◌+◌, ◌-◌, Bool, true, false, List, [], ◌∷◌, ◌++◌, length, take, ltb, leb, ◌==◌,
  if◌then◌else◌, Run, ok, ◌>>=◌, or_fault,
}
use reactor_server.Prelude.Int.{ℤ, pos, negsuc}
use reactor_server.Prelude.Bytes.{Bytes, codes, to_decimal}
use reactor_server.Prelude.CString.{write_at, to_int}
use reactor_server.Http.{
  HttpCode, internal_error, bad_request, no_request, forbidden_request, file_request, ok_200_title,
  error_400_title, error_400_form, error_403_title, error_403_form, error_404_title, error_404_form,
  error_500_title, error_500_form,
}
use reactor_server.HttpConn.{HttpConn, Iovec, head_part, file_part, write_buffer_size}

-- `vsnprintf` with room for `size` bytes, on the text that the format gives: all but the last byte
-- of the room at most, and a 0.
pub print_to : Bytes → ℕ → ℕ → Bytes → Run Bytes
print_to buf i zero text = ok buf
print_to buf i (suc size) text = write_at buf i (take size text ++ 0 ∷ [])

-- addResponse.
pub add_response : HttpConn → Bytes → Run (HttpConn × Bool)
add_response c text =
    let room = write_buffer_size - 1 - c.write_idx in
    let printed : Run (HttpConn × Bool) = (do
      buf ← print_to c.write_buf c.write_idx room text
      let d = record c { write_buf = buf }
      if leb room (length text)
          then ok (d, false)
          else ok (record d { write_idx = c.write_idx + length text }, true)) in
    if leb write_buffer_size c.write_idx then ok (c, false) else printed

abbrev pub crlf : Bytes
crlf = codes "\r\n"

abbrev pub status_line : ℕ → Bytes → Bytes
status_line status title = codes "HTTP/1.1 " ++ (to_decimal status ++ b' ' ∷ (title ++ crlf))

-- `%d` of an `int`.
abbrev pub int_text : ℤ → Bytes
int_text (pos n) = to_decimal n
int_text (negsuc n) = b'-' ∷ to_decimal (suc n)

abbrev pub length_line : ℤ → Bytes
length_line len = codes "Content-Length: " ++ (int_text len ++ crlf)

abbrev pub linger_line : Bool → Bytes
linger_line linger =
    codes "Connection: " ++ ((if linger then codes "keep-alive" else codes "close") ++ crlf)

pub add_status_line : HttpConn → ℕ → Bytes → Run (HttpConn × Bool)
add_status_line c status title = add_response c (status_line status title)

pub add_content_length : HttpConn → ℤ → Run (HttpConn × Bool)
add_content_length c len = add_response c (length_line len)

pub add_linger : HttpConn → Run (HttpConn × Bool)
add_linger c = add_response c (linger_line c.linger)

pub add_blank_line : HttpConn → Run (HttpConn × Bool)
add_blank_line c = add_response c crlf

pub add_content : HttpConn → Bytes → Run (HttpConn × Bool)
add_content c content = add_response c content

-- addHeaders, which ends without a `return`; no caller looks at what it returns.
pub add_headers : HttpConn → ℤ → Run HttpConn
add_headers c len = do
  (d, sized) ← add_content_length c len
  (e, lingers) ← add_linger d
  (f, ended) ← add_blank_line e
  ok f

-- A case of the `switch` of processWrite that answers by a page.
pub add_page : HttpConn → ℕ → Bytes → Bytes → Run (HttpConn × Bool)
add_page c status title form = do
  (d, begun) ← add_status_line c status title
  e ← add_headers d (pos (length form))
  add_content e form

-- `iv` with the response alone, behind the `switch`.
pub finish_page : HttpConn × Bool → HttpConn × Bool
finish_page (c, true) = (record c { iv = head_part c.write_idx ∷ [] }, true)
finish_page (c, false) = (c, false)

abbrev pub welcome : Bytes
welcome = codes "<html><body>Welcome</body></html>"

-- The case for FILE_REQUEST, with the size of the file cut to an `int` for the header; an empty file falls through to `default`.
pub add_file : HttpConn → Run (HttpConn × Bool)
add_file c = do
  (d, begun) ← add_status_line c 200 ok_200_title
  let mapped : Run (HttpConn × Bool) = (do
    e ← add_headers d (to_int (pos d.st_size))
    ok (record e { iv = head_part e.write_idx ∷ file_part d.st_size ∷ [] }, true))
  let empty : Run (HttpConn × Bool) = (do
    e ← add_headers d (pos (length welcome))
    (f, filled) ← add_content e welcome
    ok (f, false))
  if d.st_size == 0 then empty else mapped

pub process_write : HttpConn → HttpCode → Run (HttpConn × Bool)
process_write c internal_error = do
  r ← add_page c 500 error_500_title error_500_form
  ok (finish_page r)
process_write c bad_request = do
  r ← add_page c 400 error_400_title error_400_form
  ok (finish_page r)
process_write c no_request = do
  r ← add_page c 404 error_404_title error_404_form
  ok (finish_page r)
process_write c forbidden_request = do
  r ← add_page c 403 error_403_title error_403_form
  ok (finish_page r)
process_write c file_request = add_file c
process_write c _ = ok (c, false)

-- The bytes that `iv` points to.
unfoldable pub gather : HttpConn → List Iovec → Run Bytes
gather c [] = ok []
gather c (head_part n ∷ iv) = do rest ← gather c iv; ok (take n c.write_buf ++ rest)
gather c (file_part n ∷ iv) = do
  file ← or_fault c.file_address
  rest ← gather c iv
  ok (take n file ++ rest)
