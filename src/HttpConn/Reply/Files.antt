-- ===== src/HttpConn/Reply/Files.antt =====
-- What processWrite does for FILE_REQUEST.
use reactor_server.Prelude.{
  ℕ, ◌≤◌, ◌<◌, ◌≡◌, refl, ap, sym, ◌∙◌, subst, Bool, true, false, [], ◌∷◌, ◌++◌, some, append-nil,
  arith, length, length-append, take, take_whole, ◌==◌, ok, or_fault, ◌>>=◌, Returns, returns,
  Returns-bind, Returns-if,
}
use reactor_server.Prelude.Int.{pos}
use reactor_server.Prelude.Bytes.{Bytes, to_decimal, pow10, length-to_decimal}
use reactor_server.Prelude.CString.{to_int, to_int_small}
use reactor_server.Http.{file_request, ok_200_title}
use reactor_server.HttpConn.{HttpConn, head_part, file_part}
use reactor_server.HttpConn.Reply.{
  crlf, status_line, length_line, linger_line, add_status_line, add_content, add_headers, welcome,
  add_file, process_write, gather,
}
use reactor_server.HttpConn.Reply.Room.{Holds, add_response-Holds}
use reactor_server.HttpConn.Reply.Pages.{
  headers_text, head_text, add_headers-Holds, IsFresh, IsFresh-Holds, Says,
}

-- The response that carries a file.
abbrev pub file_text : Bool → Bytes → Bytes
file_text linger file = head_text 200 ok_200_title linger (pos (length file)) ++ file

file_head-fits :
    (linger : Bool) (n : ℕ)
    → n < pow10 10
    → length (head_text 200 ok_200_title linger (pos n)) < 990
file_head-fits linger n h =
    let two = linger_line linger in
    let short : length two ≤ 24 = lingers linger in
    omega (
      arith,
      length-append (status_line 200 ok_200_title) (headers_text linger (pos n)),
      length-append (to_decimal 200) (b' ' ∷ (ok_200_title ++ crlf)),
      length-to_decimal 2 200 (omega arith),
      length-append (length_line (pos n)) (two ++ crlf),
      length-append (to_decimal n) crlf,
      length-to_decimal 9 n h,
      length-append two crlf,
    )
  where
    lingers : (b : Bool) → length (linger_line b) ≤ 24
    lingers true = omega arith
    lingers false = omega arith

-- The two parts that `iv` points to.
gather_two :
    (e : HttpConn) (text file : Bytes) (n : ℕ)
    → take e.write_idx e.write_buf ≡ text
    → e.file_address ≡ some file
    → n ≡ length file
    → gather e (head_part e.write_idx ∷ file_part n ∷ []) ≡ ok (text ++ file)
unfolding gather
gather_two e text file n t a s =
    let whole : take n file ++ [] ≡ file =
      append-nil (take n file) ∙ take_whole n file (omega arith) in
    ap
      (λ o.
        (or_fault o >>= λ f. ok (take n f ++ [])) >>= λ r. ok (take e.write_idx e.write_buf ++ r))
      a
    ∙ ap (λ r. ok (take e.write_idx e.write_buf ++ r)) whole
    ∙ ap (λ q. ok (q ++ file)) t

pub process_write-file :
    (c : HttpConn) (file : Bytes)
    → IsFresh c
    → c.file_address ≡ some file
    → c.st_size ≡ length file
    → 0 < length file
    → length file < 2147483648
    → Returns (Says (file_text c.linger file) c) (process_write c file_request)
unfolding process_write add_file add_status_line
process_write-file c file f a s some_bytes small =
    let head = status_line 200 ok_200_title in
    let n = pos (length file) in
    let fits : length (head_text 200 ok_200_title c.linger n) < 990 =
      file_head-fits c.linger (length file) (omega arith) in
    Returns-bind
      (add_response-Holds c c [] head (IsFresh-Holds c f)
        (omega (arith, length-append head (headers_text c.linger n))))
      (λ r t.
        let size : r.0.st_size ≡ length file = ap (λ (e : HttpConn). e.st_size) t.0.only ∙ s in
        let as_int = ap (λ (k : ℕ). to_int (pos k)) size ∙ to_int_small (length file) small in
        Returns-if (r.0.st_size == 0) (λ none_left. absurd (ground (arith, none_left, size)))
          (λ some_left.
            Returns-bind
              (subst (λ k. Returns (Holds c (head ++ headers_text c.linger n)) (add_headers r.0 k))
                (sym as_int) (add_headers-Holds c r.0 head n t.0 (omega arith)))
              (λ e u. returns (record {
                to_send = refl;
                says_fd = ap (λ (x : HttpConn). x.sock_fd) u.only;
                says_calls = ap (λ (x : HttpConn). x.requests) u.only;
                given =
                    gather_two
                      (record e { iv = head_part e.write_idx ∷ file_part r.0.st_size ∷ [] })
                      (head_text 200 ok_200_title c.linger n) file r.0.st_size u.text_is
                      (ap (λ (d : HttpConn). d.file_address) u.only ∙ a) size;
              }))))

file_head-short :
    (linger : Bool) → length (head_text 200 ok_200_title linger (pos (length welcome))) < 990
file_head-short linger = file_head-fits linger (length welcome) (omega arith)

-- processWrite for a file of no bytes, with a response that is still empty, writes the welcome page
-- with its head into the buffer and returns false.
pub process_write-empty :
    (c : HttpConn)
    → IsFresh c
    → c.st_size ≡ 0
    → Returns
        (λ r. Holds c (file_text c.linger welcome) r.0 × (r.1 ≡ false))
        (process_write c file_request)
unfolding process_write add_file add_status_line add_content
process_write-empty c f e =
    let head = status_line 200 ok_200_title in
    let n = pos (length welcome) in
    let text = head_text 200 ok_200_title c.linger n in
    let fits : length text < 990 = file_head-short c.linger in
    Returns-bind
      (add_response-Holds c c [] head (IsFresh-Holds c f)
        (omega (arith, length-append head (headers_text c.linger n))))
      (λ r t.
        let size : r.0.st_size ≡ 0 = ap (λ (d : HttpConn). d.st_size) t.0.only ∙ e in
        Returns-if (r.0.st_size == 0)
          (λ none_left. Returns-bind (add_headers-Holds c r.0 head n t.0 (omega arith)) (λ d u.
            Returns-bind (add_response-Holds c d text welcome u (omega arith))
              (λ q v. returns (v.0, refl))))
          (λ some_left. absurd (ground (arith, some_left, size))))
