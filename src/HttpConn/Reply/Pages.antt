-- ===== src/HttpConn/Reply/Pages.antt =====
-- What processWrite hands to writev.
use reactor_server.Prelude.{
  ℕ, ◌+◌, ◌-◌, ◌<◌, ◌≡◌, refl, ap, sym, ◌∙◌, subst, Bool, true, false, List, [], ◌∷◌, ◌++◌,
  append_assoc, append-nil, arith, length, length-append, take, ok, ◌>>=◌, Returns, returns,
  Returns-bind,
}
use reactor_server.Prelude.Int.{ℤ, pos}
use reactor_server.Prelude.Bytes.{Bytes, to_decimal}
use reactor_server.Http.{
  HttpCode, internal_error, bad_request, no_request, forbidden_request, error_400_title,
  error_400_form, error_403_title, error_403_form, error_404_title, error_404_form, error_500_title,
  error_500_form,
}
use reactor_server.HttpConn.{HttpConn, Request, Iovec, head_part, file_part, write_buffer_size}
use reactor_server.HttpConn.Reply.{
  add_response, crlf, status_line, length_line, linger_line, add_status_line, add_content_length,
  add_linger, add_blank_line, add_content, add_headers, add_page, finish_page, process_write,
  gather,
}
use reactor_server.HttpConn.Reply.Room.{Holds, add_response-Holds}

-- The header lines and the empty line.
abbrev pub headers_text : Bool → ℤ → Bytes
headers_text linger n = length_line n ++ (linger_line linger ++ crlf)

-- A response with a body of `n` bytes, in front of the body.
abbrev pub head_text : ℕ → Bytes → Bool → ℤ → Bytes
head_text status title linger n = status_line status title ++ headers_text linger n

module _ (c : HttpConn) where
  pub add_headers-Holds :
      (d : HttpConn) (text : Bytes) (n : ℤ)
      → Holds c text d
      → length (text ++ headers_text c.linger n) < write_buffer_size - 1
      → Returns (Holds c (text ++ headers_text c.linger n)) (add_headers d n)
  unfolding add_headers add_content_length add_linger add_blank_line
  add_headers-Holds d text n h f =
      let one = length_line n in
      let two = linger_line c.linger in
      let total : length text + length one + length two + 2 < write_buffer_size - 1 = omega (
        arith,
        length-append text (headers_text c.linger n),
        length-append one (two ++ crlf),
        length-append two crlf,
      ) in
      let same : ((text ++ one) ++ two) ++ crlf ≡ text ++ headers_text c.linger n =
        simp append_assoc in
      let upto = length-append text one in
      Returns-bind (add_response-Holds c d text one h (omega arith)) (λ r s.
        Returns-bind
          (subst
            (λ b.
              Returns (λ q. Holds c ((text ++ one) ++ two) q.0 × (q.1 ≡ true))
                (add_response r.0 (linger_line b)))
            (sym (ap (λ (e : HttpConn). e.linger) s.0.only))
            (add_response-Holds c r.0 (text ++ one) two s.0 (omega arith)))
          (λ q t.
            Returns-bind
              (add_response-Holds c q.0 ((text ++ one) ++ two) crlf t.0
                (omega (arith, length-append (text ++ one) two)))
              (λ p u. returns (subst (λ v. Holds c v p.0) same u.0))))

  -- A page, or the head of a file.
  add_head-Holds :
      (status : ℕ) (title : Bytes) (n : ℤ)
      → Holds c [] c
      → length (head_text status title c.linger n) < write_buffer_size - 1
      → Returns
          (Holds c (head_text status title c.linger n))
          (add_status_line c status title >>= λ r. add_headers r.0 n)
  unfolding add_status_line
  add_head-Holds status title n h f =
      Returns-bind
        (add_response-Holds c c [] (status_line status title) h
          (omega (arith, length-append (status_line status title) (headers_text c.linger n))))
        (λ r s. add_headers-Holds r.0 (status_line status title) n s.0 f)

  add_page-Holds :
      (status : ℕ) (title form : Bytes)
      → Holds c [] c
      → length (head_text status title c.linger (pos (length form)) ++ form) < write_buffer_size - 1
      → Returns
          (λ r.
            Holds c (head_text status title c.linger (pos (length form)) ++ form) r.0
            × (r.1 ≡ true))
          (add_page c status title form)
  unfolding add_page add_content add_status_line
  add_page-Holds status title form h f =
      let text = head_text status title c.linger (pos (length form)) in
      let n = pos (length form) in
      let size = length-append text form in
      Returns-bind
        (add_response-Holds c c [] (status_line status title) h
          (omega (arith, length-append (status_line status title) (headers_text c.linger n))))
        (λ r s.
          Returns-bind (add_headers-Holds r.0 (status_line status title) n s.0 (omega arith))
            (λ q t. add_response-Holds c q text form t (omega arith)))

-- A connection whose response is still to be written.
pub record IsFresh (c : HttpConn) : Type 0 where
  pub size : length c.write_buf ≡ write_buffer_size
  pub start : c.write_idx ≡ 0

pub IsFresh-Holds : (c : HttpConn) → IsFresh c → Holds c [] c
IsFresh-Holds c f = record { size = f.size; idx_is = f.start; text_is = rw f.start; only = refl }

-- The codes that are answered by a page: its status, title and text.
abbrev pub is_page : HttpCode → Bool
is_page internal_error = true
is_page bad_request = true
is_page no_request = true
is_page forbidden_request = true
is_page _ = false

abbrev pub page : HttpCode → ℕ × Bytes × Bytes
page internal_error = (500, error_500_title, error_500_form)
page bad_request = (400, error_400_title, error_400_form)
page forbidden_request = (403, error_403_title, error_403_form)
page _ = (404, error_404_title, error_404_form)

abbrev pub page_text : HttpCode → Bool → Bytes
page_text code linger =
    head_text (page code).0 (page code).1 linger (pos (length (page code).2)) ++ (page code).2

page_text-fits :
    (code : HttpCode) (linger : Bool) → is_page code ≡ true → length (page_text code linger) < 1023
unfolding to_decimal
page_text-fits internal_error true h = omega arith
page_text-fits internal_error false h = omega arith
page_text-fits bad_request true h = omega arith
page_text-fits bad_request false h = omega arith
page_text-fits no_request true h = omega arith
page_text-fits no_request false h = omega arith
page_text-fits forbidden_request true h = omega arith
page_text-fits forbidden_request false h = omega arith
page_text-fits _ linger h = cc

-- The answer of `c` is to be sent, what `writev` is given is `text`, and the system was not called.
pub record Says (text : Bytes) (c : HttpConn) (r : HttpConn × Bool) : Type 0 where
  pub to_send : r.1 ≡ true
  pub given : gather r.0 r.0.iv ≡ ok text
  pub says_fd : r.0.sock_fd ≡ c.sock_fd
  pub says_calls : r.0.requests ≡ c.requests

-- What `iv` points to does not depend on the calls that were made.
pub gather-requests :
    (d : HttpConn) (calls : List Request) (iv : List Iovec)
    → gather (record d { requests = calls }) iv ≡ gather d iv
unfolding gather
gather-requests d calls [] = refl
gather-requests d calls (head_part n ∷ iv) = rw (gather-requests d calls iv)
gather-requests d calls (file_part n ∷ iv) = rw (gather-requests d calls iv)

finish_page-Says :
    (c d : HttpConn) (b : Bool) (text : Bytes)
    → Holds c text d
    → b ≡ true
    → Says text c (finish_page (d, b))
unfolding finish_page gather
finish_page-Says c d true text h e = record {
  to_send = refl;
  given = ap ok (append-nil (take d.write_idx d.write_buf) ∙ h.text_is);
  says_fd = ap (λ (x : HttpConn). x.sock_fd) h.only;
  says_calls = ap (λ (x : HttpConn). x.requests) h.only;
}
finish_page-Says c d false text h e = absurd (ground (arith, e))

page-Says :
    (c : HttpConn) (status : ℕ) (title form : Bytes)
    → IsFresh c
    → length (head_text status title c.linger (pos (length form)) ++ form) < write_buffer_size - 1
    → Returns
        (Says (head_text status title c.linger (pos (length form)) ++ form) c)
        (add_page c status title form >>= λ r. ok (finish_page r))
page-Says c status title form f fits =
    Returns-bind (add_page-Holds c status title form (IsFresh-Holds c f) fits) (λ r s. returns (
      finish_page-Says c r.0 r.1 (head_text status title c.linger (pos (length form)) ++ form) s.0
        s.1))

pub process_write-page :
    (c : HttpConn) (code : HttpCode)
    → IsFresh c
    → is_page code ≡ true
    → Returns (Says (page_text code c.linger) c) (process_write c code)
unfolding process_write
process_write-page c internal_error f e =
    page-Says c 500 error_500_title error_500_form f (page_text-fits internal_error c.linger e)
process_write-page c bad_request f e =
    page-Says c 400 error_400_title error_400_form f (page_text-fits bad_request c.linger e)
process_write-page c no_request f e =
    page-Says c 404 error_404_title error_404_form f (page_text-fits no_request c.linger e)
process_write-page c forbidden_request f e =
    page-Says c 403 error_403_title error_403_form f (page_text-fits forbidden_request c.linger e)
process_write-page c _ f e = cc
