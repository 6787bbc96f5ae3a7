-- ===== src/HttpConn/Process/Keeps.antt =====
-- The handlers of HttpConn::processRead stop, and leave the scan where it was.
use reactor_server.Prelude.{
  ℕ, ◌+◌, ◌≡◌, refl, not, [], ◌∷◌, Option, none, some, take, Stops, stops, stops_fault, Stops-bind,
  Stops-if, or_fault-Stops,
}
use reactor_server.Prelude.Int.{ℤ, pos, negsuc, leb_ℤ}
use reactor_server.Prelude.Arrays.{store-Stops}
use reactor_server.Prelude.Bytes.{Bytes, codes, bytes_eq}
use reactor_server.Prelude.CString.{
  is_blank, span_blank, find, same_text, has_prefix, string_at-Stops, atol-Stops,
}
use reactor_server.Http.{HttpCode}
use reactor_server.HttpConn.{
  HttpConn, FileSystem, check_url, skip_host, check_version, cut_target, find_target, cut_method,
  parse_request_line, value_of, known_header, parse_header_line, parse_headers, is_zero, plus,
  end_text, parse_content, do_request,
}

-- The scan is where it was.
abbrev pub Keeps : HttpConn → HttpConn × HttpCode → Type 0
Keeps c (d, code) = (d.checked_idx ≡ c.checked_idx) × (d.read_idx ≡ c.read_idx)

check_url-Keeps : (c : HttpConn) (url : Option ℕ) → Stops (Keeps c) (check_url c url)
unfolding check_url
check_url-Keeps c none = stops (refl, refl)
check_url-Keeps c (some url) = Stops-bind (string_at-Stops c.read_buf url) (λ target s.
    Stops-if (bytes_eq (take 1 target) (codes "/")) (λ e. stops (refl, refl))
      (λ e. stops (refl, refl)))

check_version-Keeps : (c : HttpConn) (u v : ℕ) → Stops (Keeps c) (check_version c u v)
unfolding check_version
check_version-Keeps c u v = Stops-bind (string_at-Stops c.read_buf v) (λ protocol s.
    Stops-if (same_text protocol (codes "HTTP/1.1"))
      (λ e. Stops-bind (string_at-Stops c.read_buf u) (λ target t.
        check_url-Keeps (record c { url = some u; version = some v }) (skip_host u target)))
      (λ e. stops (refl, refl)))

cut_target-Keeps : (c : HttpConn) (u : ℕ) (end : Option ℕ) → Stops (Keeps c) (cut_target c u end)
unfolding cut_target
cut_target-Keeps c u none = stops (refl, refl)
cut_target-Keeps c u (some i) = Stops-bind (store-Stops c.read_buf (u + i) 0) (λ buf s.
    Stops-bind (string_at-Stops buf (u + i + 1)) (λ behind t.
      check_version-Keeps (record c { read_buf = buf }) u (u + i + 1 + span_blank behind)))

find_target-Keeps : (c : HttpConn) (u : ℕ) → Stops (Keeps c) (find_target c u)
unfolding find_target
find_target-Keeps c u = Stops-bind (string_at-Stops c.read_buf u) (λ blanks s.
    Stops-bind (string_at-Stops c.read_buf (u + span_blank blanks))
      (λ rest t. cut_target-Keeps c (u + span_blank blanks) (find is_blank rest)))

cut_method-Keeps :
    (c : HttpConn) (text : ℕ) (end : Option ℕ) → Stops (Keeps c) (cut_method c text end)
unfolding cut_method
cut_method-Keeps c text none = stops (refl, refl)
cut_method-Keeps c text (some i) = Stops-bind (store-Stops c.read_buf (text + i) 0) (λ buf t.
    Stops-bind (string_at-Stops buf text) (λ md w.
      Stops-if (same_text md (codes "GET")) (λ e. find_target-Keeps _ (text + i + 1))
        (λ e. stops (refl, refl))))

pub parse_request_line-Keeps :
    (c : HttpConn) (text : ℕ) → Stops (Keeps c) (parse_request_line c text)
unfolding parse_request_line
parse_request_line-Keeps c text =
    Stops-bind (string_at-Stops c.read_buf text)
      (λ line s. cut_method-Keeps c text (find is_blank line))

known_header-Keeps :
    (c : HttpConn) (text : ℕ) (line : Bytes)
    → Stops
        (λ d. (d.checked_idx ≡ c.checked_idx) × (d.read_idx ≡ c.read_idx))
        (known_header c text line)
unfolding known_header
known_header-Keeps c text line =
    Stops-if (has_prefix line (codes "Connection:")) (λ e. stops (refl, refl))
      (λ e.
        Stops-if (has_prefix line (codes "Content-Length:"))
          (λ f. Stops-bind (atol-Stops (value_of line 15)) (λ n s. stops (refl, refl)))
          (λ f.
            Stops-if (has_prefix line (codes "Host:")) (λ g. stops (refl, refl))
              (λ g. stops (refl, refl))))

parse_header_line-Keeps :
    (c : HttpConn) (text : ℕ) (line : Bytes) → Stops (Keeps c) (parse_header_line c text line)
unfolding parse_header_line
parse_header_line-Keeps c text [] =
    Stops-if (is_zero c.content_length) (λ e. stops (refl, refl)) (λ e. stops (refl, refl))
parse_header_line-Keeps c text (b ∷ line) =
    Stops-bind (known_header-Keeps c text (b ∷ line)) (λ d k. stops k)

pub parse_headers-Keeps : (c : HttpConn) (text : ℕ) → Stops (Keeps c) (parse_headers c text)
unfolding parse_headers
parse_headers-Keeps c text =
    Stops-bind (string_at-Stops c.read_buf text) (λ line s. parse_header_line-Keeps c text line)

end_text-Stops : (buf : Bytes) (i : ℤ) → Stops (λ b. Unit {0}) (end_text buf i)
end_text-Stops buf (pos i) = store-Stops buf i 0
end_text-Stops buf (negsuc i) = stops_fault

pub parse_content-Keeps : (c : HttpConn) (text : ℕ) → Stops (Keeps c) (parse_content c text)
unfolding parse_content
parse_content-Keeps c text =
    Stops-if (not (leb_ℤ (plus c.checked_idx c.content_length) (pos 2147483647))) (λ e. stops_fault)
      (λ e.
        Stops-if (leb_ℤ (plus c.checked_idx c.content_length) (pos c.read_idx))
          (λ f.
            Stops-bind (end_text-Stops c.read_buf (plus text c.content_length))
              (λ buf s. stops (refl, refl)))
          (λ f. stops (refl, refl)))

pub do_request-Stops : (fs : FileSystem) (c : HttpConn) → Stops (λ r. Unit {0}) (do_request fs c)
unfolding do_request
do_request-Stops fs c =
    Stops-bind (or_fault-Stops c.url)
      (λ u s. Stops-bind (string_at-Stops c.read_buf u) (λ target t. stops tt))
