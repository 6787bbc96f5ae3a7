-- ===== src/HttpConn/Process/RequestLine.antt =====
-- parseRequestLine on the line of a request.
use reactor_server.Prelude.{
  ℕ, ◌+◌, ◌≡◌, refl, true, false, [], ◌∷◌, ◌++◌, some, append_assoc, arith, length, length-append,
  All-append, ◌==◌, ok,
}
use reactor_server.Prelude.Arrays.{store, store-middle}
use reactor_server.Prelude.Bytes.{Bytes, codes}
use reactor_server.Prelude.CString.{
  is_blank, span_blank, find, same_text, has_prefix, string_at, IsText, string_at_lem, find-append,
}
use reactor_server.Http.{no_request, check_state_header}
use reactor_server.Http.Context.Lines.{zeroed}
use reactor_server.Http.Context.Requests.RequestLine.{All-map}
use reactor_server.HttpConn.{
  HttpConn, get, check_url, check_version, cut_target, find_target, cut_method, parse_request_line,
}
use reactor_server.HttpConn.Process.Requests.{
  Message, IsMessage, target, protocol, line_text, is_end, IsWord-IsText, words,
}

-- What parseRequestLine makes of the line: its words are ended by a 0 each.
abbrev pub cut_line : Message → Bytes → Bytes
cut_line m rest = m.method ++ 0 ∷ (target m ++ 0 ∷ (protocol ++ 0 ∷ 0 ∷ rest))

abbrev pub target_at : Message → ℕ
target_at m = length m.method + 1

protocol_lem : same_text protocol protocol ≡ true
unfolding same_text
protocol_lem = refl

protocol-IsText : IsText protocol
protocol-IsText = (refl, (refl, (refl, (refl, (refl, (refl, (refl, (refl, tt))))))))

target_relative : (path : Bytes) → has_prefix (b'/' ∷ path) (codes "http://") ≡ false
unfolding has_prefix same_text
target_relative path = refl

-- The strings of a line that was cut, at the pointers to them.
module _ (m : Message) (v : IsMessage m) (rest : Bytes) where
  pub target_string : string_at (cut_line m rest) (target_at m) ≡ ok (target m)
  target_string =
      let front = m.method ++ 0 ∷ [] in
      let shape : cut_line m rest ≡ front ++ (target m ++ 0 ∷ (protocol ++ 0 ∷ 0 ∷ rest)) =
        simp append_assoc in
      rw shape (
        string_at_lem front (target m) (protocol ++ 0 ∷ 0 ∷ rest) (target_at m)
          (omega (arith, length-append m.method (0 ∷ []))) (IsWord-IsText (target m) (words m v)))

  protocol_string : string_at (cut_line m rest) (target_at m + length (target m) + 1) ≡ ok protocol
  protocol_string =
      let front = m.method ++ 0 ∷ (target m ++ 0 ∷ []) in
      let size : target_at m + length (target m) + 1 ≡ length front = omega (
        arith,
        length-append m.method (0 ∷ (target m ++ 0 ∷ [])),
        length-append (target m) (0 ∷ []),
      ) in
      let shape : cut_line m rest ≡ front ++ (protocol ++ 0 ∷ 0 ∷ rest) = simp append_assoc in
      rw shape (
        string_at_lem front protocol (0 ∷ rest) (target_at m + length (target m) + 1) size
          protocol-IsText)

module _ (m : Message) (v : IsMessage m) (d : HttpConn) (rest : Bytes) where
  abbrev pub behind_line : HttpConn
  behind_line = record d {
    read_buf = cut_line m rest;
    url = some (target_at m);
    version = some (target_at m + length (target m) + 1);
    method = get;
    check_state = check_state_header;
  }

  check_version_lem :
      check_version
        (record d { read_buf = cut_line m rest; url = some (target_at m); method = get })
        (target_at m)
        (target_at m + length (target m) + 1)
      ≡ ok (behind_line, no_request)
  unfolding check_version check_url
  check_version_lem = rw (
    protocol_string m v rest,
    target_string m v rest,
    protocol_lem,
    target_relative m.path,
    target_string m v rest,
  )

  -- The memory before the end of the target is cut.
  abbrev half_cut : Bytes
  half_cut = m.method ++ 0 ∷ (target m ++ b' ' ∷ (protocol ++ 0 ∷ 0 ∷ rest))

  cut_target_lem :
      cut_target
        (record d { read_buf = half_cut; url = some (target_at m); method = get })
        (target_at m)
        (some (length (target m)))
      ≡ ok (behind_line, no_request)
  unfolding cut_target span_blank
  cut_target_lem =
      let front = m.method ++ 0 ∷ target m in
      let tail = protocol ++ 0 ∷ 0 ∷ rest in
      let shape : half_cut ≡ front ++ b' ' ∷ tail = simp append_assoc in
      let shape' : front ++ 0 ∷ tail ≡ cut_line m rest = simp append_assoc in
      let cut : store half_cut (target_at m + length (target m)) 0 ≡ ok (cut_line m rest) =
        rw (shape, ← shape')
          (store-middle front b' ' 0 tail (target_at m + length (target m))
            (omega (arith, length-append m.method (0 ∷ target m)))) in
      let end : target_at m + length (target m) + 1 + 0 ≡ target_at m + length (target m) + 1 =
        omega arith in
      rw (cut, protocol_string m v rest, end) check_version_lem

  find_target_lem :
      find_target
        (record d { read_buf = half_cut; url = some (target_at m); method = get })
        (target_at m)
      ≡ ok (behind_line, no_request)
  unfolding find_target span_blank
  find_target_lem =
      let front = m.method ++ 0 ∷ [] in
      let text = target m ++ b' ' ∷ protocol in
      let shape : half_cut ≡ front ++ (text ++ 0 ∷ 0 ∷ rest) = simp append_assoc in
      let plain : IsText text =
        All-append (λ b. (b == 0) ≡ false) (target m) (b' ' ∷ protocol)
          (IsWord-IsText (target m) (words m v)) (refl, protocol-IsText) in
      let read : string_at half_cut (target_at m) ≡ ok text = rw shape (
        string_at_lem front text (0 ∷ rest) (target_at m)
          (omega (arith, length-append m.method (0 ∷ []))) plain) in
      let blank : find is_blank text ≡ some (length (target m)) =
        find-append is_blank (target m) b' ' protocol
          (All-map is_end is_blank (target m) (λ b e. ground arith) (words m v)) refl in
      let start : target_at m + 0 ≡ target_at m = omega arith in
      rw (read, start, read, blank) cut_target_lem

  pub parse_request_line_lem :
      parse_request_line (record d { read_buf = zeroed (line_text m) rest }) 0
      ≡ ok (behind_line, no_request)
  unfolding parse_request_line cut_method
  parse_request_line_lem =
      let text = target m ++ b' ' ∷ protocol in
      let line = line_text m in
      let plain : IsText line =
        All-append (λ b. (b == 0) ≡ false) m.method (b' ' ∷ text)
          (IsWord-IsText m.method v.method_word)
          (
            refl,
            All-append (λ b. (b == 0) ≡ false) (target m) (b' ' ∷ protocol)
                (IsWord-IsText (target m) (words m v)) (refl, protocol-IsText),
          ) in
      let read : string_at (zeroed line rest) 0 ≡ ok line =
        string_at_lem [] line (0 ∷ rest) 0 refl plain in
      let blank : find is_blank line ≡ some (length m.method) =
        find-append is_blank m.method b' ' text
          (All-map is_end is_blank m.method (λ b e. ground arith) v.method_word) refl in
      let shape : zeroed line rest ≡ m.method ++ b' ' ∷ (text ++ 0 ∷ 0 ∷ rest) =
        simp append_assoc in
      let shape' : m.method ++ 0 ∷ (text ++ 0 ∷ 0 ∷ rest) ≡ half_cut = simp append_assoc in
      let cut : store (zeroed line rest) (0 + length m.method) 0 ≡ ok half_cut =
        rw (shape, ← shape')
          (store-middle m.method b' ' 0 (text ++ 0 ∷ 0 ∷ rest) (0 + length m.method)
            (omega arith)) in
      let word : string_at half_cut 0 ≡ ok m.method =
        string_at_lem [] m.method (target m ++ b' ' ∷ (protocol ++ 0 ∷ 0 ∷ rest)) 0 refl
          (IsWord-IsText m.method v.method_word) in
      let at : 0 + length m.method + 1 ≡ target_at m = omega arith in
      rw (read, blank, cut, word, v.is_get, at) find_target_lem
