-- ===== src/Http/Context/Requests/RequestLine.antt =====
-- parseRequestLine on the request line of a message.
use reactor_server.Prelude.{
  ℕ, suc, ◌≡◌, refl, Bool, true, false, ◌||◌, [], ◌∷◌, ◌++◌, append_assoc, append-nil, arith,
  length, length-append, take, drop, drop-suc, take-length-append, drop-length-append, find_index,
  find_index-append, find_index-none, All, All-append, ◌==◌,
}
use reactor_server.Prelude.Bytes.{Bytes}
use reactor_server.Http.{get_request, check_state_header}
use reactor_server.Http.Request.{HttpRequest}
use reactor_server.Http.Context.{
  HttpContext, set_target, parse_target, request_line, parse_request_line,
}
use reactor_server.Http.Context.Lines.{is_break, IsLine}
use reactor_server.Http.Context.Requests.{
  Message, IsMessage, IsQuery, is_end, request_text, version_text, with_line, query_of,
}

-- A split at the first byte that passes a test.
module _ (test : ℕ → Bool) (xs : Bytes) (x : ℕ) (r : Bytes) where
  at_split :
      All (λ b. test b ≡ false) xs
      → test x ≡ true
      → (find_index test (xs ++ x ∷ r) ≡ length xs)
        × ((length xs == length (xs ++ x ∷ r)) ≡ false)
        × (take (length xs) (xs ++ x ∷ r) ≡ xs)
        × (drop (suc (length xs)) (xs ++ x ∷ r) ≡ r)
  at_split h e = (
    find_index-append test xs x r h e,
    ground (arith, length-append xs (x ∷ r)),
    take-length-append xs (x ∷ r),
    drop-suc xs x r,
  )

pub All-map :
    (p q : ℕ → Bool) (xs : Bytes)
    → ((b : ℕ) → p b ≡ false → q b ≡ false)
    → All (λ b. p b ≡ false) xs
    → All (λ b. q b ≡ false) xs
All-map p q [] k h = tt
All-map p q (x ∷ xs) k h = (k x h.0, All-map p q xs k h.1)

set_target_lem :
    (r : HttpRequest) (path query : Bytes)
    → All (λ b. (b == b'?' || is_end b) ≡ false) path
    → IsQuery query
    → set_target r (path ++ query) ≡ record r { path = path; query = query_of r query }
unfolding set_target
set_target_lem r path [] h q =
    let plain =
      All-map (λ b. b == b'?' || is_end b) (λ b. b == b'?') path (λ b e. ground arith) h in
    let same : (length path == length path) ≡ true = ground arith in
    rw (append-nil path, find_index-none (λ b. b == b'?') path plain, same)
set_target_lem r path (c ∷ q) h (e, w) =
    let plain =
      All-map (λ b. b == b'?' || is_end b) (λ b. b == b'?') path (λ b e. ground arith) h in
    let s = at_split (λ b. b == b'?') path c q plain (ground arith) in
    rw (s.0, s.1, s.2, drop-length-append path (c ∷ q))

query-IsWord : (query : Bytes) → IsQuery query → All (λ b. (b == b' ') ≡ false) query
query-IsWord [] q = tt
query-IsWord (c ∷ q) (e, w) =
    (ground arith, All-map is_end (λ b. b == b' ') q (λ b e. ground arith) w)

module _ (r : HttpRequest) (m : Message) (v : IsMessage m) where
  parse_target_lem : parse_target r (m.path ++ (m.query ++ b' ' ∷ version_text m.minor)) ≡ (
    record r { path = m.path; query = query_of r m.query; version = version_text m.minor },
    true,
  )
  unfolding parse_target
  parse_target_lem =
      let words =
        All-append (λ b. (b == b' ') ≡ false) m.path m.query
          (All-map (λ b. b == b'?' || is_end b) (λ b. b == b' ') m.path (λ b e. ground arith)
            v.path_word)
          (query-IsWord m.query v.query_word) in
      let s =
        at_split (λ b. b == b' ') (m.path ++ m.query) b' ' (version_text m.minor) words refl in
      rw (
        ← append_assoc m.path m.query (b' ' ∷ version_text m.minor),
        s.0,
        s.1,
        s.2,
        s.3,
        set_target_lem r m.path m.query v.path_word v.query_word,
      )

module _ (m : Message) (v : IsMessage m) where
  request_line_lem : (r : HttpRequest) → request_line r (request_text m) ≡ (with_line r m, true)
  unfolding request_line
  request_line_lem r =
      let word = All-map is_end (λ b. b == b' ') m.method (λ b e. ground arith) v.method_word in
      let s =
        at_split (λ b. b == b' ') m.method b' ' (m.path ++ (m.query ++ b' ' ∷ version_text m.minor))
          word refl in
      rw (s.0, s.1, s.2, s.3, v.method_given, parse_target_lem (record r { method = m.method }) m v)

  -- The request line of a message is accepted, and its words are stored.
  pub parse_request_line_lem :
      (c : HttpContext)
      → parse_request_line c (request_text m) ≡ (
        record c { request = with_line c.request m; check_state = check_state_header },
        get_request,
      )
  unfolding parse_request_line
  parse_request_line_lem c = rw (request_line_lem c.request)

version_text-IsLine : (minor : ℕ) → is_break minor ≡ false → IsLine (version_text minor)
version_text-IsLine minor h = (refl, (refl, (refl, (refl, (refl, (refl, (refl, (h, tt))))))))

-- A request line holds no line end.
pub request_text-IsLine : (m : Message) → IsMessage m → IsLine (request_text m)
request_text-IsLine m v =
    All-append Plain m.method (b' ' ∷ (m.path ++ (m.query ++ b' ' ∷ version_text m.minor)))
      (All-map is_end is_break m.method (λ b e. ground arith) v.method_word)
      (
        refl,
        All-append Plain m.path (m.query ++ b' ' ∷ version_text m.minor)
            (All-map (λ b. b == b'?' || is_end b) is_break m.path (λ b e. ground arith) v.path_word)
            (All-append Plain m.query (b' ' ∷ version_text m.minor) (query m.query v.query_word)
              (refl, version_text-IsLine m.minor v.minor_plain)),
      )
  where
    Plain : ℕ → Type 0
    Plain b = is_break b ≡ false

    query : (q : Bytes) → IsQuery q → All Plain q
    query [] w = tt
    query (c ∷ q) w = (ground arith, All-map is_end is_break q (λ b e. ground arith) w.1)
