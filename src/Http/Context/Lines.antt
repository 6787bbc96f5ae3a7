-- ===== src/Http/Context/Lines.antt =====
-- parseLine finds the lines of a buffer that ends them by CR LF.
use reactor_server.Prelude.{
  ℕ, zero, suc, ◌+◌, ◌-◌, ◌≤◌, ◌<◌, ◌≡◌, sym, ap, ◌∙◌, Bool, false, ◌||◌, [], ◌∷◌, ◌++◌,
  append_assoc, arith, length, length-append, All, ◌==◌, ok,
}
use reactor_server.Prelude.Arrays.{
  load, store, load_lem, store_lem, get_elem?-middle, set-middle, length-concat,
}
use reactor_server.Prelude.Bytes.{Bytes}
use reactor_server.Http.{line_ok, line_open}
use reactor_server.Http.Context
use reactor_server.Http.Request.{HttpRequest}
use reactor_server.Http.Request.Headers.{reset_lem}
use reactor_server.Http.Context.{
  HttpContext, parse_line, parse_line_loop, at_return, at_newline, close_line,
}

abbrev pub is_break : ℕ → Bool
is_break b = b == b'\r' || b == b'\n'

-- A text with neither CR nor LF.
abbrev pub IsLine : Bytes → Type 0
IsLine = All (λ b. is_break b ≡ false)

-- A line, its end, and what follows; and the same with the end overwritten.
module _ (line rest : Bytes) where
  abbrev pub ended : Bytes
  ended = line ++ b'\r' ∷ b'\n' ∷ rest

  abbrev pub zeroed : Bytes
  zeroed = line ++ 0 ∷ 0 ∷ rest

close_line_lem :
    (c : HttpContext) (pre rest : Bytes) (n : ℕ)
    → c.buf ≡ pre ++ b'\r' ∷ b'\n' ∷ rest
    → close_line c (length pre) (length pre + 1) n
      ≡ ok (line_ok, record c { buf = pre ++ 0 ∷ 0 ∷ rest; checked_idx = n })
unfolding close_line
close_line_lem c pre rest n e =
    let first : store c.buf (length pre) 0 ≡ ok (pre ++ 0 ∷ b'\n' ∷ rest) = rw e (
      store_lem (pre ++ b'\r' ∷ b'\n' ∷ rest) (length pre) 0
        (omega (arith, length-append pre (b'\r' ∷ b'\n' ∷ rest)))
      ∙ ap ok (set-middle pre b'\r' 0 (b'\n' ∷ rest))) in
    let second : store (pre ++ 0 ∷ b'\n' ∷ rest) (length pre + 1) 0 ≡ ok (pre ++ 0 ∷ 0 ∷ rest) =
      let e : length pre + 1 ≡ suc (length pre) = omega arith in
      rw e (
        store_lem (pre ++ 0 ∷ b'\n' ∷ rest) (suc (length pre)) 0
          (omega (arith, length-append pre (0 ∷ b'\n' ∷ rest)))
        ∙ ap ok
            (simp (append_assoc, length-concat) at (set-middle (pre ++ 0 ∷ []) b'\n' 0 rest))) in
    rw (first, second)

module _ (c : HttpContext) (pre rest : Bytes) where
  at_return_lem :
      c.buf ≡ pre ++ b'\r' ∷ b'\n' ∷ rest
      → c.checked_idx ≡ length pre
      → length pre + 2 ≤ c.read_idx
      → at_return c
        ≡ ok (line_ok, record c { buf = pre ++ 0 ∷ 0 ∷ rest; checked_idx = length pre + 2 })
  unfolding at_return
  at_return_lem e f r =
      let more : (length pre + 1 == c.read_idx) ≡ false = ground arith in
      let after : load c.buf (length pre + 1) ≡ ok b'\n' =
        let k : length pre + 1 ≡ suc (length pre) = omega arith in
        rw (e, k)
          (load_lem (pre ++ b'\r' ∷ b'\n' ∷ rest) (suc (length pre)) (
            simp (append_assoc, length-concat) at
              (get_elem?-middle (pre ++ b'\r' ∷ []) b'\n' rest))) in
      rw (f, more, after)
        (close_line_lem (record c { checked_idx = length pre }) pre rest (length pre + 2) e)

parse_line_loop-ended :
    (rounds : ℕ) (c : HttpContext) (pre line rest : Bytes)
    → c.buf ≡ pre ++ ended line rest
    → c.checked_idx ≡ length pre
    → length line < rounds
    → length pre + length line + 2 ≤ c.read_idx
    → IsLine line
    → parse_line_loop rounds c
      ≡ ok (
        line_ok,
        record c { buf = pre ++ zeroed line rest; checked_idx = length pre + length line + 2 },
      )
unfolding parse_line_loop
parse_line_loop-ended zero c pre line rest e f g r h = absurd (omega arith)
parse_line_loop-ended (suc rounds) c pre [] rest e f g r h =
    let here : load c.buf c.checked_idx ≡ ok b'\r' =
      rw (e, f)
        (load_lem (pre ++ b'\r' ∷ b'\n' ∷ rest) (length pre)
          (get_elem?-middle pre b'\r' (b'\n' ∷ rest))) in
    let end : length pre + 0 + 2 ≡ length pre + 2 = omega arith in
    rw (here, end) (at_return_lem c pre rest e f (omega arith))
parse_line_loop-ended (suc rounds) c pre (x ∷ line) rest e f g r h =
    let here : load c.buf c.checked_idx ≡ ok x =
      rw (e, f)
        (load_lem (pre ++ x ∷ ended line rest) (length pre)
          (get_elem?-middle pre x (ended line rest))) in
    let plain : (x == b'\r') ≡ false = ground arith in
    let inside : (x == b'\n') ≡ false = ground arith in
    let next = length-concat pre x in
    let ih =
      parse_line_loop-ended rounds (record c { checked_idx = c.checked_idx + 1 }) (pre ++ x ∷ [])
        line rest (e ∙ sym (append_assoc pre (x ∷ []) (ended line rest))) (omega arith)
        (omega arith) (omega arith) h.1 in
    let stop : length (pre ++ x ∷ []) + length line + 2 ≡ length pre + suc (length line) + 2 =
      omega arith in
    rw (here, plain, inside) (rw (stop, append_assoc pre (x ∷ []) (zeroed line rest)) at ih)

-- From the start of a line parseLine goes to the end of it, overwrites the CR LF there, and stops
-- behind it.
pub parse_line-ended :
    (c : HttpContext) (pre line rest : Bytes)
    → c.buf ≡ pre ++ ended line rest
    → c.checked_idx ≡ length pre
    → length pre + length line + 2 ≤ c.read_idx
    → IsLine line
    → parse_line c
      ≡ ok (
        line_ok,
        record c { buf = pre ++ zeroed line rest; checked_idx = length pre + length line + 2 },
      )
unfolding parse_line
parse_line-ended c pre line rest e f r h =
    parse_line_loop-ended (c.read_idx - c.checked_idx) c pre line rest e f (omega arith) r h

parse_line_loop-open :
    (rounds : ℕ) (c : HttpContext) (pre line rest : Bytes)
    → c.buf ≡ pre ++ (line ++ rest)
    → c.checked_idx ≡ length pre
    → rounds ≡ length line
    → IsLine line
    → parse_line_loop rounds c ≡ ok (line_open, record c { checked_idx = length pre + length line })
unfolding parse_line_loop
parse_line_loop-open zero c pre [] rest e f g h =
    let there : c.checked_idx ≡ length pre + 0 = omega arith in
    ap (λ (n : ℕ). ok (line_open, record c { checked_idx = n })) there
parse_line_loop-open zero c pre (x ∷ line) rest e f g h = absurd (omega arith)
parse_line_loop-open (suc rounds) c pre [] rest e f g h = absurd (omega arith)
parse_line_loop-open (suc rounds) c pre (x ∷ line) rest e f g h =
    let here : load c.buf c.checked_idx ≡ ok x =
      rw (e, f)
        (load_lem (pre ++ x ∷ (line ++ rest)) (length pre)
          (get_elem?-middle pre x (line ++ rest))) in
    let plain : (x == b'\r') ≡ false = ground arith in
    let inside : (x == b'\n') ≡ false = ground arith in
    let next = length-concat pre x in
    let ih =
      parse_line_loop-open rounds (record c { checked_idx = c.checked_idx + 1 }) (pre ++ x ∷ [])
        line rest (e ∙ sym (append_assoc pre (x ∷ []) (line ++ rest))) (omega arith) (omega arith)
        h.1 in
    let stop : length (pre ++ x ∷ []) + length line ≡ length pre + suc (length line) =
      omega arith in
    rw (here, plain, inside) (rw stop at ih)

-- Where the bytes that were read hold no line end, parseLine goes through all of them and says
-- that the line is open.
pub parse_line-open :
    (c : HttpContext) (pre line rest : Bytes)
    → c.buf ≡ pre ++ (line ++ rest)
    → c.checked_idx ≡ length pre
    → c.read_idx ≡ length pre + length line
    → IsLine line
    → parse_line c ≡ ok (line_open, record c { checked_idx = length pre + length line })
unfolding parse_line
parse_line-open c pre line rest e f r h =
    parse_line_loop-open (c.read_idx - c.checked_idx) c pre line rest e f (omega arith) h

pub reset-new : (c : HttpContext) → Context.reset c ≡ Context.new
unfolding Context.reset Context.new
reset-new c = ap (λ (r : HttpRequest). record Context.new { request = r }) (reset_lem c.request)
