-- ===== src/Http/Context/Progress.antt =====
-- A line that parseLine reports is one that it has gone past.
use reactor_server.Prelude.{
  ℕ, zero, suc, ◌+◌, ◌-◌, ◌≤◌, ◌<◌, arith, ltb, ◌==◌, Stops, stops, Stops-bind, Stops-if,
}
use reactor_server.Prelude.Arrays.{load-Stops, store-Stops}
use reactor_server.Http.{LineStatus, line_ok}
use reactor_server.Http.Context.{
  HttpContext, close_line, at_return, at_newline, parse_line_loop, parse_line,
}

-- From the index `from` on, with the bytes up to `upto` read.
abbrev pub Passes : ℕ → ℕ → LineStatus × HttpContext → Type 0
Passes from upto (line_ok, d) = (from < d.checked_idx) × (d.checked_idx ≤ upto)
Passes from upto (_, d) = Unit {0}

close_line-Passes :
    (c : HttpContext) (first second next from upto : ℕ)
    → from < next
    → next ≤ upto
    → Stops (Passes from upto) (close_line c first second next)
unfolding close_line
close_line-Passes c first second next from upto f u =
    Stops-bind (store-Stops c.buf first 0)
      (λ b t. Stops-bind (store-Stops b second 0) (λ d w. stops (f, u)))

module _ (c : HttpContext) (from : ℕ) (f : from ≤ c.checked_idx)
    (more : c.checked_idx < c.read_idx) where
  at_return-Passes : Stops (Passes from c.read_idx) (at_return c)
  unfolding at_return
  at_return-Passes =
      Stops-if (c.checked_idx + 1 == c.read_idx) (λ e. stops tt)
        (λ e. Stops-bind (load-Stops c.buf (c.checked_idx + 1)) (λ next t.
          Stops-if (next == b'\n')
            (λ it.
              close_line-Passes c c.checked_idx (c.checked_idx + 1) (c.checked_idx + 2) from
                c.read_idx (omega arith) (ground (arith, e)))
            (λ other. stops tt)))

  at_newline-Passes : Stops (Passes from c.read_idx) (at_newline c)
  unfolding at_newline
  at_newline-Passes =
      Stops-if (ltb 1 c.checked_idx)
        (λ e. Stops-bind (load-Stops c.buf (c.checked_idx - 1)) (λ last t.
          Stops-if (last == b'\r')
            (λ it.
              close_line-Passes c (c.checked_idx - 1) c.checked_idx (c.checked_idx + 1) from
                c.read_idx (omega arith) (omega arith))
            (λ other. stops tt)))
        (λ e. stops tt)

parse_line_loop-Passes :
    (rounds : ℕ) (c : HttpContext) (from : ℕ)
    → from ≤ c.checked_idx
    → rounds ≤ c.read_idx - c.checked_idx
    → Stops (Passes from c.read_idx) (parse_line_loop rounds c)
unfolding parse_line_loop
parse_line_loop-Passes zero c from f r = stops tt
parse_line_loop-Passes (suc rounds) c from f r =
    Stops-bind (load-Stops c.buf c.checked_idx) (λ tmp t.
      Stops-if (tmp == b'\r') (λ e. at_return-Passes c from f (omega arith))
        (λ e.
          Stops-if (tmp == b'\n') (λ g. at_newline-Passes c from f (omega arith))
            (λ g.
              parse_line_loop-Passes rounds (record c { checked_idx = c.checked_idx + 1 }) from
                (omega arith) (omega arith))))

pub parse_line-Passes : (c : HttpContext) → Stops (Passes c.checked_idx c.read_idx) (parse_line c)
unfolding parse_line
parse_line-Passes c =
    parse_line_loop-Passes (c.read_idx - c.checked_idx) c c.checked_idx (omega arith) (omega arith)
