-- ===== src/HttpConn/Transfer/Writing.antt =====
-- What write sends.
use reactor_server.Prelude.{
  ℕ, ◌+◌, ◌≤◌, ◌≡◌, ◌≢◌, refl, Bool, true, false, List, ◌∷◌, none, arith, take, leb, ◌==◌,
  if◌then◌else◌, ok, Returns, returns, Returns-if,
}
use reactor_server.Prelude.Bytes.{Bytes}
use reactor_server.HttpConn.{HttpConn, Request, wait_in, took, init}
use reactor_server.HttpConn.Reply.{gather}
use reactor_server.HttpConn.Transfer.{WritevResult, wrote, unmap, after_send, write_loop, write}

-- A response of `text` that is to be written.
pub record Pending (text : Bytes) (c : HttpConn) : Type 0 where
  pub given : gather c c.iv ≡ ok text
  pub some_bytes : c.write_idx ≢ 0

-- What write leaves and returns where it takes the response as sent, with `calls` made before.
pub record Finished (c : HttpConn) (linger : Bool) (calls : List Request) (r : HttpConn × Bool)
    : Type 0 where
  pub kept : r.1 ≡ linger
  pub calls_are : r.0.requests ≡ wait_in c.sock_fd ∷ calls
  pub unmapped : r.0.file_address ≡ none
  pub idx_is : r.0.write_idx ≡ (if linger then 0 else c.write_idx)

after_send-Finished :
    (c : HttpConn) (calls : List Request) (linger : Bool)
    → Finished c linger calls (after_send (unmap (record c { requests = calls })) linger)
unfolding after_send unmap init
after_send-Finished c calls true = record {
  kept = refl;
  calls_are = refl;
  unmapped = refl;
  idx_is = refl;
}
after_send-Finished c calls false = record {
  kept = refl;
  calls_are = refl;
  unmapped = refl;
  idx_is = refl;
}

pub write-Finished :
    (text : Bytes) (n : ℕ) (answers : List WritevResult) (c : HttpConn)
    → Pending text c
    → c.write_idx ≤ n + n
    → Returns (Finished c c.linger (took (take n text) ∷ c.requests)) (write (wrote n ∷ answers) c)
unfolding write write_loop
write-Finished text n answers c p f =
    let enough : leb c.write_idx (0 + n + (0 + n)) ≡ true = ground arith in
    Returns-if (c.write_idx == 0) (λ e. absurd (p.some_bytes (ground (arith, e))))
      (λ e.
        rw (p.given, enough)
          (returns (after_send-Finished c (took (take n text) ∷ c.requests) c.linger)))
