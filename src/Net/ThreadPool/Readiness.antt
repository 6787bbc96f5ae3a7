-- ===== src/Net/ThreadPool/Readiness.antt =====
-- A started pool always has a loop to hand out.
use reactor_server.Prelude.{
  ℕ, suc, ◌+◌, ◌%◌, ◌<◌, ◌≡◌, ◌⊎◌, inl, inr, refl, sym, ap, ◌∙◌, subst, true, List, [], ◌∷◌, arith,
  length, Returns, returns, Returns-assert,
}
use native.Mathlib.Nat.{mod-lt, zero-lt-suc}
use reactor_server.Prelude.Arrays.{get_elem?-get_or}
use reactor_server.Net.ThreadPool.{EventLoopThreadPool, get_next_loop, next_of}

-- The pool was started, and the index of its next loop is one of a loop, if it has loops.
pub record IsReady (p : EventLoopThreadPool) : Type 0 where
  pub is_started : p.started ≡ true
  pub in_range : (p.loops ≡ []) ⊎ (p.next < length p.loops)

pub get_next_loop-IsReady :
    (p : EventLoopThreadPool) → IsReady p → Returns (λ r. IsReady r.0) (get_next_loop true p)
unfolding get_next_loop next_of
get_next_loop-IsReady p h = Returns-assert p.started h.is_started (choose p.loops refl h.in_range)
  where
    choose :
        (ls : List ℕ)
        → p.loops ≡ ls
        → (p.loops ≡ []) ⊎ (p.next < length p.loops)
        → Returns (λ r. IsReady r.0) (next_of ls p)
    choose [] is r = returns h
    choose (l ∷ ls) is (inl e) = absurd (ground (arith, ap length (sym is ∙ e)))
    choose (l ∷ ls) is (inr e) =
        rw (get_elem?-get_or (l ∷ ls) p.next 0 (subst (λ xs. p.next < length xs) is e)) (
          returns (record {
            is_started = h.is_started;
            in_range = inr (
                subst (λ xs. (p.next + 1) % suc (length ls) < length xs) (sym is)
                  (mod-lt (p.next + 1) (zero-lt-suc (length ls))));
          }))
