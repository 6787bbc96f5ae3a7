-- ===== src/Net/ThreadPool/RoundRobin.antt =====
-- Connections are dealt to the loops in turn.
use reactor_server.Prelude.{
  ℕ, zero, suc, ◌+◌, ◌%◌, ◌<◌, ◌≡◌, refl, sym, ap, ◌∙◌, subst, Bool, true, false, List, [], ◌∷◌,
  ◌++◌, append_assoc, append-nil, length, length-append, get_elem?, some, arith, Run, ok, or_fault,
  ◌>>=◌, ◌>>◌, assert, ◌==◌, Returns, returns,
}
use native.Mathlib.Nat.{mod-eq_of_lt, mod_self}
use reactor_server.Net.ThreadPool.{
  new, set_num_threads, EventLoopThreadPool, start_threads, start, next_of, get_next_loop,
  take_loops,
}

-- The loops of the threads with the indices from `i` on.
abbrev pub loops_from : (ℕ → ℕ) → ℕ → ℕ → List ℕ
loops_from start_loop zero i = []
loops_from start_loop (suc n) i = start_loop i ∷ loops_from start_loop n (suc i)

length-loops_from : (start_loop : ℕ → ℕ) (n i : ℕ) → length (loops_from start_loop n i) ≡ n
length-loops_from start_loop zero i = refl
length-loops_from start_loop (suc n) i = ap suc (length-loops_from start_loop n (suc i))

start_threads-loops :
    (start_loop : ℕ → ℕ) (n i : ℕ) (p : EventLoopThreadPool)
    → start_threads start_loop n i p ≡ record p { loops = p.loops ++ loops_from start_loop n i }
unfolding start_threads
start_threads-loops start_loop zero i p =
    ap (λ ls. record p { loops = ls }) (sym (append-nil p.loops))
start_threads-loops start_loop (suc n) i p =
    start_threads-loops start_loop n (suc i) (record p { loops = p.loops ++ start_loop i ∷ [] })
    ∙ ap (λ ls. record p { loops = ls })
        (append_assoc p.loops (start_loop i ∷ []) (loops_from start_loop n (suc i)))

get_elem?-append :
    (pre : List ℕ) (x : ℕ) (post : List ℕ) → get_elem? (pre ++ x ∷ post) (length pre) ≡ some x
get_elem?-append [] x post = refl
get_elem?-append (y ∷ pre) x post = get_elem?-append pre x post

-- One call takes the loop at `next`.
next_of_lem :
    (ls pre post : List ℕ) (x : ℕ) (p : EventLoopThreadPool)
    → ls ≡ pre ++ x ∷ post
    → p.next ≡ length pre
    → next_of ls p ≡ ok (record p { next = (length pre + 1) % length ls }, x)
unfolding next_of
next_of_lem [] pre post x p is at =
    absurd (ground (arith, ap length is, length-append pre (x ∷ post)))
next_of_lem (l ∷ ls) pre post x p is at =
    let got : get_elem? (l ∷ ls) p.next ≡ some x =
      ap (get_elem? (l ∷ ls)) at
      ∙ (ap (λ (zs : List ℕ). get_elem? zs (length pre)) is ∙ get_elem?-append pre x post) in
    let taken : ℕ → Run (EventLoopThreadPool × ℕ) =
      λ loop. ok (record p { next = (p.next + 1) % suc (length ls) }, loop) in
    subst
      (λ o. (or_fault o >>= taken) ≡ ok (record p { next = (length pre + 1) % suc (length ls) }, x))
      (sym got) (ap (λ (k : ℕ). ok (record p { next = (k + 1) % suc (length ls) }, x)) at)

-- The rest of a round.
module _ (pre post : List ℕ) (x : ℕ) (p : EventLoopThreadPool) (on : p.started ≡ true)
    (is : p.loops ≡ pre ++ x ∷ post) (at : p.next ≡ length pre) where
  size : length p.loops ≡ length pre + suc (length post)
  size = ap length is ∙ length-append pre (x ∷ post)

  one : get_next_loop true p ≡ ok (record p { next = (length pre + 1) % length p.loops }, x)
  unfolding get_next_loop
  one =
      subst
        (λ b.
          (assert b >> next_of p.loops p)
          ≡ ok (record p { next = (length pre + 1) % length p.loops }, x))
        (sym on) (next_of_lem p.loops pre post x p is at)

take_loops-rest :
    (post pre : List ℕ) (x : ℕ) (p : EventLoopThreadPool)
    → p.started ≡ true
    → p.loops ≡ pre ++ x ∷ post
    → p.next ≡ length pre
    → take_loops (suc (length post)) p ≡ ok (record p { next = 0 }, x ∷ post)
unfolding take_loops
take_loops-rest [] pre x p on is at =
    let wraps : (length pre + 1) % length p.loops ≡ 0 =
      ap (λ n. (length pre + 1) % n) (size pre [] x p on is at) ∙ mod_self (length pre + 1) in
    rw (one pre [] x p on is at) (ap (λ (k : ℕ). ok (record p { next = k }, x ∷ [])) wraps)
take_loops-rest (y ∷ post) pre x p on is at =
    let small : length pre + 1 < length p.loops = omega (arith, size pre (y ∷ post) x p on is at) in
    let q : EventLoopThreadPool = record p { next = (length pre + 1) % length p.loops } in
    let ahead : q.next ≡ length (pre ++ x ∷ []) =
      mod-eq_of_lt small ∙ sym (length-append pre (x ∷ [])) in
    let rest =
      take_loops-rest post (pre ++ x ∷ []) y q on (is ∙ sym (append_assoc pre (x ∷ []) (y ∷ post)))
        ahead in
    rw (one pre (y ∷ post) x p on is at, rest)

-- A pool that is started with `n` threads, `n` at least 1, hands out the loops of its threads in
-- the order of their indices, each exactly once in `n` calls of getNextLoop, and is then in the
-- same state as before these calls.
pub start-take_loops :
    (start_loop : ℕ → ℕ) (has_cb : Bool) (base n : ℕ)
    → Returns
        (λ p.
          (p.loops ≡ loops_from start_loop (suc n) 0)
          × (take_loops (suc n) p ≡ ok (p, loops_from start_loop (suc n) 0)))
        (start start_loop true has_cb (set_num_threads (new base) (suc n)))
unfolding start set_num_threads
start-take_loops start_loop has_cb base n =
    let some_thread : (suc n == 0) ≡ false = ground arith in
    let p : EventLoopThreadPool = record {
      base_loop = base;
      next = 0;
      num_threads = suc n;
      started = true;
      loops = loops_from start_loop (suc n) 0;
      inits = [];
    } in
    rw
      (
        some_thread,
        start_threads-loops start_loop (suc n) 0
            (record (new base) { started = true; num_threads = suc n }),
      )
      (returns {v = p} (
        refl,
        subst (λ k. take_loops (suc k) p ≡ ok (p, p.loops)) (length-loops_from start_loop n 1)
            (take_loops-rest (loops_from start_loop n 1) [] (start_loop 0) p refl refl refl),
      ))
