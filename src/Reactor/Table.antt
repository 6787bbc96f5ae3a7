-- ===== src/Reactor/Table.antt =====
-- What add_eh and rm_eh of v0.1/reactor.cc leave for find_eh.
use reactor_server.Prelude.{
  ℕ, zero, suc, ◌+◌, ◌-◌, ◌<◌, ◌≡◌, refl, ap, ◌∙◌, subst, Bool, true, false, List, [], ◌∷◌, Option,
  none, some, lt→ltb, if◌then◌else◌, length, set, get_elem?, Run, ok, Returns, returns, arith,
}
use reactor_server.Prelude.Int.{ℤ, pos, negsuc}
use reactor_server.Prelude.Arrays.{load_lem, store_lem}
use reactor_server.Reactor.{
  EventHandler, ReactorCore, same_fd, max_user, find_from, find_eh, is_invalid, add_eh, rm_eh,
}

-- A test that fails where the search goes on.
passed {ℓ} :
    {V : Type ℓ} (b : Bool) (v : V) (rest : Run (Option V))
    → (if b then ok (some v) else rest) ≡ ok none
    → (b ≡ false) × (rest ≡ ok none)
passed true v rest e = absurd (ground (arith, e))
passed false v rest e = (refl, e)

passed_over :
    (b : Bool) (eh x i j : ℕ) (rest : Run (Option (ℕ × ℕ)))
    → i < j
    → (if b then ok (some (x, i)) else rest) ≡ ok (some (eh, j))
    → (b ≡ false) × (rest ≡ ok (some (eh, j)))
passed_over true eh x i j rest h e = absurd (omega (arith, ap place e))
  where
    place : Run (Option (ℕ × ℕ)) → ℕ
    place (ok (some (eh, i))) = i
    place r = 0
passed_over false eh x i j rest h e = (refl, e)

module _ (handlers : ℕ → EventHandler) (fd : ℤ) where
  find-set :
      (ehs : List (Option ℕ)) (n i eh : ℕ)
      → n < length ehs
      → same_fd (handlers eh).fd fd ≡ true
      → find_from handlers fd ehs n i ≡ ok none
      → find_from handlers fd (set ehs n (some eh)) (suc n) i ≡ ok (some (eh, i + n))
  unfolding find_from
  find-set [] n i eh h e f = absurd (omega arith)
  find-set (x ∷ ehs) zero i eh h e f = rw e (ap (λ k. ok (some (eh, k))) (omega arith))
  find-set (none ∷ ehs) (suc n) i eh h e f =
      find-set ehs n (suc i) eh (omega arith) e f ∙ ap (λ k. ok (some (eh, k))) (omega arith)
  find-set (some x ∷ ehs) (suc n) i eh h e f =
      let (other, rest) = passed (same_fd (handlers x).fd fd) (x, i) _ f in
      rw other
        (find-set ehs n (suc i) eh (omega arith) e rest ∙ ap (λ k. ok (some (eh, k))) (omega arith))

  find-last :
      (ehs : List (Option ℕ)) (n i eh : ℕ)
      → find_from handlers fd ehs (suc n) i ≡ ok (some (eh, i + n))
      → find_from handlers fd ehs n i ≡ ok none
  unfolding find_from
  find-last ehs zero i eh e = refl
  find-last [] (suc n) i eh e = absurd (ground (arith, e))
  find-last (none ∷ ehs) (suc n) i eh e =
      find-last ehs n (suc i) eh (e ∙ ap (λ k. ok (some (eh, k))) (omega arith))
  find-last (some x ∷ ehs) (suc n) i eh e =
      let (other, rest) =
        passed_over (same_fd (handlers x).fd fd) eh x i (i + suc n) _ (omega arith) e in
      rw other (find-last ehs n (suc i) eh (rest ∙ ap (λ k. ok (some (eh, k))) (omega arith)))

  find-cleared :
      (ehs : List (Option ℕ)) (n i p : ℕ)
      → find_from handlers fd ehs n i ≡ ok none
      → find_from handlers fd (set ehs p none) n i ≡ ok none
  unfolding find_from
  find-cleared ehs zero i p e = refl
  find-cleared [] (suc n) i p e = absurd (ground (arith, e))
  find-cleared (none ∷ ehs) (suc n) i zero e = e
  find-cleared (none ∷ ehs) (suc n) i (suc p) e = find-cleared ehs n (suc i) p e
  find-cleared (some x ∷ ehs) (suc n) i zero e =
      let (other, rest) = passed (same_fd (handlers x).fd fd) (x, i) _ e in rest
  find-cleared (some x ∷ ehs) (suc n) i (suc p) e =
      let (other, rest) = passed (same_fd (handlers x).fd fd) (x, i) _ e in
      rw other (find-cleared ehs n (suc i) p rest)

at_place :
    (eh k n : ℕ) → k ≡ n → ◌≡◌ {A = Run (Option (ℕ × ℕ))} (ok (some (eh, k))) (ok (some (eh, n)))
at_place eh k n e = ap (λ j. ok (some (eh, j))) e

same_fd_refl : (fd : ℤ) → same_fd fd fd ≡ true
same_fd_refl (pos n) = ground arith
same_fd_refl (negsuc n) = ground arith

-- A valid handler that was added to a table with a free place.
pub record Added (core : ReactorCore) (eh : ℕ) (r : ReactorCore × ℤ) : Type 0 where
  pub code : r.1 ≡ pos 0
  pub found : find_eh r.0 (core.handlers eh).fd ≡ ok (some (eh, core.current_idx))

-- add_eh of a valid handler, where the table has a free place and find_eh knows no handler of its
-- descriptor, returns 0, and find_eh then finds the handler at the place behind the others.
pub add_eh-Added :
    (core : ReactorCore) (eh : ℕ)
    → core.current_idx < length core.ehs
    → core.current_idx < max_user
    → is_invalid core.handlers (some eh) ≡ false
    → find_eh core (core.handlers eh).fd ≡ ok none
    → Returns (Added core eh) (add_eh core (some eh))
unfolding add_eh find_eh
add_eh-Added core eh h m v f =
    let fd = (core.handlers eh).fd in
    let found_next =
      find-set core.handlers fd core.ehs core.current_idx 0 eh h (same_fd_refl fd) f in
    let found_at : find_from core.handlers fd (set core.ehs core.current_idx (some eh))
          (core.current_idx + 1) 0
        ≡ ok (some (eh, core.current_idx)) =
      subst
        (λ k.
          find_from core.handlers fd (set core.ehs core.current_idx (some eh)) k 0
          ≡ ok (some (eh, core.current_idx)))
        (omega arith)
        (found_next ∙ at_place eh (0 + core.current_idx) core.current_idx (omega arith)) in
    rw (lt→ltb core.current_idx max_user m, store_lem core.ehs core.current_idx (some eh) h, v)
      (returns (record { code = refl; found = found_at }))

-- rm_eh of a handler in front of the last one, where the place behind the last one is free and
-- holds NULL, loses the last one: find_eh no longer finds the handler that it found there.
pub rm_eh-loses :
    (core : ReactorCore) (n p eh last : ℕ) (fd other : ℤ)
    → core.current_idx ≡ suc n
    → core.current_idx < length core.ehs
    → get_elem? core.ehs core.current_idx ≡ some none
    → find_eh core fd ≡ ok (some (eh, p))
    → p < n
    → find_eh core other ≡ ok (some (last, n))
    → Returns (λ (r : ReactorCore × Option ℤ). find_eh r.0 other ≡ ok none) (rm_eh core fd)
unfolding rm_eh find_eh
rm_eh-loses core n p eh last fd other c inside free f h l =
    rw
      (
        f,
        lt→ltb p core.current_idx (omega arith),
        load_lem core.ehs core.current_idx free,
        store_lem core.ehs p none (omega arith),
      )
      (returns (
        subst (λ k. find_from core.handlers other (set core.ehs p none) k 0 ≡ ok none)
          (let below : n ≡ core.current_idx - 1 = omega arith in below)
          (find-cleared core.handlers other core.ehs n 0 p (
            find-last core.handlers other core.ehs n 0 last (
              subst (λ k. find_from core.handlers other core.ehs k 0 ≡ ok (some (last, n))) c l
              ∙ at_place last n (0 + n) (omega arith))))))
