-- ===== src/Slog/Calls.antt =====
-- What a call of slog does.
use reactor_server.Prelude.{
  ℕ, zero, suc, ◌≡◌, refl, sym, ap, ◌∙◌, Bool, true, false, [], ◌∷◌, ◌++◌, some, if◌then◌else◌, Run,
  ok, out_of_fuel, ◌>>=◌,
}
use reactor_server.Prelude.Bytes.{Bytes, codes}
use reactor_server.Slog.{
  Level, debug, info, error, number, level_of, Each, get, set, SlogState, msg_buf, label,
  open_error, log_at, switch, slog,
}

set_again : (l : Level) (e : Each Bool) → get l e ≡ false → set l false (set l true e) ≡ e
set_again debug e h = ap (λ b. record e { for_debug = b }) (sym h)
set_again info e h = ap (λ b. record e { for_info = b }) (sym h)
set_again error e h = ap (λ b. record e { for_error = b }) (sym h)

level_of-number : (l : Level) → level_of (number l) ≡ some l
level_of-number debug = refl
level_of-number info = refl
level_of-number error = refl

-- `s` with a line more in the file of a level.
abbrev pub with_line : Level → Bytes → SlogState → SlogState
with_line l line s = record s { lines = set l (get l s.lines ++ line ∷ []) s.lines }

module _ (can_open : Level → Bool) (errno own_tail : Bytes) where
  log_at-opened :
      (again : Bytes → SlogState → Run (SlogState × Bool)) (l : Level) (text tail : Bytes)
      (s : SlogState)
      → get l s.held ≡ false
      → can_open l ≡ true
      → log_at can_open errno own_tail again l text tail s
        ≡ ok (with_line l (label l ++ (msg_buf text ++ tail)) s, true)
  unfolding log_at
  log_at-opened again l text tail s free opens =
      rw (free, opens)
        (ap
          (λ h. ok (record (with_line l (label l ++ (msg_buf text ++ tail)) s) { held = h }, true))
          (set_again l s.held free))

  -- slog at a level of its own, whose lock the thread does not hold and whose file opens, returns
  -- 0: it puts one line with the level, the message cut to 1023 bytes and the tail behind the lines
  -- of that file, leaves the other files alone and gives the lock back.
  pub slog-opened :
      (fuel : ℕ) (l : Level) (text tail : Bytes) (s : SlogState)
      → get l s.held ≡ false
      → can_open l ≡ true
      → slog can_open errno own_tail (suc fuel) (number l) text tail s
        ≡ ok (with_line l (label l ++ (msg_buf text ++ tail)) s, true)
  unfolding slog switch
  slog-opened fuel l text tail s free opens =
      let again =
        λ (msg : Bytes) (t : SlogState). slog can_open errno own_tail fuel 60 msg own_tail t in
      ap (λ o. switch can_open errno own_tail again o text tail s) (level_of-number l)
      ∙ log_at-opened again l text tail s free opens

  either_way :
      (b : Bool) (x y : Run (SlogState × Bool))
      → x ≡ out_of_fuel
      → y ≡ out_of_fuel
      → (if b then x else y) ≡ out_of_fuel
  either_way true x y e f = e
  either_way false x y e f = f

  -- Where error.log does not open, slog at the level ERROR calls itself again and again and never
  -- returns: whatever bound is set to its calls of slog_error, it uses it up.
  pub slog-out_of_fuel :
      (fuel : ℕ) (text tail : Bytes) (s : SlogState)
      → can_open error ≡ false
      → slog can_open errno own_tail fuel 60 text tail s ≡ out_of_fuel
  unfolding slog switch log_at
  slog-out_of_fuel zero text tail s e = refl
  slog-out_of_fuel (suc fuel) text tail s e =
      let fails = λ (r : Run (SlogState × Bool)). r >>= λ (t, logged). ok (t, false) in
      either_way s.held.for_error _ _
        (ap fails
          (slog-out_of_fuel fuel (codes "pthread_rwlock_wrlock error: " ++ errno) own_tail s e))
        (rw e (
          ap fails (
            slog-out_of_fuel fuel (open_error error ++ errno) own_tail
              (record s { held = set error true s.held }) e)))

  -- A level other than the last, whose file does not open or whose lock is held.
  log_at-closed :
      (again : Bytes → SlogState → Run (SlogState × Bool)) (l : Level) (text tail : Bytes)
      (s : SlogState)
      → get l s.held ≡ false
      → can_open l ≡ false
      → log_at can_open errno own_tail again l text tail s ≡ (
          again (open_error l ++ errno) (record s { held = set l true s.held }) >>= λ r.
          ok (r.0, false))
  unfolding log_at
  log_at-closed again l text tail s free shut = rw (free, shut) refl

  log_at-held :
      (again : Bytes → SlogState → Run (SlogState × Bool)) (l : Level) (text tail : Bytes)
      (s : SlogState)
      → get l s.held ≡ true
      → log_at can_open errno own_tail again l text tail s
        ≡ (again (codes "pthread_rwlock_wrlock error: " ++ errno) s >>= λ r. ok (r.0, false))
  unfolding log_at
  log_at-held again l text tail s held = rw held refl

  -- What slog logs of its own failures.
  abbrev pub own_line : Bytes → Bytes
  own_line msg = label error ++ (msg_buf msg ++ own_tail)

  slog-info_closed :
      (fuel : ℕ) (text tail : Bytes) (s : SlogState)
      → s.held.for_info ≡ false
      → s.held.for_error ≡ false
      → can_open info ≡ false
      → can_open error ≡ true
      → slog can_open errno own_tail (suc (suc fuel)) 40 text tail s
        ≡ ok (
          with_line error
              (own_line (open_error info ++ errno))
              (record s { held = set info true s.held }),
          false,
        )
  unfolding slog switch
  slog-info_closed fuel text tail s free error_free shut opens =
      log_at-closed _ info text tail s free shut
      ∙ ap (λ r. r >>= λ r. ok (r.0, false))
          (slog-opened fuel error (open_error info ++ errno) own_tail
            (record s { held = set info true s.held }) error_free opens)

  slog-info_held :
      (fuel : ℕ) (text tail : Bytes) (s : SlogState)
      → s.held.for_info ≡ true
      → s.held.for_error ≡ false
      → can_open error ≡ true
      → slog can_open errno own_tail (suc (suc fuel)) 40 text tail s
        ≡ ok (with_line error (own_line (codes "pthread_rwlock_wrlock error: " ++ errno)) s, false)
  unfolding slog switch
  slog-info_held fuel text tail s held error_free opens =
      log_at-held _ info text tail s held
      ∙ ap (λ r. r >>= λ r. ok (r.0, false))
          (slog-opened fuel error (codes "pthread_rwlock_wrlock error: " ++ errno) own_tail s
            error_free opens)

-- Where info.log does not open, error.log does, and the thread holds neither lock, slog at the
-- level INFO returns -1 and keeps the lock of info.log; the next one returns -1 and logs nothing in
-- info.log even if the file opens by then. Each logs its failure in error.log, if that opens again.
pub slog-slog :
    (can_open can_open' : Level → Bool) (errno own_tail : Bytes) (fuel : ℕ)
    (text tail text' tail' : Bytes) (s : SlogState)
    → s.held.for_info ≡ false
    → s.held.for_error ≡ false
    → can_open info ≡ false
    → can_open error ≡ true
    → can_open' error ≡ true
    → (slog can_open errno own_tail (suc (suc fuel)) 40 text tail s >>= λ r.
        slog can_open' errno own_tail (suc (suc fuel)) 40 text' tail' r.0)
      ≡ ok (
        with_line error
            (own_line can_open errno own_tail (codes "pthread_rwlock_wrlock error: " ++ errno))
            (with_line error
              (own_line can_open errno own_tail (open_error info ++ errno))
              (record s { held = set info true s.held })),
        false,
      )
slog-slog can_open can_open' errno own_tail fuel text tail text' tail' s free error_free shut opens
      opens' =
    ap (λ r. r >>= λ r. slog can_open' errno own_tail (suc (suc fuel)) 40 text' tail' r.0)
      (slog-info_closed can_open errno own_tail fuel text tail s free error_free shut opens)
    ∙ slog-info_held can_open' errno own_tail fuel text' tail' _ refl error_free opens'
