-- ===== src/Slog.antt =====
-- src/Slog.h and src/Slog.cc: the function slog and its files, in one thread. pthread_rwlock_wrlock
-- fails on a lock that the thread holds (EDEADLK).
pub mod Calls
mod Tests
use reactor_server.Prelude.{
  ℕ, zero, suc, ◌+◌, ◌-◌, Bool, true, false, List, [], ◌∷◌, ◌++◌, Option, none, some, take, ◌==◌,
  if◌then◌else◌, Run, ok, out_of_fuel, ◌>>=◌,
}
use reactor_server.Prelude.Bytes.{Bytes, codes}

pub data Level : Type 0 where
  debug info error : Level

-- `SLOG_LEVEL_DEBUG`, `SLOG_LEVEL_INFO` and `SLOG_LEVEL_ERROR`.
abbrev pub number : Level → ℕ
number debug = 20
number info = 40
number error = 60

-- The `switch` of slog.
abbrev pub level_of : ℕ → Option Level
level_of n =
    if n == 20
    then some debug
    else if n == 40
    then some info
    else if n == 60
    then some error
    else none

-- Something for each level.
pub record Each (A : Type 0) : Type 0 where
  pub for_debug : A
  pub for_info : A
  pub for_error : A

abbrev pub get : {A : Type 0} → Level → Each A → A
get debug e = e.for_debug
get info e = e.for_info
get error e = e.for_error

abbrev pub set : {A : Type 0} → Level → A → Each A → Each A
set debug a e = record e { for_debug = a }
set info a e = record e { for_info = a }
set error a e = record e { for_error = a }

-- Which of the locks the thread holds, and the lines of the files.
pub record SlogState : Type 0 where
  pub held : Each Bool
  pub lines : Each (List Bytes)

-- What `vsnprintf` leaves of a message in `msg_buf`.
abbrev pub msg_buf : Bytes → Bytes
msg_buf text = take 1023 text

abbrev pub label : Level → Bytes
label debug = codes "DEBUG: "
label info = codes "INFO: "
label error = codes "ERROR: "

abbrev pub open_error : Level → Bytes
open_error debug = codes "open file <debug.log> error: "
open_error info = codes "open file<info.log> error: "
open_error error = codes "open file<error.log> error: "

-- `fprintf`, and the unlock behind it; `tail` is what the format puts behind the message.
abbrev pub log_line : Level → Bytes → Bytes → SlogState → SlogState
log_line l text tail s = record s {
  held = set l false s.held;
  lines = set l (get l s.lines ++ (label l ++ (msg_buf text ++ tail)) ∷ []) s.lines;
}

-- Which files `fopen` opens, the text of `errno`, and the tail of the lines that slog itself logs.
module _ (can_open : Level → Bool) (errno own_tail : Bytes) where
  -- The case of a level, where `again` is `slog_error`; false where slog returns -1.
  pub log_at :
      (Bytes → SlogState → Run (SlogState × Bool))
      → Level
      → Bytes
      → Bytes
      → SlogState
      → Run (SlogState × Bool)
  log_at again l text tail s =
      let locked = record s { held = set l true s.held } in
      let no_lock : Run (SlogState × Bool) = (do
        (t, logged) ← again (codes "pthread_rwlock_wrlock error: " ++ errno) s
        ok (t, false)) in
      let no_file : Run (SlogState × Bool) = (do
        (t, logged) ← again (open_error l ++ errno) locked
        ok (t, false)) in
      if get l s.held
      then no_lock
      else if can_open l
      then ok (log_line l text tail locked, true)
      else no_file

  pub switch :
      (Bytes → SlogState → Run (SlogState × Bool))
      → Option Level
      → Bytes
      → Bytes
      → SlogState
      → Run (SlogState × Bool)
  switch again (some l) text tail s = log_at again l text tail s
  switch again none text tail s = do (t, logged) ← again (codes "error slog tag") s; ok (t, true)

  -- slog; the calls of slog_error in it are bounded by `fuel`.
  pub slog : ℕ → ℕ → Bytes → Bytes → SlogState → Run (SlogState × Bool)
  slog zero level text tail s = out_of_fuel
  slog (suc fuel) level text tail s =
      switch (λ msg t. slog fuel 60 msg own_tail t) (level_of level) text tail s
