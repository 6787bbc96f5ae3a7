-- ===== src/Slog/Tests.antt =====
-- Runs of slog at concrete inputs.
use reactor_server.Prelude.{◌≡◌, refl, Bool, true, false, [], ◌∷◌, ok, out_of_fuel, ◌>>=◌}
use reactor_server.Prelude.Bytes.{codes}
use reactor_server.Slog.{Level, info, SlogState, slog}
use reactor_server.Slog.Calls.{slog-out_of_fuel, slog-slog}

abbrev empty_logs : SlogState
empty_logs = record {
  held = record { for_debug = false; for_info = false; for_error = false };
  lines = record { for_debug = []; for_info = []; for_error = [] };
}

-- Every file opens; all but info.log; none.
abbrev all_open : Level → Bool
all_open l = true

abbrev no_info : Level → Bool
no_info info = false
no_info l = true

abbrev none_open : Level → Bool
none_open l = false

slog-out_of_fuel_example :
    slog none_open [] (codes "t") 9 60 (codes "hi") (codes "!") empty_logs ≡ out_of_fuel
slog-out_of_fuel_example =
    slog-out_of_fuel none_open [] (codes "t") 9 (codes "hi") (codes "!") empty_logs refl

slog-slog_example :
    (slog no_info [] (codes "t") 3 40 (codes "hi") (codes "!") empty_logs >>= λ r.
    slog all_open [] (codes "t") 3 40 (codes "ho") (codes "!") r.0)
    ≡ ok (
      record empty_logs {
        held = record { for_debug = false; for_info = true; for_error = false };
        lines = record {
          for_debug = [];
          for_info = [];
          for_error =
              codes "ERROR: open file<info.log> error: t"
              ∷ codes "ERROR: pthread_rwlock_wrlock error: t"
              ∷ [];
        };
      },
      false,
    )
slog-slog_example =
    slog-slog no_info all_open [] (codes "t") 1 (codes "hi") (codes "!") (codes "ho") (codes "!")
      empty_logs refl refl refl refl refl
