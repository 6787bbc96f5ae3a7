-- ===== src/Reactor/Tests.antt =====
-- Runs of the reactor's table at concrete inputs.
use reactor_server.Prelude.{ℕ, ◌≡◌, refl, [], ◌∷◌, Option, none, some, ok, arith, Returns}
use reactor_server.Prelude.Int.{ℤ, pos}
use reactor_server.Reactor.{EventHandler, ReactorCore, find_from, find_eh, rm_eh, event_loop_round}
use reactor_server.Reactor.Table.{rm_eh-loses}

-- The handler at `i` is that of the descriptor `i`.
abbrev handlers : ℕ → EventHandler
handlers i = record { fd = pos i; handle_event = some 1 }

-- The handlers of the descriptors 5 and 7, and two places that are free.
abbrev two_handlers : ReactorCore
two_handlers = record {
  current_idx = 2;
  ehs = some 5 ∷ some 7 ∷ none ∷ none ∷ [];
  handlers = handlers;
  freed = [];
  requests = [];
}

finds_7 : find_eh two_handlers (pos 7) ≡ ok (some (7, 1))
unfolding find_eh find_from
finds_7 = refl

finds_5 : find_eh two_handlers (pos 5) ≡ ok (some (5, 0))
unfolding find_eh find_from
finds_5 = refl

finds_no_9 : find_eh two_handlers (pos 9) ≡ ok none
unfolding find_eh find_from
finds_no_9 = refl

-- A handler that is gone, and an event of EPOLLRDHUP, are passed over.
one_job :
    event_loop_round two_handlers (
      record { fd = pos 5; events = 8193 }
      ∷ record { fd = pos 7; events = 1 }
      ∷ record { fd = pos 9; events = 1 }
      ∷ [])
    ≡ ok ((7, 1) ∷ [])
unfolding event_loop_round find_eh find_from
one_job = refl

rm_eh-loses_example :
    Returns
      (λ (r : ReactorCore × Option ℤ). find_eh r.0 (pos 7) ≡ ok none)
      (rm_eh two_handlers (pos 5))
rm_eh-loses_example =
    rm_eh-loses two_handlers 1 0 5 7 (pos 5) (pos 7) refl (omega arith) refl finds_5 (omega arith)
      finds_7
