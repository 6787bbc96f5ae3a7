-- ===== src/Reactor.antt =====
-- The event handlers of v0.1/reactor.h and v0.1/reactor.cc. A handler is known by its address; log
-- output and the lock around each access are left out.
pub mod Table
mod Tests
use reactor_server.Prelude.{
  ℕ, zero, suc, ◌+◌, ◌-◌, ◌/◌, ◌%◌, Bool, true, false, ◌&&◌, ◌||◌, List, [], ◌∷◌, ◌++◌, Option,
  none, some, ◌==◌, ltb, if◌then◌else◌, Run, ok, fault, ◌>>=◌, or_fault,
}
use reactor_server.Prelude.Int.{ℤ, pos, negsuc, ltb_ℤ, leb_ℤ}
use reactor_server.Prelude.Arrays.{load, store}

-- event_handler_t.
pub record EventHandler : Type 0 where
  pub fd : ℤ
  pub handle_event : Option ℕ

-- `addFd` and `removeFd`, as the reactor calls them.
pub data EpollRequest : Type 0 where
  add_fd remove_fd : ℤ → EpollRequest

-- reactor_core_t, with the memory of the handlers, those that were freed, and the requests, the last
-- one first. `ehs` has the `MAX_USER - 1` places of the source.
pub record ReactorCore : Type 0 where
  pub current_idx : ℕ
  pub ehs : List (Option ℕ)
  pub handlers : ℕ → EventHandler
  pub freed : List ℕ
  pub requests : List EpollRequest

-- `MAX_USER`.
abbrev pub max_user : ℕ
max_user = 65530

abbrev pub same_fd : ℤ → ℤ → Bool
same_fd a b = leb_ℤ a b && leb_ℤ b a

-- The `for` of find_eh, at place `i`, with the places that are left and how many of them are used.
pub find_from : (ℕ → EventHandler) → ℤ → List (Option ℕ) → ℕ → ℕ → Run (Option (ℕ × ℕ))
find_from handlers fd ehs zero i = ok none
find_from handlers fd [] (suc n) i = fault
find_from handlers fd (none ∷ ehs) (suc n) i = find_from handlers fd ehs n (suc i)
find_from handlers fd (some eh ∷ ehs) (suc n) i =
    let rest = find_from handlers fd ehs n (suc i) in
    if same_fd (handlers eh).fd fd then ok (some (eh, i)) else rest

-- find_eh: the handler and its place.
pub find_eh : ReactorCore → ℤ → Run (Option (ℕ × ℕ))
find_eh core fd = find_from core.handlers fd core.ehs core.current_idx 0

-- `!eh || eh->fd < 0 || eh->handle_event == NULL`.
abbrev pub is_invalid : (ℕ → EventHandler) → Option ℕ → Bool
is_invalid handlers none = true
is_invalid handlers (some eh) =
    ltb_ℤ (handlers eh).fd (pos 0)
    || elim (handlers eh).handle_event [ none ↦ true | some h ↦ false ]

-- add_eh, with what it returns. A handler that is invalid is put into the table all the same.
pub add_eh : ReactorCore → Option ℕ → Run (ReactorCore × ℤ)
add_eh core eh =
    let result = if is_invalid core.handlers eh then negsuc 0 else pos 0 in
    let added : Run (ReactorCore × ℤ) = do
      handler ← or_fault eh
      let asked = add_fd (core.handlers handler).fd ∷ core.requests
      ehs ← store core.ehs core.current_idx (some handler)
      ok (record core { ehs = ehs; current_idx = core.current_idx + 1; requests = asked }, result)
    in if ltb core.current_idx max_user then added else ok (core, negsuc 0)

-- rm_eh behind find_eh, which found `eh` at `position`.
abbrev pub rm_found : ReactorCore → ℤ → ℕ → ℕ → Run (ReactorCore × Option ℤ)
rm_found core fd eh position =
    let removed : Run (ReactorCore × Option ℤ) = do
      moved ← load core.ehs core.current_idx
      ehs ← store core.ehs position moved
      ok (
        record core {
          ehs = ehs;
          current_idx = core.current_idx - 1;
          requests = remove_fd fd ∷ core.requests;
          freed = eh ∷ core.freed;
        },
        none,
      )
    in if ltb position core.current_idx then removed else ok (core, some (negsuc 1))

-- rm_eh, with what it returns; nothing where it ends without a `return`.
pub rm_eh : ReactorCore → ℤ → Run (ReactorCore × Option ℤ)
rm_eh core fd = do
  found ← find_eh core fd
  elim found [
    | none ↦ ok (core, some (negsuc 0))
    | some (eh, position) ↦ rm_found core fd eh position
  ]

-- struct epoll_event.
pub record EpollEvent : Type 0 where
  pub fd : ℤ
  pub events : ℕ

-- `events & EPOLLRDHUP`, which is bit 13.
abbrev pub is_rdhup : ℕ → Bool
is_rdhup events = ((events / 8192) % 2) == 1

-- The `for` of event_loop: the jobs that are added, each a handler with the events for it.
pub event_loop_round : ReactorCore → List EpollEvent → Run (List (ℕ × ℕ))
event_loop_round core [] = ok []
event_loop_round core (e ∷ es) = do
  jobs ←
      (if is_rdhup e.events then ok [] else (do
        found ← find_eh core e.fd
        ok (elim found [ none ↦ [] | some (eh, position) ↦ (eh, e.events) ∷ [] ])))
  rest ← event_loop_round core es
  ok (jobs ++ rest)

-- create_reactor, on a core whose memory malloc gave with `ehs` in it.
pub create_reactor : List (Option ℕ) → (ℕ → EventHandler) → Run ReactorCore
create_reactor memory handlers = do
  ehs ← store memory 0 none
  ok (record { current_idx = 0; ehs = ehs; handlers = handlers; freed = []; requests = [] })
