-- ===== src/Net/Poller/Interest.antt =====
-- What a history of `epoll_ctl` calls has registered, as its manual describes it.
use reactor_server.Prelude.{
  ℕ, ◌≡◌, Bool, true, false, List, [], ◌∷◌, Option, none, some, ◌==◌, if◌then◌else◌,
}
use reactor_server.Net.Channel.{Events}
use reactor_server.Net.Poller.{EpollOp, epoll_ctl_add, epoll_ctl_del, EpollCtl}

-- The channel and the events that a call leaves registered.
abbrev pub after_call : EpollCtl → EpollOp → Option (ℕ × Events)
after_call c epoll_ctl_del = none
after_call c _ = some (c.channel, c.events)

-- The entry of a descriptor in the interest list.
abbrev pub interest : List EpollCtl → ℕ → Option (ℕ × Events)
interest [] fd = none
interest (c ∷ calls) fd = if fd == c.fd then after_call c c.op else interest calls fd

-- A call fails with EEXIST or ENOENT otherwise.
abbrev pub accepted : EpollOp → Option (ℕ × Events) → Bool
accepted epoll_ctl_add none = true
accepted epoll_ctl_add (some e) = false
accepted _ none = false
accepted _ (some e) = true

-- No call of the history failed.
abbrev pub AllAccepted : List EpollCtl → Type 0
AllAccepted [] = Unit {0}
AllAccepted (c ∷ calls) = (accepted c.op (interest calls c.fd) ≡ true) × AllAccepted calls
