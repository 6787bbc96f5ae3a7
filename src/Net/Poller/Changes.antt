-- ===== src/Net/Poller/Changes.antt =====
-- Every change of a channel's events, and its removal, keeps the registration in order.
use reactor_server.Prelude.{
  ℕ, ◌≡◌, refl, sym, subst, ap, ◌∙◌, ◌≢◌, ◌⊎◌, true, false, List, ◌∷◌, none, some, ◌==◌, arith, ok,
  Returns, returns, Returns-assert, Bool-cases, inl, inr,
}
use reactor_server.Net.Channel.{
  Events, either, none_event, edge_event, some_event, Status, cnew, cadded, cdeleted, Channel,
}
use reactor_server.Net.Poller.{
  EpollOp, epoll_ctl_add, epoll_ctl_mod, epoll_ctl_del, EpollCtl, Poller, set_channel, update_at,
  update_channel, change, removable, is_cnew,
}
use reactor_server.Net.Poller.Interest.{interest, accepted, after_call}
use reactor_server.Net.Poller.Registration.{Holds, Registered, next, next-Holds}
use reactor_server.Prelude.Memory.{assign, assign_self, assign_ne, assign-same, assign-assign}

some_event-none : (e : Events) → some_event e ≡ false → e ≡ none_event
some_event-none e h =
    let a : e.input ≡ false = ground (arith, h) in
    let b : e.priority ≡ false = ground (arith, h) in
    let c : e.output ≡ false = ground (arith, h) in
    let d : e.error ≡ false = ground (arith, h) in
    let f : e.hang_up ≡ false = ground (arith, h) in
    let g : e.edge ≡ false = ground (arith, h) in
    λ k. record {
      input = a k;
      priority = b k;
      output = c k;
      error = d k;
      hang_up = f k;
      edge = g k;
    }

pub interest_other :
    (c : EpollCtl) (calls : List EpollCtl) (fd : ℕ)
    → fd ≢ c.fd
    → interest (c ∷ calls) fd ≡ interest calls fd
interest_other c calls fd ne = let other : (fd == c.fd) ≡ false = ground (arith, ne) in rw other

-- A channel may change in what the poller does not look at.
pub touch-Holds :
    (p : Poller)
    → Holds p
    → (i : ℕ) (c : Channel) → c.fd ≡ (p.objects i).fd
    → c.status ≡ (p.objects i).status
    → c.events ≡ (p.objects i).events
    → (p.channels (p.objects i).fd ≡ none) ⊎ (p.channels (p.objects i).fd ≡ some i)
    → Holds (set_channel p i c)
touch-Holds p h i c fd status events slot =
    subst (λ m. Holds (record p { channels = m; objects = assign p.objects i c }))
      (assign-same p.channels c.fd (p.channels c.fd) refl)
      (next-Holds p h i c (p.channels c.fd) p.calls fd held held (λ k ne. refl) h.calls_accepted
        (h.unused c.fd)
        (subst (λ s. Registered s i c (p.channels c.fd) (interest p.calls c.fd)) (sym status)
          (subst (λ k. Registered (p.objects i).status i c (p.channels k) (interest p.calls k))
            (sym fd) (kept (p.objects i).status (h.channel_state i)))))
  where
    held : (p.channels c.fd ≡ none) ⊎ (p.channels c.fd ≡ some i)
    held = subst (λ k. (p.channels k ≡ none) ⊎ (p.channels k ≡ some i)) (sym fd) slot

    kept :
        (s : Status)
        → Registered s i
            (p.objects i)
            (p.channels (p.objects i).fd)
            (interest p.calls (p.objects i).fd)
        → Registered s i c (p.channels (p.objects i).fd) (interest p.calls (p.objects i).fd)
    kept cnew r = r
    kept cadded r = (r.0, r.1 ∙ ap (λ e. some (i, either edge_event e)) (sym events))
    kept cdeleted r = (r.0, (r.1.0, events ∙ r.1.1))

-- The registration of one channel after its events became `e`.
pub record Changed (p : Poller) (i : ℕ) (e : Events) (q : Poller) : Type 0 where
  pub holds : Holds q
  pub events_are : (q.objects i).events ≡ e
  pub fd_kept : (q.objects i).fd ≡ (p.objects i).fd
  pub tied_kept : (q.objects i).tied ≡ (p.objects i).tied
  pub registered : is_cnew (q.objects i).status ≡ false
  pub removable_kept : (j : ℕ) → removable q j ≡ removable p j
  pub asks :
      (interest q.calls (p.objects i).fd ≡ some (i, either edge_event e))
      ⊎ ((interest q.calls (p.objects i).fd ≡ none) × (e ≡ none_event))
  pub others_kept : (j : ℕ) → j ≢ i → q.objects j ≡ p.objects j

module _ (p : Poller) (h : Holds p) (i : ℕ) (e : Events) where
  abbrev changed : Channel
  changed = record (p.objects i) { events = e; add_to_loop = true }

  abbrev asked : Poller
  asked = set_channel p i changed

  -- The state behind the call `op`, which leaves the channel with the status `st`.
  abbrev after : Status → EpollOp → Poller
  after st op =
      next p h i (record changed { status = st }) (some i)
        (record { op = op; fd = (p.objects i).fd; events = either edge_event e; channel = i }
          ∷ p.calls)

  abbrev call : EpollOp → EpollCtl
  call op = record { op = op; fd = (p.objects i).fd; events = either edge_event e; channel = i }

  -- The call registers the events and the channel is added, or it takes an idle channel off.
  abbrev Left : Status → EpollOp → Type 0
  Left st op =
      ((st ≡ cadded) × (after_call (call op) op ≡ some (i, either edge_event e)))
      ⊎ ((st ≡ cdeleted) × ((op ≡ epoll_ctl_del) × (e ≡ none_event)))

  after-Changed :
      (st : Status) (op : EpollOp)
      → (p.channels (p.objects i).fd ≡ none) ⊎ (p.channels (p.objects i).fd ≡ some i)
      → accepted op (interest p.calls (p.objects i).fd) ≡ true
      → Left st op
      → Changed p i e (after st op)
  after-Changed st op before fits left = record {
    holds =
        next-Holds p h i (record changed { status = st }) (some i) calls refl before (inr refl)
          (λ fd ne. interest_other (call op) p.calls fd ne) (fits, h.calls_accepted)
          (λ empty. absurd (ground (arith, empty))) (rw here (registered left));
    events_are =
        ap (λ (c : Channel). c.events) (assign_self p.objects i (record changed { status = st }));
    fd_kept = ap (λ (c : Channel). c.fd) (assign_self p.objects i (record changed { status = st }));
    tied_kept =
        ap (λ (c : Channel). c.tied) (assign_self p.objects i (record changed { status = st }));
    registered =
        ap (λ (c : Channel). is_cnew c.status)
          (assign_self p.objects i (record changed { status = st }))
        ∙ named left;
    removable_kept = λ j. refl;
    asks = rw here (asked_for left);
    others_kept = λ j ne. assign_ne p.objects i (record changed { status = st }) j ne;
  }
    where
      calls : List EpollCtl
      calls = call op ∷ p.calls

      here : interest calls (p.objects i).fd ≡ after_call (call op) op
      here = let same : ((p.objects i).fd == (p.objects i).fd) ≡ true = ground arith in rw same

      named : Left st op → is_cnew st ≡ false
      named (inl (is, kept)) = ap is_cnew is
      named (inr (is, kept)) = ap is_cnew is

      asked_for :
          Left st op
          → (after_call (call op) op ≡ some (i, either edge_event e))
            ⊎ ((after_call (call op) op ≡ none) × (e ≡ none_event))
      asked_for (inl (st, kept)) = inl kept
      asked_for (inr (st, (del, idle))) = inr (ap (after_call (call op)) del, idle)

      registered :
          Left st op
          → Registered st i (record changed { status = st }) (some i) (after_call (call op) op)
      registered (inl (is, kept)) =
          subst
            (λ t.
              Registered t i (record changed { status = st }) (some i) (after_call (call op) op))
            (sym is) (refl, kept)
      registered (inr (is, (del, idle))) =
          subst
            (λ t.
              Registered t i (record changed { status = st }) (some i) (after_call (call op) op))
            (sym is) (refl, (ap (after_call (call op)) del, idle))

  update_at-Changed :
      (s : Status)
      → (p.objects i).status ≡ s
      → Registered s i
          (p.objects i)
          (p.channels (p.objects i).fd)
          (interest p.calls (p.objects i).fd)
      → (s ≡ cnew → p.channels (p.objects i).fd ≡ none)
      → Returns (Changed p i e) (update_at s asked i)
  unfolding update_at
  update_at-Changed cnew status is free =
      rw
        (
          assign_self p.objects i changed,
          assign-assign p.objects i changed (record changed { status = cadded }),
          assign_self p.objects i (record changed { status = cadded }),
          free refl,
        )
        (returns (
          after-Changed cadded epoll_ctl_add (inl (free refl))
            (rw (h.unused (p.objects i).fd (free refl))) (inl (refl, refl))))
  update_at-Changed cdeleted status is free =
      let same_index : (i == i) ≡ true = ground arith in
      rw
        (
          assign_self p.objects i changed,
          assign-assign p.objects i changed (record changed { status = cadded }),
          assign_self p.objects i (record changed { status = cadded }),
          is.0,
          same_index,
        )
        (subst
          (λ m. Returns (Changed p i e) (ok (record (after cadded epoll_ctl_add) { channels = m })))
          (assign-same p.channels (p.objects i).fd (some i) is.0)
          (returns (after-Changed cadded epoll_ctl_add (inr is.0) (rw is.1.0) (inl (refl, refl)))))
  update_at-Changed cadded status is free = elim (Bool-cases (some_event e)) [
    | inl some_left ↦
        let kept : record changed { status = cadded } ≡ changed =
          ap (λ t. record changed { status = t }) (sym status) in
        rw (assign_self p.objects i changed, is.0, some_left)
          (subst
            (λ c.
              Returns (Changed p i e)
                (ok (record (after cadded epoll_ctl_mod) { objects = assign p.objects i c })))
            kept
            (returns (after-Changed cadded epoll_ctl_mod (inr is.0) (rw is.1) (inl (refl, refl)))))
    | inr idle ↦
        rw
          (
            assign_self p.objects i changed,
            assign-assign p.objects i changed (record changed { status = cdeleted }),
            is.0,
            idle,
          )
          (returns (
            after-Changed cdeleted epoll_ctl_del (inr is.0) (rw is.1)
              (inr (refl, (refl, some_event-none e idle)))))
  ]

-- Every operation that changes the events of a channel, on a poller that is in order and a channel
-- that is registered or whose descriptor is free, meets no failed assertion and no failed
-- `epoll_ctl`: the poller is in order afterwards, the kernel watches the descriptor for the new
-- events, or not at all if there are none, and no other channel changes.
pub change-Changed :
    (f : Events → Events) (p : Poller) (i : ℕ)
    → Holds p
    → ((p.objects i).status ≡ cnew → p.channels (p.objects i).fd ≡ none)
    → Returns (Changed p i (f (p.objects i).events)) (change f p i)
unfolding change update_channel
change-Changed f p i h free =
    let e = f (p.objects i).events in
    Returns-assert p.in_loop_thread h.loop_thread (
      rw (assign_self p.objects i (changed p h i e))
        (update_at-Changed p h i e (p.objects i).status refl (h.channel_state i) free))
