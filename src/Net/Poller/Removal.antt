-- ===== src/Net/Poller/Removal.antt =====
-- Channel::remove keeps the registration in order.
use reactor_server.Prelude.{
  ℕ, ◌≡◌, refl, ap, ◌≢◌, true, false, not, List, ◌∷◌, Option, none, some, ◌==◌, arith, aborts,
  Returns, returns, Returns-assert, Bool-cases, inl, inr,
}
use reactor_server.Net.Channel.{
  Events, either, none_event, edge_event, some_event, Status, cnew, cadded, cdeleted, Channel,
  is_non_event,
}
use reactor_server.Net.Poller.{
  epoll_ctl_del, EpollCtl, Poller, remove_channel, loop_remove_channel, removable, remove,
  is_cadded, is_cnew,
}
use reactor_server.Net.Poller.Interest.{interest, accepted, AllAccepted}
use reactor_server.Net.Poller.Registration.{Holds, Registered, next, next-Holds}
use reactor_server.Prelude.Memory.{assign_self, assign_ne, assign-assign}
use reactor_server.Net.Poller.Changes.{interest_other}

-- What is left of a channel behind its removal.
pub record Removed (p : Poller) (i : ℕ) (q : Poller) : Type 0 where
  pub holds : Holds q
  pub status_is : (q.objects i).status ≡ cnew
  pub unwatched : interest q.calls (p.objects i).fd ≡ none
  pub slot_free : q.channels (p.objects i).fd ≡ none
  pub others_kept : (j : ℕ) → j ≢ i → q.objects j ≡ p.objects j

module _ (p : Poller) (h : Holds p) (i : ℕ) where
  abbrev gone : Channel
  gone = record (p.objects i) { add_to_loop = false; status = cnew }

  abbrev off : EpollCtl
  off = record {
    op = epoll_ctl_del;
    fd = (p.objects i).fd;
    events = either edge_event (p.objects i).events;
    channel = i;
  }

  without-Removed :
      (calls : List EpollCtl)
      → p.channels (p.objects i).fd ≡ some i
      → interest calls (p.objects i).fd ≡ none
      → ((fd : ℕ) → fd ≢ (p.objects i).fd → interest calls fd ≡ interest p.calls fd)
      → AllAccepted calls
      → Removed p i (next p h i gone none calls)
  without-Removed calls slot entry others accepted = record {
    holds =
        next-Holds p h i gone none calls refl (inr slot) (inl refl) others accepted (λ e. entry)
          (λ e. ground (arith, e));
    status_is = ap (λ (c : Channel). c.status) (assign_self p.objects i gone);
    unwatched = entry;
    slot_free = assign_self p.channels (p.objects i).fd none;
    others_kept = λ j ne. assign_ne p.objects i gone j ne;
  }

  -- What the status says, by its two tests.
  Registered-slot :
      (s : Status) (slot : Option ℕ) (entry : Option (ℕ × Events))
      → is_cnew s ≡ false
      → Registered s i (p.objects i) slot entry
      → (slot ≡ some i)
        × ((is_cadded s ≡ true → entry ≡ some (i, either edge_event (p.objects i).events))
            × (is_cadded s ≡ false → entry ≡ none))
  Registered-slot cnew slot entry old r = absurd (ground (arith, old))
  Registered-slot cadded slot entry old r = (r.0, (λ e. r.1, λ e. absurd (ground (arith, e))))
  Registered-slot cdeleted slot entry old r = (r.0, (λ e. absurd (ground (arith, e)), λ e. r.1.0))

-- Channel::remove, in a poller that is in order, of a registered channel that asks for no event and
-- that no active event still waits for, meets no failed assertion and no failed `epoll_ctl`: the
-- channel is new again, its descriptor is free in the poller and not watched by the kernel, the
-- poller is in order, and no other channel changes.
pub remove-Removed :
    (p : Poller) (i : ℕ)
    → Holds p
    → is_cnew (p.objects i).status ≡ false
    → (p.objects i).events ≡ none_event
    → removable p i ≡ true
    → Returns (Removed p i) (remove p i)
unfolding remove loop_remove_channel remove_channel
remove-Removed p i h old idle may =
    let fd = (p.objects i).fd in
    let quiet : is_non_event (p.objects i) ≡ true = ap (λ e. not (some_event e)) idle in
    let (slot, (watched, unwatched)) =
      Registered-slot p h i (p.objects i).status (p.channels fd) (interest p.calls fd) old
        (h.channel_state i) in
    let (same, self) : ((fd == fd) ≡ true) × ((i == i) ≡ true) = (ground arith, ground arith) in
    Returns-assert (is_non_event (p.objects i)) quiet (
      Returns-assert p.in_loop_thread h.loop_thread (
        Returns-assert (removable p i) may (
          Returns-assert p.in_loop_thread h.loop_thread (
            rw (assign_self p.objects i (record (p.objects i) { add_to_loop = false })) (
              Returns-assert (is_non_event (p.objects i)) quiet (
                rw (slot, self, old)
                  (elim (Bool-cases (is_cadded (p.objects i).status)) [
                    | inl added ↦
                        rw
                          (
                            added,
                            assign_self p.objects i (record (p.objects i) { add_to_loop = false }),
                            assign-assign p.objects i (record (p.objects i) { add_to_loop = false })
                                (gone p h i),
                          )
                          (returns (
                            without-Removed p h i (off p h i ∷ p.calls) slot (rw same)
                              (λ k ne. interest_other (off p h i) p.calls k ne)
                              (rw (watched added), h.calls_accepted)))
                    | inr off_list ↦
                        rw
                          (
                            off_list,
                            assign_self p.objects i (record (p.objects i) { add_to_loop = false }),
                            assign-assign p.objects i (record (p.objects i) { add_to_loop = false })
                                (gone p h i),
                          )
                          (returns (
                            without-Removed p h i p.calls slot (unwatched off_list) (λ k ne. refl)
                              h.calls_accepted))
                  ])))))))

pub remove-busy : (p : Poller) (i : ℕ) → is_non_event (p.objects i) ≡ false → remove p i ≡ aborts
unfolding remove
remove-busy p i busy = rw busy
