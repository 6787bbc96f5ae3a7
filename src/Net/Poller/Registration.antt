-- ===== src/Net/Poller/Registration.antt =====
-- The statuses of the channels, the map of the poller and the interest list of the kernel agree.
use reactor_server.Prelude.{
  ℕ, ◌≡◌, refl, sym, subst, ap, ◌∙◌, ◌≢◌, ◌⊎◌, true, List, Option, none, some, arith, inl, inr,
}
use reactor_server.Net.Channel
use reactor_server.Net.Poller
use reactor_server.Net.Channel.{
  Events, either, none_event, edge_event, Status, cnew, cadded, cdeleted, Channel, is_non_event,
}
use reactor_server.Net.Poller.{
  EpollOp, epoll_ctl_add, epoll_ctl_mod, epoll_ctl_del, EpollCtl, Poller, set_channel, set_status,
  update, is_none, is_at, update_at, update_channel, remove_channel, change, remove, has_channel,
}
use reactor_server.Net.Poller.Interest.{interest, AllAccepted}
use reactor_server.Prelude.Memory.{assign, assign_self, assign_ne, same-or-other}

-- What the map and the kernel hold for the descriptor of the channel at `i`.
abbrev pub Registered : Status → ℕ → Channel → Option ℕ → Option (ℕ × Events) → Type 0
Registered cnew i c slot entry = slot ≢ some i
Registered cadded i c slot entry = (slot ≡ some i) × (entry ≡ some (i, either edge_event c.events))
Registered cdeleted i c slot entry = (slot ≡ some i) × ((entry ≡ none) × (c.events ≡ none_event))

pub record Holds (p : Poller) : Type 0 where
  pub channel_state :
      (i : ℕ)
      → Registered
          (p.objects i).status
          i
          (p.objects i)
          (p.channels (p.objects i).fd)
          (interest p.calls (p.objects i).fd)
  pub slot_fd : (fd i : ℕ) → p.channels fd ≡ some i → (p.objects i).fd ≡ fd
  pub unused : (fd : ℕ) → p.channels fd ≡ none → interest p.calls fd ≡ none
  pub calls_accepted : AllAccepted p.calls
  pub loop_thread : p.in_loop_thread ≡ true

-- Two channels do not hold the same slot.
Registered-other :
    (s : Status) (i j : ℕ) (d : Channel) (slot slot' : Option ℕ)
    (entry entry' : Option (ℕ × Events))
    → j ≢ i
    → (slot ≡ none) ⊎ (slot ≡ some i)
    → (slot' ≡ none) ⊎ (slot' ≡ some i)
    → Registered s j d slot entry
    → Registered s j d slot' entry'
Registered-other cnew i j d slot slot' entry entry' ne before after r = ground (arith, ne, after)
Registered-other cadded i j d slot slot' entry entry' ne before after r =
    absurd (ground (arith, ne, before, r.0))
Registered-other cdeleted i j d slot slot' entry entry' ne before after r =
    absurd (ground (arith, ne, before, r.0))

-- One call on the descriptor of `i` that leaves `c` there, with the map and the interest list that
-- fit its status; nothing else changes.
module _ (p : Poller) (h : Holds p) (i : ℕ) (c : Channel) (slot : Option ℕ)
    (calls : List EpollCtl) where
  abbrev pub next : Poller
  next = record p {
    channels = assign p.channels c.fd slot;
    objects = assign p.objects i c;
    calls = calls;
  }

  pub next-Holds :
      c.fd ≡ (p.objects i).fd
      → (p.channels c.fd ≡ none) ⊎ (p.channels c.fd ≡ some i)
      → (slot ≡ none) ⊎ (slot ≡ some i)
      → ((fd : ℕ) → fd ≢ c.fd → interest calls fd ≡ interest p.calls fd)
      → AllAccepted calls
      → (slot ≡ none → interest calls c.fd ≡ none)
      → Registered c.status i c slot (interest calls c.fd)
      → Holds next
  next-Holds same_fd before after others accepted empty here = record {
    channel_state = state;
    slot_fd = slots;
    unused = left;
    calls_accepted = accepted;
    loop_thread = h.loop_thread;
  }
    where
      At : ℕ → Channel → Type 0
      At j d = Registered d.status j d (assign p.channels c.fd slot d.fd) (interest calls d.fd)

      state : (j : ℕ) → At j (assign p.objects i c j)
      state j = elim (same-or-other i j) [
        | inl e ↦
            subst (λ k. At k (assign p.objects i c k)) (sym e)
              (subst (At i) (sym (assign_self p.objects i c)) (
                subst (λ o. Registered c.status i c o (interest calls c.fd))
                  (sym (assign_self p.channels c.fd slot)) here))
        | inr ne ↦
            subst (At j) (sym (assign_ne p.objects i c j ne))
              (elim (same-or-other c.fd (p.objects j).fd) [
                | inl e ↦
                    Registered-other (p.objects j).status i j (p.objects j)
                      (p.channels (p.objects j).fd) _ _ _ ne
                      (subst (λ fd. (p.channels fd ≡ none) ⊎ (p.channels fd ≡ some i)) (sym e)
                        before)
                      (subst
                        (λ fd.
                          (assign p.channels c.fd slot fd ≡ none)
                          ⊎ (assign p.channels c.fd slot fd ≡ some i))
                        (sym e)
                        (subst (λ o. (o ≡ none) ⊎ (o ≡ some i))
                          (sym (assign_self p.channels c.fd slot)) after))
                      (h.channel_state j)
                | inr other ↦
                    rw
                      (
                        assign_ne p.channels c.fd slot (p.objects j).fd other,
                        others (p.objects j).fd other,
                      )
                      (h.channel_state j)
              ])
      ]

      slots :
          (fd j : ℕ) → assign p.channels c.fd slot fd ≡ some j → (assign p.objects i c j).fd ≡ fd
      slots fd j e = elim (same-or-other c.fd fd) [
        | inl same ↦
            let held : slot ≡ some j =
              sym (assign_self p.channels c.fd slot)
              ∙ subst (λ k. assign p.channels c.fd slot k ≡ some j) same e in
            let it : j ≡ i = ground (arith, after, held) in
            subst (λ k. (assign p.objects i c k).fd ≡ fd) (sym it)
              (ap (λ (d : Channel). d.fd) (assign_self p.objects i c) ∙ sym same)
        | inr other ↦
            let owned : (p.objects j).fd ≡ fd =
              h.slot_fd fd j (sym (assign_ne p.channels c.fd slot fd other) ∙ e) in
            elim (same-or-other i j) [
              | inl it ↦
                  subst (λ k. (assign p.objects i c k).fd ≡ fd) (sym it)
                    (ap (λ (d : Channel). d.fd) (assign_self p.objects i c)
                      ∙ (same_fd ∙ subst (λ k. (p.objects k).fd ≡ fd) it owned))
              | inr ne ↦ ap (λ (d : Channel). d.fd) (assign_ne p.objects i c j ne) ∙ owned
            ]
      ]

      left : (fd : ℕ) → assign p.channels c.fd slot fd ≡ none → interest calls fd ≡ none
      left fd e = elim (same-or-other c.fd fd) [
        | inl same ↦
            subst (λ k. interest calls k ≡ none) (sym same)
              (empty (
                sym (assign_self p.channels c.fd slot)
                ∙ subst (λ k. assign p.channels c.fd slot k ≡ none) same e))
        | inr other ↦
            others fd other ∙ h.unused fd (sym (assign_ne p.channels c.fd slot fd other) ∙ e)
      ]

-- A new poller, with new channels, is in order.
pub new-Holds : (fds : ℕ → ℕ) → Holds (Poller.new (λ i. Channel.new (fds i)))
new-Holds fds = record {
  channel_state = λ i e. absurd (ground (arith, e));
  slot_fd = λ fd i e. absurd (ground (arith, e));
  unused = λ fd e. refl;
  calls_accepted = tt;
  loop_thread = refl;
}
