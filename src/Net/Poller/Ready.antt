-- ===== src/Net/Poller/Ready.antt =====
-- What poll hands to the loop.
use reactor_server.Prelude.{
  ℕ, ◌<◌, ◌≡◌, refl, sym, subst, ap, ◌∙◌, ◌≢◌, inl, inr, true, List, [], ◌∷◌, map, some, arith, All,
  Returns, returns, Returns-bind, Returns-assert, ltb,
}
use reactor_server.Net.Channel.{Events, Channel, set_events}
use reactor_server.Net.Poller.{
  Poller, set_channel, is_at, fill_loop, fill_active_channel, poll, count,
}
use reactor_server.Net.Poller.Registration.{Holds}
use reactor_server.Net.Poller.Changes.{touch-Holds}
use reactor_server.Prelude.Memory.{assign, assign_self, assign_ne, same-or-other}

-- The channel of an event is registered.
abbrev pub Watched : Poller → ℕ × Events → Type 0
Watched p (i, e) = p.channels (p.objects i).fd ≡ some i

-- The kernel reports a descriptor once.
abbrev pub Distinct : List (ℕ × Events) → Type 0
Distinct [] = Unit {0}
Distinct ((i, e) ∷ ready) = All (λ (r : ℕ × Events). r.0 ≢ i) ready × Distinct ready

pub record Filled (p : Poller) (ready : List (ℕ × Events)) (r : Poller × List ℕ) : Type 0 where
  pub holds : Holds r.0
  pub active_are : r.1 ≡ map (λ (x : ℕ × Events). x.0) ready
  pub received : All (λ (x : ℕ × Events). (r.0.objects x.0).rcv_events ≡ x.1) ready
  pub others_kept : (j : ℕ) → All (λ (x : ℕ × Events). x.0 ≢ j) ready → r.0.objects j ≡ p.objects j
  pub map_kept : r.0.channels ≡ p.channels
  pub calls_kept : r.0.calls ≡ p.calls

module _ (p : Poller) (h : Holds p) (i : ℕ) (e : Events)
    (slot : p.channels (p.objects i).fd ≡ some i) where
  abbrev told : Poller
  told = set_channel p i (set_events (p.objects i) e)

  told-Holds : Holds told
  told-Holds = touch-Holds p h i (set_events (p.objects i) e) refl refl refl (inr slot)

  told-fd : (j : ℕ) → (told.objects j).fd ≡ (p.objects j).fd
  told-fd j = elim (same-or-other i j) [
    | inl it ↦
        subst (λ k. (assign p.objects i (set_events (p.objects i) e) k).fd ≡ (p.objects k).fd)
          (sym it)
          (ap (λ (c : Channel). c.fd) (assign_self p.objects i (set_events (p.objects i) e)))
    | inr ne ↦ ap (λ (c : Channel). c.fd) (assign_ne p.objects i (set_events (p.objects i) e) j ne)
  ]

  told-Watched : (ready : List (ℕ × Events)) → All (Watched p) ready → All (Watched told) ready
  told-Watched [] w = tt
  told-Watched ((j, f) ∷ ready) w = (ap p.channels (told-fd j) ∙ w.0, told-Watched ready w.1)

fill_loop-Filled :
    (ready : List (ℕ × Events)) (p : Poller)
    → Holds p
    → All (Watched p) ready
    → Distinct ready
    → Returns (Filled p ready) (fill_loop p ready)
unfolding fill_loop
fill_loop-Filled [] p h w d = returns (record {
  holds = h;
  active_are = refl;
  received = tt;
  others_kept = λ j a. refl;
  map_kept = refl;
  calls_kept = refl;
})
fill_loop-Filled ((i, e) ∷ ready) p h w d =
    let self : is_at (some i) i ≡ true = ground arith in
    let q = told p h i e w.0 in
    Returns-assert (is_at (p.channels (p.objects i).fd) i) (ap (λ o. is_at o i) w.0 ∙ self) (
      Returns-bind
        (fill_loop-Filled ready q (told-Holds p h i e w.0) (told-Watched p h i e w.0 ready w.1) d.1)
        (λ r f. returns (record {
          holds = f.holds;
          active_are = ap (◌∷◌ i) f.active_are;
          received = (
            ap (λ (c : Channel). c.rcv_events)
                (f.others_kept i d.0 ∙ assign_self p.objects i (set_events (p.objects i) e)),
            f.received,
          );
          others_kept = λ j a.
              f.others_kept j a.1
              ∙ assign_ne p.objects i (set_events (p.objects i) e) j (λ same. a.0 (sym same));
          map_kept = f.map_kept;
          calls_kept = f.calls_kept;
        })))

-- poll, on a poller that is in order, where the kernel reports registered channels, each once, and
-- fewer of them than the vector has places, returns them in the kernel's order, each with the
-- events reported for it; no other channel, no registration and no call of the kernel is changed.
pub poll-Filled :
    (p : Poller) (ready : List (ℕ × Events))
    → Holds p
    → All (Watched p) ready
    → Distinct ready
    → count ready < p.event_vec_size
    → Returns (Filled p ready) (poll p (some ready))
unfolding poll fill_active_channel
poll-Filled p [] h w d few = returns (record {
  holds = h;
  active_are = refl;
  received = tt;
  others_kept = λ j a. refl;
  map_kept = refl;
  calls_kept = refl;
})
poll-Filled p (r ∷ ready) h w d few =
    Returns-assert (ltb (count (r ∷ ready)) p.event_vec_size) (ground (arith, few))
      (fill_loop-Filled (r ∷ ready) p h w d)
