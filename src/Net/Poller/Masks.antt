-- ===== src/Net/Poller/Masks.antt =====
-- What the operations on the events leave of a channel's interest in reading and in writing.
use reactor_server.Prelude.{
  ℕ, ◌≡◌, refl, ap, ◌∙◌, Bool, true, false, none, arith, Returns, Returns-map,
}
use reactor_server.Net.Channel.{
  Events, cnew, some_event, both, either, other_than, none_event, read_event, write_event,
  is_reading, is_writing,
}
use reactor_server.Net.Poller.{
  Poller, enable_read, disable_read, enable_write, disable_write, disable_all,
}
use reactor_server.Net.Poller.Registration.{Holds}
use reactor_server.Net.Poller.Changes.{Changed, change-Changed}

-- The interests of the channel at `i`.
abbrev pub Interests : Bool → Bool → ℕ → Poller → Type 0
Interests reading writing i q =
    (is_reading (q.objects i) ≡ reading) × (is_writing (q.objects i) ≡ writing)

of-events :
    {p q : Poller} {i : ℕ} (e : Events) (reading writing : Bool)
    → some_event (both e read_event) ≡ reading
    → some_event (both e write_event) ≡ writing
    → Changed p i e q
    → Interests reading writing i q
of-events e reading writing r w c = (
  ap (λ e. some_event (both e read_event)) c.events_are ∙ r,
  ap (λ e. some_event (both e write_event)) c.events_are ∙ w,
)

module _ (p : Poller) (i : ℕ) (h : Holds p)
    (free : (p.objects i).status ≡ cnew → p.channels (p.objects i).fd ≡ none) where
  -- In a poller that is in order, on a channel that is registered or whose descriptor is free,
  -- enableRead and disableRead return with the interest in reading on and off, enableWrite with the
  -- interest in writing on, each with the other interest as it was, and disableAll with neither.
  pub interests :
      Returns (Interests true (is_writing (p.objects i)) i) (enable_read p i)
      × (Returns (Interests false (is_writing (p.objects i)) i) (disable_read p i)
          × (Returns (Interests (is_reading (p.objects i)) true i) (enable_write p i)
              × Returns (Interests false false i) (disable_all p i)))
  interests =
      let e = (p.objects i).events in
      (
        Returns-map (λ q. of-events (either e read_event) true _ (ground arith) (ground arith))
            (change-Changed _ p i h free),
        (
          Returns-map
              (λ q.
                of-events (both e (other_than read_event)) false _ (ground arith) (ground arith))
              (change-Changed _ p i h free),
          (
            Returns-map (λ q. of-events (either e write_event) _ true (ground arith) (ground arith))
                (change-Changed _ p i h free),
            Returns-map (λ q. of-events none_event false false refl refl)
                (change-Changed _ p i h free),
          ),
        ),
      )

  -- disableWrite, in a poller that is in order, on a channel that is registered or whose descriptor
  -- is free, returns with the interest in reading off and the interest in writing as it was.
  pub disable_write-keeps :
      Returns (Interests false (is_writing (p.objects i)) i) (disable_write p i)
  disable_write-keeps =
      let e = (p.objects i).events in
      Returns-map (λ q. of-events (both e write_event) false _ (ground arith) (ground arith))
        (change-Changed _ p i h free)
