-- ===== src/Net/Connection/Setup.antt =====
-- A connection before its first event.
use reactor_server.Prelude.{
  ℕ, ◌≡◌, inl, inr, refl, sym, ap, ◌∙◌, subst, true, [], ◌∷◌, ◌++◌, none, some, arith, ok, Returns,
  returns, Returns-bind, Returns-assert,
}
use reactor_server.Net.Channel.{Events, Channel, read_event, none_event, edge_event, either}
use reactor_server.Net.Poller.{Poller, set_channel}
use reactor_server.Net.Poller.Interest.{interest}
use reactor_server.Net.Poller.Registration.{Holds}
use reactor_server.Net.Poller.Changes.{touch-Holds, Changed, change-Changed}
use reactor_server.Net.Connection.{
  cconnecting, cconnected, connection_cb, TcpConnection, is_connecting, connection_established,
}
use reactor_server.Prelude.Memory.{assign_self}

-- A connection that runs: it is connected, tied to its owner, and read from.
pub record Established (c d : TcpConnection) : Type 0 where
  pub state_is : d.state ≡ cconnected
  pub holds : Holds d.poller
  pub tied : (d.poller.objects c.channel).tied ≡ true
  pub watched :
      interest d.poller.calls (c.poller.objects c.channel).fd
      ≡ some (c.channel, either edge_event read_event)
  pub actions_are : d.actions ≡ c.actions ++ connection_cb ∷ []

asked :
    {p q : Poller} (i : ℕ)
    → Changed p i read_event q
    → interest q.calls (p.objects i).fd ≡ some (i, either edge_event read_event)
asked i f = elim f.asks [
  | inl on ↦ on
  | inr off ↦ absurd (ground (arith, ap (λ (e : Events). e.input) off.1))
]

-- connectionEstablished, on a connecting connection in a poller that is in order, whose channel
-- asks for no event and whose descriptor no channel uses, fails no assertion: the connection is
-- connected and tied, the kernel watches it for reading, the poller is in order, and connectionCB
-- was called once.
pub connection_established-Established :
    (c : TcpConnection)
    → Holds c.poller
    → c.state ≡ cconnecting
    → c.poller.channels (c.poller.objects c.channel).fd ≡ none
    → (c.poller.objects c.channel).events ≡ none_event
    → Returns (Established c) (connection_established c)
unfolding connection_established
connection_established-Established c h is slot idle =
    let i = c.channel in
    let tied : Channel = record (c.poller.objects i) { tied = true } in
    let p = set_channel c.poller i tied in
    let put : p.objects i ≡ tied = assign_self c.poller.objects i tied in
    let same_fd : (p.objects i).fd ≡ (c.poller.objects i).fd = ap (λ (c : Channel). c.fd) put in
    let fresh : p.channels (p.objects i).fd ≡ none = ap p.channels same_fd ∙ slot in
    let reads : either (p.objects i).events read_event ≡ read_event =
      ap (λ (c : Channel). either c.events read_event) put ∙ ap (λ e. either e read_event) idle in
    Returns-assert c.poller.in_loop_thread h.loop_thread (
      Returns-assert (is_connecting c.state) (ap is_connecting is) (
        Returns-bind
          {P = λ d.
            (q : Poller) × (d ≡ record c { poller = q; state = cconnected })
            × Changed p i (either (p.objects i).events read_event) q}
          (Returns-bind
            (change-Changed (λ e. either e read_event) p i
              (touch-Holds c.poller h i tied refl refl refl (inl slot)) (λ e. fresh))
            (λ q f. returns (q, refl, f)))
          (λ d r.
            let (q, same, f) = r in
            subst
              (λ d.
                Returns (Established c)
                  (ok (record d { actions = d.actions ++ connection_cb ∷ [] })))
              (sym same)
              (returns (record {
                state_is = refl;
                holds = f.holds;
                tied = f.tied_kept ∙ ap (λ (c : Channel). c.tied) put;
                watched =
                    ap (interest q.calls) (sym same_fd)
                    ∙ asked i (subst (λ e. Changed p i e q) reads f);
                actions_are = refl;
              })))))
