-- ===== src/Net/Connection/Lifetime.antt =====
-- A connection from its first event to its removal.
use reactor_server.Prelude.{
  ◌≡◌, refl, sym, ap, ◌∙◌, subst, true, false, ◌||◌, List, [], ◌∷◌, ◌++◌, append_assoc, none, arith,
  ok, Returns, returns, Returns-bind, Returns-assert, ◌>>=◌, if◌then◌else◌,
}
use reactor_server.Net.Channel.{cnew, none_event}
use reactor_server.Net.Poller.{Poller, is_cnew, removable, disable_all, remove}
use reactor_server.Net.Poller.Interest.{interest}
use reactor_server.Net.Poller.Registration.{Holds}
use reactor_server.Net.Poller.Changes.{Changed, change-Changed}
use reactor_server.Net.Poller.Removal.{remove-Removed}
use reactor_server.Net.Connection.{
  cconnected, cdisconnected, Action, connection_cb, close_cb, TcpConnection, is_connecting,
  is_connected, connection_destroyed, disconnect, handle_close, on_channel,
}

-- The connection is over: it is disconnected, the kernel does not watch its descriptor, which is
-- free in the poller, the poller is in order, and `actions` is what the connection did.
pub record Over (c : TcpConnection) (actions : List Action) (d : TcpConnection) : Type 0 where
  pub state_is : d.state ≡ cdisconnected
  pub holds : Holds d.poller
  pub unwatched : interest d.poller.calls (c.poller.objects c.channel).fd ≡ none
  pub slot_free : d.poller.channels (c.poller.objects c.channel).fd ≡ none
  pub actions_are : d.actions ≡ actions

module _ (c : TcpConnection) (h : Holds c.poller)
    (old : is_cnew (c.poller.objects c.channel).status ≡ false)
    (may : removable c.poller c.channel ≡ true) where
  free :
      (c.poller.objects c.channel).status ≡ cnew
      → c.poller.channels (c.poller.objects c.channel).fd ≡ none
  free e = absurd (ground (arith, sym (ap is_cnew e) ∙ old))

  removed-Over :
      (q : Poller) (actions : List Action)
      → Changed c.poller c.channel none_event q
      → Returns
          (Over c actions)
          (on_channel remove (record c { poller = q; state = cdisconnected; actions = actions }))
  removed-Over q actions f =
      Returns-bind
        (remove-Removed q c.channel f.holds f.registered f.events_are
          (f.removable_kept c.channel ∙ may))
        (λ r gone. returns (record {
          state_is = refl;
          holds = gone.holds;
          unwatched = ap (interest r.calls) (sym f.fd_kept) ∙ gone.unwatched;
          slot_free = ap r.channels (sym f.fd_kept) ∙ gone.slot_free;
          actions_are = refl;
        }))

  -- The connection without an event to watch, having acted.
  Silenced : List Action → TcpConnection → Type 0
  Silenced actions d =
      (q : Poller) × (d ≡ record c { poller = q; state = cdisconnected; actions = actions })
      × Changed c.poller c.channel none_event q

  silence :
      Returns (Silenced c.actions) (on_channel disable_all (record c { state = cdisconnected }))
  unfolding Silenced
  silence =
      Returns-bind (change-Changed (λ e. none_event) c.poller c.channel h free)
        (λ q f. returns (q, refl, f))

  Silenced-act :
      (more : List Action) (d : TcpConnection)
      → Silenced c.actions d
      → Silenced (c.actions ++ more) (record d { actions = d.actions ++ more })
  unfolding Silenced
  Silenced-act more d (q, is, f) =
      (q, ap (λ (d : TcpConnection). record d { actions = d.actions ++ more }) is, f)

  Silenced-Over :
      (actions : List Action) (d : TcpConnection)
      → Silenced actions d
      → Returns (Over c actions) (on_channel remove d)
  unfolding Silenced
  Silenced-Over actions d (q, is, f) =
      subst (λ d. Returns (Over c actions) (on_channel remove d)) (sym is)
        (removed-Over q actions f)

  -- handleClose and then connectionDestroyed, on a connected connection whose channel is registered
  -- in a poller that is in order and may be removed, fail no assertion: the connection is
  -- disconnected, connectionCB and then closeCB were called once each, the kernel does not watch
  -- the descriptor, which is free in the poller, and the poller is in order.
  pub handle_close-Over :
      c.state ≡ cconnected
      → Returns
          (Over c (c.actions ++ connection_cb ∷ close_cb ∷ []))
          (handle_close c >>= connection_destroyed)
  unfolding handle_close connection_destroyed Silenced
  handle_close-Over is =
      Returns-bind
        (Returns-assert c.poller.in_loop_thread h.loop_thread (
          Returns-assert (is_connected c.state || is_connecting c.state)
            (ap (λ s. is_connected s || is_connecting s) is)
            (Returns-bind silence (λ d s. returns (closed d s)))))
        destroyed
    where
      all : List Action
      all = c.actions ++ connection_cb ∷ close_cb ∷ []

      closed :
          (d : TcpConnection)
          → Silenced c.actions d
          → Silenced all (record d { actions = (d.actions ++ connection_cb ∷ []) ++ close_cb ∷ [] })
      closed d (q, is, f) = (
        q,
        ap
              (λ (d : TcpConnection). record d {
                actions = (d.actions ++ connection_cb ∷ []) ++ close_cb ∷ [];
              })
              is
            ∙ ap
                (λ (actions : List Action). record c {
                  poller = q;
                  state = cdisconnected;
                  actions = actions;
                })
                (append_assoc c.actions (connection_cb ∷ []) (close_cb ∷ [])),
        f,
      )

      destroyed :
          (d : TcpConnection) → Silenced all d → Returns (Over c all) (connection_destroyed d)
      destroyed d (q, is, f) =
          subst (λ d. Returns (Over c all) (connection_destroyed d)) (sym is)
            (Returns-assert q.in_loop_thread f.holds.loop_thread (removed-Over q all f))

  -- connectionDestroyed, on a connected connection whose channel is registered in a poller that is
  -- in order and may be removed, fails no assertion: the connection is disconnected, connectionCB
  -- was called once, the kernel does not watch the descriptor, which is free in the poller, and the
  -- poller is in order.
  pub connection_destroyed-Over :
      c.state ≡ cconnected
      → Returns (Over c (c.actions ++ connection_cb ∷ [])) (connection_destroyed c)
  unfolding connection_destroyed disconnect
  connection_destroyed-Over is =
      let told = c.actions ++ connection_cb ∷ [] in
      Returns-assert c.poller.in_loop_thread h.loop_thread (
        subst
          (λ s.
            Returns (Over c told)
              ((if is_connected s then disconnect c else ok c) >>= on_channel remove))
          (sym is)
          (Returns-bind
            (Returns-bind silence (λ d s. returns (Silenced-act (connection_cb ∷ []) d s)))
            (Silenced-Over told)))
