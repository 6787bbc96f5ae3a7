-- ===== src/Net/Connection/Transfer/Writing.antt =====
-- What sendInLoop and handleWrite send.
use reactor_server.Prelude.{
  ℕ, suc, ◌+◌, ◌-◌, ◌*◌, ◌≤◌, ◌≡◌, refl, ap, ◌∙◌, sym, subst, Bool, true, false, List, [], ◌∷◌,
  ◌++◌, append-nil, length, none, arith, Run, ok, fault, Returns, returns, Returns-assert,
  Returns-map, Returns-inv, assert-true, leb, if◌then◌else◌, ◌>>=◌,
}
use reactor_server.Prelude.Bytes.{Bytes}
use reactor_server.Net.Channel.{cnew, both, either, write_event}
use reactor_server.Net.Poller.{Poller, is_cnew}
use reactor_server.Net.Poller.Registration.{Holds}
use reactor_server.Net.Poller.Changes.{change-Changed}
use reactor_server.Net.Connection.{
  TcpConnection, Action, sent, write_complete_cb, is_disconnecting, act, shutdown_in_loop,
}
use reactor_server.Net.Connection.Transfer.{
  WriteResult, wrote, write_again, finish_write, handle_write, handle_write_loop, send_in_loop,
  try_send, save_rest, copy_to, bytes_at, writing,
}

-- sendInLoop, on a connection whose channel is registered in a poller that is in order and does not
-- wait for a write, where the socket takes nothing now, reads memory in front of the data.
pub send_in_loop-again :
    (c : TcpConnection) (buf : Bytes)
    → Holds c.poller
    → is_cnew (c.poller.objects c.channel).status ≡ false
    → writing c ≡ false
    → send_in_loop write_again buf c ≡ fault
unfolding send_in_loop try_send save_rest
send_in_loop-again c buf h old w =
    let (q, is, f) = Returns-inv (
      change-Changed (λ e. either e write_event) c.poller c.channel h
        (λ e. absurd (ground (arith, sym (ap is_cnew e) ∙ old)))) in
    assert-true c.poller.in_loop_thread h.loop_thread ∙ rw (w, is)

-- What a completed write calls.
abbrev pub completed : Bool → List Action
completed true = write_complete_cb ∷ []
completed false = []

-- The connection behind a write that was taken as complete.
pub record Finished (c d : TcpConnection) : Type 0 where
  pub buffer_empty : d.write_idx ≡ 0
  pub actions_are : d.actions ≡ c.actions ++ completed c.has_write_complete_cb

module _ (c : TcpConnection) (h : Holds c.poller)
    (old : is_cnew (c.poller.objects c.channel).status ≡ false)
    (stays : is_disconnecting c.state ≡ false) where
  free :
      (c.poller.objects c.channel).status ≡ cnew
      → c.poller.channels (c.poller.objects c.channel).fd ≡ none
  free e = absurd (ground (arith, sym (ap is_cnew e) ∙ old))

  abbrev told : Bool → TcpConnection → TcpConnection
  told b d = if b then act d write_complete_cb else d

  abbrev ended : TcpConnection → Run TcpConnection
  ended d = (if is_disconnecting d.state then shutdown_in_loop d else ok d) >>= λ done.
      ok (record done { write_idx = 0; write_buf = λ k. 0 })

  abbrev Done : Bool → TcpConnection → Type 0
  Done b d = (d.write_idx ≡ 0) × (d.actions ≡ c.actions ++ completed b)

  ended-Finished :
      (b : Bool) (q : Poller) → Returns (Done b) (ended (told b (record c { poller = q })))
  ended-Finished true q =
      let d : TcpConnection = act (record c { poller = q }) write_complete_cb in
      subst
        (λ b. Returns (Done true) (
          (if b then shutdown_in_loop d else ok d) >>= λ done.
          ok (record done { write_idx = 0; write_buf = λ k. 0 })))
        (sym stays) (returns (refl, refl))
  ended-Finished false q =
      let d : TcpConnection = record c { poller = q } in
      subst
        (λ b. Returns (Done false) (
          (if b then shutdown_in_loop d else ok d) >>= λ done.
          ok (record done { write_idx = 0; write_buf = λ k. 0 })))
        (sym stays) (returns (refl, sym (append-nil c.actions)))

  finish_write-Finished : Returns (Finished c) (finish_write c)
  unfolding finish_write
  finish_write-Finished =
      let (q, is, f) =
        Returns-inv (change-Changed (λ e. both e write_event) c.poller c.channel h free) in
      rw is (
        Returns-map (λ d r. record { buffer_empty = r.0; actions_are = r.1 })
          (ended-Finished c.has_write_complete_cb q))

-- handleWrite takes a write as complete as soon as no more bytes are left than it has sent.
module _ (c : TcpConnection) (h : Holds c.poller)
    (old : is_cnew (c.poller.objects c.channel).status ≡ false)
    (stays : is_disconnecting c.state ≡ false) (waits : writing c ≡ true) where
  -- handleWrite, on a connection that is not disconnecting and whose channel is registered in a
  -- poller that is in order and waits for a write, takes the write as complete where the socket
  -- takes at least half of the buffer, whatever is left: the buffer is empty and writeCompleteCB
  -- was queued if it is set.
  pub handle_write-Finished :
      (n : ℕ) (answers : List WriteResult)
      → c.write_idx ≤ 2 * suc n
      → Returns
          (Finished (act c (sent (bytes_at c.write_buf 0 (suc n)))))
          (handle_write (wrote (suc n) ∷ answers) c)
  unfolding handle_write handle_write_loop
  handle_write-Finished n answers half =
      let test : leb (c.write_idx - suc n) (0 + suc n) ≡ true = ground (arith, half) in
      Returns-assert c.poller.in_loop_thread h.loop_thread (
        rw (waits, test)
          (finish_write-Finished (act c (sent (bytes_at c.write_buf 0 (suc n)))) h old stays))

module _ (c : TcpConnection) (s t : Bytes) (b : ℕ) where
  abbrev rest : Bytes
  rest = b ∷ t

  -- The connection that keeps what the socket did not take.
  abbrev keeping : TcpConnection
  keeping = record c {
    actions = c.actions ++ sent s ∷ [];
    write_buf = copy_to c.write_buf c.write_idx rest;
    write_idx = c.write_idx + (length (s ++ rest) - length s);
  }
