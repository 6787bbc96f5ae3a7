-- ===== src/Net/Channel/Dispatch.antt =====
-- Which callbacks an event calls.
use reactor_server.Prelude.{
  ◌≡◌, refl, Bool, true, false, ◌&&◌, ◌||◌, not, List, [], ◌∷◌, ◌++◌, Bool-cases, inl, inr,
  if◌then◌else◌,
}
use reactor_server.Net.Channel.{
  Channel, Callback, close_cb, error_cb, read_cb, write_cb, Callbacks, handle_event,
  handle_event_with_guard,
}

-- The bits that ask for a callback.
abbrev pub asks : Channel → Callback → Bool
asks c close_cb = c.rcv_events.hang_up
asks c error_cb = c.rcv_events.error
asks c read_cb = c.rcv_events.input || c.rcv_events.priority
asks c write_cb = c.rcv_events.output

-- A callback is wanted if it is set, its bits were received, and a tied owner still lives.
abbrev pub wanted : Callbacks → Bool → Channel → Callback → Bool
wanted cbs alive c cb = (not c.tied || alive) && (asks c cb && cbs.has cb)

abbrev pub keep : (Callback → Bool) → List Callback → List Callback
keep test [] = []
keep test (cb ∷ rest) = if test cb then cb ∷ keep test rest else keep test rest

abbrev pub in_order : List Callback
in_order = close_cb ∷ error_cb ∷ read_cb ∷ write_cb ∷ []

keep-if :
    (x y z w : Bool)
    → (if x then close_cb ∷ [] else [])
        ++ ((if y then error_cb ∷ [] else [])
            ++ ((if z then read_cb ∷ [] else []) ++ (if w then write_cb ∷ [] else [])))
      ≡ keep (λ cb. elim cb [ close_cb ↦ x | error_cb ↦ y | read_cb ↦ z | write_cb ↦ w ]) in_order
keep-if true true true true = refl
keep-if true true true false = refl
keep-if true true false true = refl
keep-if true true false false = refl
keep-if true false true true = refl
keep-if true false true false = refl
keep-if true false false true = refl
keep-if true false false false = refl
keep-if false true true true = refl
keep-if false true true false = refl
keep-if false true false true = refl
keep-if false true false false = refl
keep-if false false true true = refl
keep-if false false true false = refl
keep-if false false false true = refl
keep-if false false false false = refl

-- handleEvent calls the callbacks that are set, whose bits were received, and whose tied owner is
-- alive, each once and no other, in the order close, error, read, write.
pub handle_event_lem :
    (cbs : Callbacks) (alive : Bool) (c : Channel)
    → handle_event cbs alive c ≡ keep (wanted cbs alive c) in_order
unfolding handle_event handle_event_with_guard
handle_event_lem cbs alive c = elim (Bool-cases c.tied) [
  | inl t ↦ live c.tied t alive
  | inr t ↦ rw t (keep-if _ _ _ _)
]
  where
    live :
        (b : Bool)
        → c.tied ≡ true
        → (a : Bool) → handle_event cbs a c ≡ keep (wanted cbs a c) in_order
    live b t true = rw t (keep-if _ _ _ _)
    live b t false = rw t
