-- ===== src/EventBus/Samples.antt =====
-- imputio-utils/src/event_bus.rs: a channel to an actor of the bus, for the tests.
use toy_io.Common.{ℕ, suc, ◌≡◌, refl, Bool, false, Option, none, some, List, [], ◌∷◌, arith}
use toy_io.Common.Dict.{lookup}
use toy_io.Flume.{Link, IsServed}
use toy_io.EventBus.Protocol.{EventBusMessage, Answer}
use toy_io.EventBus.Stale.{prefer}
use toy_io.EventBus.{EventBus, handle}

-- A channel that an actor serves at once: its state, the replies, and the next reply sender.
pub record Local (T : Type 0) : Type 0 where
  pub state : Option (EventBus T)
  pub replies : List (ℕ × Answer T)
  pub fresh : ℕ

module _ {T : Type 0} where
  abbrev pub local_send : Bool → Local T → EventBusMessage T ℕ → Option (Local T)
  local_send b net m = elim net.state [
    | none ↦ none
    | some bus ↦
        let (bus', out) = handle b (prefer 1) bus m in
        some (record net { state = some bus'; replies = out })
  ]

  abbrev pub local_for : Bool → Link (EventBusMessage T ℕ) ℕ (Answer T)
  local_for b = record {
    Net = Local T;
    bounded = λ net. (net.fresh, record net { fresh = suc net.fresh });
    send = local_send b;
    recv = λ net r. (net, lookup r net.replies);
  }

  abbrev pub local : Link (EventBusMessage T ℕ) ℕ (Answer T)
  local = local_for false

  pub local_recv :
      (r : ℕ) (a : Answer T) (net : Local T)
      → ◌≡◌ {A = Local T × Option (Answer T)} (net, lookup r ((r, a) ∷ [])) (net, some a)
  unfolding lookup
  local_recv r a net = ground arith

  abbrev pub served_for : (b : Bool) → IsServed (local_for b) (handle {T = T} {R = ℕ} b (prefer 1))
  served_for b = record {
    actor = λ net. net.state;
    bounded-actor = λ net. refl;
    send-gone = λ net m e. rw e refl;
    send-silent = λ net m s e h. (
      record net {
        state = some (handle b (prefer 1) s m).0;
        replies = (handle b (prefer 1) s m).1;
      },
      rw e refl,
      refl,
    );
    send-reply = λ net m s r a e h.
        let net' = record net { state = some (handle b (prefer 1) s m).0; replies = (r, a) ∷ [] } in
        (net', net', rw (e, h) refl, local_recv r a net', refl);
  }

  abbrev pub local_served : IsServed local (handle {T = T} {R = ℕ} false (prefer 1))
  local_served = served_for false
