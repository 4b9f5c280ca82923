-- ===== src/Api/Samples.antt =====
-- imputio/src/lib.rs: executors that handle each message at once, for the tests.
use toy_io.Common.{
  ℕ, ◌≡◌, refl, ◌<◌, ap, Bool, true, false, Option, none, some, List, [], ◌∷◌, ◌++◌, arith,
}
use toy_io.Flume.{Link}
use toy_io.Task.{Poll, pending, low}
use toy_io.Io.{IoOp}
use toy_io.Io.Poller.Samples.{Op}
use toy_io.Executor.Protocol.{Transaction, Turn}
use toy_io.Executor.Protocol
use toy_io.Executor.{Executor, handle}
use toy_io.Coordinator.{ExecHandleCoordinator}
use toy_io.Coordinator.Turns.{IsValid}
use toy_io.Api.Channels.{IsIoChannel, IsExecuted}

-- The channel of an I/O actor: what waits, or `none` when the actor is gone.
abbrev pub Inbox : Type 0
Inbox = Option (List (IoOp Op))

abbrev pub send : Inbox → IoOp Op → Option Inbox
send none msg = none
send (some msgs) msg = some (some (msgs ++ msg ∷ []))

abbrev pub waiting : Inbox → List (IoOp Op)
waiting none = []
waiting (some msgs) = msgs

abbrev pub is_there : Inbox → Bool
is_there none = false
is_there (some msgs) = true

pub send-alive :
    (n : Inbox) (msg : IoOp Op)
    → is_there n ≡ true
    → (n' : Inbox) × (send n msg ≡ some n')
      × (is_there n' ≡ true)
      × (waiting n' ≡ waiting n ++ msg ∷ [])
send-alive none msg e = cc
send-alive (some msgs) msg e = (some (msgs ++ msg ∷ []), refl, refl, refl)

pub send-gone : (n : Inbox) (msg : IoOp Op) → is_there n ≡ false → send n msg ≡ none
send-gone none msg e = refl
send-gone (some msgs) msg e = cc

abbrev pub io_channel : IsIoChannel send
io_channel = record {
  messages = waiting;
  alive = is_there;
  send-alive = send-alive;
  send-gone = send-gone;
}

-- An executor that handles each message at once, and the last reply.
pub record Local : Type 0 where
  pub executor : Option (Executor ℕ Inbox)
  pub reply : Option (Protocol.Result (Unit {0}))

abbrev pub Message : Type 0
Message = Transaction ℕ Op ℕ

-- The futures stay pending.
abbrev pub never : Bool → ℕ → ℕ × Poll (Unit {0})
never env f = (f, pending)

abbrev pub a_turn : Turn Bool ℕ Op ℕ
a_turn = record { event = none; env = true; coin = true; shutdown = false }

abbrev pub handled : Option (Executor ℕ Inbox × List (ℕ × Protocol.Result (Unit {0}))) → Local
handled none = record { executor = none; reply = none }
handled (some (ex, [])) = record { executor = some ex; reply = none }
handled (some (ex, (_, r) ∷ _)) = record { executor = some ex; reply = some r }

abbrev pub local_send : Local → Message → Option Local
local_send net msg = elim net.executor [
  | none ↦ none
  | some ex ↦ some (handled (handle true false never send a_turn ex (some msg)))
]

abbrev pub local : Link Message ℕ (Protocol.Result (Unit {0}))
local = record {
  Net = Local;
  bounded = λ net. (0, record net { reply = none });
  send = local_send;
  recv = λ net r. (net, net.reply);
}

pub send-handled :
    (net : Local) (ex ex' : Executor ℕ Inbox) (turn : Turn Bool ℕ Op ℕ) (op : Op) (reply : ℕ)
    (r : Protocol.Result (Unit {0}))
    → net.executor ≡ some ex
    → handle true false never send turn ex (some (Transaction.submit_io_op op reply))
      ≡ some (ex', (reply, r) ∷ [])
    → (net₁ net₂ : Local) × (local_send net (Transaction.submit_io_op op reply) ≡ some net₁)
      × (◌≡◌ {A = Local × Option (Protocol.Result (Unit {0}))} (net₁, net₁.reply) (net₂, some r))
      × (net₂.executor ≡ some ex')
unfolding handle
send-handled net ex ex' turn op reply r here e =
    let last : Local = record { executor = some ex'; reply = some r } in
    (last, last, rw (here, ap (λ o. some (handled o)) e) refl, refl, refl)

abbrev pub local_executed : IsExecuted local false never send
local_executed = record {
  executor = λ net. net.executor;
  bounded-executor = λ net. refl;
  send-handled = send-handled;
  send-gone = λ net msg e. rw e refl;
  recv-gone = λ net e. (record net { reply = none }, refl, e);
}

abbrev pub executor_with : Inbox → Executor ℕ Inbox
executor_with inbox = record {
  tasks = [] ∷ [] ∷ [] ∷ (record { future = 4; priority = low } ∷ []) ∷ [] ∷ [];
  poll_handle = inbox;
  parking = none;
}

abbrev pub handle_to : Option (Executor ℕ Inbox) → Local
handle_to ex = record { executor = ex; reply = none }

abbrev pub good : Local
good = handle_to (some (executor_with (some [])))

-- The executor of the first handle is gone, and so is the I/O actor of the last one.
abbrev pub three_handles : ℕ → ExecHandleCoordinator Local
three_handles index = record {
  handles = handle_to none ∷ good ∷ handle_to (some (executor_with none)) ∷ [];
  index = index;
  shutdown = false;
}

pub three_handles-IsValid : (index : ℕ) → index < 3 → IsValid (three_handles index)
three_handles-IsValid index h = record { inside = h; fits = omega arith }
