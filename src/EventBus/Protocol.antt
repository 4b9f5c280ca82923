-- ===== src/EventBus/Protocol.antt =====
-- imputio-utils/src/event_bus.rs, the types at its top: the errors, the messages that the handles
-- send to the actor, and what the actor answers. `R` is the type of reply senders
-- (`flume::Sender`), which the actor only passes a value to.
use Prim.Native.String.{String}
use toy_io.Common.{ℕ, List, Option}

pub data EventBusError : Type 0 where
  resource_exhaustion channel_send_error channel_rcv_error : EventBusError
  actor_error handle_error : String → EventBusError

-- `std::result::Result<T, EventBusError>`
pub data Result {ℓ} (A : Type ℓ) : Type ℓ where
  ok : A → Result A
  err : EventBusError → Result A

-- `u32` identifiers; 0 is the identifier of a handle that is not subscribed.
abbrev pub SubId : Type 0
SubId = ℕ

abbrev pub null_subid : SubId
null_subid = 0

pub data EventBusMessage (T R : Type 0) : Type 0 where
  subscribe : R → EventBusMessage T R
  unsubscribe : SubId → EventBusMessage T R
  push_event : T → R → EventBusMessage T R
  poll : SubId → R → EventBusMessage T R
  batch_poll : SubId → R → EventBusMessage T R
  clean_up_bg_task : EventBusMessage T R

-- The value that goes into a reply sender, one constructor for each type of reply.
pub data Answer (T : Type 0) : Type 0 where
  subscribed : Result SubId → Answer T
  pushed : Result (Unit {0}) → Answer T
  polled : Result (Option T) → Answer T
  batch_polled : Result (List T) → Answer T
