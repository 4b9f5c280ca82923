-- ===== src/Io/Poller.antt =====
-- imputio/src/io/epoll.rs: `Operation` and `Poller`. `Notifier` is the type of the senders that
-- users give (`flume::Sender<Event>`). The result `none` is a panic.
pub mod Keys
pub mod Ids
pub mod Faults
pub mod Reuse
pub mod Modified
pub mod Samples
mod Tests
use toy_io.Common.{ℕ, Bool, true, false, Option, none, some, List, [], ◌∷◌, ◌++◌, if◌then◌else◌}
use toy_io.Common.Dict.{Dict, lookup, insert}
use toy_io.Io.{Result, ok, err, io_error}
use toy_io.Io.Crates.{Mio, Slab}

pub data Operation (m : Mio) (Notifier : Type 0) : Type 0 where
  registration_fd_add : ℕ → m.Interest → Option Notifier → Operation m Notifier
  registration_tcp_add : m.Listener → m.Interest → Option Notifier → Operation m Notifier
  modify_registration : ℕ → m.Interest → Option Notifier → Operation m Notifier
  delete_registration : ℕ → Operation m Notifier

module _ (m : Mio) (Notifier : Type 0) (slab : Slab (Operation m Notifier)) where
  abbrev pub rw_interests : m.Interest
  rw_interests = m.add (m.add m.readable m.writable) m.priority

  -- `id` is the thread's, for the log.
  pub record Poller : Type 0 where
    pub registry : m.Registry
    pub events : List m.Event
    pub event_src_ids : Dict (ℕ × Option Notifier)
    pub tokens : slab.S
    pub id : ℕ

  unfoldable pub new : m.Registry → ℕ → Poller
  new registry id = record {
    registry = registry;
    events = [];
    event_src_ids = [];
    tokens = slab.empty;
    id = id;
  }

  unfoldable pub set_id : Poller → ℕ → Poller
  set_id p id = record p { id = id }

  abbrev checked : Bool → Result (Unit {0})
  checked true = ok tt
  checked false = err io_error

  -- `register(..)?`, the last step of a registration: always with `RW_INTERESTS`.
  unfoldable pub register : Poller → ℕ → ℕ → Poller × Result (Unit {0})
  register p fd id =
      let (registry, success) = m.register p.registry fd id rw_interests in
      (record p { registry = registry }, checked success)

  -- `self.tokens[id] = op`, which panics if there is no such key.
  unfoldable pub set_token : Poller → ℕ → Operation m Notifier → Option Poller
  set_token p id op = elim (slab.get p.tokens id) [
    | none ↦ none
    | some _ ↦ some (record p { tokens = slab.assign p.tokens id op })
  ]

  -- A new entry: the map gets `known` for the notifier, the table gets `op`.
  unfoldable pub add_token : Poller → ℕ → Option Notifier → Operation m Notifier → Poller
  add_token p fd known op = record p {
    event_src_ids = insert fd (slab.vacant p.tokens, known) p.event_src_ids;
    tokens = slab.insert p.tokens op;
  }

  unfoldable pub add_fd :
      Poller
      → ℕ
      → m.Interest
      → Option Notifier
      → Option (ℕ × Option Notifier)
      → Option (Poller × Result (Unit {0}))
  add_fd p fd interest notify (some (id, existing)) =
      elim (set_token p id (registration_fd_add fd interest existing)) [
        | none ↦ none
        | some p' ↦ some (register p' fd id)
      ]
  add_fd p fd interest notify none =
      let p' = add_token p fd none (registration_fd_add fd interest notify) in
      some (register p' fd (slab.vacant p.tokens))

  -- `if let Some(notify) = notify { self.event_src_ids.insert(fd, (id, Some(notify))); }`
  unfoldable pub remember : Poller → ℕ → ℕ → Option Notifier → Poller
  remember p fd id none = p
  remember p fd id (some notify) = record p {
    event_src_ids = insert fd (id, some notify) p.event_src_ids;
  }

  unfoldable pub modify :
      Poller
      → ℕ
      → m.Interest
      → Option Notifier
      → Option (ℕ × Option Notifier)
      → Option (Poller × Result (Unit {0}))
  modify p fd interest notify (some (id, existing)) =
      elim (set_token p id (modify_registration fd interest existing)) [
        | none ↦ none
        | some p' ↦ some (remember p' fd id notify, ok tt)
      ]
  modify p fd interest notify none =
      let p' = add_token p fd none (modify_registration fd interest notify) in
      some (remember p' fd (slab.vacant p.tokens) notify, ok tt)

  -- A listener is stored as a clone. If that fails the call ends (`try_clone()?`): in the second
  -- case the map has its new entry by then, and the table has not.
  unfoldable pub add_tcp :
      Poller
      → m.Listener
      → m.Interest
      → Option Notifier
      → Option (ℕ × Option Notifier)
      → Option m.Listener
      → Option (Poller × Result (Unit {0}))
  add_tcp p fd interest notify (some (id, existing)) clone = elim (slab.get p.tokens id) [
    | none ↦ none
    | some _ ↦ elim clone [
      | none ↦ some (p, err io_error)
      | some fd' ↦
          let tokens = slab.assign p.tokens id (registration_tcp_add fd' interest existing) in
          some (register (record p { tokens = tokens }) (m.as_raw_fd fd) id)
    ]
  ]
  add_tcp p fd interest notify none none = some (
    record p {
      event_src_ids = insert (m.as_raw_fd fd) (slab.vacant p.tokens, notify) p.event_src_ids;
    },
    err io_error,
  )
  add_tcp p fd interest notify none (some fd') =
      let p' = add_token p (m.as_raw_fd fd) notify (registration_tcp_add fd' interest notify) in
      some (register p' (m.as_raw_fd fd) (slab.vacant p.tokens))

  unfoldable pub push_token_entry :
      Poller → Operation m Notifier → Option (Poller × Result (Unit {0}))
  unfolding add_fd modify add_tcp
  push_token_entry p (registration_fd_add fd interest notify) =
      add_fd p fd interest notify (lookup fd p.event_src_ids)
  push_token_entry p (modify_registration fd interest notify) =
      modify p fd interest notify (lookup fd p.event_src_ids)
  push_token_entry p (delete_registration fd) = none
  push_token_entry p (registration_tcp_add fd interest notify) =
      add_tcp p fd interest notify (lookup (m.as_raw_fd fd) p.event_src_ids) (m.try_clone fd)

  abbrev notices : Option Notifier → m.Event → List (Notifier × m.Event)
  notices none event = []
  notices (some notify) event = (notify, event) ∷ []

  -- What one event sends, by the operation at its token. An error of a notifier is logged only.
  unfoldable pub deliver :
      m.Event → Option (Operation m Notifier) → Option (List (Notifier × m.Event))
  deliver event none = some []
  deliver event (some (registration_fd_add fd interest notify)) = some (notices notify event)
  deliver event (some (registration_tcp_add fd interest notify)) = some (notices notify event)
  deliver event (some (modify_registration fd interest notify)) = none
  deliver event (some (delete_registration fd)) = none

  unfoldable pub deliver_all : slab.S → List m.Event → Option (List (Notifier × m.Event))
  unfolding deliver
  deliver_all tokens [] = some []
  deliver_all tokens (event ∷ events) = elim (deliver event (slab.get tokens (m.token event))) [
    | none ↦ none
    | some sent ↦ elim (deliver_all tokens events) [ none ↦ none | some rest ↦ some (sent ++ rest) ]
  ]

  -- The new state, the result, and what is sent to which notifier.
  unfoldable pub poll : Poller → Option (Poller × Result (Unit {0}) × List (Notifier × m.Event))
  unfolding deliver_all
  poll p =
      let (registry, result) = m.poll p.registry in
      elim result [
        | none ↦ some (record p { registry = registry }, err io_error, [])
        | some events ↦ elim (deliver_all p.tokens events) [
          | none ↦ none
          | some sent ↦ some (record p { registry = registry; events = events }, ok tt, sent)
        ]
      ]
