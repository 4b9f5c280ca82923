-- ===== src/Io/Actor/Start.antt =====
-- imputio/src/io/mod.rs: `PollHandle::initialize` and `PollerActor::new`. The channel and the flag
-- are what flume and the caller give; `None` of `new_poll` is an error of `mio::Poll::new`.
use toy_io.Common.{ℕ, ◌≡◌, refl, Option, none, some, List}
use toy_io.Io.{Result, ok, err, io_error}
use toy_io.Io.Crates.{Mio, Slab}
use toy_io.Io.Poller.{Operation, Poller}
use toy_io.Io.Poller
use toy_io.Io.Poller.Ids.{new-IsValid}
use toy_io.Io.Actor.{Turn, run}
use toy_io.Io.Actor.Safety.{AllAllowed, IsSafe, run-IsSafe}

module _ (m : Mio) (Notifier : Type 0) (slab : Slab (Operation m Notifier)) where
  pub record PollerActor (Rx Flag : Type 0) : Type 0 where
    pub receiver : Rx
    pub poller : Poller m Notifier slab
    pub shutdown : Flag
    pub parking : Option ℕ

  -- `Poller::new`; `id` is the identifier of the calling thread.
  unfoldable pub new_poller : Option m.Registry → ℕ → Result (Poller m Notifier slab)
  new_poller none id = err io_error
  new_poller (some registry) id = ok (Poller.new m Notifier slab registry id)

  new-IsSafe :
      (registry : m.Registry) (id : ℕ)
      → IsSafe m Notifier slab (Poller.new m Notifier slab registry id)
  unfolding Poller.new
  new-IsSafe registry id = record {
    valid = new-IsValid m Notifier slab registry id;
    plain = λ k. rw (slab.get-empty k) tt;
  }

  module _ {Rx Flag : Type 0} where
    abbrev with_poller :
        Rx → Flag → Option ℕ → Result (Poller m Notifier slab) → Result (PollerActor Rx Flag)
    with_poller receiver shutdown parking (err e) = err e
    with_poller receiver shutdown parking (ok poller) =
        ok (record { receiver = receiver; poller = poller; shutdown = shutdown; parking = parking })

    unfoldable pub new : Rx → Flag → Option m.Registry → ℕ → Option ℕ → Result (PollerActor Rx Flag)
    unfolding new_poller
    new receiver shutdown new_poll id parking =
        with_poller receiver shutdown parking (new_poller new_poll id)

    abbrev with_handle :
        {Tx : Type 0} → Tx → Result (PollerActor Rx Flag) → Result (PollerActor Rx Flag × Tx)
    with_handle tx (err e) = err e
    with_handle tx (ok actor) = ok (actor, tx)

    -- `PollHandle::initialize`, with the two ends of the channel that flume makes. A handle is the
    -- end that sends.
    unfoldable pub initialize :
        {Tx : Type 0}
        → Tx × Rx
        → Option m.Registry
        → ℕ
        → Flag
        → Option ℕ
        → Result (PollerActor Rx Flag × Tx)
    unfolding new
    initialize (tx, rx) new_poll id shutdown parking =
        with_handle tx (new rx shutdown new_poll id parking)

    -- The actor that `initialize` makes never panics, with registrations whose listeners can be
    -- cloned and polls only; without a `Poll` of mio there is an I/O error and no actor.
    pub initialize_lem :
        {Tx : Type 0} (tx : Tx) (rx : Rx) (registry : m.Registry) (id thread : ℕ) (shutdown : Flag)
        (parking : Option ℕ) (turns : List (Turn (Operation m Notifier)))
        → AllAllowed m Notifier slab turns
        → (actor : PollerActor Rx Flag) × (initialize (tx, rx) (some registry) id shutdown parking
            ≡ ok (actor, tx))
          × (initialize (tx, rx) none id shutdown parking ≡ err io_error)
          × (p' : Poller m Notifier slab) × (sent : List (Notifier × m.Event)) × (run m Notifier
                slab thread actor.poller turns
              ≡ some (p', sent))
    unfolding initialize
    initialize_lem tx rx registry id thread shutdown parking turns a =
        let poller = Poller.new m Notifier slab registry id in
        let (p', sent, e, _) =
          run-IsSafe m Notifier slab turns thread poller a (new-IsSafe registry id) in
        (
          record { receiver = rx; poller = poller; shutdown = shutdown; parking = parking },
          refl,
          refl,
          p',
          sent,
          e,
        )
