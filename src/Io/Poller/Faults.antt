-- ===== src/Io/Poller/Faults.antt =====
-- imputio/src/io/epoll.rs: which events reach a notifier, and calls after which they do not, or
-- after which the poller panics.
use mathlib.Core.Option
use toy_io.Common.{
  ℕ, ◌≡◌, refl, ap, ◌∙◌, Option, none, some, List, [], ◌∷◌, arith, if◌then◌else◌, ◌==◌,
}
use toy_io.Common.Dict.{lookup, insert, lookup-insert}
use toy_io.Io.{Result, err, io_error}
use toy_io.Io.Crates.{Mio, Slab}
use toy_io.Io.Poller.{
  Operation, registration_fd_add, registration_tcp_add, Poller, register, set_token, add_token,
  add_fd, add_tcp, push_token_entry, deliver,
}

module _ (m : Mio) (Notifier : Type 0) (slab : Slab (Operation m Notifier)) where
  abbrev pub delivers : Poller m Notifier slab → m.Event → Option (List (Notifier × m.Event))
  delivers p event = deliver m Notifier slab event (slab.get p.tokens (m.token event))

  -- A descriptor that is registered for the first time, with a notifier: every event at its key is
  -- sent to that notifier, and an event at any other key is treated as before.
  pub add_fd_delivers :
      (p : Poller m Notifier slab) (fd : ℕ) (i : m.Interest) (notify : Notifier) (event : m.Event)
      → lookup fd p.event_src_ids ≡ none
      → (p' : Poller m Notifier slab) × (r : Result (Unit {0})) × (push_token_entry m Notifier slab
            p
            (registration_fd_add fd i (some notify))
          ≡ some (p', r))
        × (delivers p' event ≡ (
            if slab.vacant p.tokens == m.token event
            then some ((notify, event) ∷ [])
            else delivers p event))
  unfolding push_token_entry add_token register deliver
  add_fd_delivers p fd i notify event fresh =
      let key = slab.vacant p.tokens in
      let op : Operation m Notifier = registration_fd_add fd i (some notify) in
      let r = register m Notifier slab (add_token m Notifier slab p fd none op) fd key in
      (
        r.0,
        r.1,
        rw fresh refl,
        ap (deliver m Notifier slab event) (slab.get-insert p.tokens op (m.token event))
            ∙ (ground arith),
      )

  -- What mio sees of a call's result, and what the caller gets.
  abbrev pub seen : Poller m Notifier slab × Result (Unit {0}) → m.Registry × Result (Unit {0})
  seen (p, r) = (p.registry, r)

  -- The interest that the user gives is not used: whatever it is, mio gets the same call.
  pub interest_ignored :
      (p : Poller m Notifier slab) (fd : ℕ) (i i' : m.Interest) (notify : Option Notifier)
      → Option.map seen (push_token_entry m Notifier slab p (registration_fd_add fd i notify))
        ≡ Option.map seen (push_token_entry m Notifier slab p (registration_fd_add fd i' notify))
  unfolding push_token_entry add_fd add_token register set_token
  interest_ignored p fd i i' notify = ground arith

  -- A listener that cannot be cloned leaves its descriptor in the map with a key that the table
  -- lacks. The next registration of that descriptor panics.
  pub clone_failure_panics :
      (p : Poller m Notifier slab) (fd : m.Listener) (i i' : m.Interest) (n n' : Option Notifier)
      → lookup (m.as_raw_fd fd) p.event_src_ids ≡ none
      → m.try_clone fd ≡ none
      → (p' : Poller m Notifier slab) × (push_token_entry m Notifier slab p
            (registration_tcp_add fd i n)
          ≡ some (p', err io_error))
        × (push_token_entry m Notifier slab p' (registration_fd_add (m.as_raw_fd fd) i' n') ≡ none)
  unfolding push_token_entry add_tcp add_fd set_token
  clone_failure_panics p fd i i' n n' fresh stuck =
      let raw = m.as_raw_fd fd in
      let key = slab.vacant p.tokens in
      let p' = record p { event_src_ids = insert raw (key, n) p.event_src_ids } in
      let entry : lookup raw p'.event_src_ids ≡ some (key, n) =
        lookup-insert raw raw (key, n) p.event_src_ids ∙ (ground arith) in
      (p', rw (fresh, stuck) refl, rw (entry, add_fd, set_token, slab.get-vacant p.tokens) refl)

  -- Registering a descriptor again silences it: the first registration of a descriptor does not
  -- record its notifier in the map, and the second one takes the notifier from there. So after two
  -- registrations, each with a notifier, the events at the descriptor's key are sent to nobody.
  pub add_fd_again_silences :
      (p : Poller m Notifier slab) (fd : ℕ) (i i' : m.Interest) (notify notify' : Notifier)
      (event : m.Event)
      → lookup fd p.event_src_ids ≡ none
      → m.token event ≡ slab.vacant p.tokens
      → (p₁ p₂ : Poller m Notifier slab) × (r₁ r₂ : Result (Unit {0})) × (push_token_entry m
            Notifier slab p
            (registration_fd_add fd i (some notify))
          ≡ some (p₁, r₁))
        × (push_token_entry m Notifier slab p₁ (registration_fd_add fd i' (some notify'))
            ≡ some (p₂, r₂))
        × (delivers p₁ event ≡ some ((notify, event) ∷ []))
        × (delivers p₂ event ≡ some [])
  unfolding push_token_entry add_token register set_token deliver add_fd
  add_fd_again_silences p fd i i' notify notify' event fresh at =
      let key = slab.vacant p.tokens in
      let op : Operation m Notifier = registration_fd_add fd i (some notify) in
      let op' : Operation m Notifier = registration_fd_add fd i' none in
      let r = register m Notifier slab (add_token m Notifier slab p fd none op) fd key in
      let entry : lookup fd r.0.event_src_ids ≡ some (key, none) =
        lookup-insert fd fd (key, none) p.event_src_ids ∙ (ground arith) in
      let known : slab.get r.0.tokens key ≡ some op =
        slab.get-insert p.tokens op key ∙ (ground arith) in
      let p₂ = record r.0 { tokens = slab.assign r.0.tokens key op' } in
      let last = register m Notifier slab p₂ fd key in
      (
        r.0,
        last.0,
        r.1,
        last.1,
        rw fresh refl,
        rw (entry, add_fd, set_token, known) refl,
        rw (at, known) refl,
        rw at (
            ap (deliver m Notifier slab event) (slab.get-assign r.0.tokens key op' op key known)
            ∙ (ground arith)),
      )
