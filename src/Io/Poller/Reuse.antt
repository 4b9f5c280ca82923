-- ===== src/Io/Poller/Reuse.antt =====
-- imputio/src/io/epoll.rs: two listeners that are registered under the same number.
-- `push_token_entry` drops the `mio` listener at its end, which closes that descriptor of the first
-- one, so that the system may give its number to the next.
use toy_io.Common.{ℕ, ◌≡◌, refl, ◌∙◌, ap, Option, none, some, [], ◌∷◌, arith}
use toy_io.Common.Dict.{lookup, insert, lookup-insert}
use toy_io.Io.{Result}
use toy_io.Io.Crates.{Mio, Slab}
use toy_io.Io.Poller.{
  Operation, registration_tcp_add, Poller, register, add_token, add_tcp, push_token_entry, deliver,
}

module _ (m : Mio) (Notifier : Type 0) (slab : Slab (Operation m Notifier)) where
  -- The poller after the first registration, and after that of a second listener with this clone.
  abbrev first :
      Poller m Notifier slab
      → m.Listener
      → m.Listener
      → m.Interest
      → Notifier
      → Poller m Notifier slab
  first p l clone i notify =
      (register m Notifier slab
        (add_token m Notifier slab p (m.as_raw_fd l) (some notify)
          (registration_tcp_add clone i (some notify)))
        (m.as_raw_fd l) (slab.vacant p.tokens)).0

  push_fresh :
      (p : Poller m Notifier slab) (l clone : m.Listener) (i : m.Interest) (notify : Notifier)
      → lookup (m.as_raw_fd l) p.event_src_ids ≡ none
      → m.try_clone l ≡ some clone
      → (r : Result (Unit {0})) × (push_token_entry m Notifier slab p
            (registration_tcp_add l i (some notify))
          ≡ some (first p l clone i notify, r))
  unfolding push_token_entry add_tcp register
  push_fresh p l clone i notify fresh c =
      let op : Operation m Notifier = registration_tcp_add clone i (some notify) in
      let added = add_token m Notifier slab p (m.as_raw_fd l) (some notify) op in
      (
        (register m Notifier slab added (m.as_raw_fd l) (slab.vacant p.tokens)).1,
        rw (push_token_entry, fresh, c, add_tcp) refl,
      )

  push_known :
      (p : Poller m Notifier slab) (l clone : m.Listener) (i : m.Interest)
      (notify : Option Notifier) (id : ℕ) (existing : Option Notifier) (old : Operation m Notifier)
      → lookup (m.as_raw_fd l) p.event_src_ids ≡ some (id, existing)
      → slab.get p.tokens id ≡ some old
      → m.try_clone l ≡ some clone
      → (p' : Poller m Notifier slab) × (r : Result (Unit {0})) × (push_token_entry m Notifier slab
            p
            (registration_tcp_add l i notify)
          ≡ some (p', r))
        × (p'.tokens ≡ slab.assign p.tokens id (registration_tcp_add clone i existing))
  unfolding push_token_entry add_tcp register
  push_known p l clone i notify id existing old known held c =
      let op : Operation m Notifier = registration_tcp_add clone i existing in
      let (p', r) =
        register m Notifier slab (record p { tokens = slab.assign p.tokens id op }) (m.as_raw_fd l)
          id in
      (p', r, rw (push_token_entry, known, held, c, add_tcp) refl, refl)

  -- A second listener under the number of the first takes its place: when a listener is registered
  -- with a notifier, and then another one with the same number and a notifier of its own, neither
  -- call panics, the table holds the second listener and no longer the first, and an event at that
  -- key goes to the notifier of the first registration.
  pub same_number_misdirects :
      (p : Poller m Notifier slab) (l l' clone clone' : m.Listener) (i i' : m.Interest)
      (notify notify' : Notifier) (event : m.Event)
      → lookup (m.as_raw_fd l) p.event_src_ids ≡ none
      → m.as_raw_fd l' ≡ m.as_raw_fd l
      → m.try_clone l ≡ some clone
      → m.try_clone l' ≡ some clone'
      → m.token event ≡ slab.vacant p.tokens
      → (p₁ : Poller m Notifier slab) × (r₁ : Result (Unit {0})) × (p₂ : Poller m Notifier slab)
        × (r₂ : Result (Unit {0})) × (push_token_entry m Notifier slab p
              (registration_tcp_add l i (some notify))
            ≡ some (p₁, r₁))
        × (push_token_entry m Notifier slab p₁ (registration_tcp_add l' i' (some notify'))
            ≡ some (p₂, r₂))
        × (slab.get p₂.tokens (slab.vacant p.tokens)
            ≡ some (registration_tcp_add clone' i' (some notify)))
        × (deliver m Notifier slab event (slab.get p₂.tokens (m.token event))
            ≡ some ((notify, event) ∷ []))
  unfolding deliver add_token register
  same_number_misdirects p l l' clone clone' i i' notify notify' event fresh number c c' key =
      let (r₁, pushed) = push_fresh p l clone i notify fresh c in
      let id = slab.vacant p.tokens in
      let op : Operation m Notifier = registration_tcp_add clone i (some notify) in
      let held : slab.get (slab.insert p.tokens op) id ≡ some op =
        slab.get-insert p.tokens op id ∙ (ground arith) in
      let known : lookup (m.as_raw_fd l') (insert (m.as_raw_fd l) (id, some notify) p.event_src_ids)
          ≡ some (id, some notify) =
        lookup-insert (m.as_raw_fd l') (m.as_raw_fd l) (id, some notify) p.event_src_ids
        ∙ (ground (arith, number)) in
      let (p₂, r₂, pushed', tokens) =
        push_known (first p l clone i notify) l' clone' i' (some notify') id (some notify) op known
          held c' in
      let now : slab.get p₂.tokens id ≡ some (registration_tcp_add clone' i' (some notify)) =
        ap (λ t. slab.get t id) tokens
        ∙ slab.get-assign (slab.insert p.tokens op) id
            (registration_tcp_add clone' i' (some notify)) op id held
        ∙ (ground arith) in
      (
        first p l clone i notify,
        r₁,
        p₂,
        r₂,
        pushed,
        pushed',
        now,
        ap (deliver m Notifier slab event) (ap (slab.get p₂.tokens) key ∙ now),
      )
