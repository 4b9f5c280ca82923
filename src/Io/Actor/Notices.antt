-- ===== src/Io/Actor/Notices.antt =====
-- imputio/src/io/mod.rs and imputio/src/io/epoll.rs: the notices of a registration, from the
-- message to the I/O actor to the events of the next poll.
use mathlib.Core.List.{Memᴰ}
use mathlib.Core.List.Memᴰ
use toy_io.Common.{ℕ, ◌≡◌, refl, sym, ap, ◌∙◌, subst, false, none, some, List, [], ◌∷◌, ◌++◌, arith}
use toy_io.Common.Dict.{lookup}
use toy_io.Io.{IoOp}
use toy_io.Io.Crates.{Mio, Slab}
use toy_io.Io.Poller.{
  Operation, registration_fd_add, registration_tcp_add, Poller, register, add_token, add_fd,
  add_tcp, push_token_entry, deliver, deliver_all, rw_interests,
}
use toy_io.Io.Poller
use toy_io.Io.Actor.{Turn, handle, run_loop}
use toy_io.Io.Actor.Plain

module _ (m : Mio) (Notifier : Type 0) (slab : Slab (Operation m Notifier)) where
  -- The turns that receive these messages, none of which finds the flag set.
  abbrev pub turns_of : List (IoOp (Operation m Notifier)) → List (Turn (Operation m Notifier))
  turns_of [] = []
  turns_of (msg ∷ msgs) = record { event = some msg; shutdown = false } ∷ turns_of msgs

  -- With registrations only, what one event sends is sent.
  pub deliver_all-Memᴰ :
      (s : slab.S) (events : List m.Event) (event : m.Event) (x : Notifier × m.Event)
      (l : List (Notifier × m.Event))
      → Plain.Plain m Notifier slab s
      → Memᴰ event events
      → deliver m Notifier slab event (slab.get s (m.token event)) ≡ some l
      → Memᴰ x l
      → (sent : List (Notifier × m.Event)) × (deliver_all m Notifier slab s events ≡ some sent)
        × Memᴰ x sent
  unfolding deliver_all
  deliver_all-Memᴰ s [] event x l plain u d t = absurd (Memᴰ.not-nil u)
  deliver_all-Memᴰ s (e ∷ events) event x l plain (Memᴰ.head same) d t =
      let here = subst (λ z. deliver m Notifier slab z (slab.get s (m.token z)) ≡ some l) same d in
      let (rest, r) = Plain.deliver_all-some m Notifier slab s events plain in
      (l ++ rest, rw (deliver_all, here, r) refl, Memᴰ.append_left rest t)
  deliver_all-Memᴰ s (e ∷ events) event x l plain (Memᴰ.tail u) d t =
      let (first, f) =
        Plain.deliver-some m Notifier slab e (slab.get s (m.token e)) (plain (m.token e)) in
      let (rest, r, v) = deliver_all-Memᴰ s events event x l plain u d t in
      (first ++ rest, rw (deliver_all, f, r) refl, Memᴰ.append_right first v)

  handle_poll_lem :
      (p : Poller m Notifier slab) (events : List m.Event) (sent : List (Notifier × m.Event))
      → (m.poll p.registry).1 ≡ some events
      → deliver_all m Notifier slab p.tokens events ≡ some sent
      → handle m Notifier slab p (some IoOp.poll)
        ≡ some (record p { registry = (m.poll p.registry).0; events = events }, sent)
  unfolding handle Poller.poll
  handle_poll_lem p events sent e d = rw (handle, Poller.poll, e, d) refl

  -- The poller after the first registration of a descriptor.
  abbrev pub registered :
      Poller m Notifier slab → ℕ → m.Interest → Notifier → Poller m Notifier slab
  registered p fd i notify =
      (register m Notifier slab
        (add_token m Notifier slab p fd none (registration_fd_add fd i (some notify))) fd
        (slab.vacant p.tokens)).0

  handle_submit_lem :
      (p : Poller m Notifier slab) (fd : ℕ) (i : m.Interest) (notify : Notifier)
      → lookup fd p.event_src_ids ≡ none
      → handle m Notifier slab p (some (IoOp.submit (registration_fd_add fd i (some notify))))
        ≡ some (registered p fd i notify, [])
  unfolding handle push_token_entry add_fd
  handle_submit_lem p fd i notify fresh = rw (handle, push_token_entry, fresh, add_fd) refl

  -- What one event of a stored operation sends.
  abbrev pub Delivers : Operation m Notifier → Notifier → m.Event → Type 0
  Delivers stored notify event =
      deliver m Notifier slab event (some stored) ≡ some ((notify, event) ∷ [])

  -- A registration that stores an operation at the next key, and a poll after that in which mio
  -- reports an event at that key.
  stored_poll-Memᴰ :
      (p p₁ : Poller m Notifier slab) (op stored : Operation m Notifier) (notify : Notifier)
      (event : m.Event) (events : List m.Event)
      → handle m Notifier slab p (some (IoOp.submit op)) ≡ some (p₁, [])
      → p₁.tokens ≡ slab.insert p.tokens stored
      → Delivers stored notify event
      → Plain.IsRegistration m Notifier slab stored
      → Plain.Plain m Notifier slab p.tokens
      → (m.poll p₁.registry).1 ≡ some events
      → Memᴰ event events
      → m.token event ≡ slab.vacant p.tokens
      → (p' : Poller m Notifier slab) × (sent : List (Notifier × m.Event)) × (run_loop m Notifier
            slab p
            (turns_of (IoOp.submit op ∷ IoOp.poll ∷ []))
          ≡ some (p', sent))
        × Memᴰ (notify, event) sent
  unfolding run_loop
  stored_poll-Memᴰ p p₁ op stored notify event events submitted tokens delivers plain_op plain
        polled t key =
      let here : slab.get p₁.tokens (m.token event) ≡ some stored =
        ap (λ s. slab.get s (m.token event)) tokens
        ∙ slab.get-insert p.tokens stored (m.token event)
        ∙ (ground (arith, key)) in
      let plain₁ : Plain.Plain m Notifier slab p₁.tokens =
        subst (Plain.Plain m Notifier slab) (sym tokens)
          (Plain.insert-Plain m Notifier slab p.tokens stored plain_op plain) in
      let (sent, d, u) =
        deliver_all-Memᴰ p₁.tokens events event (notify, event) ((notify, event) ∷ []) plain₁ t
          (ap (deliver m Notifier slab event) here ∙ delivers) (Memᴰ.head refl) in
      (
        record p₁ { registry = (m.poll p₁.registry).0; events = events },
        sent ++ [],
        rw (run_loop, submitted, handle_poll_lem p₁ events sent polled d) refl,
        Memᴰ.append_left [] u,
      )

  -- A descriptor that is registered for the first time, and a poll after that in which mio reports
  -- an event at its key: the actor does not panic, and the notifier gets the event.
  pub submit_poll-Memᴰ :
      (p : Poller m Notifier slab) (fd : ℕ) (i : m.Interest) (notify : Notifier) (event : m.Event)
      (events : List m.Event)
      → Plain.Plain m Notifier slab p.tokens
      → lookup fd p.event_src_ids ≡ none
      → (m.poll
          (m.register p.registry fd (slab.vacant p.tokens) (rw_interests m Notifier slab)).0).1
        ≡ some events
      → Memᴰ event events
      → m.token event ≡ slab.vacant p.tokens
      → (p' : Poller m Notifier slab) × (sent : List (Notifier × m.Event)) × (run_loop m Notifier
            slab p
            (turns_of (IoOp.submit (registration_fd_add fd i (some notify)) ∷ IoOp.poll ∷ []))
          ≡ some (p', sent))
        × Memᴰ (notify, event) sent
  unfolding add_token register deliver
  submit_poll-Memᴰ p fd i notify event events plain fresh polled t key =
      let op : Operation m Notifier = registration_fd_add fd i (some notify) in
      stored_poll-Memᴰ p (registered p fd i notify) op op notify event events
        (handle_submit_lem p fd i notify fresh) refl refl tt plain polled t key

  -- The poller after the first registration of a listener, of which it keeps a clone.
  abbrev pub registered_tcp :
      Poller m Notifier slab
      → m.Listener
      → m.Listener
      → m.Interest
      → Notifier
      → Poller m Notifier slab
  registered_tcp p l clone i notify =
      (register m Notifier slab
        (add_token m Notifier slab p (m.as_raw_fd l) (some notify)
          (registration_tcp_add clone i (some notify)))
        (m.as_raw_fd l) (slab.vacant p.tokens)).0

  handle_submit_tcp :
      (p : Poller m Notifier slab) (l clone : m.Listener) (i : m.Interest) (notify : Notifier)
      → lookup (m.as_raw_fd l) p.event_src_ids ≡ none
      → m.try_clone l ≡ some clone
      → handle m Notifier slab p (some (IoOp.submit (registration_tcp_add l i (some notify))))
        ≡ some (registered_tcp p l clone i notify, [])
  unfolding handle push_token_entry add_tcp
  handle_submit_tcp p l clone i notify fresh c =
      rw (handle, push_token_entry, fresh, c, add_tcp) refl

  -- The same for a listener that can be cloned and whose number is new to the poller.
  pub submit_tcp_poll-Memᴰ :
      (p : Poller m Notifier slab) (l clone : m.Listener) (i : m.Interest) (notify : Notifier)
      (event : m.Event) (events : List m.Event)
      → Plain.Plain m Notifier slab p.tokens
      → lookup (m.as_raw_fd l) p.event_src_ids ≡ none
      → m.try_clone l ≡ some clone
      → (m.poll
          (m.register p.registry
            (m.as_raw_fd l)
            (slab.vacant p.tokens)
            (rw_interests m Notifier slab)).0).1
        ≡ some events
      → Memᴰ event events
      → m.token event ≡ slab.vacant p.tokens
      → (p' : Poller m Notifier slab) × (sent : List (Notifier × m.Event)) × (run_loop m Notifier
            slab p
            (turns_of (IoOp.submit (registration_tcp_add l i (some notify)) ∷ IoOp.poll ∷ []))
          ≡ some (p', sent))
        × Memᴰ (notify, event) sent
  unfolding add_token register deliver
  submit_tcp_poll-Memᴰ p l clone i notify event events plain fresh c polled t key =
      stored_poll-Memᴰ p (registered_tcp p l clone i notify)
        (registration_tcp_add l i (some notify)) (registration_tcp_add clone i (some notify)) notify
        event events (handle_submit_tcp p l clone i notify fresh c) refl refl tt plain polled t key
