-- ===== src/Io/Actor/Safety.antt =====
-- imputio/src/io/mod.rs and imputio/src/io/epoll.rs: with registrations only, the I/O actor never
-- panics.
use toy_io.Common.{
  ℕ, ◌≡◌, refl, subst, Option, none, some, List, [], ◌∷◌, ◌++◌, OnSome, Option-cases, Bool-cases,
  inl, inr,
}
use toy_io.Io.{IoOp}
use toy_io.Io.Crates.{Mio, Slab}
use toy_io.Io.Poller.{
  Operation, registration_fd_add, registration_tcp_add, modify_registration, delete_registration,
  Poller, register, set_token, add_token, add_fd, add_tcp, push_token_entry, deliver, deliver_all,
}
use toy_io.Io.Poller
use toy_io.Io.Poller.Ids
use toy_io.Io.Poller.Keys.{IsValid}
use toy_io.Io.Actor.{Turn, handle, run_loop, run}
use toy_io.Io.Actor.Plain

module _ (m : Mio) (Notifier : Type 0) (slab : Slab (Operation m Notifier)) where
  -- The poller is in order, and its table has registrations only.
  pub record IsSafe (p : Poller m Notifier slab) : Type 0 where
    pub valid : IsValid m Notifier slab p
    pub plain : Plain.Plain m Notifier slab p.tokens

  -- A message that the actor handles: a poll, or a registration whose listener can be cloned.
  abbrev pub IsAllowed : Option (IoOp (Operation m Notifier)) → Type 0
  IsAllowed none = Unit
  IsAllowed (some (IoOp.submit op)) =
      Plain.IsRegistration m Notifier slab op × Ids.IsSupported m Notifier slab op
  IsAllowed (some IoOp.poll) = Unit

  abbrev pub AllAllowed : List (Turn (Operation m Notifier)) → Type 0
  AllAllowed [] = Unit
  AllAllowed (turn ∷ turns) = IsAllowed turn.event × AllAllowed turns

  abbrev Goes : Option (Poller m Notifier slab × List (Notifier × m.Event)) → Type 0
  Goes r =
      (p' : Poller m Notifier slab) × (sent : List (Notifier × m.Event)) × (r ≡ some (p', sent))
      × IsSafe p'

  poll-Goes :
      (p : Poller m Notifier slab) → IsSafe p → Goes (handle m Notifier slab p (some IoOp.poll))
  unfolding handle Poller.poll
  poll-Goes p v = elim (Option-cases (m.poll p.registry).1) [
    | inl e ↦ (
      record p { registry = (m.poll p.registry).0 },
      [],
      rw (handle, Poller.poll, e) refl,
      record { valid = record { taken = v.valid.taken; apart = v.valid.apart }; plain = v.plain },
    )
    | inr (events, e) ↦
        let (sent, d) = Plain.deliver_all-some m Notifier slab p.tokens events v.plain in
        (
          record p { registry = (m.poll p.registry).0; events = events },
          sent,
          rw (handle, Poller.poll, e, d) refl,
          record {
            valid = record { taken = v.valid.taken; apart = v.valid.apart };
            plain = v.plain;
          },
        )
  ]

  handle-Goes :
      (p : Poller m Notifier slab) (o : Option (IoOp (Operation m Notifier)))
      → IsAllowed o
      → IsSafe p
      → Goes (handle m Notifier slab p o)
  unfolding handle
  handle-Goes p none a v = (p, [], refl, v)
  handle-Goes p (some IoOp.poll) a v = poll-Goes p v
  handle-Goes p (some (IoOp.submit op)) a v =
      let (p', r, e, v') = Ids.push_token_entry-IsValid m Notifier slab p op a.1 v.valid in
      (
        p',
        [],
        rw (handle, e) refl,
        record {
          valid = v';
          plain =
              subst (OnSome (Plain.PlainEnd m Notifier slab)) e
                (Plain.push_token_entry-Plain m Notifier slab p op a.0 v.plain);
        },
      )

  run_loop-Goes :
      (turns : List (Turn (Operation m Notifier))) (p : Poller m Notifier slab)
      → AllAllowed turns
      → IsSafe p
      → Goes (run_loop m Notifier slab p turns)
  unfolding run_loop
  run_loop-Goes [] p a v = (p, [], refl, v)
  run_loop-Goes (turn ∷ turns) p a v =
      let (p', sent, e, v') = handle-Goes p turn.event a.0 v in
      let (last, rest, e', v'') = run_loop-Goes turns p' a.1 v' in
      elim (Bool-cases turn.shutdown) [
        | inl s ↦ (p', sent, rw (run_loop, e, s) refl, v')
        | inr s ↦ (last, sent ++ rest, rw (run_loop, e, s, e') refl, v'')
      ]

  -- With registrations and polls only, and if every listener can be cloned, the I/O actor never
  -- panics, whatever mio answers and whenever the flag is set; at the end the poller is in order.
  pub run-IsSafe :
      (turns : List (Turn (Operation m Notifier))) (id : ℕ) (p : Poller m Notifier slab)
      → AllAllowed turns
      → IsSafe p
      → (p' : Poller m Notifier slab) × (sent : List (Notifier × m.Event)) × (run m Notifier slab id
            p turns
          ≡ some (p', sent))
        × IsSafe p'
  unfolding run Poller.set_id
  run-IsSafe turns id p a v =
      run_loop-Goes turns (record p { id = id }) a
        (record {
          valid = record { taken = v.valid.taken; apart = v.valid.apart };
          plain = v.plain;
        })
