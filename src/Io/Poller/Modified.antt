-- ===== src/Io/Poller/Modified.antt =====
-- imputio/src/io/epoll.rs: a modified registration, and the next event at it.
use toy_io.Common.{
  ℕ, ◌≡◌, refl, sym, ap, subst, ◌∙◌, Option, none, some, List, [], ◌∷◌, ◌++◌, arith, OnSome,
  Option-cases, inl, inr,
}
use toy_io.Common.Dict.{lookup, lookup-insert}
use toy_io.Io.{Result, ok}
use toy_io.Io.Crates.{Mio, Slab}
use toy_io.Io.Poller.{
  Operation, modify_registration, Poller, set_token, add_token, remember, modify, push_token_entry,
  deliver, deliver_all, poll,
}

module _ (m : Mio) (Notifier : Type 0) (slab : Slab (Operation m Notifier)) where
  deliver_all-panics :
      (tokens : slab.S) (before after : List m.Event) (event : m.Event) (fd : ℕ) (i : m.Interest)
      (n : Option Notifier)
      → slab.get tokens (m.token event) ≡ some (modify_registration fd i n)
      → deliver_all m Notifier slab tokens (before ++ event ∷ after) ≡ none
  unfolding deliver_all deliver
  deliver_all-panics tokens [] after event fd i n e = rw (e, deliver_all) refl
  deliver_all-panics tokens (x ∷ before) after event fd i n e =
      let rest = deliver_all-panics tokens before after event fd i n e in
      elim (Option-cases (deliver m Notifier slab x (slab.get tokens (m.token x)))) [
        | inl d ↦ rw (d, deliver_all) refl
        | inr (_, d) ↦ rw (d, deliver_all, rest) refl
      ]

  -- The table holds the modification at the key of the descriptor.
  abbrev Holds : ℕ → m.Interest → Poller m Notifier slab × Result (Unit {0}) → Type 0
  Holds fd i (p, _) =
      (id : ℕ) (n : Option Notifier)
      → lookup fd p.event_src_ids ≡ some (id, n)
      → (x : Option Notifier) × (slab.get p.tokens id ≡ some (modify_registration fd i x))

  remember-Holds :
      (p : Poller m Notifier slab) (fd id : ℕ) (i : m.Interest) (known x : Option Notifier)
      (r : Result (Unit {0})) (notify : Option Notifier)
      → lookup fd p.event_src_ids ≡ some (id, known)
      → slab.get p.tokens id ≡ some (modify_registration fd i x)
      → Holds fd i (remember m Notifier slab p fd id notify, r)
  unfolding remember
  remember-Holds p fd id i known x r none e g =
      λ id' n e'. let same : id ≡ id' = ground arith in (x, rw (← same) g)
  remember-Holds p fd id i known x r (some notify) e g = λ id' n e'.
      let found = sym (lookup-insert fd fd (id, some notify) p.event_src_ids) ∙ e' in
      let same : id ≡ id' = ground arith in (x, rw (← same) g)

  modify-Holds :
      (p : Poller m Notifier slab) (fd : ℕ) (i : m.Interest) (notify : Option Notifier)
      (o : Option (ℕ × Option Notifier))
      → lookup fd p.event_src_ids ≡ o
      → OnSome (Holds fd i) (modify m Notifier slab p fd i notify o)
  unfolding modify add_token set_token
  modify-Holds p fd i notify none e =
      let key = slab.vacant p.tokens in
      let op : Operation m Notifier = modify_registration fd i notify in
      let p' = add_token m Notifier slab p fd none op in
      remember-Holds p' fd key i none notify (ok tt) notify
        (lookup-insert fd fd (key, none) p.event_src_ids ∙ (ground arith))
        (slab.get-insert p.tokens op key ∙ (ground arith))
  modify-Holds p fd i notify (some (id, known)) e =
      let op : Operation m Notifier = modify_registration fd i known in
      elim (Option-cases (slab.get p.tokens id)) [
        | inl g ↦ rw (g, modify, set_token) tt
        | inr (w, g) ↦
            rw (g, modify, set_token)
              (remember-Holds (record p { tokens = slab.assign p.tokens id op }) fd id i known known
                (ok tt) notify e (slab.get-assign p.tokens id op w id g ∙ (ground arith)))
      ]

  -- After a modification of a registration, the next poll in which mio gives an event at the
  -- descriptor's key panics, whatever the other events are.
  pub modify_then_poll_panics :
      (p p' : Poller m Notifier slab) (fd id : ℕ) (i : m.Interest) (notify n : Option Notifier)
      (r : Result (Unit {0})) (before after : List m.Event) (event : m.Event)
      → push_token_entry m Notifier slab p (modify_registration fd i notify) ≡ some (p', r)
      → lookup fd p'.event_src_ids ≡ some (id, n)
      → m.token event ≡ id
      → (m.poll p'.registry).1 ≡ some (before ++ event ∷ after)
      → poll m Notifier slab p' ≡ none
  unfolding push_token_entry poll
  modify_then_poll_panics p p' fd id i notify n r before after event e found at given =
      let holds : Holds fd i (p', r) =
        subst (OnSome (Holds fd i)) e (modify-Holds p fd i notify _ refl) in
      let (x, g) = holds id n found in
      let stops =
        deliver_all-panics p'.tokens before after event fd i x (ap (slab.get p'.tokens) at ∙ g) in
      rw (given, poll, stops) refl
