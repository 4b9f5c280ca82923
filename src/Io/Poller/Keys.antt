-- ===== src/Io/Poller/Keys.antt =====
-- imputio/src/io/epoll.rs: `event_src_ids` and `tokens` fit together.
use toy_io.Common.{
  ℕ, ◌≡◌, refl, sym, ◌∙◌, true, Option, none, some, arith, is_some, Option-cases, inl, inr,
}
use toy_io.Common.Dict.{lookup, lookup-insert}
use toy_io.Io.Crates.{Mio, Slab}
use toy_io.Io.Poller.{Operation, Poller, register, set_token, add_token, remember}

module _ (m : Mio) (Notifier : Type 0) (slab : Slab (Operation m Notifier)) where
  -- Each file descriptor's key is taken in the table, and no two descriptors share a key.
  pub record IsValid (p : Poller m Notifier slab) : Type 0 where
    pub taken :
        (fd id : ℕ) (n : Option Notifier)
        → lookup fd p.event_src_ids ≡ some (id, n)
        → is_some (slab.get p.tokens id) ≡ true
    pub apart :
        (fd fd' id : ℕ) (n n' : Option Notifier)
        → lookup fd p.event_src_ids ≡ some (id, n)
        → lookup fd' p.event_src_ids ≡ some (id, n')
        → fd ≡ fd'

  -- A step that keeps the descriptors and the taken keys.
  pub kept-IsValid :
      (p p' : Poller m Notifier slab)
      → p'.event_src_ids ≡ p.event_src_ids
      → ((k : ℕ) → is_some (slab.get p.tokens k) ≡ true → is_some (slab.get p'.tokens k) ≡ true)
      → IsValid p
      → IsValid p'
  kept-IsValid p p' ids keys v = record {
    taken = λ fd id n e. keys id (v.taken fd id n (rw ids at e));
    apart = λ fd fd' id n n' e e'. v.apart fd fd' id n n' (rw ids at e) (rw ids at e');
  }

  pub register-IsValid :
      (p : Poller m Notifier slab) (fd id : ℕ)
      → IsValid p
      → IsValid (register m Notifier slab p fd id).0
  unfolding register
  register-IsValid p fd id v = kept-IsValid p _ refl (λ k h. h) v

  pub assign-keys :
      (s : slab.S) (id : ℕ) (op w : Operation m Notifier) (k : ℕ)
      → slab.get s id ≡ some w
      → is_some (slab.get s k) ≡ true
      → is_some (slab.get (slab.assign s id op) k) ≡ true
  assign-keys s id op w k e h = rw (slab.get-assign s id op w k e) (ground arith)

  -- With a taken key the assignment does not panic.
  pub set_token-IsValid :
      (p : Poller m Notifier slab) (id : ℕ) (op : Operation m Notifier)
      → is_some (slab.get p.tokens id) ≡ true
      → IsValid p
      → (p' : Poller m Notifier slab) × (set_token m Notifier slab p id op ≡ some p')
        × (p'.event_src_ids ≡ p.event_src_ids)
        × IsValid p'
  unfolding set_token
  set_token-IsValid p id op h v = elim (Option-cases (slab.get p.tokens id)) [
    | inl e ↦ absurd (cc e)
    | inr (w, e) ↦
        let p' = record p { tokens = slab.assign p.tokens id op } in
        (
          p',
          rw (set_token, e) refl,
          refl,
          kept-IsValid p p' refl (λ k. assign-keys p.tokens id op w k e) v,
        )
  ]

  pub add_token-IsValid :
      (p : Poller m Notifier slab) (fd : ℕ) (known : Option Notifier) (op : Operation m Notifier)
      → lookup fd p.event_src_ids ≡ none
      → IsValid p
      → IsValid (add_token m Notifier slab p fd known op)
  unfolding add_token
  add_token-IsValid p fd known op fresh v =
      let key = slab.vacant p.tokens in
      let entry = λ (j : ℕ). lookup-insert j fd (key, known) p.event_src_ids in
      record {
        taken = λ j id n e.
            let found = sym (entry j) ∙ e in
            ground (arith, slab.get-insert p.tokens op id, v.taken j id n);
        apart = λ j j' id n n' e e'.
            let found = sym (entry j) ∙ e in
            let found' = sym (entry j') ∙ e' in
            ground (
              arith,
              slab.get-vacant p.tokens,
              v.taken j id n,
              v.taken j' id n',
              v.apart j j' id n n',
            );
      }

  pub remember-IsValid :
      (p : Poller m Notifier slab) (fd id : ℕ) (n notify : Option Notifier)
      → lookup fd p.event_src_ids ≡ some (id, n)
      → IsValid p
      → IsValid (remember m Notifier slab p fd id notify)
  unfolding remember
  remember-IsValid p fd id n none h v = v
  remember-IsValid p fd id n (some notify) h v =
      let entry = λ (j : ℕ). lookup-insert j fd (id, some notify) p.event_src_ids in
      record {
        taken = λ j k o e.
            let found = sym (entry j) ∙ e in ground (arith, v.taken j k o, v.taken fd id n);
        apart = λ j j' k o o' e e'.
            let found = sym (entry j) ∙ e in
            let found' = sym (entry j') ∙ e' in
            ground (arith, v.apart j j' k o o', v.apart fd j' id n o', v.apart j fd id o n);
      }
