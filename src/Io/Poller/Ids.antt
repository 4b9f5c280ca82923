-- ===== src/Io/Poller/Ids.antt =====
-- imputio/src/io/epoll.rs: `event_src_ids` and `tokens` fit together, so no index panics.
use toy_io.Common.{
  ℕ, ◌≡◌, refl, ◌∙◌, true, Option, none, some, List, [], ◌∷◌, arith, is_some, Option-cases, inl,
  inr,
}
use toy_io.Common.Dict.{lookup, lookup-insert}
use toy_io.Io.{Result, ok}
use toy_io.Io.Crates.{Mio, Slab}
use toy_io.Io.Poller.{
  Operation, registration_fd_add, registration_tcp_add, modify_registration, delete_registration,
  Poller, new, register, add_token, add_fd, remember, modify, add_tcp, push_token_entry,
}
use toy_io.Io.Poller.Keys

module _ (m : Mio) (Notifier : Type 0) (slab : Slab (Operation m Notifier)) where
  -- The call does not panic, and the descriptors and keys still fit together.
  abbrev pub Keeps : Option (Poller m Notifier slab × Result (Unit {0})) → Type 0
  Keeps r =
      (p' : Poller m Notifier slab) × (result : Result (Unit {0})) × (r ≡ some (p', result))
      × Keys.IsValid m Notifier slab p'

  add_fd-IsValid :
      (p : Poller m Notifier slab) (fd : ℕ) (i : m.Interest) (n : Option Notifier)
      (o : Option (ℕ × Option Notifier))
      → lookup fd p.event_src_ids ≡ o
      → Keys.IsValid m Notifier slab p
      → Keeps (add_fd m Notifier slab p fd i n o)
  unfolding add_fd
  add_fd-IsValid p fd i n none e v =
      let p' = add_token m Notifier slab p fd none (registration_fd_add fd i n) in
      (
        _,
        _,
        refl,
        Keys.register-IsValid m Notifier slab p' fd (slab.vacant p.tokens)
            (Keys.add_token-IsValid m Notifier slab p fd none _ e v),
      )
  add_fd-IsValid p fd i n (some (id, known)) e v =
      let (p', s, _, v') =
        Keys.set_token-IsValid m Notifier slab p id (registration_fd_add fd i known)
          (v.taken fd id known e) v in
      let r = register m Notifier slab p' fd id in
      (r.0, r.1, rw (add_fd, s) refl, Keys.register-IsValid m Notifier slab p' fd id v')

  modify-IsValid :
      (p : Poller m Notifier slab) (fd : ℕ) (i : m.Interest) (n : Option Notifier)
      (o : Option (ℕ × Option Notifier))
      → lookup fd p.event_src_ids ≡ o
      → Keys.IsValid m Notifier slab p
      → Keeps (modify m Notifier slab p fd i n o)
  unfolding modify
  modify-IsValid p fd i n none e v =
      let key = slab.vacant p.tokens in
      let p' = add_token m Notifier slab p fd none (modify_registration fd i n) in
      let entry : lookup fd p'.event_src_ids ≡ some (key, none) =
        unfold add_token in lookup-insert fd fd (key, none) p.event_src_ids ∙ (ground arith) in
      (
        remember m Notifier slab p' fd key n,
        ok tt,
        refl,
        Keys.remember-IsValid m Notifier slab p' fd key none n entry
            (Keys.add_token-IsValid m Notifier slab p fd none _ e v),
      )
  modify-IsValid p fd i n (some (id, known)) e v =
      let (p', s, ids, v') =
        Keys.set_token-IsValid m Notifier slab p id (modify_registration fd i known)
          (v.taken fd id known e) v in
      (
        remember m Notifier slab p' fd id n,
        ok tt,
        rw (modify, s) refl,
        Keys.remember-IsValid m Notifier slab p' fd id known n (rw ids e) v',
      )

  add_tcp-IsValid :
      (p : Poller m Notifier slab) (fd clone : m.Listener) (i : m.Interest) (n : Option Notifier)
      (o : Option (ℕ × Option Notifier))
      → lookup (m.as_raw_fd fd) p.event_src_ids ≡ o
      → Keys.IsValid m Notifier slab p
      → Keeps (add_tcp m Notifier slab p fd i n o (some clone))
  unfolding add_tcp
  add_tcp-IsValid p fd clone i n none e v =
      let raw = m.as_raw_fd fd in
      let p' = add_token m Notifier slab p raw n (registration_tcp_add clone i n) in
      (
        _,
        _,
        refl,
        Keys.register-IsValid m Notifier slab p' raw (slab.vacant p.tokens)
            (Keys.add_token-IsValid m Notifier slab p raw n _ e v),
      )
  add_tcp-IsValid p fd clone i n (some (id, known)) e v =
      let op : Operation m Notifier = registration_tcp_add clone i known in
      elim (Option-cases (slab.get p.tokens id)) [
        | inl g ↦ let h = v.taken (m.as_raw_fd fd) id known e in absurd (cc g)
        | inr (w, g) ↦
            let p' = record p { tokens = slab.assign p.tokens id op } in
            let r = register m Notifier slab p' (m.as_raw_fd fd) id in
            (
              r.0,
              r.1,
              rw (add_tcp, g) refl,
              Keys.register-IsValid m Notifier slab p' (m.as_raw_fd fd) id (
                  Keys.kept-IsValid m Notifier slab p p' refl
                    (λ k. Keys.assign-keys m Notifier slab p.tokens id op w k g) v),
            )
      ]

  -- What the poller supports: a listener that can be cloned, and no deletion.
  abbrev pub IsSupported : Operation m Notifier → Type 0
  IsSupported (registration_tcp_add fd i n) = is_some (m.try_clone fd) ≡ true
  IsSupported (delete_registration fd) = ⊥
  IsSupported _ = Unit

  pub push_token_entry-IsValid :
      (p : Poller m Notifier slab) (op : Operation m Notifier)
      → IsSupported op
      → Keys.IsValid m Notifier slab p
      → Keeps (push_token_entry m Notifier slab p op)
  unfolding push_token_entry
  push_token_entry-IsValid p (registration_fd_add fd i n) s v = add_fd-IsValid p fd i n _ refl v
  push_token_entry-IsValid p (registration_tcp_add fd i n) s v =
      elim (Option-cases (m.try_clone fd)) [
        | inl e ↦ absurd (cc e)
        | inr (clone, e) ↦ rw e (add_tcp-IsValid p fd clone i n _ refl v)
      ]
  push_token_entry-IsValid p (modify_registration fd i n) s v = modify-IsValid p fd i n _ refl v
  push_token_entry-IsValid p (delete_registration fd) s v = absurd s

  -- The operations one after the other, an error of one not stopping the rest.
  pub push_all :
      Poller m Notifier slab → List (Operation m Notifier) → Option (Poller m Notifier slab)
  push_all p [] = some p
  push_all p (op ∷ ops) = elim (push_token_entry m Notifier slab p op) [
    | none ↦ none
    | some (p', _) ↦ push_all p' ops
  ]

  abbrev pub AllSupported : List (Operation m Notifier) → Type 0
  AllSupported [] = Unit
  AllSupported (op ∷ ops) = IsSupported op × AllSupported ops

  pub new-IsValid :
      (r : m.Registry) (id : ℕ) → Keys.IsValid m Notifier slab (new m Notifier slab r id)
  unfolding new lookup
  new-IsValid r id = record { taken = λ fd id n e. cc; apart = λ fd fd' id n n' e e'. cc }

  -- No sequence of registrations and modifications panics on a key that the table lacks, if every
  -- listener can be cloned and nothing is deleted, also if mio refuses some of them; and then each
  -- descriptor's key is taken, and no two descriptors share a key.
  pub push_all-IsValid :
      (ops : List (Operation m Notifier)) (p : Poller m Notifier slab)
      → AllSupported ops
      → Keys.IsValid m Notifier slab p
      → (p' : Poller m Notifier slab) × (push_all p ops ≡ some p') × Keys.IsValid m Notifier slab p'
  unfolding push_all
  push_all-IsValid [] p s v = (p, refl, v)
  push_all-IsValid (op ∷ ops) p s v =
      let (p₁, _, e, v₁) = push_token_entry-IsValid p op s.0 v in
      let (last, e', v') = push_all-IsValid ops p₁ s.1 v₁ in (last, rw (push_all, e) e', v')
