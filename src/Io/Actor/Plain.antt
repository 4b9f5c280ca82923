-- ===== src/Io/Actor/Plain.antt =====
-- imputio/src/io/epoll.rs: a table that holds registrations only, and what it delivers.
use toy_io.Common.{
  ℕ, ◌≡◌, refl, Bool, true, false, Option, none, some, List, [], ◌∷◌, ◌++◌, if◌then◌else◌, ◌==◌,
  OnSome, Option-cases, inl, inr,
}
use toy_io.Common.Dict.{lookup}
use toy_io.Io.{Result, err, io_error}
use toy_io.Io.Crates.{Mio, Slab}
use toy_io.Io.Poller.{
  Operation, registration_fd_add, registration_tcp_add, modify_registration, delete_registration,
  Poller, register, set_token, add_token, add_fd, add_tcp, push_token_entry, deliver, deliver_all,
}

if-OnSome :
    {A : Type 0} (P : A → Type 0) (b : Bool) (x y : Option A)
    → OnSome P x
    → OnSome P y
    → OnSome P (if b then x else y)
if-OnSome P true x y h k = h
if-OnSome P false x y h k = k

module _ (m : Mio) (Notifier : Type 0) (slab : Slab (Operation m Notifier)) where
  abbrev pub IsRegistration : Operation m Notifier → Type 0
  IsRegistration (registration_fd_add _ _ _) = Unit
  IsRegistration (registration_tcp_add _ _ _) = Unit
  IsRegistration _ = ⊥

  -- Each entry of the table is a registration.
  abbrev pub Plain : slab.S → Type 0
  Plain s = (k : ℕ) → OnSome IsRegistration (slab.get s k)

  pub insert-Plain :
      (s : slab.S) (op : Operation m Notifier)
      → IsRegistration op
      → Plain s
      → Plain (slab.insert s op)
  insert-Plain s op r p k =
      rw (slab.get-insert s op k)
        (if-OnSome IsRegistration (slab.vacant s == k) (some op) (slab.get s k) r (p k))

  assign-Plain :
      (s : slab.S) (j : ℕ) (op w : Operation m Notifier)
      → slab.get s j ≡ some w
      → IsRegistration op
      → Plain s
      → Plain (slab.assign s j op)
  assign-Plain s j op w e r p k =
      rw (slab.get-assign s j op w k e)
        (if-OnSome IsRegistration (j == k) (some op) (slab.get s k) r (p k))

  abbrev pub PlainEnd : Poller m Notifier slab × Result (Unit {0}) → Type 0
  PlainEnd (p, _) = Plain p.tokens

  registered-Plain :
      (fd id : ℕ) (o : Option (Poller m Notifier slab))
      → OnSome (λ p. Plain p.tokens) o
      → OnSome PlainEnd
          (elim o [ none ↦ none | some p' ↦ some (register m Notifier slab p' fd id) ])
  unfolding register
  registered-Plain fd id none h = tt
  registered-Plain fd id (some p) h = h

  set_token-Plain :
      (p : Poller m Notifier slab) (id : ℕ) (op : Operation m Notifier)
      → IsRegistration op
      → Plain p.tokens
      → OnSome (λ p. Plain p.tokens) (set_token m Notifier slab p id op)
  unfolding set_token
  set_token-Plain p id op r h = elim (Option-cases (slab.get p.tokens id)) [
    | inl e ↦ rw (e, set_token) tt
    | inr (w, e) ↦ rw (e, set_token) (assign-Plain p.tokens id op w e r h)
  ]

  add_fd-Plain :
      (p : Poller m Notifier slab) (fd : ℕ) (i : m.Interest) (n : Option Notifier)
      (o : Option (ℕ × Option Notifier))
      → Plain p.tokens
      → OnSome PlainEnd (add_fd m Notifier slab p fd i n o)
  unfolding add_fd add_token register
  add_fd-Plain p fd i n none h = insert-Plain p.tokens (registration_fd_add fd i n) tt h
  add_fd-Plain p fd i n (some (id, known)) h =
      registered-Plain fd id (set_token m Notifier slab p id (registration_fd_add fd i known))
        (set_token-Plain p id (registration_fd_add fd i known) tt h)

  add_tcp-Plain :
      (p : Poller m Notifier slab) (fd : m.Listener) (i : m.Interest) (n : Option Notifier)
      (o : Option (ℕ × Option Notifier)) (clone : Option m.Listener)
      → Plain p.tokens
      → OnSome PlainEnd (add_tcp m Notifier slab p fd i n o clone)
  unfolding add_tcp add_token register
  add_tcp-Plain p fd i n none none h = h
  add_tcp-Plain p fd i n none (some fd') h =
      insert-Plain p.tokens (registration_tcp_add fd' i n) tt h
  add_tcp-Plain p fd i n (some (id, known)) clone h = elim (Option-cases (slab.get p.tokens id)) [
    | inl e ↦ rw (e, add_tcp) tt
    | inr (w, e) ↦ rw (e, add_tcp) (cloned clone w e)
  ]
    where
      cloned :
          (clone : Option m.Listener) (w : Operation m Notifier)
          → slab.get p.tokens id ≡ some w
          → OnSome PlainEnd (elim clone [
            | none ↦ some (p, err io_error)
            | some fd' ↦
                let tokens = slab.assign p.tokens id (registration_tcp_add fd' i known) in
                some (register m Notifier slab (record p { tokens = tokens }) (m.as_raw_fd fd) id)
          ])
      cloned none w e = h
      cloned (some fd') w e = assign-Plain p.tokens id (registration_tcp_add fd' i known) w e tt h

  pub push_token_entry-Plain :
      (p : Poller m Notifier slab) (op : Operation m Notifier)
      → IsRegistration op
      → Plain p.tokens
      → OnSome PlainEnd (push_token_entry m Notifier slab p op)
  unfolding push_token_entry
  push_token_entry-Plain p (registration_fd_add fd i n) r h =
      add_fd-Plain p fd i n (lookup fd p.event_src_ids) h
  push_token_entry-Plain p (registration_tcp_add fd i n) r h =
      add_tcp-Plain p fd i n (lookup (m.as_raw_fd fd) p.event_src_ids) (m.try_clone fd) h
  push_token_entry-Plain p (modify_registration fd i n) r h = absurd r
  push_token_entry-Plain p (delete_registration fd) r h = absurd r

  pub deliver-some :
      (event : m.Event) (o : Option (Operation m Notifier))
      → OnSome IsRegistration o
      → (sent : List (Notifier × m.Event)) × (deliver m Notifier slab event o ≡ some sent)
  unfolding deliver
  deliver-some event none h = ([], refl)
  deliver-some event (some (registration_fd_add fd i n)) h = (_, refl)
  deliver-some event (some (registration_tcp_add fd i n)) h = (_, refl)
  deliver-some event (some (modify_registration fd i n)) h = absurd h
  deliver-some event (some (delete_registration fd)) h = absurd h

  pub deliver_all-some :
      (s : slab.S) (events : List m.Event)
      → Plain s
      → (sent : List (Notifier × m.Event)) × (deliver_all m Notifier slab s events ≡ some sent)
  unfolding deliver_all
  deliver_all-some s [] h = ([], refl)
  deliver_all-some s (event ∷ events) h =
      let (sent, e) = deliver-some event (slab.get s (m.token event)) (h (m.token event)) in
      let (rest, e') = deliver_all-some s events h in (sent ++ rest, rw (deliver_all, e, e') refl)
