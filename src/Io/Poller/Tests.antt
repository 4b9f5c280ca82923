-- ===== src/Io/Poller/Tests.antt =====
-- imputio/src/io/epoll.rs: a poller over a small mio and a table that never frees a key.
use toy_io.Common.{ℕ, ◌≡◌, refl, none, some, List, [], ◌∷◌}
use toy_io.Common.Dict.{lookup, insert}
use toy_io.Io.{Result, ok}
use toy_io.Io.Poller.Ids
use toy_io.Io.Poller.Keys
use toy_io.Io.Poller.Reuse
use toy_io.Io.Poller.Modified
use toy_io.Io.Poller.{
  registration_fd_add, registration_tcp_add, modify_registration, Poller, set_token, remember,
  push_token_entry, deliver, poll,
}
use toy_io.Io.Poller.Samples.{small_mio, table, Op, start, start-IsValid}

abbrev ops : List Op
ops =
    registration_fd_add 5 1 (some 7)
    ∷ registration_tcp_add 6 1 (some 8)
    ∷ registration_fd_add 5 2 (some 9)
    ∷ modify_registration 6 1 none
    ∷ []

push_all-IsValid_example :
    (p' : Poller small_mio ℕ table) × (Ids.push_all small_mio ℕ table start ops ≡ some p')
    × Keys.IsValid small_mio ℕ table p'
push_all-IsValid_example =
    Ids.push_all-IsValid small_mio ℕ table ops start (tt, (refl, (tt, (tt, tt)))) start-IsValid

-- A modification of a descriptor that was registered.
abbrev registered : Poller small_mio ℕ table
registered = record {
  registry = 0 ∷ [];
  events = [];
  event_src_ids = (5, (0, none)) ∷ [];
  tokens = table.insert table.empty (registration_fd_add 5 1 (some 7));
  id = 1;
}

abbrev modified : Poller small_mio ℕ table
modified = record registered {
  event_src_ids = (5, (0, some 8)) ∷ [];
  tokens = table.assign registered.tokens 0 (modify_registration 5 2 none);
}

modify_then_poll_panics_example : poll small_mio ℕ table modified ≡ none
unfolding lookup insert push_token_entry set_token remember
modify_then_poll_panics_example =
    Modified.modify_then_poll_panics small_mio ℕ table registered modified 5 0 2 (some 8) (some 8)
      (ok tt) [] [] 0 refl refl refl refl

-- Two listeners with the number 6.
same_number_misdirects_example :
    (p₁ : Poller small_mio ℕ table) × (r₁ : Result (Unit {0})) × (p₂ : Poller small_mio ℕ table)
    × (r₂ : Result (Unit {0})) × (push_token_entry small_mio ℕ table start
          (registration_tcp_add 6 1 (some 7))
        ≡ some (p₁, r₁))
    × (push_token_entry small_mio ℕ table p₁ (registration_tcp_add 6 2 (some 8)) ≡ some (p₂, r₂))
    × (table.get p₂.tokens 0 ≡ some (registration_tcp_add 6 2 (some 7)))
    × (deliver small_mio ℕ table 0 (table.get p₂.tokens 0) ≡ some ((7, 0) ∷ []))
unfolding lookup
same_number_misdirects_example =
    Reuse.same_number_misdirects small_mio ℕ table start 6 6 6 6 1 2 7 8 0 refl refl refl refl refl
