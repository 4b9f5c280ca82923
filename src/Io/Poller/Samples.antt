-- ===== src/Io/Poller/Samples.antt =====
-- For imputio/src/io/epoll.rs: a small mio and a table that never frees a key.
use toy_io.Common.{
  ℕ, suc, ◌+◌, ◌≡◌, true, Option, none, some, List, [], ◌∷◌, arith, if◌then◌else◌, ◌==◌, ltb,
}
use toy_io.Common.Dict.{lookup}
use toy_io.Io.Crates.{Mio, Slab}
use toy_io.Io.Poller.Keys
use toy_io.Io.Poller.{Operation, Poller}

-- An event is its token, an interest is a number, and a poll reports the keys registered so far.
-- Listeners above 99 cannot be cloned.
abbrev pub small_mio : Mio
small_mio = record {
  Registry = List ℕ;
  Event = ℕ;
  Interest = ℕ;
  Listener = ℕ;
  readable = 1;
  writable = 2;
  priority = 4;
  add = ◌+◌;
  token = λ event. event;
  as_raw_fd = λ fd. fd;
  try_clone = λ fd. if fd == 100 then none else some fd;
  register = λ keys fd id i. (id ∷ keys, true);
  poll = λ keys. (keys, some keys);
}

-- The table: the value of each key, and the next key.
pub record Table (V : Type 0) : Type 0 where
  pub at : ℕ → Option V
  pub next : ℕ

module _ {V : Type 0} where
  abbrev pub below : Table V → ℕ → Option V
  below t k = if ltb k t.next then t.at k else none

  abbrev pub append : Table V → V → Table V
  append t v = record { at = λ k. if t.next == k then some v else t.at k; next = suc t.next }

  abbrev pub replace : Table V → ℕ → V → Table V
  replace t j v = record t { at = λ k. if j == k then some v else t.at k }

  pub below-empty : (k : ℕ) → below (record { at = λ k. none; next = 0 }) k ≡ none
  below-empty k = ground arith

  pub below-next : (t : Table V) → below t t.next ≡ none
  below-next t = ground arith

  pub below-append :
      (t : Table V) (v : V) (k : ℕ)
      → below (append t v) k ≡ (if t.next == k then some v else below t k)
  below-append t v k = ground arith

  pub below-replace :
      (t : Table V) (j : ℕ) (v w : V) (k : ℕ)
      → below t j ≡ some w
      → below (replace t j v) k ≡ (if j == k then some v else below t k)
  below-replace t j v w k e = ground arith

abbrev pub Op : Type 0
Op = Operation small_mio ℕ

abbrev pub table : Slab Op
table = record {
  S = Table Op;
  empty = record { at = λ k. none; next = 0 };
  get = below;
  vacant = λ t. t.next;
  insert = append;
  assign = replace;
  get-empty = below-empty;
  get-vacant = below-next;
  get-insert = below-append;
  get-assign = below-replace;
}

abbrev pub start : Poller small_mio ℕ table
start = record { registry = []; events = []; event_src_ids = []; tokens = table.empty; id = 1 }

pub start-IsValid : Keys.IsValid small_mio ℕ table start
unfolding lookup
start-IsValid = record { taken = λ fd id n e. cc; apart = λ fd fd' id n n' e e'. cc }
