-- ===== src/Io/Crates.antt =====
-- What imputio/src/io/epoll.rs takes from the crates mio and slab and from sockets, which are not
-- part of the repository.
use toy_io.Common.{ℕ, ◌≡◌, Bool, Option, none, some, List, if◌then◌else◌, ◌==◌}

-- mio: `Registry` is the state of a `mio::Poll`, `Listener` a standard library `TcpListener`.
pub record Mio : Type 1 where
  pub Registry : Type 0
  pub Event : Type 0
  pub Interest : Type 0
  pub Listener : Type 0
  pub readable : Interest
  pub writable : Interest
  pub priority : Interest
  pub add : Interest → Interest → Interest
  pub token : Event → ℕ
  pub as_raw_fd : Listener → ℕ
  pub try_clone : Listener → Option Listener
  -- `registry().register(source, Token(id), interests)`: whether it succeeds.
  pub register : Registry → ℕ → ℕ → Interest → Registry × Bool
  -- `poll` with its timeout: the events, or `none` for an I/O error.
  pub poll : Registry → Registry × Option (List Event)

-- slab: a table that chooses its keys.
pub record Slab (V : Type 0) : Type 1 where
  pub S : Type 0
  pub empty : S
  pub get : S → ℕ → Option V
  -- `vacant_entry().key()`
  pub vacant : S → ℕ
  -- `insert`, at the vacant key.
  pub insert : S → V → S
  -- `slab[k] = v`, for a key that is taken.
  pub assign : S → ℕ → V → S
  pub get-empty : (k : ℕ) → get empty k ≡ none
  pub get-vacant : (s : S) → get s (vacant s) ≡ none
  pub get-insert :
      (s : S) (v : V) (k : ℕ) → get (insert s v) k ≡ (if vacant s == k then some v else get s k)
  pub get-assign :
      (s : S) (j : ℕ) (v w : V) (k : ℕ)
      → get s j ≡ some w
      → get (assign s j v) k ≡ (if j == k then some v else get s k)
