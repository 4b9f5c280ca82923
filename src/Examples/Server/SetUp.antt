-- ===== src/Examples/Server/SetUp.antt =====
-- examples/server/simple/main.rs: the set-up of the server and its client, and `server_example`,
-- which awaits the server's future. `none` is an error in the set-up, and then the panic of
-- `unwrap`. Logs and sleeps are not modelled.
mod Tests
use Prim.Native.String.{String}
use toy_io.Common.{
  ℕ, zero, suc, ◌<◌, ◌≡◌, refl, ◌∙◌, ap, Bool, true, ◌&&◌, Option, none, some, List, [], ◌∷◌, ◌++◌,
  if◌then◌else◌, arith, ◌>>=◌,
}
use toy_io.Task.{Poll, ready, pending, Priority, run}
use toy_io.Task.Run.{polled, outcome, run-ready}
use toy_io.Examples.Reading.{arrive, joined, ending}
use toy_io.Examples.Server.{Met, notified, sent_in, poll-quiet, poll-receives}
use toy_io.Examples.Server

pub data Interest : Type 0 where
  readable writable : Interest

-- The sockets of mio, `none` for an error. `write_all` gives the bytes that go out, some of them
-- also when it fails.
pub record Net : Type 1 where
  pub Addr : Type 0
  pub Listener : Type 0
  pub Stream : Type 0
  pub MioPoll : Type 0
  pub parse : String → Option Addr
  pub bind : Addr → Option Listener
  pub local_addr : Listener → Option Addr
  pub connect : Addr → Option Stream
  -- The call of `mio::Poll::new` with this number.
  pub new_poll : ℕ → Option MioPoll
  pub register_listener : MioPoll → Listener → ℕ → Interest → Option MioPoll
  pub register_stream : MioPoll → Stream → ℕ → Interest → Option MioPoll
  pub write_all : Stream → List ℕ → Stream × List ℕ

-- Whether the token is `CLIENT`, and `is_writable`.
pub record ClientEvent : Type 0 where
  pub client : Bool
  pub writable : Bool

-- `SERVER` and `CLIENT`
abbrev pub server : ℕ
server = 0

abbrev pub client : ℕ
client = 1

-- "Client written bytes received"
abbrev pub message : List ℕ
message =
    67 ∷ 108 ∷ 105 ∷ 101 ∷ 110 ∷ 116 ∷ 32 ∷ 119 ∷ 114 ∷ 105 ∷ 116 ∷ 116 ∷ 101 ∷ 110 ∷ 32 ∷ 98 ∷ 121
    ∷ 116 ∷ 101 ∷ 115 ∷ 32 ∷ 114 ∷ 101 ∷ 99 ∷ 101 ∷ 105 ∷ 118 ∷ 101 ∷ 100 ∷ []

module _ (net : Net) where
  open net use {
    Listener, Stream, MioPoll, parse, bind, local_addr, connect, new_poll, register_listener,
    register_stream, write_all,
  }

  pub record ServerFuture : Type 0 where
    pub listener : Listener
    pub poll : MioPoll

  unfoldable pub build : Listener → MioPoll → ServerFuture
  build listener poll = record { listener = listener; poll = poll }

  -- `ServerFuture::new`
  unfoldable pub new : Option (ServerFuture × Stream)
  unfolding build
  new = do
    addr ← parse "127.0.0.1:6676"
    listener ← bind addr
    local ← local_addr listener
    stream ← connect local
    poll ← new_poll 0
    poll' ← register_listener poll listener server Interest.readable
    some (build listener poll', stream)

  -- What `server_example` does before it polls the client's events.
  unfoldable pub set_up : Option (ServerFuture × Stream)
  unfolding new
  set_up = do
    (future, stream) ← new
    client_poll ← new_poll 1
    _ ← register_stream client_poll stream client Interest.writable
    some (future, stream)

  -- The `for` loop over the client's events: the bytes that go out.
  unfoldable pub write_events : Stream → List ClientEvent → Stream × List ℕ
  write_events stream [] = (stream, [])
  write_events stream (event ∷ events) =
      let (after, bytes) = write_all stream message in
      let (last, more) = write_events after events in
      let rest = write_events stream events in
      if event.client && event.writable then (last, bytes ++ more) else rest

  -- What one poll meets: the events of the client's `Poll`, in the first one, and what the server's
  -- future meets.
  pub record Turn : Type 0 where
    pub client_events : List ClientEvent
    pub met : Met

  -- The states of `server_example`: it has not been polled, or it awaits the server's future.
  pub data ServerExample : Type 0 where
    start : ServerExample
    awaiting : ServerFuture → Stream → ServerExample

  -- The bytes that are logged, as text, at the end.
  abbrev logged : Poll (List ℕ) → Poll (Option (List ℕ))
  logged (ready bytes) = ready (some bytes)
  logged pending = pending

  unfoldable pub await_server :
      Turn → ServerFuture → Stream → ServerExample × Poll (Option (List ℕ))
  await_server turn future stream = (awaiting future stream, logged (Server.poll turn.met tt).1)

  abbrev first_poll : Turn → Option (ServerFuture × Stream) → ServerExample × Poll (Option (List ℕ))
  first_poll turn none = (start, ready none)
  first_poll turn (some (future, stream)) =
      await_server turn future (write_events stream turn.client_events).0

  -- A poll of `server_example`; it is ready with `none` when it panics.
  unfoldable pub server_example : Turn → ServerExample → ServerExample × Poll (Option (List ℕ))
  unfolding set_up write_events await_server
  server_example turn start = first_poll turn set_up
  server_example turn (awaiting future stream) = await_server turn future stream

  module _ (env : ℕ → Turn) (future : ServerFuture) (stream : Stream)
      (e : set_up ≡ some (future, stream)) where
    -- The stream after the first poll.
    abbrev written : Stream × List ℕ
    written = write_events stream (env 0).client_events

    first_poll-awaits : server_example (env 0) start ≡ await_server (env 0) future written.0
    unfolding server_example
    first_poll-awaits = ap (first_poll (env 0)) e

    polled-awaits : (n : ℕ) → polled server_example env (suc n) start ≡ awaiting future written.0
    unfolding polled server_example await_server
    polled-awaits zero = ap (λ r. r.0) first_poll-awaits
    polled-awaits (suc n) = ap (λ s. (server_example (env (suc n)) s).0) (polled-awaits n)

    outcome-awaits :
        (n : ℕ) → outcome server_example env start n ≡ logged (Server.poll (env n).met tt).1
    unfolding server_example await_server polled
    outcome-awaits zero = ap (λ r. r.1) first_poll-awaits
    outcome-awaits (suc n) = ap (λ s. (server_example (env (suc n)) s).1) (polled-awaits n)

    -- What the client writes is what the server logs. If the set-up succeeds, and no poll before
    -- the one of number `k` brings data, and that one accepts a stream on which the bytes arrive,
    -- in any pieces, that went out for the client's events, at least one of them, then `run` ends
    -- `server_example` after `k + 1` polls, with those bytes.
    pub server_example_lem :
        (priority : Priority) (fuel k byte : ℕ) (bytes : List ℕ) (pieces : List (ℕ × List ℕ))
        (fails would_block : Bool)
        → k < fuel
        → ((i : ℕ) → i < k → sent_in (env i).met ≡ [])
        → notified (env k).met.events ≡ true
        → (env k).met.accepted ≡ some (arrive ((byte, bytes) ∷ pieces) (ending fails would_block))
        → joined ((byte, bytes) ∷ pieces) ≡ (write_events stream (env 0).client_events).1
        → run server_example fuel env (record { future = start; priority = priority })
          ≡ some (some (write_events stream (env 0).client_events).1, suc k)
    server_example_lem priority fuel k byte bytes pieces fails would_block lt before seen stream_at
          same =
        run-ready server_example env (record { future = start; priority = priority }) _ fuel k lt
          (λ i h. outcome-awaits i ∙ ap logged (poll-quiet (env i).met (before i h)))
          (outcome-awaits k
            ∙ ap logged
                (poll-receives (env k).met byte bytes pieces fails would_block seen stream_at)
            ∙ ap (λ b. ready (some b)) same)

  -- An error in the set-up is a panic in the first poll.
  pub server_example_panics :
      (env : ℕ → Turn) (priority : Priority) (fuel : ℕ)
      → set_up ≡ none
      → 0 < fuel
      → run server_example fuel env (record { future = start; priority = priority })
        ≡ some (none, 1)
  unfolding server_example polled
  server_example_panics env priority fuel e lt =
      run-ready server_example env (record { future = start; priority = priority }) none fuel 0 lt
        (λ i h. absurd (omega arith)) (ap (λ o. (first_poll (env 0) o).1) e)
