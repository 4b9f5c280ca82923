-- ===== src/Examples/Server.antt =====
-- examples/server/simple/main.rs: `ServerFuture`, a future that is ready with what a client sends.
-- The listener and the `Poll` of mio are parameters: what they give to a poll of the future is
-- `Met`.
pub mod SetUp
use toy_io.Common.{
  ℕ, suc, ◌<◌, ◌≡◌, ◌≢◌, ◌↔◌, refl, ◌∙◌, ap, Bool, true, false, ◌&&◌, ◌||◌, Option, none, some,
  List, [], ◌∷◌, arith, if◌then◌else◌,
}
use toy_io.Task.{Poll, ready, pending, Priority, run}
use toy_io.Task.Run.{run-ready}
use toy_io.Examples.Reading.{Reads, read_all, arrive, joined, ending, read_all-arrive}

-- Whether the token is `SERVER`, and `is_readable`.
pub record Event : Type 0 where
  pub server : Bool
  pub readable : Bool

-- The events that mio gives, none if it fails, and the stream that `accept` gives, `none` if that
-- fails.
pub record Met : Type 0 where
  pub events : List Event
  pub accepted : Option Reads

-- What is returned, and whether the waker was called.
abbrev pub Polled : Type 0
Polled = Poll (List ℕ) × Bool

unfoldable pub with_data : List ℕ → Polled
with_data [] = (pending, true)
with_data (byte ∷ bytes) = (ready (byte ∷ bytes), false)

unfoldable pub serve : Option Reads → Polled
unfolding with_data
serve none = (pending, false)
serve (some stream) = with_data (read_all stream [])

-- The `for` loop over the events returns at the first one of the server that is readable.
unfoldable pub poll_events : List Event → Option Reads → Polled
unfolding serve
poll_events [] accepted = (pending, true)
poll_events (event ∷ events) accepted =
    let rest = poll_events events accepted in
    if event.server && event.readable then serve accepted else rest

unfoldable pub poll : Met → Unit {0} → Unit {0} × Poll (List ℕ)
unfolding poll_events
poll met f = (tt, (poll_events met.events met.accepted).0)

-- There is an event of the server that is readable.
abbrev pub notified : List Event → Bool
notified [] = false
notified (event ∷ events) = event.server && event.readable || notified events

poll_events-notified :
    (events : List Event) (accepted : Option Reads)
    → poll_events events accepted ≡ (if notified events then serve accepted else (pending, true))
unfolding poll_events
poll_events-notified [] accepted = refl
poll_events-notified (event ∷ events) accepted =
    ground (arith, poll_events-notified events accepted)

abbrev is_none : Option Reads → Bool
is_none none = true
is_none (some _) = false

-- The only poll that is pending without a call of the waker is one whose `accept` fails.
pub poll_events_sleeps_iff :
    (events : List Event) (accepted : Option Reads)
    → (poll_events events accepted ≡ (pending, false))
      ↔ ((notified events && is_none accepted) ≡ true)
unfolding serve with_data
poll_events_sleeps_iff events accepted =
    rw (poll_events-notified events accepted) (sleeps (notified events) accepted)
  where
    awake : (bytes : List ℕ) → with_data bytes ≢ (pending, false)
    awake [] e = let wrong : true ≡ false = ap (λ r. r.1) e in cc
    awake (byte ∷ bytes) e = let wrong : ready (byte ∷ bytes) ≡ pending = ap (λ r. r.0) e in cc

    sleeps :
        (b : Bool) (accepted : Option Reads)
        → ((if b then serve accepted else (pending, true)) ≡ (pending, false))
          ↔ ((b && is_none accepted) ≡ true)
    sleeps true none = (λ _. refl, λ _. refl)
    sleeps true (some stream) = (λ e. absurd (awake (read_all stream []) e), λ e. cc)
    sleeps false accepted = (λ e. let wrong : true ≡ false = ap (λ r. r.1) e in cc, λ e. cc)

-- What a client sends in a poll: nothing if there is no event, no connection or no data on it.
abbrev from_stream : Option Reads → List ℕ
from_stream none = []
from_stream (some stream) = read_all stream []

abbrev pub sent_in : Met → List ℕ
sent_in met = if notified met.events then from_stream met.accepted else []

pub poll-quiet : (met : Met) → sent_in met ≡ [] → (poll met tt).1 ≡ pending
unfolding poll serve with_data
poll-quiet met e =
    ap (λ r. r.0) (poll_events-notified met.events met.accepted)
    ∙ quiet (notified met.events) met.accepted e
  where
    no_data : (bytes : List ℕ) → bytes ≡ [] → (with_data bytes).0 ≡ pending
    no_data bytes h = rw (h, with_data) refl

    quiet :
        (b : Bool) (accepted : Option Reads)
        → (if b then from_stream accepted else []) ≡ []
        → (if b then serve accepted else (pending, true)).0 ≡ pending
    quiet true none h = refl
    quiet true (some stream) h = no_data (read_all stream []) h
    quiet false accepted h = refl

pub poll-receives :
    (met : Met) (byte : ℕ) (bytes : List ℕ) (pieces : List (ℕ × List ℕ)) (fails would_block : Bool)
    → notified met.events ≡ true
    → met.accepted ≡ some (arrive ((byte, bytes) ∷ pieces) (ending fails would_block))
    → (poll met tt).1 ≡ ready (joined ((byte, bytes) ∷ pieces))
unfolding poll joined with_data serve
poll-receives met byte bytes pieces fails would_block seen stream =
    ap (λ r. r.0) (poll_events-notified met.events met.accepted)
    ∙ rw (seen, stream, serve, read_all-arrive ((byte, bytes) ∷ pieces) fails would_block []) refl

-- The future gives the whole message of the first client that sends one: if no poll before the one
-- of number `k` brings data, whether for want of an event, of a connection or of data on it, and
-- that poll accepts a stream on which a message that is not empty arrives in any pieces, then `run`
-- returns that message after `k + 1` polls.
pub server_receives :
    (env : ℕ → Met) (priority : Priority) (fuel k byte : ℕ) (bytes : List ℕ)
    (pieces : List (ℕ × List ℕ)) (fails would_block : Bool)
    → k < fuel
    → ((i : ℕ) → i < k → sent_in (env i) ≡ [])
    → notified (env k).events ≡ true
    → (env k).accepted ≡ some (arrive ((byte, bytes) ∷ pieces) (ending fails would_block))
    → run poll fuel env (record { future = tt; priority = priority })
      ≡ some (joined ((byte, bytes) ∷ pieces), suc k)
server_receives env priority fuel k byte bytes pieces fails would_block h before seen stream =
    run-ready poll env (record { future = tt; priority = priority }) _ fuel k h
      (λ i lt. poll-quiet (env i) (before i lt))
      (poll-receives (env k) byte bytes pieces fails would_block seen stream)
