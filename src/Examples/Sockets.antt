-- ===== src/Examples/Sockets.antt =====
-- examples/exec-config/sockets/main.rs: a listener for each core, and the tasks that serve
-- connections. What the listeners, the streams and the channels give is an argument; `none` is a
-- panic.
pub mod SetUp
use toy_io.Common.{
  ℕ, ◌+◌, ◌%◌, ◌≡◌, refl, sym, append-nil, ap, Bool, true, false, ◌||◌, Option, none, some, List,
  [], ◌∷◌, ◌++◌, map, map-append, if◌then◌else◌, arith, ltb,
}
use toy_io.Task.{ImputioTask, high}
use toy_io.Examples.Reading.{Reads, read_all, arrive, joined, ending, read_all-arrive}
use toy_io.Examples.TcpServer.{Event}

-- `3456 + idx as u16`, where an overflow panics.
unfoldable pub port : ℕ → Option ℕ
port idx = let p = 3456 + idx % 65536 in if ltb p 65536 then some p else none

-- `read_and_or_write_socket`: what is written, if something is; `nodelay_ok` and `write_ok` say
-- whether `set_nodelay` and `write_all` succeed.
unfoldable pub read_and_or_write_socket :
    Event → Reads → (nodelay_ok write_ok : Bool) → Option (Option (List ℕ))
read_and_or_write_socket event stream nodelay_ok write_ok =
    let received = if event.readable then read_all stream [] else [] in
    let written =
      if event.writable then (if write_ok then some (some received) else none) else some none in
    if nodelay_ok then written else none

-- What one listener meets: the event that `try_recv` gives, and the stream that `accept` gives.
pub record Socket : Type 0 where
  pub event : Option Event
  pub accepted : Option Reads

-- The task that is spawned for a connection, with its event and its stream.
abbrev pub Serving : Type 0
Serving = ImputioTask (Event × Reads)

abbrev serve : Event → Option Reads → Option (List Serving)
serve event none = none
serve event (some stream) = some (record { future = (event, stream); priority = high } ∷ [])

unfoldable pub visit : Option Event → Option Reads → Option (List Serving)
visit none accepted = some []
visit (some event) accepted =
    if event.write_closed || event.read_closed then some [] else serve event accepted

abbrev followed_by : Option (List Serving) → Option (List Serving) → Option (List Serving)
followed_by (some ts) (some us) = some (ts ++ us)
followed_by _ _ = none

-- The `for_each` over the listeners.
unfoldable pub visit_all : List Socket → Option (List Serving)
unfolding visit
visit_all [] = some []
visit_all (s ∷ sockets) = followed_by (visit s.event s.accepted) (visit_all sockets)

-- The loop of `spawn_tcp_socks`, over what its turns meet: the sockets, and whether there is a
-- shutdown notice. The tasks that it spawns, and whether it has ended.
unfoldable pub spawn_tcp_socks : List (List Socket × Bool) → Option (List Serving × Bool)
unfolding visit_all
spawn_tcp_socks [] = some ([], false)
spawn_tcp_socks ((sockets, notice) ∷ turns) =
    let rest = spawn_tcp_socks turns in
    elim (visit_all sockets) [
      | none ↦ none
      | some tasks ↦
          if notice
          then some (tasks, true)
          else (elim rest [ none ↦ none | some (later, ended) ↦ some (tasks ++ later, ended) ])
    ]

-- The event is of a stream that is open.
abbrev pub is_open : Event → Bool
is_open event = if event.write_closed || event.read_closed then false else true

-- The connections of some sockets, in order.
abbrev connection : Option Event → Option Reads → List (Event × Reads)
connection (some event) (some stream) = if is_open event then (event, stream) ∷ [] else []
connection _ _ = []

abbrev pub connections : List Socket → List (Event × Reads)
connections [] = []
connections (s ∷ sockets) = connection s.event s.accepted ++ connections sockets

-- No `accept` fails for an event of an open stream.
abbrev Accepts : Option Event → Option Reads → Type 0
Accepts (some event) none = is_open event ≡ false
Accepts _ _ = Unit

abbrev pub AllAccept : List Socket → Type 0
AllAccept [] = Unit
AllAccept (s ∷ sockets) = Accepts s.event s.accepted × AllAccept sockets

abbrev pub serving : Event × Reads → Serving
serving c = record { future = c; priority = high }

visit_lem :
    (event : Option Event) (accepted : Option Reads)
    → Accepts event accepted
    → visit event accepted ≡ some (map serving (connection event accepted))
unfolding visit
visit_lem none accepted h = refl
visit_lem (some event) none h = ground arith
visit_lem (some event) (some stream) h = by_open (event.write_closed || event.read_closed)
  where
    by_open :
        (b : Bool)
        → (if b then some [] else some (serving (event, stream) ∷ []))
          ≡ some (map serving (if (if b then false else true) then (event, stream) ∷ [] else []))
    by_open true = refl
    by_open false = refl

visit_all_lem :
    (sockets : List Socket)
    → AllAccept sockets
    → visit_all sockets ≡ some (map serving (connections sockets))
unfolding visit_all
visit_all_lem [] h = refl
visit_all_lem (s ∷ sockets) h =
    rw (visit_lem s.event s.accepted h.0, visit_all_lem sockets h.1)
      (ap (λ ts. some ts)
        (sym (map-append serving (connection s.event s.accepted) (connections sockets))))

-- The connections of turns of the loop, up to the first that has a notice.
abbrev pub all_connections : List (List Socket × Bool) → List (Event × Reads)
all_connections [] = []
all_connections ((sockets, notice) ∷ turns) =
    connections sockets ++ (if notice then [] else all_connections turns)

abbrev pub has_notice : List (List Socket × Bool) → Bool
has_notice [] = false
has_notice ((_, notice) ∷ turns) = notice || has_notice turns

abbrev pub EachAccepts : List (List Socket × Bool) → Type 0
EachAccepts [] = Unit
EachAccepts ((sockets, _) ∷ turns) = AllAccept sockets × EachAccepts turns

-- Each connection is served once: if no `accept` fails, the loop does not panic, spawns a task of
-- the priority high for each connection of its turns, in order, those of the turn with the first
-- shutdown notice included, and has ended exactly if there was a notice.
pub spawn_tcp_socks_lem :
    (turns : List (List Socket × Bool))
    → EachAccepts turns
    → spawn_tcp_socks turns ≡ some (map serving (all_connections turns), has_notice turns)
unfolding spawn_tcp_socks
spawn_tcp_socks_lem [] h = refl
spawn_tcp_socks_lem ((sockets, true) ∷ turns) h =
    rw (spawn_tcp_socks, visit_all_lem sockets h.0, append-nil (connections sockets)) refl
spawn_tcp_socks_lem ((sockets, false) ∷ turns) h =
    rw (spawn_tcp_socks, visit_all_lem sockets h.0, spawn_tcp_socks_lem turns h.1)
      (ap (λ ts. some (ts, has_notice turns))
        (sym (map-append serving (connections sockets) (all_connections turns))))

-- A task writes back what its client sent: the whole message if its event is readable and writable,
-- the empty message if it is writable only, and it writes nothing if it is not writable; it panics
-- only if the socket refuses `set_nodelay` or a write.
pub read_and_or_write_socket_lem :
    (event : Event) (pieces : List (ℕ × List ℕ)) (fails would_block : Bool)
    → read_and_or_write_socket event (arrive pieces (ending fails would_block)) true true
      ≡ some (if event.writable then some (if event.readable then joined pieces else []) else none)
unfolding read_and_or_write_socket
read_and_or_write_socket_lem event pieces fails would_block =
    rw (read_all-arrive pieces fails would_block []) (ground arith)
