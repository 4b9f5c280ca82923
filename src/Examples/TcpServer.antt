-- ===== src/Examples/TcpServer.antt =====
-- examples/server/tcp-server/main.rs: the loop of the TCP server, which waits for events of the I/O
-- actor. What the channels, the listener and the streams give in a turn is an argument.
use toy_io.Common.{
  ℕ, Bool, true, false, ◌||◌, Option, none, some, List, [], ◌∷◌, ◌++◌, if◌then◌else◌,
}
use toy_io.Examples.Reading.{Reads, read_all, arrive, ending}

-- `mio::event::Event`, as far as it is asked.
pub record Event : Type 0 where
  pub write_closed : Bool
  pub read_closed : Bool
  pub readable : Bool
  pub writable : Bool

-- What `try_recv` of the channel of shutdown notices gives.
pub data Notice : Type 0 where
  disconnected empty received : Notice

-- One turn: the event, if there is one; whether the notifier is gone; the stream that `accept`
-- gives, if it does; whether `write_all` succeeds; and the shutdown notice.
pub record Turn : Type 0 where
  pub event : Option Event
  pub notifier_gone : Bool
  pub accepted : Option Reads
  pub write_ok : Bool
  pub notice : Notice

-- What follows a turn: the next one, or the end of `main` with `Ok(())` or with an error.
pub data Next : Type 0 where
  continues breaks fails : Next

-- The check at the end of a turn.
unfoldable pub check_notice : Notice → Next
check_notice disconnected = breaks
check_notice empty = continues
check_notice received = breaks

-- The data of an event that is not readable is empty, and it is written all the same.
unfoldable pub read_data : Event → Reads → List ℕ
read_data event stream = if event.readable then read_all stream [] else []

-- What was written, at most one message, and what follows.
unfoldable pub echo : Event → Turn → Option Reads → List (List ℕ) × Next
unfolding check_notice read_data
echo event turn none = ([], fails)
echo event turn (some stream) =
    if event.writable
    then (if turn.write_ok
        then (read_data event stream ∷ [], check_notice turn.notice)
        else ([], fails))
    else ([], check_notice turn.notice)

unfoldable pub on_event : Turn → Option Event → List (List ℕ) × Next
unfolding echo
on_event turn none = if turn.notifier_gone then ([], breaks) else ([], check_notice turn.notice)
on_event turn (some event) =
    if event.write_closed || event.read_closed then ([], breaks) else echo event turn turn.accepted

-- How the loop stands when it has had the given turns.
unfoldable pub then_next : Next → List (List ℕ) → List (List ℕ) × Next → List (List ℕ) × Next
then_next continues written (later, next) = (written ++ later, next)
then_next breaks written _ = (written, breaks)
then_next fails written _ = (written, fails)

unfoldable pub loop_turns : List Turn → List (List ℕ) × Next
unfolding on_event then_next
loop_turns [] = ([], continues)
loop_turns (turn ∷ turns) =
    let rest = loop_turns turns in
    let (written, next) = on_event turn turn.event in then_next next written rest

-- A client: the pieces in which its message arrives, and how its stream then ends.
pub record Client : Type 0 where
  pub pieces : List (ℕ × List ℕ)
  pub fails : Bool
  pub would_block : Bool

-- The turn that serves a client with the given notice, whose stream can be read and written.
abbrev pub served_with : Notice → Client → Turn
served_with notice c = record {
  event =
      some (record { write_closed = false; read_closed = false; readable = true; writable = true });
  notifier_gone = false;
  accepted = some (arrive c.pieces (ending c.fails c.would_block));
  write_ok = true;
  notice = notice;
}
