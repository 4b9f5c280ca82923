-- ===== src/Examples/Tests.antt =====
-- examples: runs on small inputs.
use toy_io.Common.{ℕ, zero, suc, true, false, none, some, List, [], ◌∷◌}
use toy_io.EventBus.{EventBus}
use toy_io.EventBus.Samples.{Local}
use toy_io.EventBus.Handles.{SubHandle}
use toy_io.Examples.Reading.{closed, arrive}
use toy_io.Examples.Server
use toy_io.Examples.TcpServer
use toy_io.Examples.Sockets
use toy_io.Examples.Events

abbrev two_pieces : List (ℕ × List ℕ)
two_pieces = (104, 105 ∷ []) ∷ (33, []) ∷ []

-- Nothing happens in the first poll, `accept` fails in the second, and then a client sends a
-- message.
abbrev met_in : ℕ → Server.Met
met_in zero = record { events = []; accepted = none }
met_in (suc zero) = record {
  events = record { server = true; readable = true } ∷ [];
  accepted = none;
}
met_in (suc (suc n)) = record {
  events = record { server = true; readable = true } ∷ [];
  accepted = some (arrive two_pieces closed);
}

abbrev greeting : TcpServer.Client
greeting = record { pieces = two_pieces; fails = true; would_block = true }

abbrev silent : TcpServer.Client
silent = record { pieces = []; fails = false; would_block = false }

abbrev opened : TcpServer.Event
opened = record { write_closed = false; read_closed = false; readable = true; writable = true }

abbrev closing : TcpServer.Event
closing = record { write_closed = false; read_closed = true; readable = true; writable = true }

abbrev sockets : List Sockets.Socket
sockets =
    record { event = none; accepted = none }
    ∷ record { event = some opened; accepted = some closed }
    ∷ record { event = some closing; accepted = none }
    ∷ []

abbrev packet_bus : EventBus Events.Packet
packet_bus = record { event_queues = (3, []) ∷ []; ids = []; recycle = [] }

abbrev packet_net : Local Events.Packet
packet_net = record { state = some packet_bus; replies = []; fresh = 0 }

abbrev subscriber : SubHandle
subscriber = record { id = 3 }
