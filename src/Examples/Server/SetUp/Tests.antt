-- ===== src/Examples/Server/SetUp/Tests.antt =====
-- examples/server/simple/main.rs: a run of the example on a small network.
use toy_io.Common.{ℕ, zero, suc, ◌<◌, ◌≡◌, refl, true, some, List, [], ◌∷◌, arith}
use toy_io.Task.{low, run}
use toy_io.Examples.Reading.{closed, arrive, joined, ending}
use toy_io.Examples.Server.{sent_in}
use toy_io.Examples.Server.SetUp
use toy_io.Examples.Server.SetUp.{Net, Turn, message, server_example, start, set_up, write_events}

-- Everything succeeds; a stream counts its writes.
abbrev local_net : Net
local_net = record {
  Addr = ℕ;
  Listener = ℕ;
  Stream = ℕ;
  MioPoll = List ℕ;
  parse = λ text. some 6676;
  bind = λ addr. some addr;
  local_addr = λ listener. some listener;
  connect = λ addr. some 0;
  new_poll = λ n. some [];
  register_listener = λ poll listener token interest. some (token ∷ poll);
  register_stream = λ poll stream token interest. some (token ∷ poll);
  write_all = λ stream bytes. (suc stream, bytes);
}

abbrev tail_bytes : List ℕ
tail_bytes =
    108 ∷ 105 ∷ 101 ∷ 110 ∷ 116 ∷ 32 ∷ 119 ∷ 114 ∷ 105 ∷ 116 ∷ 116 ∷ 101 ∷ 110 ∷ 32 ∷ 98 ∷ 121 ∷ 116
    ∷ 101 ∷ 115 ∷ 32 ∷ 114 ∷ 101 ∷ 99 ∷ 101 ∷ 105 ∷ 118 ∷ 101 ∷ 100 ∷ []

-- The client may write, and the server gets the message in its second poll.
abbrev turn_in : ℕ → Turn local_net
turn_in zero = record {
  client_events = record { client = true; writable = true } ∷ [];
  met = record { events = []; accepted = some closed };
}
turn_in (suc n) = record {
  client_events = [];
  met = record {
    events = record { server = true; readable = true } ∷ [];
    accepted = some (arrive ((67, tail_bytes) ∷ []) (ending true true));
  };
}

server_example_lem_example :
    run (server_example local_net) 3 turn_in (record { future = start; priority = low })
    ≡ some (some message, 2)
unfolding set_up write_events joined
server_example_lem_example =
    SetUp.server_example_lem local_net turn_in (record { listener = 6676; poll = 0 ∷ [] }) 0 refl
      low 3 1 67 tail_bytes [] true true (omega arith) quiet refl refl refl
  where
    quiet : (i : ℕ) → i < 1 → sent_in (turn_in i).met ≡ []
    quiet zero h = refl
    quiet (suc i) h = absurd (omega arith)
