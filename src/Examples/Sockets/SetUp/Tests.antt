-- ===== src/Examples/Sockets/SetUp/Tests.antt =====
-- examples/exec-config/sockets/main.rs: the listeners for two executors.
use mathlib.Core.Option.{some-injective}
use toy_io.Common.{
  ℕ, zero, suc, ◌+◌, ◌-◌, ◌<◌, ◌≡◌, refl, sym, ap, get_elem?, true, false, some, [], ◌∷◌, arith,
}
use toy_io.Io.Poller.Samples.{small_mio}
use toy_io.Coordinator.{ExecHandleCoordinator}
use toy_io.Coordinator.Turns.{IsValid}
use toy_io.Api.Samples.{Local, local, never, send, io_channel, local_executed, a_turn, good}
use toy_io.Examples.Sockets.SetUp
use toy_io.Examples.Sockets.SetUp.{System, CanMake, make_listeners}
use toy_io.Examples.Sockets.SetUp.Indices.{turn_index}
use toy_io.Examples.Sockets.SetUp.Spread

-- The port 3456 gives the listener 56, and so on; a channel has its number at both ends.
abbrev sys : System ℕ ℕ ℕ
sys = record {
  bind = λ p. some (p - 3400);
  set_nonblocking = λ listener. true;
  unbounded = λ idx. (idx, idx);
}

clone_lem : (idx : ℕ) → idx < 2 → small_mio.try_clone (56 + idx) ≡ some (56 + idx)
clone_lem idx h = ground arith

listener_lem : (idx : ℕ) → 3456 + idx - 3400 ≡ 56 + idx
listener_lem idx = omega arith

abbrev two_sockets : CanMake small_mio local sys 2
two_sockets = record {
  listener = λ idx. 56 + idx;
  listen_clone = λ idx. 56 + idx;
  in_range = omega arith;
  bound = λ idx h. ap (λ l. some l) (listener_lem idx);
  nonblocking = λ idx h. refl;
  cloned = clone_lem;
}

abbrev two_executors : ExecHandleCoordinator Local
two_executors = record { handles = good ∷ good ∷ []; index = 0; shutdown = false }

two_executors-IsValid : IsValid two_executors
two_executors-IsValid = record { inside = omega arith; fits = omega arith }

all_good : (x : ℕ) (h : Local) → get_elem? two_executors.handles x ≡ some h → h ≡ good
all_good zero h e = sym (some-injective good h e)
all_good (suc zero) h e = sym (some-injective good h e)
all_good (suc (suc x)) h e = cc

all_alive :
    SetUp.AllAlive small_mio local sys false never send io_channel local_executed
      two_executors.handles
all_alive x h e = rw (all_good x h e) refl

make_listeners_one_each_example :
    (c' : ExecHandleCoordinator Local) × (make_listeners small_mio local sys true two_executors 0 2
      ≡ some (c', (56, 0) ∷ (57, 1) ∷ []))
    × ((x : ℕ)
        → x < 2
        → (k : ℕ) × (turn_index 0 2 k ≡ x)
          × SetUp.Got small_mio local sys false never send io_channel local_executed
              two_executors.handles c'.handles x
              (SetUp.registration small_mio local sys false never send io_channel local_executed
                two_sockets k))
make_listeners_one_each_example =
    Spread.make_listeners_one_each small_mio local sys false never send io_channel local_executed
      two_sockets a_turn two_executors (omega arith) two_executors-IsValid all_alive
