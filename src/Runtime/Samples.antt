-- ===== src/Runtime/Samples.antt =====
-- imputio/src/runtime.rs: channels, runtimes and worlds for the tests.
use mathlib.Core.Option.{some-injective}
use toy_io.Common.{
  ℕ, zero, suc, ◌≡◌, ◌≢◌, refl, Bool, true, false, Option, none, some, List, [], ◌∷◌, arith, inr,
}
use toy_io.Flume.{Link, Notices, RoomFor}
use toy_io.Executor.Protocol.{Transaction, Result}
use toy_io.Config.{ExecConfig, default_exec, with_cfg}
use toy_io.Config.ExecThread.{ExecThreadConfig}
use toy_io.Config.ExecThread
use toy_io.Coordinator.{ExecHandleCoordinator}
use toy_io.Coordinator
use toy_io.Runtime.{ImputioRuntime, World}
use toy_io.Runtime.Builder.{ImputioRuntimeBuilder}
use toy_io.Runtime.Sound.{IsSound}

-- A channel that holds at most one notice.
abbrev pub put : Bool → Option Bool
put true = none
put false = some true

abbrev pub take : Bool → Option Bool
take true = some false
take false = none

abbrev pub count : Bool → ℕ
count true = 1
count false = 0

abbrev pub one_at_most : Option ℕ
one_at_most = some 1

pub put-room :
    (c : Bool)
    → RoomFor one_at_most (count c)
    → (c' : Bool) × (put c ≡ some c') × (count c' ≡ suc (count c)) × (one_at_most ≡ one_at_most)
put-room true h = absurd (omega arith)
put-room false h = (true, refl, refl, refl)

pub put-full : (c : Bool) → one_at_most ≡ some (count c) → put c ≡ none
put-full true e = refl
put-full false e = absurd (omega (arith, some-injective 1 0 e))

pub take-some :
    (c : Bool) (n : ℕ)
    → count c ≡ suc n
    → (c' : Bool) × (take c ≡ some c') × (count c' ≡ n) × (one_at_most ≡ one_at_most)
take-some true n e = (false, refl, omega arith, refl)
take-some false n e = absurd (omega arith)

pub take-none : (c : Bool) → count c ≡ 0 → take c ≡ none
take-none true e = absurd (omega arith)
take-none false e = refl

abbrev pub one_notice : Notices
one_notice = record {
  Chan = Bool;
  fresh = false;
  capacity = λ c. one_at_most;
  queued = count;
  send = put;
  try_recv = take;
  queued-fresh = refl;
  capacity-fresh = refl;
  send-room = put-room;
  send-full = put-full;
  try_recv-some = take-some;
  try_recv-none = take-none;
}

-- A handle counts what was sent; 0 is one whose executor is gone.
abbrev pub counted : ℕ → Transaction ℕ ℕ ℕ → Option ℕ
counted zero m = none
counted (suc n) m = some (suc (suc n))

abbrev pub counting : Link (Transaction ℕ ℕ ℕ) ℕ (Result (Unit {0}))
counting = record { Net = ℕ; bounded = λ n. (0, n); send = counted; recv = λ n r. (n, none) }

abbrev pub start_counted : ExecThreadConfig → Option ℕ
start_counted cfg = some 1

abbrev pub rt : Bool → ImputioRuntime
rt state = record {
  exec_thread_id = 1;
  reserved_core_ids = [];
  runtime_core = none;
  cfg = with_cfg default_exec (ExecThread.default ∷ ExecThread.default ∷ []);
  state = state;
}

abbrev pub fresh_world : World ℕ Bool
fresh_world = record {
  rt = rt false;
  shutdown = false;
  executor = Coordinator.new 0;
  replaced = [];
  polling = 0;
}

abbrev pub running_world : World ℕ Bool
running_world = record {
  rt = rt true;
  shutdown = false;
  executor = Coordinator.initialize (5 ∷ 6 ∷ []);
  replaced = Coordinator.new 0 ∷ [];
  polling = 1;
}

pub fresh_world-IsSound : IsSound counting one_notice 0 fresh_world
unfolding Coordinator.new
fresh_world-IsSound = record {
  valid = record { inside = omega arith; fits = omega arith };
  unstarted = λ _. (refl, refl);
  quiet = tt;
}

pub running_world-IsSound : IsSound counting one_notice 0 running_world
unfolding Coordinator.new Coordinator.initialize
running_world-IsSound = record {
  valid = record { inside = omega arith; fits = omega arith };
  unstarted = λ e. cc;
  quiet = (inr (refl, refl), tt);
}

pub start_counted-some : (cfg : ExecThreadConfig) → start_counted cfg ≢ none
start_counted-some cfg e = cc

-- A generated function that takes the fields.
abbrev pub taken :
    Option ℕ
    → Option Bool
    → Option (List ℕ)
    → Option (Option ℕ)
    → Option ExecConfig
    → Option Bool
    → Option (ImputioRuntime × Bool)
taken (some t) (some c) (some r) (some p) (some g) (some s) =
    some (
      record { exec_thread_id = t; reserved_core_ids = r; runtime_core = p; cfg = g; state = s },
      c,
    )
taken _ _ _ _ _ _ = none

abbrev pub build_fields : ImputioRuntimeBuilder Bool → Option (ImputioRuntime × Bool) × Unit {0}
build_fields b =
    (taken b.exec_thread_id b.shutdown b.reserved_core_ids b.runtime_core b.cfg b.state, tt)
