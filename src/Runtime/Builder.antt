-- ===== src/Runtime/Builder.antt =====
-- imputio/src/runtime.rs: `RuntimeError` and `ImputioRuntimeBuilder`. A field that was not set is
-- `none`. `build_impl` is what the crate derive_builder generates; with `get_core_ids` of the crate
-- core_affinity and the text of a number (`{:?}`) it is a parameter.
pub mod Built
use Prim.Native.String.{String}
use Prim.Native.String
use toy_io.Common.{ℕ, Bool, true, false, Option, none, some, List, [], ◌∷◌, map, if◌then◌else◌}
use toy_io.Io.{PollError}
use toy_io.Executor.Protocol.{ExecError}
use toy_io.Config.{ExecConfig, default_exec, with_cfg, with_shutdown}
use toy_io.Config.PollThread
use toy_io.Config.ExecThread
use toy_io.Config.ExecThread.{ExecThreadConfig}
use toy_io.Runtime.{ImputioRuntime}

pub data RuntimeError : Type 0 where
  executor_error : ExecError → RuntimeError
  std_io : RuntimeError
  io_poller : PollError → RuntimeError
  internal : String → RuntimeError

pub data Result {ℓ} (A : Type ℓ) : Type ℓ where
  ok : A → Result A
  err : RuntimeError → Result A

-- `Chan` is the channel of shutdown notices, both its ends.
pub record ImputioRuntimeBuilder (Chan : Type 0) : Type 0 where
  pub exec_thread_id : Option ℕ
  pub shutdown : Option Chan
  pub reserved_core_ids : Option (List ℕ)
  pub runtime_core : Option (Option ℕ)
  pub cfg : Option ExecConfig
  pub state : Option Bool

abbrev pub or_default : {A : Type 0} → A → Option A → Option A
or_default a none = some a
or_default a (some b) = some b

abbrev pub exec_config : List ExecThreadConfig → ExecConfig
exec_config [] = with_shutdown default_exec false
exec_config (exec ∷ execs) = with_shutdown (with_cfg default_exec (exec ∷ execs)) false

abbrev pub cores_or_none : Option (List ℕ) → List ℕ
cores_or_none none = []
cores_or_none (some cores) = cores

-- The executor of a core: both its threads are pinned to it.
unfoldable pub exec_of : (ℕ → String) → ℕ → ExecThreadConfig
exec_of debug core =
    let poller_cfg =
      PollThread.with_name (PollThread.with_core_affinity PollThread.default core)
        (String.◌++◌ "imputio-io-" (debug core)) in
    ExecThread.with_name
      (ExecThread.with_poll_thread_cfg (ExecThread.with_core_affinity ExecThread.default core)
        poller_cfg)
      (String.◌++◌ "imputio-exec-" (debug core))

module _ {Chan : Type 0} where
  -- `ImputioRuntimeBuilder::default`
  unfoldable pub default : ImputioRuntimeBuilder Chan
  default = record {
    exec_thread_id = none;
    shutdown = none;
    reserved_core_ids = none;
    runtime_core = none;
    cfg = none;
    state = none;
  }

  pub with_exec_config : ImputioRuntimeBuilder Chan → ExecConfig → ImputioRuntimeBuilder Chan
  with_exec_config b cfg = record b { cfg = some (with_shutdown cfg false) }

  pub use_all_available_cores_with_executor_per_core :
      Option (List ℕ) → (ℕ → String) → ImputioRuntimeBuilder Chan → ImputioRuntimeBuilder Chan
  unfolding exec_of
  use_all_available_cores_with_executor_per_core get_core_ids debug b = record b {
    cfg = some (exec_config (map (exec_of debug) (cores_or_none get_core_ids)));
  }

  pub with_reserved_cores : ImputioRuntimeBuilder Chan → List ℕ → ImputioRuntimeBuilder Chan
  with_reserved_cores b reserved = record b { reserved_core_ids = some reserved }

  pub pin_main_runtime_to_core : ImputioRuntimeBuilder Chan → ℕ → ImputioRuntimeBuilder Chan
  pin_main_runtime_to_core b core = record b { runtime_core = some (some core) }

  -- `ImputioRuntime::builder`
  pub builder : ImputioRuntimeBuilder Chan
  unfolding with_exec_config
  builder = with_exec_config default (with_shutdown default_exec false)

  -- What `build` gives the fields that are not set: `fresh` is a new channel, `thread` the caller.
  pub filled : Chan → ℕ → ImputioRuntimeBuilder Chan → ImputioRuntimeBuilder Chan
  filled fresh thread b = record {
    exec_thread_id = or_default thread b.exec_thread_id;
    shutdown = or_default fresh b.shutdown;
    reserved_core_ids = or_default [] b.reserved_core_ids;
    runtime_core = or_default none b.runtime_core;
    cfg = or_default (with_shutdown default_exec false) b.cfg;
    state = some false;
  }

module _ {Chan E : Type 0} (text : E → String)
    (build_impl : ImputioRuntimeBuilder Chan → Option (ImputioRuntime × Chan) × E) where
  abbrev pub built : Option (ImputioRuntime × Chan) × E → Result (ImputioRuntime × Chan)
  built (some rt, _) = ok rt
  built (none, e) = err (internal (String.◌++◌ "Invalid runtime builder args " (text e)))

  -- The builder is changed too, and can be used again.
  pub build :
      Chan
      → ℕ
      → ImputioRuntimeBuilder Chan
      → ImputioRuntimeBuilder Chan × Result (ImputioRuntime × Chan)
  unfolding filled
  build fresh thread b = let b' = filled fresh thread b in (b', built (build_impl b'))
