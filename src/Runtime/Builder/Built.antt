-- ===== src/Runtime/Builder/Built.antt =====
-- imputio/src/runtime.rs: the runtimes that a builder makes.
use Prim.Native.String.{String}
use toy_io.Common.{ℕ, ◌≡◌, refl, ap, Bool, false, Option, none, some, List, [], ◌∷◌, map}
use toy_io.Config.{ExecConfig, default_exec, with_shutdown, with_cfg}
use toy_io.Config.ExecThread.{ExecThreadConfig}
use toy_io.Config.ExecThread
use toy_io.Config.PollThread
use toy_io.Runtime.{ImputioRuntime}
use toy_io.Runtime.Builder.{
  ImputioRuntimeBuilder, ok, built, or_default, exec_of, filled, build,
  use_all_available_cores_with_executor_per_core,
}

abbrev pub given_or : {A : Type 0} → A → Option A → A
given_or a none = a
given_or a (some b) = b

-- The runtime of a builder's fields.
abbrev pub runtime_of : {Chan : Type 0} → ℕ → ImputioRuntimeBuilder Chan → ImputioRuntime
runtime_of thread b = record {
  exec_thread_id = given_or thread b.exec_thread_id;
  reserved_core_ids = given_or [] b.reserved_core_ids;
  runtime_core = given_or none b.runtime_core;
  cfg = given_or (with_shutdown default_exec false) b.cfg;
  state = false;
}

or_default-given_or : {A : Type 0} (a : A) (o : Option A) → or_default a o ≡ some (given_or a o)
or_default-given_or a none = refl
or_default-given_or a (some b) = refl

or_default-or_default :
    {A : Type 0} (a a' : A) (o : Option A) → or_default a' (or_default a o) ≡ or_default a o
or_default-or_default a a' none = refl
or_default-or_default a a' (some b) = refl

filled-filled :
    {Chan : Type 0} (fresh fresh' : Chan) (thread thread' : ℕ) (b : ImputioRuntimeBuilder Chan)
    → filled fresh' thread' (filled fresh thread b) ≡ filled fresh thread b
unfolding filled
filled-filled fresh fresh' thread thread' b =
    rw
      (
        or_default-or_default thread thread' b.exec_thread_id,
        or_default-or_default fresh fresh' b.shutdown,
        or_default-or_default [] [] b.reserved_core_ids,
        or_default-or_default none none b.runtime_core,
        or_default-or_default (with_shutdown default_exec false) (with_shutdown default_exec false)
            b.cfg,
      )
      refl

-- The generated function succeeds if every field is set, and then takes each as it is.
abbrev pub TakesFields :
    {Chan E : Type 0} → (ImputioRuntimeBuilder Chan → Option (ImputioRuntime × Chan) × E) → Type 0
TakesFields {Chan} build_impl =
    (thread : ℕ) (chan : Chan) (reserved : List ℕ) (core : Option ℕ) (cfg : ExecConfig)
    (state : Bool)
    → (build_impl (record {
      exec_thread_id = some thread;
      shutdown = some chan;
      reserved_core_ids = some reserved;
      runtime_core = some core;
      cfg = some cfg;
      state = some state;
    })).0
      ≡ some (
        record {
          exec_thread_id = thread;
          reserved_core_ids = reserved;
          runtime_core = core;
          cfg = cfg;
          state = state;
        },
        chan,
      )

module _ {Chan E : Type 0} (text : E → String)
    (build_impl : ImputioRuntimeBuilder Chan → Option (ImputioRuntime × Chan) × E)
    (takes : TakesFields build_impl) where
  filled-build_impl :
      (fresh : Chan) (thread : ℕ) (b : ImputioRuntimeBuilder Chan)
      → (build_impl (filled fresh thread b)).0
        ≡ some (runtime_of thread b, given_or fresh b.shutdown)
  unfolding filled
  filled-build_impl fresh thread b =
      rw
        (
          or_default-given_or thread b.exec_thread_id,
          or_default-given_or fresh b.shutdown,
          or_default-given_or [] b.reserved_core_ids,
          or_default-given_or none b.runtime_core,
          or_default-given_or (with_shutdown default_exec false) b.cfg,
        )
        (takes (given_or thread b.exec_thread_id) (given_or fresh b.shutdown)
          (given_or [] b.reserved_core_ids) (given_or none b.runtime_core)
          (given_or (with_shutdown default_exec false) b.cfg) false)

  built-some :
      (r : Option (ImputioRuntime × Chan) × E) (x : ImputioRuntime × Chan)
      → r.0 ≡ some x
      → built text build_impl r ≡ ok x
  built-some (none, e) x h = cc
  built-some (some y, e) x h = cc

  -- `build` never fails: the runtime has each field as it was set, or else its default, and is not
  -- running. A second `build` of the same builder makes a runtime with the same fields that is not
  -- running either, and which shares the channel of shutdown notices with the first.
  pub build_lem :
      (fresh fresh' : Chan) (thread thread' : ℕ) (b : ImputioRuntimeBuilder Chan)
      → let (b', first) = build text build_impl fresh thread b in
        let (_, second) = build text build_impl fresh' thread' b' in
        let chan = given_or fresh b.shutdown in
        (first ≡ ok (runtime_of thread b, chan)) × (second ≡ ok (runtime_of thread b, chan))
  unfolding build
  build_lem fresh fresh' thread thread' b =
      let e = filled-build_impl fresh thread b in
      let first = built-some (build_impl (filled fresh thread b)) _ e in
      (first, rw (filled-filled fresh fresh' thread thread' b) first)

pub pinned :
    (debug : ℕ → String) (cores : List ℕ)
    → (map (λ (c : ExecThreadConfig). c.thread_cfg.core_id) (map (exec_of debug) cores)
        ≡ map some cores)
      × (map
            (λ (c : ExecThreadConfig). c.poll_thread_cfg.thread_cfg.core_id)
            (map (exec_of debug) cores)
          ≡ map some cores)
unfolding exec_of ExecThread.with_name ExecThread.with_poll_thread_cfg ExecThread.with_core_affinity
    PollThread.with_name PollThread.with_core_affinity
pinned debug [] = (refl, refl)
pinned debug (core ∷ cores) =
    let (e, p) = pinned debug cores in (ap (◌∷◌ (some core)) e, ap (◌∷◌ (some core)) p)

-- With an executor on each core the configuration is never empty: it has one executor for each core
-- that the system reports, in order, with both threads pinned to that core, or, if the system
-- reports none, the one executor of the default.
pub use_all_cores_lem :
    {Chan : Type 0} (cores : List ℕ) (core : ℕ) (debug : ℕ → String)
    (b : ImputioRuntimeBuilder Chan)
    → let execs = λ (get : Option (List ℕ)).
      (given_or default_exec
        (use_all_available_cores_with_executor_per_core get debug b).cfg).exec_thread_config in
      (map (λ (c : ExecThreadConfig). c.thread_cfg.core_id) (execs (some (core ∷ cores)))
        ≡ map some (core ∷ cores))
      × (map
            (λ (c : ExecThreadConfig). c.poll_thread_cfg.thread_cfg.core_id)
            (execs (some (core ∷ cores)))
          ≡ map some (core ∷ cores))
      × (execs (some []) ≡ ExecThread.default ∷ [])
      × (execs none ≡ ExecThread.default ∷ [])
unfolding use_all_available_cores_with_executor_per_core with_shutdown with_cfg default_exec
use_all_cores_lem cores core debug b =
    let (e, p) = pinned debug (core ∷ cores) in (e, p, refl, refl)
