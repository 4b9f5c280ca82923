-- ===== src/Api/Entry.antt =====
-- imputio/src/lib.rs: `rt_entry`, which builds a runtime, blocks on a future and drops the runtime.
use Prim.Native.String.{String}
use toy_io.Common.{◌⊎◌, ℕ, ◌≡◌, Bool, true, Option, List, [], ◌∷◌}
use toy_io.Flume.{Notices}
use toy_io.Config.ExecThread.{ExecThreadConfig}
use toy_io.Config.ExecThread
use toy_io.Coordinator.{ExecHandleCoordinator, initialize}
use toy_io.Coordinator
use toy_io.Runtime.{ImputioRuntime, World, Outcome, done, blocks, panics}
use toy_io.Runtime
use toy_io.Runtime.Builder.{ImputioRuntimeBuilder, Result, ok, err, build, default}
use toy_io.Api.{block_on}

-- The global executor and the coordinators that it replaced.
pub record Globals (H : Type 0) : Type 0 where
  pub executor : ExecHandleCoordinator H
  pub replaced : List (ExecHandleCoordinator H)

-- No executor runs for these coordinators: each has none, or its flag is set.
abbrev pub AtRest : {H : Type 0} → H → List (ExecHandleCoordinator H) → Type 0
AtRest gone [] = Unit
AtRest gone (c ∷ cs) = ((c.shutdown ≡ true) ⊎ (c.handles ≡ gone ∷ [])) × AtRest gone cs

module _ {E H : Type 0} (notices : Notices) (gone : H) (text : E → String)
    (build_impl : ImputioRuntimeBuilder notices.Chan → Option (ImputioRuntime × notices.Chan) × E)
    (start_thread : ExecThreadConfig → Option H) where
  open notices use {Chan, fresh, capacity, queued}

  abbrev pub world_of : Globals H → ImputioRuntime → Chan → World H Chan
  world_of g rt chan = record {
    rt = rt;
    shutdown = chan;
    executor = g.executor;
    replaced = g.replaced;
    polling = 0;
  }

  abbrev pub dropped_after :
      {T : Type 0} → Bool → T → Outcome (World H Chan) → Outcome (Bool × (World H Chan × T))
  dropped_after flag val (done w) = done (flag, (w, val))
  dropped_after flag val blocks = blocks
  dropped_after flag val panics = panics

  -- The runtime is dropped when the future's value is there.
  abbrev pub drop_runtime :
      {T : Type 0} → Outcome (Bool × (World H Chan × T)) → Outcome (Bool × (World H Chan × T))
  drop_runtime (done (flag, (w, val))) = dropped_after flag val (Runtime.shutdown notices gone w)
  drop_runtime blocks = blocks
  drop_runtime panics = panics

  abbrev pub enter_with :
      {T : Type 0}
      → ℕ
      → Globals H
      → (World H Chan → Bool → Option (Bool × (World H Chan × T)))
      → Bool
      → Result (ImputioRuntime × Chan)
      → Outcome (Bool × (World H Chan × T))
  enter_with thread g result flag (err _) = panics
  enter_with thread g result flag (ok (rt, chan)) =
      drop_runtime (block_on start_thread thread (world_of g rt chan) result flag)

  -- `caller` is the thread that calls, `thread` the new one that polls, `flag` the caller's flag
  -- for blocking calls, and `result` what the future gives, as for `block_on`.
  unfoldable pub rt_entry :
      {T : Type 0}
      → (caller thread : ℕ) → Globals H
      → (World H Chan → Bool → Option (Bool × (World H Chan × T)))
      → Bool
      → Outcome (Bool × (World H Chan × T))
  unfolding block_on
  rt_entry caller thread g result flag =
      enter_with thread g result flag (build text build_impl fresh caller default).1
