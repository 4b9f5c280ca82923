-- ===== src/Config/ExecThread.antt =====
-- imputio/src/executor/mod.rs: `ExecThreadConfig`, for the two threads of an executor.
use Prim.Native.String.{String}
use toy_io.Common.{ℕ}
use toy_io.Config.Thread.{ThreadConfig}
use toy_io.Config.Thread
use toy_io.Config.PollThread.{PollThreadConfig}
use toy_io.Config.PollThread

pub record ExecThreadConfig : Type 0 where
  pub thread_cfg : ThreadConfig
  pub poll_thread_cfg : PollThreadConfig

unfoldable pub default : ExecThreadConfig
unfolding Thread.default PollThread.default
default = record {
  thread_cfg = record Thread.default { thread_name = "imputio-exec-thread" };
  poll_thread_cfg = PollThread.default;
}

unfoldable pub with_poll_thread_cfg : ExecThreadConfig → PollThreadConfig → ExecThreadConfig
with_poll_thread_cfg c poll_cfg = record c { poll_thread_cfg = poll_cfg }

unfoldable pub with_name : ExecThreadConfig → String → ExecThreadConfig
unfolding Thread.with_name
with_name c name = record c { thread_cfg = Thread.with_name c.thread_cfg name }

unfoldable pub with_core_affinity : ExecThreadConfig → ℕ → ExecThreadConfig
unfolding Thread.with_core_affinity
with_core_affinity c core_id = record c {
  thread_cfg = Thread.with_core_affinity c.thread_cfg core_id;
}

unfoldable pub with_stack_size : ExecThreadConfig → ℕ → ExecThreadConfig
unfolding Thread.with_stack_size
with_stack_size c size = record c { thread_cfg = Thread.with_stack_size c.thread_cfg size }

unfoldable pub with_no_parking : ExecThreadConfig → ExecThreadConfig
unfolding Thread.with_no_parking
with_no_parking c = record c { thread_cfg = Thread.with_no_parking c.thread_cfg }

unfoldable pub with_parking : ExecThreadConfig → ℕ → ExecThreadConfig
unfolding Thread.with_parking
with_parking c timeout = record c { thread_cfg = Thread.with_parking c.thread_cfg timeout }
