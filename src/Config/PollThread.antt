-- ===== src/Config/PollThread.antt =====
-- imputio/src/executor/mod.rs: `PollThreadConfig`, for the thread of an I/O actor.
use Prim.Native.String.{String}
use toy_io.Common.{ℕ, Option}
use toy_io.Config.Thread.{ThreadConfig}
use toy_io.Config.Thread

-- imputio/src/io/epoll.rs
pub record PollerCfg : Type 0 where
  pub event_size : ℕ

abbrev pub default_poller : PollerCfg
default_poller = record { event_size = 256 }

pub record PollThreadConfig : Type 0 where
  pub thread_cfg : ThreadConfig
  pub poll_cfg : PollerCfg

unfoldable pub default : PollThreadConfig
unfolding Thread.default
default = record {
  thread_cfg = record Thread.default { thread_name = "imputio-io-actor-thread" };
  poll_cfg = default_poller;
}

unfoldable pub with_poll_thread_cfg : PollThreadConfig → PollerCfg → PollThreadConfig
with_poll_thread_cfg c poll_cfg = record c { poll_cfg = poll_cfg }

unfoldable pub with_name : PollThreadConfig → String → PollThreadConfig
unfolding Thread.with_name
with_name c name = record c { thread_cfg = Thread.with_name c.thread_cfg name }

unfoldable pub with_core_affinity : PollThreadConfig → ℕ → PollThreadConfig
unfolding Thread.with_core_affinity
with_core_affinity c core_id = record c {
  thread_cfg = Thread.with_core_affinity c.thread_cfg core_id;
}

unfoldable pub with_stack_size : PollThreadConfig → ℕ → PollThreadConfig
unfolding Thread.with_stack_size
with_stack_size c size = record c { thread_cfg = Thread.with_stack_size c.thread_cfg size }

unfoldable pub with_no_parking : PollThreadConfig → PollThreadConfig
unfolding Thread.with_no_parking
with_no_parking c = record c { thread_cfg = Thread.with_no_parking c.thread_cfg }

unfoldable pub with_parking : PollThreadConfig → ℕ → PollThreadConfig
unfolding Thread.with_parking
with_parking c timeout = record c { thread_cfg = Thread.with_parking c.thread_cfg timeout }

unfoldable pub parking : PollThreadConfig → Option ℕ
parking c = c.thread_cfg.parking
