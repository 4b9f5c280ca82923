-- ===== src/Config.antt =====
-- imputio/src/executor/mod.rs: the configuration of executors and their threads, and `PollerCfg` of
-- imputio/src/io/epoll.rs. Each `with_` method takes `self` by value and gives it back.
pub mod Thread
pub mod PollThread
pub mod ExecThread
pub mod Settings
use toy_io.Common.{Bool, true, false, List, [], ◌∷◌}
use ExecThread.{ExecThreadConfig}
use ExecThread

-- `shutdown` is a flag of its own (an `Arc`), which nothing reads; only its value is kept here.
pub record ExecConfig : Type 0 where
  pub exec_thread_config : List ExecThreadConfig
  pub shutdown : Bool

unfoldable pub default_exec : ExecConfig
unfolding ExecThread.default
default_exec = record { exec_thread_config = ExecThread.default ∷ []; shutdown = false }

unfoldable pub with_cfg : ExecConfig → List ExecThreadConfig → ExecConfig
with_cfg c exec_thread_config = record c { exec_thread_config = exec_thread_config }

unfoldable pub with_shutdown : ExecConfig → Bool → ExecConfig
with_shutdown c shutdown = record c { shutdown = shutdown }

abbrev none_given : List ExecThreadConfig → Bool
none_given [] = true
none_given (_ ∷ _) = false

unfoldable pub is_empty : ExecConfig → Bool
is_empty c = none_given c.exec_thread_config
