-- ===== src/Config/Thread.antt =====
-- imputio/src/executor/mod.rs: `ThreadConfig`.
use Prim.Native.String.{String}
use toy_io.Common.{ℕ, Option, none, some}

pub record ThreadConfig : Type 0 where
  pub thread_name : String
  pub stack_size : ℕ
  pub core_id : Option ℕ
  pub parking : Option ℕ

unfoldable pub default : ThreadConfig
default = record {
  thread_name = "imputio-thread";
  stack_size = 131072;
  core_id = none;
  parking = some 10;
}

unfoldable pub with_name : ThreadConfig → String → ThreadConfig
with_name c name = record c { thread_name = name }

unfoldable pub with_core_affinity : ThreadConfig → ℕ → ThreadConfig
with_core_affinity c core_id = record c { core_id = some core_id }

unfoldable pub with_stack_size : ThreadConfig → ℕ → ThreadConfig
with_stack_size c size = record c { stack_size = size }

unfoldable pub with_no_parking : ThreadConfig → ThreadConfig
with_no_parking c = record c { parking = none }

unfoldable pub with_parking : ThreadConfig → ℕ → ThreadConfig
with_parking c timeout = record c { parking = some timeout }
