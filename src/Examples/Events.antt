-- ===== src/Examples/Events.antt =====
-- examples/exec-config/events/main.rs: an event bus of packets on a runtime that leaves a core to
-- the main thread. The sleeps and the log are not modelled.
pub mod Exits
pub mod Flow
use Prim.Native.String.{String}
use toy_io.Common.{ℕ, Bool, true, false, ◌&&◌, Option, none, some, List, [], ◌∷◌, map, ◌==◌}
use toy_io.Flume.{Link}
use toy_io.EventBus.Protocol.{EventBusMessage, Answer, Result}
use toy_io.EventBus.Handles.{publish_event}
use toy_io.Config.{ExecConfig, default_exec, with_cfg}
use toy_io.Config.ExecThread.{ExecThreadConfig}
use toy_io.Runtime.Builder.{cores_or_none, exec_of}

pub record Packet : Type 0 where
  pub bytes : List ℕ
  pub size : ℕ

abbrev configured : List ExecThreadConfig → ExecConfig
configured [] = default_exec
configured (exec ∷ execs) = with_cfg default_exec (exec ∷ execs)

-- The cores from `start` on, and the core that the main thread is pinned to.
abbrev pub for_executors : List ℕ → List ℕ
for_executors [] = []
for_executors (core ∷ cores) = cores

unfoldable pub main_core : Option (List ℕ) → Option ℕ
main_core get_core_ids = first (cores_or_none get_core_ids)
  where
    first : List ℕ → Option ℕ
    first [] = none
    first (core ∷ cores) = some core

-- The configuration that `main` gives the builder.
unfoldable pub exec_cfg : Option (List ℕ) → (ℕ → String) → ExecConfig
exec_cfg get_core_ids debug =
    configured (map (exec_of debug) (for_executors (cores_or_none get_core_ids)))

-- The slice comparison `event._bytes == [..]`.
unfoldable pub same_bytes : List ℕ → List ℕ → Bool
same_bytes [] [] = true
same_bytes (b ∷ bs) (c ∷ cs) = b == c && same_bytes bs cs
same_bytes _ _ = false

-- `matcher`, `matcher_one` and `matcher_two` of `future_spam_with_event_bus`.
unfoldable pub matcher : Packet → Bool
unfolding same_bytes
matcher event = same_bytes event.bytes (202 ∷ 254 ∷ 176 ∷ 186 ∷ [])

unfoldable pub matcher_one : Packet → Bool
matcher_one event = event.size == 0

unfoldable pub matcher_two : Packet → Bool
unfolding same_bytes
matcher_two event = same_bytes event.bytes (190 ∷ 239 ∷ 250 ∷ 206 ∷ [])

module _ {R : Type 0} (link : Link (EventBusMessage Packet R) R (Answer Packet)) where
  -- A result is ignored (`.ok()`).
  unfoldable pub simulate_events : link.Net → link.Net
  simulate_events net =
      let (net₁, _) = publish_event link net (record { bytes = 176 ∷ 0 ∷ 0 ∷ []; size = 3 }) in
      let (net₂, _) =
        publish_event link net₁ (record { bytes = 176 ∷ 0 ∷ 0 ∷ 238 ∷ 238 ∷ 255 ∷ []; size = 6 }) in
      let (net₃, _) = publish_event link net₂ (record { bytes = []; size = 0 }) in net₃

  unfoldable pub simulate_more_events : link.Net → link.Net
  simulate_more_events net =
      let (net₁, _) = publish_event link net (record { bytes = 176 ∷ 0 ∷ 0 ∷ []; size = 3 }) in
      let (net₂, _) = publish_event link net₁ (record { bytes = 0 ∷ []; size = 1 }) in
      let (net₃, _) =
        publish_event link net₂ (record { bytes = 202 ∷ 254 ∷ 176 ∷ 186 ∷ []; size = 4 }) in
      let (net₄, _) =
        publish_event link net₃ (record { bytes = 190 ∷ 239 ∷ 250 ∷ 206 ∷ []; size = 4 }) in
      net₄
