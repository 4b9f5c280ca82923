-- ===== src/Examples/Events/Exits.antt =====
-- examples/exec-config/events/main.rs: its configuration, and how its three event matchers end.
use Prim.Native.String.{String}
use mathlib.Core.Option.{some-injective}
use toy_io.Common.{
  ℕ, zero, suc, ◌<◌, ◌≡◌, refl, Bool, true, false, Option, none, some, List, [], ◌∷◌, map, arith,
  get_elem?, if◌then◌else◌,
}
use toy_io.Flume.{Link, IsServed}
use toy_io.EventBus.Protocol.{EventBusMessage, Answer, ok}
use toy_io.EventBus.{EventBus, IterOrder, handle}
use toy_io.EventBus.Lookup.{queue}
use toy_io.EventBus.Matcher.{event_handler}
use toy_io.EventBus.Handles.{SubHandle, publish_each}
use toy_io.EventBus.Handles.Service.{publish_each_lem}
use toy_io.EventBus.Handles.Matching.{event_poll_matcher, event_poll_matcher_finds}
use toy_io.Config.{default_exec, with_cfg}
use toy_io.Config.ExecThread.{ExecThreadConfig}
use toy_io.Runtime.Builder.Built.{pinned}
use toy_io.Examples.Events.{
  Packet, main_core, exec_cfg, matcher, matcher_one, matcher_two, simulate_events,
  simulate_more_events, same_bytes,
}

-- The packets of both simulations, in order.
abbrev packet : List ℕ → ℕ → Packet
packet bytes size = record { bytes = bytes; size = size }

abbrev packets : List Packet
packets =
    packet (176 ∷ 0 ∷ 0 ∷ []) 3
    ∷ packet (176 ∷ 0 ∷ 0 ∷ 238 ∷ 238 ∷ 255 ∷ []) 6
    ∷ packet [] 0
    ∷ packet (176 ∷ 0 ∷ 0 ∷ []) 3
    ∷ packet (0 ∷ []) 1
    ∷ packet (202 ∷ 254 ∷ 176 ∷ 186 ∷ []) 4
    ∷ packet (190 ∷ 239 ∷ 250 ∷ 206 ∷ []) 4
    ∷ []

-- The main thread has a core for itself: it is pinned to the first core that the system reports,
-- and there is one executor for each other core, both of whose threads are pinned to that core;
-- with one core or none the configuration is the default.
pub exec_cfg_lem :
    (core other : ℕ) (cores : List ℕ) (debug : ℕ → String)
    → let execs = λ (get : Option (List ℕ)). (exec_cfg get debug).exec_thread_config in
      let all = some (core ∷ other ∷ cores) in
      (main_core all ≡ some core)
      × (map (λ (c : ExecThreadConfig). c.thread_cfg.core_id) (execs all)
          ≡ map some (other ∷ cores))
      × (map (λ (c : ExecThreadConfig). c.poll_thread_cfg.thread_cfg.core_id) (execs all)
          ≡ map some (other ∷ cores))
      × (exec_cfg (some (core ∷ [])) debug ≡ default_exec)
      × (exec_cfg none debug ≡ default_exec)
unfolding main_core exec_cfg with_cfg
exec_cfg_lem core other cores debug =
    let (e, p) = pinned debug (other ∷ cores) in (refl, e, p, refl, refl)

-- None of the first `k` events is accepted.
abbrev refused : (Packet → Bool) → ℕ → List Packet → Bool
refused accepts zero q = true
refused accepts (suc k) [] = true
refused accepts (suc k) (event ∷ q) = if accepts event then false else refused accepts k q

refused-before :
    (accepts : Packet → Bool) (k : ℕ) (q : List Packet)
    → refused accepts k q ≡ true
    → (i : ℕ) (x : Packet) → i < k
    → get_elem? q i ≡ some x
    → accepts x ≡ false
refused-before accepts zero q r i x h e = absurd (omega arith)
refused-before accepts (suc k) [] r i x h e = cc
refused-before accepts (suc k) (event ∷ q) r zero x h e =
    rw (← some-injective event x e) (ground arith)
refused-before accepts (suc k) (event ∷ q) r (suc i) x h e =
    refused-before accepts k q (ground arith) i x (omega arith) e

module _ {R : Type 0} (link : Link (EventBusMessage Packet R) R (Answer Packet))
    (delay_delete : Bool) (order : IterOrder)
    (served : IsServed link (handle {T = Packet} {R = R} delay_delete order)) where
  open served use {actor}

  simulations :
      (net : link.Net)
      → simulate_more_events link (simulate_events link net) ≡ publish_each link net packets
  unfolding simulate_more_events simulate_events publish_each
  simulations net = refl

  -- After both simulations every subscriber's matcher ends, and sends its notice: that for the
  -- empty packet at its third poll, those for the two packets of four bytes at their sixth and
  -- seventh. The subscriber's queue must be empty before.
  pub matchers_exit :
      {S : Type 0} (net : link.Net) (bus : EventBus Packet) (h : SubHandle) (notify : S) (fuel : ℕ)
      → actor net ≡ some bus
      → queue bus h.id ≡ some []
      → 6 < fuel
      → let after = simulate_more_events link (simulate_events link net) in
        (event_poll_matcher link fuel after h matcher_one (some (notify, true))
          ≡ some (3, notify ∷ [], ok tt))
        × (event_poll_matcher link fuel after h matcher (some (notify, true))
            ≡ some (6, notify ∷ [], ok tt))
        × (event_poll_matcher link fuel after h matcher_two (some (notify, true))
            ≡ some (7, notify ∷ [], ok tt))
  unfolding event_handler matcher matcher_one matcher_two same_bytes
  matchers_exit net bus h notify fuel e has enough =
      let (bus', last, q) =
        publish_each_lem link delay_delete order served packets net bus h.id [] e has in
      rw (simulations net) (
        (event_poll_matcher_finds link delay_delete order served (publish_each link net packets)
            bus' h packets matcher_one (some (notify, true)) fuel 2 _ last q (omega arith)
            (refused-before matcher_one 2 packets refl) refl refl).0,
        (event_poll_matcher_finds link delay_delete order served (publish_each link net packets)
            bus' h packets matcher (some (notify, true)) fuel 5 _ last q (omega arith)
            (refused-before matcher 5 packets refl) refl refl).0,
        (event_poll_matcher_finds link delay_delete order served (publish_each link net packets)
            bus' h packets matcher_two (some (notify, true)) fuel 6 _ last q (omega arith)
            (refused-before matcher_two 6 packets refl) refl refl).0,
      )
