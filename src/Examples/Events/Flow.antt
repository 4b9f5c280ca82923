-- ===== src/Examples/Events/Flow.antt =====
-- examples/exec-config/events/main.rs: `future_spam_with_event_bus`. What the tasks and threads do
-- that it starts is `others`: `others p n` acts on the channel to the bus before the call number
-- `n` of the part `p` of the function.
pub mod Ends
pub mod Whole
mod Tests
use toy_io.Common.{
  ℕ, zero, suc, ◌<◌, ◌≡◌, ◌≢◌, refl, Bool, true, Option, none, some, List, [], ◌∷◌, ◌++◌, arith,
  length, leb, if◌then◌else◌, inl, inr, ◌>>=◌,
}
use toy_io.Task.{ImputioTask, high}
use toy_io.Task.Handle.{ImputioTaskHandle, blocking_await}
use toy_io.Flume.{Link, IsServed}
use toy_io.EventBus.Protocol.{EventBusMessage, Answer, Result, ok, err}
use toy_io.EventBus.{IterOrder, handle}
use toy_io.EventBus.Matcher.{batch_handler}
use toy_io.EventBus.Handles
use toy_io.EventBus.Handles.{SubHandle, get_subscriber, unsubscribe, publish_each}
use toy_io.EventBus.Handles.Service.{publish_each_lem}
use toy_io.EventBus.Handles.Among.{
  after_turns, event_poll_matcher_among, HasQueue, event_poll_matcher_ends,
}
use toy_io.EventBus.Handles.Apart.{after_turns-HasQueue}
use toy_io.Examples.Events.{Packet, matcher_one, matcher_two, simulate_events}

module _ {R : Type 0} (link : Link (EventBusMessage Packet R) R (Answer Packet))
    (others : ℕ → ℕ → link.Net → link.Net) where
  open link use {Net}

  abbrev pub simulated : ℕ → Net → Net
  simulated p net = simulate_events link (others p 0 net)

  abbrev waited :
      ℕ
      → Net
      → SubHandle
      → Option (ℕ × List (Unit {0}) × Result (Unit {0}))
      → Option (Net × List (Unit {0}))
  waited p net h none = none
  waited p net h (some (n, notices, _)) = some (after_turns link (others p) net h n, notices)

  -- An `event_poll_matcher` that is awaited, whose result is ignored; what it sends to the channel
  -- of exits is beside the network.
  abbrev pub wait : ℕ → ℕ → Net → SubHandle → (Packet → Bool) → Option (Net × List (Unit {0}))
  wait p fuel net h matcher =
      waited p net h (event_poll_matcher_among link (others p) fuel net h matcher (some (tt, true)))

  -- Three calls of `recv`; `none`: one of them blocks.
  abbrev recv_exits : List (Unit {0}) → Option (Unit {0})
  recv_exits notices = if leb 3 (length notices) then some tt else none

  -- The handles that go out of scope.
  abbrev pub drop_all : Net → List SubHandle → Net
  drop_all net [] = net
  drop_all net (h ∷ hs) = drop_all (Handles.drop link net h) hs

  -- The future that waits for the task of the first matcher and then unsubscribes that subscriber,
  -- an error of which is logged only. `none`: it still waits.
  unfoldable pub unsubscribe_after :
      {T : Type 0} → ImputioTaskHandle T → SubHandle → Net → Option Net
  unfolding blocking_await
  unsubscribe_after task subscriber net = do
    _ ← blocking_await task
    some (drop_all (unsubscribe link net subscriber subscriber.id).0 (subscriber ∷ []))

  -- The function from the first publication on. `exits` is what the matcher of the first subscriber
  -- has sent, which has a task of its own.
  unfoldable pub after_subscribing :
      (fuel_one fuel_two : ℕ)
      → List (Unit {0})
      → Net
      → (two three : SubHandle) → Option (Net × Result (Unit {0}))
  after_subscribing fuel_one fuel_two exits net two three = do
    (net₁, exit_one) ← wait 2 fuel_one (simulated 1 (simulated 0 net)) three matcher_one
    (net₂, exit_two) ← wait 3 fuel_two net₁ two matcher_two
    _ ← recv_exits (exits ++ exit_one ++ exit_two)
    let net₃ = (unsubscribe link (others 5 0 (simulated 4 net₂)) two two.id).0
    some (drop_all net₃ (three ∷ two ∷ []), ok tt)

  -- `get_subscriber().await?`: an error ends the function, which drops the handles it has.
  abbrev pub subscribed_or :
      List SubHandle
      → Net × Result SubHandle
      → (Net → SubHandle → Option (Net × Result (Unit {0})))
      → Option (Net × Result (Unit {0}))
  subscribed_or hs (net, err e) next = some (drop_all net hs, err e)
  subscribed_or hs (net, ok h) next = next net h

  unfoldable pub future_spam_with_event_bus :
      (fuel_one fuel_two : ℕ) → List (Unit {0}) → Net → Option (Net × Result (Unit {0}))
  unfolding after_subscribing
  future_spam_with_event_bus fuel_one fuel_two exits net =
      subscribed_or [] (get_subscriber link net) (λ net₁ one.
        subscribed_or (one ∷ []) (get_subscriber link net₁) (λ net₂ two.
          subscribed_or (two ∷ one ∷ []) (get_subscriber link net₂)
            (λ net₃ three. after_subscribing fuel_one fuel_two exits net₃ two three)))

-- The tasks that the two loops of `spam_event_futures` spawn, whose futures are all the same.
abbrev loop_over : {F : Type 0} → ℕ → F → List (ImputioTask F)
loop_over zero future = []
loop_over (suc n) future = record { future = future; priority = high } ∷ loop_over n future

unfoldable pub spam_event_futures : {F : Type 0} → F → List (ImputioTask F)
spam_event_futures future = loop_over 5 future ++ loop_over 5 future
