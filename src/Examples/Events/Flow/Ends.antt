-- ===== src/Examples/Events/Flow/Ends.antt =====
-- examples/exec-config/events/main.rs: `future_spam_with_event_bus` ends.
use toy_io.Common.{ℕ, ◌<◌, ◌≡◌, ◌≢◌, refl, Bool, true, some, List, [], ◌∷◌, ◌++◌, arith, inl, inr}
use toy_io.Flume.{Link, IsServed}
use toy_io.EventBus.Protocol.{EventBusMessage, Answer, ok}
use toy_io.EventBus.{IterOrder, handle}
use toy_io.EventBus.Matcher.{batch_handler}
use toy_io.EventBus.Handles.{SubHandle, unsubscribe, publish_each}
use toy_io.EventBus.Handles.Service.{publish_each_lem}
use toy_io.EventBus.Handles.Among.{
  after_turns, event_poll_matcher_among, HasQueue, event_poll_matcher_ends,
}
use toy_io.EventBus.Handles.Apart.{after_turns-HasQueue}
use toy_io.Examples.Events.Flow.{after_subscribing, simulated, drop_all}
use toy_io.Examples.Events.{Packet, matcher_one, matcher_two, simulate_events}

abbrev three_packets : List Packet
three_packets =
    record { bytes = 176 ∷ 0 ∷ 0 ∷ []; size = 3 }
    ∷ record { bytes = 176 ∷ 0 ∷ 0 ∷ 238 ∷ 238 ∷ 255 ∷ []; size = 6 }
    ∷ record { bytes = []; size = 0 }
    ∷ []

-- An accepted event in the second part of a list.
batch_handler-append :
    {T : Type 0} (matcher : T → Bool) (xs ys : List T)
    → batch_handler matcher ys ≡ true
    → batch_handler matcher (xs ++ ys) ≡ true
unfolding batch_handler
batch_handler-append matcher [] ys h = h
batch_handler-append matcher (x ∷ xs) ys h =
    let rest = batch_handler-append matcher xs ys h in ground arith

module _ {R : Type 0} (link : Link (EventBusMessage Packet R) R (Answer Packet))
    (delay_delete : Bool) (order : IterOrder)
    (served : IsServed link (handle {T = Packet} {R = R} delay_delete order))
    (others : ℕ → ℕ → link.Net → link.Net) (batch : ℕ → ℕ → List Packet) where
  abbrev Has : SubHandle → link.Net → List Packet → Type 0
  Has = HasQueue link delay_delete order served

  -- What the others do only adds events at the end of the subscriber's queue.
  abbrev pub Grows : SubHandle → Type 0
  Grows h =
      (p n : ℕ) (net : link.Net) (q : List Packet)
      → Has h net q
      → Has h (others p n net) (q ++ batch p n)

  simulated-Has :
      (h : SubHandle) (p : ℕ) (net : link.Net) (q : List Packet)
      → Grows h
      → Has h net q
      → Has h (simulated link others p net) ((q ++ batch p 0) ++ three_packets)
  unfolding simulate_events publish_each
  simulated-Has h p net q grows has =
      let (bus, e, b) = grows p 0 net q has in
      publish_each_lem link delay_delete order served three_packets (others p 0 net) bus h.id
        (q ++ batch p 0) e b

  after_waits :
      (fuel_one fuel_two n m : ℕ) (net : link.Net) (two three : SubHandle)
      → event_poll_matcher_among link
          (others 2)
          fuel_one
          (simulated link others 1 (simulated link others 0 net))
          three
          matcher_one
          (some (tt, true))
        ≡ some (n, tt ∷ [], ok tt)
      → event_poll_matcher_among link
          (others 3)
          fuel_two
          (after_turns link
            (others 2)
            (simulated link others 1 (simulated link others 0 net))
            three
            n)
          two
          matcher_two
          (some (tt, true))
        ≡ some (m, tt ∷ [], ok tt)
      → (net' : link.Net) × (after_subscribing link others fuel_one fuel_two (tt ∷ []) net two three
          ≡ some (net', ok tt))
  unfolding after_subscribing
  after_waits fuel_one fuel_two n m net two three e e' =
      let net₁ =
        after_turns link (others 2) (simulated link others 1 (simulated link others 0 net)) three
          n in
      let net₂ = after_turns link (others 3) net₁ two m in
      let net₃ = (unsubscribe link (others 5 0 (simulated link others 4 net₂)) two two.id).0 in
      (drop_all link others net₃ (three ∷ two ∷ []), rw (e, e') refl)

  -- The function ends, with Ok: let the second and the third subscriber be two, with queues on the
  -- bus, to which what other tasks and threads do only adds events; let one of the events that they
  -- add while the function waits with the second subscriber be the packet that this wait is for;
  -- and let the matcher of the first subscriber send its notice. Then with enough fuel, where what
  -- is enough for the second wait may depend on the first, both waits end, none of the three calls
  -- of `recv` blocks, and the result is `Ok(())`.
  pub after_subscribing_ends :
      (net : link.Net) (two three : SubHandle) (q q' : List Packet)
      → three.id ≢ two.id
      → Grows two
      → Grows three
      → Has two net q
      → Has three net q'
      → (arrives : (k : ℕ) × (batch_handler matcher_two (batch 3 k) ≡ true))
      → (bound_one : ℕ) × ((fuel_one : ℕ)
          → bound_one < fuel_one
          → (bound_two : ℕ) × ((fuel_two : ℕ)
              → bound_two < fuel_two
              → (net' : link.Net) × (after_subscribing link others fuel_one fuel_two
                    (tt ∷ [])
                    net
                    two
                    three
                  ≡ some (net', ok tt))))
  unfolding batch_handler matcher_one
  after_subscribing_ends net two three q q' apart grows grows' has has' arrives =
      let waiting = ((q' ++ batch 0 0) ++ three_packets) ++ batch 1 0 in
      let first = simulated-Has three 0 net q' grows' has' in
      let second =
        simulated-Has three 1 (simulated link others 0 net) ((q' ++ batch 0 0) ++ three_packets)
          grows' first in
      let other =
        simulated-Has two 1 (simulated link others 0 net) _ grows
          (simulated-Has two 0 net q grows has) in
      let net₁ = simulated link others 1 (simulated link others 0 net) in
      let (bound_one, ends) =
        event_poll_matcher_ends link delay_delete order served (others 2) (batch 2) three (grows' 2)
          net₁ matcher_one (waiting ++ three_packets) (some (tt, true)) second
          (inl (batch_handler-append matcher_one waiting three_packets refl)) in
      (
        bound_one,
        λ fuel_one lt.
            let (n, e) = ends fuel_one lt in
            let (_, p, _, left) =
              after_turns-HasQueue link delay_delete order served (others 2) (batch 2) (batch 2)
                three two apart (grows' 2) (grows 2) n net₁ (waiting ++ three_packets)
                (((((q ++ batch 0 0) ++ three_packets)) ++ batch 1 0) ++ three_packets) second
                other in
            let (bound_two, ends') =
              event_poll_matcher_ends link delay_delete order served (others 3) (batch 3) two
                (grows 3) (after_turns link (others 2) net₁ three n) matcher_two p (some (tt, true))
                left (inr arrives) in
            (
              bound_two,
              λ fuel_two lt'.
                  let (m, e') = ends' fuel_two lt' in
                  after_waits fuel_one fuel_two n m net two three e e',
            ),
      )
