-- ===== src/Flume.antt =====
-- The crate flume as its users see it, who send a message to an actor and wait for a reply. The
-- crate is not part of the repository, so what it does is a parameter.
use toy_io.Common.{ℕ, suc, ◌<◌, ◌≡◌, refl, Option, none, some, List, [], ◌∷◌}

-- One end of an actor's channel. `M` is the type of messages, `R` of reply senders, `A` of replies.
pub record Link (M R A : Type 0) : Type 1 where
  -- The channels and what is behind them.
  pub Net : Type 0
  -- `flume::bounded(1)`, for one reply.
  pub bounded : Net → R × Net
  -- `Sender::send`; `none` is a `SendError`: the receiver is gone.
  pub send : Net → M → Option Net
  -- `Receiver::recv`; `none` is a `RecvError`: the sender is gone and left nothing.
  pub recv : Net → R → Net × Option A

-- A channel of this capacity with `n` messages has room for one more; `none` is that of
-- `flume::unbounded()`.
abbrev pub RoomFor : Option ℕ → ℕ → Type 0
RoomFor none n = Unit
RoomFor (some most) n = n < most

-- A channel for notices `()`, while both its ends are alive. `fresh` is a new `flume::bounded(1)`.
pub record Notices : Type 1 where
  pub Chan : Type 0
  pub fresh : Chan
  -- The most notices that the channel holds, and how many wait.
  pub capacity : Chan → Option ℕ
  pub queued : Chan → ℕ
  -- `Sender::send`; `none`: it blocks.
  pub send : Chan → Option Chan
  -- `Receiver::try_recv`; `none`: there is no notice.
  pub try_recv : Chan → Option Chan
  pub queued-fresh : queued fresh ≡ 0
  pub capacity-fresh : capacity fresh ≡ some 1
  pub send-room :
      (c : Chan)
      → RoomFor (capacity c) (queued c)
      → (c' : Chan) × (send c ≡ some c') × (queued c' ≡ suc (queued c)) × (capacity c' ≡ capacity c)
  pub send-full : (c : Chan) → capacity c ≡ some (queued c) → send c ≡ none
  pub try_recv-some :
      (c : Chan) (n : ℕ)
      → queued c ≡ suc n
      → (c' : Chan) × (try_recv c ≡ some c') × (queued c' ≡ n) × (capacity c' ≡ capacity c)
  pub try_recv-none : (c : Chan) → queued c ≡ 0 → try_recv c ≡ none

-- How a request ends.
pub data Outcome (A : Type 0) : Type 0 where
  not_sent not_answered : Outcome A
  answered : A → Outcome A

module _ {M R A : Type 0} (link : Link M R A) where
  open link use {Net, bounded, send, recv}

  abbrev outcome : Option A → Outcome A
  outcome none = not_answered
  outcome (some a) = answered a

  -- Make a reply channel, send a message with its sender, and wait at its receiver.
  unfoldable pub request : Net → (R → M) → Net × Outcome A
  request net message =
      let (reply, net₁) = bounded net in
      elim (send net₁ (message reply)) [
        | none ↦ (net₁, not_sent)
        | some net₂ ↦ let (net₃, a) = recv net₂ reply in (net₃, outcome a)
      ]

-- What a client relies on that talks to an actor with the states `S` and the handler `handle`: the
-- channel passes each message on to the actor, and each reply back.
pub record IsServed {M R A : Type 0} (link : Link M R A) {S : Type 0}
    (handle : S → M → S × List (R × A)) : Type 0 where
  -- The actor's state; `none` when it is gone.
  pub actor : link.Net → Option S
  pub bounded-actor : (net : link.Net) → actor (link.bounded net).1 ≡ actor net
  pub send-gone : (net : link.Net) (m : M) → actor net ≡ none → link.send net m ≡ none
  pub send-silent :
      (net : link.Net) (m : M) (s : S)
      → actor net ≡ some s
      → (handle s m).1 ≡ []
      → (net' : link.Net) × (link.send net m ≡ some net') × (actor net' ≡ some (handle s m).0)
  pub send-reply :
      (net : link.Net) (m : M) (s : S) (r : R) (a : A)
      → actor net ≡ some s
      → (handle s m).1 ≡ (r, a) ∷ []
      → (net' : link.Net) × (net'' : link.Net) × (link.send net m ≡ some net')
        × (link.recv net' r ≡ (net'', some a))
        × (actor net'' ≡ some (handle s m).0)

module _ {M R A : Type 0} (link : Link M R A) {S : Type 0} (handle : S → M → S × List (R × A))
    (served : IsServed link handle) where
  open served use {actor, bounded-actor, send-gone, send-reply}

  -- A request to an actor that is gone is not sent.
  pub request-gone :
      (net : link.Net) (message : R → M)
      → actor net ≡ none
      → request link net message ≡ ((link.bounded net).1, not_sent)
  unfolding request
  request-gone net message e =
      let (reply, net₁) = link.bounded net in
      let gone : actor net₁ ≡ none = rw (bounded-actor net) e in
      rw (send-gone net₁ (message reply) gone, request)

  -- A request that the actor answers returns that answer, and leaves the actor in its next state.
  pub request-answered :
      (net : link.Net) (message : R → M) (s : S) (a : A)
      → actor net ≡ some s
      → ((r : R) → (handle s (message r)).1 ≡ (r, a) ∷ [])
      → let r = (link.bounded net).0 in
        let (after, o) = request link net message in
        (o ≡ answered a) × (actor after ≡ some (handle s (message r)).0)
  unfolding request
  request-answered net message s a e h =
      let (reply, net₁) = link.bounded net in
      let alive : actor net₁ ≡ some s = rw (bounded-actor net) e in
      let (net₂, net₃, sent, got, last) =
        send-reply net₁ (message reply) s reply a alive (h reply) in
      rw (sent, request, got) (refl, last)
