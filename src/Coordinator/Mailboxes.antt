-- ===== src/Coordinator/Mailboxes.antt =====
-- imputio/src/executor/handle.rs: the tasks that are spawned through a coordinator, and the
-- executors that they are sent to.
mod Tests
use mathlib.Core.List.{Perm, perm_append_singleton, perm_append_comm, perm_middle}
use mathlib.Core.List.Perm
use mathlib.Core.Option.{some-injective}
use toy_io.Common.{
  ℕ, zero, suc, ◌<◌, ◌≡◌, refl, sym, ap, ◌∙◌, subst, Bool, true, false, Option, none, some, List,
  [], ◌∷◌, ◌++◌, map, append_assoc, append-nil, length, get_elem?, set,
}
use toy_io.Flume.{Link}
use toy_io.Task.{ImputioTask}
use toy_io.Executor.Protocol.{Transaction, Result}
use toy_io.Coordinator.{ExecHandleCoordinator, handle_spawn, after}
use toy_io.Coordinator
use toy_io.Coordinator.Turns.{IsValid, following, dispatch_lem}

-- What a coordinator relies on that spawns tasks: the channel of an executor that is not gone keeps
-- each message until the executor receives it, in order.
pub record IsMailbox {F Operation R : Type 0}
    (link : Link (Transaction F Operation R) R (Result (Unit {0}))) : Type 1 where
  pub messages : link.Net → List (Transaction F Operation R)
  pub Alive : link.Net → Type 0
  pub send-alive :
      (net : link.Net) (m : Transaction F Operation R)
      → Alive net
      → (net' : link.Net) × (link.send net m ≡ some net')
        × Alive net'
        × (messages net' ≡ messages net ++ m ∷ [])

module _ {F Operation R : Type 0} (link : Link (Transaction F Operation R) R (Result (Unit {0})))
    (mailbox : IsMailbox link) where
  open link use {Net}
  open mailbox use {messages, Alive, send-alive}

  -- Each task is spawned through the coordinator, one after the other.
  unfoldable pub spawn_each :
      ExecHandleCoordinator Net → List (ImputioTask F) → Option (ExecHandleCoordinator Net)
  spawn_each c [] = some c
  spawn_each c (task ∷ tasks) = elim (Coordinator.spawn link c task) [
    | none ↦ none
    | some (c', _) ↦ spawn_each c' tasks
  ]

  abbrev pub AllAlive : List Net → Type 0
  AllAlive [] = Unit
  AllAlive (h ∷ handles) = Alive h × AllAlive handles

  -- The messages that wait for all executors.
  abbrev pub waiting : List Net → List (Transaction F Operation R)
  waiting [] = []
  waiting (h ∷ handles) = messages h ++ waiting handles

  set-waiting :
      (handles : List Net) (i : ℕ) (h h' : Net) (m : Transaction F Operation R)
      → get_elem? handles i ≡ some h
      → messages h' ≡ messages h ++ m ∷ []
      → Perm (waiting (set handles i h')) (m ∷ waiting handles)
  set-waiting [] i h h' m e p = cc
  set-waiting (x ∷ handles) zero h h' m e p =
      rw (p, ← some-injective x h e)
        (Perm.append_right (waiting handles) (perm_append_singleton m (messages x)))
  set-waiting (x ∷ handles) (suc i) h h' m e p =
      Perm.trans (Perm.append_left (messages x) (set-waiting handles i h h' m e p))
        (perm_middle (messages x) (waiting handles))

  set-AllAlive :
      (handles : List Net) (i : ℕ) (h : Net)
      → AllAlive handles
      → Alive h
      → AllAlive (set handles i h)
  set-AllAlive [] i h a b = tt
  set-AllAlive (x ∷ handles) zero h a b = (b, a.1)
  set-AllAlive (x ∷ handles) (suc i) h a b = (a.0, set-AllAlive handles i h a.1 b)

  get-AllAlive :
      (handles : List Net) (i : ℕ) (h : Net)
      → get_elem? handles i ≡ some h
      → AllAlive handles
      → Alive h
  get-AllAlive [] i h e a = cc
  get-AllAlive (x ∷ handles) zero h e a = rw (← some-injective x h e) a.0
  get-AllAlive (x ∷ handles) (suc i) h e a = get-AllAlive handles i h e a.1

  spawn-perm :
      (task : ImputioTask F) (c : ExecHandleCoordinator Net)
      → IsValid c
      → AllAlive c.handles
      → (c' : ExecHandleCoordinator Net) × (Coordinator.spawn link c task ≡ some (c', tt))
        × IsValid c'
        × AllAlive c'.handles
        × Perm (waiting c'.handles) (Transaction.spawn task ∷ waiting c.handles)
  unfolding Coordinator.spawn handle_spawn
  spawn-perm task c v a =
      let m = Transaction.spawn task in
      let i = following c in
      let (h, found, d, v') = dispatch_lem c (handle_spawn link task) v in
      let (h', sent, alive, more) = send-alive h m (get-AllAlive c.handles i h found a) in
      let same : (handle_spawn link task h).0 ≡ h' = rw (handle_spawn, sent) refl in
      (
        record c { handles = set c.handles i (handle_spawn link task h).0; index = i },
        d,
        v',
        set-AllAlive c.handles i (handle_spawn link task h).0 a (subst Alive (sym same) alive),
        set-waiting c.handles i h (handle_spawn link task h).0 m found (ap messages same ∙ more),
      )

  -- No task is lost or sent twice: while no executor is gone, spawning tasks one after the other
  -- through a coordinator with handles does not panic, and puts one message for each task into the
  -- channels of the executors, beside those that wait there already.
  pub spawn_each-perm :
      (tasks : List (ImputioTask F)) (c : ExecHandleCoordinator Net)
      → IsValid c
      → AllAlive c.handles
      → (c' : ExecHandleCoordinator Net) × (spawn_each c tasks ≡ some c')
        × IsValid c'
        × AllAlive c'.handles
        × Perm (waiting c'.handles) (map Transaction.spawn tasks ++ waiting c.handles)
  unfolding spawn_each
  spawn_each-perm [] c v a = (c, refl, v, a, Perm.refl _)
  spawn_each-perm (task ∷ tasks) c v a =
      let (c₁, e, v₁, a₁, p) = spawn-perm task c v a in
      let (c₂, e', v₂, a₂, q) = spawn_each-perm tasks c₁ v₁ a₁ in
      let later = map Transaction.spawn tasks in
      (
        c₂,
        rw (spawn_each, e) e',
        v₂,
        a₂,
        Perm.trans q
            (Perm.trans (Perm.append_left later p) (perm_middle later (waiting c.handles))),
      )
