-- ===== src/Coordinator/Callers.antt =====
-- imputio/src/executor/handle.rs: callers of one coordinator on several threads. Each of `spawn`,
-- `poll` and `submit_io_op` loads the index, stores the next one, and then calls that handle;
-- between these three steps of a call the other callers may take any number of steps.
pub mod Safety
pub mod Overlap
mod Tests
use mathlib.Core.Option
use mathlib.Core.Option.{some-injective}
use toy_io.Common.{
  ℕ, zero, suc, ◌+◌, ◌<◌, ◌≡◌, ◌≢◌, refl, ◌∙◌, sym, ap, Bool, true, false, Option, none, some, List,
  [], ◌∷◌, arith, length, get_elem?, set, length-set, get_elem?-set, get_elem?-lt, if◌then◌else◌,
  ◌==◌, Bool-cases, inl, inr,
}
use toy_io.Coordinator.{ExecHandleCoordinator, next_index, dispatch_at, dispatch}
use toy_io.Coordinator.Turns.{IsValid, following, next_index_lem, dispatch_lem}

-- Where a caller is in its call, with its local variable `index`.
pub data Phase : Type 0 where
  idle : Phase
  loaded stored : ℕ → Phase

-- `made` lists the handles that calls were made on, the last one first.
pub record Shared (H : Type 0) : Type 0 where
  pub coordinator : ExecHandleCoordinator H
  pub callers : List Phase
  pub made : List ℕ

module _ {H : Type 0} (call : H → H × Unit {0}) where
  unfoldable pub load : Shared H → ℕ → Option ℕ → Option (Shared H)
  load s t none = none
  load s t (some i) = some (record s { callers = set s.callers t (loaded i) })

  unfoldable pub call_at : Shared H → ℕ → ℕ → Option H → Option (Shared H)
  call_at s t i none = none
  call_at s t i (some h) = some (record s {
    coordinator = record s.coordinator { handles = set s.coordinator.handles i (call h).0 };
    callers = set s.callers t idle;
    made = i ∷ s.made;
  })

  -- The next step of the caller `t` from its phase; `none` is a panic.
  unfoldable pub advance_from : Shared H → ℕ → Option Phase → Option (Shared H)
  unfolding load call_at
  advance_from s t none = some s
  advance_from s t (some idle) = load s t (next_index s.coordinator)
  advance_from s t (some (loaded i)) = some (record s {
    coordinator = record s.coordinator { index = i };
    callers = set s.callers t (stored i);
  })
  advance_from s t (some (stored i)) = call_at s t i (get_elem? s.coordinator.handles i)

  unfoldable pub advance : Shared H → ℕ → Option (Shared H)
  unfolding advance_from
  advance s t = advance_from s t (get_elem? s.callers t)

  -- The callers take steps in the order of a schedule.
  unfoldable pub schedule : List ℕ → Shared H → Option (Shared H)
  unfolding advance
  schedule [] s = some s
  schedule (t ∷ ts) s = elim (advance s t) [ none ↦ none | some s' ↦ schedule ts s' ]
