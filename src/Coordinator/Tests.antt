-- ===== src/Coordinator/Tests.antt =====
-- imputio/src/executor/handle.rs: calls of a coordinator whose handles count their calls.
use toy_io.Common.{ℕ, suc, ◌≡◌, some, [], ◌∷◌, arith, map, false}
use toy_io.Coordinator.Turns
use toy_io.Coordinator.Turns.{IsValid}
use toy_io.Coordinator.{ExecHandleCoordinator}

abbrev count_call : ℕ → ℕ × Unit {0}
count_call n = (suc n, tt)

abbrev three_handles : ExecHandleCoordinator ℕ
three_handles = record { handles = 10 ∷ 20 ∷ 30 ∷ []; index = 1; shutdown = false }

three_handles-IsValid : IsValid three_handles
three_handles-IsValid = record { inside = omega arith; fits = omega arith }

dispatch_times_round_example :
    (c' : ExecHandleCoordinator ℕ) × (Turns.dispatch_times count_call 3 three_handles ≡ some c')
    × (c'.index ≡ 1)
    × (c'.handles ≡ map (λ h. (count_call h).0) (10 ∷ 20 ∷ 30 ∷ []))
dispatch_times_round_example =
    Turns.dispatch_times_round count_call three_handles three_handles-IsValid
