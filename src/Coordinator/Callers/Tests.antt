-- ===== src/Coordinator/Callers/Tests.antt =====
-- imputio/src/executor/handle.rs: two callers of three handles that count their calls.
use toy_io.Common.{ℕ, suc, ◌≡◌, ◌≢◌, refl, false, some, [], ◌∷◌, arith}
use toy_io.Coordinator.Turns.{IsValid}
use toy_io.Coordinator.Callers.{idle, Shared, schedule}
use toy_io.Coordinator.Callers.Safety
use toy_io.Coordinator.Callers.Overlap
use toy_io.Coordinator.Callers.Overlap.{Merge, merged, of_first, of_second}

abbrev count_call : ℕ → ℕ × Unit {0}
count_call n = (suc n, tt)

abbrev two_callers : Shared ℕ
two_callers = record {
  coordinator = record { handles = 10 ∷ 20 ∷ 30 ∷ []; index = 1; shutdown = false };
  callers = idle ∷ idle ∷ [];
  made = [];
}

two_callers-IsValid : IsValid two_callers.coordinator
two_callers-IsValid = record { inside = omega arith; fits = omega arith }

schedule-IsSafe_example :
    (s' : Shared ℕ) × (schedule count_call (0 ∷ 1 ∷ 1 ∷ 0 ∷ 1 ∷ 7 ∷ 1 ∷ 0 ∷ []) two_callers
      ≡ some s')
    × Safety.IsSafe count_call two_callers.coordinator s'
schedule-IsSafe_example =
    Safety.schedule-IsSafe count_call (0 ∷ 1 ∷ 1 ∷ 0 ∷ 1 ∷ 7 ∷ 1 ∷ 0 ∷ []) two_callers
      two_callers-IsValid refl refl

first_second : ◌≢◌ {A = ℕ} 0 1
first_second e = absurd (omega (arith, e))

-- The second caller is faster than the first.
second_first : Merge 0 1 2 2 (1 ∷ 0 ∷ 1 ∷ 0 ∷ [])
second_first = of_second (of_first (of_second (of_first merged)))

schedule-overlap_example :
    (s' : Shared ℕ) × (schedule count_call (0 ∷ 1 ∷ 1 ∷ 0 ∷ 1 ∷ 0 ∷ []) two_callers ≡ some s')
    × (s'.made ≡ 2 ∷ 2 ∷ [])
    × (s'.coordinator.index ≡ 2)
schedule-overlap_example =
    Overlap.schedule-overlap count_call two_callers 0 1 (1 ∷ 0 ∷ 1 ∷ 0 ∷ []) two_callers-IsValid
      first_second refl refl second_first
