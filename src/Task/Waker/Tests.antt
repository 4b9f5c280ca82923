-- ===== src/Task/Waker/Tests.antt =====
-- imputio/src/task/waker.rs: a waker that is cloned, woken and dropped.
use toy_io.Common.{ℕ, suc, ◌≡◌, refl, false, some, List, [], ◌∷◌, if◌then◌else◌, ◌==◌}
use toy_io.Common.Dict.{lookup}
use toy_io.Task.Waker.{Headers, Memory, TaskPointers, new_task, drop_task}
use toy_io.Task.Waker.Counts
use toy_io.Task.Waker.Counts.{Use, clones, wakes, wakes_by_ref, drops, use_all, count_at}
use toy_io.Task.Waker.Leaks

abbrev uses : List Use
uses = clones ∷ clones ∷ wakes_by_ref ∷ wakes ∷ drops ∷ []

abbrev two_headers : Headers
two_headers = record {
  cells = (0, record { count = 1; value = false }) ∷ (1, record { count = 3; value = false }) ∷ [];
  next = 2;
}

use_all-counts_example :
    (h' : Headers) × (use_all two_headers 0 uses ≡ some h')
    × ((b : ℕ) → count_at h' b ≡ (if 0 == b then 1 else count_at two_headers b))
unfolding lookup
use_all-counts_example = Counts.use_all-counts uses two_headers 0 1 1 refl refl

abbrev empty_memory : Memory ℕ
empty_memory = record { headers = two_headers; inner_tasks = record { cells = []; next = 0 } }

drop_task-leaks_example :
    (m₁ m₂ : Memory ℕ) × (task : TaskPointers) × (headers : Headers) × (new_task empty_memory 9
      ≡ some (m₁, task))
    × (use_all m₁.headers task.waker uses ≡ some headers)
    × (drop_task (record m₁ { headers = headers }) task ≡ some m₂)
    × (count_at m₂.headers task.waker ≡ 0)
    × (count_at m₂.headers (suc task.waker) ≡ 1)
    × (count_at m₂.inner_tasks task.inner_task ≡ 1)
drop_task-leaks_example = Leaks.drop_task-leaks empty_memory 9 uses refl
