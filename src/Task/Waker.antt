-- ===== src/Task/Waker.antt =====
-- imputio/src/task/waker.rs, and `new` and the drop of `ImputioTask` in imputio/src/task/mod.rs:
-- the reference counts. The memory is a heap of `Arc`s; `none` is the use of memory that was freed.
pub mod Counts
pub mod Leaks
mod Tests
use toy_io.Common.{ℕ, zero, suc, ◌-◌, Bool, true, false, Option, none, some}
use toy_io.Common.Dict.{Dict, lookup, insert, remove}

-- What an `Arc` points to: its strong count and its value.
pub record Cell (V : Type 0) : Type 0 where
  pub count : ℕ
  pub value : V

-- Addresses are handed out in order, and none twice.
pub record Heap (V : Type 0) : Type 0 where
  pub cells : Dict (Cell V)
  pub next : ℕ

module _ {V : Type 0} where
  -- `Arc::new`
  unfoldable pub arc_new : Heap V → V → Heap V × ℕ
  arc_new h v = (
    record { cells = insert h.next (record { count = 1; value = v }) h.cells; next = suc h.next },
    h.next,
  )

  unfoldable pub with_count : Heap V → ℕ → V → ℕ → Heap V
  with_count h a v zero = record h { cells = remove a h.cells }
  with_count h a v (suc n) = record h {
    cells = insert a (record { count = suc n; value = v }) h.cells;
  }

  -- `Arc::clone`
  unfoldable pub arc_clone : Heap V → ℕ → Option (Heap V)
  unfolding with_count
  arc_clone h a = elim (lookup a h.cells) [
    | none ↦ none
    | some cell ↦ some (with_count h a cell.value (suc cell.count))
  ]

  -- The drop of an `Arc`, which frees the cell when it was the last.
  unfoldable pub arc_drop : Heap V → ℕ → Option (Heap V)
  unfolding with_count
  arc_drop h a = elim (lookup a h.cells) [
    | none ↦ none
    | some cell ↦ some (with_count h a cell.value (cell.count - 1))
  ]

-- `ImputioTaskHeader`: the value is `parked`.
abbrev pub Headers : Type 0
Headers = Heap Bool

unfoldable pub set_parked : Headers → ℕ → Bool → Option Headers
set_parked h a parked = elim (lookup a h.cells) [
  | none ↦ none
  | some cell ↦ some (record h { cells = insert a (record cell { value = parked }) h.cells })
]

unfoldable pub unpark : Headers → ℕ → Option Headers
unfolding set_parked
unpark h a = set_parked h a false

unfoldable pub park : Headers → ℕ → Option Headers
unfolding set_parked
park h a = set_parked h a true

-- `from_raw` takes over the count of the raw waker, and `into_raw` gives it to the new one; the
-- clone in between is forgotten, so its count stays.
unfoldable pub clone : Headers → ℕ → Option Headers
unfolding arc_clone
clone h a = arc_clone h a

-- The temporary `Arc` is dropped after the call.
unfoldable pub wake : Headers → ℕ → Option Headers
unfolding unpark arc_drop
wake h a = elim (unpark h a) [ none ↦ none | some h' ↦ arc_drop h' a ]

unfoldable pub wake_by_ref : Headers → ℕ → Option Headers
unfolding unpark
wake_by_ref h a = unpark h a

unfoldable pub drop : Headers → ℕ → Option Headers
unfolding arc_drop
drop h a = arc_drop h a

-- The waker points to a clone; `inner` itself is dropped at the end.
unfoldable pub new_waker : Headers → Option (Headers × ℕ)
unfolding arc_new arc_clone arc_drop
new_waker h =
    let (h₁, inner) = arc_new h false in
    elim (arc_clone h₁ inner) [
      | none ↦ none
      | some h₂ ↦ elim (arc_drop h₂ inner) [ none ↦ none | some h₃ ↦ some (h₃, inner) ]
    ]

-- The second part is the raw pointer to another header.
unfoldable pub new_waker_inner_ptr : Headers → Option (Headers × ℕ × ℕ)
unfolding new_waker arc_new
new_waker_inner_ptr h = elim (new_waker h) [
  | none ↦ none
  | some (h₁, waker) ↦ let (h₂, inner) = arc_new h₁ false in some (h₂, waker, inner)
]

-- The memory of the tasks: their headers, and their `InnerTask`s.
pub record Memory (F : Type 0) : Type 0 where
  pub headers : Headers
  pub inner_tasks : Heap F

-- The pointers of an `ImputioTask`.
pub record TaskPointers : Type 0 where
  pub inner_task : ℕ
  pub waker : ℕ

module _ {F : Type 0} where
  -- `ImputioTask::new`, which ignores the pointer to the other header.
  unfoldable pub new_task : Memory F → F → Option (Memory F × TaskPointers)
  unfolding new_waker_inner_ptr arc_new
  new_task m future = elim (new_waker_inner_ptr m.headers) [
    | none ↦ none
    | some (headers, waker, _) ↦
        let (inner_tasks, inner_task) = arc_new m.inner_tasks future in
        some (
          record { headers = headers; inner_tasks = inner_tasks },
          record { inner_task = inner_task; waker = waker },
        )
  ]

  -- The drop of an `ImputioTask` drops its waker; `inner_task` is a raw pointer, which is only
  -- copied.
  unfoldable pub drop_task : Memory F → TaskPointers → Option (Memory F)
  unfolding drop
  drop_task m task = elim (drop m.headers task.waker) [
    | none ↦ none
    | some headers ↦ some (record m { headers = headers })
  ]
