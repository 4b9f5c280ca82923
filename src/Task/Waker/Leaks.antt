-- ===== src/Task/Waker/Leaks.antt =====
-- imputio/src/task/mod.rs and imputio/src/task/waker.rs: what is left of a task in memory.
use toy_io.Common.{ℕ, suc, ◌≡◌, refl, ◌∙◌, false, some, List, arith, ◌==◌, if◌then◌else◌}
use toy_io.Common.Dict.{lookup, insert, lookup-insert}
use toy_io.Task.Waker.{
  Cell, Heap, Headers, arc_new, with_count, arc_clone, arc_drop, new_waker, new_waker_inner_ptr,
  drop, Memory, TaskPointers, new_task, drop_task,
}
use toy_io.Task.Waker.Counts.{Use, use_all, all_live, count_at, arc_drop-at, use_all-counts}

abbrev cell_of : {V : Type 0} → ℕ → V → Cell V
cell_of n v = record { count = n; value = v }

module _ {V : Type 0} where
  arc_new-at :
      (h : Heap V) (v : V) (b : ℕ)
      → count_at (arc_new h v).0 b ≡ (if h.next == b then 1 else count_at h b)
  unfolding arc_new
  arc_new-at h v b = rw (lookup-insert b h.next (cell_of 1 v) h.cells) (ground arith)

-- The heap after `new_waker`.
waker_heap : Headers → Headers
waker_heap h =
    let a = h.next in
    record {
      cells =
          insert a (cell_of 1 false)
            (insert a (cell_of 2 false) (insert a (cell_of 1 false) h.cells));
      next = suc a;
    }

new_waker_lem : (h : Headers) → new_waker h ≡ some (waker_heap h, h.next)
unfolding new_waker arc_new arc_clone arc_drop with_count waker_heap
new_waker_lem h =
    let a = h.next in
    let first : lookup a (insert a (cell_of 1 false) h.cells) ≡ some (cell_of 1 false) =
      lookup-insert a a (cell_of 1 false) h.cells ∙ (ground arith) in
    let second : lookup a (insert a (cell_of 2 false) (insert a (cell_of 1 false) h.cells))
        ≡ some (cell_of 2 false) =
      lookup-insert a a (cell_of 2 false) (insert a (cell_of 1 false) h.cells) ∙ (ground arith) in
    rw (first, new_waker, arc_clone, arc_drop, second) refl

waker_heap-at :
    (h : Headers) (b : ℕ) → count_at (waker_heap h) b ≡ (if h.next == b then 1 else count_at h b)
unfolding waker_heap
waker_heap-at h b =
    let a = h.next in
    rw
      (
        lookup-insert b a (cell_of 1 false)
            (insert a (cell_of 2 false) (insert a (cell_of 1 false) h.cells)),
        lookup-insert b a (cell_of 2 false) (insert a (cell_of 1 false) h.cells),
        lookup-insert b a (cell_of 1 false) h.cells,
      )
      (ground arith)

-- The headers after `new_waker_inner_ptr`.
headers_at :
    (h : Headers) (b : ℕ)
    → count_at (arc_new (waker_heap h) false).0 b
      ≡ (if suc h.next == b then 1 else if h.next == b then 1 else count_at h b)
unfolding waker_heap
headers_at h b = arc_new-at (waker_heap h) false b ∙ rw (waker_heap-at h b) refl

module _ {F : Type 0} where
  -- A task is never freed whole: whatever is done with its waker, when the last waker and the task
  -- itself are dropped, the header of the waker is freed, and two cells are left with a strong
  -- count that nothing can lower: the second header that was made with the waker, and the
  -- `InnerTask` with the future.
  pub drop_task-leaks :
      (m : Memory F) (future : F) (us : List Use)
      → all_live 1 us ≡ some 1
      → (m₁ m₂ : Memory F) × (task : TaskPointers) × (headers : Headers) × (new_task m future
          ≡ some (m₁, task))
        × (use_all m₁.headers task.waker us ≡ some headers)
        × (drop_task (record m₁ { headers = headers }) task ≡ some m₂)
        × (count_at m₂.headers task.waker ≡ 0)
        × (count_at m₂.headers (suc task.waker) ≡ 1)
        × (count_at m₂.inner_tasks task.inner_task ≡ 1)
  unfolding new_task new_waker_inner_ptr drop_task drop
  drop_task-leaks m future us l =
      let h = waker_heap m.headers in
      let a = m.headers.next in
      let h₁ = (arc_new h false).0 in
      let (h₂, u, moves) = use_all-counts us h₁ a 1 1 (headers_at m.headers a ∙ (ground arith)) l in
      let (h₃, d, gone) = arc_drop-at h₂ a 0 (moves a ∙ (ground arith)) in
      (
        record { headers = h₁; inner_tasks = (arc_new m.inner_tasks future).0 },
        record { headers = h₃; inner_tasks = (arc_new m.inner_tasks future).0 },
        record { inner_task = m.inner_tasks.next; waker = a },
        h₂,
        rw (new_waker_lem m.headers, new_task, new_waker_inner_ptr) refl,
        u,
        rw (d, drop_task) refl,
        gone a ∙ (ground arith),
        gone (suc a) ∙ (ground (arith, moves (suc a), headers_at m.headers (suc a))),
        arc_new-at m.inner_tasks future m.inner_tasks.next ∙ (ground arith),
      )
