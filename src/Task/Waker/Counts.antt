-- ===== src/Task/Waker/Counts.antt =====
-- imputio/src/task/waker.rs: a header lives as long as a waker points to it, and what a task
-- leaves.
use toy_io.Common.{
  ℕ, zero, suc, ◌-◌, ◌≡◌, refl, sym, ap, ◌∙◌, Bool, false, Option, none, some, List, [], ◌∷◌, arith,
  ◌==◌, if◌then◌else◌, Option-cases, Bool-cases, ==_iff, inl, inr,
}
use toy_io.Common.Dict.{lookup, insert, lookup-insert, lookup-remove}
use toy_io.Task.Waker.{
  Cell, Heap, Headers, with_count, arc_clone, arc_drop, set_parked, unpark, clone, wake,
  wake_by_ref, drop,
}

-- The strong count of an address: 0 when it is free.
abbrev pub count_of : {V : Type 0} → Option (Cell V) → ℕ
count_of none = 0
count_of (some cell) = cell.count

abbrev pub count_at : {V : Type 0} → Heap V → ℕ → ℕ
count_at h a = count_of (lookup a h.cells)

-- What is done with the wakers of one header.
pub data Use : Type 0 where
  clones wakes wakes_by_ref drops : Use

unfoldable pub use_waker : Headers → ℕ → Use → Option Headers
use_waker h a clones = clone h a
use_waker h a wakes = wake h a
use_waker h a wakes_by_ref = wake_by_ref h a
use_waker h a drops = drop h a

unfoldable pub use_all : Headers → ℕ → List Use → Option Headers
unfolding use_waker
use_all h a [] = some h
use_all h a (u ∷ us) = elim (use_waker h a u) [ none ↦ none | some h' ↦ use_all h' a us ]

-- How many wakers there are after a use, when there were `suc n` before.
abbrev pub live_after : ℕ → Use → ℕ
live_after n clones = suc (suc n)
live_after n wakes = n
live_after n wakes_by_ref = suc n
live_after n drops = n

-- The number of wakers in the end; `none` if a use takes a waker that there is not.
abbrev pub all_live : ℕ → List Use → Option ℕ
all_live n [] = some n
all_live zero (u ∷ us) = none
all_live (suc n) (u ∷ us) = all_live (live_after n u) us

stays : (f : ℕ → ℕ) (a b x : ℕ) → f a ≡ x → (if a == b then x else f b) ≡ f b
stays f a b x e = elim (Bool-cases (a == b)) [
  | inl t ↦ rw t (sym e ∙ ap f ((==_iff a b).0 t))
  | inr t ↦ rw t refl
]

module _ {V : Type 0} where
  pub with_count-at :
      (h : Heap V) (a : ℕ) (v : V) (n b : ℕ)
      → count_at (with_count h a v n) b ≡ (if a == b then n else count_at h b)
  unfolding with_count
  with_count-at h a v zero b = rw (lookup-remove b a h.cells) (ground arith)
  with_count-at h a v (suc n) b =
      rw (lookup-insert b a (record { count = suc n; value = v }) h.cells) (ground arith)

  found :
      (h : Heap V) (a n : ℕ)
      → count_at h a ≡ suc n
      → (cell : Cell V) × (lookup a h.cells ≡ some cell) × (cell.count ≡ suc n)
  found h a n e = elim (Option-cases (lookup a h.cells)) [
    | inl l ↦ absurd (omega (arith, sym (ap count_of l) ∙ e))
    | inr (cell, l) ↦ (cell, l, sym (ap count_of l) ∙ e)
  ]

  abbrev Moves : Heap V → ℕ → ℕ → Option (Heap V) → Type 0
  Moves h a n r =
      (h' : Heap V) × (r ≡ some h')
      × ((b : ℕ) → count_at h' b ≡ (if a == b then n else count_at h b))

  arc_clone-at :
      (h : Heap V) (a n : ℕ) → count_at h a ≡ suc n → Moves h a (suc (suc n)) (arc_clone h a)
  unfolding arc_clone
  arc_clone-at h a n e =
      let (cell, l, c) = found h a n e in
      (
        with_count h a cell.value (suc cell.count),
        rw (l, arc_clone) refl,
        λ b. with_count-at h a cell.value (suc cell.count) b ∙ rw c refl,
      )

  pub arc_drop-at : (h : Heap V) (a n : ℕ) → count_at h a ≡ suc n → Moves h a n (arc_drop h a)
  unfolding arc_drop
  arc_drop-at h a n e =
      let (cell, l, c) = found h a n e in
      let m : cell.count - 1 ≡ n = omega arith in
      (
        with_count h a cell.value (cell.count - 1),
        rw (l, arc_drop) refl,
        λ b. with_count-at h a cell.value (cell.count - 1) b ∙ rw m refl,
      )

set_parked-at :
    (h : Headers) (a : ℕ) (p : Bool) (n : ℕ)
    → count_at h a ≡ suc n
    → (h' : Headers) × (set_parked h a p ≡ some h') × ((b : ℕ) → count_at h' b ≡ count_at h b)
unfolding set_parked
set_parked-at h a p n e =
    let (cell, l, c) = found h a n e in
    (
      record h { cells = insert a (record cell { value = p }) h.cells },
      rw (l, set_parked) refl,
      λ b. counts cell b ∙ stays (count_at h) a b cell.count (ap count_of l),
    )
  where
    counts :
        (cell : Cell Bool) (b : ℕ)
        → count_at (record h { cells = insert a (record cell { value = p }) h.cells }) b
          ≡ (if a == b then cell.count else count_at h b)
    counts cell b = rw (lookup-insert b a (record cell { value = p }) h.cells) (ground arith)

use_waker-at :
    (h : Headers) (a : ℕ) (u : Use) (n : ℕ)
    → count_at h a ≡ suc n
    → Moves h a (live_after n u) (use_waker h a u)
unfolding use_waker clone wake wake_by_ref drop unpark
use_waker-at h a clones n e = arc_clone-at h a n e
use_waker-at h a wakes n e =
    let (h₁, s, same) = set_parked-at h a false n e in
    let (h₂, d, moves) = arc_drop-at h₁ a n (same a ∙ e) in
    (h₂, rw (s, use_waker, wake) d, λ b. moves b ∙ rw (same b) refl)
use_waker-at h a wakes_by_ref n e =
    let (h₁, s, same) = set_parked-at h a false n e in
    (h₁, s, λ b. same b ∙ sym (stays (count_at h) a b (suc n) e))
use_waker-at h a drops n e = arc_drop-at h a n e

-- A waker's header lives exactly as long as a waker points to it: whatever is done with wakers that
-- there are, no use reads freed memory, the strong count stays the number of wakers, so the header
-- is freed with the last one, and the counts of all other headers stay as they were.
pub use_all-counts :
    (us : List Use) (h : Headers) (a n m : ℕ)
    → count_at h a ≡ n
    → all_live n us ≡ some m
    → (h' : Headers) × (use_all h a us ≡ some h')
      × ((b : ℕ) → count_at h' b ≡ (if a == b then m else count_at h b))
unfolding use_all
use_all-counts [] h a n m e l =
    (h, refl, λ b. let k : n ≡ m = cc in sym (stays (count_at h) a b m (e ∙ k)))
use_all-counts (u ∷ us) h a zero m e l = cc
use_all-counts (u ∷ us) h a (suc n) m e l =
    let (h₁, s, moves) = use_waker-at h a u n e in
    let (h₂, s', moves') = use_all-counts us h₁ a (live_after n u) m (moves a ∙ (ground arith)) l in
    (h₂, rw (s, use_all) s', λ b. moves' b ∙ (ground (arith, moves b)))
