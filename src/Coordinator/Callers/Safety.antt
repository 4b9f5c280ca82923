-- ===== src/Coordinator/Callers/Safety.antt =====
-- imputio/src/executor/handle.rs: whatever the order of the callers' steps, each call is made on
-- one handle.
use mathlib.Core.Option
use mathlib.Core.Option.{some-injective}
use toy_io.Common.{
  ℕ, zero, suc, ◌<◌, ◌≡◌, refl, ◌∙◌, sym, ap, Bool, true, false, Option, none, some, List, [], ◌∷◌,
  arith, length, get_elem?, set, length-set, get_elem?-set, get_elem?-lt, if◌then◌else◌, ◌==◌,
  Bool-cases, inl, inr,
}
use toy_io.Coordinator.{ExecHandleCoordinator}
use toy_io.Coordinator.Turns.{IsValid, following, next_index_lem}
use toy_io.Coordinator.Callers.{
  Phase, idle, loaded, stored, Shared, load, call_at, advance_from, advance, schedule,
}

module _ {H : Type 0} (call : H → H × Unit {0}) where
  -- The state of a handle after `n` calls.
  unfoldable pub times : ℕ → H → H
  times zero h = h
  times (suc n) h = (call (times n h)).0

abbrev pub count : ℕ → List ℕ → ℕ
count x [] = 0
count x (y ∷ ys) = if y == x then suc (count x ys) else count x ys

-- The caller's index is one of a handle.
abbrev pub InRange : ℕ → Phase → Type 0
InRange n idle = Unit
InRange n (loaded i) = i < n
InRange n (stored i) = i < n

abbrev pub AllInRange : ℕ → List Phase → Type 0
AllInRange n [] = Unit
AllInRange n (p ∷ ps) = InRange n p × AllInRange n ps

abbrev pub all_idle : List Phase → Bool
all_idle [] = true
all_idle (idle ∷ ps) = all_idle ps
all_idle (_ ∷ ps) = false

AllInRange-set :
    (n : ℕ) (ps : List Phase) (t : ℕ) (p : Phase)
    → AllInRange n ps
    → InRange n p
    → AllInRange n (set ps t p)
AllInRange-set n [] t p h k = tt
AllInRange-set n (q ∷ ps) zero p h k = (k, h.1)
AllInRange-set n (q ∷ ps) (suc t) p h k = (h.0, AllInRange-set n ps t p h.1 k)

AllInRange-get :
    (n : ℕ) (ps : List Phase) (t : ℕ) (p : Phase)
    → AllInRange n ps
    → get_elem? ps t ≡ some p
    → InRange n p
AllInRange-get n [] t p h e = cc
AllInRange-get n (q ∷ ps) zero p h e = rw (← some-injective q p e) h.0
AllInRange-get n (q ∷ ps) (suc t) p h e = AllInRange-get n ps t p h.1 e

module _ {H : Type 0} (call : H → H × Unit {0}) (start : ExecHandleCoordinator H) where
  -- The coordinator is in order, each caller has the index of a handle, and each handle has had
  -- exactly the calls that were made on it.
  pub record IsSafe (s : Shared H) : Type 0 where
    pub valid : IsValid s.coordinator
    pub same : length s.coordinator.handles ≡ length start.handles
    pub callers : AllInRange (length start.handles) s.callers
    pub called :
        (x : ℕ)
        → get_elem? s.coordinator.handles x
          ≡ Option.map (times call (count x s.made)) (get_elem? start.handles x)

  once_more :
      (f : H → H) (o : Option H) (h : H)
      → some h ≡ Option.map f o
      → some (call h).0 ≡ Option.map (λ z. (call (f z)).0) o
  once_more f none h e = cc
  once_more f (some z) h e = ap (λ y. some (call y).0) (some-injective h (f z) e)

  -- One more call of the handle `i`, with the calls that were made listed before.
  called_after :
      (now : ℕ → Option H) (o : ℕ → Option H) (made : List ℕ) (i x : ℕ) (h : H)
      → now i ≡ some h
      → ((y : ℕ) → now y ≡ Option.map (times call (count y made)) (o y))
      → (if i == x then some (call h).0 else now x)
        ≡ Option.map (times call (count x (i ∷ made))) (o x)
  unfolding times
  called_after now o made i x h found before = elim (Bool-cases (i == x)) [
    | inl b ↦
        let eq : i ≡ x = ground (arith, b) in
        let here : now x ≡ some h = rw (← eq) found in
        rw b (once_more (times call (count x made)) (o x) h (sym here ∙ before x))
    | inr b ↦ rw b (before x)
  ]

  advance_from-IsSafe :
      (s : Shared H) (t : ℕ) (o : Option Phase)
      → get_elem? s.callers t ≡ o
      → IsSafe s
      → (s' : Shared H) × (advance_from call s t o ≡ some s') × IsSafe s'
  unfolding advance_from
  advance_from-IsSafe s t none e v = (s, refl, v)
  advance_from-IsSafe s t (some idle) e v =
      let i = following s.coordinator in
      let below : i < length start.handles = ground (arith, v.valid.inside, v.same) in
      (
        record s { callers = set s.callers t (loaded i) },
        rw (next_index_lem s.coordinator v.valid, load) refl,
        record {
          valid = v.valid;
          same = v.same;
          callers = AllInRange-set (length start.handles) s.callers t (loaded i) v.callers below;
          called = v.called;
        },
      )
  advance_from-IsSafe s t (some (loaded i)) e v =
      let below : i < length start.handles = AllInRange-get _ s.callers t (loaded i) v.callers e in
      (
        _,
        refl,
        record {
          valid = record { inside = omega (arith, below, v.same); fits = v.valid.fits };
          same = v.same;
          callers = AllInRange-set (length start.handles) s.callers t (stored i) v.callers below;
          called = v.called;
        },
      )
  advance_from-IsSafe s t (some (stored i)) e v =
      let below : i < length start.handles = AllInRange-get _ s.callers t (stored i) v.callers e in
      let inside : i < length s.coordinator.handles = omega (arith, v.same) in
      let (h, found) = get_elem?-lt s.coordinator.handles i inside in
      let kept = length-set s.coordinator.handles i (call h).0 in
      (
        record s {
          coordinator = record s.coordinator { handles = set s.coordinator.handles i (call h).0 };
          callers = set s.callers t idle;
          made = i ∷ s.made;
        },
        rw (found, call_at) refl,
        record {
          valid = record {
            inside = omega (arith, kept, v.valid.inside);
            fits = omega (arith, kept, v.valid.fits);
          };
          same = kept ∙ v.same;
          callers = AllInRange-set (length start.handles) s.callers t idle v.callers tt;
          called = λ x.
              get_elem?-set s.coordinator.handles i x (call h).0 inside
              ∙ called_after (get_elem? s.coordinator.handles) (get_elem? start.handles) s.made i x
                  h found v.called;
        },
      )

  schedule-steps :
      (ts : List ℕ) (s : Shared H)
      → IsSafe s
      → (s' : Shared H) × (schedule call ts s ≡ some s') × IsSafe s'
  unfolding schedule advance
  schedule-steps [] s v = (s, refl, v)
  schedule-steps (t ∷ ts) s v =
      let (s₁, e, v₁) = advance_from-IsSafe s t (get_elem? s.callers t) refl v in
      let (last, e', v') = schedule-steps ts s₁ v₁ in (last, rw (e, schedule) e', v')

AllInRange-idle : (n : ℕ) (ps : List Phase) → all_idle ps ≡ true → AllInRange n ps
AllInRange-idle n [] h = tt
AllInRange-idle n (idle ∷ ps) h = (tt, AllInRange-idle n ps h)
AllInRange-idle n (loaded i ∷ ps) h = cc
AllInRange-idle n (stored i ∷ ps) h = cc

module _ {H : Type 0} (call : H → H × Unit {0}) where
  -- No call is lost and none panics, however the steps of the callers are interleaved: if the
  -- coordinator has a handle and no call is going on at the start, then after any schedule the index and the index of each caller are
  -- those of handles, the handles are as many as before, and each has had exactly the calls that
  -- were made on it.
  pub schedule-IsSafe :
      (ts : List ℕ) (s : Shared H)
      → IsValid s.coordinator
      → all_idle s.callers ≡ true
      → s.made ≡ []
      → (s' : Shared H) × (schedule call ts s ≡ some s') × IsSafe call s.coordinator s'
  unfolding times
  schedule-IsSafe ts s v h m = schedule-steps call s.coordinator ts s (record {
    valid = v;
    same = refl;
    callers = AllInRange-idle (length s.coordinator.handles) s.callers h;
    called = λ x. rw m (sym (map_id (get_elem? s.coordinator.handles x)));
  })
    where
      map_id : (o : Option H) → Option.map (times call 0) o ≡ o
      map_id none = refl
      map_id (some h) = refl
