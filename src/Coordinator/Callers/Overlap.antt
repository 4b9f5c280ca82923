-- ===== src/Coordinator/Callers/Overlap.antt =====
-- imputio/src/executor/handle.rs: one call without interruption, and two calls that overlap.
use toy_io.Common.{
  none, zero, suc, ◌≤◌, ◌⊎◌, inl, inr, List, Option, length-set, get_elem?-lt, ℕ, ◌<◌, ◌≡◌, ◌≢◌,
  refl, ◌∙◌, sym, some, [], ◌∷◌, arith, length, get_elem?, set, get_elem?-set_same,
  get_elem?-set_other,
}
use toy_io.Coordinator.{dispatch}
use toy_io.Coordinator.Turns.{IsValid, following, next_index_lem, dispatch_lem}
use toy_io.Coordinator.Callers.{
  Phase, idle, loaded, stored, Shared, load, call_at, advance_from, advance, schedule,
}

-- An order of `a` steps of the caller `t` and `b` steps of the caller `u`.
pub data Merge (t u : ℕ) : ℕ → ℕ → List ℕ → Type 0 where
  merged : Merge t u zero zero []
  of_first : {a b : ℕ} {ts : List ℕ} → Merge t u a b ts → Merge t u (suc a) b (t ∷ ts)
  of_second : {a b : ℕ} {ts : List ℕ} → Merge t u a b ts → Merge t u a (suc b) (u ∷ ts)

-- The phase of a caller that has loaded the index `i` and has so many steps left.
abbrev phase_at : ℕ → ℕ → Option Phase
phase_at i zero = some idle
phase_at i (suc zero) = some (stored i)
phase_at i (suc (suc zero)) = some (loaded i)
phase_at i _ = none

-- Its call is made in its last step.
abbrev with_call : ℕ → ℕ → List ℕ → List ℕ
with_call i zero made = made
with_call i (suc _) made = i ∷ made

module _ {H : Type 0} (call : H → H × Unit {0}) where
  -- A call whose three steps no other caller interrupts is a call of the coordinator as one step.
  pub schedule-dispatch :
      (s : Shared H) (t : ℕ)
      → IsValid s.coordinator
      → get_elem? s.callers t ≡ some idle
      → (s' : Shared H) × (schedule call (t ∷ t ∷ t ∷ []) s ≡ some s')
        × (dispatch s.coordinator call ≡ some (s'.coordinator, tt))
        × (s'.made ≡ following s.coordinator ∷ s.made)
        × (get_elem? s'.callers t ≡ some idle)
  unfolding schedule advance advance_from call_at load
  schedule-dispatch s t v e =
      let i = following s.coordinator in
      let (h, found, d, _) = dispatch_lem s.coordinator call v in
      let first = get_elem?-set_same s.callers t idle (loaded i) e in
      let second = get_elem?-set_same (set s.callers t (loaded i)) t (loaded i) (stored i) first in
      (
        _,
        rw (schedule, e, next_index_lem s.coordinator v, first, second, found) refl,
        d,
        refl,
        get_elem?-set_same (set (set s.callers t (loaded i)) t (stored i)) t (stored i) idle second,
      )

  -- A state in which `t` has `a` steps left and `u` has `b`.
  record IsAt (i t u a b : ℕ) (made : List ℕ) (s : Shared H) : Type 0 where
    first : get_elem? s.callers t ≡ phase_at i a
    second : get_elem? s.callers u ≡ phase_at i b
    few : (a ≤ 2) × (b ≤ 2)
    inside : i < length s.coordinator.handles
    calls : with_call i a (with_call i b s.made) ≡ made
    index : a < 2 ⊎ b < 2 → s.coordinator.index ≡ i

  swap :
      (i t u a b : ℕ) (made : List ℕ) (s : Shared H) → IsAt i t u a b made s → IsAt i u t b a made s
  swap i t u a b made s v = record {
    first = v.second;
    second = v.first;
    few = (v.few.1, v.few.0);
    inside = v.inside;
    calls = with_call-comm a b ∙ v.calls;
    index = λ h. v.index (elim h [ inl x ↦ inr x | inr y ↦ inl y ]);
  }
    where
      with_call-comm :
          (a b : ℕ) → with_call i b (with_call i a s.made) ≡ with_call i a (with_call i b s.made)
      with_call-comm zero zero = refl
      with_call-comm zero (suc b) = refl
      with_call-comm (suc a) zero = refl
      with_call-comm (suc a) (suc b) = refl

  -- A step of `t`: it stores the index, or makes its call.
  step-IsAt :
      (i t u a b : ℕ) (made : List ℕ) (s : Shared H)
      → t ≢ u
      → IsAt i t u (suc a) b made s
      → (s' : Shared H) × (advance call s t ≡ some s') × IsAt i t u a b made s'
  unfolding advance advance_from call_at
  step-IsAt i t u zero b made s n v =
      let (h, found) = get_elem?-lt s.coordinator.handles i v.inside in
      (
        record {
          coordinator = record s.coordinator { handles = set s.coordinator.handles i (call h).0 };
          callers = set s.callers t idle;
          made = i ∷ s.made;
        },
        rw (v.first, advance, found) refl,
        record {
          first = get_elem?-set_same s.callers t (stored i) idle v.first;
          second = get_elem?-set_other s.callers t u idle n ∙ v.second;
          few = (omega arith, v.few.1);
          inside = omega (arith, v.inside, length-set s.coordinator.handles i (call h).0);
          calls = calls_moved b v.calls;
          index = λ h. v.index (inl (omega arith));
        },
      )
    where
      calls_moved : (b : ℕ) → i ∷ with_call i b s.made ≡ made → with_call i b (i ∷ s.made) ≡ made
      calls_moved zero e = e
      calls_moved (suc b) e = e
  step-IsAt i t u (suc zero) b made s n v = (
    record s {
      coordinator = record s.coordinator { index = i };
      callers = set s.callers t (stored i);
    },
    rw (v.first, advance) refl,
    record {
      first = get_elem?-set_same s.callers t (loaded i) (stored i) v.first;
      second = get_elem?-set_other s.callers t u (stored i) n ∙ v.second;
      few = (omega arith, v.few.1);
      inside = v.inside;
      calls = v.calls;
      index = λ h. refl;
    },
  )
  step-IsAt i t u (suc (suc a)) b made s n v = absurd (omega (arith, v.few.0))

  Merge-IsAt :
      (i t u : ℕ) {a b : ℕ} {ts : List ℕ} (made : List ℕ) (s : Shared H)
      → t ≢ u
      → Merge t u a b ts
      → IsAt i t u a b made s
      → (s' : Shared H) × (schedule call ts s ≡ some s') × IsAt i t u 0 0 made s'
  unfolding schedule
  Merge-IsAt i t u made s n merged v = (s, refl, v)
  Merge-IsAt i t u made s n (of_first {a} {b} {ts} m) v =
      let (s₁, e, w) = step-IsAt i t u a b made s n v in
      let (s', r, w') = Merge-IsAt i t u made s₁ n m w in (s', rw (e, schedule) r, w')
  Merge-IsAt i t u made s n (of_second {a} {b} {ts} m) v =
      let (s₁, e, w) =
        step-IsAt i u t b a made s (λ p. n (sym p)) (swap i t u a (suc b) made s v) in
      let (s', r, w') = Merge-IsAt i t u made s₁ n m (swap i u t b a made s₁ w) in
      (s', rw (e, schedule) r, w')

  -- Turns are lost: when two callers both load the index before either of them stores the next one,
  -- and nobody else uses the coordinator until both calls are made, then in every order of their
  -- stores and calls both calls are made on the same handle, and the index moves on by one handle
  -- only. The coordinator must have a handle.
  pub schedule-overlap :
      (s : Shared H) (t u : ℕ) (ts : List ℕ)
      → IsValid s.coordinator
      → t ≢ u
      → get_elem? s.callers t ≡ some idle
      → get_elem? s.callers u ≡ some idle
      → Merge t u 2 2 ts
      → let i = following s.coordinator in
        (s' : Shared H) × (schedule call (t ∷ u ∷ ts) s ≡ some s')
        × (s'.made ≡ i ∷ i ∷ s.made)
        × (s'.coordinator.index ≡ i)
  unfolding schedule advance advance_from load
  schedule-overlap s t u ts v n e e' m =
      let i = following s.coordinator in
      let index = next_index_lem s.coordinator v in
      let cs = set s.callers t (loaded i) in
      let both = record s { callers = set cs u (loaded i) } in
      let u₁ = get_elem?-set_other s.callers t u (loaded i) n ∙ e' in
      let t₁ = get_elem?-set_same s.callers t idle (loaded i) e in
      let (s', r, w) = Merge-IsAt i t u (i ∷ i ∷ s.made) both n m (record {
        first = get_elem?-set_other cs u t (loaded i) (λ p. n (sym p)) ∙ t₁;
        second = get_elem?-set_same cs u idle (loaded i) u₁;
        few = (omega arith, omega arith);
        inside = ground (arith, v.inside);
        calls = refl;
        index = λ h. absurd (elim h [ inl x ↦ omega arith | inr y ↦ omega arith ]);
      }) in
      (s', rw (schedule, e, index, u₁, index) r, w.calls, w.index (inl (omega arith)))
