-- ===== src/Coordinator/Turns.antt =====
-- imputio/src/executor/handle.rs: which handle each call of the coordinator goes to.
use mathlib.Core.Option
use toy_io.Common.{
  ℕ, zero, suc, ◌+◌, ◌-◌, ◌%◌, ◌<◌, ◌≤◌, ◌≡◌, refl, sym, subst, ◌∙◌, ap, Bool, true, false, ◌||◌,
  ◌&&◌, Option, none, some, List, arith, length, get_elem?, set, length-set, get_elem?-set,
  get_elem?-lt, map, ext, length-map, get_elem?-map, if◌then◌else◌, ◌==◌, ltb, leb,
}
use toy_io.Coordinator.{
  ExecHandleCoordinator, usize_mod, initialize, next_index, dispatch_at, dispatch,
}

next_mod : (i n : ℕ) → i < n → (i + 1) % n ≡ (if i + 1 == n then 0 else i + 1)
next_mod i n h = grind arith

module _ {H : Type 0} where
  -- There is a handle, the index is one of a handle, and the number of handles is a `usize`.
  pub record IsValid (c : ExecHandleCoordinator H) : Type 0 where
    pub inside : c.index < length c.handles
    pub fits : length c.handles < usize_mod

  -- The index of the next call.
  abbrev pub following : ExecHandleCoordinator H → ℕ
  following c = if c.index + 1 == length c.handles then 0 else c.index + 1

  pub next_index_lem : (c : ExecHandleCoordinator H) → IsValid c → next_index c ≡ some (following c)
  unfolding next_index
  next_index_lem c v =
      let small : (c.index + 1) % usize_mod ≡ c.index + 1 = omega arith in
      let some_handle : (length c.handles == 0) ≡ false = ground arith in
      rw (next_index, some_handle, small, next_mod c.index (length c.handles) v.inside) refl

  -- With a handle, a call goes to the handle behind the one of the last call, and after the last
  -- handle to the first; it does not panic, it changes no other handle, and the coordinator keeps
  -- its handles in order.
  pub dispatch_lem :
      {A : Type 0} (c : ExecHandleCoordinator H) (call : H → H × A)
      → IsValid c
      → (h : H) × (get_elem? c.handles (following c) ≡ some h)
        × (dispatch c call
            ≡ some (
              record c { handles = set c.handles (following c) (call h).0; index = following c },
              (call h).1,
            ))
        × IsValid
            (record c { handles = set c.handles (following c) (call h).0; index = following c })
  unfolding dispatch dispatch_at
  dispatch_lem c call v =
      let i = following c in
      let lt : i < length c.handles = ground arith in
      let (h, e) = get_elem?-lt c.handles i lt in
      (
        h,
        e,
        rw (dispatch, next_index_lem c v, e) refl,
        record {
          inside = omega (arith, length-set c.handles i (call h).0, lt);
          fits = omega (arith, length-set c.handles i (call h).0);
        },
      )

  pub initialize-IsValid :
      (handles : List H)
      → 0 < length handles
      → length handles < usize_mod
      → IsValid (initialize handles)
  unfolding initialize
  initialize-IsValid handles h k = record { inside = h; fits = k }

module _ {H : Type 0} (call : H → H × Unit {0}) where
  -- The same call, `n` times.
  pub dispatch_times : ℕ → ExecHandleCoordinator H → Option (ExecHandleCoordinator H)
  dispatch_times zero c = some c
  dispatch_times (suc n) c = elim (dispatch_times n c) [
    | none ↦ none
    | some c' ↦ elim (dispatch c' call) [ none ↦ none | some (c'', _) ↦ some c'' ]
  ]

  -- After `n` calls from the index `i` on, handle `x` of `len` has had its turn.
  abbrev had_turn : (i n len x : ℕ) → Bool
  had_turn i n len x = ltb i x && leb x (i + n) || leb (x + len) (i + n)

  record After (n : ℕ) (c c' : ExecHandleCoordinator H) : Type 0 where
    valid : IsValid c'
    same : length c'.handles ≡ length c.handles
    at : c'.index ≡ (
        if ltb (c.index + n) (length c.handles)
        then c.index + n
        else c.index + n - length c.handles)
    called :
        (x : ℕ)
        → x < length c.handles
        → get_elem? c'.handles x ≡ (
            if had_turn c.index n (length c.handles) x
            then Option.map (λ h. (call h).0) (get_elem? c.handles x)
            else get_elem? c.handles x)

  After-zero : (c : ExecHandleCoordinator H) → IsValid c → After 0 c c
  After-zero c v = record {
    valid = v;
    same = refl;
    at = let i : c.index < length c.handles = v.inside in ground arith;
    called = λ x _. let i : c.index < length c.handles = v.inside in ground arith;
  }

  -- The index and the handles that have had their turn, after one more call.
  step-index :
      (i n len j : ℕ)
      → i < len
      → suc n ≤ len
      → j ≡ (if ltb (i + n) len then i + n else i + n - len)
      → (if j + 1 == len then 0 else j + 1)
        ≡ (if ltb (i + suc n) len then i + suc n else i + suc n - len)
  step-index i n len j h k e = ground arith

  step-turn :
      (i n len j x : ℕ)
      → i < len
      → suc n ≤ len
      → x < len
      → j ≡ (if ltb (i + suc n) len then i + suc n else i + suc n - len)
      → (had_turn i (suc n) len x ≡ (j == x || had_turn i n len x))
        × ((j == x && had_turn i n len x) ≡ false)
  step-turn i n len j x h k l e = (ground arith, ground arith)

  After-step :
      (n : ℕ) (c c₁ : ExecHandleCoordinator H) (h : H)
      → suc n ≤ length c.handles
      → IsValid c
      → After n c c₁
      → get_elem? c₁.handles (following c₁) ≡ some h
      → let i = following c₁ in
        let c₂ = record c₁ { handles = set c₁.handles i (call h).0; index = i } in
        IsValid c₂ → After (suc n) c c₂
  After-step n c c₁ h k v a now v' =
      let i = following c₁ in
      let len = length c.handles in
      let below : i < length c₁.handles = ground (arith, a.valid.inside) in
      let at : i ≡ (if ltb (c.index + suc n) len then c.index + suc n else c.index + suc n - len) =
        subst
          (λ l.
            (if c₁.index + 1 == l then 0 else c₁.index + 1)
            ≡ (if ltb (c.index + suc n) len then c.index + suc n else c.index + suc n - len))
          (sym a.same) (step-index c.index n len c₁.index v.inside k a.at) in
      record {
        valid = v';
        same = length-set c₁.handles i (call h).0 ∙ a.same;
        at = at;
        called = λ x lt.
            get_elem?-set c₁.handles i x (call h).0 below
            ∙ turn (get_elem? c₁.handles) (get_elem? c.handles) i x h _ _ now (a.called x lt)
                (step-turn c.index n len i x v.inside k lt at);
      }
    where
      turn :
          (new old : ℕ → Option H) (i x : ℕ) (h : H) (b b' : Bool)
          → new i ≡ some h
          → new x ≡ (if b then Option.map (λ h. (call h).0) (old x) else old x)
          → (b' ≡ (i == x || b)) × ((i == x && b) ≡ false)
          → (if i == x then some (call h).0 else new x)
            ≡ (if b' then Option.map (λ h. (call h).0) (old x) else old x)
      turn new old i x h b b' e e' t = ground (arith, same)
        where
          same : i ≡ x → new i ≡ new x
          same e = ap new e

  times-After :
      (n : ℕ) (c : ExecHandleCoordinator H)
      → n ≤ length c.handles
      → IsValid c
      → (c' : ExecHandleCoordinator H) × (dispatch_times n c ≡ some c') × After n c c'
  unfolding dispatch_times
  times-After zero c h v = (c, refl, After-zero c v)
  times-After (suc n) c h v =
      let (c₁, e, a) = times-After n c (omega arith) v in
      let (t, now, d, v') = dispatch_lem c₁ call a.valid in
      (_, rw (dispatch_times, e, d) refl, After-step n c c₁ t h v a now v')

  -- Round robin: as many calls as there are handles give each handle exactly one call, whatever the
  -- index is at the start, and end at that index.
  pub dispatch_times_round :
      (c : ExecHandleCoordinator H)
      → IsValid c
      → (c' : ExecHandleCoordinator H) × (dispatch_times (length c.handles) c ≡ some c')
        × (c'.index ≡ c.index)
        × (c'.handles ≡ map (λ h. (call h).0) c.handles)
  dispatch_times_round c v =
      let len = length c.handles in
      let (c', e, a) = times-After len c (omega arith) v in
      (
        c',
        e,
        a.at ∙ back c.index len v.inside,
        ext c'.handles (map (λ h. (call h).0) c.handles)
            (a.same ∙ sym (length-map c.handles (λ h. (call h).0)))
            (λ x lt.
              a.called x (rw a.same at lt)
              ∙ rw (all_turns c.index len x v.inside (rw a.same at lt))
                  (sym (get_elem?-map c.handles x (λ h. (call h).0)))),
      )
    where
      back : (i n : ℕ) → i < n → (if ltb (i + n) n then i + n else i + n - n) ≡ i
      back i n h = ground arith

      all_turns : (i n x : ℕ) → i < n → x < n → had_turn i n n x ≡ true
      all_turns i n x h k = ground arith
