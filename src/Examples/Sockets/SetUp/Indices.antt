-- ===== src/Examples/Sockets/SetUp/Indices.antt =====
-- imputio/src/executor/handle.rs: the indices that a row of calls on a coordinator gets.
use toy_io.Common.{
  ℕ, suc, ◌+◌, ◌-◌, ◌<◌, ◌≡◌, ◌≢◌, ◌⊎◌, inl, inr, Bool-cases, if◌then◌else◌, ◌==◌, ltb, arith,
}

-- The index of the call of number `k` after the index `i`, of `len` handles.
abbrev pub turn_index : (i len k : ℕ) → ℕ
turn_index i len k = if ltb (i + 1 + k) len then i + 1 + k else i + 1 + k - len

abbrev pub next : (i n : ℕ) → ℕ
next i n = if i + 1 == n then 0 else i + 1

pub turn-zero : (i n : ℕ) → i < n → turn_index i n 0 ≡ next i n
turn-zero i n h = ground arith

pub turn-suc : (i n k : ℕ) → i < n → suc k < n → turn_index (next i n) n k ≡ turn_index i n (suc k)
turn-suc i n k h l = ground arith

pub turn-other : (i n k : ℕ) → i < n → suc k < n → turn_index i n (suc k) ≢ next i n
turn-other i n k h l = ground arith

pub below_zero : (k : ℕ) → k < 0 → ⊥
below_zero k l = omega arith

pub zero_add : (k : ℕ) → 0 + k ≡ k
zero_add k = omega arith

pub add_zero : (i : ℕ) → i ≡ i + 0
add_zero i = omega arith

pub add_next : (i k : ℕ) → suc i + k ≡ i + suc k
add_next i k = omega arith

-- The number of the call that goes to the handle `x`.
abbrev pub turn_of : (i n x : ℕ) → ℕ
turn_of i n x = if ltb i x then x - i - 1 else x + n - i - 1

pub turn_of_lt : (i n x : ℕ) → i < n → x < n → turn_of i n x < n
turn_of_lt i n x h l = ground arith

pub turn_index-turn_of : (i n x : ℕ) → i < n → x < n → turn_index i n (turn_of i n x) ≡ x
turn_index-turn_of i n x h l = ground arith

pub same_or_not : (i x : ℕ) → (i ≡ x) ⊎ (i ≢ x)
same_or_not i x = elim (Bool-cases (i == x)) [
  | inl e ↦ inl (ground arith)
  | inr e ↦ inr (ground arith)
]
