-- ===== src/Common/Lists.antt =====
-- Lists measured by native numbers, the counting range, and sets of numbers as lists.
use Prim.Native.Nat.{ℕ, zero, suc, ◌+◌, ◌≤◌, ◌<◌}
use mathlib.Core.Path.{◌≡◌, refl, ap}
use mathlib.Core.Logic.{◌≢◌}
use mathlib.Core.Bool.{Bool, true, false, ◌&&◌, ◌||◌, not}
use mathlib.Core.Option
use mathlib.Core.Option.{Option, none, some}
use mathlib.Core.List.{List, [], ◌∷◌, ◌++◌, map, append_assoc}
use native.Mathlib.Omega.{arith}
use toy_io.Common.Tests.{◌==◌, leb, ltb, if◌then◌else◌}

module _ {ℓ} {A : Type ℓ} where
  abbrev pub length : List A → ℕ
  length [] = 0
  length (x ∷ xs) = suc (length xs)

  pub length-append : (xs ys : List A) → length (xs ++ ys) ≡ length xs + length ys
  length-append [] ys = omega arith
  length-append (x ∷ xs) ys = omega (arith, length-append xs ys)

  abbrev pub get_elem? : List A → ℕ → Option A
  get_elem? [] i = none
  get_elem? (x ∷ xs) zero = some x
  get_elem? (x ∷ xs) (suc i) = get_elem? xs i

  -- A write out of bounds changes nothing.
  abbrev pub set : List A → ℕ → A → List A
  set [] i v = []
  set (x ∷ xs) zero v = v ∷ xs
  set (x ∷ xs) (suc i) v = x ∷ set xs i v

  pub length-set : (xs : List A) (i : ℕ) (v : A) → length (set xs i v) ≡ length xs
  length-set [] i v = refl
  length-set (x ∷ xs) zero v = refl
  length-set (x ∷ xs) (suc i) v = omega (arith, length-set xs i v)

  pub get_elem?-set :
      (xs : List A) (i j : ℕ) (v : A)
      → i < length xs
      → get_elem? (set xs i v) j ≡ (if i == j then some v else get_elem? xs j)
  get_elem?-set [] i j v h = absurd (omega arith)
  get_elem?-set (x ∷ xs) zero zero v h = ground arith
  get_elem?-set (x ∷ xs) zero (suc j) v h = ground arith
  get_elem?-set (x ∷ xs) (suc i) zero v h = ground arith
  get_elem?-set (x ∷ xs) (suc i) (suc j) v h = ground (arith, get_elem?-set xs i j v)

  pub get_elem?-set_same :
      (xs : List A) (i : ℕ) (v w : A) → get_elem? xs i ≡ some v → get_elem? (set xs i w) i ≡ some w
  get_elem?-set_same [] i v w e = cc
  get_elem?-set_same (x ∷ xs) zero v w e = refl
  get_elem?-set_same (x ∷ xs) (suc i) v w e = get_elem?-set_same xs i v w e

  pub get_elem?-set_other :
      (xs : List A) (i j : ℕ) (v : A) → i ≢ j → get_elem? (set xs i v) j ≡ get_elem? xs j
  get_elem?-set_other [] i j v n = refl
  get_elem?-set_other (x ∷ xs) zero zero v n = absurd (n refl)
  get_elem?-set_other (x ∷ xs) zero (suc j) v n = refl
  get_elem?-set_other (x ∷ xs) (suc i) zero v n = refl
  get_elem?-set_other (x ∷ xs) (suc i) (suc j) v n =
      get_elem?-set_other xs i j v (λ e. n (omega (arith, e)))

  pub get_elem?-lt : (xs : List A) (i : ℕ) → i < length xs → (a : A) × (get_elem? xs i ≡ some a)
  get_elem?-lt [] i h = absurd (omega arith)
  get_elem?-lt (x ∷ xs) zero h = (x, refl)
  get_elem?-lt (x ∷ xs) (suc i) h = get_elem?-lt xs i (omega arith)

module _ {ℓ} {A : Type ℓ} where
  -- Two lists of one length with the same elements are equal.
  pub ext :
      (xs ys : List A)
      → length xs ≡ length ys
      → ((i : ℕ) → i < length xs → get_elem? xs i ≡ get_elem? ys i)
      → xs ≡ ys
  ext [] [] e h = refl
  ext [] (y ∷ ys) e h = absurd (omega arith)
  ext (x ∷ xs) [] e h = absurd (omega arith)
  ext (x ∷ xs) (y ∷ ys) e h =
      let tails = ext xs ys (omega arith) (λ i k. h (suc i) (omega arith)) in
      let heads : some x ≡ some y = h 0 (omega arith) in ground arith

  pub length-map {κ} : {B : Type κ} (xs : List A) (f : A → B) → length (map f xs) ≡ length xs
  length-map [] f = refl
  length-map (x ∷ xs) f = omega (arith, length-map xs f)

  pub map-append {κ} :
      {B : Type κ} (f : A → B) (xs ys : List A) → map f (xs ++ ys) ≡ map f xs ++ map f ys
  map-append f [] ys = refl
  map-append f (x ∷ xs) ys = ap (◌∷◌ (f x)) (map-append f xs ys)

  pub get_elem?-map {κ} :
      {B : Type κ} (xs : List A) (i : ℕ) (f : A → B)
      → get_elem? (map f xs) i ≡ Option.map f (get_elem? xs i)
  get_elem?-map [] i f = refl
  get_elem?-map (x ∷ xs) zero f = refl
  get_elem?-map (x ∷ xs) (suc i) f = get_elem?-map xs i f

-- The numbers from `a` on, `n` of them.
unfoldable pub range_from : ℕ → ℕ → List ℕ
range_from a zero = []
range_from a (suc n) = a ∷ range_from (suc a) n

-- A `HashSet` of numbers is a list without repetition.
unfoldable pub contains : ℕ → List ℕ → Bool
contains k [] = false
contains k (x ∷ xs) = x == k || contains k xs

unfoldable pub set_insert : ℕ → List ℕ → List ℕ
set_insert k xs = if contains k xs then xs else k ∷ xs

unfoldable pub set_remove : ℕ → List ℕ → List ℕ
set_remove k [] = []
set_remove k (x ∷ xs) = if x == k then set_remove k xs else x ∷ set_remove k xs

pub contains-range_from : (k a n : ℕ) → contains k (range_from a n) ≡ (leb a k && ltb k (a + n))
unfolding contains range_from
contains-range_from k a zero = ground arith
contains-range_from k a (suc n) = ground (arith, contains-range_from k (suc a) n)

pub contains-set_insert :
    (j k : ℕ) (xs : List ℕ) → contains j (set_insert k xs) ≡ (k == j || contains j xs)
unfolding set_insert contains
contains-set_insert j k xs = ground (arith, contains_same j k xs)
  where
    contains_same : (j k : ℕ) (xs : List ℕ) → k ≡ j → contains k xs ≡ contains j xs
    contains_same j k xs e = cc

pub contains-set_remove :
    (j k : ℕ) (xs : List ℕ) → contains j (set_remove k xs) ≡ (not (k == j) && contains j xs)
unfolding set_remove contains
contains-set_remove j k [] = ground arith
contains-set_remove j k (x ∷ xs) = ground (arith, contains-set_remove j k xs)

pub length-set_remove-le : (k : ℕ) (xs : List ℕ) → length (set_remove k xs) ≤ length xs
unfolding set_remove
length-set_remove-le k [] = omega arith
length-set_remove-le k (x ∷ xs) = ground (arith, length-set_remove-le k xs)

pub length-set_remove-lt :
    (k : ℕ) (xs : List ℕ) → contains k xs ≡ true → length (set_remove k xs) < length xs
unfolding set_remove contains
length-set_remove-lt k [] h = cc
length-set_remove-lt k (x ∷ xs) h =
    ground (arith, length-set_remove-le k xs, length-set_remove-lt k xs)

pub length-range_from : (a n : ℕ) → length (range_from a n) ≡ n
unfolding range_from
length-range_from a zero = refl
length-range_from a (suc n) = omega (arith, length-range_from (suc a) n)

pub contains-append :
    (k : ℕ) (xs ys : List ℕ) → contains k (xs ++ ys) ≡ (contains k xs || contains k ys)
unfolding contains
contains-append k [] ys = refl
contains-append k (x ∷ xs) ys = ground (arith, contains-append k xs ys)

-- Two steps of a loop that takes from the front and adds at the back.
pub append_step {ℓ} :
    {A : Type ℓ} (q e p t r q₁ q₂ : List A)
    → q ++ e ≡ t ++ q₁
    → q₁ ++ p ≡ r ++ q₂
    → q ++ (e ++ p) ≡ (t ++ r) ++ q₂
append_step q e p t r q₁ q₂ h₁ h₂ =
    cc (append_assoc q e p, append_assoc t q₁ p, append_assoc t r q₂)
