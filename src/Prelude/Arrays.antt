-- ===== src/Prelude/Arrays.antt =====
-- Arrays and other families indexed by a number, as functions; a write is `update`. Sums over the
-- first members of a family.
use Prim.Native.Nat.{ℕ, zero, suc, ◌+◌, ◌≤◌, ◌<◌}
use mathlib.Core.Path.{◌≡◌, refl}
use mathlib.Core.Logic.{◌≢◌}
use native.Mathlib.Decide.{ℕ_discrete}
use native.Mathlib.Omega.{arith}
use psa.Prelude.Tests.{◌==◌, if◌then◌else◌}

abbrev pub update {ℓ} : {A : Type ℓ} → (ℕ → A) → ℕ → A → ℕ → A
update f i a j = if i == j then a else f j

pub sum_of : (ℕ → ℕ) → ℕ → ℕ
sum_of f zero = 0
sum_of f (suc n) = sum_of f n + f n

pub sum_of-zero : (f : ℕ → ℕ) (n : ℕ) → ((i : ℕ) → f i ≡ 0) → sum_of f n ≡ 0
unfolding sum_of
sum_of-zero f zero h = refl
sum_of-zero f (suc n) h = omega (arith, sum_of-zero f n h, h n)

sum_of-same : (f g : ℕ → ℕ) (n : ℕ) → ((j : ℕ) → j < n → g j ≡ f j) → sum_of g n ≡ sum_of f n
unfolding sum_of
sum_of-same f g zero h = refl
sum_of-same f g (suc n) h =
    omega (arith, sum_of-same f g n (λ j lt. h j (omega arith)), h n (omega arith))

-- A change of one member changes the sum by as much.
pub sum_of-change :
    (f g : ℕ → ℕ) (i n : ℕ)
    → i < n
    → ((j : ℕ) → i ≢ j → g j ≡ f j)
    → sum_of g n + f i ≡ sum_of f n + g i
unfolding sum_of
sum_of-change f g i zero lt h = absurd (omega arith)
sum_of-change f g i (suc n) lt h = elim (ℕ_discrete i n) [
  | yes e ↦ rw e (omega (arith, sum_of-same f g n (λ j below. h j (omega arith))))
  | no ne ↦ omega (arith, sum_of-change f g i n (omega arith) h, h n ne)
]

pub sum_of-le : (f : ℕ → ℕ) (i n : ℕ) → i < n → f i ≤ sum_of f n
unfolding sum_of
sum_of-le f i zero lt = absurd (omega arith)
sum_of-le f i (suc n) lt = elim (ℕ_discrete i n) [
  | yes e ↦ rw e (omega arith)
  | no ne ↦ omega (arith, sum_of-le f i n (omega arith))
]

pub sum_of-le_two : (f : ℕ → ℕ) (i j n : ℕ) → i < n → j < n → i ≢ j → f i + f j ≤ sum_of f n
unfolding sum_of
sum_of-le_two f i j zero hi hj ne = absurd (omega arith)
sum_of-le_two f i j (suc n) hi hj ne = elim (ℕ_discrete i n) [
  | yes e ↦ rw e (omega (arith, sum_of-le f j n (omega arith)))
  | no other ↦ elim (ℕ_discrete j n) [
    | yes e ↦ rw e (omega (arith, sum_of-le f i n (omega arith)))
    | no both ↦ omega (arith, sum_of-le_two f i j n (omega arith) (omega arith) ne)
  ]
]
