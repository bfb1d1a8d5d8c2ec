-- ===== src/Prelude/Families.antt =====
-- What is indexed by a number: a change at one index, and sums over the indices below a bound.
use Prim.Native.Nat.{ℕ, zero, suc, ◌+◌, ◌≤◌, ◌<◌}
use mathlib.Core.Path.{◌≡◌, refl}
use mathlib.Core.Logic.{inl, inr}
use mathlib.Core.Bool.{false}
use native.Mathlib.Omega.{arith}
use llmdevsilo.Prelude.Tests.{eqb, eqb_iff, Bool-cases, if◌then◌else◌}

module _ {ℓ} {A : Type ℓ} where
  abbrev pub set_at : ℕ → A → (ℕ → A) → ℕ → A
  set_at i a f j = if eqb i j then a else f j

  pub set_at_same : (i : ℕ) (a : A) (f : ℕ → A) → set_at i a f i ≡ a
  set_at_same i a f = ground (arith, eqb_iff i i)

  pub set_at_other : (i j : ℕ) (a : A) (f : ℕ → A) → eqb i j ≡ false → set_at i a f j ≡ f j
  set_at_other i j a f h = rw (h) refl

module _ {ℓ} {A : Type ℓ} (weight : A → ℕ) where
  unfoldable pub sum_below : (ℕ → A) → ℕ → ℕ
  sum_below f zero = 0
  sum_below f (suc n) = weight (f n) + sum_below f n

  pub sum_below-set_at_beyond :
      (f : ℕ → A) (a : A) (i n : ℕ) → n ≤ i → sum_below (set_at i a f) n ≡ sum_below f n
  unfolding sum_below
  sum_below-set_at_beyond f a i zero h = refl
  sum_below-set_at_beyond f a i (suc n) h =
      ground (arith, eqb_iff i n, sum_below-set_at_beyond f a i n)

  pub sum_below-set_at :
      (f : ℕ → A) (a : A) (i n : ℕ)
      → i < n
      → sum_below (set_at i a f) n + weight (f i) ≡ weight a + sum_below f n
  unfolding sum_below
  sum_below-set_at f a i zero h = absurd (omega arith)
  sum_below-set_at f a i (suc n) h = elim (Bool-cases (eqb i n)) [
    | inl e ↦ ground (arith, eqb_iff i n, sum_below-set_at_beyond f a i n)
    | inr e ↦ ground (arith, eqb_iff i n, sum_below-set_at f a i n)
  ]

  pub sum_below-same :
      (f g : ℕ → A) (n : ℕ)
      → ((i : ℕ) → weight (f i) ≡ weight (g i))
      → sum_below f n ≡ sum_below g n
  unfolding sum_below
  sum_below-same f g zero h = refl
  sum_below-same f g (suc n) h =
      let here = h n in let rest = sum_below-same f g n h in omega (arith, here, rest)
