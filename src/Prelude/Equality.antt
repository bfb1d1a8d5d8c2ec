-- ===== src/Prelude/Equality.antt =====
-- Boolean equality as an interface, with the instances that the components compare by, and the
-- prefix and suffix tests of slices and strings over it.
use Prim.Native.Nat.{ℕ}
use Prim.Native.String.{String}
use mathlib.Core.Path.{◌≡◌, refl, sym, ap, ◌∙◌}
use mathlib.Core.Logic.{◌↔◌}
use mathlib.Core.Bool.{Bool, true, false, ◌&&◌}
use mathlib.Core.Option
use mathlib.Core.Option.{Option, none, some}
use mathlib.Core.List.{List, [], ◌∷◌, ◌++◌, reverse, reverse-append, reverse-reverse}
use native.Mathlib.Omega.{arith}
use text.Mathlib.Text.{◌==◌ as str_eq}
use text.Mathlib.TextEquality.{eq_iff}
use llmdevsilo.Prelude.Tests.{if◌then◌else◌, eqb, eqb_iff, is_some}

pub record Eq {ℓ} (A : Type ℓ) : Type ℓ where
  pub equals : A → A → Bool
  pub equals_iff : (x y : A) → (equals x y ≡ true) ↔ (x ≡ y)

infix 50 ◌==◌
abbrev pub ◌==◌ {ℓ} : {X : Type ℓ} ⦃eq : Eq X⦄ → X → X → Bool
◌==◌ ⦃eq⦄ = eq.equals

instance abbrev pub nat_eq : Eq ℕ
nat_eq = record { equals = eqb; equals_iff = eqb_iff }

instance abbrev pub string_eq : Eq String
string_eq = record { equals = str_eq; equals_iff = eq_iff }

module _ {ℓ} {A : Type ℓ} ⦃e : Eq A⦄ where
  abbrev pub list_beq : List A → List A → Bool
  list_beq [] [] = true
  list_beq (x ∷ xs) (y ∷ ys) = e.equals x y && list_beq xs ys
  list_beq _ _ = false

  pub list_beq_iff : (xs ys : List A) → (list_beq xs ys ≡ true) ↔ (xs ≡ ys)
  list_beq_iff [] [] = ground arith
  list_beq_iff [] (y ∷ ys) = ground arith
  list_beq_iff (x ∷ xs) [] = ground arith
  list_beq_iff (x ∷ xs) (y ∷ ys) = ground (arith, e.equals_iff x y, list_beq_iff xs ys)

instance abbrev pub list_eq {ℓ} : {A : Type ℓ} ⦃e : Eq A⦄ → Eq (List A)
list_eq ⦃e⦄ = record { equals = list_beq ⦃e = e⦄; equals_iff = list_beq_iff ⦃e = e⦄ }

module _ {ℓ} {A : Type ℓ} ⦃e : Eq A⦄ where
  pub beq_refl : (a : A) → e.equals a a ≡ true
  beq_refl a = (e.equals_iff a a).1 refl

  -- `strip_prefix` of `str` and of slices.
  unfoldable pub strip_prefix : List A → List A → Option (List A)
  strip_prefix [] xs = some xs
  strip_prefix (p ∷ ps) [] = none
  strip_prefix (p ∷ ps) (x ∷ xs) = if e.equals p x then strip_prefix ps xs else none

  pub strip_prefix-eq-some :
      (ps xs : List A) {r : List A} → strip_prefix ps xs ≡ some r → xs ≡ ps ++ r
  unfolding strip_prefix
  strip_prefix-eq-some [] xs h = ground arith
  strip_prefix-eq-some (p ∷ ps) [] h = ground arith
  strip_prefix-eq-some (p ∷ ps) (x ∷ xs) {r = r} h =
      ground (arith, e.equals_iff p x, strip_prefix-eq-some ps xs {r = r})

  pub strip_prefix-append : (ps r : List A) → strip_prefix ps (ps ++ r) ≡ some r
  unfolding strip_prefix
  strip_prefix-append [] r = refl
  strip_prefix-append (p ∷ ps) r = rw (beq_refl p) (strip_prefix-append ps r)

  -- `starts_with` of paths, by their components.
  abbrev pub starts_with : List A → List A → Bool
  starts_with xs base = is_some (strip_prefix base xs)

  pub starts_with_iff :
      (xs base : List A) → (starts_with xs base ≡ true) ↔ ((rest : List A) × (xs ≡ base ++ rest))
  starts_with_iff xs base =
      (go (strip_prefix base xs) refl, λ (rest, e). rw (e, strip_prefix-append base rest) refl)
    where
      go :
          (o : Option (List A))
          → strip_prefix base xs ≡ o
          → is_some o ≡ true
          → (rest : List A) × (xs ≡ base ++ rest)
      go none q h = ground arith
      go (some rest) q h = (rest, strip_prefix-eq-some base xs q)

  -- `strip_suffix` of `str`.
  unfoldable pub strip_suffix : List A → List A → Option (List A)
  strip_suffix s xs = Option.map reverse (strip_prefix (reverse s) (reverse xs))

  pub strip_suffix-append : (p s : List A) → strip_suffix s (p ++ s) ≡ some p
  unfolding strip_suffix
  strip_suffix-append p s =
      rw (reverse-append p s, strip_prefix-append (reverse s) (reverse p), reverse-reverse p)

  pub strip_suffix-eq-some : (s xs : List A) {r : List A} → strip_suffix s xs ≡ some r → xs ≡ r ++ s
  unfolding strip_suffix
  strip_suffix-eq-some s xs {r = r} h =
      let (q, found, back) = (Option.map-eq-some_iff _ _).0 h in
      let split : reverse xs ≡ reverse s ++ q =
        strip_prefix-eq-some (reverse s) (reverse xs) found in
      sym (reverse-reverse xs)
      ∙ ap reverse split
      ∙ reverse-append (reverse s) q
      ∙ (λ i. back i ++ reverse-reverse s i)
