-- ===== src/Workspace/AutoExec/Surfaces.antt =====
-- autoexec.rs: what the table covers, at any depth.
use mathlib.Core.Bool.{false≢true}
use llmdevsilo.Prelude.{
  or_true, or_cases, ℕ, zero, suc, ◌≤◌, ◌≡◌, refl, sym, ap, ◌∙◌, ◌⊎◌, inl, inr, Bool, true, false,
  ◌||◌, List, [], ◌∷◌, ◌++◌, some, ◌==◌, nat_eq, list_eq, list_beq_iff, Text, length, take, drop,
  any, is_empty, leb, leb→le, le→leb, Bool-cases, length-append, arith,
}
use llmdevsilo.Workspace.AutoExec.{
  Pattern, under_dir, name, path_suffix, name_suffix, init, last, windows,
}

-- What a pattern is meant to cover: what lies in a chain of directories, a name, the end of a path, the
-- end of a name; each below any outer directories.
abbrev pub Shape : Pattern → List Text → Type 0
Shape (under_dir dirs) segments =
    (outer : List Text) × (inner : List Text) × (leaf : Text) × (segments
      ≡ outer ++ (dirs ++ (inner ++ (leaf ∷ []))))
Shape (name n) segments = (outer : List Text) × (segments ≡ outer ++ (n ∷ []))
Shape (path_suffix suffix) segments = (outer : List Text) × (segments ≡ outer ++ suffix)
Shape (name_suffix suffix) segments =
    (outer : List Text) × (stem : Text) × (segments ≡ outer ++ ((stem ++ suffix) ∷ []))

-- A chain names something.
abbrev pub Usable : Pattern → Type 0
Usable (under_dir dirs) = is_empty dirs ≡ false
Usable (name n) = Unit
Usable (path_suffix suffix) = is_empty suffix ≡ false
Usable (name_suffix suffix) = Unit

pub init-last :
    (xs : List Text) → (xs ≡ []) ⊎ ((l : Text) × (xs ≡ init xs ++ (l ∷ [])) × (last xs ≡ some l))
init-last [] = inl refl
init-last (x ∷ []) = inr (x, refl, refl)
init-last (x ∷ (y ∷ xs)) = elim (init-last (y ∷ xs)) [
  | inl e ↦ cc
  | inr h ↦ inr (h.0, ap (λ ys. x ∷ ys) h.1, h.2)
]

pub init-push : (xs : List Text) (l : Text) → init (xs ++ (l ∷ [])) ≡ xs
init-push [] l = refl
init-push (x ∷ []) l = refl
init-push (x ∷ (y ∷ xs)) l = ap (λ ys. x ∷ ys) (init-push (y ∷ xs) l)

pub last-push : (xs : List Text) (l : Text) → last (xs ++ (l ∷ [])) ≡ some l
last-push [] l = refl
last-push (x ∷ []) l = refl
last-push (x ∷ (y ∷ xs)) l = last-push (y ∷ xs) l

take-drop : (n : ℕ) (xs : List Text) → xs ≡ take n xs ++ drop n xs
take-drop zero xs = refl
take-drop (suc n) [] = refl
take-drop (suc n) (x ∷ xs) = ap (λ ys. x ∷ ys) (take-drop n xs)

take-append : (ds rest : List Text) → take (length ds) (ds ++ rest) ≡ ds
take-append [] rest = refl
take-append (d ∷ ds) rest = ap (λ ys. d ∷ ys) (take-append ds rest)

abbrev has_window : List Text → List Text → Bool
has_window dirs xs = any (λ window. window == dirs) (windows (length dirs) xs)

has_window-cons :
    (dirs : List Text) (x : Text) (xs : List Text)
    → length dirs ≤ length (x ∷ xs)
    → has_window dirs (x ∷ xs) ≡ (take (length dirs) (x ∷ xs) == dirs) || has_window dirs xs
has_window-cons dirs x xs h = rw (le→leb (length dirs) (length (x ∷ xs)) h) refl

-- `windows` finds a chain just where the list has it.
pub has_window-from :
    (dirs outer rest : List Text)
    → is_empty dirs ≡ false
    → has_window dirs (outer ++ (dirs ++ rest)) ≡ true
has_window-from [] [] rest h = absurd (false≢true (sym h))
has_window-from (d ∷ ds) [] rest h =
    has_window-cons (d ∷ ds) d (ds ++ rest) (let e = length-append ds rest in omega arith)
    ∙ ap (λ b. b || has_window (d ∷ ds) (ds ++ rest))
        ((list_beq_iff (take (length (d ∷ ds)) ((d ∷ ds) ++ rest)) (d ∷ ds)).1
          (take-append (d ∷ ds) rest))
has_window-from dirs (o ∷ outer) rest h =
    has_window-cons dirs o (outer ++ (dirs ++ rest)) (
      let e = length-append outer (dirs ++ rest) in let e' = length-append dirs rest in omega arith)
    ∙ ap (λ b. (take (length dirs) (o ∷ (outer ++ (dirs ++ rest))) == dirs) || b)
        (has_window-from dirs outer rest h)
    ∙ or_true (take (length dirs) (o ∷ (outer ++ (dirs ++ rest))) == dirs)

pub has_window-to :
    (dirs xs : List Text)
    → has_window dirs xs ≡ true
    → (outer : List Text) × (rest : List Text) × (xs ≡ outer ++ (dirs ++ rest))
has_window-to dirs [] h = absurd (false≢true h)
has_window-to dirs (x ∷ xs) h = elim (Bool-cases (leb (length dirs) (length (x ∷ xs)))) [
  | inr e ↦ absurd (false≢true (rw (e) at h))
  | inl e ↦
      elim (or_cases _ _
        (sym (has_window-cons dirs x xs (leb→le (length dirs) (length (x ∷ xs)) e)) ∙ h)) [
          | inl b ↦ (
            [],
            drop (length dirs) (x ∷ xs),
            take-drop (length dirs) (x ∷ xs)
                ∙ ap (λ ys. ys ++ drop (length dirs) (x ∷ xs))
                    ((list_beq_iff (take (length dirs) (x ∷ xs)) dirs).0 b),
          )
          | inr b ↦
              let (outer, rest, eq) = has_window-to dirs xs b in
              (x ∷ outer, rest, ap (λ ys. x ∷ ys) eq)
        ]
]
