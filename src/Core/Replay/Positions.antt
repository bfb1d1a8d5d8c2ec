-- ===== src/Core/Replay/Positions.antt =====
-- replay.rs: a list of the script whose first entries are consumed.
use llmdevsilo.Prelude.{
  ◌≡◌, refl, ap, Bool, true, false, List, [], ◌∷◌, ◌++◌, map, none, some, arith, length, All,
}
use llmdevsilo.Core.Replay.{all_done, find_index, get_elem?, set_done, all_false}

-- A list with its first entries consumed: the flags, the index of the next entry, the next flags.
module _ {A : Type 0} where
  abbrev pub all_true : List A → List Bool
  all_true xs = map (λ _. true) xs

  abbrev pub flags_after : List A → List A → List Bool
  flags_after done rest = all_true done ++ all_false rest

  pub find_index-next :
      (p : A → Bool) (done : List A) (x : A) (rest : List A)
      → p x ≡ true
      → find_index p (done ++ (x ∷ rest)) (flags_after done (x ∷ rest)) ≡ some (length done)
  find_index-next p [] x rest h = rw (h) refl
  find_index-next p (y ∷ done) x rest h = rw (find_index-next p done x rest h) refl

  pub find_index-never :
      (p : A → Bool) (xs : List A) (flags : List Bool)
      → All (λ x. p x ≡ false) xs
      → find_index p xs flags ≡ none
  find_index-never p [] flags h = refl
  find_index-never p (x ∷ xs) [] h = refl
  find_index-never p (x ∷ xs) (done ∷ flags) h =
      ground (arith, h.0, find_index-never p xs flags h.1)

  pub get_elem-next :
      (done : List A) (x : A) (rest : List A)
      → get_elem? (done ++ (x ∷ rest)) (length done) ≡ some x
  get_elem-next [] x rest = refl
  get_elem-next (y ∷ done) x rest = get_elem-next done x rest

  pub set_done-next :
      (done : List A) (x : A) (rest : List A)
      → set_done (length done) (flags_after done (x ∷ rest)) ≡ flags_after (done ++ (x ∷ [])) rest
  set_done-next [] x rest = refl
  set_done-next (y ∷ done) x rest = ap (λ flags. true ∷ flags) (set_done-next done x rest)

  pub all_done-next :
      (done : List A) (x : A) (rest : List A) → all_done (flags_after done (x ∷ rest)) ≡ false
  all_done-next [] x rest = refl
  all_done-next (y ∷ done) x rest = all_done-next done x rest

  pub all_done-end : (done : List A) → all_done (flags_after done []) ≡ true
  all_done-end [] = refl
  all_done-end (y ∷ done) = all_done-end done

  pub append-next :
      (done : List A) (x : A) (rest : List A) → done ++ (x ∷ rest) ≡ (done ++ (x ∷ [])) ++ rest
  append-next [] x rest = refl
  append-next (y ∷ done) x rest = ap (λ xs. y ∷ xs) (append-next done x rest)
