-- ===== src/Core/Replay/Subset.antt =====
-- replay.rs: when the recorded input of a tool matches an input.
use llmdevsilo.Prelude.{
  ◌≡◌, inl, inr, Bool-cases, refl, sym, ap, ◌∙◌, true, String, none, some, ◌==◌, string_eq, Eq,
  arith, beq_refl,
}
use llmdevsilo.Core.Replay.{
  Json, Fields, object, other, no_fields, field, get, json_subset_matches, fields_match,
}

-- No key occurs twice in an object, as in a `serde_json::Map`.
abbrev mutual
  pub UniqueKeys : {Atom : Type 0} → Json Atom → Type 0
  UniqueKeys (object fields) = UniqueFields fields
  UniqueKeys (other a) = Unit

  pub UniqueFields : {Atom : Type 0} → Fields Atom → Type 0
  UniqueFields no_fields = Unit
  UniqueFields (field key value rest) = (get key rest ≡ none) × UniqueKeys value × UniqueFields rest

module _ {Atom : Type 0} ⦃e : Eq Atom⦄ where
  -- The first fields are all found among the second.
  abbrev FoundIn : Fields Atom → Fields Atom → Type 0
  FoundIn sub full = (k : String) (v : Json Atom) → get k sub ≡ some v → get k full ≡ some v

  FoundIn-rest :
      (key : String) (value : Json Atom) (rest full : Fields Atom)
      → get key rest ≡ none
      → FoundIn (field key value rest) full
      → FoundIn rest full
  FoundIn-rest key value rest full fresh found k v h = elim (Bool-cases (key == k)) [
    | inl e ↦
        absurd (none≢some (sym fresh ∙ ap (λ x. get x rest) ((string_eq.equals_iff key k).0 e) ∙ h))
    | inr e ↦ found k v (rw (e) h)
  ]
    where
      none≢some : none ≡ some v → ⊥
      none≢some q = ground arith

  mutual
    unfolding json_subset_matches

    pub json_subset_matches_self : (j : Json Atom) → UniqueKeys j → json_subset_matches j j ≡ true
    json_subset_matches_self (object fields) u = fields_match_found fields fields u (λ k v h. h)
    json_subset_matches_self (other a) u = beq_refl a

    fields_match_found :
        (sub full : Fields Atom)
        → UniqueFields sub
        → FoundIn sub full
        → fields_match sub full ≡ true
    fields_match_found no_fields full u found = refl
    fields_match_found (field key value rest) full u found =
        rw (found key value (rw (beq_refl key) refl), json_subset_matches_self value u.1)
          (fields_match_found rest full u.2 (FoundIn-rest key value rest full u.0 found))
