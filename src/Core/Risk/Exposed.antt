-- ===== src/Core/Risk/Exposed.antt =====
-- risk.rs and validate.rs: what is accepted, against the paths that it would make readable.
use mathlib.Core.Bool.{false≢true}
use llmdevsilo.Prelude.{
  ◌≡◌, refl, ◌↔◌, ◌⊎◌, inl, inr, Bool, true, false, not, ◌&&◌, ◌||◌, String, List, [], ◌∷◌, ◌++◌,
  map, Option, string_eq, list_eq, keep, is_empty, starts_with_iff, All, arith, if◌then◌else◌,
}
use llmdevsilo.Core.Risk.{
  Route, RiskHit, known_risky_paths, Refusal, Validated, accepted, refused, normalize_path,
  overlaps, hits_of, scan_allowlist_entry, scan_allowlist, listed, validate_read_allowlist,
}

abbrev pub is_accepted : {A : Type 0} → Validated A → Bool
is_accepted (accepted a) = true
is_accepted (refused r) = false

-- One path is the other, or stands below it.
abbrev pub Overlaps : Route → Route → Type 0
Overlaps a b = ((rest : Route) × (a ≡ b ++ rest)) ⊎ ((rest : Route) × (b ≡ a ++ rest))

overlaps_iff : (a b : Route) → (overlaps a b ≡ true) ↔ Overlaps a b
overlaps_iff a b = ground (arith, starts_with_iff a b, starts_with_iff b a)

module _ {A : Type 0} (p : A → Bool) where
  is_empty-keep-append :
      (xs ys : List A) → is_empty (keep p (xs ++ ys)) ≡ is_empty (keep p xs) && is_empty (keep p ys)
  is_empty-keep-append [] ys = refl
  is_empty-keep-append (x ∷ xs) ys = ground (arith, is_empty-keep-append xs ys)

-- A test that looks at the entry alone.
is_empty-keep-map :
    (b : Route → Bool) (entry : Route) (hits : List RiskHit)
    → is_empty (keep (λ (x : Route × RiskHit). not (b x.0)) (map (λ hit. (entry, hit)) hits))
      ≡ b entry || is_empty hits
is_empty-keep-map b entry [] = ground arith
is_empty-keep-map b entry (hit ∷ hits) = ground (arith, is_empty-keep-map b entry hits)

-- A hit is added where a risky path exists and overlaps.
added_hit :
    {O Y : Type 0} (b c : Bool) (hit : RiskHit) (more : List RiskHit)
    → ((c ≡ true) ↔ O)
    → ((is_empty more ≡ true) ↔ Y)
    → (is_empty (if b && c then hit ∷ more else more) ≡ true) ↔ ((b ≡ true → O → ⊥) × Y)
added_hit true true hit more o y =
    (λ e. absurd (false≢true e), λ (f, _). absurd (f refl (o.0 refl)))
added_hit true false hit more o y = (λ e. (λ _ q. false≢true (o.1 q), y.0 e), λ (_, q). y.1 q)
added_hit false c hit more o y = (λ e. (λ q _. false≢true q, y.0 e), λ (_, q). y.1 q)

both_none :
    {X Y : Type 0} (a b c : Bool)
    → ((b ≡ true) ↔ X)
    → ((c ≡ true) ↔ Y)
    → ((a || b) && c ≡ true) ↔ (((a ≡ true) ⊎ X) × Y)
both_none true b c x y = (λ e. (inl refl, y.0 e), λ (_, q). y.1 q)
both_none false true c x y = (λ e. (inr (x.0 refl), y.0 e), λ (_, q). y.1 q)
both_none false false c x y = (
  λ e. absurd (false≢true e),
  λ (h, _). elim h [ inl q ↦ q | inr q ↦ absurd (false≢true (x.1 q)) ],
)

accepted_empty :
    (lines : List (Route × RiskHit)) (warnings : List Route) (r : Refusal)
    → is_accepted (if is_empty lines then accepted warnings else refused r) ≡ is_empty lines
accepted_empty [] warnings r = refl
accepted_empty (line ∷ lines) warnings r = refl

module _ (canonicalize : Route → Option Route) (exists : Route → Bool) where
  abbrev pub normal : Route → Route
  normal path = normalize_path canonicalize exists path

  -- The entry makes no risky path readable that exists.
  abbrev pub Harmless : List (Route × String) → Route → Type 0
  Harmless risks entry =
      All (λ r. exists r.0 ≡ true → Overlaps (normal r.0) (normal entry) → ⊥) risks

  hits_of_none :
      (entry : Route) (risks : List (Route × String))
      → (is_empty (hits_of canonicalize exists (normal entry) risks) ≡ true) ↔ Harmless risks entry
  unfolding hits_of
  hits_of_none entry [] = (λ _. tt, λ _. refl)
  hits_of_none entry ((risky, reason) ∷ rest) =
      added_hit (exists risky) (overlaps (normal risky) (normal entry))
        (record { path = normal risky; reason = reason })
        (hits_of canonicalize exists (normal entry) rest)
        (overlaps_iff (normal risky) (normal entry)) (hits_of_none entry rest)

  lines_none :
      (home state_dir : Route) (overrides entries : List Route)
      → (is_empty (
            keep
              (λ x. not (listed (normal x.0) overrides))
              (scan_allowlist canonicalize exists entries home state_dir))
          ≡ true)
        ↔ All
            (λ entry.
              (listed (normal entry) overrides ≡ true)
              ⊎ Harmless (known_risky_paths home state_dir) entry)
            entries
  unfolding scan_allowlist scan_allowlist_entry
  lines_none home state_dir overrides [] = (λ _. tt, λ _. refl)
  lines_none home state_dir overrides (entry ∷ entries) =
      let b : Route → Bool = λ path. listed (normal path) overrides in
      let risks = known_risky_paths home state_dir in
      let hits = hits_of canonicalize exists (normal entry) risks in
      rw
        (
          is_empty-keep-append (λ (x : Route × RiskHit). not (b x.0))
              (map (λ hit. (entry, hit)) hits)
              (scan_allowlist canonicalize exists entries home state_dir),
          is_empty-keep-map b entry hits,
        )
        (both_none (b entry) (is_empty hits)
          (is_empty (
            keep (λ (x : Route × RiskHit). not (b x.0))
              (scan_allowlist canonicalize exists entries home state_dir)))
          (hits_of_none entry risks) (lines_none home state_dir overrides entries))

  -- A read allowlist is accepted exactly when each of its entries either is at the place of an override,
  -- or neither stands below a risky path that exists nor contains one; places are compared after
  -- normalization.
  pub validate_read_allowlist_iff :
      (entries : List Route) (home state_dir : Route) (allow_risky : List Route)
      → (is_accepted
            (validate_read_allowlist canonicalize exists entries home state_dir allow_risky)
          ≡ true)
        ↔ All
            (λ entry.
              (listed (normal entry) (map normal allow_risky) ≡ true)
              ⊎ Harmless (known_risky_paths home state_dir) entry)
            entries
  unfolding validate_read_allowlist
  validate_read_allowlist_iff entries home state_dir allow_risky =
      rw (accepted_empty) (lines_none home state_dir (map normal allow_risky) entries)
