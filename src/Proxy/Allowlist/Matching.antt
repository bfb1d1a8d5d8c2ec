-- ===== src/Proxy/Allowlist/Matching.antt =====
-- allowlist.rs against an independent description of what an entry covers.
use mathlib.Core.Bool.{false≢true}
use mathlib.Core.List.{append_assoc}
use llmdevsilo.Prelude.{
  ◌≡◌, refl, sym, ap, ◌∙◌, ◌≢◌, ◌↔◌, inl, inr, Bool, true, false, ◌||◌, List, [], ◌∷◌, ◌++◌, map,
  Option, none, some, ◌==◌, nat_eq, list_eq, list_beq_iff, Text, codes, strip_prefix, strip_suffix,
  strip_prefix-append, strip_prefix-eq-some, strip_suffix-append, strip_suffix-eq-some, any,
  Bool-cases, Exists, any-iff-Exists, Exists-iff, arith,
}
use llmdevsilo.Proxy.Allowlist.{
  Entry, exact, wildcard, normalize_host, entry_of, new, ends_with_dot, below_dot, entry_allows,
  allows,
}

-- What an entry (normalized) is meant to cover: itself, or for `*.base` the host `base` and every
-- host that ends in `.base`.
pub data Covers (entry host : Text) : Type 0 where
  same : ((base : Text) → entry ≢ codes "*." ++ base) → host ≡ entry → Covers entry host
  at_base : (base : Text) → entry ≡ codes "*." ++ base → host ≡ base → Covers entry host
  below :
      (base label : Text)
      → entry ≡ codes "*." ++ base
      → host ≡ label ++ (codes "." ++ base)
      → Covers entry host

ends_with_dot_iff :
    (p : Text) → (ends_with_dot p ≡ true) ↔ ((label : Text) × (p ≡ label ++ codes "."))
unfolding ends_with_dot
ends_with_dot_iff p = (to (strip_suffix (codes ".") p) refl, from)
  where
    to :
        (o : Option Text)
        → strip_suffix (codes ".") p ≡ o
        → elim o as (λ _. Bool) [ some _ ↦ true | none ↦ false ] ≡ true
        → (label : Text) × (p ≡ label ++ codes ".")
    to none e h = absurd (false≢true h)
    to (some label) e h = (label, strip_suffix-eq-some (codes ".") p e)

    from : (label : Text) × (p ≡ label ++ codes ".") → ends_with_dot p ≡ true
    from (label, e) = rw (e, strip_suffix-append label (codes "."), ends_with_dot) refl

below_dot_iff :
    (base host : Text)
    → (below_dot base host ≡ true) ↔ ((label : Text) × (host ≡ label ++ (codes "." ++ base)))
unfolding below_dot
below_dot_iff base host = (to (strip_suffix base host) refl, from)
  where
    to :
        (o : Option Text)
        → strip_suffix base host ≡ o
        → elim o as (λ _. Bool) [ some prefix ↦ ends_with_dot prefix | none ↦ false ] ≡ true
        → (label : Text) × (host ≡ label ++ (codes "." ++ base))
    to none e h = absurd (false≢true h)
    to (some prefix) e h =
        let (label, dotted) = (ends_with_dot_iff prefix).0 h in
        (
          label,
          strip_suffix-eq-some base host e
              ∙ ap (λ p. p ++ base) dotted
              ∙ append_assoc label (codes ".") base,
        )

    from : (label : Text) × (host ≡ label ++ (codes "." ++ base)) → below_dot base host ≡ true
    from (label, e) =
        let stripped : strip_suffix base host ≡ some (label ++ codes ".") =
          rw (e, ← append_assoc label (codes ".") base)
            (strip_suffix-append (label ++ codes ".") base) in
        rw (stripped, below_dot) ((ends_with_dot_iff (label ++ codes ".")).1 (label, refl))

module _ (entry host : Text) where
  exact-Covers :
      strip_prefix (codes "*.") entry ≡ none → ((entry == host) ≡ true) ↔ Covers entry host
  exact-Covers e = (λ h. same plain (sym ((list_beq_iff entry host).0 h)), from)
    where
      plain : (base : Text) → entry ≢ codes "*." ++ base
      plain base q =
          let found : strip_prefix (codes "*.") entry ≡ some base =
            rw q (strip_prefix-append (codes "*.") base) in
          cc

      from : Covers entry host → (entry == host) ≡ true
      from (same _ q) = (list_beq_iff entry host).1 (sym q)
      from (at_base base q _) = absurd (plain base q)
      from (below base _ q _) = absurd (plain base q)

  wildcard-Covers :
      (base : Text)
      → entry ≡ codes "*." ++ base
      → (((host == base) || below_dot base host) ≡ true) ↔ Covers entry host
  wildcard-Covers base e = (to, from)
    where
      to : ((host == base) || below_dot base host) ≡ true → Covers entry host
      to h = elim (Bool-cases (host == base)) [
        | inl q ↦ at_base base e ((list_beq_iff host base).0 q)
        | inr q ↦
            let (label, split) = (below_dot_iff base host).0 (rw q at h) in below base label e split
      ]

      from : Covers entry host → ((host == base) || below_dot base host) ≡ true
      from (same plain _) = absurd (plain base e)
      from (at_base b q r) = let b' : b ≡ base = cc in rw ((list_beq_iff host base).1 (r ∙ b')) refl
      from (below b label q r) =
          let b' : b ≡ base = cc in
          let found : below_dot base host ≡ true =
            (below_dot_iff base host).1 (label, r ∙ ap (λ t. label ++ (codes "." ++ t)) b') in
          ground arith

-- `entry_allows` at an entry that `entry_of` made.
entry_allows-iff-Covers :
    (raw host : Text) → (entry_allows host (entry_of raw) ≡ true) ↔ Covers (normalize_host raw) host
unfolding entry_allows entry_of
entry_allows-iff-Covers raw host = go (strip_prefix (codes "*.") (normalize_host raw)) refl
  where
    compiled : Option Text → Entry
    compiled o = elim o as (λ _. Entry) [
      | some suffix ↦ wildcard suffix
      | none ↦ exact (normalize_host raw)
    ]

    go :
        (o : Option Text)
        → strip_prefix (codes "*.") (normalize_host raw) ≡ o
        → (entry_allows host (compiled o) ≡ true) ↔ Covers (normalize_host raw) host
    go none e = exact-Covers (normalize_host raw) host e
    go (some base) e =
        wildcard-Covers (normalize_host raw) host base
          (strip_prefix-eq-some (codes "*.") (normalize_host raw) e)

any-map :
    (p : Entry → Bool) (raws : List Text)
    → any p (map entry_of raws) ≡ any (λ raw. p (entry_of raw)) raws
any-map p [] = refl
any-map p (raw ∷ raws) = ap (λ b. p (entry_of raw) || b) (any-map p raws)

-- A host is allowed exactly when some configured domain covers it, both normalized: the domain
-- itself, or for `*.base` the base and what ends in `.base`.
pub allows-iff-Covers :
    (domains : List Text) (host : Text)
    → (allows (new domains) host ≡ true)
      ↔ Exists (λ raw. Covers (normalize_host raw) (normalize_host host)) domains
unfolding allows new
allows-iff-Covers domains host =
    let there = any-iff-Exists (λ raw. entry_allows (normalize_host host) (entry_of raw)) domains in
    let covered =
      Exists-iff _ (λ raw. Covers (normalize_host raw) (normalize_host host))
        (λ raw. entry_allows-iff-Covers raw (normalize_host host)) domains in
    let same = any-map (entry_allows (normalize_host host)) domains in
    (λ h. covered.0 (there.0 (sym same ∙ h)), λ c. same ∙ there.1 (covered.1 c))
