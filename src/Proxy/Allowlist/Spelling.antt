-- ===== src/Proxy/Allowlist/Spelling.antt =====
-- allowlist.rs: the spellings of one host name.
use mathlib.Core.Option
use llmdevsilo.Prelude.{
  ℕ, ◌≡◌, refl, sym, ap, ◌∙◌, [], ◌∷◌, ◌++◌, map, reverse, Option, none, some, nat_eq, Text, codes,
  to_lower, strip_prefix, strip_suffix, strip_suffix-append, any, map-reverse, arith,
}
use llmdevsilo.Proxy.Allowlist.{DomainAllowlist, trim_dot, normalize_host, entry_allows, allows}

to_lower_idem : (c : ℕ) → to_lower (to_lower c) ≡ to_lower c
unfolding to_lower
to_lower_idem c = ground arith

map-to_lower_idem : (s : Text) → map to_lower (map to_lower s) ≡ map to_lower s
map-to_lower_idem [] = refl
map-to_lower_idem (c ∷ s) = cc (to_lower_idem c, map-to_lower_idem s)

strip_dot-lower :
    (s : Text)
    → strip_prefix (codes ".") (map to_lower s)
      ≡ Option.map (map to_lower) (strip_prefix (codes ".") s)
unfolding strip_prefix to_lower
strip_dot-lower [] = refl
strip_dot-lower (c ∷ s) = ground arith

lower_back :
    (o : Option Text)
    → Option.map reverse (Option.map (map to_lower) o)
      ≡ Option.map (map to_lower) (Option.map reverse o)
lower_back none = refl
lower_back (some s) = ap some (map-reverse to_lower s)

strip_suffix-lower :
    (host : Text)
    → strip_suffix (codes ".") (map to_lower host)
      ≡ Option.map (map to_lower) (strip_suffix (codes ".") host)
unfolding strip_suffix
strip_suffix-lower host =
    rw (map-reverse to_lower host, strip_dot-lower (reverse host)) (lower_back _)

abbrev or_host : Text → Option Text → Text
or_host host o = elim o [ some trimmed ↦ trimmed | none ↦ host ]

or_host-lower :
    (host : Text) (o : Option Text)
    → or_host (map to_lower host) (Option.map (map to_lower) o) ≡ map to_lower (or_host host o)
or_host-lower host none = refl
or_host-lower host (some s) = refl

trim_dot-lower : (host : Text) → trim_dot (map to_lower host) ≡ map to_lower (trim_dot host)
unfolding trim_dot
trim_dot-lower host =
    ap (or_host (map to_lower host)) (strip_suffix-lower host) ∙ or_host-lower host _

normalize_host-lower : (host : Text) → normalize_host (map to_lower host) ≡ normalize_host host
unfolding normalize_host
normalize_host-lower host =
    ap (map to_lower) (trim_dot-lower host) ∙ map-to_lower_idem (trim_dot host)

normalize_host-dot : (host : Text) → normalize_host (host ++ codes ".") ≡ map to_lower host
unfolding normalize_host trim_dot
normalize_host-dot host =
    ap (λ o. map to_lower (or_host (host ++ codes ".") o)) (strip_suffix-append host (codes "."))

-- The case of the letters of a host changes nothing.
pub allows-to_lower :
    (list : DomainAllowlist) (host : Text) → allows list (map to_lower host) ≡ allows list host
unfolding allows
allows-to_lower list host = ap (λ h. any (entry_allows h) list.entries) (normalize_host-lower host)

-- One trailing dot on a host that has none changes nothing.
pub allows-dot :
    (list : DomainAllowlist) (host : Text)
    → trim_dot host ≡ host
    → allows list (host ++ codes ".") ≡ allows list host
unfolding allows
allows-dot list host whole =
    ap (λ h. any (entry_allows h) list.entries)
      (normalize_host-dot host ∙ ap (map to_lower) (sym whole) ∙ sym normal)
  where
    normal : normalize_host host ≡ map to_lower (trim_dot host)
    normal = unfold normalize_host in refl
