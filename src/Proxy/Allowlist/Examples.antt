-- ===== src/Proxy/Allowlist/Examples.antt =====
-- Tests and witnesses for allowlist.rs.
use llmdevsilo.Prelude.{◌≡◌, refl, true, false, List, [], ◌∷◌, ◌↔◌, Text, codes, Exists}
use llmdevsilo.Proxy.Allowlist.{normalize_host, new, allows}
use llmdevsilo.Proxy.Allowlist.Matching.{Covers, allows-iff-Covers}

abbrev domains : List Text
domains = codes "*.Foo.com." ∷ codes "docs.rs" ∷ []

wildcard_suffix_boundary : allows (new domains) (codes "xfoo.com") ≡ false
unfolding allows new
wildcard_suffix_boundary = refl

wildcard_subdomain : allows (new domains) (codes "X.foo.COM.") ≡ true
unfolding allows new
wildcard_subdomain = refl

wildcard_base : allows (new domains) (codes "foo.com") ≡ true
unfolding allows new
wildcard_base = refl

exact_only : allows (new domains) (codes "www.docs.rs") ≡ false
unfolding allows new
exact_only = refl

allows-iff-Covers_example :
    (allows (new domains) (codes "a.foo.com") ≡ true)
    ↔ Exists (λ raw. Covers (normalize_host raw) (normalize_host (codes "a.foo.com"))) domains
allows-iff-Covers_example = allows-iff-Covers domains (codes "a.foo.com")
