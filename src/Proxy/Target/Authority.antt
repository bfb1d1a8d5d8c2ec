-- ===== src/Proxy/Target/Authority.antt =====
-- proxy.rs, `split_host_port`: the forms of an authority are taken apart into what they were put
-- together from.
use llmdevsilo.Prelude.{
  ℕ, ◌+◌, ◌-◌, ◌*◌, ◌≡◌, refl, false, [], ◌∷◌, ◌++◌, none, some, Text, codes, arith, All, eqb,
  nat_eq, strip_prefix, strip_prefix-append,
}
use llmdevsilo.Proxy.Target.{
  digits_from, parse_u16, split_once, rsplit_once, bracket_port, split_plain, split_host_port,
}

abbrev pub Without : ℕ → Text → Type 0
Without d s = All (λ c. eqb c d ≡ false) s

digits_from-Without : (acc : ℕ) (s : Text) {p : ℕ} → digits_from acc s ≡ some p → Without b':' s
unfolding digits_from
digits_from-Without acc [] e = tt
digits_from-Without acc (c ∷ s) {p = p} e =
    ground (arith, digits_from-Without (acc * 10 + (c - b'0')) s {p = p})

parse_u16-Without : (s : Text) {p : ℕ} → parse_u16 s ≡ some p → Without b':' s
unfolding parse_u16
parse_u16-Without [] e = tt
parse_u16-Without (c ∷ []) {p = p} e = ground (arith, digits_from-Without 0 (c ∷ []) {p = p})
parse_u16-Without (c ∷ d ∷ s) {p = p} e =
    ground (arith, digits_from-Without 0 (c ∷ d ∷ s) {p = p}, digits_from-Without 0 (d ∷ s) {p = p})

rsplit_once-Without : (d : ℕ) (s : Text) → Without d s → rsplit_once d s ≡ none
unfolding rsplit_once
rsplit_once-Without d [] h = refl
rsplit_once-Without d (c ∷ s) h = ground (arith, rsplit_once-Without d s)

rsplit_once-append : (d : ℕ) (a b : Text) → Without d b → rsplit_once d (a ++ (d ∷ b)) ≡ some (a, b)
unfolding rsplit_once
rsplit_once-append d [] b h = ground (arith, rsplit_once-Without d b h)
rsplit_once-append d (c ∷ a) b h = ground (arith, rsplit_once-append d a b h)

split_once-append : (d : ℕ) (a b : Text) → Without d a → split_once d (a ++ (d ∷ b)) ≡ some (a, b)
unfolding split_once
split_once-append d [] b h = ground arith
split_once-append d (c ∷ a) b h = ground (arith, split_once-append d a b)

-- `host:port`, `[host]:port` and `[host]` are split into the host and the port that stand there, or
-- the default port, for a host with no bracket at its start and no closing bracket.
pub split_host_port_forms :
    (host digits : Text) (port default_port : ℕ)
    → parse_u16 digits ≡ some port
    → strip_prefix (codes "[") (host ++ (b':' ∷ digits)) ≡ none
    → Without b']' host
    → (split_host_port (host ++ (b':' ∷ digits)) default_port ≡ (host, port))
      × (split_host_port (b'[' ∷ (host ++ (b']' ∷ b':' ∷ digits))) default_port ≡ (host, port))
      × (split_host_port (b'[' ∷ (host ++ (b']' ∷ []))) default_port ≡ (host, default_port))
unfolding split_host_port split_plain bracket_port
split_host_port_forms host digits port default_port p plain h = (
  ground (arith, rsplit_once-append b':' host digits (parse_u16-Without digits p)),
  ground (
    arith,
    split_once-append b']' host (b':' ∷ digits) h,
    strip_prefix-append (codes "[") (host ++ (b']' ∷ b':' ∷ digits)),
    strip_prefix-append (codes ":") digits,
  ),
  ground (
    arith,
    split_once-append b']' host [] h,
    strip_prefix-append (codes "[") (host ++ (b']' ∷ [])),
  ),
)

-- A host with no colon and no bracket at its start stands for itself and the default port.
pub split_host_port-bare :
    (host : Text) (default_port : ℕ)
    → Without b':' host
    → strip_prefix (codes "[") host ≡ none
    → split_host_port host default_port ≡ (host, default_port)
unfolding split_host_port split_plain
split_host_port-bare host default_port h plain = ground (arith, rsplit_once-Without b':' host h)
