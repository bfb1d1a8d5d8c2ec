-- ===== src/Proxy/Dns/Answers.antt =====
-- dns.rs: which addresses a sandbox can learn.
use mathlib.Core.List.{reverse-cons, reverse-append, reverse-reverse}
use mathlib.Core.Bool.{false≢true}
use llmdevsilo.Prelude.{
  ℕ, zero, suc, eqb, eqb_iff, ◌++◌, map, reverse, sym, ap, ◌∙◌, to_lower, ◌≡◌, refl, Bool, true,
  false, List, [], ◌∷◌, Text, if_elim, arith, Bool-cases, inl, inr, Exists, ◌↔◌, if◌then◌else◌,
}
use llmdevsilo.Proxy.IpGuard.{IpGuard, IpAddr, v4, v6, is_blocked}
use llmdevsilo.Proxy.Allowlist.{allows}
use llmdevsilo.Proxy.Dns.{
  RecordType, a, aaaa, other, no_error, nx_domain, Query, DnsRequest, DnsFilter, drop_dots,
  query_host, wanted, permitted, answer, handle_query,
}

-- What an answer may be, for a query of the family `want_v4`.
abbrev pub IsPermitted : IpGuard → Bool → IpAddr → Type 0
IsPermitted guard want_v4 addr = (is_blocked guard addr ≡ false) × (wanted want_v4 addr ≡ true)

module _ (guard : IpGuard) (want_v4 : Bool) (addr : IpAddr) where
  abbrev Answers : List IpAddr → List IpAddr → Type 0
  Answers answers addrs =
      Exists (λ x. x ≡ addr) answers
      ↔ (IsPermitted guard want_v4 addr × Exists (λ x. x ≡ addr) addrs)

  -- An address that is passed over changes nothing.
  skip :
      (x : IpAddr) (addrs : List IpAddr)
      → (x ≡ addr → ¬ IsPermitted guard want_v4 addr)
      → Answers (permitted guard want_v4 addrs) addrs
      → Answers (permitted guard want_v4 addrs) (x ∷ addrs)
  skip x addrs bad ih = (λ e. ((ih.0 e).0, inr (ih.0 e).1), from)
    where
      from :
          IsPermitted guard want_v4 addr × Exists (λ y. y ≡ addr) (x ∷ addrs)
          → Exists (λ y. y ≡ addr) (permitted guard want_v4 addrs)
      from (p, inl e) = absurd (bad e p)
      from (p, inr t) = ih.1 (p, t)

  take_it :
      (x : IpAddr) (addrs : List IpAddr)
      → IsPermitted guard want_v4 x
      → Answers (permitted guard want_v4 addrs) addrs
      → Answers (x ∷ permitted guard want_v4 addrs) (x ∷ addrs)
  take_it x addrs good ih = (to, from)
    where
      to :
          Exists (λ y. y ≡ addr) (x ∷ permitted guard want_v4 addrs)
          → IsPermitted guard want_v4 addr × Exists (λ y. y ≡ addr) (x ∷ addrs)
      to (inl e) = (rw (← e) good, inl e)
      to (inr t) = ((ih.0 t).0, inr (ih.0 t).1)

      from :
          IsPermitted guard want_v4 addr × Exists (λ y. y ≡ addr) (x ∷ addrs)
          → Exists (λ y. y ≡ addr) (x ∷ permitted guard want_v4 addrs)
      from (p, inl e) = inl e
      from (p, inr t) = inr (ih.1 (p, t))

  -- The answers are exactly the resolved addresses that are permitted.
  permitted-Answers : (addrs : List IpAddr) → Answers (permitted guard want_v4 addrs) addrs
  unfolding permitted
  permitted-Answers [] = (λ e. absurd e, λ p. p.1)
  permitted-Answers (x ∷ addrs) =
      let ih = permitted-Answers addrs in
      if_elim (λ l. Answers l (x ∷ addrs)) (is_blocked guard x)
        (λ b. skip x addrs (λ e p. ground arith) ih)
        (λ b.
          if_elim (λ l. Answers l (x ∷ addrs)) (wanted want_v4 x) (λ v. take_it x addrs (b, v) ih)
            (λ v. skip x addrs (λ e p. ground arith) ih))

-- The query asks for addresses of this family.
abbrev pub asks_for : RecordType → IpAddr → Bool
asks_for a (v4 addr) = true
asks_for a (v6 addr) = false
asks_for aaaa (v4 addr) = false
asks_for aaaa (v6 addr) = true
asks_for (other n) addr = false

wanted-asks_for :
    (addr : IpAddr)
    → (wanted true addr ≡ asks_for a addr) × (wanted false addr ≡ asks_for aaaa addr)
wanted-asks_for (v4 addr) = (refl, refl)
wanted-asks_for (v6 addr) = (refl, refl)

-- The dots at the end of a fully qualified name.
abbrev pub dots : ℕ → Text
dots zero = []
dots (suc n) = b'.' ∷ dots n

-- The text does not end with a dot.
abbrev pub NoDotEnd : Text → Type 0
NoDotEnd text = (front : Text) → ¬ (text ≡ front ++ (b'.' ∷ []))

drop_dots-dots : (n : ℕ) (text : Text) → drop_dots (dots n ++ text) ≡ drop_dots text
unfolding drop_dots
drop_dots-dots zero text = refl
drop_dots-dots (suc n) text = drop_dots-dots n text

dots-snoc : (n : ℕ) → dots n ++ (b'.' ∷ []) ≡ b'.' ∷ dots n
dots-snoc zero = refl
dots-snoc (suc n) = ap (λ d. b'.' ∷ d) (dots-snoc n)

reverse-dots : (n : ℕ) → reverse (dots n) ≡ dots n
reverse-dots zero = refl
reverse-dots (suc n) =
    reverse-cons b'.' (dots n) ∙ ap (λ d. d ++ (b'.' ∷ [])) (reverse-dots n) ∙ dots-snoc n

drop_dots-NoDotEnd : (host : Text) → NoDotEnd host → drop_dots (reverse host) ≡ reverse host
unfolding drop_dots
drop_dots-NoDotEnd host h = go (reverse host) refl
  where
    go : (back : Text) → reverse host ≡ back → drop_dots back ≡ back
    go [] e = refl
    go (c ∷ s) e = elim (Bool-cases (eqb c b'.')) [
      | inl dot ↦ absurd (
          h (reverse s) (
            sym (reverse-reverse host)
            ∙ ap reverse e
            ∙ reverse-cons c s
            ∙ ap (λ x. reverse s ++ (x ∷ [])) ((eqb_iff c b'.').0 dot)))
      | inr differs ↦ rw (differs, drop_dots) refl
    ]

-- The name that is looked up: the queried one, without the dots at its end, in lower case.
query_host-dots :
    (query : Query) (host : Text) (n : ℕ)
    → query.name ≡ host ++ dots n
    → NoDotEnd host
    → query_host query ≡ map to_lower host
unfolding query_host
query_host-dots query host n e h = ap (map to_lower) (
    ap (λ name. reverse (drop_dots (reverse name))) e
    ∙ ap (λ back. reverse (drop_dots back))
        (reverse-append host (dots n) ∙ ap (λ d. d ++ reverse host) (reverse-dots n))
    ∙ ap reverse (drop_dots-dots n (reverse host) ∙ drop_dots-NoDotEnd host h)
    ∙ reverse-reverse host)

module _ (filter : DnsFilter) (resolve : Text → List IpAddr) (request : DnsRequest) where
  answer-Exists :
      (host : Text) (query_type : RecordType) (addr : IpAddr)
      → Exists (λ x. x ≡ addr) (answer filter resolve request host query_type).0.answers ↔ (
          (is_blocked filter.guard addr ≡ false)
          × (asks_for query_type addr ≡ true)
          × Exists (λ x. x ≡ addr) (resolve host))
  unfolding answer
  answer-Exists host a addr =
      let ih = permitted-Answers filter.guard true addr (resolve host) in
      (
        λ e. ((ih.0 e).0.0, sym (wanted-asks_for addr).0 ∙ (ih.0 e).0.1, (ih.0 e).1),
        λ p. ih.1 ((p.0, (wanted-asks_for addr).0 ∙ p.1), p.2),
      )
  answer-Exists host aaaa addr =
      let ih = permitted-Answers filter.guard false addr (resolve host) in
      (
        λ e. ((ih.0 e).0.0, sym (wanted-asks_for addr).1 ∙ (ih.0 e).0.1, (ih.0 e).1),
        λ p. ih.1 ((p.0, (wanted-asks_for addr).1 ∙ p.1), p.2),
      )
  answer-Exists host (other n) addr = (λ e. absurd e, λ p. absurd (false≢true p.1))

  answer-code :
      (host : Text) (query_type : RecordType)
      → (answer filter resolve request host query_type).0.response_code ≡ no_error
  unfolding answer
  answer-code host a = refl
  answer-code host aaaa = refl
  answer-code host (other n) = refl

  handle_query-query_host :
      (query : Query) (others : List Query) (addr : IpAddr)
      → request.queries ≡ query ∷ others
      → (Exists (λ x. x ≡ addr) (handle_query filter resolve request).0.answers ↔ (
          (allows filter.allowlist (query_host query) ≡ true)
          × (is_blocked filter.guard addr ≡ false)
          × (asks_for query.query_type addr ≡ true)
          × Exists (λ x. x ≡ addr) (resolve (query_host query))))
        × ((handle_query filter resolve request).0.response_code
            ≡ (if allows filter.allowlist (query_host query) then no_error else nx_domain))
  unfolding handle_query
  handle_query-query_host query others addr e =
      elim (Bool-cases (allows filter.allowlist (query_host query))) [
        | inl h ↦
            let ih = answer-Exists (query_host query) query.query_type addr in
            rw (e, h, handle_query)
              (
                ((λ x. (refl, (ih.0 x).0, (ih.0 x).1, (ih.0 x).2)), (λ p. ih.1 (p.1, p.2, p.3))),
                answer-code (query_host query) query.query_type,
              )
        | inr h ↦ rw (e, h, handle_query) (((λ x. absurd x), (λ p. absurd (false≢true p.0))), refl)
      ]

  -- For a request with a query, a response carries an address exactly when the name of the first query,
  -- in lower case and without the dots at its end, is allowlisted, the guard permits the address, the
  -- query asks for its family (A for IPv4, AAAA for IPv6), and the resolver gave it for the name. A name
  -- off the list gets NXDOMAIN, any other NOERROR.
  pub handle_query-answers :
      (query : Query) (others : List Query) (addr : IpAddr) (host : Text) (n : ℕ)
      → request.queries ≡ query ∷ others
      → query.name ≡ host ++ dots n
      → NoDotEnd host
      → (Exists (λ x. x ≡ addr) (handle_query filter resolve request).0.answers ↔ (
          (allows filter.allowlist (map to_lower host) ≡ true)
          × (is_blocked filter.guard addr ≡ false)
          × (asks_for query.query_type addr ≡ true)
          × Exists (λ x. x ≡ addr) (resolve (map to_lower host))))
        × ((handle_query filter resolve request).0.response_code
            ≡ (if allows filter.allowlist (map to_lower host) then no_error else nx_domain))
  handle_query-answers query others addr host n e named ends =
      rw (← query_host-dots query host n named ends) (handle_query-query_host query others addr e)
