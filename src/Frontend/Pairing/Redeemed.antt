-- ===== src/Frontend/Pairing/Redeemed.antt =====
-- auth.rs: a code authenticates at most one client, and no longer than its time.
use llmdevsilo.Prelude.{
  ℕ, ◌+◌, ◌-◌, ◌≤◌, ◌≡◌, refl, Bool, false, List, [], ◌∷◌, Option, none, some, is_some, ◌==◌,
  nat_eq, list_eq, list_beq_iff, Text, leb, arith, subst, sym, inl, inr, Bool-cases, if◌then◌else◌,
}
use llmdevsilo.Frontend.Pairing.{
  PairingCodes, pairing_code, pairing_code_ttl, new, lookup, remove, insert, mint_at, redeem_at,
}

-- What clients do with the codes, at which instant.
pub data Op : Type 0 where
  mint : List ℕ → ℕ → Op
  redeem : Text → ℕ → Op

-- How often a code is issued, and how often it authenticates a client.
abbrev pub mints : Text → List Op → ℕ
mints code [] = 0
mints code (mint indices now ∷ ops) =
    (if pairing_code indices == code then 1 else 0) + mints code ops
mints code (redeem c now ∷ ops) = mints code ops

abbrev pub successes : Text → PairingCodes → List Op → ℕ
successes code state [] = 0
successes code state (mint indices now ∷ ops) = successes code (mint_at state indices now).0 ops
successes code state (redeem c now ∷ ops) =
    (if (c == code) then (if (redeem_at state c now).1 then 1 else 0) else 0)
    + successes code (redeem_at state c now).0 ops

abbrev live : Text → List (Text × ℕ) → ℕ
live code es = if is_some (lookup code es) then 1 else 0

lookup-remove-same : (code : Text) (es : List (Text × ℕ)) → lookup code (remove code es) ≡ none
lookup-remove-same code [] = refl
lookup-remove-same code (e ∷ es) = ground (arith, lookup-remove-same code es)

lookup-remove-other :
    (code c : Text) (es : List (Text × ℕ))
    → (c == code) ≡ false
    → lookup code (remove c es) ≡ lookup code es
lookup-remove-other code c [] h = refl
lookup-remove-other code c (e ∷ es) h = ground (
  arith,
  list_beq_iff e.0 c,
  list_beq_iff e.0 code,
  list_beq_iff c code,
  lookup-remove-other code c es h,
)

live-insert :
    (code c : Text) (now : ℕ) (es : List (Text × ℕ))
    → live code (insert c now es) ≤ (if c == code then 1 else 0) + live code es
live-insert code c now es = elim (Bool-cases (c == code)) [
  | inl e ↦ rw (e) (omega arith)
  | inr e ↦ rw (e, lookup-remove-other code c es e) (omega arith)
]

live-remove-same :
    (code : Text) (now : ℕ) (es : List (Text × ℕ))
    → (if (redeem_at (record { entries = es }) code now).1 then 1 else 0)
        + live code (remove code es)
      ≤ live code es
unfolding redeem_at
live-remove-same code now es = rw (lookup-remove-same code es) (go (lookup code es))
  where
    go :
        (o : Option ℕ)
        → (if (elim o as (λ _. Bool) [
          | some issued ↦ leb (now - issued) pairing_code_ttl
          | none ↦ false
        ])
              then 1
              else 0)
            + 0
          ≤ (if is_some o then 1 else 0)
    go none = omega arith
    go (some issued) = ground arith

live-remove :
    (code c : Text) (now : ℕ) (es : List (Text × ℕ))
    → (if c == code then (if (redeem_at (record { entries = es }) c now).1 then 1 else 0) else 0)
        + live code (remove c es)
      ≤ live code es
live-remove code c now es = elim (Bool-cases (c == code)) [
  | inl e ↦
      subst
        (λ k.
          (if c == code
              then (if (redeem_at (record { entries = es }) k now).1 then 1 else 0)
              else 0)
            + live code (remove k es)
          ≤ live code es)
        (sym ((list_beq_iff c code).0 e)) (rw (e) (live-remove-same code now es))
  | inr e ↦ rw (e, lookup-remove-other code c es e) (omega arith)
]

live-redeem_at :
    (code c : Text) (now : ℕ) (state : PairingCodes)
    → (if c == code then (if (redeem_at state c now).1 then 1 else 0) else 0)
        + live code (redeem_at state c now).0.entries
      ≤ live code state.entries
unfolding redeem_at
live-redeem_at code c now state = live-remove code c now state.entries

-- From any state: a code authenticates at most once for each time it is issued, and once more if it
-- is outstanding already, whatever other codes are issued and redeemed in between.
successes-bound :
    (code : Text) (ops : List Op) (state : PairingCodes)
    → successes code state ops ≤ mints code ops + live code state.entries
unfolding mint_at
successes-bound code [] state = omega arith
successes-bound code (mint indices now ∷ ops) state =
    let h = successes-bound code ops (mint_at state indices now).0 in
    let k = live-insert code (pairing_code indices) now state.entries in omega arith
successes-bound code (redeem c now ∷ ops) state =
    let h = successes-bound code ops (redeem_at state c now).0 in
    let k = live-redeem_at code c now state in omega arith

-- Since the start of the frontend a code authenticates at most as many clients as it was issued times,
-- so a code that was issued once at most one, whatever is issued and redeemed in between, and when.
pub successes_at_most_mints :
    (code : Text) (ops : List Op) → successes code new ops ≤ mints code ops
successes_at_most_mints code ops = let h = successes-bound code ops new in omega arith

-- A code that was just issued authenticates exactly while no more than 120 seconds have passed.
pub redeem_at-mint_at :
    (state : PairingCodes) (indices : List ℕ) (issued now : ℕ)
    → (redeem_at (mint_at state indices issued).0 (mint_at state indices issued).1 now).1
      ≡ leb now (issued + 120000000000)
unfolding mint_at redeem_at
redeem_at-mint_at state indices issued now =
    rw ((list_beq_iff (pairing_code indices) (pairing_code indices)).1 refl, redeem_at)
      (ground arith)
