-- ===== src/Frontend/Pairing.antt =====
-- crates/silo-frontend/src/interactive/auth.rs: one-time pairing codes. An instant is a count of
-- nanoseconds; the random generator is an argument, the indices that it draws.
pub mod Redeemed
mod Examples
use llmdevsilo.Prelude.{
  ℕ, zero, suc, ◌+◌, ◌-◌, ◌*◌, Bool, true, false, List, [], ◌∷◌, ◌++◌, map, Option, none, some,
  ◌==◌, nat_eq, list_eq, Text, codes, leb, drop, if◌then◌else◌,
}

abbrev pub pairing_code_ttl : ℕ
pairing_code_ttl = 120 * 1000000000

abbrev pub pairing_alphabet : Text
pairing_alphabet = codes "ABCDEFGHJKLMNPQRSTUVWXYZ23456789"

-- `PAIRING_ALPHABET[i]`, for an index that is drawn below its length.
abbrev pub letter : ℕ → Text
letter i = elim (drop i pairing_alphabet) [ [] ↦ [] | c ∷ cs ↦ c ∷ [] ]

abbrev pub pairing_code : List ℕ → Text
pairing_code [] = []
pairing_code (i ∷ is) = letter i ++ pairing_code is

-- The codes with the instants at which they were issued.
pub record PairingCodes : Type 0 where
  pub entries : List (Text × ℕ)

abbrev pub new : PairingCodes
new = record { entries = [] }

abbrev pub lookup : Text → List (Text × ℕ) → Option ℕ
lookup code [] = none
lookup code (e ∷ es) = if e.0 == code then some e.1 else lookup code es

abbrev pub remove : Text → List (Text × ℕ) → List (Text × ℕ)
remove code [] = []
remove code (e ∷ es) = let rest = remove code es in if e.0 == code then rest else e ∷ rest

-- `HashMap::insert`.
abbrev pub insert : Text → ℕ → List (Text × ℕ) → List (Text × ℕ)
insert code now es = (code, now) ∷ remove code es

unfoldable pub mint_at : PairingCodes → List ℕ → ℕ → PairingCodes × Text
mint_at codes indices now =
    (record { entries = insert (pairing_code indices) now codes.entries }, pairing_code indices)

unfoldable pub redeem_at : PairingCodes → Text → ℕ → PairingCodes × Bool
redeem_at codes code now = (
  record { entries = remove code codes.entries },
  elim (lookup code codes.entries) [
    | some issued ↦ leb (now - issued) pairing_code_ttl
    | none ↦ false
  ],
)
