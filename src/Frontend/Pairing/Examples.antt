-- ===== src/Frontend/Pairing/Examples.antt =====
-- Tests and witnesses for the pairing codes of auth.rs.
use llmdevsilo.Prelude.{ℕ, ◌≤◌, ◌≡◌, refl, ◌+◌, List, [], ◌∷◌, codes, leb}
use llmdevsilo.Frontend.Pairing.{new, pairing_code, mint_at, redeem_at}
use llmdevsilo.Frontend.Pairing.Redeemed.{
  Op, mint, redeem, mints, successes, successes_at_most_mints, redeem_at-mint_at,
}

abbrev drawn : List ℕ
drawn = 0 ∷ (1 ∷ (2 ∷ (3 ∷ (28 ∷ (29 ∷ (30 ∷ (31 ∷ [])))))))

abbrev history : List Op
history = mint drawn 0 ∷ (redeem (codes "ABCD6789") 5 ∷ (redeem (codes "ABCD6789") 6 ∷ []))

pairing_code_test : pairing_code drawn ≡ codes "ABCD6789"
pairing_code_test = refl

successes_test : successes (codes "ABCD6789") new history ≡ 1
unfolding mint_at redeem_at
successes_test = refl

successes_at_most_mints_example :
    successes (codes "ABCD6789") new history ≤ mints (codes "ABCD6789") history
successes_at_most_mints_example = successes_at_most_mints (codes "ABCD6789") history

redeem_at-mint_at_example :
    (redeem_at (mint_at new drawn 7).0 (mint_at new drawn 7).1 120000000008).1
    ≡ leb 120000000008 (7 + 120000000000)
redeem_at-mint_at_example = redeem_at-mint_at new drawn 7 120000000008
