-- ===== src/Core/Cost/Examples.antt =====
-- Tests and witnesses for cost.rs.
use llmdevsilo.Prelude.{
  ℕ, ◌+◌, ◌*◌, ◌≡◌, refl, true, List, [], ◌∷◌, ◌++◌, some, is_some, leb, arith,
}
use llmdevsilo.Core.Cost.{
  TokenDelta, Pricing, QuotaConfig, token_quota, new, check_quota, record_all,
}
use llmdevsilo.Core.Cost.Quota.{
  sum_input, sum_output, expected_check, check_quota-record_all, check_quota-stays,
}

-- Dollars as whole numbers.
abbrev pricing : Pricing
pricing = record {
  Usd = ℕ;
  usd = λ input output. input * 3 + output * 15;
  at_least = λ spent max. leb max spent;
}

abbrev quota : QuotaConfig ℕ
quota = record { max_total_tokens = some 100; max_usd = some 5000 }

abbrev first : List TokenDelta
first = record { input_tokens = 60; output_tokens = 50 } ∷ []

abbrev second : List TokenDelta
second = record { input_tokens = 1; output_tokens = 2 } ∷ []

check_quota_test :
    check_quota pricing (record_all pricing (new pricing quota) first) ≡ some (token_quota 110 100)
unfolding check_quota record_all
check_quota_test = refl

check_quota-record_all_example :
    check_quota pricing (record_all pricing (new pricing quota) first)
    ≡ expected_check pricing quota (sum_input first) (sum_output first)
check_quota-record_all_example = check_quota-record_all pricing quota first (omega arith)

check_quota-stays_example :
    is_some (check_quota pricing (record_all pricing (new pricing quota) (first ++ second))) ≡ true
check_quota-stays_example =
    check_quota-stays pricing quota 100 first second refl (omega arith) (omega arith)
