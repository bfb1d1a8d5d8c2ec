-- ===== src/Core/Cost/Quota.antt =====
-- cost.rs: what the meter counts, and when the quota stops a session.
use llmdevsilo.Prelude.{
  ℕ, ◌+◌, ◌^◌, ◌<◌, ◌≤◌, ◌≡◌, refl, ◌∙◌, true, List, [], ◌∷◌, ◌++◌, Option, none, some, is_some,
  leb, le→leb, arith, if◌then◌else◌,
}
use llmdevsilo.Core.Cost.{
  TokenDelta, Pricing, QuotaConfig, UsageMeter, QuotaExceeded, token_quota, dollar_quota, new,
  record_usage, total_tokens, dollar_test, check_quota, record_all,
}

abbrev pub sum_input : List TokenDelta → ℕ
sum_input [] = 0
sum_input (d ∷ ds) = d.input_tokens + sum_input ds

abbrev pub sum_output : List TokenDelta → ℕ
sum_output [] = 0
sum_output (d ∷ ds) = d.output_tokens + sum_output ds

module _ (p : Pricing) where
  open p use {Usd}

  record_all-quota :
      (ds : List TokenDelta) (meter : UsageMeter Usd) → (record_all p meter ds).quota ≡ meter.quota
  unfolding record_all
  record_all-quota [] meter = refl
  record_all-quota (d ∷ ds) meter = record_all-quota ds (record_usage p meter d)

  record_all-input :
      (ds : List TokenDelta) (meter : UsageMeter Usd)
      → meter.input_tokens + sum_input ds < 2 ^ 64
      → (record_all p meter ds).input_tokens ≡ meter.input_tokens + sum_input ds
  unfolding record_all record_usage
  record_all-input [] meter h = omega arith
  record_all-input (d ∷ ds) meter h =
      record_all-input ds (record_usage p meter d) (omega arith) ∙ omega arith

  record_all-output :
      (ds : List TokenDelta) (meter : UsageMeter Usd)
      → meter.output_tokens + sum_output ds < 2 ^ 64
      → (record_all p meter ds).output_tokens ≡ meter.output_tokens + sum_output ds
  unfolding record_all record_usage
  record_all-output [] meter h = omega arith
  record_all-output (d ∷ ds) meter h =
      record_all-output ds (record_usage p meter d) (omega arith) ∙ omega arith

  abbrev pub used : QuotaConfig Usd → ℕ → ℕ → UsageMeter Usd
  used quota input output = record { quota = quota; input_tokens = input; output_tokens = output }

  meter-ext :
      (meter : UsageMeter Usd) (quota : QuotaConfig Usd) (input output : ℕ)
      → meter.quota ≡ quota
      → meter.input_tokens ≡ input
      → meter.output_tokens ≡ output
      → meter ≡ used quota input output
  meter-ext meter quota input output e e' e'' i = used (e i) (e' i) (e'' i)

  record_all-used :
      (quota : QuotaConfig Usd) (ds : List TokenDelta)
      → sum_input ds + sum_output ds < 2 ^ 64
      → record_all p (new p quota) ds ≡ used quota (sum_input ds) (sum_output ds)
  record_all-used quota ds h =
      meter-ext (record_all p (new p quota) ds) quota (sum_input ds) (sum_output ds)
        (record_all-quota ds (new p quota))
        (record_all-input ds (new p quota) (omega arith) ∙ omega arith)
        (record_all-output ds (new p quota) (omega arith) ∙ omega arith)

  total_tokens-used :
      (quota : QuotaConfig Usd) (input output : ℕ)
      → input + output < 2 ^ 64
      → total_tokens p (used quota input output) ≡ input + output
  unfolding total_tokens
  total_tokens-used quota input output h = omega arith

  -- A price that reaches the limit, where there is one.
  abbrev pub over_price : Option Usd → Usd → Option (QuotaExceeded Usd)
  over_price none spent = none
  over_price (some max) spent = if p.at_least spent max then some (dollar_quota spent max) else none

  -- The check that a session with this quota meets after these completions.
  abbrev pub expected_check : QuotaConfig Usd → ℕ → ℕ → Option (QuotaExceeded Usd)
  expected_check quota input output = elim quota.max_total_tokens [
    | some max ↦
        if leb max (input + output)
        then some (token_quota (input + output) max)
        else over_price quota.max_usd (p.usd input output)
    | none ↦ over_price quota.max_usd (p.usd input output)
  ]

  dollar_test-over_price :
      (meter : UsageMeter Usd) (max : Option Usd)
      → dollar_test p meter max ≡ over_price max (p.usd meter.input_tokens meter.output_tokens)
  dollar_test-over_price meter none = refl
  dollar_test-over_price meter (some max) = refl

  check_quota-used :
      (quota : QuotaConfig Usd) (input output : ℕ)
      → input + output < 2 ^ 64
      → check_quota p (used quota input output) ≡ expected_check quota input output
  unfolding check_quota
  check_quota-used quota input output h = go quota.max_total_tokens refl
    where
      go :
          (max : Option ℕ)
          → quota.max_total_tokens ≡ max
          → check_quota p (used quota input output) ≡ expected_check quota input output
      go none e =
          rw (e, check_quota) (dollar_test-over_price (used quota input output) quota.max_usd)
      go (some max) e =
          rw
            (
              e,
              check_quota,
              total_tokens-used quota input output h,
              dollar_test-over_price (used quota input output) quota.max_usd,
            )
            refl

  -- While the tokens of a session stay below 2 ^ 64, the check before a request fails exactly when the
  -- tokens of all completions so far, in whatever order they were recorded, reach the token quota, or
  -- else the price of the input and the output tokens reaches the dollar quota.
  pub check_quota-record_all :
      (quota : QuotaConfig Usd) (ds : List TokenDelta)
      → sum_input ds + sum_output ds < 2 ^ 64
      → check_quota p (record_all p (new p quota) ds)
        ≡ expected_check quota (sum_input ds) (sum_output ds)
  check_quota-record_all quota ds h =
      rw (record_all-used quota ds h) (check_quota-used quota (sum_input ds) (sum_output ds) h)

  sum_input-append :
      (ds more : List TokenDelta) → sum_input (ds ++ more) ≡ sum_input ds + sum_input more
  sum_input-append [] more = omega arith
  sum_input-append (d ∷ ds) more = let h = sum_input-append ds more in omega arith

  sum_output-append :
      (ds more : List TokenDelta) → sum_output (ds ++ more) ≡ sum_output ds + sum_output more
  sum_output-append [] more = omega arith
  sum_output-append (d ∷ ds) more = let h = sum_output-append ds more in omega arith

  -- A session over its token quota stays over it, whatever is recorded, below 2 ^ 64 tokens.
  pub check_quota-stays :
      (quota : QuotaConfig Usd) (max : ℕ) (ds more : List TokenDelta)
      → quota.max_total_tokens ≡ some max
      → max ≤ sum_input ds + sum_output ds
      → sum_input (ds ++ more) + sum_output (ds ++ more) < 2 ^ 64
      → is_some (check_quota p (record_all p (new p quota) (ds ++ more))) ≡ true
  check_quota-stays quota max ds more e h k =
      let i = sum_input-append ds more in
      let o = sum_output-append ds more in
      let b : leb max (sum_input (ds ++ more) + sum_output (ds ++ more)) ≡ true =
        le→leb max (sum_input (ds ++ more) + sum_output (ds ++ more)) (omega arith) in
      rw (check_quota-record_all quota (ds ++ more) k, e, b) refl
