-- ===== src/Core/Cost.antt =====
-- crates/silo-core/src/cost.rs: the usage meter and its quota. Dollars are floating point, so their
-- type, the price of a usage and the test `usd >= max` are arguments.
pub mod Quota
mod Examples
use llmdevsilo.Prelude.{
  ℕ, ◌+◌, ◌%◌, ◌^◌, Bool, true, false, List, [], ◌∷◌, Option, none, some, leb, if◌then◌else◌,
}

-- conversation.rs.
pub record TokenDelta : Type 0 where
  pub input_tokens : ℕ
  pub output_tokens : ℕ

pub record Pricing : Type 1 where
  pub Usd : Type 0
  pub usd : ℕ → ℕ → Usd
  pub at_least : Usd → Usd → Bool

pub record QuotaConfig (Usd : Type 0) : Type 0 where
  pub max_total_tokens : Option ℕ
  pub max_usd : Option Usd

-- The counters are `u64`.
pub record UsageMeter (Usd : Type 0) : Type 0 where
  pub quota : QuotaConfig Usd
  pub input_tokens : ℕ
  pub output_tokens : ℕ

pub data QuotaExceeded (Usd : Type 0) : Type 0 where
  -- The tokens used and the quota.
  token_quota : ℕ → ℕ → QuotaExceeded Usd
  dollar_quota : Usd → Usd → QuotaExceeded Usd

module _ (p : Pricing) where
  open p use {Usd, usd, at_least}

  abbrev pub new : QuotaConfig Usd → UsageMeter Usd
  new quota = record { quota = quota; input_tokens = 0; output_tokens = 0 }

  -- `fetch_add` wraps.
  unfoldable pub record_usage : UsageMeter Usd → TokenDelta → UsageMeter Usd
  record_usage meter delta = record meter {
    input_tokens = (meter.input_tokens + delta.input_tokens) % 2 ^ 64;
    output_tokens = (meter.output_tokens + delta.output_tokens) % 2 ^ 64;
  }

  -- `UsageSnapshot::total_tokens`, with the wrap of a release build.
  unfoldable pub total_tokens : UsageMeter Usd → ℕ
  total_tokens meter = (meter.input_tokens + meter.output_tokens) % 2 ^ 64

  abbrev pub dollar_test : UsageMeter Usd → Option Usd → Option (QuotaExceeded Usd)
  dollar_test meter none = none
  dollar_test meter (some max) =
      let spent = usd meter.input_tokens meter.output_tokens in
      if at_least spent max then some (dollar_quota spent max) else none

  -- `none` is `Ok(())`.
  unfoldable pub check_quota : UsageMeter Usd → Option (QuotaExceeded Usd)
  unfolding total_tokens
  check_quota meter = elim meter.quota.max_total_tokens [
    | some max ↦
        if leb max (total_tokens meter)
        then some (token_quota (total_tokens meter) max)
        else dollar_test meter meter.quota.max_usd
    | none ↦ dollar_test meter meter.quota.max_usd
  ]

  -- The completions of a session, in the order in which they are recorded.
  unfoldable pub record_all : UsageMeter Usd → List TokenDelta → UsageMeter Usd
  unfolding record_usage
  record_all meter [] = meter
  record_all meter (delta ∷ deltas) = record_all (record_usage meter delta) deltas
