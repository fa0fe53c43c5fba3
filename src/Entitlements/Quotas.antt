-- ===== src/Entitlements/Quotas.antt =====
-- Plans, quotas and account totals: the upper half of backend/app/services/entitlements.py, with
-- `DEFAULT_PLAN_QUOTAS` of backend/app/config.py. A limit of 0 is no limit; the code treats a negative
-- one alike, so limits are naturals. Detail texts are data.
use readprism.Prelude.{
  ℕ, ◌+◌, ◌-◌, Bool, true, false, ◌&&◌, ◌||◌, not, Option, none, some, ltb, if◌then◌else◌, or_else,
}
use readprism.Billing.Account.{
  Settings, User, Plan, selfhost, plan_team, plan_pro, plan_reader, trial, paused, effective_plan,
}

pub data Quota : Type 0 where
  sources creators newsletters newsletter_mb llm_summaries digest_builds : Quota

-- The columns that entitlements read: the billing columns and `quota_overrides`.
pub record Account : Type 0 where
  pub user : User
  pub quota_overrides : Quota → Option ℕ

-- The row of a plan that has everything: `trial`, `pro` and `team` are equal in the table.
abbrev full_quotas : Quota → ℕ
full_quotas sources = 2000
full_quotas creators = 200
full_quotas newsletters = 300
full_quotas newsletter_mb = 150
full_quotas llm_summaries = 1000
full_quotas digest_builds = 12

abbrev reader_quotas : Quota → ℕ
reader_quotas sources = 500
reader_quotas creators = 50
reader_quotas newsletters = 100
reader_quotas newsletter_mb = 50
reader_quotas llm_summaries = 200
reader_quotas digest_builds = 6

unfoldable pub default_plan_quotas : Plan → Quota → Option ℕ
default_plan_quotas trial q = some (full_quotas q)
default_plan_quotas plan_reader q = some (reader_quotas q)
default_plan_quotas plan_pro q = some (full_quotas q)
default_plan_quotas plan_team q = some (full_quotas q)
default_plan_quotas selfhost q = none
default_plan_quotas paused q = none

-- `plan in PRO_PLANS`
abbrev pub is_pro_plan : Plan → Bool
is_pro_plan plan_pro = true
is_pro_plan plan_team = true
is_pro_plan trial = true
is_pro_plan selfhost = false
is_pro_plan plan_reader = false
is_pro_plan paused = false

abbrev pub is_paused_plan : Plan → Bool
is_paused_plan paused = true
is_paused_plan _ = false

pub data Hint : Type 0 where
  subscribe pro_raises contact_support : Hint

abbrev hint_of : Plan → Hint
hint_of paused = subscribe
hint_of trial = subscribe
hint_of plan_reader = pro_raises
hint_of _ = contact_support

-- What a check answers: no exception, or a 402 with its detail.
pub data Check : Type 0 where
  allowed : Check
  account_paused : Check
  over_sources : ℕ → ℕ → ℕ → Hint → Check
  over_creators : ℕ → Hint → Check
  needs_pro : Check

-- `configured` is HOSTED_PLAN_QUOTAS, and `now` the time of the call.
module _ (s : Settings) (configured : Plan → Quota → Option ℕ) (now : ℕ) where
  unfoldable pub is_paused : Account → Bool
  is_paused a = s.hosted && is_paused_plan (effective_plan s a.user now)

  unfoldable pub pro_features : Account → Bool
  pro_features a = not s.hosted || is_pro_plan (effective_plan s a.user now)

  unfoldable pub require_pro : Account → Check
  unfolding pro_features
  require_pro a = if pro_features a then allowed else needs_pro

  -- A row of zeros, updated by the defaults and then by the configuration.
  unfoldable pub plan_quotas : Plan → Quota → ℕ
  unfolding default_plan_quotas
  plan_quotas plan q = or_else (configured plan q) (or_else (default_plan_quotas plan q) 0)

  unfoldable pub limit : Account → Quota → ℕ
  limit a q =
      if s.hosted
      then or_else (a.quota_overrides q) (plan_quotas (effective_plan s a.user now) q)
      else 0

  unfoldable pub enforce_source_limit : Account → ℕ → ℕ → Check
  enforce_source_limit a current_count adding =
      let cap = limit a sources in
      if is_paused a
      then account_paused
      else if ltb 0 cap && ltb cap (current_count + adding)
      then over_sources cap current_count (cap - current_count)
          (hint_of (effective_plan s a.user now))
      else allowed

  unfoldable pub enforce_creator_limit : Account → ℕ → ℕ → Check
  enforce_creator_limit a current_count adding =
      let cap = limit a creators in
      if is_paused a
      then account_paused
      else if ltb 0 cap && ltb cap (current_count + adding)
      then over_creators cap (hint_of (effective_plan s a.user now))
      else allowed
