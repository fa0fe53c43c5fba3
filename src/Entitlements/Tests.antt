-- ===== src/Entitlements/Tests.antt =====
-- Runs of the allowances, and the theorems at a concrete account.
use readprism.Prelude.{ℕ, ◌≡◌, refl, Bool, true, false, Option, none, [], ◌∷◌}
use readprism.Prelude.Int.{ℤ, pos, ◌+ℤ◌, ◌-ℤ◌}
use readprism.Prelude.Text.{codes}
use readprism.Billing.Account.{Settings, User, reader, Plan, effective_plan}
use readprism.Entitlements.Quotas.{
  Quota, llm_summaries, sources, newsletters, newsletter_mb, Account, over_sources, is_paused,
  limit, plan_quotas, enforce_source_limit, pro_raises,
}
use readprism.Entitlements.Allowance.{
  Redis, cache_incr, charge, take, record_use, newsletter_allowed,
}
use readprism.Entitlements.Concurrent.{State, after_count, counts, here, next, IsSafe, Reach-IsSafe}

abbrev settings : Settings
settings = record {
  hosted = true;
  billing_provider = [];
  billing_trial_days = 30;
  billing_past_due_grace_days = 7;
  billing_reader_price_ids = [];
  billing_pro_price_ids = [];
  billing_team_price_ids = [];
  razorpay_plan_id_pro = [];
  billing_checkout_reader_monthly = [];
  billing_checkout_reader_yearly = [];
  billing_checkout_pro_monthly = [];
  billing_checkout_pro_yearly = [];
  billing_checkout_monthly = [];
  billing_checkout_yearly = [];
  hosted_paused_delete_days = 30;
  hosted_delete_reminder_days = 7;
}

abbrev subscriber : User
subscriber = record {
  id = 1;
  email = codes "noor@example.org";
  tier = reader;
  created_at = 0;
  trial_ends_at = none;
  plan_expires_at = none;
  billing_provider = none;
  billing_customer_id = none;
  billing_subscription_id = none;
  billing_status = none;
  billing_portal_url = none;
  billing_event_at = none;
  deletion_reminder_sent_at = none;
  email_verified_at = none;
}

abbrev no_overrides : Quota → Option ℕ
no_overrides q = none

abbrev noor : Account
noor = record { user = subscriber; quota_overrides = no_overrides }

abbrev unconfigured : Plan → Quota → Option ℕ
unconfigured plan q = none

-- 100 newsletters and 50 MB so far today.
abbrev used : Quota → ℤ
used newsletters = pos 99
used newsletter_mb = pos 49_999_000
used _ = pos 0

abbrev redis : Redis
redis = record { count = used; calls = 0 }

abbrev always : ℕ → Bool
always n = true

abbrev never : ℕ → Bool
never n = false

reader_limits :
    (limit settings unconfigured 0 noor sources ≡ 500)
    × (enforce_source_limit settings unconfigured 0 noor 498 3 ≡ over_sources 500 498 2 pro_raises)
unfolding limit enforce_source_limit plan_quotas effective_plan is_paused
reader_limits = (refl, refl)

volume_refused :
    let r = newsletter_allowed settings unconfigured 0 always noor 2000 redis in
    (r.0 ≡ false) × (r.1.count newsletters ≡ pos 99) × (r.1.count newsletter_mb ≡ pos 49_999_000)
unfolding newsletter_allowed take charge cache_incr record_use limit plan_quotas effective_plan
    is_paused ◌+ℤ◌ ◌-ℤ◌
volume_refused = (refl, refl, refl)

abbrev nothing_used : State
nothing_used = record {
  redis = record { count = λ q. pos 0; calls = 0 };
  granted = 0;
  refunds = [];
}

-- A request for 3 and one for 4 that is refused, its amount not yet taken back.
abbrev two_requests : State
two_requests =
    after_count always 5 llm_summaries (after_count always 5 llm_summaries nothing_used 3) 4

refused_pending :
    (two_requests.redis.count llm_summaries ≡ pos 7)
    × (two_requests.granted ≡ 3)
    × (two_requests.refunds ≡ 4 ∷ [])
unfolding after_count cache_incr ◌+ℤ◌
refused_pending = (refl, refl, refl)

Reach-IsSafe_example : IsSafe always 5 llm_summaries two_requests
Reach-IsSafe_example =
    Reach-IsSafe always 5 llm_summaries (λ n. refl) refl refl refl
      (next (next here (counts nothing_used 3))
        (counts (after_count always 5 llm_summaries nothing_used 3) 4))
