-- ===== src/Entitlements/Screen.antt =====
-- What the plan screen shows: `usage` of backend/app/services/entitlements.py and `plans_on_sale` of
-- backend/app/services/billing/__init__.py. Volumes stay in bytes; the screen rounds them to tenths of
-- a megabyte. Names of plans are left out.
use readprism.Prelude.Int.{ℤ, pos}
use readprism.Prelude.Text.{Text}
use readprism.Prelude.{
  ℕ, Bool, true, false, Option, none, some, List, [], ◌∷◌, ◌++◌, not, if◌then◌else◌,
}
use readprism.Billing.Account.{
  Tier, reader, pro, Plan, Settings, Interval, month, year, checkout_target, billing_enabled,
  plan_of_tier,
}
use readprism.Entitlements.Quotas.{
  Quota, sources, creators, newsletters, newsletter_mb, llm_summaries, digest_builds, Account,
  plan_quotas, limit, is_pro_plan,
}
use readprism.Entitlements.Allowance.{Redis, used_today}

pub record Offer : Type 0 where
  pub plan : Tier
  pub intervals : List Interval
  pub quotas : Quota → ℕ
  pub has_features : Bool

pub record Usage : Type 0 where
  pub quota : Quota
  pub limit : ℕ
  pub used : ℤ
  pub daily : Bool

abbrev nonempty : Text → Bool
nonempty [] = false
nonempty (c ∷ t) = true

module _ (s : Settings) (configured : Plan → Quota → Option ℕ) (now : ℕ) where
  abbrev sold : Tier → Interval → List Interval
  sold tier i = if nonempty (checkout_target s tier i) then i ∷ [] else []

  abbrev offer : Tier → List Interval → List Offer
  offer tier [] = []
  offer tier (i ∷ is) =
      record {
        plan = tier;
        intervals = i ∷ is;
        quotas = plan_quotas s configured now (plan_of_tier tier);
        has_features = is_pro_plan (plan_of_tier tier);
      }
      ∷ []

  unfoldable pub plans_on_sale : List Offer
  plans_on_sale =
      if not (billing_enabled s)
      then []
      else offer reader (sold reader month ++ sold reader year)
        ++ offer pro (sold pro month ++ sold pro year)

  module _ (up : ℕ → Bool) (a : Account) (total_sources total_creators : ℕ) where
    abbrev total : Quota → Option ℕ
    total sources = some total_sources
    total creators = some total_creators
    total _ = none

    abbrev count_of : Option ℕ → Quota → Redis → ℤ × Redis
    count_of none q r = used_today up r q
    count_of (some n) q r = (pos n, r)

    unfoldable pub usage_rows : List Quota → Redis → List Usage × Redis
    usage_rows [] r = ([], r)
    usage_rows (q ∷ qs) r =
        let (used, r1) = count_of (total q) q r in
        let (rows, r2) = usage_rows qs r1 in
        let daily : Bool = elim (total q) [ none ↦ true | some n ↦ false ] in
        (
          record { quota = q; limit = limit s configured now a q; used = used; daily = daily }
              ∷ rows,
          r2,
        )

    unfoldable pub usage : Redis → List Usage × Redis
    unfolding usage_rows
    usage r =
        if s.hosted
        then usage_rows
            (sources ∷ creators ∷ newsletters ∷ newsletter_mb ∷ llm_summaries ∷ digest_builds ∷ [])
            r
        else ([], r)
