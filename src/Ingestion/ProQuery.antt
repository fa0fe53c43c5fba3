-- ===== src/Ingestion/ProQuery.antt =====
-- The query that puts the feeds of Pro readers first, `_pro_followed` of
-- backend/app/workers/tasks/ingest_feeds.py, in SQL's logic of three values: none is NULL.
use readprism.Prelude.{
  ℕ, ◌≡◌, refl, Bool, true, false, ◌&&◌, ◌||◌, not, Option, none, some, List, [], ◌∷◌, ltb, ◌==◌,
  if◌then◌else◌, mem, is_some, arith, Bool-cases, inl, inr,
}
use readprism.Billing.Account.{User, Tier, is_paid_tier, plan_of_tier, effective_plan}
use readprism.Entitlements.Quotas.{Account, is_pro_plan, pro_features}
use readprism.Ingestion.FeedPoll.{Config, any_pro}

abbrev and_sql : Option Bool → Option Bool → Option Bool
and_sql (some false) b = some false
and_sql (some true) b = b
and_sql none (some false) = some false
and_sql none (some true) = none
and_sql none none = none

abbrev not_sql : Option Bool → Option Bool
not_sql none = none
not_sql (some b) = some (not b)

abbrev or_sql : Option Bool → Option Bool → Option Bool
or_sql a b = not_sql (and_sql (not_sql a) (not_sql b))

abbrev is_null : Option ℕ → Option Bool
is_null t = some (not (is_some t))

-- `column > now`
abbrev greater : Option ℕ → ℕ → Option Bool
greater none now = none
greater (some t) now = some (ltb now t)

-- A row passes WHERE if its condition is true, not if it is NULL.
abbrev where_sql : Option Bool → Bool
where_sql none = false
where_sql (some b) = b

-- A row of `sources`: what it follows, for whom.
pub record Follow : Type 0 where
  pub feed_id : Option ℕ
  pub user_id : ℕ
  pub is_active : Bool

abbrev plan_active : User → ℕ → Option Bool
plan_active user now = or_sql (is_null user.plan_expires_at) (greater user.plan_expires_at now)

-- `tier in [t for t in PAID_TIERS if t in PRO_PLANS]`; a tier has the name of its plan.
abbrev is_pro_tier : Tier → Bool
is_pro_tier t = is_paid_tier t && is_pro_plan (plan_of_tier t)

abbrev paid_pro : User → ℕ → Option Bool
paid_pro user now = and_sql (some (is_pro_tier user.tier)) (plan_active user now)

abbrev trialing : User → ℕ → Option Bool
trialing user now = and_sql (not_sql (is_null user.trial_ends_at)) (
    and_sql (greater user.trial_ends_at now)
      (not_sql (and_sql (some (is_paid_tier user.tier)) (plan_active user now))))

-- `or_(paid_pro, trialing)`
unfoldable pub is_selected : User → ℕ → Bool
is_selected user now = where_sql (or_sql (paid_pro user now) (trialing user now))

abbrev joins : Follow → ℕ → List Account → Bool
joins f now [] = false
joins f now (a ∷ users) = (f.user_id == a.user.id && is_selected a.user now) || joins f now users

abbrev reads : ℕ → Follow → Bool
reads feed f = elim (f.feed_id) [ none ↦ false | some g ↦ g == feed && f.is_active ]

unfoldable pub exists_pro : ℕ → ℕ → List Account → List Follow → Bool
exists_pro feed now users [] = false
exists_pro feed now users (f ∷ sources) =
    (reads feed f && joins f now users) || exists_pro feed now users sources

-- None on a self-hosted instance.
unfoldable pub pro_followed : Config → ℕ → ℕ → List Account → List Follow → Option Bool
unfolding exists_pro
pro_followed c feed now users sources =
    if not c.billing.hosted then none else some (exists_pro feed now users sources)

-- The accounts of the feed's active subscribers.
abbrev pub readers : ℕ → List Follow → List ℕ
readers feed [] = []
readers feed (f ∷ sources) =
    if reads feed f then f.user_id ∷ readers feed sources else readers feed sources

regroup :
    (i i' m p p' j a b : Bool)
    → i ≡ i'
    → p ≡ p'
    → b ≡ (j || a)
    → (((i' || m) && p') || b) ≡ (((i && p) || j) || ((m && p') || a))
regroup i i' m p p' j a b e f g = ground (arith, e, f, g)

module _ (c : Config) (now : ℕ) (hosted : c.billing.hosted ≡ true) where
  condition_is_pro :
      (a : Account) → is_selected a.user now ≡ pro_features c.billing c.configured now a
  unfolding is_selected pro_features effective_plan
  condition_is_pro a = ground (arith, hosted)

  any_pro-cons :
      (users : List Account) (f : Follow) (ids : List ℕ)
      → any_pro c now users (f.user_id ∷ ids) ≡ (joins f now users || any_pro c now users ids)
  any_pro-cons [] f ids = refl
  any_pro-cons (a ∷ users) f ids =
      let pro = condition_is_pro a in
      let rest = any_pro-cons users f ids in
      regroup (f.user_id == a.user.id) (a.user.id == f.user_id) (mem a.user.id ids)
        (is_selected a.user now) (pro_features c.billing c.configured now a) (joins f now users)
        (any_pro c now users ids) (any_pro c now users (f.user_id ∷ ids)) (ground arith) pro rest

  any_pro-none : (users : List Account) → any_pro c now users [] ≡ false
  any_pro-none [] = refl
  any_pro-none (a ∷ users) = ground (arith, any_pro-none users)

  exists_pro_is_any :
      (feed : ℕ) (users : List Account) (sources : List Follow)
      → exists_pro feed now users sources ≡ any_pro c now users (readers feed sources)
  unfolding exists_pro
  exists_pro_is_any feed users [] = ground (arith, any_pro-none users)
  exists_pro_is_any feed users (f ∷ sources) =
      let rest = exists_pro_is_any feed users sources in
      let step = any_pro-cons users f (readers feed sources) in
      elim (Bool-cases (reads feed f)) [
        | inl here ↦ ground (arith, rest, step, here)
        | inr other ↦ ground (arith, rest, other)
      ]

  -- On a hosted instance the SQL condition, NULL dates included, holds of a feed exactly when one of its
  -- active subscribers has Pro features by `entitlements.pro_features`, which is what
  -- `_apply_pro_priority` asks.
  pub pro_followed_is_any :
      (feed : ℕ) (users : List Account) (sources : List Follow)
      → pro_followed c feed now users sources ≡ some (any_pro c now users (readers feed sources))
  unfolding pro_followed
  pro_followed_is_any feed users sources =
      ground (arith, exists_pro_is_any feed users sources, hosted)
