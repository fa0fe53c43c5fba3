-- ===== src/Billing/Tests.antt =====
-- Runs of billing, and the theorems at concrete accounts and events.
use readprism.Prelude.{ℕ, ◌+◌, ◌*◌, ◌≡◌, ◌≢◌, refl, true, false, none, some, List, [], ◌∷◌, length}
use readprism.Prelude.Text.{Text, codes}
use readprism.Billing.Account.{
  Settings, User, Status, active, ended, free, reader, pro, plan_pro, trial, day, ids,
  tier_for_price, effective_plan, paused_since,
}
use readprism.Billing.Events.{
  BillingUpdate, applied, stale, Store, apply_update, has_key, get_user, apply, put_user, find_user,
  find_by_billing, decide, commit, track_plan_change, note_event, by_status, grant, trial_converted,
}
use readprism.Billing.Ordering.{HasUniqueIds}
use readprism.Billing.Deliveries.{Advances, deliver, deliver-Advances}
use readprism.Billing.Pausing.{is_paused_plan, run}
use readprism.Billing.Notice.{Has, run_spares}

abbrev settings : Settings
settings = record {
  hosted = true;
  billing_provider = codes "paddle";
  billing_trial_days = 30;
  billing_past_due_grace_days = 7;
  billing_reader_price_ids = codes "pri_r1, pri_r2";
  billing_pro_price_ids = codes "pri_p";
  billing_team_price_ids = [];
  razorpay_plan_id_pro = [];
  billing_checkout_reader_monthly = [];
  billing_checkout_reader_yearly = [];
  billing_checkout_pro_monthly = [];
  billing_checkout_pro_yearly = [];
  billing_checkout_monthly = [];
  billing_checkout_yearly = [];
  hosted_paused_delete_days = 30;
  hosted_delete_reminder_days = 7;
}

abbrev maya : User
maya = record {
  id = 7;
  email = codes "maya@example.org";
  tier = free;
  created_at = 0;
  trial_ends_at = some (30 * day);
  plan_expires_at = none;
  billing_provider = none;
  billing_customer_id = none;
  billing_subscription_id = none;
  billing_status = none;
  billing_portal_url = none;
  billing_event_at = none;
  deletion_reminder_sent_at = none;
  email_verified_at = none;
}

abbrev store : Store
store = record { users = maya ∷ []; events = []; product_events = [] }

-- A subscription event of Maya's, with its key, its time and its status.
abbrev event : Text → ℕ → Status → BillingUpdate
event key at status = record {
  provider = codes "paddle";
  key = key;
  occurred_at = at;
  status = some status;
  user_id = some 7;
  customer_id = some (codes "ctm_1");
  subscription_id = some (codes "sub_1");
  price_id = some (codes "pri_p");
  period_end = some (60 * day);
  portal_url = none;
}

abbrev bought : BillingUpdate
bought = event (codes "e2") (20 * day) active

abbrev late_cancel : BillingUpdate
late_cancel = event (codes "e1") (10 * day) ended

price_lists :
    (ids (codes " a, ,b ") ≡ codes "a" ∷ codes "b" ∷ [])
    × (tier_for_price settings (some (codes "pri_r2")) ≡ some reader)
    × (tier_for_price settings (some (codes "pri_x")) ≡ none)
unfolding ids tier_for_price
price_lists = (refl, refl, refl)

-- The cancellation is older than the purchase, and comes after it.
late_event :
    let first = apply_update true settings store bought (20 * day) in
    let second = apply_update true settings first.0 late_cancel (21 * day) in
    (first.1 ≡ applied)
    × (first.0.product_events ≡ trial_converted 7 plan_pro trial ∷ [])
    × (second.1 ≡ stale)
    × (second.0.users ≡ first.0.users)
unfolding apply_update has_key find_user find_by_billing get_user put_user decide commit
    track_plan_change effective_plan apply note_event by_status grant tier_for_price
late_event = (refl, refl, refl, refl)

-- Another body under the key of the purchase.
abbrev rewritten : BillingUpdate
rewritten = record late_cancel { key = codes "e2" }

store-HasUniqueIds : HasUniqueIds store.users
unfolding get_user
store-HasUniqueIds = (refl, tt)

bought_applies : (apply_update true settings store bought (20 * day)).1 ≡ applied
unfolding apply_update has_key find_user find_by_billing get_user decide
bought_applies = refl

abbrev unpriced : BillingUpdate
unpriced = record bought { status = none }

unpriced_ignored : (apply_update true settings store unpriced 0).1 ≢ applied
unfolding apply_update has_key decide
unpriced_ignored h = cc

found : get_user 7 store.users ≡ some maya
unfolding get_user
found = refl

abbrev deliveries : List (BillingUpdate × ℕ)
deliveries = (bought, 20 * day) ∷ (late_cancel, 21 * day) ∷ (bought, 22 * day) ∷ []

deliver-Advances_example :
    Advances true settings 7 maya (deliver true settings store deliveries).users
    × HasUniqueIds (deliver true settings store deliveries).users
deliver-Advances_example =
    deliver-Advances true settings store deliveries 7 store-HasUniqueIds found

pro_price : tier_for_price settings (some (codes "pri_p")) ≡ some pro
unfolding tier_for_price
pro_price = refl

abbrev reminded : User
reminded = record maya { deletion_reminder_sent_at = some (55 * day) }

maya_paused_since : paused_since reminded ≡ 30 * day
unfolding paused_since
maya_paused_since = refl

abbrev hasty : Settings
hasty = record settings { hosted_paused_delete_days = 3 }

run_spares_example :
    let r = run settings (λ u. true) (λ name. true) (40 * day) (maya ∷ []) in
    ((u : User)
      → is_paused_plan (effective_plan settings u (40 * day)) ≡ false
      → Has u (maya ∷ [])
      → Has u r.users)
    × (length r.users + r.deleted ≡ 1)
run_spares_example = run_spares settings (λ u. true) (λ name. true) (40 * day) (maya ∷ [])
