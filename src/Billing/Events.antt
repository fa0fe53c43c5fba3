-- ===== src/Billing/Events.antt =====
-- Applying a provider's webhook: `_find_user`, `_apply`, `apply_update` and `_track_plan_change` of
-- backend/app/services/billing/__init__.py, over the tables that they touch: the users, the unique
-- keys of `billing_events`, and the product events. Log lines are left out. `limit(1)` without an
-- order may pick any row; here it is the first.
use readprism.Prelude.{
  ℕ, ◌+◌, ◌*◌, Bool, true, false, ◌&&◌, ◌||◌, not, Option, none, some, List, [], ◌∷◌, ◌++◌, max,
  ltb, ◌==◌, if◌then◌else◌,
}
use readprism.Prelude.Text.{Text, text_eq}
use readprism.Billing.Account.{
  Tier, free, Plan, Status, active, trialing, past_due, cancelled, ended, Settings, User, day,
  is_paid_tier, is_paid_plan, tier_for_price, effective_plan,
}

-- One provider webhook, normalised. An update with no status applies nothing.
pub record BillingUpdate : Type 0 where
  pub provider : Text
  pub key : Text
  pub occurred_at : ℕ
  pub status : Option Status
  pub user_id : Option ℕ
  pub customer_id : Option Text
  pub subscription_id : Option Text
  pub price_id : Option Text
  pub period_end : Option ℕ
  pub portal_url : Option Text

pub data Outcome : Type 0 where
  applied duplicate stale ignored unknown_user : Outcome

pub record BillingEvent : Type 0 where
  pub key : Text
  pub user_id : Option ℕ
  pub outcome : Outcome

pub data ProductEvent : Type 0 where
  trial_converted : ℕ → Plan → Plan → ProductEvent
  cancel : ℕ → Plan → ProductEvent

pub record Store : Type 0 where
  pub users : List User
  pub events : List BillingEvent
  pub product_events : List ProductEvent

-- `session.get(User, id)`
unfoldable pub get_user : ℕ → List User → Option User
get_user id [] = none
get_user id (u ∷ us) = if u.id == id then some u else get_user id us

-- Writes a changed row back.
unfoldable pub put_user : User → List User → List User
put_user user [] = []
put_user user (u ∷ us) = if u.id == user.id then user ∷ us else u ∷ put_user user us

-- `column == value`, which a NULL on either side fails; an empty value makes no clause.
abbrev pub is_match : Option Text → Option Text → Bool
is_match none column = false
is_match (some []) column = false
is_match (some (c ∷ s)) none = false
is_match (some (c ∷ s)) (some t) = text_eq t (c ∷ s)

unfoldable pub find_by_billing : BillingUpdate → List User → Option User
find_by_billing update [] = none
find_by_billing update (u ∷ us) =
    if is_match update.subscription_id u.billing_subscription_id
      || is_match update.customer_id u.billing_customer_id
    then some u
    else find_by_billing update us

abbrev pub or_user : Option User → Option User → Option User
or_user none other = other
or_user (some u) other = some u

abbrev pub by_id : Option ℕ → List User → Option User
by_id none us = none
by_id (some id) us = get_user id us

unfoldable pub find_user : BillingUpdate → List User → Option User
find_user update users = or_user (by_id update.user_id users) (find_by_billing update users)

-- `new or old`: an empty text is falsy.
abbrev pub or_old : Option Text → Option Text → Option Text
or_old none old = old
or_old (some []) old = old
or_old (some (c ∷ s)) old = some (c ∷ s)

abbrev pub is_past_due : Status → Bool
is_past_due past_due = true
is_past_due _ = false

abbrev converts : Status → Bool
converts active = true
converts trialing = true
converts _ = false

abbrev grace_end : Settings → Status → Option ℕ → ℕ → Option ℕ
grace_end s status none now = none
grace_end s status (some end) now =
    if is_past_due status
    then some (max end now + s.billing_past_due_grace_days * day)
    else some end

-- The tail of `_apply`, with the tier decided.
unfoldable pub grant : Settings → Status → Option ℕ → ℕ → Tier → User → User
grant s status period_end now tier user = record user {
  tier = tier;
  plan_expires_at = grace_end s status period_end now;
  trial_ends_at = if converts status then none else user.trial_ends_at;
}

abbrev by_price : Settings → Status → Option ℕ → ℕ → Option Tier → User → User
by_price s status period_end now (some tier) user = grant s status period_end now tier user
by_price s status period_end now none user =
    if is_paid_tier user.tier then grant s status period_end now user.tier user else user

unfoldable pub by_status : Settings → BillingUpdate → ℕ → Status → User → User
by_status s update now ended user = record user { tier = free; plan_expires_at = some now }
by_status s update now active user =
    by_price s active update.period_end now (tier_for_price s update.price_id) user
by_status s update now trialing user =
    by_price s trialing update.period_end now (tier_for_price s update.price_id) user
by_status s update now past_due user =
    by_price s past_due update.period_end now (tier_for_price s update.price_id) user
by_status s update now cancelled user =
    by_price s cancelled update.period_end now (tier_for_price s update.price_id) user

-- The columns that every applied event writes.
unfoldable pub note_event : BillingUpdate → Status → User → User
note_event update status user = record user {
  billing_provider = some update.provider;
  billing_customer_id = or_old update.customer_id user.billing_customer_id;
  billing_subscription_id = or_old update.subscription_id user.billing_subscription_id;
  billing_portal_url = or_old update.portal_url user.billing_portal_url;
  billing_status = some status;
  billing_event_at = some update.occurred_at;
}

-- `_apply`
unfoldable pub apply : Settings → BillingUpdate → ℕ → Status → User → User
apply s update now status user = by_status s update now status (note_event update status user)

-- `last is not None and occurred_at < last`
abbrev pub is_stale : Option ℕ → ℕ → Bool
is_stale none occurred_at = false
is_stale (some last) occurred_at = ltb occurred_at last

-- The outcome of an update, before the check for a replay.
unfoldable pub decide : Option Status → Option User → ℕ → Outcome
decide none user occurred_at = ignored
decide (some status) none occurred_at = unknown_user
decide (some status) (some user) occurred_at =
    if is_stale user.billing_event_at occurred_at then stale else applied

unfoldable pub has_key : Text → List BillingEvent → Bool
has_key key [] = false
has_key key (e ∷ es) = text_eq e.key key || has_key key es

abbrev stops : Option Status → Bool
stops (some cancelled) = true
stops (some ended) = true
stops _ = false

-- `_track_plan_change`: a first paid plan, and a cancellation.
unfoldable pub track_plan_change :
    Bool → Settings → ℕ → Plan → Option Status → User → List ProductEvent
track_plan_change enabled s now before status_before user =
    let after = effective_plan s user now in
    (if enabled && is_paid_plan after && not (is_paid_plan before)
      then trial_converted user.id after before ∷ []
      else [])
    ++ (if enabled && stops user.billing_status && not (stops status_before)
        then cancel user.id before ∷ []
        else [])

abbrev pub id_of : Option User → Option ℕ
id_of none = none
id_of (some u) = some u.id

-- The row of a new event.
abbrev pub event_row : BillingUpdate → Option User → Outcome → BillingEvent
event_row update user outcome = record { key = update.key; user_id = id_of user; outcome = outcome }

unfoldable pub commit :
    Bool → Settings → BillingUpdate → ℕ → Option Status → Option User → Outcome → Store → Store
commit enabled s update now (some status) (some user) applied store =
    let user' = apply s update now status user in
    record store {
      users = put_user user' store.users;
      product_events =
          store.product_events
          ++ track_plan_change enabled s now (effective_plan s user now) user.billing_status user';
    }
commit enabled s update now status user outcome store = store

-- The account that an update with a status is for.
unfoldable pub target : BillingUpdate → List User → Option User
target update users = elim update.status [ none ↦ none | some status ↦ find_user update users ]

-- `enabled` says whether product events are recorded.
unfoldable pub apply_update : Bool → Settings → Store → BillingUpdate → ℕ → Store × Outcome
unfolding target
apply_update enabled s store update now =
    let user = target update store.users in
    let outcome = decide update.status user update.occurred_at in
    if has_key update.key store.events then (store, duplicate) else (
      commit enabled s update now update.status user outcome
          (record store { events = store.events ++ (event_row update user outcome ∷ []) }),
      outcome,
    )
