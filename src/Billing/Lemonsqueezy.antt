-- ===== src/Billing/Lemonsqueezy.antt =====
-- The Lemon Squeezy adapter: `verify` and `parse` of backend/app/services/billing/lemonsqueezy.py.
use readprism.Prelude.{
  ℕ, Bool, true, false, ◌&&◌, Option, none, some, [], ◌∷◌, ◌++◌, if◌then◌else◌, or_else,
}
use readprism.Prelude.Text.{Text, codes, text_eq}
use readprism.Billing.Account.{Status, active, trialing, past_due, cancelled, ended}
use readprism.Billing.Events.{BillingUpdate}
use readprism.Billing.Json.{
  Json, null, Fallible, ok, invalid, ◌>>=◌, Library, get, or_dict, str_or_empty, str_if, is_text,
  column, date, user_of,
}

abbrev name : Text
name = codes "lemonsqueezy"

unfoldable pub status_of : Text → Option Status
status_of t =
    if text_eq t (codes "active")
    then some active
    else if text_eq t (codes "on_trial")
    then some trialing
    else if text_eq t (codes "past_due")
    then some past_due
    else if text_eq t (codes "unpaid")
    then some past_due
    else if text_eq t (codes "cancelled")
    then some cancelled
    else if text_eq t (codes "expired")
    then some ended
    else if text_eq t (codes "paused")
    then some ended
    else none

abbrev pub is_nonempty : Text → Bool
is_nonempty [] = false
is_nonempty (c ∷ t) = true

-- `compare_digest` raises on a signature that is not ASCII; here it is unequal.
unfoldable pub verify : Library → Text → Text → (Text → Option Text) → Bool
verify lib secret raw headers =
    let signature = or_else (headers (codes "x-signature")) [] in
    is_nonempty secret && is_nonempty signature && text_eq (lib.hmac secret raw) signature

abbrev pub loaded : Option Json → Fallible Json
loaded none = invalid
loaded (some body) = ok body

-- `_dt(first) or _dt(second)`
abbrev or_date : Library → Option ℕ → Json → Fallible (Option ℕ)
or_date lib none second = date lib second
or_date lib (some t) second = ok (some t)

unfoldable pub event_key : Library → Text → Text
event_key lib raw = name ++ (codes ":" ++ lib.digest raw)

unfoldable pub parse : Library → Text → ℕ → Fallible BillingUpdate
unfolding status_of
parse lib raw now = do
  body ← loaded (lib.loads raw)
  meta' ← get body (codes "meta")
  data' ← get body (codes "data")
  attrs' ← get (or_dict data') (codes "attributes")
  event ← get (or_dict meta') (codes "event_name")
  custom ← get (or_dict meta') (codes "custom_data")
  user ← get (or_dict custom) (codes "user_id")
  kind ← get (or_dict data') (codes "type")
  let attrs = or_dict attrs'
  let is_subscription = is_text kind (codes "subscriptions")
  status ← if is_subscription then get attrs (codes "status") else ok null
  updated_at ← get attrs (codes "updated_at")
  occurred_at ← date lib updated_at
  customer ← get attrs (codes "customer_id")
  id ← get (or_dict data') (codes "id")
  variant ← get attrs (codes "variant_id")
  ends_at ← get attrs (codes "ends_at")
  end_date ← date lib ends_at
  renews_at ← get attrs (codes "renews_at")
  period_end ← or_date lib end_date renews_at
  urls ← get attrs (codes "urls")
  portal ← get (or_dict urls) (codes "customer_portal")
  portal_url ← column portal
  ok record {
    provider = name;
    key = event_key lib raw;
    occurred_at = or_else occurred_at now;
    status = if is_subscription then status_of (str_or_empty lib status) else none;
    user_id = user_of lib user;
    customer_id = str_if lib customer;
    subscription_id = if is_subscription then str_if lib id else none;
    price_id = str_if lib variant;
    period_end = period_end;
    portal_url = portal_url;
  }
