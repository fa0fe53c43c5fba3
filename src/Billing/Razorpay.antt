-- ===== src/Billing/Razorpay.antt =====
-- The Razorpay adapter: `verify` and `parse` of backend/app/services/billing/razorpay.py.
use readprism.Prelude.{
  ℕ, Bool, ◌&&◌, ◌||◌, Option, none, some, [], ◌∷◌, ◌++◌, if◌then◌else◌, or_else,
}
use readprism.Prelude.Text.{Text, codes, text_eq, starts_with}
use readprism.Billing.Account.{Status, active, past_due, cancelled, ended, second}
use readprism.Billing.Events.{BillingUpdate}
use readprism.Billing.Json.{
  Json, null, bool, number, text, Fallible, ok, ◌>>=◌, Library, truthy, get, or_dict, str,
  str_or_empty, str_if, replace_z, user_of,
}
use readprism.Billing.Lemonsqueezy.{is_nonempty, loaded}

abbrev name : Text
name = codes "razorpay"

abbrev event_status : Text → Option Status
event_status t =
    if text_eq t (codes "subscription.activated") || text_eq t (codes "subscription.charged")
    then some active
    else if text_eq t (codes "subscription.pending") || text_eq t (codes "subscription.halted")
    then some past_due
    else if text_eq t (codes "subscription.cancelled")
    then some cancelled
    else if text_eq t (codes "subscription.completed") || text_eq t (codes "subscription.expired")
    then some ended
    else none

abbrev entity_status : Text → Option Status
entity_status t =
    if text_eq t (codes "active")
    then some active
    else if text_eq t (codes "pending") || text_eq t (codes "halted")
    then some past_due
    else if text_eq t (codes "cancelled")
    then some cancelled
    else if text_eq t (codes "completed") || text_eq t (codes "expired")
    then some ended
    else none

abbrev or_status : Option Status → Option Status → Option Status
or_status none b = b
or_status (some a) b = some a

-- The instance's own secret for Razorpay, or the one of all providers.
abbrev or_secret : Text → Text → Text
or_secret [] other = other
or_secret (c ∷ t) other = c ∷ t

-- `compare_digest` raises on a signature that is not ASCII; here it is unequal.
unfoldable pub verify : Library → Text → Text → Text → (Text → Option Text) → Bool
verify lib own_secret shared_secret raw headers =
    let secret = or_secret own_secret shared_secret in
    let signature = or_else (headers (codes "x-razorpay-signature")) [] in
    is_nonempty secret && is_nonempty signature && text_eq (lib.hmac secret raw) signature

-- `_dt`, where every exception gives None. True and False are 1 and 0 seconds.
unfoldable pub date : Library → Json → Option ℕ
date lib null = none
date lib (bool b) = some (if b then second else 0)
date lib (number t nonzero) = lib.fromtimestamp t
date lib (text t) = if lib.isdigit t then lib.fromtimestamp t else lib.fromisoformat (replace_z t)
date lib j = lib.fromisoformat (replace_z (lib.show j))

-- `a or b`
abbrev either : Json → Json → Json
either a b = if truthy a then a else b

unfoldable pub event_key : Library → Text → Json → Text
event_key lib raw event_id =
    name ++ (codes ":" ++ (if truthy event_id then str lib event_id else lib.digest raw))

-- The end of `parse`, with the body read.
unfoldable pub parse_body : Library → Text → ℕ → Json → Fallible BillingUpdate
unfolding date
parse_body lib raw now body = do
  event_name ← get body (codes "event")
  let event = str_or_empty lib event_name
  payload' ← get body (codes "payload")
  let payload = or_dict payload'
  subscription ← get payload (codes "subscription")
  sub_entity ← get (or_dict subscription) (codes "entity")
  let sub_data = or_dict sub_entity
  payment ← get payload (codes "payment")
  pay_entity ← get (or_dict payment) (codes "entity")
  let payment_data = or_dict pay_entity
  let is_subscription = starts_with event (codes "subscription.") || truthy sub_entity
  status_text ← get sub_data (codes "status")
  let status = or_status (event_status event) (entity_status (str_or_empty lib status_text))
  sub_notes ← get sub_data (codes "notes")
  pay_notes ← if truthy sub_notes then ok null else get payment_data (codes "notes")
  user ← get (or_dict (either sub_notes pay_notes)) (codes "user_id")
  id ← if is_subscription then get sub_data (codes "id") else ok null
  sub_customer ← get sub_data (codes "customer_id")
  pay_customer ← if truthy sub_customer then ok null else get payment_data (codes "customer_id")
  plan ← get sub_data (codes "plan_id")
  current_end ← get sub_data (codes "current_end")
  charge_at ← get sub_data (codes "charge_at")
  ended_at ← get sub_data (codes "ended_at")
  end_at ← get sub_data (codes "end_at")
  created_at ← get body (codes "created_at")
  event_id ← get body (codes "event_id")
  ok record {
    provider = name;
    key = event_key lib raw event_id;
    occurred_at = or_else (date lib created_at) now;
    status = if is_subscription then status else none;
    user_id = user_of lib user;
    customer_id = str_if lib (either sub_customer pay_customer);
    subscription_id = str_if lib id;
    price_id = str_if lib plan;
    period_end = date lib (either current_end (either charge_at (either ended_at end_at)));
    portal_url = none;
  }

unfoldable pub parse : Library → Text → ℕ → Fallible BillingUpdate
parse lib raw now = do body ← loaded (lib.loads raw); parse_body lib raw now body
