-- ===== src/Billing/Paddle.antt =====
-- The Paddle adapter: `verify` and `parse` of backend/app/services/billing/paddle.py. A moment is a
-- count of microseconds, and the time stamp of a signature one of seconds.
use readprism.Prelude.{
  ℕ, suc, ◌+◌, ◌-◌, ◌*◌, Bool, true, false, ◌&&◌, ◌||◌, not, Option, none, some, List, [], ◌∷◌,
  ◌++◌, ltb, ◌==◌, if◌then◌else◌, or_else,
}
use readprism.Prelude.Int.{ℤ, pos, negsuc}
use readprism.Prelude.Text.{Text, codes, text_eq, starts_with}
use readprism.Billing.Account.{Status, active, trialing, past_due, cancelled, ended, second}
use readprism.Billing.Events.{BillingUpdate}
use readprism.Billing.Json.{
  Json, null, text, array, cons, Fallible, ok, invalid, crashed, ◌>>=◌, Library, truthy, get,
  or_dict, str, str_or_empty, is_text, column, date, user_of,
}
use readprism.Billing.Lemonsqueezy.{is_nonempty, loaded}

abbrev name : Text
name = codes "paddle"

abbrev max_skew : ℕ
max_skew = 300 * second

abbrev status_of : Text → Option Status
status_of t =
    if text_eq t (codes "active")
    then some active
    else if text_eq t (codes "trialing")
    then some trialing
    else if text_eq t (codes "past_due")
    then some past_due
    else if text_eq t (codes "paused") || text_eq t (codes "canceled")
    then some ended
    else none

abbrev cons_first : ℕ → List Text → List Text
cons_first c [] = (c ∷ []) ∷ []
cons_first c (t ∷ ts) = (c ∷ t) ∷ ts

-- `s.split(";")`
unfoldable pub split_parts : Text → List Text
split_parts [] = [] ∷ []
split_parts (c ∷ s) = let rest = split_parts s in if c == b';' then [] ∷ rest else cons_first c rest

abbrev cons_key : ℕ → Option (Text × Text) → Option (Text × Text)
cons_key c none = none
cons_key c (some (k, v)) = some (c ∷ k, v)

-- `p.split("=", 1)`, if there is a `=`.
unfoldable pub split_pair : Text → Option (Text × Text)
split_pair [] = none
split_pair (c ∷ s) =
    let rest = cons_key c (split_pair s) in if c == b'=' then some ([], s) else rest

abbrev prefer : Option Text → Option Text → Option Text
prefer none b = b
prefer (some a) b = some a

abbrev value_of : Text → Option (Text × Text) → Option Text
value_of key none = none
value_of key (some (k, v)) = if text_eq k key then some v else none

-- The value of a key in the dictionary of the parts: the last one counts.
unfoldable pub part : Text → List Text → Option Text
unfolding split_pair
part key [] = none
part key (p ∷ parts) = prefer (part key parts) (value_of key (split_pair p))

-- `abs(now - int(ts)) > MAX_SKEW_SECONDS`
abbrev skewed : ℕ → ℤ → Bool
skewed now (pos t) = ltb max_skew (now - t * second) || ltb max_skew (t * second - now)
skewed now (negsuc t) = ltb max_skew (now + suc t * second)

abbrev in_time : ℕ → Option ℤ → Bool
in_time now none = false
in_time now (some t) = not (skewed now t)

-- `compare_digest` raises on a signature that is not ASCII; here it is unequal.
unfoldable pub verify : Library → Text → Text → (Text → Option Text) → ℕ → Bool
unfolding split_parts part
verify lib secret raw headers now =
    let parts = split_parts (or_else (headers (codes "paddle-signature")) []) in
    let ts = or_else (part (codes "ts") parts) [] in
    let h1 = or_else (part (codes "h1") parts) [] in
    is_nonempty secret
    && is_nonempty ts
    && is_nonempty h1
    && in_time now (lib.read_int ts)
    && text_eq (lib.hmac secret (ts ++ (codes ":" ++ raw))) h1

-- The price of the first member of `data.get("items") or []`; `[0]` of what is no list raises a
-- KeyError or TypeError, except that a text has a first character.
abbrev first_price : Json → Fallible Json
first_price j = if not (truthy j) then ok null else elim j [
  | array (cons i l) ↦ do price ← get i (codes "price"); get (or_dict price) (codes "id")
  | text t ↦ crashed
  | _ ↦ invalid
]

abbrev is_active : Option Status → Bool
is_active (some active) = true
is_active _ = false

abbrev is_cancelled : Option Status → Bool
is_cancelled (some cancelled) = true
is_cancelled _ = false

unfoldable pub event_key : Library → Text → Json → Text
event_key lib raw event_id =
    name ++ (codes ":" ++ (if truthy event_id then str lib event_id else lib.digest raw))

-- The end of `parse`, with the body read.
unfoldable pub parse_body : Library → Text → ℕ → Json → Fallible BillingUpdate
parse_body lib raw now body = do
  event_type ← get body (codes "event_type")
  let event = str_or_empty lib event_type
  let is_subscription = starts_with event (codes "subscription.")
  data'' ← get body (codes "data")
  let data' = or_dict data''
  status_text ← if is_subscription then get data' (codes "status") else ok null
  let told = if is_subscription then status_of (str_or_empty lib status_text) else none
  change ← get data' (codes "scheduled_change")
  let scheduled = or_dict change
  action ← if is_active told then get scheduled (codes "action") else ok null
  let status = if is_active told && is_text action (codes "cancel") then some cancelled else told
  custom ← get data' (codes "custom_data")
  user ← get (or_dict custom) (codes "user_id")
  items ← get data' (codes "items")
  price ← first_price items
  period ← get data' (codes "current_billing_period")
  end_at ←
      if is_cancelled status
      then get scheduled (codes "effective_at")
      else get (or_dict period) (codes "ends_at")
  period_end ← date lib end_at
  event_id ← get body (codes "event_id")
  occurred ← get body (codes "occurred_at")
  occurred_at ← date lib occurred
  customer ← get data' (codes "customer_id")
  customer_id ← column customer
  id ← if is_subscription then get data' (codes "id") else ok null
  subscription_id ← column id
  price_id ← column price
  ok record {
    provider = name;
    key = event_key lib raw event_id;
    occurred_at = or_else occurred_at now;
    status = status;
    user_id = user_of lib user;
    customer_id = customer_id;
    subscription_id = subscription_id;
    price_id = price_id;
    period_end = period_end;
    portal_url = none;
  }

unfoldable pub parse : Library → Text → ℕ → Fallible BillingUpdate
parse lib raw now = do body ← loaded (lib.loads raw); parse_body lib raw now body
