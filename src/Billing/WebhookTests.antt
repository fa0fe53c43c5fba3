-- ===== src/Billing/WebhookTests.antt =====
-- A Lemon Squeezy webhook that arrives twice.
use readprism.Prelude.{true, false, Option, none, some, [], if◌then◌else◌}
use readprism.Prelude.Int.{pos}
use readprism.Prelude.Text.{Text, codes, text_eq}
use readprism.Billing.Account.{Settings}
use readprism.Billing.Events.{Store}
use readprism.Billing.Json.{Json, text, object, field, end, Library}
use readprism.Billing.Webhook.{Secrets}
use readprism.Billing.Lemonsqueezy

abbrev settings : Settings
settings = record {
  hosted = true;
  billing_provider = codes "lemonsqueezy";
  billing_trial_days = 30;
  billing_past_due_grace_days = 7;
  billing_reader_price_ids = [];
  billing_pro_price_ids = [];
  billing_team_price_ids = [];
  razorpay_plan_id_pro = [];
  billing_checkout_reader_monthly = [];
  billing_checkout_reader_yearly = [];
  billing_checkout_pro_monthly = [];
  billing_checkout_pro_yearly = [];
  billing_checkout_monthly = [];
  billing_checkout_yearly = [];
  hosted_paused_delete_days = 30;
  hosted_delete_reminder_days = 7;
}

-- {"data": {"type": "subscriptions", "id": "9", "attributes": {"status": "active"}}}
abbrev body : Json
body = object (
    field (codes "data")
      (object (
        field (codes "type") (text (codes "subscriptions")) (
          field (codes "id") (text (codes "9")) (
            field (codes "attributes") (object (field (codes "status") (text (codes "active")) end))
              end))))
      end)

abbrev library : Library
library = record {
  loads = λ raw. some body;
  show = λ j. [];
  read_uuid = λ t. none;
  fromisoformat = λ t. some 5;
  read_int = λ t. some (pos 5);
  fromtimestamp = λ t. some 5;
  isdigit = λ t. false;
  digest = λ t. codes "d1";
  hmac = λ secret t. codes "5e";
}

abbrev secrets : Secrets
secrets = record { shared = codes "whsec"; razorpay = [] }

abbrev signed : Text → Option Text
signed key = if text_eq key (codes "x-signature") then some (codes "5e") else none

abbrev store : Store
store = record { users = []; events = []; product_events = [] }

abbrev raw : Text
raw = codes "{}"
