-- ===== src/Billing/Webhook.antt =====
-- The webhook endpoint: `webhook` of backend/app/api/billing.py and `provider` of
-- backend/app/services/billing/__init__.py.
use readprism.Prelude.{ℕ, Bool, not, Option, none, some, if◌then◌else◌}
use readprism.Prelude.Text.{Text, codes, text_eq, lower}
use readprism.Billing.Account.{Settings, strip, billing_enabled}
use readprism.Billing.Events.{BillingUpdate, Outcome, Store, apply_update}
use readprism.Billing.Json.{Fallible, ok, invalid, crashed, Library}
use readprism.Billing.Lemonsqueezy
use readprism.Billing.Paddle
use readprism.Billing.Razorpay

-- What a provider's module offers to the endpoint, at the time of a request.
pub record Adapter : Type 0 where
  pub verify : Text → (Text → Option Text) → ℕ → Bool
  pub parse : Text → ℕ → Fallible BillingUpdate

-- `billing_webhook_secret` and `razorpay_webhook_secret`.
pub record Secrets : Type 0 where
  pub shared : Text
  pub razorpay : Text

module _ (lib : Library) (secrets : Secrets) where
  abbrev pub lemonsqueezy : Adapter
  lemonsqueezy = record {
    verify = λ raw headers now. Lemonsqueezy.verify lib secrets.shared raw headers;
    parse = Lemonsqueezy.parse lib;
  }

  abbrev pub paddle : Adapter
  paddle = record { verify = Paddle.verify lib secrets.shared; parse = Paddle.parse lib }

  abbrev pub razorpay : Adapter
  razorpay = record {
    verify = λ raw headers now. Razorpay.verify lib secrets.razorpay secrets.shared raw headers;
    parse = Razorpay.parse lib;
  }

  -- The name is never empty here: it is a part of the path.
  unfoldable pub provider : Text → Option Adapter
  provider name =
      let chosen = lower (strip name) in
      if text_eq chosen (codes "lemonsqueezy")
      then some lemonsqueezy
      else if text_eq chosen (codes "paddle")
      then some paddle
      else if text_eq chosen (codes "razorpay")
      then some razorpay
      else none

pub data Reply : Type 0 where
  not_found unauthorized bad_request server_error : Reply
  status : Outcome → Reply

module _ (enabled : Bool) (s : Settings) where
  abbrev pub answer_parsed : Store → ℕ → Fallible BillingUpdate → Store × Reply
  answer_parsed store now invalid = (store, bad_request)
  answer_parsed store now crashed = (store, server_error)
  answer_parsed store now (ok update) =
      let (store', outcome) = apply_update enabled s store update now in (store', status outcome)

  -- The endpoint with its adapter at hand.
  unfoldable pub answer : Adapter → Store → Text → (Text → Option Text) → ℕ → Store × Reply
  answer a store raw headers now =
      if not (a.verify raw headers now)
      then (store, unauthorized)
      else answer_parsed store now (a.parse raw now)

  abbrev pub answer_known : Option Adapter → Store → Text → (Text → Option Text) → ℕ → Store × Reply
  answer_known none store raw headers now = (store, not_found)
  answer_known (some a) store raw headers now =
      if not (billing_enabled s) then (store, not_found) else answer a store raw headers now

  unfoldable pub webhook :
      Library → Secrets → Text → Store → Text → (Text → Option Text) → ℕ → Store × Reply
  unfolding provider answer
  webhook lib secrets name store raw headers now =
      answer_known (provider lib secrets name) store raw headers now
