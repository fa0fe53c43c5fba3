-- ===== src/Billing/Redelivery.antt =====
-- A webhook that is delivered again: the endpoint of backend/app/api/billing.py over each provider's
-- adapter.
use readprism.Prelude.{ℕ, ◌≡◌, ◌⊎◌, Bool, not, Option, none, some, if◌then◌else◌}
use readprism.Prelude.Text.{Text}
use readprism.Billing.Account.{Settings}
use readprism.Billing.Events.{BillingUpdate, duplicate, Store}
use readprism.Billing.Json.{Fallible, ok, invalid, crashed, ◌>>=◌}
use readprism.Billing.Webhook.{Adapter, Reply, not_found, unauthorized, status, answer_parsed}
use readprism.Billing.Lemonsqueezy
use readprism.Billing.Paddle
use readprism.Billing.Razorpay

-- Two answers of a parser that name the same event, or fail alike.
unfoldable pub Alike : Fallible BillingUpdate → Fallible BillingUpdate → Type 0
Alike (ok u) (ok v) = u.key ≡ v.key
Alike invalid invalid = Unit
Alike crashed crashed = Unit
Alike _ _ = ⊥

step :
    {A : Type 0} (m : Fallible A) (f g : A → Fallible BillingUpdate)
    → ((a : A) → Alike (f a) (g a))
    → Alike (m >>= f) (m >>= g)
unfolding Alike ◌>>=◌
step (ok a) f g h = h a
step invalid f g h = tt
step crashed f g h = tt

-- A reply to a body that was delivered before: its signature does not pass any more, or it is a
-- duplicate.
abbrev IsRepeat : Reply → Type 0
IsRepeat r = (r ≡ unauthorized) ⊎ (r ≡ status duplicate)

AllAlike : Option Adapter → Type 0
AllAlike none = Unit
AllAlike (some a) = (raw : Text) (now later : ℕ) → Alike (a.parse raw now) (a.parse raw later)

module _ (enabled : Bool) (s : Settings) (store : Store) (now later : ℕ) where
  -- The endpoint's answer, from whether billing is on and the signature passes.
  abbrev checked : Bool → Store → ℕ → Bool → Fallible BillingUpdate → Store × Reply
  checked on st t passed p =
      if not on
      then (st, not_found)
      else if not passed
      then (st, unauthorized)
      else answer_parsed enabled s st t p
