-- ===== src/Billing/Access.antt =====
-- What an account may use after an event, and when an unpaid account is reminded and deleted.
use readprism.Prelude.{
  ℕ, ◌+◌, ◌*◌, ◌≤◌, ◌<◌, ◌≡◌, ◌≢◌, refl, true, false, none, some, ◌⊎◌, arith, max, if◌then◌else◌,
}
use readprism.Billing.Account.{
  Settings, User, Status, active, trialing, past_due, cancelled, ended, Tier, free, day,
  tier_for_price, effective_plan, is_paid_tier, is_paid_plan, plan_of_tier,
}
use readprism.Billing.Events.{BillingUpdate, apply, note_event, by_status, grant, is_past_due}

-- After an "ended" event the account has no paid plan, then or at any later time, until another event.
pub apply-ended :
    (s : Settings) (update : BillingUpdate) (now later : ℕ) (user : User)
    → is_paid_plan (effective_plan s (apply s update now ended user) later) ≡ false
unfolding apply note_event by_status effective_plan
apply-ended s update now later user = ground arith

-- The tier changes only to the one that the configuration gives the price, or to `free` by an "ended"
-- event; with a price that is not configured an account without a paid tier gains nothing.
pub apply-tier :
    (s : Settings) (update : BillingUpdate) (now : ℕ) (status : Status) (user : User)
    → let user' = apply s update now status user in
      ((user'.tier ≡ user.tier)
        ⊎ ((tier_for_price s update.price_id ≡ some user'.tier)
            ⊎ ((status ≡ ended) × (user'.tier ≡ free))))
      × (tier_for_price s update.price_id ≡ none
          → is_paid_tier user.tier ≡ false
          → (later : ℕ) → is_paid_plan (effective_plan s user' later) ≡ false)
unfolding apply note_event by_status grant effective_plan
apply-tier s update now status user = (ground arith, λ unknown unpaid later. ground arith)

-- A configured price gives its plan until the period ends, and while a payment is overdue for the
-- days of grace after that (or after the event, if it came later); from then on no paid plan.
pub apply_access :
    (s : Settings) (update : BillingUpdate) (now later : ℕ) (status : Status) (user : User)
    {t : Tier} {end : ℕ}
    → s.hosted ≡ true
    → status ≢ ended
    → tier_for_price s update.price_id ≡ some t
    → is_paid_tier t ≡ true
    → update.period_end ≡ some end
    → let plan = effective_plan s (apply s update now status user) later in
      let until =
        (if is_past_due status then max end now + s.billing_past_due_grace_days * day else end) in
      (later < until → plan ≡ plan_of_tier t) × (until ≤ later → is_paid_plan plan ≡ false)
unfolding apply note_event by_status grant effective_plan
apply_access s update now later active user hosted live known paid ends = ground arith
apply_access s update now later trialing user hosted live known paid ends = ground arith
apply_access s update now later past_due user hosted live known paid ends = ground arith
apply_access s update now later cancelled user hosted live known paid ends = ground arith
apply_access s update now later ended user hosted live known paid ends = absurd (live refl)
