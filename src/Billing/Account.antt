-- ===== src/Billing/Account.antt =====
-- The configuration and the columns of `users` that billing reads and writes (backend/app/config.py,
-- backend/app/models/user.py), the plans, and the checkout tables of
-- backend/app/services/billing/__init__.py. A moment is a count of microseconds.
use readprism.Prelude.{
  ℕ, ◌*◌, Bool, true, false, ◌&&◌, ◌||◌, not, Option, none, some, List, [], ◌∷◌, map, ltb, leb,
  ◌==◌, if◌then◌else◌, or_else, is_some, max, ◌+◌,
}
use readprism.Prelude.Text.{Text, text_eq, member}

-- What was bought: `users.tier`. `free` stands for every value outside `PAID_TIERS`.
pub data Tier : Type 0 where
  free reader pro team : Tier

-- The answers of `effective_plan`.
pub data Plan : Type 0 where
  selfhost plan_team plan_pro plan_reader trial paused : Plan

-- Provider subscription statuses, normalised.
pub data Status : Type 0 where
  active trialing past_due cancelled ended : Status

pub record Settings : Type 0 where
  pub hosted : Bool
  pub billing_provider : Text
  pub billing_trial_days : ℕ
  pub billing_past_due_grace_days : ℕ
  pub billing_reader_price_ids : Text
  pub billing_pro_price_ids : Text
  pub billing_team_price_ids : Text
  pub razorpay_plan_id_pro : Text
  pub billing_checkout_reader_monthly : Text
  pub billing_checkout_reader_yearly : Text
  pub billing_checkout_pro_monthly : Text
  pub billing_checkout_pro_yearly : Text
  pub billing_checkout_monthly : Text
  pub billing_checkout_yearly : Text
  pub hosted_paused_delete_days : ℕ
  pub hosted_delete_reminder_days : ℕ

pub record User : Type 0 where
  pub id : ℕ
  pub email : Text
  pub tier : Tier
  pub created_at : ℕ
  pub trial_ends_at : Option ℕ
  pub plan_expires_at : Option ℕ
  pub billing_provider : Option Text
  pub billing_customer_id : Option Text
  pub billing_subscription_id : Option Text
  pub billing_status : Option Status
  pub billing_portal_url : Option Text
  pub billing_event_at : Option ℕ
  pub deletion_reminder_sent_at : Option ℕ
  pub email_verified_at : Option ℕ

abbrev pub second : ℕ
second = 1_000_000

abbrev pub day : ℕ
day = 86_400 * second

abbrev pub is_paid_tier : Tier → Bool
is_paid_tier free = false
is_paid_tier reader = true
is_paid_tier pro = true
is_paid_tier team = true

-- `plan in PAID_TIERS`
abbrev pub is_paid_plan : Plan → Bool
is_paid_plan plan_team = true
is_paid_plan plan_pro = true
is_paid_plan plan_reader = true
is_paid_plan selfhost = false
is_paid_plan trial = false
is_paid_plan paused = false

abbrev pub plan_of_tier : Tier → Plan
plan_of_tier free = paused
plan_of_tier reader = plan_reader
plan_of_tier pro = plan_pro
plan_of_tier team = plan_team

abbrev is_space : ℕ → Bool
is_space c = c == 32 || (leb 9 c && leb c 13) || (leb 28 c && leb c 31)

lstrip : Text → Text
lstrip [] = []
lstrip (c ∷ s) = if is_space c then lstrip s else c ∷ s

keep_end : ℕ → Text → Text
keep_end c [] = if is_space c then [] else c ∷ []
keep_end c (d ∷ s) = c ∷ d ∷ s

rstrip_space : Text → Text
unfolding keep_end
rstrip_space [] = []
rstrip_space (c ∷ s) = keep_end c (rstrip_space s)

-- `s.strip()`, on ASCII white space.
unfoldable pub strip : Text → Text
unfolding lstrip rstrip_space
strip s = rstrip_space (lstrip s)

cons_head : ℕ → List Text → List Text
cons_head c [] = (c ∷ []) ∷ []
cons_head c (part ∷ parts) = (c ∷ part) ∷ parts

-- `raw.split(",")`
unfoldable pub split_commas : Text → List Text
unfolding cons_head
split_commas [] = [] ∷ []
split_commas (c ∷ s) = if c == b',' then [] ∷ split_commas s else cons_head c (split_commas s)

abbrev is_nonempty : Text → Bool
is_nonempty [] = false
is_nonempty (c ∷ s) = true

drop_empty : List Text → List Text
drop_empty [] = []
drop_empty (t ∷ ts) = if is_nonempty t then t ∷ drop_empty ts else drop_empty ts

-- `_ids`, as the list of its members.
unfoldable pub ids : Text → List Text
unfolding split_commas strip drop_empty
ids raw = drop_empty (map strip (split_commas raw))

-- Which configured list the price is in; the team list is asked first.
unfoldable pub tier_for_price : Settings → Option Text → Option Tier
unfolding ids
tier_for_price s none = none
tier_for_price s (some price) =
    if member price (ids s.billing_team_price_ids)
    then some team
    else if member price (ids s.billing_pro_price_ids)
        || (is_nonempty s.razorpay_plan_id_pro && text_eq price s.razorpay_plan_id_pro)
    then some pro
    else if member price (ids s.billing_reader_price_ids)
    then some reader
    else none

unfoldable pub billing_enabled : Settings → Bool
billing_enabled s = s.hosted && is_nonempty s.billing_provider

pub data Interval : Type 0 where
  month year : Interval

-- `own or other`
abbrev or_nonempty : Text → Text → Text
or_nonempty own other = if is_nonempty own then own else other

-- The checkout link or price id of a plan; empty is not sold. Only Reader falls back on the older
-- single-plan settings.
unfoldable pub checkout_target : Settings → Tier → Interval → Text
checkout_target s reader month =
    or_nonempty s.billing_checkout_reader_monthly s.billing_checkout_monthly
checkout_target s reader year =
    or_nonempty s.billing_checkout_reader_yearly s.billing_checkout_yearly
checkout_target s pro month = s.billing_checkout_pro_monthly
checkout_target s pro year = s.billing_checkout_pro_yearly
checkout_target s free i = []
checkout_target s team i = []

-- `expires is None or expires > now`
abbrev pub in_force : Option ℕ → ℕ → Bool
in_force none now = true
in_force (some t) now = ltb now t

-- `trial is not None and trial > now`
abbrev pub is_running : Option ℕ → ℕ → Bool
is_running none now = false
is_running (some t) now = ltb now t

unfoldable pub effective_plan : Settings → User → ℕ → Plan
effective_plan s user now =
    if not s.hosted
    then selfhost
    else if is_paid_tier user.tier && in_force user.plan_expires_at now
    then plan_of_tier user.tier
    else if is_running user.trial_ends_at now
    then trial
    else paused

-- `max` of the dates that are there.
abbrev latest : Option ℕ → Option ℕ → Option ℕ
latest none b = b
latest (some a) none = some a
latest (some a) (some b) = some (max a b)

-- When an unpaid hosted account stopped having a plan or a trial.
unfoldable pub paused_since : User → ℕ
paused_since user = or_else (latest user.trial_ends_at user.plan_expires_at) user.created_at

unfoldable pub start_trial : Settings → User → ℕ → User
start_trial s user now =
    if s.hosted && ltb 0 s.billing_trial_days && not (is_some user.trial_ends_at)
    then record user { trial_ends_at = some (now + s.billing_trial_days * day) }
    else user
