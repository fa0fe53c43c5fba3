-- ===== src/Billing/Pausing.antt =====
-- The daily task on paused accounts: backend/app/workers/tasks/paused_accounts.py, and
-- `cancel_for_deletion` of backend/app/services/billing/__init__.py. Emails and the provider's answers
-- are data: `may_email` and `cancels` are parameters. The SQL query that picks candidates selects the
-- rows that the check of `effective_plan` passes, and is that check here.
use readprism.Prelude.{
  ℕ, ◌+◌, ◌-◌, ◌*◌, Bool, true, false, ◌||◌, not, Option, none, some, List, [], ◌∷◌, ◌++◌, min, max,
  leb, ◌==◌, if◌then◌else◌,
}
use readprism.Prelude.Text.{Text}
use readprism.Billing.Account.{
  Settings, User, Status, ended, Plan, paused, day, effective_plan, paused_since,
}

-- A reminder from an earlier pause does not count.
abbrev pub sent_since : Option ℕ → ℕ → Option ℕ
sent_since none since = none
sent_since (some t) since = if leb since t then some t else none

abbrev pub remind_days : Settings → ℕ
remind_days s = min s.hosted_delete_reminder_days s.hosted_paused_delete_days

abbrev pub delete_at : Settings → ℕ → ℕ
delete_at s since = since + s.hosted_paused_delete_days * day

abbrev due : Settings → ℕ → Option ℕ → ℕ → Bool × Bool
due s since none now = (leb (delete_at s since - remind_days s * day) now, false)
due s since (some t) now = (false, leb (max (delete_at s since) (t + remind_days s * day)) now)

-- (send the reminder now, delete now)
unfoldable pub schedule : Settings → ℕ → Option ℕ → ℕ → Bool × Bool
schedule s since reminder_sent_at now =
    if s.hosted_paused_delete_days == 0
    then (false, false)
    else due s since (sent_since reminder_sent_at since) now

-- The date that the reminder names.
unfoldable pub delete_on : Settings → ℕ → ℕ → ℕ
delete_on s since now = max (delete_at s since) (now + s.hosted_delete_reminder_days * day)

pub data Cancellation : Type 0 where
  no_subscription cancelled_now failed_now : Cancellation

abbrev is_ended : Option Status → Bool
is_ended (some ended) = true
is_ended _ = false

abbrev cancel_named : (Text → Bool) → Option Status → Option Text → Cancellation
cancel_named cancels status none = no_subscription
cancel_named cancels status (some []) = no_subscription
cancel_named cancels status (some (c ∷ name)) =
    if is_ended status
    then no_subscription
    else if cancels (c ∷ name)
    then cancelled_now
    else failed_now

-- `cancels` is whether the provider's adapter takes the cancellation of a subscription.
unfoldable pub cancel_for_deletion : (Text → Bool) → User → Cancellation
cancel_for_deletion cancels user =
    cancel_named cancels user.billing_status user.billing_subscription_id

-- The date that the account screen shows: `_deletes_at` of backend/app/api/billing.py.
abbrev deletes_from : Settings → ℕ → Option ℕ → ℕ
deletes_from s since none = delete_at s since
deletes_from s since (some t) = max (delete_at s since) (t + s.hosted_delete_reminder_days * day)

unfoldable pub deletes_at : Settings → User → Option ℕ
deletes_at s user =
    if s.hosted_paused_delete_days == 0
    then none
    else some (
        deletes_from s (paused_since user)
          (sent_since user.deletion_reminder_sent_at (paused_since user)))

-- What a run did, besides the rows: emails in order, and the counters that it returns.
pub data Mail : Type 0 where
  reminder_mail : ℕ → ℕ → Mail
  deleted_mail : ℕ → Mail

pub record Run : Type 0 where
  pub users : List User
  pub mails : List Mail
  pub cancellations : List (ℕ × Cancellation)
  pub reminded : ℕ
  pub deleted : ℕ

abbrev mail_if : Bool → Mail → List Mail
mail_if b m = if b then m ∷ [] else []

-- The row stays as it is.
abbrev keep : User → Run → Run
keep user rest = record rest { users = user ∷ rest.users }

abbrev pub is_paused_plan : Plan → Bool
is_paused_plan paused = true
is_paused_plan _ = false

module _ (s : Settings) (may_email : User → Bool) (cancels : Text → Bool) (now : ℕ) where
  abbrev remind_user : User → Run → Run
  remind_user user rest = record rest {
    users = record user { deletion_reminder_sent_at = some now } ∷ rest.users;
    mails =
        mail_if (may_email user) (reminder_mail user.id (delete_on s (paused_since user) now))
        ++ rest.mails;
    reminded = rest.reminded + 1;
  }

  abbrev delete_user : User → Run → Run
  delete_user user rest = record rest {
    mails = mail_if (may_email user) (deleted_mail user.id) ++ rest.mails;
    cancellations = (user.id, cancel_for_deletion cancels user) ∷ rest.cancellations;
    deleted = rest.deleted + 1;
  }

  abbrev act : User → Bool × Bool → Run → Run
  act user (remind, delete) rest =
      if remind
      then remind_user user rest
      else if delete
      then delete_user user rest
      else keep user rest

  -- One round of the loop, before those that follow it.
  unfoldable pub process : User → Run → Run
  process user rest =
      if is_paused_plan (effective_plan s user now)
      then act user (schedule s (paused_since user) user.deletion_reminder_sent_at now) rest
      else keep user rest

  unfoldable pub loop : List User → Run
  loop [] = record { users = []; mails = []; cancellations = []; reminded = 0; deleted = 0 }
  loop (user ∷ users) = process user (loop users)

  -- `_run`
  unfoldable pub run : List User → Run
  run users =
      if not s.hosted || s.hosted_paused_delete_days == 0
      then record { users = users; mails = []; cancellations = []; reminded = 0; deleted = 0 }
      else loop users
