-- ===== src/Billing/Notice.antt =====
-- The notice that a paused account gets before it is deleted.
use readprism.Prelude.{
  ℕ, ◌+◌, ◌*◌, ◌≤◌, ◌<◌, ◌≡◌, ◌↔◌, refl, Bool, true, false, Option, none, some, List, [], ◌∷◌, ◌⊎◌,
  inl, inr, arith, length, Bool-cases, suc, ap, ◌∙◌, not, ◌||◌, ◌==◌,
}
use readprism.Prelude.Text.{Text}
use readprism.Billing.Account.{Settings, User, day, effective_plan, paused_since}
use readprism.Billing.Pausing.{
  sent_since, remind_days, delete_at, schedule, delete_on, deletes_at, is_paused_plan, Run, process,
  loop, run,
}

-- An account is deleted only when a reminder of this pause is at least the reminder period old and the
-- pause has lasted its days; a run never reminds and deletes at once, and reminds only when no
-- reminder of this pause went out.
pub schedule_notice :
    (s : Settings) (since : ℕ) (sent : Option ℕ) (now : ℕ)
    → ((schedule s since sent now).1 ≡ true
        → (t : ℕ) × (sent ≡ some t)
          × (since ≤ t)
          × (t + remind_days s * day ≤ now)
          × (delete_at s since ≤ now))
      × ((schedule s since sent now).0 ≡ true
          → ((schedule s since sent now).1 ≡ false) × (sent_since sent since ≡ none))
unfolding schedule
schedule_notice s since none now = (λ d. absurd (ground arith), ground arith)
schedule_notice s since (some t) now =
    (λ d. (t, refl, ground arith, ground arith, ground arith), ground arith)

-- An account that stays paused is deleted in two runs: one at the reminder's time or later sends the
-- reminder, and the next one that comes after both the pause's days and the reminder period deletes it.
pub schedule_deletes :
    (s : Settings) (since first next : ℕ)
    → 0 < s.hosted_paused_delete_days
    → delete_at s since ≤ first + remind_days s * day
    → delete_at s since ≤ next
    → since ≤ first
    → first + remind_days s * day ≤ next
    → (schedule s since none first ≡ (true, false))
      × (schedule s since (some first) next ≡ (false, true))
unfolding schedule
schedule_deletes s since first next on due due' later notice = ground arith

-- Where the reminder period is no longer than the pause, an account is deleted from exactly the date on
-- that its reminder named and its account screen shows.
pub delete_on_kept :
    (s : Settings) (user : User) (sent now : ℕ)
    → 0 < s.hosted_paused_delete_days
    → s.hosted_delete_reminder_days ≤ s.hosted_paused_delete_days
    → user.deletion_reminder_sent_at ≡ some sent
    → paused_since user ≤ sent
    → let since = paused_since user in
      (deletes_at s user ≡ some (delete_on s since sent))
      × (((schedule s since (some sent) now).1 ≡ true) ↔ (delete_on s since sent ≤ now))
unfolding schedule delete_on deletes_at
delete_on_kept s user sent now on short reminded started = ground arith

-- Where it is longer, an account that is reminded as its pause begins is deleted before the date that
-- the reminder named.
pub delete_on_broken :
    (s : Settings) (since : ℕ)
    → 0 < s.hosted_paused_delete_days
    → s.hosted_paused_delete_days < s.hosted_delete_reminder_days
    → (schedule s since none since ≡ (true, false))
      × (schedule s since (some since) (delete_at s since) ≡ (false, true))
      × (delete_at s since < delete_on s since since)
unfolding schedule delete_on
delete_on_broken s since on long = ground arith

-- A row is in a table.
abbrev pub Has : User → List User → Type 0
Has u [] = ⊥
Has u (v ∷ vs) = (u ≡ v) ⊎ Has u vs

module _ (s : Settings) (may_email : User → Bool) (cancels : Text → Bool) (now : ℕ) where
  process-Has :
      (v u : User) (rest : Run)
      → Has u rest.users
      → Has u (process s may_email cancels now v rest).users
  unfolding process
  process-Has v u rest h = ground arith

  process_spares :
      (v u : User) (rest : Run)
      → is_paused_plan (effective_plan s u now) ≡ false
      → u ≡ v
      → Has u (process s may_email cancels now v rest).users
  unfolding process
  process_spares v u rest active e =
      let spared : is_paused_plan (effective_plan s v now) ≡ false = rw e at active in
      rw spared (inl e)

  process_counts :
      (v : User) (rest : Run)
      → let r = process s may_email cancels now v rest in
        length r.users + r.deleted ≡ suc (length rest.users + rest.deleted)
  unfolding process
  process_counts v rest = ground arith

  loop_counts :
      (users : List User)
      → let r = loop s may_email cancels now users in length r.users + r.deleted ≡ length users
  unfolding loop
  loop_counts [] = refl
  loop_counts (v ∷ vs) =
      process_counts v (loop s may_email cancels now vs) ∙ ap suc (loop_counts vs)

  loop_spares :
      (users : List User) (u : User)
      → is_paused_plan (effective_plan s u now) ≡ false
      → Has u users
      → Has u (loop s may_email cancels now users).users
  unfolding loop
  loop_spares [] u active h = h
  loop_spares (v ∷ vs) u active (inl e) =
      process_spares v u (loop s may_email cancels now vs) active e
  loop_spares (v ∷ vs) u active (inr h) =
      process-Has v u (loop s may_email cancels now vs) (loop_spares vs u active h)

  -- A run touches no account that has a plan or a trial, and counts every row: those that are left and
  -- those that it deleted.
  pub run_spares :
      (users : List User)
      → let r = run s may_email cancels now users in
        ((u : User) → is_paused_plan (effective_plan s u now) ≡ false → Has u users → Has u r.users)
        × (length r.users + r.deleted ≡ length users)
  unfolding run
  run_spares users = elim (Bool-cases (not s.hosted || s.hosted_paused_delete_days == 0)) [
    | inl off ↦ rw off ((λ u active h. h), omega arith)
    | inr on ↦ rw on ((λ u active h. loop_spares users u active h), loop_counts users)
  ]
