-- ===== src/Billing/Ordering.antt =====
-- Which account an event changes, and that late events never undo newer ones.
use readprism.Prelude.{
  ℕ, ◌≤◌, ◌≡◌, ◌≢◌, refl, ◌∙◌, Bool, false, Option, none, some, List, [], ◌∷◌, inl, inr, arith,
  Bool-cases,
}
use readprism.Billing.Account.{Settings, User, Status}
use readprism.Billing.Events.{
  BillingUpdate, Outcome, applied, duplicate, Store, has_key, decide, commit, target, apply_update,
  put_user, get_user, find_user, find_by_billing, by_id, apply, note_event, by_status, grant,
}

-- Ids are the primary key of `users`.
abbrev pub HasUniqueIds : List User → Type 0
HasUniqueIds [] = Unit
HasUniqueIds (u ∷ us) = (get_user u.id us ≡ none) × HasUniqueIds us

get_user-id : (id : ℕ) (us : List User) {u : User} → get_user id us ≡ some u → u.id ≡ id
unfolding get_user
get_user-id id [] h = cc
get_user-id id (v ∷ us) {u} h = ground (arith, get_user-id id us {u = u})

find_by_billing-get_user :
    (update : BillingUpdate) (us : List User) {u : User}
    → HasUniqueIds us
    → find_by_billing update us ≡ some u
    → get_user u.id us ≡ some u
unfolding find_by_billing get_user
find_by_billing-get_user update [] unique h = cc
find_by_billing-get_user update (v ∷ us) {u} unique h =
    ground (arith, find_by_billing-get_user update us {u = u} unique.1)

by_id-get_user :
    (id : Option ℕ) (us : List User) {u : User} → by_id id us ≡ some u → get_user u.id us ≡ some u
by_id-get_user none us h = cc
by_id-get_user (some id) us {u} h = cc (get_user-id id us h)

find_user-get_user :
    (update : BillingUpdate) (us : List User) {u : User}
    → HasUniqueIds us
    → find_user update us ≡ some u
    → get_user u.id us ≡ some u
unfolding find_user
find_user-get_user update us {u} unique h = ground (
  arith,
  by_id-get_user update.user_id us {u = u},
  find_by_billing-get_user update us {u = u} unique,
)

get_user-put_user_self :
    (user : User) (us : List User)
    → get_user user.id us ≢ none
    → get_user user.id (put_user user us) ≡ some user
unfolding get_user put_user
get_user-put_user_self user [] h = absurd (h refl)
get_user-put_user_self user (v ∷ us) h = ground (arith, get_user-put_user_self user us)

pub get_user-put_user_ne :
    (user : User) (id : ℕ) (us : List User)
    → id ≢ user.id
    → get_user id (put_user user us) ≡ get_user id us
unfolding get_user put_user
get_user-put_user_ne user id [] h = refl
get_user-put_user_ne user id (v ∷ us) h = ground (arith, get_user-put_user_ne user id us h)

pub apply_fields :
    (s : Settings) (update : BillingUpdate) (now : ℕ) (status : Status) (user : User)
    → ((apply s update now status user).id ≡ user.id)
      × ((apply s update now status user).billing_event_at ≡ some update.occurred_at)
      × ((apply s update now status user).billing_status ≡ some status)
unfolding apply note_event by_status grant
apply_fields s update now status user = ground arith

-- An optional moment is no later than another; a missing one is the earliest.
abbrev pub ◌≼◌ : Option ℕ → Option ℕ → Type 0
◌≼◌ none b = Unit
◌≼◌ (some a) none = ⊥
◌≼◌ (some a) (some b) = a ≤ b

infix 4 ◌≼◌
decide-applied :
    (status : Option Status) (user : Option User) (at : ℕ)
    → decide status user at ≡ applied
    → (st : Status) × (u : User) × (status ≡ some st)
      × (user ≡ some u)
      × (u.billing_event_at ≼ some at)
unfolding decide
decide-applied none user at h = cc
decide-applied (some st) none at h = cc
decide-applied (some st) (some u) at h = (st, u, refl, refl, ground arith)

module _ (enabled : Bool) (s : Settings) (update : BillingUpdate) (now : ℕ) where
  commit-not_applied :
      (status : Option Status) (user : Option User) (outcome : Outcome) (st : Store)
      → outcome ≢ applied
      → commit enabled s update now status user outcome st ≡ st
  unfolding commit
  commit-not_applied none user outcome st h = refl
  commit-not_applied (some status) none outcome st h = refl
  commit-not_applied (some status) (some user) applied st h = absurd (h refl)
  commit-not_applied (some status) (some user) outcome st h = refl

  commit-users :
      (status : Status) (user : User) (st : Store)
      → (commit enabled s update now (some status) (some user) applied st).users
        ≡ put_user (apply s update now status user) st.users
  unfolding commit
  commit-users status user st = refl

  commit-applied :
      (status : Option Status) (user : Option User) (outcome : Outcome) (st : Store) {t : Status}
      {u : User}
      → status ≡ some t
      → user ≡ some u
      → outcome ≡ applied
      → (commit enabled s update now status user outcome st).users
        ≡ put_user (apply s update now t u) st.users
  commit-applied status user outcome st {t} {u} es eu eo = cc (commit-users t u st)

  target-get_user :
      (us : List User) {t : Status} {u : User}
      → HasUniqueIds us
      → update.status ≡ some t
      → target update us ≡ some u
      → get_user u.id us ≡ some u
  unfolding target
  target-get_user us {t} {u} unique es eu =
      find_user-get_user update us unique (of_status update.status es eu)
    where
      of_status :
          (o : Option Status)
          → o ≡ some t
          → (elim o [ none ↦ none | some status ↦ find_user update us ]) ≡ some u
          → find_user update us ≡ some u
      of_status none e h = cc
      of_status (some status) e h = h

  apply_update-fresh :
      (store : Store)
      → (apply_update enabled s store update now).1 ≡ applied
      → (has_key update.key store.events ≡ false)
        × (decide update.status (target update store.users) update.occurred_at ≡ applied)
  unfolding apply_update
  apply_update-fresh store h = elim (Bool-cases (has_key update.key store.events)) [
    | inl seen ↦ let impossible : duplicate ≡ applied = rw seen at h in cc
    | inr fresh ↦ (fresh, rw fresh at h)
  ]

  apply_update-users :
      (store : Store) {t : Status} {u : User}
      → has_key update.key store.events ≡ false
      → update.status ≡ some t
      → target update store.users ≡ some u
      → decide update.status (target update store.users) update.occurred_at ≡ applied
      → (apply_update enabled s store update now).0.users
        ≡ put_user (apply s update now t u) store.users
  unfolding apply_update
  apply_update-users store fresh es eu done =
      rw fresh (commit-applied update.status _ _ _ es eu done)

  written :
      (store : Store) {t : Status} {u : User} {users' : List User}
      → HasUniqueIds store.users
      → update.status ≡ some t
      → target update store.users ≡ some u
      → users' ≡ put_user (apply s update now t u) store.users
      → (get_user u.id users' ≡ some (apply s update now t u))
        × ((id : ℕ) → id ≢ u.id → get_user id users' ≡ get_user id store.users)
  written store {t} {u} unique es eu put =
      let new = apply s update now t u in
      let (same_id, _, _) = apply_fields s update now t u in
      let own = target-get_user store.users unique es eu in
      let found : get_user new.id store.users ≢ none = λ missing. cc in
      (
        cc (get_user-put_user_self new store.users found),
        λ id ne. rw put (get_user-put_user_ne new id store.users (λ e. ne (e ∙ same_id))),
      )

  -- An applied event writes one row.
  pub apply_update-put_user :
      (store : Store)
      → (apply_update enabled s store update now).1 ≡ applied
      → (v : User) × ((apply_update enabled s store update now).0.users ≡ put_user v store.users)
  apply_update-put_user store h =
      let (fresh, done) = apply_update-fresh store h in
      let (status, u, es, eu, late) = decide-applied update.status _ update.occurred_at done in
      (apply s update now status u, apply_update-users store fresh es eu done)

  -- An outcome other than "applied" changes no account and records no product event.
  pub apply_update_refused :
      (store : Store)
      → let r = apply_update enabled s store update now in
        r.1 ≢ applied → (r.0.users ≡ store.users) × (r.0.product_events ≡ store.product_events)
  unfolding apply_update
  apply_update_refused store h = elim (Bool-cases (has_key update.key store.events)) [
    | inl seen ↦ rw seen (refl, refl)
    | inr fresh ↦ rw fresh (rw (commit-not_applied _ _ _ _ (rw fresh at h)) (refl, refl))
  ]

  -- An applied event changes exactly one account, by `_apply`: the one that `_find_user` found, whose
  -- newest event so far is no newer than this one.
  pub apply_update_applied :
      (store : Store)
      → HasUniqueIds store.users
      → (apply_update enabled s store update now).1 ≡ applied
      → let users' = (apply_update enabled s store update now).0.users in
        (status : Status) × (u : User) × (update.status ≡ some status)
        × (get_user u.id store.users ≡ some u)
        × (u.billing_event_at ≼ some update.occurred_at)
        × (get_user u.id users' ≡ some (apply s update now status u))
        × ((id : ℕ) → id ≢ u.id → get_user id users' ≡ get_user id store.users)
  unfolding apply_update
  apply_update_applied store unique h =
      let (fresh, done) = apply_update-fresh store h in
      let (status, u, es, eu, late) = decide-applied update.status _ update.occurred_at done in
      let (own, others) = written store unique es eu (apply_update-users store fresh es eu done) in
      (status, u, es, target-get_user store.users unique es eu, late, own, others)
