-- ===== src/Billing/Deliveries.antt =====
-- A whole sequence of deliveries, in whatever order the provider sends them.
use mathlib.Core.Option.{some-injective}
use mathlib.Core.Path.{subst}
use native.Mathlib.Decide.{ℕ_discrete}
use native.Mathlib.Nat.{le_refl, le_trans}
use readprism.Prelude.{
  ℕ, ◌≡◌, ◌≢◌, refl, sym, ap, ◌∙◌, Bool, Option, none, some, List, [], ◌∷◌, ◌⊎◌, inl, inr, arith,
}
use readprism.Billing.Account.{Settings, User}
use readprism.Billing.Events.{
  BillingUpdate, Outcome, applied, duplicate, stale, ignored, unknown_user, Store, apply_update,
  put_user, get_user, apply,
}
use readprism.Billing.Ordering.{
  HasUniqueIds, ◌≼◌, apply_fields, apply_update_refused, apply_update_applied,
  apply_update-put_user, get_user-put_user_ne,
}

Outcome-cases : (o : Outcome) → (o ≡ applied) ⊎ (o ≢ applied)
Outcome-cases applied = inl refl
Outcome-cases duplicate = inr (λ e. cc)
Outcome-cases stale = inr (λ e. cc)
Outcome-cases ignored = inr (λ e. cc)
Outcome-cases unknown_user = inr (λ e. cc)

≼-refl : (a : Option ℕ) → a ≼ a
≼-refl none = tt
≼-refl (some a) = le_refl a

≼-trans : (a b c : Option ℕ) → a ≼ b → b ≼ c → a ≼ c
≼-trans none b c p q = tt
≼-trans (some a) none c p q = absurd p
≼-trans (some a) (some b) none p q = absurd q
≼-trans (some a) (some b) (some c) p q = le_trans p q

HasUniqueIds-put_user :
    (user : User) (us : List User) → HasUniqueIds us → HasUniqueIds (put_user user us)
unfolding put_user
HasUniqueIds-put_user user [] h = h
HasUniqueIds-put_user user (v ∷ us) h =
    ground (arith, HasUniqueIds-put_user user us h.1, get_user-put_user_ne user v.id us)

≼-same :
    (u w v : User) (at : ℕ)
    → some u ≡ some w
    → w.billing_event_at ≼ some at
    → v.billing_event_at ≡ some at
    → u.billing_event_at ≼ v.billing_event_at
≼-same u w v at e late new =
    subst (λ x. x.billing_event_at ≼ v.billing_event_at) (sym (some-injective _ _ e))
      (subst (λ y. w.billing_event_at ≼ y) (sym new) late)

module _ (enabled : Bool) (s : Settings) where
  -- The account keeps its row, and the time of its newest event does not go back.
  abbrev pub Advances : ℕ → User → List User → Type 0
  Advances id u users =
      (v : User) × (get_user id users ≡ some v) × (u.billing_event_at ≼ v.billing_event_at)

  apply_update-Advances :
      (store : Store) (update : BillingUpdate) (now id : ℕ) {u : User}
      → HasUniqueIds store.users
      → get_user id store.users ≡ some u
      → Advances id u (apply_update enabled s store update now).0.users
  apply_update-Advances store update now id {u} unique h =
      elim (Outcome-cases (apply_update enabled s store update now).1) [
        | inr refused ↦
            let (same, _) = apply_update_refused enabled s update now store refused in
            (u, rw same h, ≼-refl u.billing_event_at)
        | inl done ↦
            let (status, w, es, own, late, new, others) =
              apply_update_applied enabled s update now store unique done in
            elim (ℕ_discrete id w.id) [
              | yes e ↦
                  let (_, at, _) = apply_fields s update now status w in
                  let same : some u ≡ some w = sym h ∙ ap (λ k. get_user k store.users) e ∙ own in
                  (
                    apply s update now status w,
                    ap (λ k. get_user k (apply_update enabled s store update now).0.users) e ∙ new,
                    ≼-same u w (apply s update now status w) update.occurred_at same late at,
                  )
              | no ne ↦ (u, others id ne ∙ h, ≼-refl u.billing_event_at)
            ]
      ]

  apply_update-HasUniqueIds :
      (store : Store) (update : BillingUpdate) (now : ℕ)
      → HasUniqueIds store.users
      → HasUniqueIds (apply_update enabled s store update now).0.users
  apply_update-HasUniqueIds store update now unique =
      elim (Outcome-cases (apply_update enabled s store update now).1) [
        | inr refused ↦ rw ((apply_update_refused enabled s update now store refused).0) unique
        | inl done ↦
            let (v, put) = apply_update-put_user enabled s update now store done in
            rw put (HasUniqueIds-put_user v store.users unique)
      ]

  -- The deliveries in the order in which they arrive, each with the time of its arrival.
  pub deliver : Store → List (BillingUpdate × ℕ) → Store
  deliver store [] = store
  deliver store ((update, now) ∷ rest) = deliver (apply_update enabled s store update now).0 rest

  -- However deliveries are delayed, repeated or reordered, no account is lost, ids stay unique, and the
  -- newest event applied to an account is never replaced by an older one.
  pub deliver-Advances :
      (store : Store) (deliveries : List (BillingUpdate × ℕ)) (id : ℕ) {u : User}
      → HasUniqueIds store.users
      → get_user id store.users ≡ some u
      → Advances id u (deliver store deliveries).users
        × HasUniqueIds (deliver store deliveries).users
  unfolding deliver
  deliver-Advances store [] id {u} unique h = ((u, h, ≼-refl u.billing_event_at), unique)
  deliver-Advances store ((update, now) ∷ rest) id {u} unique h =
      let (v, found, newer) = apply_update-Advances store update now id unique h in
      let (last, unique') =
        deliver-Advances (apply_update enabled s store update now).0 rest id
          (apply_update-HasUniqueIds store update now unique) found in
      ((last.0, last.1, ≼-trans _ _ _ newer last.2), unique')
