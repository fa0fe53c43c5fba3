-- ===== src/Billing/Replay.antt =====
-- Webhooks arrive more than once and out of order: what that can and cannot do.
use readprism.Prelude.{ℕ, ◌≡◌, Bool, true}
use readprism.Prelude.Text.{Text}
use readprism.Billing.Account.{Settings}
use readprism.Billing.Events.{BillingUpdate, duplicate, Store, has_key, apply_update}

module _ (enabled : Bool) (s : Settings) (update : BillingUpdate) (now : ℕ) where
  pub apply_update-seen :
      (store : Store)
      → has_key update.key store.events ≡ true
      → apply_update enabled s store update now ≡ (store, duplicate)
  unfolding apply_update
  apply_update-seen store seen = rw seen
