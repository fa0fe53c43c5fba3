-- ===== src/Accounts/Types.antt =====
-- Tokens of one type are no tokens of another, though they share a secret: the checks of the claim
-- `type` in backend/app/api/auth.py and backend/app/services/email_verification.py.
use readprism.Prelude.{
  ℕ, ◌≡◌, ◌≢◌, ◌⊎◌, false, refl, ap, true, Option, none, some, inl, inr, Bool-cases,
}
use readprism.Prelude.Text.{Text, codes, text_eq, text_eq_iff}
use readprism.Billing.Account.{Plan}
use readprism.Entitlements.Quotas.{Quota}
use readprism.Accounts.Tokens.{
  Settings, Library, Claims, Decoded, good, expired, malformed, Cache, is_claim, access_secret,
  refresh_secret,
}
use readprism.Accounts.Registration.{Member, Users}
use readprism.Accounts.Replies.{
  Error, ok, http, Visit, token_expired, token_invalid, invalid_type, invalid_link, invalid_refresh,
}
use readprism.Accounts.Sessions.{decode_token, to_claims, check_refresh, check_magic, verify_token}
use readprism.Accounts.Guard.{user_for_jwt, of_claims}

is_claim_text : (o : Option Text) (t : Text) → is_claim o t ≡ true → o ≡ some t
is_claim_text none t h = cc
is_claim_text (some u) t h = ap some ((text_eq_iff u t).0 h)

error-ok : (e : Error) (m : Member) → http e ≢ ok m
error-ok e m eq = cc

module _ (s : Settings) (lib : Library) (hash : Text → Text) (configured : Plan → Quota → Option ℕ)
    (now : ℕ) where
  of_claims_typed :
      (users : Users) (decoded : Decoded) (m : Member)
      → of_claims s lib hash configured now users (to_claims decoded) ≡ ok m
      → (c : Claims) × (decoded ≡ good c) × (c.type ≡ some (codes "access"))
  of_claims_typed users expired m e = absurd (error-ok token_expired m e)
  of_claims_typed users malformed m e = absurd (error-ok token_invalid m e)
  of_claims_typed users (good c) m e = elim (Bool-cases (is_claim c.type (codes "access"))) [
    | inl t ↦ (c, refl, is_claim_text c.type _ t)
    | inr f ↦ absurd (error-ok invalid_type m (rw f at e))
  ]

  -- A token that signs a request in is no sign-in link and no confirmation link, and no refresh token
  -- where the refresh secret is the secret key, as it is unless the instance sets its own.
  pub access_token_apart :
      (token : Text) (users : Users) (m : Member) (v : Visit) (cache : Cache) (users' : Users)
      → user_for_jwt s lib hash configured now token users ≡ ok m
      → v.now ≡ now
      → (check_magic s lib v token cache ≡ http invalid_link)
        × ((verify_token s lib now token users').0 ≡ none)
        × ((text_eq (refresh_secret s) s.secret_key ≡ false)
            ⊎ (check_refresh s lib v (some token) cache ≡ http invalid_refresh))
  unfolding user_for_jwt decode_token check_magic check_refresh verify_token access_secret
  access_token_apart token users m v cache users' e same =
      let (c, decoded, typed) =
        of_claims_typed users (lib.decode s.secret_key token true now) m e in
      (
        rw (same, decoded, typed) refl,
        rw (decoded, typed) refl,
        elim (Bool-cases (text_eq (refresh_secret s) s.secret_key)) [
          | inl shared ↦
              let one = (text_eq_iff (refresh_secret s) s.secret_key).0 shared in
              inr (rw (same, one, decoded, typed) refl)
          | inr own ↦ inl own
        ],
      )
