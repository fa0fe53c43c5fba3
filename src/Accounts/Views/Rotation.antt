-- ===== src/Accounts/Views/Rotation.antt =====
-- The handlers `refresh` and `logout` of backend/app/api/auth.py, seen as steps of the two registries.
use readprism.Prelude.{
  ℕ, ◌≡◌, refl, ap, ◌∙◌, true, false, Option, none, some, [], ◌∷◌, inl, inr, Bool-cases,
}
use readprism.Prelude.Text.{Text, codes}
use readprism.Accounts.Tokens.{
  Settings, Library, Decoded, good, expired, malformed, Cache, cache_get, is_claim, refresh_secret,
  refresh_allowlist_key,
}
use readprism.Accounts.Registration.{Users}
use readprism.Accounts.Replies.{Visit, Store, invalid_refresh, refresh_revoked}
use readprism.Accounts.SignIn.{Passwords}
use readprism.Accounts.Sessions.{
  refresh, logout, check_refresh, raw_token, revoke_jti, revoke, revoke_raw, reopen, rotate, both,
  check_record, refresh_grant, to_claims, decode_token,
}
use readprism.Accounts.Calls.{refreshes, logs_out}
use readprism.Accounts.Registry
use readprism.Accounts.Registry.{
  Ledger, Grants, grant, holds, named_by, spend, begin, invite_by, begin_for, after_refresh,
  begin_verified, after_link, begin_signed_up, begin_checked, spend_raw, ledger_step, ledger_run,
}
use readprism.Accounts.Views.{view, IsUp, view-open_session, view-delete_session}

module _ (s : Settings) (lib : Library) (pw : Passwords) where
  module _ (v : Visit) (up : IsUp v) where
    view-reopen :
        (users : Users) (cache : Cache) (owner : Option ℕ)
        → view (reopen s lib v users cache owner).1
          ≡ begin_for s lib pw v owner (view (record { users = users; cache = cache }))
    view-reopen users cache none = refl
    view-reopen users cache (some u) = view-open_session s lib pw v up users u none cache

    session_live :
        (st : Store) (jti owner : Text)
        → is_claim (cache_get v.get_up st.cache v.now (refresh_allowlist_key jti)) owner
          ≡ holds (view st).sessions v.now jti owner
    unfolding view cache_get holds
    session_live st jti owner = rw up.gets refl

    view-rotate_record :
        (st : Store) (found : Option (Text × Text))
        → view
            (rotate s lib v st (
              check_record s lib invalid_refresh v st.cache refresh_allowlist_key found
                refresh_revoked)).1
          ≡ after_refresh s lib pw v (view st) (spend (view st).sessions v.now found)
    view-rotate_record st none = refl
    view-rotate_record st (some (owner, jti)) =
        let live = session_live st jti owner in
        elim (Bool-cases (holds (view st).sessions v.now jti owner)) [
          | inl t ↦
              let deleted =
                ap (begin_for s lib pw v (lib.read_uuid owner))
                  (view-delete_session s lib pw v up st jti) in
              rw (live ∙ t, t) (view-reopen st.users _ (lib.read_uuid owner) ∙ deleted)
          | inr f ↦ rw (live ∙ f, f) refl
        ]

    view-rotate :
        (st : Store) (decoded : Decoded)
        → view (rotate s lib v st (refresh_grant s lib v st.cache (to_claims decoded))).1
          ≡ after_refresh s lib pw v
              (view st)
              (spend (view st).sessions v.now (named_by (codes "refresh") (λ c. c.sub) decoded))
    view-rotate st expired = refl
    view-rotate st malformed = refl
    view-rotate st (good c) = elim (Bool-cases (is_claim c.type (codes "refresh"))) [
      | inl t ↦ rw t (view-rotate_record st (both c.sub c.jti))
      | inr f ↦ rw f refl
    ]

    view-rotate_raw :
        (st : Store) (raw : Option Text)
        → view (rotate s lib v st (check_refresh s lib v raw st.cache)).1
          ≡ after_refresh s lib pw v (view st) (spend_raw s lib pw v (view st).sessions raw)
    unfolding check_refresh decode_token
    view-rotate_raw st none = refl
    view-rotate_raw st (some raw) = view-rotate st (lib.decode (refresh_secret s) raw true v.now)

    pub view-refresh :
        (body cookie : Option Text) (st : Store)
        → view (refresh s lib v body cookie st).1
          ≡ ledger_step s lib pw v (refreshes body cookie) (view st)
    unfolding refresh ledger_step
    view-refresh body cookie st = view-rotate_raw st (raw_token body cookie)

    view-revoke_jti :
        (st : Store) (jti : Option Text)
        → view (record st { cache = revoke_jti s lib v st.cache jti })
          ≡ record (view st) { sessions = Registry.revoke_jti (view st).sessions jti }
    view-revoke_jti st none = refl
    view-revoke_jti st (some []) = refl
    view-revoke_jti st (some (k ∷ t)) = view-delete_session s lib pw v up st (k ∷ t)

    view-revoke :
        (st : Store) (decoded : Decoded)
        → view (record st { cache = revoke s lib v st.cache decoded })
          ≡ record (view st) { sessions = Registry.revoke_named (view st).sessions decoded }
    view-revoke st (good c) = view-revoke_jti st c.jti
    view-revoke st expired = refl
    view-revoke st malformed = refl

    view-revoke_raw :
        (st : Store) (raw : Option Text)
        → view (record st { cache = revoke_raw s lib v st.cache raw })
          ≡ record (view st) { sessions = Registry.revoke_raw s lib pw v (view st).sessions raw }
    view-revoke_raw st none = refl
    view-revoke_raw st (some raw) = view-revoke st (lib.decode (refresh_secret s) raw false v.now)

    pub view-logout :
        (body cookie : Option Text) (st : Store)
        → view (logout s lib v body cookie st)
          ≡ ledger_step s lib pw v (logs_out body cookie) (view st)
    unfolding logout ledger_step
    view-logout body cookie st = view-revoke_raw st (raw_token body cookie)
