-- ===== src/Accounts/Views.antt =====
-- The store of backend/app/api/auth.py seen as two registries, and what a session that starts or a grant
-- that is deleted does to that view.
pub mod Rotation
pub mod Entry
use readprism.Prelude.{
  ℕ, ◌≡◌, refl, ap, ◌∙◌, Bool, true, false, Option, none, some, [], ◌∷◌, ◌++◌, inl, inr, is_some,
  Bool-cases,
}
use readprism.Prelude.Text.{Text, codes, lower}
use readprism.Accounts.Tokens.{
  Settings, Library, Decoded, good, expired, malformed, Cache, cache_get, cache_set, cache_delete,
  is_claim, refresh_secret, refresh_allowlist_key, magic_key, create_refresh_token,
  create_magic_token,
}
use readprism.Accounts.Registration.{Member, Users, id_of, by_email}
use readprism.Accounts.Replies.{
  Visit, Store, Error, invalid_refresh, refresh_revoked, invalid_link, link_used,
}
use readprism.Accounts.SignIn.{
  UserCreate, Passwords, register, enroll, login, log_in, hash_of, magic_link_request, open_session,
  register_error, magic_link_error,
}
use readprism.Accounts.Sessions.{
  refresh, logout, magic_link_verify, resend_verification, check_refresh, check_magic, cache_set_nx,
  resend_key, raw_token, revoke_jti, revoke, revoke_raw, enter, spend_link, reopen, rotate, both,
  check_record, refresh_grant, magic_grant, to_claims, decode_token,
}
use readprism.Accounts.Calls.{registers, logs_in, asks_link, uses_link, refreshes, logs_out, resent}
use readprism.Accounts.Registry
use readprism.Accounts.Registry.{
  Ledger, Grants, grant, holds, named_by, spend, begin, invite_by, begin_for, after_refresh,
  begin_verified, after_link, begin_signed_up, begin_checked, spend_raw, ledger_step, ledger_run,
}

-- What the store says of the two registries.
unfoldable pub view : Store → Ledger
view st = record {
  users = st.users;
  sessions = λ jti. st.cache (refresh_allowlist_key jti);
  links = λ jti. st.cache (magic_key jti);
}

-- Redis answers every call of the request.
pub record IsUp (v : Visit) : Type 0 where
  pub gets : v.get_up ≡ true
  pub sets : v.set_up ≡ true
  pub deletes : v.delete_up ≡ true

module _ (s : Settings) (lib : Library) (pw : Passwords) where
  module _ (v : Visit) (up : IsUp v) where
    pub view-open_session :
        (users : Users) (u : ℕ) (sid : Option Text) (cache : Cache)
        → view (record { users = users; cache = (open_session s lib v u sid cache).1 })
          ≡ begin s lib pw v u (view (record { users = users; cache = cache }))
    unfolding view open_session create_refresh_token cache_set grant refresh_allowlist_key magic_key
    view-open_session users u sid cache = elim (Bool-cases v.wants_cookies) [
      | inl w ↦ rw (w, up.sets) refl
      | inr w ↦ rw (w, up.sets) refl
    ]

    pub view-delete_session :
        (st : Store) (jti : Text)
        → view (record {
          users = st.users;
          cache = cache_delete v.delete_up st.cache (refresh_allowlist_key jti);
        })
          ≡ record (view st) { sessions = Registry.revoke (view st).sessions jti }
    unfolding view cache_delete refresh_allowlist_key magic_key Registry.revoke
    view-delete_session st jti = rw up.deletes refl

    pub view-delete_link :
        (st : Store) (jti : Text)
        → view
            (record { users = st.users; cache = cache_delete v.delete_up st.cache (magic_key jti) })
          ≡ record (view st) { links = Registry.revoke (view st).links jti }
    unfolding view cache_delete refresh_allowlist_key magic_key Registry.revoke
    view-delete_link st jti = rw up.deletes refl
