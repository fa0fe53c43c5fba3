-- ===== src/Accounts/SingleUse.antt =====
-- A refresh token and a sign-in link count once: the `jti` that a handler of backend/app/api/auth.py
-- deletes from the cache is not accepted again.
use readprism.Prelude.{ℕ, ◌≡◌, ◌≢◌, true, false, Option, none, some, List, ◌∷◌}
use readprism.Prelude.Text.{Text, text_eq}
use readprism.Accounts.Tokens.{
  Settings, Library, Claims, good, cache_delete, refresh_allowlist_key, magic_key, refresh_secret,
}
use readprism.Accounts.Registration.{by_email}
use readprism.Accounts.Replies.{Visit, Store, ok}
use readprism.Accounts.SignIn.{Passwords}
use readprism.Accounts.Sessions.{
  refresh, logout, magic_link_verify, check_refresh, check_magic, raw_token,
}
use readprism.Accounts.Calls.{Call, run}
use readprism.Accounts.Absent.{reopen_absent, enter_absent}
use readprism.Accounts.Grants.{
  DrawsOther, refresh_key-IsApart, magic_key-IsApart, cache_delete_gone, refused_after,
  link_refused_after,
}

module _ (s : Settings) (lib : Library) (pw : Passwords) where
  rotate_gone :
      (v : Visit) (body cookie : Option Text) (st : Store) (owner jti : Text)
      → check_refresh s lib v (raw_token body cookie) st.cache ≡ ok (owner, jti)
      → v.delete_up ≡ true
      → text_eq jti v.jti ≡ false
      → (refresh s lib v body cookie st).1.cache (refresh_allowlist_key jti) ≡ none
  unfolding refresh
  rotate_gone v body cookie st owner jti e up other =
      let key = refresh_allowlist_key jti in
      let gone : cache_delete v.delete_up st.cache key key ≡ none =
        rw up (cache_delete_gone st.cache key) in
      let apart = refresh_key-IsApart jti v other in
      rw e (reopen_absent s lib pw key v apart st.users _ (lib.read_uuid owner) gone)

  -- A refresh token is accepted once: where the request's deletion reaches Redis and it draws another
  -- `uuid4`, no token of the same jti is accepted after any further requests that draw others.
  pub refresh_once :
      (v : Visit) (body cookie : Option Text) (st : Store) (owner jti : Text)
      (ks : List (Visit × Call)) (w : Visit) (raw : Option Text) (owner' : Text)
      → check_refresh s lib v (raw_token body cookie) st.cache ≡ ok (owner, jti)
      → v.delete_up ≡ true
      → text_eq jti v.jti ≡ false
      → DrawsOther jti ks
      → check_refresh s lib w raw (run s lib pw ks (refresh s lib v body cookie st).1).cache
        ≢ ok (owner', jti)
  refresh_once v body cookie st owner jti ks w raw owner' e up other others =
      refused_after s lib pw jti (refresh s lib v body cookie st).1 ks w raw owner'
        (rotate_gone v body cookie st owner jti e up other) others

  spend_gone :
      (v : Visit) (token : Text) (st : Store) (email jti : Text)
      → check_magic s lib v token st.cache ≡ ok (email, jti)
      → v.delete_up ≡ true
      → text_eq jti v.jti ≡ false
      → (magic_link_verify s lib v token st).1.cache (magic_key jti) ≡ none
  unfolding magic_link_verify
  spend_gone v token st email jti e up other =
      let key = magic_key jti in
      let gone : cache_delete v.delete_up st.cache key key ≡ none =
        rw up (cache_delete_gone st.cache key) in
      let apart = magic_key-IsApart jti v other in
      rw e (enter_absent s lib pw key v apart st _ (by_email st.users email) gone)

  -- A sign-in link is accepted once, under the same conditions.
  pub magic_link_once :
      (v : Visit) (token : Text) (st : Store) (email jti : Text) (ks : List (Visit × Call))
      (w : Visit) (token' email' : Text)
      → check_magic s lib v token st.cache ≡ ok (email, jti)
      → v.delete_up ≡ true
      → text_eq jti v.jti ≡ false
      → DrawsOther jti ks
      → check_magic s lib w token' (run s lib pw ks (magic_link_verify s lib v token st).1).cache
        ≢ ok (email', jti)
  magic_link_once v token st email jti ks w token' email' e up other others =
      link_refused_after s lib pw jti (magic_link_verify s lib v token st).1 ks w token' email'
        (spend_gone v token st email jti e up other) others

  logout_gone :
      (v : Visit) (body cookie : Option Text) (st : Store) (raw : Text) (c : Claims) (k : ℕ)
      (t : Text)
      → raw_token body cookie ≡ some raw
      → lib.decode (refresh_secret s) raw false v.now ≡ good c
      → c.jti ≡ some (k ∷ t)
      → v.delete_up ≡ true
      → (logout s lib v body cookie st).cache (refresh_allowlist_key (k ∷ t)) ≡ none
  unfolding logout
  logout_gone v body cookie st raw c k t there decoded jti up =
      rw (there, decoded, jti, up) (cache_delete_gone st.cache (refresh_allowlist_key (k ∷ t)))

  -- After a sign-out whose deletion reaches Redis, with a token that names the jti and may have
  -- expired, no token of this jti is accepted after any further requests that draw others.
  pub logout_revokes :
      (v : Visit) (body cookie : Option Text) (st : Store) (raw : Text) (c : Claims) (k : ℕ)
      (t : Text) (ks : List (Visit × Call)) (w : Visit) (raw' : Option Text) (owner : Text)
      → raw_token body cookie ≡ some raw
      → lib.decode (refresh_secret s) raw false v.now ≡ good c
      → c.jti ≡ some (k ∷ t)
      → v.delete_up ≡ true
      → DrawsOther (k ∷ t) ks
      → check_refresh s lib w raw' (run s lib pw ks (logout s lib v body cookie st)).cache
        ≢ ok (owner, k ∷ t)
  logout_revokes v body cookie st raw c k t ks w raw' owner there decoded jti up others =
      refused_after s lib pw (k ∷ t) (logout s lib v body cookie st) ks w raw' owner
        (logout_gone v body cookie st raw c k t there decoded jti up) others
