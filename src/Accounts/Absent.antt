-- ===== src/Accounts/Absent.antt =====
-- What each step leaves of a key of the cache that it does not write.
use readprism.Prelude.{
  if◌then◌else◌, is_some, ℕ, ◌*◌, ◌≡◌, inl, inr, Bool, true, false, Option, none, some, List, [],
  ◌∷◌, arith, Bool-cases, Option-cases,
}
use readprism.Prelude.Text.{Text, codes, text_eq, lower}
use readprism.Accounts.Tokens.{
  Settings, Library, Decoded, good, expired, malformed, refresh_secret, Cache, cache_set,
  cache_delete, refresh_allowlist_key, magic_key, create_refresh_token, create_magic_token,
}
use readprism.Accounts.Registration.{Member, Users, id_of, by_id, by_email}
use readprism.Accounts.Replies.{Visit, Store, Reply, ok, http}
use readprism.Accounts.SignIn.{
  UserCreate, Passwords, demo_login, enter_demo, register, login, log_in, hash_of,
  magic_link_request, open_session, register_error,
}
use readprism.Accounts.Sessions.{
  refresh, logout, magic_link_verify, resend_verification, check_refresh, check_magic, cache_set_nx,
  resend_key, raw_token, revoke_jti, revoke, revoke_raw, enter, spend_link, reopen, rotate,
}
use readprism.Accounts.Calls.{
  Call, registers, logs_in, enters_demo, asks_link, uses_link, refreshes, logs_out, confirms,
  resends, resent, step, run,
}

-- A key that the request writes in no case.
pub record IsApart (key : Text) (v : Visit) : Type 0 where
  pub of_session : text_eq key (refresh_allowlist_key v.jti) ≡ false
  pub of_link : text_eq key (magic_key v.jti) ≡ false
  pub of_resend : (t : Text) → text_eq key (resend_key t) ≡ false

-- A run of requests that are apart from the key.
unfoldable pub AllApart : Text → List (Visit × Call) → Type 0
AllApart key [] = Unit
AllApart key ((v, k) ∷ ks) = IsApart key v × AllApart key ks

module _ (s : Settings) (lib : Library) (pw : Passwords) where
  module _ (key : Text) where
    -- A write of another key, and any deletion, leave an absent key absent.
    cache_set_absent :
        (up : Bool) (cache : Cache) (now : ℕ) (other value : Text) (ttl : ℕ)
        → text_eq key other ≡ false
        → cache key ≡ none
        → cache_set up cache now other value ttl key ≡ none
    unfolding cache_set
    cache_set_absent up cache now other value ttl apart h = ground arith

    pub cache_delete_absent :
        (up : Bool) (cache : Cache) (other : Text)
        → cache key ≡ none
        → cache_delete up cache other key ≡ none
    unfolding cache_delete
    cache_delete_absent up cache other h = ground arith

    cache_set_nx_absent :
        (up : Bool) (cache : Cache) (now : ℕ) (other value : Text) (ttl : ℕ)
        → text_eq key other ≡ false
        → cache key ≡ none
        → (cache_set_nx up cache now other value ttl).1 key ≡ none
    unfolding cache_set_nx
    cache_set_nx_absent up cache now other value ttl apart h =
        ground (arith, cache_set_absent true cache now other value ttl apart h)

    module _ (v : Visit) (apart : IsApart key v) where
      open_session_absent :
          (u : ℕ) (sid : Option Text) (cache : Cache)
          → cache key ≡ none
          → (open_session s lib v u sid cache).1 key ≡ none
      unfolding open_session create_refresh_token
      open_session_absent u sid cache h =
          let set =
            cache_set_absent v.set_up cache v.now (refresh_allowlist_key v.jti) (lib.show_uuid u)
              (s.refresh_token_expire_days * 86_400) apart.of_session h in
          elim (Bool-cases v.wants_cookies) [ inl w ↦ rw w set | inr w ↦ rw w set ]

      magic_absent :
          (email : Text) (cache : Cache)
          → cache key ≡ none
          → (create_magic_token s lib email v.jti v.set_up cache v.now).1 key ≡ none
      unfolding create_magic_token
      magic_absent email cache h =
          cache_set_absent v.set_up cache v.now (magic_key v.jti) email
            (s.magic_link_expire_minutes * 60) apart.of_link h

      register_absent :
          (body : UserCreate) (st : Store)
          → st.cache key ≡ none
          → (register s lib pw v body st).0.1.cache key ≡ none
      unfolding register
      register_absent body st h =
          let opened = open_session_absent v.new_id none st.cache h in
          elim (Option-cases (register_error s lib pw v body st.users)) [
            | inl e ↦ rw (e, register) opened
            | inr (r, e) ↦ rw (e, register) h
          ]

      log_in_absent :
          (st : Store) (found : Option Member) (password_ok : Bool)
          → st.cache key ≡ none
          → (log_in s lib pw v st found password_ok).1.cache key ≡ none
      log_in_absent st none password_ok h = h
      log_in_absent st (some m) true h = open_session_absent (id_of m) none st.cache h
      log_in_absent st (some m) false h = h

      login_absent :
          (email password : Text) (st : Store)
          → st.cache key ≡ none
          → (login s lib pw v email password st).1.cache key ≡ none
      unfolding login
      login_absent email password st h =
          let user = by_email st.users email in
          log_in_absent st user (pw.check password (hash_of s lib pw user)) h

      enter_demo_absent :
          (session_id : Text) (users : Users) (cache : Cache) (found : Option Member)
          → cache key ≡ none
          → (enter_demo s lib pw v session_id users cache found).1.cache key ≡ none
      enter_demo_absent session_id users cache none h = h
      enter_demo_absent session_id users cache (some m) h =
          open_session_absent (id_of m) (some session_id) cache h

      demo_login_absent :
          (email session_id : Text) (seed : Users → Users) (st : Store)
          → st.cache key ≡ none
          → (demo_login s lib pw v email session_id seed st).1.cache key ≡ none
      unfolding demo_login
      demo_login_absent email session_id seed st h =
          let users = if is_some (by_email st.users email) then st.users else seed st.users in
          elim (Bool-cases s.demo_mode) [
            | inl t ↦ rw t (enter_demo_absent session_id users st.cache (by_email users email) h)
            | inr f ↦ rw f h
          ]

      magic_link_request_absent :
          (email : Text) (name : Option Text) (accept_terms : Bool) (password : Text) (st : Store)
          → st.cache key ≡ none
          → (magic_link_request s lib pw v email name accept_terms password st).0.1.cache key ≡ none
      unfolding magic_link_request
      magic_link_request_absent email name accept_terms password st h =
          ground (arith, magic_absent (lower email) st.cache h)

      pub enter_absent :
          (st : Store) (cache : Cache) (found : Option Member)
          → cache key ≡ none
          → (enter s lib v st cache found).1.cache key ≡ none
      enter_absent st cache none h = h
      enter_absent st cache (some m) h = open_session_absent (id_of m) none cache h

      spend_link_absent :
          (st : Store) (grant : Reply (Text × Text))
          → st.cache key ≡ none
          → (spend_link s lib v st grant).1.cache key ≡ none
      spend_link_absent st (http e) h = h
      spend_link_absent st (ok (email, jti)) h =
          enter_absent st _ (by_email st.users email)
            (cache_delete_absent v.delete_up st.cache (magic_key jti) h)

      magic_link_verify_absent :
          (token : Text) (st : Store)
          → st.cache key ≡ none
          → (magic_link_verify s lib v token st).1.cache key ≡ none
      unfolding magic_link_verify
      magic_link_verify_absent token st h =
          spend_link_absent st (check_magic s lib v token st.cache) h

      pub reopen_absent :
          (users : Users) (cache : Cache) (owner : Option ℕ)
          → cache key ≡ none
          → (reopen s lib v users cache owner).1.cache key ≡ none
      reopen_absent users cache none h = h
      reopen_absent users cache (some u) h = open_session_absent u none cache h

      rotate_absent :
          (st : Store) (grant : Reply (Text × Text))
          → st.cache key ≡ none
          → (rotate s lib v st grant).1.cache key ≡ none
      rotate_absent st (http e) h = h
      rotate_absent st (ok (owner, jti)) h =
          reopen_absent st.users _ (lib.read_uuid owner)
            (cache_delete_absent v.delete_up st.cache (refresh_allowlist_key jti) h)

      refresh_absent :
          (body cookie : Option Text) (st : Store)
          → st.cache key ≡ none
          → (refresh s lib v body cookie st).1.cache key ≡ none
      unfolding refresh
      refresh_absent body cookie st h =
          rotate_absent st (check_refresh s lib v (raw_token body cookie) st.cache) h

      revoke_jti_absent :
          (cache : Cache) (jti : Option Text)
          → cache key ≡ none
          → revoke_jti s lib v cache jti key ≡ none
      revoke_jti_absent cache none h = h
      revoke_jti_absent cache (some []) h = h
      revoke_jti_absent cache (some (c ∷ t)) h =
          cache_delete_absent v.delete_up cache (refresh_allowlist_key (c ∷ t)) h

      revoke_absent :
          (cache : Cache) (decoded : Decoded)
          → cache key ≡ none
          → revoke s lib v cache decoded key ≡ none
      revoke_absent cache (good c) h = revoke_jti_absent cache c.jti h
      revoke_absent cache expired h = h
      revoke_absent cache malformed h = h

      revoke_raw_absent :
          (cache : Cache) (raw : Option Text)
          → cache key ≡ none
          → revoke_raw s lib v cache raw key ≡ none
      revoke_raw_absent cache none h = h
      revoke_raw_absent cache (some raw) h =
          revoke_absent cache (lib.decode (refresh_secret s) raw false v.now) h

      logout_absent :
          (body cookie : Option Text) (st : Store)
          → st.cache key ≡ none
          → (logout s lib v body cookie st).cache key ≡ none
      unfolding logout
      logout_absent body cookie st h = revoke_raw_absent st.cache (raw_token body cookie) h

      resend_absent :
          (m : Member) (cache : Cache)
          → cache key ≡ none
          → (resend_verification s lib v m cache).0 key ≡ none
      unfolding resend_verification
      resend_absent m cache h =
          let set =
            cache_set_nx_absent v.set_up cache v.now (resend_key (lib.show_uuid (id_of m)))
              (codes "1") 300 (apart.of_resend (lib.show_uuid (id_of m))) h in
          ground (arith, set)

      resent_absent :
          (st : Store) (found : Option Member)
          → st.cache key ≡ none
          → (resent s lib pw v st found).cache key ≡ none
      resent_absent st none h = h
      resent_absent st (some m) h = resend_absent m st.cache h

      pub step_absent :
          (k : Call) (st : Store) → st.cache key ≡ none → (step s lib pw v k st).cache key ≡ none
      unfolding step
      step_absent (registers body) st h = register_absent body st h
      step_absent (logs_in email password) st h = login_absent email password st h
      step_absent (enters_demo email session_id seed) st h =
          demo_login_absent email session_id seed st h
      step_absent (asks_link email name accept_terms password) st h =
          magic_link_request_absent email name accept_terms password st h
      step_absent (uses_link token) st h = magic_link_verify_absent token st h
      step_absent (refreshes body cookie) st h = refresh_absent body cookie st h
      step_absent (logs_out body cookie) st h = logout_absent body cookie st h
      step_absent (confirms token) st h = h
      step_absent (resends u) st h = resent_absent st (by_id st.users u) h

    pub run_absent :
        (ks : List (Visit × Call)) (st : Store)
        → AllApart key ks
        → st.cache key ≡ none
        → (run s lib pw ks st).cache key ≡ none
    unfolding run AllApart
    run_absent [] st apart h = h
    run_absent ((v, k) ∷ ks) st (apart, rest) h =
        run_absent ks (step s lib pw v k st) rest (step_absent v apart k st h)
