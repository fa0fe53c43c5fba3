-- ===== src/Accounts/Views/Entry.antt =====
-- The handlers of backend/app/api/auth.py that let a user in, and the mails they send, seen as steps of
-- the two registries.
use readprism.Prelude.{
  if◌then◌else◌, ℕ, ◌≡◌, refl, ap, ◌∙◌, Bool, true, false, Option, none, some, [], ◌∷◌, ◌++◌, inl,
  inr, is_some, Bool-cases,
}
use readprism.Prelude.Text.{Text, codes, lower}
use readprism.Accounts.Tokens.{
  Settings, Library, Decoded, good, expired, malformed, Cache, cache_get, cache_set, is_claim,
  refresh_allowlist_key, magic_key, create_magic_token,
}
use readprism.Accounts.Registration.{Member, Users, id_of, by_email}
use readprism.Accounts.Replies.{Visit, Store, Error, invalid_link, link_used}
use readprism.Accounts.SignIn.{
  UserCreate, Passwords, demo_login, enter_demo, register, enroll, login, log_in, hash_of,
  magic_link_request, register_error, magic_link_error,
}
use readprism.Accounts.Sessions.{
  magic_link_verify, resend_verification, check_magic, cache_set_nx, resend_key, enter, spend_link,
  both, check_record, magic_grant, to_claims, decode_token,
}
use readprism.Accounts.Calls.{registers, logs_in, enters_demo, asks_link, uses_link, resent}
use readprism.Accounts.Registry.{
  grant, holds, named_by, spend, invite_by, begin_verified, after_link, begin_signed_up,
  begin_checked, begin_known, ledger_step,
}
use readprism.Accounts.Views.{view, IsUp, view-open_session, view-delete_link}

module _ (s : Settings) (lib : Library) (pw : Passwords) where
  module _ (v : Visit) (up : IsUp v) where
    view-enter :
        (st : Store) (cache : Cache) (found : Option Member)
        → view (enter s lib v st cache found).1
          ≡ begin_verified s lib pw v found (view (record { users = st.users; cache = cache }))
    unfolding view
    view-enter st cache none = refl
    view-enter st cache (some m) = view-open_session s lib pw v up _ (id_of m) none cache

    link_live :
        (st : Store) (jti owner : Text)
        → is_claim (cache_get v.get_up st.cache v.now (magic_key jti)) owner
          ≡ holds (view st).links v.now jti owner
    unfolding view cache_get holds
    link_live st jti owner = rw up.gets refl

    view-spend_record :
        (st : Store) (found : Option (Text × Text))
        → view
            (spend_link s lib v st
              (check_record s lib invalid_link v st.cache magic_key found link_used)).1
          ≡ after_link s lib pw v (view st) (spend (view st).links v.now found)
    unfolding view
    view-spend_record st none = refl
    view-spend_record st (some (email, jti)) =
        let live = link_live st jti email in
        let found = by_email st.users email in
        elim (Bool-cases (holds (view st).links v.now jti email)) [
          | inl t ↦
              let deleted =
                ap (begin_verified s lib pw v found) (view-delete_link s lib pw v up st jti) in
              rw (live ∙ t, t) (view-enter st _ found ∙ deleted)
          | inr f ↦ rw (live ∙ f, f) refl
        ]

    view-spend_link :
        (st : Store) (decoded : Decoded)
        → view (spend_link s lib v st (magic_grant s lib v st.cache (to_claims decoded))).1
          ≡ after_link s lib pw v
              (view st)
              (spend (view st).links v.now (named_by (codes "magic") (λ c. c.email) decoded))
    view-spend_link st expired = refl
    view-spend_link st malformed = refl
    view-spend_link st (good c) = elim (Bool-cases (is_claim c.type (codes "magic"))) [
      | inl t ↦ rw t (view-spend_record st (both c.email c.jti))
      | inr f ↦ rw f refl
    ]

    pub view-magic_link_verify :
        (token : Text) (st : Store)
        → view (magic_link_verify s lib v token st).1
          ≡ ledger_step s lib pw v (uses_link token) (view st)
    unfolding magic_link_verify check_magic decode_token ledger_step
    view-magic_link_verify token st = view-spend_link st (lib.decode s.secret_key token true v.now)

    view-enroll :
        (m : Member) (st : Store) (refused : Option Error)
        → view (enroll s lib pw v m st refused).0.1 ≡ begin_signed_up s lib pw v m refused (view st)
    unfolding view
    view-enroll m st (some e) = refl
    view-enroll m st none =
        view-open_session s lib pw v up (st.users ++ (m ∷ [])) v.new_id none st.cache

    pub view-register :
        (body : UserCreate) (st : Store)
        → view (register s lib pw v body st).0.1 ≡ ledger_step s lib pw v (registers body) (view st)
    unfolding view register ledger_step
    view-register body st = view-enroll _ st (register_error s lib pw v body st.users)

    view-log_in :
        (st : Store) (found : Option Member) (password_ok : Bool)
        → view (log_in s lib pw v st found password_ok).1
          ≡ begin_checked s lib pw v found password_ok (view st)
    view-log_in st none password_ok = refl
    view-log_in st (some m) true = view-open_session s lib pw v up st.users (id_of m) none st.cache
    view-log_in st (some m) false = refl

    pub view-login :
        (email password : Text) (st : Store)
        → view (login s lib pw v email password st).1
          ≡ ledger_step s lib pw v (logs_in email password) (view st)
    unfolding view login ledger_step
    view-login email password st =
        let found = by_email st.users email in
        view-log_in st found (pw.check password (hash_of s lib pw found))

    view-enter_demo :
        (session_id : Text) (users : Users) (cache : Cache) (found : Option Member)
        → view (enter_demo s lib pw v session_id users cache found).1
          ≡ begin_known s lib pw v found (view (record { users = users; cache = cache }))
    view-enter_demo session_id users cache none = refl
    view-enter_demo session_id users cache (some m) =
        view-open_session s lib pw v up users (id_of m) (some session_id) cache

    pub view-demo_login :
        (email session_id : Text) (seed : Users → Users) (st : Store)
        → view (demo_login s lib pw v email session_id seed st).1
          ≡ ledger_step s lib pw v (enters_demo email session_id seed) (view st)
    unfolding view demo_login ledger_step
    view-demo_login email session_id seed st =
        let users = if is_some (by_email st.users email) then st.users else seed st.users in
        elim (Bool-cases s.demo_mode) [
          | inl t ↦ rw t (view-enter_demo session_id users st.cache (by_email users email))
          | inr f ↦ rw f refl
        ]

    view-create_magic_token :
        (users : Users) (email : Text) (cache : Cache)
        → view (record {
          users = users;
          cache = (create_magic_token s lib email v.jti v.set_up cache v.now).1;
        })
          ≡ invite_by s lib pw v email (view (record { users = users; cache = cache }))
    unfolding view create_magic_token cache_set grant refresh_allowlist_key magic_key
    view-create_magic_token users email cache = rw up.sets refl

    view-cache_set_nx :
        (st : Store) (user_id value : Text) (ttl : ℕ)
        → view (record st {
          cache = (cache_set_nx v.set_up st.cache v.now (resend_key user_id) value ttl).1;
        })
          ≡ view st
    unfolding view cache_set_nx cache_set resend_key refresh_allowlist_key magic_key
    view-cache_set_nx st user_id value ttl =
        elim (Bool-cases (is_some (cache_get true st.cache v.now (resend_key user_id)))) [
          | inl t ↦ rw (up.sets, t) refl
          | inr f ↦ rw (up.sets, f) refl
        ]

    view-resend :
        (m : Member) (st : Store)
        → view (record st { cache = (resend_verification s lib v m st.cache).0 }) ≡ view st
    unfolding resend_verification
    view-resend m st =
        let user_id = lib.show_uuid (id_of m) in
        let nx = cache_set_nx v.set_up st.cache v.now (resend_key user_id) (codes "1") 300 in
        let same = view-cache_set_nx st user_id (codes "1") 300 in
        elim (Bool-cases (is_some m.account.user.email_verified_at)) [
          | inl verified ↦ rw verified refl
          | inr pending ↦ elim (Bool-cases nx.0) [
            | inl t ↦ rw (pending, t) same
            | inr f ↦ rw (pending, f) same
          ]
        ]

    pub view-resent :
        (st : Store) (found : Option Member) → view (resent s lib pw v st found) ≡ view st
    view-resent st none = refl
    view-resent st (some m) = view-resend m st

    pub view-magic_link_request :
        (given : Text) (name : Option Text) (accept_terms : Bool) (password : Text) (st : Store)
        → view (magic_link_request s lib pw v given name accept_terms password st).0.1
          ≡ ledger_step s lib pw v (asks_link given name accept_terms password) (view st)
    unfolding view magic_link_request ledger_step
    view-magic_link_request given name accept_terms password st =
        let email = lower given in
        let known = is_some (by_email st.users email) in
        let refused = magic_link_error s lib pw v email accept_terms st.users in
        elim (Bool-cases s.demo_mode) [
          | inl d ↦ rw d refl
          | inr d ↦ elim (Bool-cases known) [
            | inl k ↦ rw (d, k) (view-create_magic_token st.users email st.cache)
            | inr k ↦ elim (Bool-cases refused) [
              | inl r ↦ rw (d, k, r) refl
              | inr r ↦ rw (d, k, r) (view-create_magic_token _ email st.cache)
            ]
          ]
        ]
